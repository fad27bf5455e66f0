-- ===== src/Identity.antt =====
-- crates/anp-identity/src/identity.rs: opening an identity, and the recovery of a store whose last
-- transaction was cut off.

pub mod Forward
pub mod Rollback
pub mod Enough
use anp_identity.Anp.{Anp}
use anp_identity.Assoc.{insert, lookup, remove}
use anp_identity.Disk.{Action, for_each, lift, pure, ◌>>=◌, ◌>>◌}
use anp_identity.Disk.Files.{
  delete_secret, list_journals, read_identity, read_registry, remove_identity, remove_journal,
  write_identity, write_registry,
}
use anp_identity.Document.{checked_inc}
use anp_identity.Errors.{identity_not_found, invalid_identity, ok_or, refuse_if}
use anp_identity.Input.{profile_eq, role_eq, root_control}
use anp_identity.Json.{value_eq}
use anp_identity.Keystore.{secret_ref_eq}
use anp_identity.Lifecycle.{recover_update_journals}
use anp_identity.Prelude.{
  Bool, List, [], any, false, if◌then◌else◌, is_some_and, list_eq, nat_eq, not, option_eq, pair_eq,
  some, true, ◌&&◌, ◌==◌, ◌||◌, ◌∷◌,
}
use anp_identity.Registry.{
  IdentityRecord, IdentityState, KeyMetadata, RootCapabilityState, capability_eq, key_state_eq,
  managed, origin_eq, publication_eq, state_eq, summary, summary_eq,
}
use anp_identity.Registry.Journals.{
  CreationJournal, CreationJournalKind, IdentityRegistry, create, namespace_delete, root_import,
  state_transition,
}
use anp_identity.Text.{Text}

module _ ⦃anp : Anp⦄ where
  unfoldable pub open_identity : Text → Action IdentityRecord
  open_identity did = do
    registry ← read_registry
    found ← lift (ok_or identity_not_found (lookup did registry.identities))
    r ← read_identity found.identity_id
    lift (
        refuse_if
          (not (r.did == did)
            || (r.state == IdentityState.creating || not (r.state == found.state)))
          invalid_identity)
    pure r

  -- `summary.identity_id == journal.identity_id`: the registry names the identity of the journal.
  unfoldable pub is_committed : IdentityRegistry → CreationJournal → Bool
  is_committed registry j =
      is_some_and (λ found. found.identity_id == j.identity_id) (lookup j.did registry.identities)

  -- The summary of the record goes to the registry, if it is not there.
  unfoldable pub sync_summary :
      CreationJournal → IdentityRecord → IdentityRegistry → Action IdentityRegistry
  sync_summary j r registry =
      if lookup j.did registry.identities == some (summary r) then pure registry else (do
        generation ← lift (checked_inc registry.generation)
        let next_registry : IdentityRegistry = record registry {
          identities = insert j.did (summary r) registry.identities;
          generation = generation;
        }
        write_registry next_registry
        pure next_registry)

  abbrev pub read_own : CreationJournal → Action IdentityRecord
  read_own j = do
    r ← read_identity j.identity_id
    lift (refuse_if (not (r.did == j.did)) invalid_identity)
    pure r

  unfoldable pub recover_state_transition :
      CreationJournal → IdentityRegistry → Action IdentityRegistry
  recover_state_transition j registry = do
    r ← read_own j
    synced ← sync_summary j r registry
    remove_journal j.transaction_id
    pure synced

  abbrev is_root_key : KeyMetadata → Bool
  is_root_key key = key.role == root_control && (key.origin == managed && not key.material_erased)

  unfoldable pub root_is_imported : IdentityRecord → Bool
  root_is_imported r =
      (r.root_capability == RootCapabilityState.pending
        || r.root_capability == RootCapabilityState.active)
      && any is_root_key r.keys

  unfoldable pub recover_root_import : CreationJournal → IdentityRegistry → Action IdentityRegistry
  recover_root_import j registry = do
    r ← read_own j
    synced ←
        if root_is_imported r
        then sync_summary j r registry
        else (for_each delete_secret j.secret_refs >>= λ _. pure registry)
    remove_journal j.transaction_id
    pure synced

  unfoldable pub drop_summary : CreationJournal → IdentityRegistry → Action IdentityRegistry
  drop_summary j registry =
      if is_committed registry j
      then (do
        generation ← lift (checked_inc registry.generation)
        let next_registry : IdentityRegistry = record registry {
          identities = remove j.did registry.identities;
          generation = generation;
        }
        write_registry next_registry
        pure next_registry)
      else pure registry

  unfoldable pub recover_namespace_delete :
      CreationJournal → IdentityRegistry → Action IdentityRegistry
  recover_namespace_delete j registry = do
    for_each delete_secret j.secret_refs
    remove_identity j.identity_id
    dropped ← drop_summary j registry
    remove_journal j.transaction_id
    pure dropped

  abbrev pub activate_record : IdentityRecord → Action (Unit {0})
  activate_record r =
      if r.state == IdentityState.creating
      then write_identity (record r { state = IdentityState.active })
      else pure tt

  -- A creation goes forward if the registry names its identity, and back if it does not.
  unfoldable pub finish_creation : Bool → CreationJournal → Action (Unit {0})
  finish_creation true j = read_own j >>= activate_record
  finish_creation false j = do for_each delete_secret j.secret_refs; remove_identity j.identity_id

  unfoldable pub recover_create : CreationJournal → IdentityRegistry → Action IdentityRegistry
  recover_create j registry = do
    finish_creation (is_committed registry j) j
    remove_journal j.transaction_id
    pure registry

  abbrev recover_by_kind :
      CreationJournalKind → CreationJournal → IdentityRegistry → Action IdentityRegistry
  recover_by_kind create = recover_create
  recover_by_kind state_transition = recover_state_transition
  recover_by_kind root_import = recover_root_import
  recover_by_kind namespace_delete = recover_namespace_delete

  -- The loop over the journals.
  unfoldable pub recover_journals :
      List CreationJournal → IdentityRegistry → Action IdentityRegistry
  recover_journals [] registry = pure registry
  recover_journals (j ∷ js) registry = recover_by_kind j.kind j registry >>= recover_journals js

  unfoldable pub recover : Action IdentityRegistry
  recover = do
    registry ← read_registry
    journals ← list_journals
    recovered ← recover_journals journals registry
    recover_update_journals
    read_registry
