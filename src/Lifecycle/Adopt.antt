-- ===== src/Lifecycle/Adopt.antt =====
-- crates/anp-identity/src/adoption.rs: `adopt_verified_document_inner` and the change of state that it
-- writes to the identity and to the registry.
use anp_identity.Adoption.{
  AdoptDocumentOutcome, AdoptVerifiedDocumentSpec, validate_verified_document,
}
use anp_identity.Adoption.Settle.{adopt_record}
use anp_identity.Anp.{Anp}
use anp_identity.Assoc.{insert, lookup}
use anp_identity.Disk.{Action, lift, pure, ◌>>=◌, ◌>>◌}
use anp_identity.Disk.Files.{
  list_identity_transition_journals, read_identity, read_registry, remove_journal, write_journal,
  write_registry,
}
use anp_identity.Document.{checked_inc}
use anp_identity.Errors.{
  DidResult, conflict, err, identity_not_found, invalid_identity, key_not_usable, ok,
  pending_revision_exists, refuse_if,
}
use anp_identity.Input.{profile_eq, role_eq}
use anp_identity.Json.{get_str, value_eq}
use anp_identity.Keystore.{secret_ref_eq}
use anp_identity.Lifecycle.{persist_record}
use anp_identity.Prelude.{
  Bool, Option, [], any, false, if◌then◌else◌, is_some, list_eq, nat_eq, none, not, option_eq,
  pair_eq, some, true, ◌&&◌, ◌==◌, ◌||◌,
}
use anp_identity.Registry.{
  IdentityRecord, IdentityState, RootCapabilityState, capability_eq, key_state_eq, origin_eq,
  publication_eq, state_eq, summary, summary_eq,
}
use anp_identity.Registry.Journals.{
  IdentityRegistry, IdentityTransitionJournal, IdentityTransitionJournalState, new_journal,
  state_transition,
}
use anp_identity.Text.{Text, lit}

module _ ⦃anp : Anp⦄ where
  -- `registry.identities.get_mut(did).filter(..)`: the summary that a change of state replaces.
  unfoldable pub own_summary : IdentityRecord → IdentityRegistry → DidResult (Unit {0})
  own_summary r registry = elim (lookup r.did registry.identities) [
    | none ↦ err identity_not_found
    | some old ↦ if old.identity_id == r.identity_id then ok tt else err identity_not_found
  ]

  unfoldable pub persist_state_transition : Text → Text → IdentityRecord → Action IdentityRecord
  persist_state_transition now transaction_id r = do
    write_journal (new_journal state_transition transaction_id r.identity_id r.did [] now)
    s ← persist_record r
    registry ← read_registry
    lift (own_summary s registry)
    generation ← lift (checked_inc registry.generation)
    write_registry (record registry {
      identities = insert s.did (summary s) registry.identities;
      generation = generation;
    })
    remove_journal transaction_id
    pure s

  -- The transition of this identity that has begun and has not ended.
  abbrev is_open : IdentityTransitionJournalState → Bool
  is_open IdentityTransitionJournalState.prepared = true
  is_open IdentityTransitionJournalState.publication_in_flight = true
  is_open IdentityTransitionJournalState.publication_uncertain = true
  is_open _ = false

  unfoldable pub concerns : IdentityRecord → IdentityTransitionJournal → Bool
  concerns r j =
      (j.predecessor_identity_id == r.identity_id || j.successor_identity_id == r.identity_id)
      && is_open j.state

  abbrev check_sibling : Bool → IdentityRecord → Action (Unit {0})
  check_sibling false r = pure tt
  check_sibling true r = do
    lift (
        refuse_if
          (not (r.state == IdentityState.active)
            || not (r.root_capability == RootCapabilityState.active))
          key_not_usable)
    transitions ← list_identity_transition_journals
    lift (refuse_if (any (concerns r) transitions) conflict)

  abbrev write_adopted :
      Text
      → Text
      → Bool
      → IdentityRecord
      → Option IdentityRecord × AdoptDocumentOutcome
      → Action (IdentityRecord × AdoptDocumentOutcome)
  write_adopted now transaction_id sibling_only held (none, outcome) = pure (held, outcome)
  write_adopted now transaction_id true held (some t, outcome) =
      persist_record t >>= λ s. pure (s, outcome)
  write_adopted now transaction_id false held (some t, outcome) =
      persist_state_transition now transaction_id t >>= λ s. pure (s, outcome)

  unfoldable pub adopt_verified_document_inner :
      Text
      → Text
      → Bool
      → AdoptVerifiedDocumentSpec
      → IdentityRecord
      → Action (IdentityRecord × AdoptDocumentOutcome)
  adopt_verified_document_inner now transaction_id sibling_only spec held = do
    lift (validate_verified_document spec.document spec.evidence)
    lift (refuse_if (not (get_str spec.document (lit "id") == some held.did)) invalid_identity)
    r ← read_identity held.identity_id
    lift (refuse_if (not (r.generation == held.generation)) conflict)
    lift (refuse_if (is_some r.pending_revision) pending_revision_exists)
    check_sibling sibling_only r
    adopted ← lift (adopt_record sibling_only spec r)
    write_adopted now transaction_id sibling_only held adopted
