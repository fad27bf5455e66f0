-- ===== src/Lifecycle.antt =====
-- crates/anp-identity/src/lifecycle.rs: the publication of a document's next revision. A
-- `DidIdentity` is the record that it holds; an operation gives the record that it holds afterwards.
pub mod Adopt
pub mod Inversion
pub mod Aborted
pub mod Machine
pub mod Conflicts
pub mod Commit
pub mod Progress
use anp_identity.Adoption.{AdoptVerifiedDocumentSpec, VerifiedDocumentEvidence}
use anp_identity.Anp.{Anp}
use anp_identity.Disk.{Action, for_each, lift, pure, ◌>>=◌, ◌>>◌}
use anp_identity.Disk.Files.{
  delete_secret, list_update_journals, read_identity, remove_update_journal, write_identity,
  write_update_journal,
}
use anp_identity.Document.{checked_inc, validate_method_document}
use anp_identity.Errors.{
  DidResult, conflict, err, invalid_identity, invalid_publication_state, is_ok, map_ok, ok, ok_or,
  refuse_if,
}
use anp_identity.Input.{for_did, profile_eq, role_eq, web}
use anp_identity.Json.{Value, get_str, value_eq}
use anp_identity.Keystore.{secret_ref_eq}
use anp_identity.Pending.{check_abort, commit_record, required_pending, transition_record}
use anp_identity.Prelude.{
  Bool, Option, false, if◌then◌else◌, is_some_and, list_eq, nat_eq, none, not, option_eq, pair_eq,
  some, true, ◌==◌, ◌||◌,
}
use anp_identity.Registry.{
  IdentityRecord, IdentityState, PendingRevisionRecord, PublicationState, capability_eq,
  key_state_eq, origin_eq, prepared, publication_eq, publication_in_flight, publication_uncertain,
  state_eq, summary_eq,
}
use anp_identity.Registry.Journals.{
  UpdateJournal, UpdateJournalKind, cleanup, new_update_journal, prepare,
}
use anp_identity.Text.{Text, lit}

pub data ReconcileOutcome : Type 0 where
  remote_old committed : ReconcileOutcome

module _ ⦃anp : Anp⦄ where
  -- `canonical_digest`: unlike `document_digest`, it has no prefix.
  unfoldable pub canonical_digest : Value → DidResult Text
  canonical_digest document =
      map_ok anp.sha256_base64 (ok_or invalid_identity (anp.canonical_json document))

  abbrev pub if_current : IdentityRecord → IdentityRecord → DidResult IdentityRecord
  if_current held r =
      if not (r.generation == held.generation) || not (r.state == IdentityState.active)
      then err conflict
      else ok r

  unfoldable pub current_record_for_mutation : IdentityRecord → Action IdentityRecord
  current_record_for_mutation held =
      read_identity held.identity_id >>= λ r. lift (if_current held r)

  -- `persist_record`, with the record that it has changed.
  unfoldable pub persist_record : IdentityRecord → Action IdentityRecord
  persist_record r = do
    generation ← lift (checked_inc r.generation)
    let s : IdentityRecord = record r { generation = generation }
    write_identity s
    pure s

  -- A read of the current record, a change of it, and its write.
  unfoldable pub mutate :
      (IdentityRecord → DidResult IdentityRecord) → IdentityRecord → Action IdentityRecord
  mutate change held = do
    r ← current_record_for_mutation held
    s ← lift (change r)
    persist_record s

  unfoldable pub transition_publication :
      Text → PublicationState → PublicationState → IdentityRecord → Action IdentityRecord
  transition_publication revision_id expected following =
      mutate (transition_record revision_id expected following)

  unfoldable pub begin_publication : Text → IdentityRecord → Action IdentityRecord
  begin_publication revision_id = transition_publication revision_id prepared publication_in_flight

  unfoldable pub mark_publication_uncertain : Text → IdentityRecord → Action IdentityRecord
  mark_publication_uncertain revision_id =
      transition_publication revision_id publication_in_flight publication_uncertain

  unfoldable pub reject_publication_before_acceptance :
      Text → IdentityRecord → Action IdentityRecord
  reject_publication_before_acceptance revision_id =
      transition_publication revision_id publication_in_flight prepared

  unfoldable pub commit_pending :
      Text → Bool → Option VerifiedDocumentEvidence → IdentityRecord → Action IdentityRecord
  commit_pending revision_id from_reconcile evidence =
      mutate (commit_record revision_id from_reconcile evidence)

  unfoldable pub commit_verified_update :
      Text → Bool → VerifiedDocumentEvidence → IdentityRecord → Action IdentityRecord
  commit_verified_update revision_id from_reconcile evidence =
      commit_pending revision_id from_reconcile (some evidence)

  unfoldable pub abort_update_inner :
      Text → Text → Option AdoptVerifiedDocumentSpec → IdentityRecord → Action IdentityRecord
  abort_update_inner now revision_id rejection held = do
    r ← current_record_for_mutation held
    p ← lift (required_pending r revision_id)
    lift (check_abort held.did rejection r p)
    write_update_journal (
        new_update_journal p.revision_id r.identity_id p.pending_secret_refs
          UpdateJournalKind.cleanup now)
    s ← persist_record (record r { pending_revision = none })
    for_each delete_secret p.pending_secret_refs
    remove_update_journal revision_id
    pure s

  -- What `reconcile_update` does once it has the digest of the document observed.
  abbrev reconcile_by_digest :
      Text
      → Text
      → PendingRevisionRecord
      → IdentityRecord
      → Action (IdentityRecord × ReconcileOutcome)
  reconcile_by_digest revision_id observed p held =
      if observed == p.candidate_digest
      then (do s ← commit_pending revision_id true none held; pure (s, committed))
      else (do
        own ← lift (canonical_digest held.document)
        lift (refuse_if (not (observed == own)) conflict)
        profile ← lift (for_did held.did)
        if profile == web then pure (held, remote_old) else (do
          s ← transition_publication revision_id publication_uncertain prepared held
          pure (s, remote_old)))

  unfoldable pub reconcile_update :
      Text → Value → IdentityRecord → Action (IdentityRecord × ReconcileOutcome)
  reconcile_update revision_id document held = do
    p ← lift (required_pending held revision_id)
    lift (refuse_if (not (p.state == publication_uncertain)) invalid_publication_state)
    lift (
        refuse_if
          (not (get_str document (lit "id") == some held.did)
            || not (is_ok (validate_method_document document)))
          invalid_identity)
    observed ← lift (canonical_digest document)
    reconcile_by_digest revision_id observed p held

  -- `recover_update_journals`.
  abbrev is_pending_of : IdentityRecord → UpdateJournal → Bool
  is_pending_of r j = is_some_and (λ p. p.revision_id == j.revision_id) r.pending_revision

  abbrev clear_pending : Bool → IdentityRecord → Action (Unit {0})
  clear_pending true r = persist_record (record r { pending_revision = none }) >>= λ _. pure tt
  clear_pending false r = pure tt

  abbrev recover_by_kind : UpdateJournalKind → UpdateJournal → IdentityRecord → Action (Unit {0})
  recover_by_kind prepare j r =
      if is_pending_of r j then pure tt else for_each delete_secret j.secret_refs
  recover_by_kind cleanup j r = do
    clear_pending (is_pending_of r j) r
    for_each delete_secret j.secret_refs

  unfoldable pub recover_update_journal : UpdateJournal → Action (Unit {0})
  recover_update_journal j = do
    r ← read_identity j.identity_id
    recover_by_kind j.kind j r
    remove_update_journal j.revision_id

  unfoldable pub recover_update_journals : Action (Unit {0})
  recover_update_journals =
      list_update_journals >>= λ journals. for_each recover_update_journal journals
