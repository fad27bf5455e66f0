-- ===== src/Change/Sessions.antt =====
-- crates/anp-identity/src/facade/document_change.rs: the calls of a `DocumentChangeSession`. The
-- session shares the `DidIdentity` with its `ManagedIdentity`, so a call changes the record that is
-- held there, and the disk; `clock` is the time of a cleanup journal.
use anp_identity.Adoption.{VerifiedDocumentEvidence}
use anp_identity.Anp.{Anp}
use anp_identity.Candidate.Prepare.{PreparedUpdate}
use anp_identity.Change.Public.{PublicIdentity, project_public_identity}
use anp_identity.Disk.{Action, Disk}
use anp_identity.Disk.Transitions.{transition_state_eq}
use anp_identity.Document.{document_digest}
use anp_identity.Errors.{DidResult, err, map_ok, ok, refuse_if}
use anp_identity.Facade.{
  IdentityResult, conflict, document_change_not_found, engine_result, from_did_error,
  invalid_document_change_state, invalid_request,
}
use anp_identity.Input.{profile_eq, role_eq}
use anp_identity.Json.{Value, value_eq}
use anp_identity.Keystore.{secret_ref_eq}
use anp_identity.Lifecycle.{
  ReconcileOutcome, abort_update_inner, begin_publication, commit_verified_update,
  mark_publication_uncertain, reconcile_update, reject_publication_before_acceptance,
}
use anp_identity.Prelude.{
  false, if◌then◌else◌, list_eq, nat_eq, none, not, option_eq, pair_eq, some, true, ℕ, ◌++◌, ◌==◌,
  ◌||◌,
}
use anp_identity.Registry.{
  IdentityRecord, PendingRevisionRecord, PublicationState, capability_eq, key_state_eq, origin_eq,
  prepared, publication_eq, publication_in_flight, publication_uncertain, published, state_eq,
  summary_eq,
}
use anp_identity.Text.{Text, lit, starts_with}
use anp_identity.Transition.Prepare.{IdentityRef}

pub record Handle : Type 0 where
  pub held : IdentityRecord
  pub disk : Disk

abbrev pub Shared {ℓ} : Type ℓ → Type ℓ
Shared A = Handle → IdentityResult A × Handle

abbrev pub share {ℓ} : {A : Type ℓ} → IdentityResult A → Shared A
share r h = (r, h)

abbrev pub proceed {ℓ κ} :
    {A : Type ℓ} {B : Type κ}
    → (A → Shared B)
    → IdentityResult A × Handle
    → IdentityResult B × Handle
proceed f (ok a, h) = f a h
proceed f (err e, h) = (err e, h)

infixl 5 ◌>>=◌ ◌>>◌
unfoldable pub ◌>>=◌ {ℓ κ} : {A : Type ℓ} {B : Type κ} → Shared A → (A → Shared B) → Shared B
◌>>=◌ m f h = proceed f (m h)

abbrev pub ◌>>◌ {ℓ} : {B : Type ℓ} → Shared (Unit {0}) → Shared B → Shared B
m >> n = m >>= λ _. n

-- A call of the engine replaces the record when it returns, and only then.
abbrev pub engine_end :
    IdentityRecord → DidResult IdentityRecord × Disk → IdentityResult (Unit {0}) × Handle
engine_end held (ok s, d) = (ok tt, record { held = s; disk = d })
engine_end held (err e, d) = (err (from_did_error e), record { held = held; disk = d })

unfoldable pub on_engine : (IdentityRecord → Action IdentityRecord) → Shared (Unit {0})
on_engine op h = engine_end h.held (op h.held h.disk)

abbrev with_outcome_end :
    IdentityRecord
    → DidResult (IdentityRecord × ReconcileOutcome) × Disk
    → IdentityResult ReconcileOutcome × Handle
with_outcome_end held (ok (s, outcome), d) = (ok outcome, record { held = s; disk = d })
with_outcome_end held (err e, d) = (err (from_did_error e), record { held = held; disk = d })

pub record ChangeSession : Type 0 where
  pub store_id : Text
  pub reference : IdentityRef
  pub candidate : PreparedUpdate

pub record PublicationAttempt : Type 0 where
  pub operation_id : Text
  pub candidate_digest : Text
  pub publication_generation : ℕ

-- `VerifiedPublicationEvidence` has the fields of the engine's evidence.
pub data PublicationResult : Type 0 where
  accepted : VerifiedDocumentEvidence → PublicationResult
  rejected lost : PublicationResult

pub data DocumentChangeOutcome : Type 0 where
  change_ready change_uncertain change_aborted : DocumentChangeOutcome
  change_committed : PublicIdentity → DocumentChangeOutcome

-- `required_pending` of the session.
unfoldable pub required_change :
    ChangeSession → IdentityRecord → IdentityResult PendingRevisionRecord
required_change session held = elim held.pending_revision [
  | none ↦ err document_change_not_found
  | some p ↦
      if not (p.revision_id == session.candidate.revision_id)
        || (not (p.candidate_digest == session.candidate.candidate_digest)
            || (not (held.identity_id == session.reference.identity_id)
                || not (held.did == session.reference.did)))
      then err conflict
      else ok p
]

abbrev pub pending_now : ChangeSession → Shared PendingRevisionRecord
pending_now session h = (required_change session h.held, h)

unfoldable pub validate_change_attempt :
    ChangeSession → PublicationAttempt → PendingRevisionRecord → IdentityResult (Unit {0})
validate_change_attempt session attempt p =
    refuse_if
      (not (attempt.operation_id == session.candidate.revision_id)
        || (not (attempt.candidate_digest == session.candidate.candidate_digest)
            || not (attempt.publication_generation == p.generation)))
      conflict

unfoldable pub validate_change_evidence :
    VerifiedDocumentEvidence → Text → IdentityResult (Unit {0})
validate_change_evidence e expected =
    refuse_if
      (e.document_version == 0 || (e.registry_version == 0 || not (e.document_digest == expected)))
      invalid_request

unfoldable pub engine_evidence : VerifiedDocumentEvidence → VerifiedDocumentEvidence
engine_evidence e = record e {
  document_digest =
      if starts_with (lit "sha256:") e.document_digest
      then e.document_digest
      else lit "sha256:" ++ e.document_digest;
}

abbrev pub committed_outcome : ChangeSession → Shared DocumentChangeOutcome
committed_outcome session h =
    (map_ok change_committed (project_public_identity session.store_id h.held), h)

module _ ⦃anp : Anp⦄ where
  abbrev pub begin_change_by : ChangeSession → PublicationState → Shared (Unit {0})
  begin_change_by session prepared = on_engine (begin_publication session.candidate.revision_id)
  begin_change_by session publication_in_flight = share (ok tt)
  begin_change_by session published = share (ok tt)
  begin_change_by session publication_uncertain = share (err invalid_document_change_state)

  unfoldable pub begin_change : ChangeSession → Shared PublicationAttempt
  begin_change session = do
    p ← pending_now session
    begin_change_by session p.state
    q ← pending_now session
    share (
        ok (record {
          operation_id = session.candidate.revision_id;
          candidate_digest = session.candidate.candidate_digest;
          publication_generation = q.generation;
        }))

  abbrev pub conclude_change :
      Text
      → ChangeSession
      → PendingRevisionRecord
      → PublicationResult
      → Shared DocumentChangeOutcome
  conclude_change clock session p (accepted evidence) = do
    share (validate_change_evidence evidence session.candidate.candidate_digest)
    share (
        refuse_if (not (p.state == publication_in_flight || p.state == published))
          invalid_document_change_state)
    on_engine
        (commit_verified_update session.candidate.revision_id false (engine_evidence evidence))
    committed_outcome session
  conclude_change clock session p rejected = do
    share (refuse_if (not (p.state == publication_in_flight)) invalid_document_change_state)
    on_engine (reject_publication_before_acceptance session.candidate.revision_id)
    on_engine (abort_update_inner clock session.candidate.revision_id none)
    share (ok change_aborted)
  conclude_change clock session p lost = do
    share (refuse_if (not (p.state == publication_in_flight)) invalid_document_change_state)
    on_engine (mark_publication_uncertain session.candidate.revision_id)
    share (ok change_uncertain)

  unfoldable pub complete_change :
      Text → ChangeSession → PublicationAttempt → PublicationResult → Shared DocumentChangeOutcome
  complete_change clock session attempt result = do
    p ← pending_now session
    share (validate_change_attempt session attempt p)
    conclude_change clock session p result

  -- The document that the registry shows is the candidate, or it is left to the engine.
  abbrev settle_change : ChangeSession → Value → VerifiedDocumentEvidence → Shared ReconcileOutcome
  settle_change session document evidence h =
      if document == session.candidate.candidate_document
      then (on_engine
              (commit_verified_update session.candidate.revision_id true (engine_evidence evidence))
            >>= λ _. share (ok ReconcileOutcome.committed))
          h
      else with_outcome_end h.held
          (reconcile_update session.candidate.revision_id document h.held h.disk)

  abbrev reconciled_outcome : ChangeSession → ReconcileOutcome → Shared DocumentChangeOutcome
  reconciled_outcome session ReconcileOutcome.committed = committed_outcome session
  reconciled_outcome session ReconcileOutcome.remote_old = do
    p ← pending_now session
    share (ok (if p.state == publication_uncertain then change_uncertain else change_ready))

  unfoldable pub reconcile_change :
      ChangeSession → Value → VerifiedDocumentEvidence → Shared DocumentChangeOutcome
  reconcile_change session document evidence = do
    digest ← share (engine_result (document_digest document))
    share (validate_change_evidence evidence digest)
    p ← pending_now session
    share (refuse_if (not (p.state == publication_uncertain)) invalid_document_change_state)
    outcome ← settle_change session document evidence
    reconciled_outcome session outcome

  unfoldable pub reconcile_rejected_change :
      Text → ChangeSession → Value → VerifiedDocumentEvidence → Shared DocumentChangeOutcome
  reconcile_rejected_change clock session document evidence = do
    digest ← share (engine_result (document_digest document))
    share (validate_change_evidence evidence digest)
    _ ← pending_now session
    on_engine (
        abort_update_inner clock session.candidate.revision_id
          (some (record { document = document; evidence = engine_evidence evidence })))
    share (ok change_aborted)
