-- ===== src/Transition.antt =====
-- crates/anp-identity/src/facade/identity_transition.rs: the publication of a hop from one identity
-- to its successor. A session holds a journal of the store; each call gives the journal that it
-- holds afterwards.
pub mod Prepare
pub mod Sessions
pub mod Steps
pub mod Moves
pub mod Commits
pub mod Quiet
pub mod Histories
pub mod Single
pub mod Exclusive
pub mod Kept
pub mod Ends
pub mod Resume
use anp_identity.Anp.{Anp}
use anp_identity.Disk.{Disk}
use anp_identity.Disk.Files.{read_identity}
use anp_identity.Disk.Transitions.{read_identity_transition_journal, transition_state_eq}
use anp_identity.Document.{document_digest}
use anp_identity.Errors.{err, ok, ok_or, refuse_if, ◌>>=◌, ◌>>◌}
use anp_identity.Facade.{
  IdentityResult, conflict, corrupt_state, engine_result, verification_failed,
}
use anp_identity.Input.{profile_eq, role_eq}
use anp_identity.Json.{Value, value_eq}
use anp_identity.Keystore.{secret_ref_eq}
use anp_identity.Prelude.{
  Bool, Option, if◌then◌else◌, list_eq, ltb, nat_eq, not, option_eq, pair_eq, ℕ, ◌+◌, ◌==◌, ◌^◌,
  ◌||◌,
}
use anp_identity.Registry.{
  capability_eq, key_state_eq, origin_eq, publication_eq, state_eq, summary_eq,
}
use anp_identity.Registry.Journals.{IdentityTransitionJournal, IdentityTransitionJournalState}
use anp_identity.Text.{Text, lit}

-- `anp::authentication`: `TransitionAssurance`, `verify_active_e1_document(..).is_ok()`, and
-- `verify_transition_hop`, whose error the callers replace.
pub data TransitionAssurance : Type 0 where
  verified recovery_verified provider_asserted unverified : TransitionAssurance

pub record Hops : Type 0 where
  pub verify_active_e1_document : Text → Value → Bool
  pub verify_transition_hop : Value → Value → Value → Option TransitionAssurance

pub record PreparedIdentityTransition : Type 0 where
  pub operation_id : Text
  pub expected_current_did : Text
  pub successor_did : Text
  pub predecessor_document : Value
  pub successor_document : Value
  pub predecessor_digest : Text
  pub successor_digest : Text
  pub assurance : Text

pub record IdentityTransitionPublicationAttempt : Type 0 where
  pub operation_id : Text
  pub predecessor_digest : Text
  pub successor_digest : Text
  pub publication_generation : ℕ

pub record IdentityTransitionPublicationEvidence : Type 0 where
  pub predecessor_digest : Text
  pub successor_digest : Text

pub data IdentityTransitionPublicationResult : Type 0 where
  confirmed : IdentityTransitionPublicationEvidence → IdentityTransitionPublicationResult
  rejected_before_acceptance unknown : IdentityTransitionPublicationResult

pub data IdentityTransitionRemoteObservation : Type 0 where
  remote_old : Value → IdentityTransitionRemoteObservation
  observed_published : Value → Value → IdentityTransitionRemoteObservation

pub data IdentityTransitionOutcome : Type 0 where
  ready_for_publication publication_uncertain aborted : IdentityTransitionOutcome
  committed : Text → IdentityTransitionOutcome

unfoldable pub assurance_name : TransitionAssurance → Text
assurance_name verified = lit "verified"
assurance_name recovery_verified = lit "recovery_verified"
assurance_name provider_asserted = lit "provider_asserted"
assurance_name unverified = lit "unverified"

unfoldable pub next_generation : ℕ → IdentityResult ℕ
next_generation n = if ltb (n + 1) (2 ^ 64) then ok (n + 1) else err conflict

unfoldable pub attempt_from_journal :
    IdentityTransitionJournal → IdentityTransitionPublicationAttempt
attempt_from_journal j = record {
  operation_id = j.operation_id;
  predecessor_digest = j.predecessor_digest;
  successor_digest = j.successor_digest;
  publication_generation = j.generation;
}

unfoldable pub validate_attempt :
    IdentityTransitionPublicationAttempt → IdentityTransitionJournal → IdentityResult (Unit {0})
validate_attempt a j =
    refuse_if
      (not (a.operation_id == j.operation_id)
        || (not (a.predecessor_digest == j.predecessor_digest)
            || (not (a.successor_digest == j.successor_digest)
                || not (a.publication_generation == j.generation))))
      conflict

unfoldable pub validate_evidence :
    IdentityTransitionPublicationEvidence → IdentityTransitionJournal → IdentityResult (Unit {0})
validate_evidence e j =
    refuse_if
      (not (e.predecessor_digest == j.predecessor_digest)
        || not (e.successor_digest == j.successor_digest))
      verification_failed

-- The session's journal after a step: the state that follows, at the next generation.
unfoldable pub advance_journal :
    IdentityTransitionJournalState
    → IdentityTransitionJournal
    → IdentityResult IdentityTransitionJournal
advance_journal following j = do
  generation ← next_generation j.generation
  ok (record j { state = following; generation = generation })

-- What `complete` makes of the result of a publication.
unfoldable pub conclude :
    IdentityTransitionPublicationResult
    → IdentityTransitionJournal
    → IdentityResult (IdentityTransitionOutcome × IdentityTransitionJournalState)
conclude (confirmed evidence) j = do
  validate_evidence evidence j
  ok (committed j.successor_did, IdentityTransitionJournalState.committed)
conclude rejected_before_acceptance j = ok (aborted, IdentityTransitionJournalState.aborted)
conclude unknown j =
    ok (publication_uncertain, IdentityTransitionJournalState.publication_uncertain)

module _ ⦃anp : Anp⦄ where
  unfoldable pub candidate_from_journal :
      IdentityTransitionJournal → IdentityResult PreparedIdentityTransition
  candidate_from_journal j = do
    predecessor ← engine_result (document_digest j.predecessor_document)
    successor ← engine_result (document_digest j.successor_document)
    refuse_if (not (predecessor == j.predecessor_digest) || not (successor == j.successor_digest))
        corrupt_state
    ok (record {
      operation_id = j.operation_id;
      expected_current_did = j.expected_current_did;
      successor_did = j.successor_did;
      predecessor_document = j.predecessor_document;
      successor_document = j.successor_document;
      predecessor_digest = j.predecessor_digest;
      successor_digest = j.successor_digest;
      assurance = j.assurance;
    })

  -- `reload_and_validate`: the stored journal is the one that the session holds, and neither
  -- identity has changed since the hop was prepared.
  unfoldable pub reload_and_validate :
      IdentityTransitionJournal → Disk → IdentityResult IdentityTransitionJournal
  reload_and_validate held d = do
    j ← engine_result (read_identity_transition_journal held.operation_id d)
    refuse_if
        (not (j.generation == held.generation)
          || (not (j.expected_current_did == held.expected_current_did)
              || (not (j.successor_did == held.successor_did)
                  || (not (j.predecessor_digest == held.predecessor_digest)
                      || not (j.successor_digest == held.successor_digest)))))
        conflict
    predecessor ← engine_result (read_identity j.predecessor_identity_id d).0
    successor ← engine_result (read_identity j.successor_identity_id d).0
    refuse_if
        (not (predecessor.generation == j.predecessor_generation)
          || (not (predecessor.did == j.expected_current_did)
              || (not (successor.generation == j.successor_generation)
                  || not (successor.did == j.successor_did))))
        conflict
    ok j

  module _ ⦃hops : Hops⦄ where
    -- What `reconcile` makes of what the remote registry shows.
    unfoldable pub judge :
        IdentityTransitionRemoteObservation
        → IdentityTransitionJournal
        → IdentityResult (IdentityTransitionOutcome × IdentityTransitionJournalState)
    judge (remote_old document) j = do
      refuse_if (not (hops.verify_active_e1_document j.expected_current_did document))
          verification_failed
      observed ← engine_result (document_digest document)
      trusted ← engine_result (document_digest j.trusted_predecessor_document)
      refuse_if (not (observed == trusted)) verification_failed
      ok (ready_for_publication, IdentityTransitionJournalState.prepared)
    judge (observed_published predecessor successor) j = do
      predecessor_digest ← engine_result (document_digest predecessor)
      refuse_if (not (predecessor_digest == j.predecessor_digest)) verification_failed
      successor_digest ← engine_result (document_digest successor)
      refuse_if (not (successor_digest == j.successor_digest)) verification_failed
      assurance ←
          ok_or verification_failed
            (hops.verify_transition_hop predecessor successor j.trusted_predecessor_document)
      refuse_if (not (assurance_name assurance == j.assurance)) verification_failed
      ok (committed j.successor_did, IdentityTransitionJournalState.committed)
