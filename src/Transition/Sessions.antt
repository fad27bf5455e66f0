-- ===== src/Transition/Sessions.antt =====
-- crates/anp-identity/src/facade/identity_transition.rs: the calls of a manager and of a
-- session: `prepare_identity_transition`, `begin_publication`, `complete` and `reconcile`.
use anp_identity.Anp.{Anp}
use anp_identity.Disk.Files.{list_identity_transition_journals, read_registry}
use anp_identity.Disk.Transitions.{
  read_identity_transition_journal, transition_state_eq, write_identity_transition_journal,
}
use anp_identity.Errors.{DidResult, err, ok, refuse_if}
use anp_identity.Facade.{
  Request, conflict, demand, engine, give, invalid_document_change_state, look, ◌>>=◌, ◌>>◌,
}
use anp_identity.Input.{profile_eq, role_eq}
use anp_identity.Json.{value_eq}
use anp_identity.KeyOps.{Curves}
use anp_identity.KeyOps.Proofs.{Proofs}
use anp_identity.Keystore.{secret_ref_eq}
use anp_identity.Prelude.{
  List, any, if◌then◌else◌, list_eq, nat_eq, not, option_eq, pair_eq, ℕ, ◌==◌,
}
use anp_identity.Registry.{
  capability_eq, key_state_eq, origin_eq, publication_eq, state_eq, summary_eq,
}
use anp_identity.Registry.Journals.{
  IdentityRegistry, IdentityTransitionJournal, IdentityTransitionJournalState,
}
use anp_identity.Text.{Text}
use anp_identity.Transition.{
  Hops, IdentityTransitionOutcome, IdentityTransitionPublicationAttempt,
  IdentityTransitionPublicationResult, IdentityTransitionRemoteObservation, advance_journal,
  attempt_from_journal, conclude, judge, reload_and_validate, validate_attempt,
}
use anp_identity.Transition.Prepare.{
  IdentityTransitionRequest, IdentityTransitionSession, blocks, from_journal,
  journal_matches_request, new_hop, validate_request,
}

pub data SessionCall : Type 0 where
  begin_call : SessionCall
  complete_call :
      IdentityTransitionPublicationAttempt → IdentityTransitionPublicationResult → SessionCall
  reconcile_call : IdentityTransitionRemoteObservation → SessionCall

module _ ⦃anp : Anp⦄ where
  abbrev pub save : IdentityTransitionJournal → Request IdentityTransitionJournal
  save j = engine (write_identity_transition_journal j) >>= λ _. give j

  abbrev pub begin_by :
      IdentityTransitionJournalState → IdentityTransitionJournal → Request IdentityTransitionJournal
  begin_by IdentityTransitionJournalState.prepared j =
      demand (advance_journal IdentityTransitionJournalState.publication_in_flight j) >>= λ s.
      save s
  begin_by IdentityTransitionJournalState.publication_in_flight j = give j
  begin_by _ j = demand (err invalid_document_change_state)

  unfoldable pub begin_transition :
      IdentityTransitionJournal
      → Request (IdentityTransitionJournal × IdentityTransitionPublicationAttempt)
  begin_transition held = do
    j ← look (reload_and_validate held)
    s ← begin_by j.state j
    give (s, attempt_from_journal s)

  unfoldable pub complete_transition :
      IdentityTransitionPublicationAttempt
      → IdentityTransitionPublicationResult
      → IdentityTransitionJournal
      → Request (IdentityTransitionJournal × IdentityTransitionOutcome)
  complete_transition attempt result held = do
    j ← look (reload_and_validate held)
    demand (validate_attempt attempt j)
    demand (
        refuse_if (not (j.state == IdentityTransitionJournalState.publication_in_flight))
          invalid_document_change_state)
    concluded ← demand (conclude result j)
    s ← demand (advance_journal concluded.1 j)
    t ← save s
    give (t, concluded.0)

  module _ ⦃hops : Hops⦄ where
    unfoldable pub reconcile_transition :
        IdentityTransitionRemoteObservation
        → IdentityTransitionJournal
        → Request (IdentityTransitionJournal × IdentityTransitionOutcome)
    reconcile_transition observation held = do
      j ← look (reload_and_validate held)
      demand (
          refuse_if (not (j.state == IdentityTransitionJournalState.publication_uncertain))
            invalid_document_change_state)
      judged ← demand (judge observation j)
      s ← demand (advance_journal judged.1 j)
      t ← save s
      give (t, judged.0)

    -- The calls of a session as one type, for its histories.
    abbrev pub journal_only {ℓ κ} : {A : Type ℓ} {B : Type κ} → Request (A × B) → Request A
    journal_only m = m >>= λ x. give x.0

    unfoldable pub run_call :
        SessionCall → IdentityTransitionJournal → Request IdentityTransitionJournal
    run_call begin_call held = journal_only (begin_transition held)
    run_call (complete_call attempt result) held =
        journal_only (complete_transition attempt result held)
    run_call (reconcile_call observation) held =
        journal_only (reconcile_transition observation held)

    module _ ⦃curves : Curves⦄ ⦃proofs : Proofs⦄ where
      -- The part of `prepare_identity_transition` that makes a journal.
      abbrev pub start_hop :
          List ℕ
          → Text
          → IdentityTransitionRequest
          → IdentityRegistry
          → Request IdentityTransitionSession
      start_hop root_key created_at r registry = do
        journals ← engine list_identity_transition_journals
        demand (refuse_if (any (blocks r.expected_current_did) journals) conflict)
        j ← look (new_hop root_key created_at r registry)
        s ← save j
        demand (from_journal s)

      abbrev pub reuse_or_start :
          List ℕ
          → Text
          → IdentityTransitionRequest
          → IdentityRegistry
          → DidResult IdentityTransitionJournal
          → Request IdentityTransitionSession
      reuse_or_start root_key created_at r registry (ok existing) =
          demand
            (if journal_matches_request existing r then from_journal existing else err conflict)
      reuse_or_start root_key created_at r registry (err _) =
          start_hop root_key created_at r registry

      -- `generation` is the one of the registry that the manager holds.
      unfoldable pub prepare_identity_transition :
          Text → ℕ → List ℕ → Text → IdentityTransitionRequest → Request IdentityTransitionSession
      prepare_identity_transition store_id generation root_key created_at r = do
        demand (validate_request r store_id)
        registry ← engine read_registry
        demand (refuse_if (not (registry.generation == generation)) conflict)
        existing ← look (λ d. ok (read_identity_transition_journal r.operation_id d))
        reuse_or_start root_key created_at r registry existing
