-- ===== src/Transition/Commits.antt =====
-- crates/anp-identity/src/facade/identity_transition.rs: what commits a hop.
use anp_identity.Anp.{Anp}
use anp_identity.Disk.{Disk}
use anp_identity.Disk.Transitions.{transition_state_eq}
use anp_identity.Document.{document_digest}
use anp_identity.Errors.{ok, ok-injective, ok_or, ok_or-eq-ok, refuse_if, result-eq-ok}
use anp_identity.Facade.{IdentityResult, engine_result, verification_failed}
use anp_identity.Facade.Outcome.{engine_result-eq-ok}
use anp_identity.Identity.{is_committed}
use anp_identity.Input.{profile_eq, role_eq}
use anp_identity.Json.{Value, value_eq}
use anp_identity.Keystore.{secret_ref_eq}
use anp_identity.Prelude.{
  ap, arith, eq_iff, list_eq, nat_eq, not, option_eq, pair_eq, some, ◌==◌, ◌∙◌, ◌≡◌, ◌≢◌,
}
use anp_identity.Registry.{
  capability_eq, key_state_eq, origin_eq, publication_eq, state_eq, summary_eq,
}
use anp_identity.Registry.Journals.{IdentityTransitionJournal, IdentityTransitionJournalState}
use anp_identity.Text.{Text}
use anp_identity.Transition.{
  Hops, IdentityTransitionOutcome, IdentityTransitionPublicationAttempt,
  IdentityTransitionPublicationEvidence, TransitionAssurance, assurance_name, conclude, confirmed,
  judge, observed_published, rejected_before_acceptance, reload_and_validate, remote_old, unknown,
  validate_attempt, validate_evidence,
}
use anp_identity.Transition.Moves.{
  begin_transition-state, complete_transition-IsHopStep, journal_only-eq-ok, judge_old-eq-ok,
  reconcile_transition-IsHopStep,
}
use anp_identity.Transition.Sessions.{
  SessionCall, begin_call, begin_transition, complete_call, complete_transition, reconcile_call,
  reconcile_transition, run_call,
}

module _ ⦃anp : Anp⦄ where
  refused-eq :
      (a b : Text)
      → Path (IdentityResult (Unit {0})) (refuse_if (not (a == b)) verification_failed) (ok tt)
      → a ≡ b
  refused-eq a b h = ground (arith, eq_iff a b)

  not_committed :
      {A : Type 0} {concluded : IdentityTransitionOutcome × IdentityTransitionJournalState}
      {outcome : IdentityTransitionOutcome} {state : IdentityTransitionJournalState}
      → concluded ≡ (outcome, state)
      → concluded.1 ≢ IdentityTransitionJournalState.committed
      → state ≡ IdentityTransitionJournalState.committed
      → A
  not_committed q other is_committed = absurd (other (ap (λ x. x.1) q ∙ is_committed))

  module _ ⦃hops : Hops⦄ where
    -- What a confirmation must show: the digests of the hop in the evidence that comes with the
    -- answer, or, in documents that the remote registry shows, the digests and a hop from the
    -- trusted predecessor that is verified with the same assurance.
    pub Shows : SessionCall → IdentityTransitionJournal → Type 0
    Shows begin_call j = ⊥
    Shows (complete_call attempt rejected_before_acceptance) j = ⊥
    Shows (complete_call attempt unknown) j = ⊥
    Shows (complete_call attempt (confirmed e)) j =
        (attempt.publication_generation ≡ j.generation)
        × (e.predecessor_digest ≡ j.predecessor_digest)
        × (e.successor_digest ≡ j.successor_digest)
    Shows (reconcile_call (remote_old document)) j = ⊥
    Shows (reconcile_call (observed_published predecessor successor)) j =
        (document_digest predecessor ≡ ok j.predecessor_digest)
        × (document_digest successor ≡ ok j.successor_digest)
        × ((a : TransitionAssurance) × (hops.verify_transition_hop predecessor successor
                j.trusted_predecessor_document
              ≡ some a)
            × (assurance_name a ≡ j.assurance))

    judge_published-Shows :
        (predecessor successor : Value) (j : IdentityTransitionJournal)
        (judged : IdentityTransitionOutcome × IdentityTransitionJournalState)
        → judge (observed_published predecessor successor) j ≡ ok judged
        → Shows (reconcile_call (observed_published predecessor successor)) j
    unfolding judge Shows
    judge_published-Shows predecessor successor j judged h =
        let (a, q1, h1) = result-eq-ok (engine_result (document_digest predecessor)) _ judged h in
        let (u, q2, h2) =
          result-eq-ok (refuse_if (not (a == j.predecessor_digest)) verification_failed) _ judged
            h1 in
        let (b, q3, h3) = result-eq-ok (engine_result (document_digest successor)) _ judged h2 in
        let (v, q4, h4) =
          result-eq-ok (refuse_if (not (b == j.successor_digest)) verification_failed) _ judged
            h3 in
        let (c, q5, h5) =
          result-eq-ok
            (ok_or verification_failed
              (hops.verify_transition_hop predecessor successor j.trusted_predecessor_document))
            _ judged h4 in
        let (w, q6, h6) =
          result-eq-ok (refuse_if (not (assurance_name c == j.assurance)) verification_failed) _
            judged h5 in
        (
          engine_result-eq-ok _ a q1 ∙ ap ok (refused-eq a j.predecessor_digest q2),
          engine_result-eq-ok _ b q3 ∙ ap ok (refused-eq b j.successor_digest q4),
          (c, ok_or-eq-ok _ _ c q5, refused-eq (assurance_name c) j.assurance q6),
        )

    confirmed-Shows :
        (attempt : IdentityTransitionPublicationAttempt) (e : IdentityTransitionPublicationEvidence)
        (j : IdentityTransitionJournal)
        (concluded : IdentityTransitionOutcome × IdentityTransitionJournalState)
        → validate_attempt attempt j ≡ ok tt
        → conclude (confirmed e) j ≡ ok concluded
        → Shows (complete_call attempt (confirmed e)) j
    unfolding validate_attempt conclude validate_evidence Shows
    confirmed-Shows attempt e j concluded h k = ground (
      arith,
      eq_iff attempt.publication_generation j.generation,
      eq_iff e.predecessor_digest j.predecessor_digest,
      eq_iff e.successor_digest j.successor_digest,
    )

    -- A hop is committed only by a call that shows it: by an answer to the current attempt whose
    -- evidence names both digests of the journal, or by two documents of the remote registry with
    -- these digests that form a verified hop of the same assurance from the trusted predecessor.
    pub committed_only-Shows :
        (call : SessionCall) (held s : IdentityTransitionJournal) (d d' : Disk)
        → run_call call held d ≡ (ok s, d')
        → s.state ≡ IdentityTransitionJournalState.committed
        → (j : IdentityTransitionJournal) × (reload_and_validate held d ≡ ok j) × Shows call j
    unfolding run_call conclude Shows
    committed_only-Shows begin_call held s d d' h is_committed =
        let (attempt, q) = journal_only-eq-ok (begin_transition held) s d d' h in
        absurd (cc (begin_transition-state held s attempt d d' q, is_committed))
    committed_only-Shows (complete_call attempt (confirmed e)) held s d d' h is_committed =
        let (outcome, q) =
          journal_only-eq-ok (complete_transition attempt (confirmed e) held) s d d' h in
        let (step, (j, is_reloaded, is_attempt, is_concluded)) =
          complete_transition-IsHopStep attempt (confirmed e) held s outcome d d' q in
        (j, is_reloaded, confirmed-Shows attempt e j (outcome, s.state) is_attempt is_concluded)
    committed_only-Shows (complete_call attempt rejected_before_acceptance) held s d d' h
          is_committed =
        let (outcome, q) =
          journal_only-eq-ok (complete_transition attempt rejected_before_acceptance held) s d d'
            h in
        let (step, (j, is_reloaded, is_attempt, is_concluded)) =
          complete_transition-IsHopStep attempt rejected_before_acceptance held s outcome d d' q in
        not_committed (ok-injective is_concluded) (λ h. cc) is_committed
    committed_only-Shows (complete_call attempt unknown) held s d d' h is_committed =
        let (outcome, q) = journal_only-eq-ok (complete_transition attempt unknown held) s d d' h in
        let (step, (j, is_reloaded, is_attempt, is_concluded)) =
          complete_transition-IsHopStep attempt unknown held s outcome d d' q in
        not_committed (ok-injective is_concluded) (λ h. cc) is_committed
    committed_only-Shows (reconcile_call (remote_old document)) held s d d' h is_committed =
        let (outcome, q) =
          journal_only-eq-ok (reconcile_transition (remote_old document) held) s d d' h in
        let (step, (j, is_reloaded, is_judged)) =
          reconcile_transition-IsHopStep (remote_old document) held s outcome d d' q in
        not_committed (judge_old-eq-ok document j (outcome, s.state) is_judged) (λ h. cc)
          is_committed
    committed_only-Shows (reconcile_call (observed_published predecessor successor)) held s d d' h
          is_committed =
        let (outcome, q) =
          journal_only-eq-ok (reconcile_transition (observed_published predecessor successor) held)
            s d d' h in
        let (step, (j, is_reloaded, is_judged)) =
          reconcile_transition-IsHopStep (observed_published predecessor successor) held s outcome d
            d' q in
        (j, is_reloaded, judge_published-Shows predecessor successor j (outcome, s.state) is_judged)
