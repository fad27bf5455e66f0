-- ===== src/Transition/Moves.antt =====
-- crates/anp-identity/src/facade/identity_transition.rs: every call of a session makes a step of the
-- journal's state machine, or changes nothing.
use anp_identity.Anp.{Anp}
use anp_identity.Disk.{Disk}
use anp_identity.Disk.Transitions.{transition_state_eq}
use anp_identity.Errors.{ok, ok-injective, refuse_if}
use anp_identity.Facade.{Request, demand, give, invalid_document_change_state, ◌>>=◌}
use anp_identity.Facade.Outcome.{demand-eq-ok, look-eq-ok, request-eq-ok}
use anp_identity.Input.{profile_eq, role_eq}
use anp_identity.Input.Fields.{last}
use anp_identity.Json.{Value, value_eq}
use anp_identity.Keystore.{secret_ref_eq}
use anp_identity.Prelude.{
  ap, arith, inl, inr, list_eq, nat_eq, not, option_eq, pair_eq, refl, sym, ◌==◌, ◌∙◌, ◌≡◌, ◌⊎◌,
}
use anp_identity.Registry.{
  capability_eq, key_state_eq, origin_eq, publication_eq, state_eq, summary_eq,
}
use anp_identity.Registry.Journals.{IdentityTransitionJournal, IdentityTransitionJournalState}
use anp_identity.Transition.{
  Hops, IdentityTransitionOutcome, IdentityTransitionPublicationAttempt,
  IdentityTransitionPublicationResult, IdentityTransitionRemoteObservation, advance_journal,
  committed, conclude, judge, observed_published, ready_for_publication, reload_and_validate,
  remote_old, validate_attempt,
}
use anp_identity.Transition.Sessions.{
  SessionCall, begin_by, begin_call, begin_transition, complete_call, complete_transition,
  journal_only, reconcile_call, reconcile_transition, run_call, save,
}
use anp_identity.Transition.Steps.{
  HopEdge, IsHopStep, advance_journal-eq-ok, begins, conclude-HopEdge, falls_back, finds,
  moved-IsHopStep, passed-state, save-eq-ok,
}

module _ ⦃anp : Anp⦄ where
  -- A begin that found the publication in flight, and so did nothing.
  abbrev pub IsRepeated :
      IdentityTransitionJournal → IdentityTransitionJournal → Disk → Disk → Type 0
  IsRepeated held s d d' =
      (reload_and_validate held d ≡ ok s)
      × (s.state ≡ IdentityTransitionJournalState.publication_in_flight)
      × (d' ≡ d)

  begin_by-cases :
      (held j s : IdentityTransitionJournal) (state : IdentityTransitionJournalState) (d d' : Disk)
      → j.state ≡ state
      → reload_and_validate held d ≡ ok j
      → begin_by state j d ≡ (ok s, d')
      → IsHopStep held s d d' ⊎ IsRepeated held s d d'
  begin_by-cases held j s IdentityTransitionJournalState.prepared d d' e is_reloaded h =
      let (t, is_next, is_saved) = demand-eq-ok (advance_journal _ j) save d s d' h in
      inl (moved-IsHopStep held j t s _ d d' is_reloaded (rw e begins) is_next is_saved)
  begin_by-cases held j s IdentityTransitionJournalState.publication_in_flight d d' e is_reloaded
        h =
      let is_s : j ≡ s = ok-injective (ap (λ x. x.0) h) in
      inr (is_reloaded ∙ ap ok is_s, rw (sym is_s) e, sym (ap (λ x. x.1) h))
  begin_by-cases held j s IdentityTransitionJournalState.publication_uncertain d d' e r h =
      absurd (cc (ap (λ x. x.0) h))
  begin_by-cases held j s IdentityTransitionJournalState.committed d d' e r h =
      absurd (cc (ap (λ x. x.0) h))
  begin_by-cases held j s IdentityTransitionJournalState.aborted d d' e r h =
      absurd (cc (ap (λ x. x.0) h))

  begin_transition-cases :
      (held s : IdentityTransitionJournal) (attempt : IdentityTransitionPublicationAttempt)
      (d d' : Disk)
      → begin_transition held d ≡ (ok (s, attempt), d')
      → IsHopStep held s d d' ⊎ IsRepeated held s d d'
  unfolding begin_transition
  begin_transition-cases held s attempt d d' h =
      let (j, is_reloaded, rest) = look-eq-ok (reload_and_validate held) _ d (s, attempt) d' h in
      let (t, c, begun, last) = request-eq-ok (begin_by j.state j) _ d (s, attempt) d' rest in
      let is_s : t ≡ s = ap (λ x. x.0) (ok-injective (ap (λ x. x.0) last)) in
      begin_by-cases held j s j.state d d' refl is_reloaded (begun ∙ cc (is_s, ap (λ x. x.1) last))

  begin_by-state :
      (j s : IdentityTransitionJournal) (state : IdentityTransitionJournalState) (d d' : Disk)
      → j.state ≡ state
      → begin_by state j d ≡ (ok s, d')
      → s.state ≡ IdentityTransitionJournalState.publication_in_flight
  begin_by-state j s IdentityTransitionJournalState.prepared d d' e h =
      let (t, is_next, is_saved) = demand-eq-ok (advance_journal _ j) save d s d' h in
      let (n, is_t, written) = save-eq-ok t s d d' is_saved in
      ap (λ (x : IdentityTransitionJournal). x.state) (is_t ∙ advance_journal-eq-ok _ j t is_next)
  begin_by-state j s IdentityTransitionJournalState.publication_in_flight d d' e h =
      ap (λ (x : IdentityTransitionJournal). x.state) (sym (ok-injective (ap (λ x. x.0) h))) ∙ e
  begin_by-state j s IdentityTransitionJournalState.publication_uncertain d d' e h =
      absurd (cc (ap (λ x. x.0) h))
  begin_by-state j s IdentityTransitionJournalState.committed d d' e h =
      absurd (cc (ap (λ x. x.0) h))
  begin_by-state j s IdentityTransitionJournalState.aborted d d' e h = absurd (cc (ap (λ x. x.0) h))

  pub begin_transition-state :
      (held s : IdentityTransitionJournal) (attempt : IdentityTransitionPublicationAttempt)
      (d d' : Disk)
      → begin_transition held d ≡ (ok (s, attempt), d')
      → s.state ≡ IdentityTransitionJournalState.publication_in_flight
  unfolding begin_transition
  begin_transition-state held s attempt d d' h =
      let (j, is_reloaded, rest) = look-eq-ok (reload_and_validate held) _ d (s, attempt) d' h in
      let (t, c, begun, last) = request-eq-ok (begin_by j.state j) _ d (s, attempt) d' rest in
      let is_s : t ≡ s = ap (λ x. x.0) (ok-injective (ap (λ x. x.0) last)) in
      ap (λ (x : IdentityTransitionJournal). x.state) (sym is_s)
      ∙ begin_by-state j t j.state d c refl begun

  -- The end of `complete` and `reconcile`.
  abbrev ending :
      IdentityTransitionOutcome
      → IdentityTransitionJournal
      → Request (IdentityTransitionJournal × IdentityTransitionOutcome)
  ending outcome t = save t >>= λ w. give (w, outcome)

  concluded-IsHopStep :
      (held j s : IdentityTransitionJournal)
      (concluded : IdentityTransitionOutcome × IdentityTransitionJournalState)
      (outcome : IdentityTransitionOutcome) (d d' : Disk)
      → reload_and_validate held d ≡ ok j
      → HopEdge j.state concluded.1
      → (demand (advance_journal concluded.1 j) >>= λ t. ending concluded.0 t) d
        ≡ (ok (s, outcome), d')
      → IsHopStep held s d d' × (concluded.0 ≡ outcome) × (s.state ≡ concluded.1)
  concluded-IsHopStep held j s concluded outcome d d' is_reloaded edge h =
      let (t, is_next, h1) = demand-eq-ok (advance_journal concluded.1 j) _ d (s, outcome) d' h in
      let (w, c, is_saved, last) = request-eq-ok (save t) _ d (s, outcome) d' h1 in
      let pairs : (w, concluded.0) ≡ (s, outcome) = ok-injective (ap (λ x. x.0) last) in
      let is_w : w ≡ s =
        ap (λ (x : IdentityTransitionJournal × IdentityTransitionOutcome). x.0) pairs in
      let is_end : c ≡ d' = ap (λ x. x.1) last in
      let saved : save t d ≡ (ok s, d') = is_saved ∙ cc (is_w, is_end) in
      let (n, is_t, written) = save-eq-ok t s d d' saved in
      (
        moved-IsHopStep held j t s concluded.1 d d' is_reloaded edge is_next saved,
        ap (λ x. x.1) pairs,
        ap (λ (x : IdentityTransitionJournal). x.state)
            (is_t ∙ advance_journal-eq-ok concluded.1 j t is_next),
      )

  pub complete_transition-IsHopStep :
      (attempt : IdentityTransitionPublicationAttempt)
      (result : IdentityTransitionPublicationResult) (held s : IdentityTransitionJournal)
      (outcome : IdentityTransitionOutcome) (d d' : Disk)
      → complete_transition attempt result held d ≡ (ok (s, outcome), d')
      → IsHopStep held s d d'
        × ((j : IdentityTransitionJournal) × (reload_and_validate held d ≡ ok j)
            × (validate_attempt attempt j ≡ ok tt)
            × (conclude result j ≡ ok (outcome, s.state)))
  unfolding complete_transition
  complete_transition-IsHopStep attempt result held s outcome d d' h =
      let (j, is_reloaded, h1) = look-eq-ok (reload_and_validate held) _ d (s, outcome) d' h in
      let (u, is_attempt, h2) = demand-eq-ok (validate_attempt attempt j) _ d (s, outcome) d' h1 in
      let (v, begun, h3) =
        demand-eq-ok
          (refuse_if (not (j.state == IdentityTransitionJournalState.publication_in_flight))
            invalid_document_change_state)
          _ d (s, outcome) d' h2 in
      let (concluded, is_concluded, h4) = demand-eq-ok (conclude result j) _ d (s, outcome) d' h3 in
      let is_begun : j.state ≡ IdentityTransitionJournalState.publication_in_flight =
        passed-state j _ begun in
      let (step, is_outcome, is_state) =
        concluded-IsHopStep held j s concluded outcome d d' is_reloaded
          (rw is_begun (conclude-HopEdge result j concluded is_concluded)) h4 in
      (step, (j, is_reloaded, is_attempt, is_concluded ∙ ap ok (cc (is_outcome, is_state))))

  module _ ⦃hops : Hops⦄ where
    pub judge_old-eq-ok :
        (document : Value) (j : IdentityTransitionJournal)
        (judged : IdentityTransitionOutcome × IdentityTransitionJournalState)
        → judge (remote_old document) j ≡ ok judged
        → (ready_for_publication, IdentityTransitionJournalState.prepared) ≡ judged
    unfolding judge
    judge_old-eq-ok document j judged h = ground arith

    judge_published-eq-ok :
        (predecessor successor : Value) (j : IdentityTransitionJournal)
        (judged : IdentityTransitionOutcome × IdentityTransitionJournalState)
        → judge (observed_published predecessor successor) j ≡ ok judged
        → (committed j.successor_did, IdentityTransitionJournalState.committed) ≡ judged
    unfolding judge
    judge_published-eq-ok predecessor successor j judged h = ground arith

    pub judge-HopEdge :
        (observation : IdentityTransitionRemoteObservation) (j : IdentityTransitionJournal)
        (judged : IdentityTransitionOutcome × IdentityTransitionJournalState)
        → judge observation j ≡ ok judged
        → HopEdge IdentityTransitionJournalState.publication_uncertain judged.1
    judge-HopEdge (remote_old document) j judged h =
        rw (sym (judge_old-eq-ok document j judged h)) falls_back
    judge-HopEdge (observed_published predecessor successor) j judged h =
        rw (sym (judge_published-eq-ok predecessor successor j judged h)) finds

    pub reconcile_transition-IsHopStep :
        (observation : IdentityTransitionRemoteObservation) (held s : IdentityTransitionJournal)
        (outcome : IdentityTransitionOutcome) (d d' : Disk)
        → reconcile_transition observation held d ≡ (ok (s, outcome), d')
        → IsHopStep held s d d'
          × ((j : IdentityTransitionJournal) × (reload_and_validate held d ≡ ok j)
              × (judge observation j ≡ ok (outcome, s.state)))
    unfolding reconcile_transition
    reconcile_transition-IsHopStep observation held s outcome d d' h =
        let (j, is_reloaded, h1) = look-eq-ok (reload_and_validate held) _ d (s, outcome) d' h in
        let (v, begun, h2) =
          demand-eq-ok
            (refuse_if (not (j.state == IdentityTransitionJournalState.publication_uncertain))
              invalid_document_change_state)
            _ d (s, outcome) d' h1 in
        let (judged, is_judged, h3) = demand-eq-ok (judge observation j) _ d (s, outcome) d' h2 in
        let is_begun : j.state ≡ IdentityTransitionJournalState.publication_uncertain =
          passed-state j _ begun in
        let (step, is_outcome, is_state) =
          concluded-IsHopStep held j s judged outcome d d' is_reloaded
            (rw is_begun (judge-HopEdge observation j judged is_judged)) h3 in
        (step, (j, is_reloaded, is_judged ∙ ap ok (cc (is_outcome, is_state))))

    pub journal_only-eq-ok {ℓ} :
        {B : Type ℓ} (m : Request (IdentityTransitionJournal × B)) (s : IdentityTransitionJournal)
        (d d' : Disk)
        → journal_only m d ≡ (ok s, d')
        → (b : B) × (m d ≡ (ok (s, b), d'))
    journal_only-eq-ok {B = B} m s d d' h =
        let (x, c, q, last) = request-eq-ok m (λ x. give x.0) d s d' h in
        let is_s : x.0 ≡ s = ok-injective (ap (λ y. y.0) last) in
        let is_end : c ≡ d' = ap (λ y. y.1) last in (x.1, q ∙ cc (is_s, is_end))

    -- A call of a session that returns has found the stored journal that the session holds, both
    -- identities as they were when the hop was prepared, and has moved the journal along an edge of
    -- its state machine: the generation is one more, nothing else of the journal changes, and the
    -- result is written. Only a second begin returns without a step, and it changes no file.
    pub run_call-cases :
        (call : SessionCall) (held s : IdentityTransitionJournal) (d d' : Disk)
        → run_call call held d ≡ (ok s, d')
        → IsHopStep held s d d' ⊎ IsRepeated held s d d'
    unfolding run_call
    run_call-cases begin_call held s d d' h =
        let (attempt, q) = journal_only-eq-ok (begin_transition held) s d d' h in
        begin_transition-cases held s attempt d d' q
    run_call-cases (complete_call attempt result) held s d d' h =
        let (outcome, q) = journal_only-eq-ok (complete_transition attempt result held) s d d' h in
        inl (complete_transition-IsHopStep attempt result held s outcome d d' q).0
    run_call-cases (reconcile_call observation) held s d d' h =
        let (outcome, q) = journal_only-eq-ok (reconcile_transition observation held) s d d' h in
        inl (reconcile_transition-IsHopStep observation held s outcome d d' q).0
