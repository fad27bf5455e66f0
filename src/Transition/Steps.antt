-- ===== src/Transition/Steps.antt =====
-- crates/anp-identity/src/facade/identity_transition.rs: the state machine of a transition's journal,
-- and that the calls of a session make its steps.
use anp_identity.Anp.{Anp}
use anp_identity.Assoc.{insert}
use anp_identity.Disk.{Disk}
use anp_identity.Disk.Files.{storage_key}
use anp_identity.Disk.Outcome.{write-eq-ok}
use anp_identity.Disk.Transitions.{transition_state_eq, write_identity_transition_journal}
use anp_identity.Errors.{ok, ok-injective, refuse_if, result-eq-ok}
use anp_identity.Facade.{IdentityResult, engine, invalid_document_change_state}
use anp_identity.Facade.Outcome.{engine-eq-ok, request-eq-ok}
use anp_identity.Input.{profile_eq, role_eq}
use anp_identity.Input.Fields.{last}
use anp_identity.Json.{value_eq}
use anp_identity.Keystore.{secret_ref_eq}
use anp_identity.Prelude.{
  ap, arith, eq_iff, list_eq, nat_eq, not, option_eq, pair_eq, refl, sym, ℕ, ◌+◌, ◌==◌, ◌∙◌, ◌≡◌,
}
use anp_identity.Registry.{
  capability_eq, key_state_eq, origin_eq, publication_eq, state_eq, summary_eq,
}
use anp_identity.Registry.Journals.{IdentityTransitionJournal, IdentityTransitionJournalState}
use anp_identity.Transition.{
  IdentityTransitionOutcome, IdentityTransitionPublicationResult, advance_journal, conclude,
  confirmed, next_generation, rejected_before_acceptance, reload_and_validate, unknown,
  validate_evidence,
}
use anp_identity.Transition.Sessions.{save}

-- The moves that a journal can make.
pub data HopEdge : IdentityTransitionJournalState → IdentityTransitionJournalState → Type 0 where
  begins :
      HopEdge IdentityTransitionJournalState.prepared
        IdentityTransitionJournalState.publication_in_flight
  confirms :
      HopEdge IdentityTransitionJournalState.publication_in_flight
        IdentityTransitionJournalState.committed
  gives_up :
      HopEdge IdentityTransitionJournalState.publication_in_flight
        IdentityTransitionJournalState.aborted
  loses :
      HopEdge IdentityTransitionJournalState.publication_in_flight
        IdentityTransitionJournalState.publication_uncertain
  falls_back :
      HopEdge IdentityTransitionJournalState.publication_uncertain
        IdentityTransitionJournalState.prepared
  finds :
      HopEdge IdentityTransitionJournalState.publication_uncertain
        IdentityTransitionJournalState.committed

pub advance_journal-eq-ok :
    (following : IdentityTransitionJournalState) (j s : IdentityTransitionJournal)
    → advance_journal following j ≡ ok s
    → s ≡ record j { state = following; generation = j.generation + 1 }
unfolding advance_journal next_generation
advance_journal-eq-ok following j s h = ground arith

pub passed-state :
    (j : IdentityTransitionJournal) (state : IdentityTransitionJournalState)
    → Path
        (IdentityResult (Unit {0}))
        (refuse_if (not (j.state == state)) invalid_document_change_state)
        (ok tt)
    → j.state ≡ state
passed-state j state h = ground (arith, eq_iff j.state state)

pub conclude-HopEdge :
    (result : IdentityTransitionPublicationResult) (j : IdentityTransitionJournal)
    (concluded : IdentityTransitionOutcome × IdentityTransitionJournalState)
    → conclude result j ≡ ok concluded
    → HopEdge IdentityTransitionJournalState.publication_in_flight concluded.1
unfolding conclude
conclude-HopEdge (confirmed evidence) j concluded h =
    let (u, q, last) = result-eq-ok (validate_evidence evidence j) _ concluded h in
    rw (sym (ok-injective last)) confirms
conclude-HopEdge rejected_before_acceptance j concluded h = rw (sym (ok-injective h)) gives_up
conclude-HopEdge unknown j concluded h = rw (sym (ok-injective h)) loses

module _ ⦃anp : Anp⦄ where
  pub save-eq-ok :
      (j s : IdentityTransitionJournal) (d d' : Disk)
      → save j d ≡ (ok s, d')
      → (n : ℕ) × (s ≡ j)
        × (d' ≡ record d {
          transitions = insert (storage_key j.operation_id) j d.transitions;
          writes_left = n;
        })
  unfolding write_identity_transition_journal
  save-eq-ok j s d d' h =
      let (u, c, written, last) =
        request-eq-ok (engine (write_identity_transition_journal j)) _ d s d' h in
      let (n, q) =
        write-eq-ok
          (λ x. record x { transitions = insert (storage_key j.operation_id) j x.transitions }) d c
          (engine-eq-ok (write_identity_transition_journal j) d u c written) in
      (n, sym (ok-injective (ap (λ x. x.0) last)), ap (λ x. x.1) (sym last) ∙ q)

  -- A call that made a step: it has found the stored journal that its session holds, moved it along
  -- an edge, counted one generation, and written the result; nothing else of the journal changes.
  pub record IsHopStep (held s : IdentityTransitionJournal) (d d' : Disk) : Type 0 where
    pub before : IdentityTransitionJournal
    pub writes : ℕ
    pub is_reloaded : reload_and_validate held d ≡ ok before
    pub edge : HopEdge before.state s.state
    pub is_result : s ≡ record before { state = s.state; generation = before.generation + 1 }
    pub is_written : d' ≡ record d {
      transitions = insert (storage_key s.operation_id) s d.transitions;
      writes_left = writes;
    }

  -- The end that all the calls have: a state that follows, one generation more, and a write.
  pub moved-IsHopStep :
      (held j s t : IdentityTransitionJournal) (following : IdentityTransitionJournalState)
      (d d' : Disk)
      → reload_and_validate held d ≡ ok j
      → HopEdge j.state following
      → advance_journal following j ≡ ok s
      → save s d ≡ (ok t, d')
      → IsHopStep held t d d'
  moved-IsHopStep held j s t following d d' is_reloaded edge is_next is_saved =
      let is_s = advance_journal-eq-ok following j s is_next in
      let (n, is_t, written) = save-eq-ok s t d d' is_saved in
      record {
        before = j;
        writes = n;
        is_reloaded = is_reloaded;
        edge = rw (is_t, is_s) edge;
        is_result = rw (is_t, is_s) refl;
        is_written = rw is_t written;
      }
