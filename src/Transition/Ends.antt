-- ===== src/Transition/Ends.antt =====
-- crates/anp-identity/src/facade/identity_transition.rs: a transition that has ended stays ended.
use anp_identity.Anp.{Anp}
use anp_identity.Assoc.{lookup}
use anp_identity.Assoc.Laws.{lookup-insert}
use anp_identity.Disk.{Disk}
use anp_identity.Disk.Files.{storage_key}
use anp_identity.Disk.Transitions.{
  checked_transition, read_identity_transition_journal, transition_state_eq,
}
use anp_identity.Errors.{is_ok-cases, ok, ok-injective}
use anp_identity.Input.{profile_eq, role_eq}
use anp_identity.Json.{value_eq}
use anp_identity.KeyOps.{Curves}
use anp_identity.KeyOps.Proofs.{Proofs}
use anp_identity.Keystore.{secret_ref_eq}
use anp_identity.Prelude.{
  Bool-cases, List, [], ap, eq_iff, if◌then◌else◌, inl, inr, list_eq, nat_eq, option_eq, pair_eq,
  some, sym, ℕ, ◌==◌, ◌∙◌, ◌∷◌, ◌≡◌, ◌⊎◌,
}
use anp_identity.Registry.{
  capability_eq, key_state_eq, origin_eq, publication_eq, state_eq, summary_eq,
}
use anp_identity.Registry.Journals.{IdentityTransitionJournal, IdentityTransitionJournalState}
use anp_identity.Text.{Text}
use anp_identity.Transition.{Hops}
use anp_identity.Transition.Exclusive.{TransitionEvent, goes_on, prepares, run_events}
use anp_identity.Transition.Histories.{read-transition-eq-ok, reload-reads}
use anp_identity.Transition.Kept.{IsStored, prepare-IsStored}
use anp_identity.Transition.Moves.{run_call-cases}
use anp_identity.Transition.Quiet.{run_call-IsQuiet}
use anp_identity.Transition.Sessions.{SessionCall, run_call}
use anp_identity.Transition.Steps.{
  HopEdge, IsHopStep, begins, confirms, falls_back, finds, gives_up, loses,
}

module _ ⦃anp : Anp⦄ ⦃hops : Hops⦄ where
  abbrev pub IsEnded : IdentityTransitionJournalState → Type 0
  IsEnded state =
      (state ≡ IdentityTransitionJournalState.committed)
      ⊎ (state ≡ IdentityTransitionJournalState.aborted)

  -- No edge leaves an end.
  ended-HopEdge : (a b : IdentityTransitionJournalState) → HopEdge a b → IsEnded a → ⊥
  ended-HopEdge _ _ begins (inl p) = cc
  ended-HopEdge _ _ begins (inr p) = cc
  ended-HopEdge _ _ confirms (inl p) = cc
  ended-HopEdge _ _ confirms (inr p) = cc
  ended-HopEdge _ _ gives_up (inl p) = cc
  ended-HopEdge _ _ gives_up (inr p) = cc
  ended-HopEdge _ _ loses (inl p) = cc
  ended-HopEdge _ _ loses (inr p) = cc
  ended-HopEdge _ _ falls_back (inl p) = cc
  ended-HopEdge _ _ falls_back (inr p) = cc
  ended-HopEdge _ _ finds (inl p) = cc
  ended-HopEdge _ _ finds (inr p) = cc

  ended-after_step :
      (held s j : IdentityTransitionJournal) (operation_id : Text) (d d' : Disk)
      → ((other : Text) → storage_key other ≡ storage_key operation_id → other ≡ operation_id)
      → read_identity_transition_journal operation_id d ≡ ok j
      → IsEnded j.state
      → IsHopStep held s d d'
      → read_identity_transition_journal operation_id d' ≡ ok j
  unfolding read_identity_transition_journal
  ended-after_step held s j operation_id d d' injective is_read is_ended step =
      let (is_reloaded, is_held) = reload-reads held step.before d step.is_reloaded in
      let (found, schema, named) =
        read-transition-eq-ok held.operation_id d step.before is_reloaded in
      let is_named : s.operation_id ≡ held.operation_id =
        ap (λ (x : IdentityTransitionJournal). x.operation_id) step.is_result ∙ named in
      elim (Bool-cases (storage_key s.operation_id == storage_key operation_id)) [
        | inl t ↦
            let is_mine : held.operation_id ≡ operation_id =
              sym is_named
              ∙ injective s.operation_id
                  ((eq_iff (storage_key s.operation_id) (storage_key operation_id)).0 t) in
            let is_j : step.before ≡ j = ok-injective (
              sym is_reloaded
              ∙ ap (λ id. read_identity_transition_journal id d) is_mine
              ∙ is_read) in
            absurd (ended-HopEdge step.before.state s.state step.edge (rw is_j is_ended))
        | inr f ↦
            ap (checked_transition operation_id) (
              ap (λ (x : Disk). lookup (storage_key operation_id) x.transitions) step.is_written
              ∙ lookup-insert (storage_key s.operation_id) (storage_key operation_id) s
                  d.transitions
              ∙ ap (λ t. if t then some s else lookup (storage_key operation_id) d.transitions) f)
            ∙ is_read
      ]

  ended-after_call :
      (call : SessionCall) (held j : IdentityTransitionJournal) (operation_id : Text) (d : Disk)
      → ((other : Text) → storage_key other ≡ storage_key operation_id → other ≡ operation_id)
      → read_identity_transition_journal operation_id d ≡ ok j
      → IsEnded j.state
      → read_identity_transition_journal operation_id (run_call call held d).1 ≡ ok j
  ended-after_call call held j operation_id d injective is_read is_ended =
      elim (is_ok-cases (run_call call held d).0) [
        | inl (e, q) ↦
            let stays : (run_call call held d).1 ≡ d = run_call-IsQuiet call held e d _ (cc q) in
            ap (read_identity_transition_journal operation_id) stays ∙ is_read
        | inr (s, q) ↦ elim (run_call-cases call held s d (run_call call held d).1 (cc q)) [
          | inl step ↦ ended-after_step held s j operation_id d _ injective is_read is_ended step
          | inr (is_reloaded, in_state, stays) ↦
              ap (read_identity_transition_journal operation_id) stays ∙ is_read
        ]
      ]

  module _ ⦃curves : Curves⦄ ⦃proofs : Proofs⦄ where
    -- A transition that was committed or aborted stays so: whatever transitions are prepared after
    -- it, this one again or others, and whatever calls follow, on its own sessions or on others, in
    -- whatever order and whether they return or fail, its journal in the store is the same. The
    -- hypothesis says that SHA-256 gives no other identifier the digest of this operation's.
    pub ended_stays :
        (root_key : List ℕ) (events : List TransitionEvent) (j : IdentityTransitionJournal)
        (operation_id : Text) (d : Disk)
        → ((other : Text) → storage_key other ≡ storage_key operation_id → other ≡ operation_id)
        → read_identity_transition_journal operation_id d ≡ ok j
        → IsEnded j.state
        → read_identity_transition_journal operation_id (run_events root_key events d) ≡ ok j
    unfolding run_events IsStored
    ended_stays root_key [] j operation_id d injective is_read is_ended = is_read
    ended_stays root_key (prepares store_id generation now r ∷ events) j operation_id d injective
          is_read is_ended =
        ended_stays root_key events j operation_id _ injective
          (prepare-IsStored store_id generation root_key now r j operation_id d injective is_read)
          is_ended
    ended_stays root_key (goes_on call held ∷ events) j operation_id d injective is_read is_ended =
        ended_stays root_key events j operation_id (run_call call held d).1 injective
          (ended-after_call call held j operation_id d injective is_read is_ended) is_ended
