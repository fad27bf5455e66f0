-- ===== src/Transition/Histories.antt =====
-- crates/anp-identity/src/facade/identity_transition.rs: what holds over the sessions of a journal,
-- whatever their order.
use anp_identity.Anp.{Anp}
use anp_identity.Assoc.{lookup}
use anp_identity.Assoc.Laws.{lookup-insert}
use anp_identity.Disk.{Disk}
use anp_identity.Disk.Files.{storage_key}
use anp_identity.Disk.Transitions.{
  checked_transition, read_identity_transition_journal, transition_state_eq,
}
use anp_identity.Errors.{err, ok, result-eq-ok}
use anp_identity.Facade.{
  IdentityError, IdentityResult, Request, conflict, engine_result, give, go_on, look, ◌>>=◌,
}
use anp_identity.Facade.Outcome.{engine_result-eq-ok}
use anp_identity.Input.{profile_eq, role_eq}
use anp_identity.Json.{value_eq}
use anp_identity.Keystore.{secret_ref_eq}
use anp_identity.Prelude.{
  Option-cases, ap, arith, eq_iff, eq_refl, if◌then◌else◌, inl, inr, list_eq, nat_eq, ne_iff,
  option_eq, pair_eq, refl, some, sym, ◌∙◌, ◌≡◌, ◌≢◌, ◌⊎◌,
}
use anp_identity.Registry.{
  capability_eq, key_state_eq, origin_eq, publication_eq, state_eq, summary_eq,
}
use anp_identity.Registry.Journals.{IdentityTransitionJournal}
use anp_identity.Text.{Text}
use anp_identity.Transition.{Hops, reload_and_validate}
use anp_identity.Transition.Moves.{IsRepeated, run_call-cases}
use anp_identity.Transition.Sessions.{
  SessionCall, begin_call, begin_transition, complete_call, complete_transition, journal_only,
  reconcile_call, reconcile_transition, run_call,
}
use anp_identity.Transition.Steps.{IsHopStep}

module _ ⦃anp : Anp⦄ ⦃hops : Hops⦄ where
  pub read-transition-eq-ok :
      (operation_id : Text) (d : Disk) (j : IdentityTransitionJournal)
      → read_identity_transition_journal operation_id d ≡ ok j
      → (lookup (storage_key operation_id) d.transitions ≡ some j)
        × (j.schema_version ≡ 1)
        × (j.operation_id ≡ operation_id)
  unfolding read_identity_transition_journal
  read-transition-eq-ok operation_id d j h =
      elim (Option-cases (lookup (storage_key operation_id) d.transitions)) [
        | inl e ↦ absurd (cc (rw e at h))
        | inr (k, e) ↦ ground (arith, e, h, eq_iff k.operation_id operation_id)
      ]

  pub reload-reads :
      (held j : IdentityTransitionJournal) (d : Disk)
      → reload_and_validate held d ≡ ok j
      → (read_identity_transition_journal held.operation_id d ≡ ok j)
        × (j.generation ≡ held.generation)
  unfolding reload_and_validate
  reload-reads held j d h =
      let (k, q, h1) =
        result-eq-ok (engine_result (read_identity_transition_journal held.operation_id d)) _ j h in
      let found : (k ≡ j) × (k.generation ≡ held.generation) =
        ground (arith, h1, eq_iff k.generation held.generation) in
      (
        engine_result-eq-ok _ k q ∙ ap ok found.0,
        ap (λ (x : IdentityTransitionJournal). x.generation) (sym found.0) ∙ found.1,
      )

  -- The journal that a call has written is read back.
  hop-reads :
      (held s : IdentityTransitionJournal) (d d' : Disk)
      → IsHopStep held s d d' ⊎ IsRepeated held s d d'
      → (read_identity_transition_journal held.operation_id d' ≡ ok s)
        × (s.operation_id ≡ held.operation_id)
  unfolding read_identity_transition_journal
  hop-reads held s d d' (inl step) =
      let (is_read, is_held) = reload-reads held step.before d step.is_reloaded in
      let (found, schema, named) = read-transition-eq-ok held.operation_id d step.before is_read in
      let is_named : s.operation_id ≡ held.operation_id =
        ap (λ (x : IdentityTransitionJournal). x.operation_id) step.is_result ∙ named in
      let is_schema : s.schema_version ≡ 1 =
        ap (λ (x : IdentityTransitionJournal). x.schema_version) step.is_result ∙ schema in
      let is_there : lookup (storage_key held.operation_id) d'.transitions ≡ some s =
        ap (λ (x : Disk). lookup (storage_key held.operation_id) x.transitions) step.is_written
        ∙ lookup-insert (storage_key s.operation_id) (storage_key held.operation_id) s d.transitions
        ∙ ap (λ t. if t then some s else lookup (storage_key held.operation_id) d.transitions)
            ((eq_iff (storage_key s.operation_id) (storage_key held.operation_id)).1
              (ap storage_key is_named)) in
      (
        ap (checked_transition held.operation_id) is_there
            ∙ ground (arith, is_schema, is_named, eq_refl held.operation_id),
        is_named,
      )
  hop-reads held s d d' (inr (is_reloaded, in_state, stays)) =
      let (is_read, is_held) = reload-reads held s d is_reloaded in
      let (found, schema, named) = read-transition-eq-ok held.operation_id d s is_read in
      (
        ap (λ (x : Disk). read_identity_transition_journal held.operation_id x) stays ∙ is_read,
        named,
      )

  look-of-err :
      {A B : Type 0} (g : Disk → IdentityResult A) (f : A → Request B) (d : Disk)
      (e : IdentityError)
      → g d ≡ err e
      → Path (IdentityResult B × Disk) ((look g >>= f) d) (err e, d)
  unfolding ◌>>=◌
  look-of-err g f d e h = ap (λ r. go_on f (r, d)) h

  first-of-err :
      {A B : Type 0} (m : Request (A × B)) (d : Disk) (e : IdentityError)
      → Path (IdentityResult (A × B) × Disk) (m d) (err e, d)
      → Path (IdentityResult A × Disk) (journal_only m d) (err e, d)
  unfolding ◌>>=◌
  first-of-err m d e h = ap (go_on (λ x. give x.0)) h

  refused-reload :
      (call : SessionCall) (held : IdentityTransitionJournal) (d : Disk) (e : IdentityError)
      → reload_and_validate held d ≡ err e
      → run_call call held d ≡ (err e, d)
  unfolding run_call begin_transition complete_transition reconcile_transition
  refused-reload begin_call held d e h =
      first-of-err _ d e (look-of-err (reload_and_validate held) _ d e h)
  refused-reload (complete_call attempt result) held d e h =
      first-of-err _ d e (look-of-err (reload_and_validate held) _ d e h)
  refused-reload (reconcile_call observation) held d e h =
      first-of-err _ d e (look-of-err (reload_and_validate held) _ d e h)

  -- Of two sessions on one journal only one goes on: after a call of the first returned, every call
  -- of a second whose generation is not the one that was reached is refused as a conflict, and
  -- changes no file.
  pub stale_session_fails :
      (call other : SessionCall) (held stale s : IdentityTransitionJournal) (d d' : Disk)
      → run_call call held d ≡ (ok s, d')
      → stale.operation_id ≡ held.operation_id
      → s.generation ≢ stale.generation
      → run_call other stale d' ≡ (err conflict, d')
  unfolding reload_and_validate
  stale_session_fails call other held stale s d d' h is_same differs =
      let (is_read, named) = hop-reads held s d d' (run_call-cases call held s d d' h) in
      let read_stale : read_identity_transition_journal stale.operation_id d' ≡ ok s =
        ap (λ id. read_identity_transition_journal id d') is_same ∙ is_read in
      let is_stale = (ne_iff s.generation stale.generation).1 differs in
      refused-reload other stale d' conflict (rw (read_stale, is_stale) refl)
