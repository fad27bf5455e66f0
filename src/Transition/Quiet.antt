-- ===== src/Transition/Quiet.antt =====
-- crates/anp-identity/src/facade/identity_transition.rs: a call of a session that fails has changed
-- no file.
use anp_identity.Anp.{Anp}
use anp_identity.Disk.{Disk, write}
use anp_identity.Disk.Outcome.{write-cases}
use anp_identity.Disk.Transitions.{write_identity_transition_journal}
use anp_identity.Errors.{DidResult, err, ok, refuse_if}
use anp_identity.Facade.{
  IdentityError, IdentityResult, Request, demand, engine, engine_outcome, give, go_on, look, ◌>>=◌,
}
use anp_identity.Prelude.{ap, inl, inr, sym, ◌∙◌, ◌≡◌}
use anp_identity.Registry.Journals.{IdentityTransitionJournal, IdentityTransitionJournalState}
use anp_identity.Transition.{
  Hops, IdentityTransitionPublicationAttempt, IdentityTransitionPublicationResult,
  IdentityTransitionRemoteObservation, advance_journal, conclude, judge, reload_and_validate,
  validate_attempt,
}
use anp_identity.Transition.Sessions.{
  SessionCall, begin_by, begin_call, begin_transition, complete_call, complete_transition,
  reconcile_call, reconcile_transition, run_call, save,
}

-- A request that changes no file when it fails.
pub IsQuiet {ℓ} : {A : Type ℓ} → Request A → Type ℓ
IsQuiet {A = A} m =
    (d d' : Disk) (e : IdentityError) → Path (IdentityResult A × Disk) (m d) (err e, d') → d' ≡ d

module _ {ℓ κ} {A : Type ℓ} {B : Type κ} where
  demand-IsQuiet :
      (r : IdentityResult A) (f : A → Request B)
      → ((a : A) → IsQuiet (f a))
      → IsQuiet (demand r >>= f)
  unfolding ◌>>=◌ IsQuiet
  demand-IsQuiet (ok a) f quiet d d' e h = quiet a d d' e h
  demand-IsQuiet (err e0) f quiet d d' e h = sym (ap (λ x. x.1) h)

  look-IsQuiet :
      (g : Disk → IdentityResult A) (f : A → Request B)
      → ((a : A) → IsQuiet (f a))
      → IsQuiet (look g >>= f)
  unfolding ◌>>=◌ IsQuiet
  look-IsQuiet g f quiet d d' e h = demand-IsQuiet (g d) f quiet d d' e h

  then_give-outcome :
      (f : A → B) (x : IdentityResult A × Disk) (e : IdentityError) (d' : Disk)
      → go_on (λ a. give (f a)) x ≡ (err e, d')
      → x ≡ (err e, d')
  then_give-outcome f (ok a, d) e d' h = absurd (cc (ap (λ x. x.0) h))
  then_give-outcome f (err e0, d) e d' h = cc (ap (λ x. fail_or e x.0) h, ap (λ x. x.1) h)
    where
      fail_or : IdentityError → IdentityResult B → IdentityError
      fail_or e (ok b) = e
      fail_or e (err given) = given

  -- A plain result after it cannot fail.
  then_give-IsQuiet : (m : Request A) (f : A → B) → IsQuiet m → IsQuiet (m >>= λ a. give (f a))
  unfolding ◌>>=◌ IsQuiet
  then_give-IsQuiet m f quiet d d' e h = quiet d d' e (then_give-outcome f (m d) e d' h)

engine_outcome-eq-err {ℓ} :
    {A : Type ℓ} (x y : DidResult A × Disk) (e : IdentityError) (a : A) (d d' : Disk)
    → x ≡ y
    → engine_outcome x ≡ (err e, d')
    → y.1 ≡ d'
engine_outcome-eq-err x y e a d d' p h = ap (λ z. z.1) (sym p) ∙ ap (λ z. z.1) h

module _ ⦃anp : Anp⦄ where
  engine-write-IsQuiet : (change : Disk → Disk) → IsQuiet (engine (write change))
  unfolding IsQuiet
  engine-write-IsQuiet change d d' e h = elim (write-cases change d) [
    | inl q ↦ sym (ap (λ x. x.1) (ap engine_outcome (sym q) ∙ h))
    | inr (n, u, q) ↦ absurd (cc (ap (λ x. x.0) (ap engine_outcome (sym q) ∙ h)))
  ]

  save-IsQuiet : (j : IdentityTransitionJournal) → IsQuiet (save j)
  unfolding write_identity_transition_journal
  save-IsQuiet j =
      then_give-IsQuiet (engine (write_identity_transition_journal j)) (λ _. j)
        (engine-write-IsQuiet _)

  begin_by-IsQuiet :
      (state : IdentityTransitionJournalState) (j : IdentityTransitionJournal)
      → IsQuiet (begin_by state j)
  unfolding IsQuiet
  begin_by-IsQuiet IdentityTransitionJournalState.prepared j d d' e h =
      demand-IsQuiet (advance_journal _ j) save save-IsQuiet d d' e h
  begin_by-IsQuiet IdentityTransitionJournalState.publication_in_flight j d d' e h =
      absurd (cc (ap (λ x. x.0) h))
  begin_by-IsQuiet IdentityTransitionJournalState.publication_uncertain j d d' e h =
      sym (ap (λ x. x.1) h)
  begin_by-IsQuiet IdentityTransitionJournalState.committed j d d' e h = sym (ap (λ x. x.1) h)
  begin_by-IsQuiet IdentityTransitionJournalState.aborted j d d' e h = sym (ap (λ x. x.1) h)

  begin_transition-IsQuiet : (held : IdentityTransitionJournal) → IsQuiet (begin_transition held)
  unfolding begin_transition
  begin_transition-IsQuiet held =
      look-IsQuiet (reload_and_validate held) _
        (λ j. then_give-IsQuiet (begin_by j.state j) _ (begin_by-IsQuiet j.state j))

  complete_transition-IsQuiet :
      (attempt : IdentityTransitionPublicationAttempt)
      (result : IdentityTransitionPublicationResult) (held : IdentityTransitionJournal)
      → IsQuiet (complete_transition attempt result held)
  unfolding complete_transition
  complete_transition-IsQuiet attempt result held = look-IsQuiet (reload_and_validate held) _ (λ j.
      demand-IsQuiet (validate_attempt attempt j) _ (λ _. demand-IsQuiet (refuse_if _ _) _ (λ _.
        demand-IsQuiet (conclude result j) _ (λ c.
          demand-IsQuiet (advance_journal c.1 j) _
            (λ t. then_give-IsQuiet (save t) _ (save-IsQuiet t))))))

  module _ ⦃hops : Hops⦄ where
    reconcile_transition-IsQuiet :
        (observation : IdentityTransitionRemoteObservation) (held : IdentityTransitionJournal)
        → IsQuiet (reconcile_transition observation held)
    unfolding reconcile_transition
    reconcile_transition-IsQuiet observation held = look-IsQuiet (reload_and_validate held) _ (λ j.
        demand-IsQuiet (refuse_if _ _) _ (λ _. demand-IsQuiet (judge observation j) _ (λ c.
          demand-IsQuiet (advance_journal c.1 j) _
            (λ t. then_give-IsQuiet (save t) _ (save-IsQuiet t)))))

    -- A call of a session that fails, for whatever reason, has changed no file.
    pub run_call-IsQuiet :
        (call : SessionCall) (held : IdentityTransitionJournal) (e : IdentityError) (d d' : Disk)
        → run_call call held d ≡ (err e, d')
        → d' ≡ d
    unfolding run_call IsQuiet
    run_call-IsQuiet begin_call held e d d' h =
        then_give-IsQuiet (begin_transition held) _ (begin_transition-IsQuiet held) d d' e h
    run_call-IsQuiet (complete_call attempt result) held e d d' h =
        then_give-IsQuiet (complete_transition attempt result held) _
          (complete_transition-IsQuiet attempt result held) d d' e h
    run_call-IsQuiet (reconcile_call observation) held e d d' h =
        then_give-IsQuiet (reconcile_transition observation held) _
          (reconcile_transition-IsQuiet observation held) d d' e h
