-- ===== src/Transition/Single.antt =====
-- crates/anp-identity/src/facade/identity_transition.rs: an identity has at most one transition that
-- was not aborted.
use anp_identity.Anp.{Anp}
use anp_identity.Assoc.{insert, lookup}
use anp_identity.Assoc.Laws.{lookup-insert-eq-some}
use anp_identity.Disk.{Disk}
use anp_identity.Disk.Files.{place, sort_by, storage_key, values}
use anp_identity.Disk.Transitions.{transition_state_eq}
use anp_identity.Errors.{is_ok-cases}
use anp_identity.Input.{profile_eq, role_eq}
use anp_identity.Json.{value_eq}
use anp_identity.Keystore.{secret_ref_eq}
use anp_identity.Prelude.{
  Bool, List, [], any, ap, arith, false, inl, inr, list_eq, nat_eq, ne_iff, option_eq, pair_eq,
  refl, some, subst⁻¹, sym, true, ◌&&◌, ◌==◌, ◌||◌, ◌∙◌, ◌∷◌, ◌≡◌, ◌≢◌,
}
use anp_identity.Registry.{
  capability_eq, key_state_eq, origin_eq, publication_eq, state_eq, summary_eq,
}
use anp_identity.Registry.Journals.{IdentityTransitionJournal, IdentityTransitionJournalState}
use anp_identity.Text.{Text}
use anp_identity.Transition.{Hops}
use anp_identity.Transition.Histories.{read-transition-eq-ok, reload-reads}
use anp_identity.Transition.Moves.{run_call-cases}
use anp_identity.Transition.Prepare.{blocks}
use anp_identity.Transition.Quiet.{run_call-IsQuiet}
use anp_identity.Transition.Sessions.{SessionCall, run_call}
use anp_identity.Transition.Steps.{
  HopEdge, IsHopStep, begins, confirms, falls_back, finds, gives_up, loses,
}

-- Of two journals of one predecessor one was aborted, unless they are in one file.
unfoldable pub IsSingle : List (Text × IdentityTransitionJournal) → Type 0
IsSingle m =
    (k l : Text) (i j : IdentityTransitionJournal)
    → lookup k m ≡ some i
    → lookup l m ≡ some j
    → (did : Text) → blocks did i ≡ true
    → blocks did j ≡ true
    → k ≡ l

-- A test that no value of a map passes.
any-place {ℓ} :
    {A : Type ℓ} (p : A → Bool) (key : A → Text) (x : A) (xs : List A)
    → any p (place key x xs) ≡ any p (x ∷ xs)
unfolding place
any-place p key x [] = refl
any-place p key x (y ∷ ys) = ground (arith, any-place p key x ys)

pub any-sort_by {ℓ} :
    {A : Type ℓ} (p : A → Bool) (key : A → Text) (xs : List A) → any p (sort_by key xs) ≡ any p xs
unfolding sort_by
any-sort_by p key [] = refl
any-sort_by p key (x ∷ xs) =
    any-place p key x (sort_by key xs) ∙ ap (λ b. p x || b) (any-sort_by p key xs)

pub lookup-any {ℓ} :
    {V : Type ℓ} (p : V → Bool) (k : Text) (v : V) (m : List (Text × V))
    → lookup k m ≡ some v
    → any p (values m) ≡ false
    → p v ≡ false
unfolding lookup
lookup-any p k v [] h q = absurd (cc)
lookup-any p k v ((j, w) ∷ m) h q = ground (arith, lookup-any p k v m)

and-true-left : (a b : Bool) → (a && b) ≡ true → a ≡ true
and-true-left a b h = ground arith

-- What a new entry, and the entry that takes another's place, must keep.
pub insert-IsSingle :
    (key : Text) (s : IdentityTransitionJournal) (m : List (Text × IdentityTransitionJournal))
    → IsSingle m
    → ((l : Text) (j : IdentityTransitionJournal)
        → lookup l m ≡ some j
        → (did : Text) → blocks did s ≡ true
        → blocks did j ≡ true
        → key ≡ l)
    → IsSingle (insert key s m)
unfolding IsSingle
insert-IsSingle key s m single fresh k l i j p q did a b =
    elim (lookup-insert-eq-some key k s i m p) [
      | inl (is_k, is_i) ↦ elim (lookup-insert-eq-some key l s j m q) [
        | inl (is_l, is_j) ↦ sym is_k ∙ is_l
        | inr old ↦ sym is_k ∙ fresh l j old did (rw is_i a) b
      ]
      | inr found ↦ elim (lookup-insert-eq-some key l s j m q) [
        | inl (is_l, is_j) ↦ sym (fresh k i found did (rw is_j b) a) ∙ is_l
        | inr old ↦ single k l i j found old did a b
      ]
    ]

unaborted-HopEdge :
    (a b : IdentityTransitionJournalState)
    → HopEdge a b
    → a ≢ IdentityTransitionJournalState.aborted
unaborted-HopEdge _ _ begins p = cc
unaborted-HopEdge _ _ confirms p = cc
unaborted-HopEdge _ _ gives_up p = cc
unaborted-HopEdge _ _ loses p = cc
unaborted-HopEdge _ _ falls_back p = cc
unaborted-HopEdge _ _ finds p = cc

-- What blocks after a step has blocked before it.
old-blocks :
    (did : Text) (before after : IdentityTransitionJournal)
    → after.expected_current_did ≡ before.expected_current_did
    → before.state ≢ IdentityTransitionJournalState.aborted
    → blocks did after ≡ true
    → blocks did before ≡ true
old-blocks did before after heir live h =
    let is_live = (ne_iff before.state IdentityTransitionJournalState.aborted).1 live in
    let is_of : (before.expected_current_did == did) ≡ true =
      ap (λ t. t == did) (sym heir) ∙ (and-true-left _ _ h) in
    rw (is_of, is_live) refl

module _ ⦃anp : Anp⦄ ⦃hops : Hops⦄ where
  step-IsSingle :
      (held s : IdentityTransitionJournal) (d d' : Disk)
      → IsSingle d.transitions
      → IsHopStep held s d d'
      → IsSingle d'.transitions
  unfolding IsSingle
  step-IsSingle held s d d' single step =
      let (is_read, is_held) = reload-reads held step.before d step.is_reloaded in
      let (found, schema, named) = read-transition-eq-ok held.operation_id d step.before is_read in
      let is_named : held.operation_id ≡ s.operation_id =
        sym (ap (λ (x : IdentityTransitionJournal). x.operation_id) step.is_result ∙ named) in
      let is_there : lookup (storage_key s.operation_id) d.transitions ≡ some step.before =
        ap (λ id. lookup (storage_key id) d.transitions) (sym is_named) ∙ found in
      let is_heir : s.expected_current_did ≡ step.before.expected_current_did =
        ap (λ (x : IdentityTransitionJournal). x.expected_current_did) step.is_result in
      let kept : IsSingle (insert (storage_key s.operation_id) s d.transitions) =
        insert-IsSingle (storage_key s.operation_id) s d.transitions single (λ l j q did a b.
          single (storage_key s.operation_id) l step.before j is_there q did
            (old-blocks did step.before s is_heir
              (unaborted-HopEdge step.before.state s.state step.edge) a)
            b) in
      subst⁻¹ (λ (x : Disk). IsSingle x.transitions) step.is_written kept

  -- The calls of a session keep that an identity has at most one transition that was not aborted.
  pub call-IsSingle :
      (call : SessionCall) (held : IdentityTransitionJournal) (d : Disk)
      → IsSingle d.transitions
      → IsSingle (run_call call held d).1.transitions
  call-IsSingle call held d single = elim (is_ok-cases (run_call call held d).0) [
    | inl (e, q) ↦
        subst⁻¹ (λ (x : Disk). IsSingle x.transitions)
          (run_call-IsQuiet call held e d (run_call call held d).1 (cc q)) single
    | inr (s, q) ↦ elim (run_call-cases call held s d (run_call call held d).1 (cc q)) [
      | inl step ↦ step-IsSingle held s d _ single step
      | inr (is_reloaded, in_state, stays) ↦
          subst⁻¹ (λ (x : Disk). IsSingle x.transitions) stays single
    ]
  ]
