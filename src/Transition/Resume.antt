-- ===== src/Transition/Resume.antt =====
-- crates/anp-identity/src/facade/identity_transition.rs: after a restart, an unfinished transition is
-- found again.
use anp_identity.Anp.{Anp}
use anp_identity.Assoc.{contains_key, lookup}
use anp_identity.Assoc.Laws.{some-injective}
use anp_identity.Disk.{Disk}
use anp_identity.Disk.Files.{
  list_identity_transition_journals, operation_of, place, sort_by, values,
}
use anp_identity.Disk.Transitions.{transition_state_eq}
use anp_identity.Errors.{chain, ok}
use anp_identity.Input.{profile_eq, role_eq}
use anp_identity.Json.{text_lt, value_eq}
use anp_identity.Keystore.{secret_ref_eq}
use anp_identity.Prelude.{
  Bool, Bool-cases, List, [], all, ap, arith, eq_iff, eq_refl, false, inl, inr, is_some, list_eq,
  nat_eq, ne_iff, option_eq, pair_eq, refl, retain, some, sym, true, ◌==◌, ◌∙◌, ◌∷◌, ◌≡◌,
}
use anp_identity.Registry.{
  capability_eq, key_state_eq, origin_eq, publication_eq, state_eq, summary_eq,
}
use anp_identity.Registry.Journals.{IdentityTransitionJournal, IdentityTransitionJournalState}
use anp_identity.Text.{Text}
use anp_identity.Transition.Prepare.{
  blocks, from_journal, is_unfinished, resume_identity_transition, unfinished_of,
}
use anp_identity.Transition.Single.{IsSingle}

-- One value for each key, as one file for each name.
unfoldable pub IsKeyed {ℓ} : {V : Type ℓ} → List (Text × V) → Type 0
IsKeyed [] = Unit
IsKeyed ((k, v) ∷ m) = (contains_key k m ≡ false) × IsKeyed m

lookup-cons {ℓ} :
    {V : Type ℓ} (j l : Text) (w x : V) (m : List (Text × V))
    → contains_key j m ≡ false
    → lookup l m ≡ some x
    → lookup l ((j, w) ∷ m) ≡ some x
unfolding lookup
lookup-cons j l w x m fresh h = elim (Bool-cases (j == l)) [
  | inl t ↦ absurd (cc (fresh, h, (eq_iff j l).0 t, ap is_some h))
  | inr f ↦ rw f h
]

retain-none {ℓ} :
    {V : Type ℓ} (p : V → Bool) (m : List (Text × V))
    → IsKeyed m
    → ((l : Text) (x : V) → lookup l m ≡ some x → p x ≡ false)
    → retain p (values m) ≡ []
unfolding IsKeyed lookup
retain-none p [] keyed h = refl
retain-none p ((j, w) ∷ m) (fresh, keyed) h =
    let out : p w ≡ false = h j w (rw (eq_refl j) refl) in
    rw out (retain-none p m keyed (λ l x q. h l x (lookup-cons j l w x m fresh q)))

-- The only value that passes a test.
retain-one {ℓ} :
    {V : Type ℓ} (p : V → Bool) (k : Text) (v : V) (m : List (Text × V))
    → IsKeyed m
    → lookup k m ≡ some v
    → p v ≡ true
    → ((l : Text) (x : V) → lookup l m ≡ some x → p x ≡ true → k ≡ l)
    → retain p (values m) ≡ v ∷ []
unfolding IsKeyed lookup
retain-one p k v [] keyed h q alone = absurd (cc)
retain-one p k v ((j, w) ∷ m) (fresh, keyed) h q alone = elim (Bool-cases (j == k)) [
  | inl t ↦
      let is_w : w ≡ v = some-injective (rw t at h) in
      let passes : p w ≡ true = ap p is_w ∙ q in
      let none_left : retain p (values m) ≡ [] = retain-none p m keyed (λ l x r.
        elim (Bool-cases (p x)) [
          | inl b ↦
              let is_l = alone l x (lookup-cons j l w x m fresh r) b in
              absurd (cc (is_l, (eq_iff j k).0 t, fresh, r, ap is_some r))
          | inr b ↦ b
        ]) in
      rw passes (cc (none_left, is_w))
  | inr f ↦
      let out : p w ≡ false = elim (Bool-cases (p w)) [
        | inl b ↦
            let is_j = alone j w (rw (eq_refl j) refl) b in absurd ((ne_iff j k).0 f (sym is_j))
        | inr b ↦ b
      ] in
      rw out (
        retain-one p k v m keyed (rw f at h) q (λ l x r. alone l x (lookup-cons j l w x m fresh r)))
]

retain-place {ℓ} :
    {A : Type ℓ} (p : A → Bool) (key : A → Text) (x : A) (xs : List A)
    → p x ≡ false
    → retain p (place key x xs) ≡ retain p xs
unfolding place
retain-place p key x [] h = ground (arith, h)
retain-place p key x (y ∷ ys) h = ground (arith, h, retain-place p key x ys h)

retain-place-one {ℓ} :
    {A : Type ℓ} (p : A → Bool) (key : A → Text) (x : A) (xs : List A)
    → p x ≡ true
    → retain p xs ≡ []
    → retain p (place key x xs) ≡ x ∷ []
unfolding place
retain-place-one p key x [] h q = ground (arith, h)
retain-place-one p key x (y ∷ ys) h q = elim (Bool-cases (p y)) [
  | inl t ↦ absurd (cc (rw t at q))
  | inr f ↦
      let tail = retain-place-one p key x ys h (rw f at q) in
      elim (Bool-cases (text_lt (key y) (key x))) [
        | inl t ↦ rw (t, f) tail
        | inr g ↦ rw (g, h, f) (ap (λ zs. x ∷ zs) (rw f at q))
      ]
]

retain-sort-none {ℓ} :
    {A : Type ℓ} (p : A → Bool) (key : A → Text) (xs : List A)
    → retain p xs ≡ []
    → retain p (sort_by key xs) ≡ []
unfolding sort_by
retain-sort-none p key [] q = refl
retain-sort-none p key (y ∷ ys) q = elim (Bool-cases (p y)) [
  | inl t ↦ absurd (cc (rw t at q))
  | inr f ↦ retain-place p key y (sort_by key ys) f ∙ retain-sort-none p key ys (rw f at q)
]

retain-sort-one {ℓ} :
    {A : Type ℓ} (p : A → Bool) (key : A → Text) (v : A) (xs : List A)
    → retain p xs ≡ v ∷ []
    → retain p (sort_by key xs) ≡ v ∷ []
unfolding sort_by
retain-sort-one p key v [] q = absurd (cc)
retain-sort-one p key v (y ∷ ys) q = elim (Bool-cases (p y)) [
  | inl t ↦
      let pair : y ∷ retain p ys ≡ v ∷ [] = rw t at q in
      let rest : retain p ys ≡ [] = cc pair in
      retain-place-one p key y (sort_by key ys) t (retain-sort-none p key ys rest)
      ∙ ap (λ (z : _). z ∷ []) (cc pair)
  | inr f ↦ retain-place p key y (sort_by key ys) f ∙ retain-sort-one p key v ys (rw f at q)
]

unfinished-unaborted :
    (s : IdentityTransitionJournalState)
    → is_unfinished s ≡ true
    → (s == IdentityTransitionJournalState.aborted) ≡ false
unfinished-unaborted IdentityTransitionJournalState.prepared h = refl
unfinished-unaborted IdentityTransitionJournalState.publication_in_flight h = refl
unfinished-unaborted IdentityTransitionJournalState.publication_uncertain h = refl
unfinished-unaborted IdentityTransitionJournalState.committed h = refl
unfinished-unaborted IdentityTransitionJournalState.aborted h = absurd (cc)

unfinished-blocks :
    (did : Text) (j : IdentityTransitionJournal) → unfinished_of did j ≡ true → blocks did j ≡ true
unfinished-blocks did j h = ground (arith, h, unfinished-unaborted j.state)

module _ ⦃anp : Anp⦄ where
  -- On a store that has one file for each name, in which an identity has at most one transition
  -- that was not aborted and every journal has the known schema, a transition that is prepared, in
  -- flight or uncertain is found again after a restart: resuming gives the session of just this
  -- journal, or the error that `from_journal` gives for it.
  pub resume-finds :
      (did key : Text) (j : IdentityTransitionJournal) (d : Disk)
      → IsKeyed d.transitions
      → IsSingle d.transitions
      → all (λ (i : IdentityTransitionJournal). i.schema_version == 1) (values d.transitions) ≡ true
      → lookup key d.transitions ≡ some j
      → unfinished_of did j ≡ true
      → resume_identity_transition did d ≡ chain (from_journal j) (λ s. ok (some s))
  unfolding resume_identity_transition list_identity_transition_journals IsSingle
  resume-finds did key j d keyed single schemas found live =
      let one = retain-one (unfinished_of did) key j d.transitions keyed found live (λ l x r b.
        single key l j x found r did (unfinished-blocks did j live) (unfinished-blocks did x b)) in
      let listed = retain-sort-one (unfinished_of did) operation_of j (values d.transitions) one in
      rw (schemas, listed) refl
