-- ===== src/Assoc/Laws.antt =====
-- The laws of maps: a look-up after an insertion, a removal and a filter.
use anp_identity.Assoc.{insert, lookup, remove, retain_values}
use anp_identity.Json.{text_lt, value_eq}
use anp_identity.Prelude.{
  All, Bool, Bool-cases, List, Option, [], ap, arith, eq_iff, if◌then◌else◌, inl, inr, list_eq,
  nat_eq, none, option_eq, pair_eq, refl, some, sym, true, ◌==◌, ◌∙◌, ◌∷◌, ◌≡◌, ◌⊎◌,
}
use anp_identity.Text.{Text}

abbrev pub value_in {ℓ} : {V : Type ℓ} → V → Option V → V
value_in v none = v
value_in v (some w) = w

pub some-injective {ℓ} : {V : Type ℓ} {v w : V} → Path (Option V) (some v) (some w) → v ≡ w
some-injective {v = v} h = ap (value_in v) h

module _ {ℓ} {V : Type ℓ} where
  -- A look-up of another key passes by the entry that was put in or taken out.
  pub lookup-insert :
      (stored asked : Text) (value : V) (m : List (Text × V))
      → lookup asked (insert stored value m)
        ≡ (if stored == asked then some value else lookup asked m)
  unfolding lookup insert
  lookup-insert stored asked value [] = refl
  lookup-insert stored asked value ((head, first) ∷ rest) = ground (
    arith,
    lookup-insert stored asked value rest,
    eq_iff head asked,
    eq_iff head stored,
    eq_iff stored asked,
  )

  pub lookup-remove :
      (gone asked : Text) (m : List (Text × V))
      → lookup asked (remove gone m) ≡ (if gone == asked then none else lookup asked m)
  unfolding lookup remove
  lookup-remove gone asked [] = ground arith
  lookup-remove gone asked ((head, first) ∷ rest) =
      ground (
        arith,
        lookup-remove gone asked rest,
        eq_iff head asked,
        eq_iff head gone,
        eq_iff gone asked,
      )

  pub lookup-retain_values :
      (k : Text) (p : V → Bool) (v : V) (m : List (Text × V))
      → lookup k m ≡ some v
      → p v ≡ true
      → lookup k (retain_values p m) ≡ some v
  unfolding lookup retain_values
  lookup-retain_values k p v [] h q = cc
  lookup-retain_values k p v ((i, w) ∷ m) h q = ground (arith, lookup-retain_values k p v m)

  -- Every value that is left passes the test.
  pub retain_values-All :
      (p : V → Bool) (m : List (Text × V)) → All (λ e. p e.1 ≡ true) (retain_values p m)
  unfolding retain_values
  retain_values-All p [] = tt
  retain_values-All p ((i, w) ∷ m) = elim (Bool-cases (p w)) [
    | inl keep ↦ rw keep (keep, retain_values-All p m)
    | inr out ↦ rw out (retain_values-All p m)
  ]

  pub insert-All {κ} :
      (P : Text × V → Type κ) (k : Text) (v : V) (m : List (Text × V))
      → P (k, v)
      → All P m
      → All P (insert k v m)
  unfolding insert
  insert-All P k v [] h a = (h, a)
  insert-All P k v ((j, w) ∷ m) h a = elim (Bool-cases (j == k)) [
    | inl same ↦ rw same (h, a.1)
    | inr other ↦ rw other (elim (Bool-cases (text_lt k j)) [
      | inl before ↦ rw before (h, a)
      | inr after ↦ rw after (a.0, insert-All P k v m h a.1)
    ])
  ]

  -- What is found after an insertion is the new value, or what was there.
  pub lookup-insert-eq-some :
      (stored asked : Text) (value found : V) (m : List (Text × V))
      → lookup asked (insert stored value m) ≡ some found
      → ((stored ≡ asked) × (value ≡ found)) ⊎ (lookup asked m ≡ some found)
  lookup-insert-eq-some stored asked value found m h = elim (Bool-cases (stored == asked)) [
    | inl t ↦
        let picked : Path (Option V) (some value) (some found) =
          ap (λ b. if b then some value else lookup asked m) (sym t)
          ∙ sym (lookup-insert stored asked value m)
          ∙ h in
        inl ((eq_iff stored asked).0 t, some-injective picked)
    | inr f ↦ inr (
        ap (λ b. if b then some value else lookup asked m) (sym f)
        ∙ sym (lookup-insert stored asked value m)
        ∙ h)
  ]
