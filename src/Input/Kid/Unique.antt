-- ===== src/Input/Kid/Unique.antt =====
-- `validate_unique_kids` of input.rs accepts lists of distinct keys only.
use anp_identity.Errors.{DidResult, ok, ◌>>=◌}
use anp_identity.Input.{profile_eq, role_eq}
use anp_identity.Input.Kid.{canonicalize_kid, unique_kids_from, validate_unique_kids}
use anp_identity.Json.{value_eq}
use anp_identity.Prelude.{
  Distinct, Fresh, Fresh-nil_iff, List, [], all, arith, contains, false, list_eq, nat_eq,
  not_contains, option_eq, pair_eq, refl, ◌↔◌, ◌∷◌, ◌≡◌,
}
use anp_identity.Text.{Text}

-- The canonical spellings of all the keys, or the first refusal: the specification's view.
pub canonical_kids : Text → List Text → DidResult (List Text)
canonical_kids did [] = ok []
canonical_kids did (kid ∷ kids) = do
  k ← canonicalize_kid did kid
  ks ← canonical_kids did kids
  ok (k ∷ ks)

canonical_kids-cons :
    (did kid : Text) (kids : List Text) (k : Text) (ks : List Text)
    → canonicalize_kid did kid ≡ ok k
    → canonical_kids did kids ≡ ok ks
    → canonical_kids did (kid ∷ kids) ≡ ok (k ∷ ks)
unfolding canonical_kids
canonical_kids-cons did kid kids k ks p q = ground arith

cons-canonical_kids :
    (did kid : Text) (kids : List Text) {out : List Text}
    → canonical_kids did (kid ∷ kids) ≡ ok out
    → (k : Text) × (ks : List Text) × (canonicalize_kid did kid ≡ ok k)
      × (canonical_kids did kids ≡ ok ks)
      × (out ≡ k ∷ ks)
unfolding canonical_kids
cons-canonical_kids did kid kids h = ground arith

module _ (did : Text) (seen : List Text) (kid : Text) (kids : List Text) where
  cons-unique_kids_from :
      unique_kids_from did seen (kid ∷ kids) ≡ ok tt
      → (k : Text) × (canonicalize_kid did kid ≡ ok k)
        × (contains seen k ≡ false)
        × (unique_kids_from did (k ∷ seen) kids ≡ ok tt)
  unfolding unique_kids_from
  cons-unique_kids_from h = ground arith

  unique_kids_from-cons :
      (k : Text)
      → canonicalize_kid did kid ≡ ok k
      → contains seen k ≡ false
      → unique_kids_from did (k ∷ seen) kids ≡ ok tt
      → unique_kids_from did seen (kid ∷ kids) ≡ ok tt
  unfolding unique_kids_from
  unique_kids_from-cons k p q h = ground arith

unique_kids_from-Fresh :
    (did : Text) (seen kids : List Text)
    → unique_kids_from did seen kids ≡ ok tt
    → (ks : List Text) × (canonical_kids did kids ≡ ok ks) × Fresh seen ks
unfolding canonical_kids
unique_kids_from-Fresh did seen [] h = ([], refl, tt)
unique_kids_from-Fresh did seen (kid ∷ kids) h =
    let (k, found, new, rest) = cons-unique_kids_from did seen kid kids h in
    let (ks, all, fresh) = unique_kids_from-Fresh did (k ∷ seen) kids rest in
    (k ∷ ks, canonical_kids-cons did kid kids k ks found all, ((not_contains seen k).0 new, fresh))

Fresh-unique_kids_from :
    (did : Text) (seen kids ks : List Text)
    → canonical_kids did kids ≡ ok ks
    → Fresh seen ks
    → unique_kids_from did seen kids ≡ ok tt
unfolding unique_kids_from
Fresh-unique_kids_from did seen [] ks e h = refl
Fresh-unique_kids_from did seen (kid ∷ kids) ks e h =
    let (k, rest, found, all, eq) = cons-canonical_kids did kid kids e in
    let fresh : Fresh seen (k ∷ rest) = rw eq at h in
    unique_kids_from-cons did seen kid kids k found ((not_contains seen k).1 fresh.0)
      (Fresh-unique_kids_from did (k ∷ seen) kids rest all fresh.1)

-- `validate_unique_kids` accepts a list exactly when every key has a canonical spelling and these
-- spellings are pairwise distinct, however the keys are written.
pub validate_unique_kids_iff :
    (did : Text) (kids : List Text)
    → (validate_unique_kids did kids ≡ ok tt)
      ↔ ((ks : List Text) × (canonical_kids did kids ≡ ok ks) × Distinct ks)
unfolding validate_unique_kids
validate_unique_kids_iff did kids = (
  λ h.
      let (ks, all, fresh) = unique_kids_from-Fresh did [] kids h in
      (ks, all, (Fresh-nil_iff ks).0 fresh),
  λ (ks, all, d). Fresh-unique_kids_from did [] kids ks all ((Fresh-nil_iff ks).1 d),
)
