-- ===== src/Assoc.antt =====
-- `BTreeMap` and `HashMap` with text keys, as an association list that is kept sorted.
pub mod Laws
use anp_identity.Json.{text_lt, value_eq}
use anp_identity.Prelude.{
  Bool, List, Option, [], if◌then◌else◌, is_some, list_eq, nat_eq, none, option_eq, pair_eq, some,
  ◌==◌, ◌∷◌,
}
use anp_identity.Text.{Text}

module _ {ℓ} {V : Type ℓ} where
  unfoldable pub lookup : Text → List (Text × V) → Option V
  lookup k [] = none
  lookup k ((j, v) ∷ m) = if j == k then some v else lookup k m

  unfoldable pub insert : Text → V → List (Text × V) → List (Text × V)
  insert k v [] = (k, v) ∷ []
  insert k v ((j, w) ∷ m) =
      let rest = insert k v m in
      if j == k then (k, v) ∷ m else if text_lt k j then (k, v) ∷ (j, w) ∷ m else (j, w) ∷ rest

  unfoldable pub remove : Text → List (Text × V) → List (Text × V)
  remove k [] = []
  remove k ((j, v) ∷ m) = let rest = remove k m in if j == k then rest else (j, v) ∷ rest

  -- `HashMap::retain` by a test of the values.
  unfoldable pub retain_values : (V → Bool) → List (Text × V) → List (Text × V)
  retain_values p [] = []
  retain_values p ((j, v) ∷ m) = let rest = retain_values p m in if p v then (j, v) ∷ rest else rest

  abbrev pub contains_key : Text → List (Text × V) → Bool
  contains_key k m = is_some (lookup k m)
