-- ===== src/Text/Laws.antt =====
-- Laws of prefixes and of trimming.
use anp_identity.Prelude.{[], arith, refl, some, ◌++◌, ◌∷◌, ◌≡◌}
use anp_identity.Text.{Text, strip_prefix}

pub strip_prefix-append : (p s : Text) → strip_prefix p (p ++ s) ≡ some s
unfolding strip_prefix
strip_prefix-append [] s = refl
strip_prefix-append (c ∷ p) s = ground (arith, strip_prefix-append p s)

pub append-strip_prefix : (p s t : Text) → strip_prefix p s ≡ some t → s ≡ p ++ t
unfolding strip_prefix
append-strip_prefix [] s t h = ground arith
append-strip_prefix (c ∷ p) [] t h = cc
append-strip_prefix (c ∷ p) (d ∷ s) t h = ground (arith, append-strip_prefix p s t)

pub append-injective : (p s t : Text) → p ++ s ≡ p ++ t → s ≡ t
append-injective [] s t h = h
append-injective (c ∷ p) s t h = append-injective p s t (cc)
