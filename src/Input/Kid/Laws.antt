-- ===== src/Input/Kid/Laws.antt =====
-- What `canonicalize_kid` and `validate_unique_kids` of input.rs guarantee.
use mathlib.Core.List.{append_assoc}
use anp_identity.Errors.{err, foreign_kid, ok}
use anp_identity.Input.{profile_eq, role_eq}
use anp_identity.Input.Fields.{
  fragment_is_valid, is_ascii_alphanumeric, is_identifier_byte, validate_fragment,
}
use anp_identity.Input.Kid.{canonicalize_kid, fragment_of, full_kid}
use anp_identity.Json.{value_eq}
use anp_identity.Prelude.{
  Bool, Bool-cases, List, Option-cases, [], all, arith, contains, eq_iff, false, if◌then◌else◌, inl,
  inr, list_eq, nat_eq, none, not, option_eq, pair_eq, refl, some, true, ℕ, ◌&&◌, ◌++◌, ◌==◌, ◌↔◌,
  ◌∙◌, ◌∷◌, ◌≡◌, ◌≢◌, ◌⊎◌,
}
use anp_identity.Text.{Text, bytes, lit, starts_with, strip_prefix, utf8}
use anp_identity.Text.Laws.{append-strip_prefix, strip_prefix-append}

-- The three ways to write the key that a fragment names.
pub data Spells (did fragment kid : Text) : Type 0 where
  with_hash : kid ≡ b'#' ∷ fragment → Spells did fragment kid
  in_full : kid ≡ full_kid did fragment → Spells did fragment kid
  bare : kid ≡ fragment → Spells did fragment kid

-- No identifier character is `#` or `:`.
abbrev pub IsPlain : Text → Type 0
IsPlain s = (contains s b'#' ≡ false) × (contains s b':' ≡ false)

all-utf8 : (c : ℕ) → all is_identifier_byte (utf8 c) ≡ true → (c ≢ b'#') × (c ≢ b':')
unfolding is_identifier_byte is_ascii_alphanumeric
all-utf8 c h = (
  λ p. let h' : all is_identifier_byte (utf8 b'#') ≡ true = rw p at h in cc h',
  λ p. let h' : all is_identifier_byte (utf8 b':') ≡ true = rw p at h in cc h',
)

all-append : (p : ℕ → Bool) (xs ys : List ℕ) → all p (xs ++ ys) ≡ (all p xs && all p ys)
all-append p [] ys = refl
all-append p (x ∷ xs) ys = ground (arith, all-append p xs ys)

IsPlain-bytes : (s : Text) → all is_identifier_byte (bytes s) ≡ true → IsPlain s
unfolding bytes
IsPlain-bytes [] h = (refl, refl)
IsPlain-bytes (c ∷ s) h =
    ground (arith, all-append is_identifier_byte (utf8 c) (bytes s), all-utf8 c, IsPlain-bytes s)

pub fragment_is_valid-IsPlain : (s : Text) → fragment_is_valid s ≡ true → IsPlain s
unfolding fragment_is_valid
fragment_is_valid-IsPlain s h = IsPlain-bytes s (ground arith)

-- A text with no `#` does not have a prefix that ends in one.
strip_prefix_plain : (p s : Text) → contains s b'#' ≡ false → strip_prefix (p ++ b'#' ∷ []) s ≡ none
unfolding strip_prefix
strip_prefix_plain [] [] h = refl
strip_prefix_plain [] (c ∷ s) h = ground arith
strip_prefix_plain (d ∷ p) [] h = refl
strip_prefix_plain (d ∷ p) (c ∷ s) h = ground (arith, strip_prefix_plain p s)

strip_prefix-full_kid : (did f : Text) → strip_prefix (did ++ b'#' ∷ []) (full_kid did f) ≡ some f
strip_prefix-full_kid did f =
    rw (← append_assoc did (b'#' ∷ []) f) (strip_prefix-append (did ++ b'#' ∷ []) f)

module _ (did kid : Text) where
  fragment_of_hash : (f : Text) → strip_prefix (lit "#") kid ≡ some f → fragment_of did kid ≡ some f
  unfolding fragment_of
  fragment_of_hash f e = ground arith

  fragment_of_prefixed :
      (f : Text)
      → strip_prefix (lit "#") kid ≡ none
      → strip_prefix (did ++ b'#' ∷ []) kid ≡ some f
      → fragment_of did kid ≡ some f
  unfolding fragment_of
  fragment_of_prefixed f e p = ground arith

  fragment_of_rest :
      strip_prefix (lit "#") kid ≡ none
      → strip_prefix (did ++ b'#' ∷ []) kid ≡ none
      → fragment_of did kid
        ≡ (if not (contains kid b':') && not (contains kid b'#') then some kid else none)
  unfolding fragment_of
  fragment_of_rest e p = ground arith

no_hash-strip_prefix :
    (s : Text) → starts_with (lit "#") s ≡ false → strip_prefix (lit "#") s ≡ none
unfolding starts_with strip_prefix
no_hash-strip_prefix [] h = refl
no_hash-strip_prefix (c ∷ s) h = ground arith

full_kid-starts_with :
    (did f : Text)
    → starts_with (lit "#") did ≡ false
    → (did ≡ []) ⊎ (starts_with (lit "#") (full_kid did f) ≡ false)
unfolding starts_with
full_kid-starts_with [] f h = inl refl
full_kid-starts_with (c ∷ did) f h = inr h

plain-starts_with : (s : Text) → IsPlain s → starts_with (lit "#") s ≡ false
unfolding starts_with
plain-starts_with [] h = refl
plain-starts_with (c ∷ s) h = ground arith

strip_hash_self : (f : Text) → strip_prefix (lit "#") (b'#' ∷ f) ≡ some f
unfolding strip_prefix
strip_hash_self f = refl

-- The fragment that a spelling names is found again, if the DID does not begin with `#`.
fragment_of-Spells :
    (did f kid : Text)
    → starts_with (lit "#") did ≡ false
    → IsPlain f
    → Spells did f kid
    → fragment_of did kid ≡ some f
fragment_of-Spells did f kid h plain (with_hash e) =
    rw e (fragment_of_hash did (b'#' ∷ f) f (strip_hash_self f))
fragment_of-Spells did f kid h plain (in_full e) = elim (full_kid-starts_with did f h) [
  | inl nothing ↦ rw (e, nothing) (fragment_of_hash [] (b'#' ∷ f) f (strip_hash_self f))
  | inr other ↦ rw e (
      fragment_of_prefixed did (full_kid did f) f (no_hash-strip_prefix (full_kid did f) other)
        (strip_prefix-full_kid did f))
]
fragment_of-Spells did f kid h plain (bare e) = rw e (
    fragment_of_rest did f (no_hash-strip_prefix f (plain-starts_with f plain))
      (strip_prefix_plain did f plain.0)
    ∙ ground arith)

Spells-fragment_of : (did f kid : Text) → fragment_of did kid ≡ some f → Spells did f kid
Spells-fragment_of did f kid h = elim (Option-cases (strip_prefix (lit "#") kid)) [
  | inl no_hash ↦ elim (Option-cases (strip_prefix (did ++ b'#' ∷ []) kid)) [
    | inl short ↦ bare (let k = fragment_of_rest did kid no_hash short in ground arith)
    | inr (g, e) ↦ in_full (
        append-strip_prefix (did ++ b'#' ∷ []) kid f
          (cc (e, h, fragment_of_prefixed did kid g no_hash e))
        ∙ append_assoc did (b'#' ∷ []) f)
  ]
  | inr (g, e) ↦
      with_hash (append-strip_prefix (lit "#") kid f (cc (e, h, fragment_of_hash did kid g e)))
]

canonicalize_of_fragment :
    (did f kid : Text)
    → fragment_of did kid ≡ some f
    → fragment_is_valid f ≡ true
    → canonicalize_kid did kid ≡ ok (full_kid did f)
unfolding canonicalize_kid validate_fragment
canonicalize_of_fragment did f kid e v = ground arith

fragment_of_canonicalize :
    (did kid : Text) {k : Text}
    → canonicalize_kid did kid ≡ ok k
    → (f : Text) × (fragment_of did kid ≡ some f)
      × (fragment_is_valid f ≡ true)
      × (k ≡ full_kid did f)
unfolding canonicalize_kid validate_fragment
fragment_of_canonicalize did kid h = ground arith

-- For a DID that does not begin with `#`, `canonicalize_kid` returns a key exactly when the input is
-- one of the three spellings of a valid fragment, and then that key is the DID, `#`, the fragment.
pub canonicalize_kid_iff :
    (did kid k : Text)
    → starts_with (lit "#") did ≡ false
    → (canonicalize_kid did kid ≡ ok k)
      ↔ ((f : Text) × (fragment_is_valid f ≡ true) × (k ≡ full_kid did f) × Spells did f kid)
canonicalize_kid_iff did kid k h = (
  λ e.
      let (f, found, v, eq) = fragment_of_canonicalize did kid e in
      (f, v, eq, Spells-fragment_of did f kid found),
  λ (f, v, eq, s). rw eq (
      canonicalize_of_fragment did f kid
        (fragment_of-Spells did f kid h (fragment_is_valid-IsPlain f v) s) v),
)

-- A canonical key is its own canonical spelling: for a DID that does not begin with `#`, whatever
-- `canonicalize_kid` returns it returns again for that result.
pub canonicalize_kid_idem :
    (did kid k : Text)
    → starts_with (lit "#") did ≡ false
    → canonicalize_kid did kid ≡ ok k
    → canonicalize_kid did k ≡ ok k
canonicalize_kid_idem did kid k h e =
    let (f, v, eq, s) = (canonicalize_kid_iff did kid k h).0 e in
    (canonicalize_kid_iff did k k h).1 (f, v, eq, in_full eq)

-- Two DIDs without `#` share no key in full.
full_kid-strip_prefix :
    (did other f : Text)
    → contains did b'#' ≡ false
    → contains other b'#' ≡ false
    → did ≢ other
    → strip_prefix (did ++ b'#' ∷ []) (full_kid other f) ≡ none
unfolding strip_prefix
full_kid-strip_prefix [] [] f p q ne = absurd (ne refl)
full_kid-strip_prefix [] (c ∷ other) f p q ne = ground arith
full_kid-strip_prefix (d ∷ did) [] f p q ne = ground arith
full_kid-strip_prefix (d ∷ did) (c ∷ other) f p q ne = elim (Bool-cases (d == c)) [
  | inl e ↦ rw e (
      full_kid-strip_prefix did other f (ground arith) (ground arith)
        (λ r. ne (cc (r, (eq_iff d c).0 e))))
  | inr e ↦ rw e
]

contains-full_kid : (did f : Text) → contains (full_kid did f) b'#' ≡ true
contains-full_kid [] f = refl
contains-full_kid (c ∷ did) f = ground (arith, contains-full_kid did f)

full_kid-not_hash :
    (did f : Text)
    → contains did b'#' ≡ false
    → did ≢ []
    → starts_with (lit "#") (full_kid did f) ≡ false
unfolding starts_with
full_kid-not_hash [] f h ne = absurd (ne refl)
full_kid-not_hash (c ∷ did) f h ne = ground arith

-- A key in full of another DID is refused as foreign: neither DID holds a `#`, the other one is not
-- empty, and they differ. The fragment may be anything.
pub canonicalize_kid-foreign :
    (did other f : Text)
    → contains did b'#' ≡ false
    → contains other b'#' ≡ false
    → other ≢ []
    → did ≢ other
    → canonicalize_kid did (full_kid other f) ≡ err foreign_kid
unfolding canonicalize_kid
canonicalize_kid-foreign did other f p q nonempty ne = ground (
  arith,
  fragment_of_rest did (full_kid other f)
      (no_hash-strip_prefix (full_kid other f) (full_kid-not_hash other f q nonempty))
      (full_kid-strip_prefix did other f p q ne),
  contains-full_kid other f,
)
