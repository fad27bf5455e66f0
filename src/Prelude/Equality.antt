-- ===== src/Prelude/Equality.antt =====
-- `PartialEq` as an interface: one operator for every type that has an instance.
use Prim.Native.Nat.{ℕ, compare, Ordering}
use mathlib.Core.Path.{◌≡◌, refl, ap, sym}
use mathlib.Core.Logic.{◌↔◌, ◌⊎◌, inl, inr}
use mathlib.Core.Bool.{Bool, true, false, ◌&&◌, ◌||◌}
use mathlib.Core.Option.{Option, none, some}
use mathlib.Core.List.{List, [], ◌∷◌}
use native.Mathlib.Omega.{arith}
use anp_identity.Prelude.Tests.{Bool-cases}

-- `PartialEq::eq`, and that it decides equality.
pub record Eq {ℓ} (X : Type ℓ) : Type ℓ where
  pub beq : X → X → Bool
  pub beq_iff : (x y : X) → (beq x y ≡ true) ↔ (x ≡ y)

module _ {ℓ} {A : Type ℓ} ⦃e : Eq A⦄ where
  infix 50 ◌==◌
  abbrev pub ◌==◌ : A → A → Bool
  a == b = e.beq a b

  pub eq_iff : (a b : A) → ((a == b) ≡ true) ↔ (a ≡ b)
  eq_iff = e.beq_iff

  pub eq_refl : (a : A) → (a == a) ≡ true
  eq_refl a = (e.beq_iff a a).1 refl

  pub ne_iff : (a b : A) → ((a == b) ≡ false) ↔ (¬ (a ≡ b))
  ne_iff a b = (
    λ h p. elim (Bool-cases (a == b)) [ inl t ↦ cc | inr f ↦ cc ((e.beq_iff a b).1 p) ],
    λ h. elim (Bool-cases (a == b)) [ inl t ↦ absurd (h ((e.beq_iff a b).0 t)) | inr f ↦ f ],
  )

abbrev nat_beq : ℕ → ℕ → Bool
nat_beq a b = elim (compare a b) [ Ordering.eq ↦ true | _ ↦ false ]

pub nat_beq_iff : (a b : ℕ) → (nat_beq a b ≡ true) ↔ (a ≡ b)
nat_beq_iff a b = ground arith

instance abbrev pub nat_eq : Eq ℕ
nat_eq = record { beq = nat_beq; beq_iff = nat_beq_iff }

module _ {ℓ} {A : Type ℓ} ⦃e : Eq A⦄ where
  unfoldable pub list_beq : List A → List A → Bool
  list_beq [] [] = true
  list_beq (x ∷ xs) (y ∷ ys) = x == y && list_beq xs ys
  list_beq _ _ = false

  pub list_beq_iff : (xs ys : List A) → (list_beq xs ys ≡ true) ↔ (xs ≡ ys)
  unfolding list_beq
  list_beq_iff [] [] = (λ _. refl, λ _. refl)
  list_beq_iff [] (y ∷ ys) = (λ h. cc, λ h. cc)
  list_beq_iff (x ∷ xs) [] = (λ h. cc, λ h. cc)
  list_beq_iff (x ∷ xs) (y ∷ ys) = ground (arith, e.beq_iff x y, list_beq_iff xs ys)

  instance abbrev pub list_eq : Eq (List A)
  list_eq = record { beq = list_beq; beq_iff = list_beq_iff }

  abbrev option_beq : Option A → Option A → Bool
  option_beq none none = true
  option_beq (some a) (some b) = a == b
  option_beq _ _ = false

  pub option_beq_iff : (a b : Option A) → (option_beq a b ≡ true) ↔ (a ≡ b)
  option_beq_iff none none = (λ _. refl, λ _. refl)
  option_beq_iff none (some b) = (λ h. cc, λ h. cc)
  option_beq_iff (some a) none = (λ h. cc, λ h. cc)
  option_beq_iff (some a) (some b) = ground (arith, e.beq_iff a b)

  instance abbrev pub option_eq : Eq (Option A)
  option_eq = record { beq = option_beq; beq_iff = option_beq_iff }

pub rank_iff {ℓ} :
    {A : Type ℓ} (rank : A → ℕ) (inj : (a b : A) → rank a ≡ rank b → a ≡ b) (a b : A)
    → (nat_beq (rank a) (rank b) ≡ true) ↔ (a ≡ b)
rank_iff rank inj a b = (
  λ h. inj a b ((nat_beq_iff (rank a) (rank b)).0 h),
  λ p. (nat_beq_iff (rank a) (rank b)).1 (ap rank p),
)

-- The equality of an enum, by the position of its variants.
abbrev pub by_rank {ℓ} : {A : Type ℓ} (rank : A → ℕ) → ((a b : A) → rank a ≡ rank b → a ≡ b) → Eq A
by_rank rank inj = record { beq = λ a b. nat_beq (rank a) (rank b); beq_iff = rank_iff rank inj }

module _ {ℓ κ} {A : Type ℓ} {B : Type κ} ⦃e : Eq A⦄ ⦃f : Eq B⦄ where
  abbrev pair_beq : A × B → A × B → Bool
  pair_beq (a, b) (c, d) = a == c && b == d

  pub pair_beq_iff : (p q : A × B) → (pair_beq p q ≡ true) ↔ (p ≡ q)
  pair_beq_iff (a, b) (c, d) = ground (arith, e.beq_iff a c, f.beq_iff b d)

  instance abbrev pub pair_eq : Eq (A × B)
  pair_eq = record { beq = pair_beq; beq_iff = pair_beq_iff }

-- `contains` of a slice or of a set held as a list, and the proposition that it decides.
module _ {ℓ} {A : Type ℓ} ⦃e : Eq A⦄ where
  abbrev pub contains : List A → A → Bool
  contains [] a = false
  contains (x ∷ xs) a = x == a || contains xs a

module _ {A : Type 0} where
  abbrev pub Occurs : A → List A → Type 0
  Occurs a [] = ⊥
  Occurs a (x ∷ xs) = (x ≡ a) ⊎ Occurs a xs

module _ {A : Type 0} ⦃e : Eq A⦄ where
  pub contains_iff : (xs : List A) (a : A) → (contains xs a ≡ true) ↔ Occurs a xs
  contains_iff [] a = (λ h. cc, λ h. absurd h)
  contains_iff (x ∷ xs) a = ground (arith, e.beq_iff x a, contains_iff xs a)

  -- Membership, refuted.
  pub not_contains : (xs : List A) (a : A) → (contains xs a ≡ false) ↔ (¬ Occurs a xs)
  not_contains xs a = (
    λ h o. cc (h, (contains_iff xs a).1 o),
    λ n. elim (Bool-cases (contains xs a)) [
      | inl t ↦ absurd (n ((contains_iff xs a).0 t))
      | inr f ↦ f
    ],
  )

-- No element twice.
module _ {A : Type 0} where
  abbrev pub Distinct : List A → Type 0
  Distinct [] = Unit
  Distinct (x ∷ xs) = (¬ Occurs x xs) × Distinct xs

  -- No element of the second list stands in the first, and none twice in the second.
  abbrev pub Fresh : List A → List A → Type 0
  Fresh seen [] = Unit
  Fresh seen (x ∷ xs) = (¬ Occurs x seen) × Fresh (x ∷ seen) xs

  abbrev pub Apart : List A → List A → Type 0
  Apart seen [] = Unit
  Apart seen (x ∷ xs) = (¬ Occurs x seen) × Apart seen xs

  Apart-cons : (x : A) (seen xs : List A) → Apart (x ∷ seen) xs ↔ ((¬ Occurs x xs) × Apart seen xs)
  Apart-cons x seen [] = (λ h. (λ o. o, tt), λ h. tt)
  Apart-cons x seen (y ∷ ys) = (
    λ h.
        let (absent, rest) = (Apart-cons x seen ys).0 h.1 in
        (λ o. elim o [ inl e ↦ h.0 (inl (sym e)) | inr p ↦ absent p ], (λ o. h.0 (inr o), rest)),
    λ h. (
      λ o. elim o [ inl e ↦ h.0 (inl (sym e)) | inr p ↦ h.1.0 p ],
      (Apart-cons x seen ys).1 (λ o. h.0 (inr o), h.1.1),
    ),
  )

  Fresh-Apart : (seen xs : List A) → Fresh seen xs ↔ (Distinct xs × Apart seen xs)
  Fresh-Apart seen [] = (λ _. (tt, tt), λ _. tt)
  Fresh-Apart seen (x ∷ xs) = (
    λ h.
        let (d, a) = (Fresh-Apart (x ∷ seen) xs).0 h.1 in
        let (absent, rest) = (Apart-cons x seen xs).0 a in ((absent, d), (h.0, rest)),
    λ h. (h.1.0, (Fresh-Apart (x ∷ seen) xs).1 (h.0.1, (Apart-cons x seen xs).1 (h.0.0, h.1.1))),
  )

  Apart-nil : (xs : List A) → Apart [] xs
  Apart-nil [] = tt
  Apart-nil (x ∷ xs) = (λ o. o, Apart-nil xs)

  pub Fresh-nil_iff : (xs : List A) → Fresh [] xs ↔ Distinct xs
  Fresh-nil_iff xs =
      (λ h. ((Fresh-Apart [] xs).0 h).0, λ d. (Fresh-Apart [] xs).1 (d, Apart-nil xs))
