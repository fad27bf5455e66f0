-- ===== src/Errors.antt =====
-- crates/anp-identity/src/error.rs, and `Result` with the `?` operator as the bind of `do` blocks.
use anp_identity.Prelude.{Bool, Option, ap, false, inl, inr, none, refl, some, true, ◌≡◌, ◌⊎◌}

pub data DidError : Type 0 where
  invalid_domain empty_path invalid_path_segment invalid_kid_fragment : DidError
  invalid_managed_root_count external_root_control missing_managed_request_signing : DidError
  foreign_kid duplicate_kid invalid_public_key invalid_service invalid_extension : DidError
  store_not_found provider_unavailable root_key_mismatch corrupt_record secret_not_found : DidError
  identity_not_found duplicate_identity key_not_found external_key_operation : DidError
  key_role_violation key_not_usable key_material_erased invalid_root_transfer : DidError
  root_transfer_expired root_capability_unavailable pending_root_transfer_exists : DidError
  invalid_peer_key verification_failed pending_revision_exists pending_revision_not_found : DidError
  invalid_publication_state invalid_identity conflict : DidError
  -- The messages of these two are left out: no caller reads them.
  io serialization : DidError
  crypto unsupported_operation : DidError

pub data Result {ℓ} (E : Type 0) (A : Type ℓ) : Type ℓ where
  ok : A → Result E A
  err : E → Result E A

infixl 5 ◌>>=◌ ◌>>◌
abbrev pub ◌>>=◌ {ℓ κ} :
    {E : Type 0} {A : Type ℓ} {B : Type κ} → Result E A → (A → Result E B) → Result E B
ok a >>= f = f a
err e >>= f = err e

abbrev pub ◌>>◌ {ℓ} : {E : Type 0} {B : Type ℓ} → Result E (Unit {0}) → Result E B → Result E B
m >> k = m >>= λ _. k

-- `if refused { return Err(e) }`.
abbrev pub refuse_if : {E : Type 0} → Bool → E → Result E (Unit {0})
refuse_if true e = err e
refuse_if false e = ok tt

-- `Option::ok_or` and `Result::map_err`.
abbrev pub ok_or {ℓ} : {E : Type 0} {A : Type ℓ} → E → Option A → Result E A
ok_or e none = err e
ok_or e (some a) = ok a

abbrev pub map_err {ℓ} : {E F : Type 0} {A : Type ℓ} → (E → F) → Result E A → Result F A
map_err f (ok a) = ok a
map_err f (err e) = err (f e)

abbrev pub is_ok {ℓ} : {E : Type 0} {A : Type ℓ} → Result E A → Bool
is_ok (ok a) = true
is_ok (err e) = false

abbrev pub value_or {ℓ} : {E : Type 0} {A : Type ℓ} → A → Result E A → A
value_or a (ok b) = b
value_or a (err e) = a

pub ok-injective {ℓ} : {E : Type 0} {A : Type ℓ} {a b : A} → Path (Result E A) (ok a) (ok b) → a ≡ b
ok-injective {a = a} h = ap (value_or a) h

abbrev pub DidResult {ℓ} : Type ℓ → Type ℓ
DidResult A = Result DidError A

-- The bind and `Result::map` under names, for a file whose `do` blocks are of another monad.
abbrev pub chain {ℓ κ} :
    {E : Type 0} {A : Type ℓ} {B : Type κ} → Result E A → (A → Result E B) → Result E B
chain (ok a) f = f a
chain (err e) f = err e

abbrev pub map_ok {ℓ κ} : {E : Type 0} {A : Type ℓ} {B : Type κ} → (A → B) → Result E A → Result E B
map_ok f (ok a) = ok (f a)
map_ok f (err e) = err e

pub is_ok-cases {ℓ} :
    {E : Type 0} {A : Type ℓ} (m : Result E A) → ((e : E) × (m ≡ err e)) ⊎ ((a : A) × (m ≡ ok a))
is_ok-cases (ok a) = inr (a, refl)
is_ok-cases (err e) = inl (e, refl)

pub result-eq-ok {ℓ κ} :
    {E : Type 0} {A : Type ℓ} {B : Type κ} (m : Result E A) (f : A → Result E B) (b : B)
    → (m >>= f) ≡ ok b
    → (a : A) × (m ≡ ok a) × (f a ≡ ok b)
result-eq-ok (ok a) f b h = (a, refl, h)
result-eq-ok (err e) f b h = cc

pub refuse_if-eq-ok :
    {E : Type 0} (b : Bool) (e : E) → Path (Result E (Unit {0})) (refuse_if b e) (ok tt) → b ≡ false
refuse_if-eq-ok true e h = cc
refuse_if-eq-ok false e h = refl

pub ok_or-eq-ok {ℓ} :
    {E : Type 0} {A : Type ℓ} (e : E) (o : Option A) (a : A) → ok_or e o ≡ ok a → o ≡ some a
ok_or-eq-ok e none a h = cc
ok_or-eq-ok e (some b) a h = ap some (ok-injective h)
