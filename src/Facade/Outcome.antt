-- ===== src/Facade/Outcome.antt =====
-- How a call of the facade that returned came to its result.
use anp_identity.Disk.{Action, Disk}
use anp_identity.Errors.{DidResult, err, ok, ok-injective, value_or}
use anp_identity.Facade.{
  IdentityResult, Request, demand, engine, engine_outcome, engine_result, go_on, look, ◌>>=◌,
}
use anp_identity.Prelude.{ap, refl, ◌≡◌}

module _ {ℓ κ} {A : Type ℓ} {B : Type κ} where
  go_on-eq-ok :
      (f : A → Request B) (x : IdentityResult A × Disk) (b : B) (d' : Disk)
      → go_on f x ≡ (ok b, d')
      → (a : A) × (c : Disk) × (x ≡ (ok a, c)) × (f a c ≡ (ok b, d'))
  go_on-eq-ok f (ok a, c) b d' h = (a, c, refl, h)
  go_on-eq-ok f (err e, c) b d' h = cc

  pub request-eq-ok :
      (m : Request A) (f : A → Request B) (d : Disk) (b : B) (d' : Disk)
      → (m >>= f) d ≡ (ok b, d')
      → (a : A) × (c : Disk) × (m d ≡ (ok a, c)) × (f a c ≡ (ok b, d'))
  unfolding ◌>>=◌
  request-eq-ok m f d b d' h = go_on-eq-ok f (m d) b d' h

  pub request-of-ok :
      (m : Request A) (f : A → Request B) (d : Disk) (a : A) (c : Disk)
      → m d ≡ (ok a, c)
      → (m >>= f) d ≡ f a c
  unfolding ◌>>=◌
  request-of-ok m f d a c h = ap (go_on f) h

  -- A step that only reads, or only computes, before the rest.
  pub demand-eq-ok :
      (r : IdentityResult A) (f : A → Request B) (d : Disk) (b : B) (d' : Disk)
      → (demand r >>= f) d ≡ (ok b, d')
      → (a : A) × (r ≡ ok a) × (f a d ≡ (ok b, d'))
  unfolding ◌>>=◌
  demand-eq-ok (ok a) f d b d' h = (a, refl, h)
  demand-eq-ok (err e) f d b d' h = cc

  pub look-eq-ok :
      (g : Disk → IdentityResult A) (f : A → Request B) (d : Disk) (b : B) (d' : Disk)
      → (look g >>= f) d ≡ (ok b, d')
      → (a : A) × (g d ≡ ok a) × (f a d ≡ (ok b, d'))
  unfolding ◌>>=◌
  look-eq-ok g f d b d' h = demand-eq-ok (g d) f d b d' h

engine_outcome-eq-ok {ℓ} :
    {A : Type ℓ} (x : DidResult A × Disk) (a : A) (d' : Disk)
    → engine_outcome x ≡ (ok a, d')
    → x ≡ (ok a, d')
engine_outcome-eq-ok (ok b, c) a d' h = ap (λ x. (ok (value_or b x.0), x.1)) h
engine_outcome-eq-ok (err e, c) a d' h = cc

pub engine-eq-ok {ℓ} :
    {A : Type ℓ} (m : Action A) (d : Disk) (a : A) (d' : Disk)
    → engine m d ≡ (ok a, d')
    → m d ≡ (ok a, d')
engine-eq-ok m d a d' h = engine_outcome-eq-ok (m d) a d' h

pub engine_result-eq-ok {ℓ} :
    {A : Type ℓ} (m : DidResult A) (a : A) → engine_result m ≡ ok a → m ≡ ok a
engine_result-eq-ok (ok b) a h = cc (ok-injective h)
engine_result-eq-ok (err e) a h = cc
