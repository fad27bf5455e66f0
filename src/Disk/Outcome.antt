-- ===== src/Disk/Outcome.antt =====
-- How a call on the disk that returned came to its result.
use anp_identity.Disk.{Action, Disk, lift, resume, spend, write, ◌>>=◌}
use anp_identity.Errors.{DidError, DidResult, err, io, ok}
use anp_identity.Prelude.{ap, inl, inr, refl, suc, zero, ℕ, ◌≡◌, ◌⊎◌}

resume-eq-ok {ℓ κ} :
    {A : Type ℓ} {B : Type κ} (f : A → Action B) (x : DidResult A × Disk) (b : B) (d' : Disk)
    → resume f x ≡ (ok b, d')
    → (a : A) × (d : Disk) × (x ≡ (ok a, d)) × (f a d ≡ (ok b, d'))
resume-eq-ok f (ok a, d) b d' h = (a, d, refl, h)
resume-eq-ok f (err e, d) b d' h = cc

pub bind-eq-ok {ℓ κ} :
    {A : Type ℓ} {B : Type κ} (m : Action A) (f : A → Action B) (d : Disk) (b : B) (d' : Disk)
    → (m >>= f) d ≡ (ok b, d')
    → (a : A) × (c : Disk) × (m d ≡ (ok a, c)) × (f a c ≡ (ok b, d'))
unfolding ◌>>=◌
bind-eq-ok m f d b d' h = resume-eq-ok f (m d) b d' h

pub bind-of-ok {ℓ κ} :
    {A : Type ℓ} {B : Type κ} (m : Action A) (f : A → Action B) (d : Disk) (a : A) (c : Disk)
    → m d ≡ (ok a, c)
    → (m >>= f) d ≡ f a c
unfolding ◌>>=◌
bind-of-ok m f d a c h = ap (resume f) h

pub bind-of-err {ℓ κ} :
    {A : Type ℓ} {B : Type κ} (m : Action A) (f : A → Action B) (d : Disk) (e : DidError) (c : Disk)
    → m d ≡ (err e, c)
    → (m >>= f) d ≡ (err e, c)
unfolding ◌>>=◌
bind-of-err m f d e c h = ap (resume f) h

-- The two outcomes of a write.
pub write-cases :
    (change : Disk → Disk) (d : Disk)
    → (write change d ≡ (err io, d))
      ⊎ ((n : ℕ) × (d.writes_left ≡ suc n)
          × (write change d ≡ (ok tt, change (record d { writes_left = n }))))
unfolding write
write-cases change d = split d.writes_left refl
  where
    split :
        (n : ℕ)
        → d.writes_left ≡ n
        → (spend change d n ≡ (err io, d))
          ⊎ ((m : ℕ) × (n ≡ suc m)
              × (spend change d n ≡ (ok tt, change (record d { writes_left = m }))))
    split zero e = inl refl
    split (suc n) e = inr (n, refl, refl)

pub write-eq-ok :
    (change : Disk → Disk) (d d' : Disk)
    → write change d ≡ (ok tt, d')
    → (n : ℕ) × (d' ≡ change (record d { writes_left = n }))
write-eq-ok change d d' h = elim (write-cases change d) [
  | inl e ↦ absurd (cc (h, e))
  | inr (n, e, eq) ↦ (n, cc (h, eq))
]

-- The result of a call, whatever the disk.
pub lift-eq-ok {ℓ} :
    {A : Type ℓ} (r : DidResult A) (d d' : Disk) (a : A)
    → lift r d ≡ (ok a, d')
    → (r ≡ ok a) × (d ≡ d')
lift-eq-ok r d d' a h = (ap (λ x. x.0) h, ap (λ x. x.1) h)
