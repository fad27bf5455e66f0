-- ===== src/Disk.antt =====
-- The store's directory, and the file operations of registry.rs and keystore.rs on it. A file holds
-- the value that was written to it: JSON text and damaged files are not modelled. Every operation
-- that changes a file takes one of the writes that are left, and fails when none is left: so a full
-- disk, or a process that is killed, can stop a transaction before any of its writes. A write is
-- atomic, as `write_atomic_private` renames a finished file. The exclusive lock of store_lock.rs
-- makes one call of the store run at a time, so a call is one function here.
pub mod Files
pub mod Transitions
pub mod Outcome
pub mod Secrets
use anp_identity.Errors.{DidError, DidResult, err, io, ok}
use anp_identity.Keystore.{EncryptedRecord}
use anp_identity.Prelude.{List, Option, [], suc, zero, ℕ, ◌∷◌}
use anp_identity.Registry.{IdentityRecord}
use anp_identity.Registry.Journals.{
  CreationJournal, IdentityRegistry, IdentityTransitionJournal, UpdateJournal,
}
use anp_identity.Text.{Text}

pub record Disk : Type 0 where
  -- registry.json, and the directories identities, transactions, update-transactions,
  -- identity-transitions and records,
  -- by the names of their files.
  pub registry : Option IdentityRegistry
  pub identities : List (Text × IdentityRecord)
  pub journals : List (Text × CreationJournal)
  pub update_journals : List (Text × UpdateJournal)
  pub transitions : List (Text × IdentityTransitionJournal)
  pub records : List (Text × EncryptedRecord)
  pub writes_left : ℕ

abbrev pub Action {ℓ} : Type ℓ → Type ℓ
Action A = Disk → DidResult A × Disk

abbrev pub pure {ℓ} : {A : Type ℓ} → A → Action A
pure a d = (ok a, d)

abbrev pub fail {ℓ} : {A : Type ℓ} → DidError → Action A
fail e d = (err e, d)

abbrev pub lift {ℓ} : {A : Type ℓ} → DidResult A → Action A
lift r d = (r, d)

-- A read.
abbrev pub query {ℓ} : {A : Type ℓ} → (Disk → DidResult A) → Action A
query f d = (f d, d)

-- The next step of a call whose first part has ended.
abbrev pub resume {ℓ κ} :
    {A : Type ℓ} {B : Type κ} → (A → Action B) → DidResult A × Disk → DidResult B × Disk
resume f (ok a, d) = f a d
resume f (err e, d) = (err e, d)

infixl 5 ◌>>=◌ ◌>>◌
unfoldable pub ◌>>=◌ {ℓ κ} : {A : Type ℓ} {B : Type κ} → Action A → (A → Action B) → Action B
◌>>=◌ m f d = resume f (m d)

abbrev pub ◌>>◌ {ℓ} : {B : Type ℓ} → Action (Unit {0}) → Action B → Action B
m >> n = m >>= λ _. n

-- The change of one file.
abbrev pub spend : (Disk → Disk) → Disk → ℕ → DidResult (Unit {0}) × Disk
spend change d zero = (err io, d)
spend change d (suc n) = (ok tt, change (record d { writes_left = n }))

unfoldable pub write : (Disk → Disk) → Action (Unit {0})
write change d = spend change d d.writes_left

-- `for x in xs { step(x)?; }`.
unfoldable pub for_each {ℓ} : {A : Type ℓ} → (A → Action (Unit {0})) → List A → Action (Unit {0})
for_each step [] = pure tt
for_each step (x ∷ xs) = step x >>= λ _. for_each step xs
