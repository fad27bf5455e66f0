-- ===== src/KeyOps/Access.antt =====
-- crates/anp-identity/src/crypto_ops.rs: the calls that use a managed key, and what a call that
-- succeeds has found.
use anp_identity.Anp.{Anp}
use anp_identity.Disk.{Disk}
use anp_identity.Disk.Files.{read_identity}
use anp_identity.Disk.Transitions.{transition_state_eq}
use anp_identity.Errors.{DidResult, is_ok-cases, key_role_violation, ok, refuse_if, ◌>>=◌, ◌>>◌}
use anp_identity.Input.{KeyRole, device_signing, e2ee_agreement, profile_eq, role_eq, root_control}
use anp_identity.Json.{value_eq}
use anp_identity.KeyOps.{
  current_of, is_request_role, is_signing_role, key_metadata, managed_key_metadata, require_active,
  require_operational,
}
use anp_identity.Keystore.{secret_ref_eq}
use anp_identity.Prelude.{
  Bool, Bool-cases, arith, eq_iff, inl, inr, list_eq, nat_eq, not, option_eq, pair_eq, true, ◌==◌,
  ◌≡◌,
}
use anp_identity.Registry.{
  IdentityRecord, IdentityState, KeyMetadata, KeyState, capability_eq, key_state_eq, managed,
  origin_eq, publication_eq, state_eq, summary_eq,
}
use anp_identity.Text.{Text}

-- What a key is used for.
pub data Purpose : Type 0 where
  message_signature key_agreement object_proof document_proof request_signature : Purpose
  possession_proof : Purpose

abbrev pub serves : Purpose → KeyRole → Bool
serves message_signature role = is_signing_role role
serves key_agreement role = role == e2ee_agreement
serves object_proof role = role == device_signing
serves document_proof role = role == root_control
serves request_signature role = is_request_role role
serves possession_proof role = role == root_control

module _ ⦃anp : Anp⦄ where
  -- The store holds the record of an active identity that the caller holds, and the key is a managed
  -- and active one of a role that serves the purpose.
  pub record IsAuthorized (purpose : Purpose) (kid : Text) (held : IdentityRecord) (d : Disk)
      : Type 0 where
    pub current : IdentityRecord
    pub key : KeyMetadata
    pub is_read : (read_identity held.identity_id d).0 ≡ ok current
    pub is_held : current.generation ≡ held.generation
    pub is_active : current.state ≡ IdentityState.active
    pub is_key : key_metadata kid held ≡ ok key
    pub is_managed : key.origin ≡ managed
    pub is_usable : key.state ≡ KeyState.active
    pub is_serving : serves purpose key.role ≡ true

  require_operational-eq-ok :
      (held : IdentityRecord) (d : Disk)
      → require_operational held d ≡ ok tt
      → (current : IdentityRecord) × ((read_identity held.identity_id d).0 ≡ ok current)
        × (current.generation ≡ held.generation)
        × (current.state ≡ IdentityState.active)
  unfolding require_operational current_of
  require_operational-eq-ok held d h = elim (is_ok-cases (read_identity held.identity_id d).0) [
    | inl (e, q) ↦ absurd (cc (rw q at h))
    | inr (r, q) ↦ (
      r,
      q,
      ground (arith, q, h, eq_iff r.generation held.generation),
      ground (arith, q, h, eq_iff r.state IdentityState.active),
    )
  ]

  managed_key_metadata-eq-ok :
      (kid : Text) (held : IdentityRecord) (m : KeyMetadata)
      → managed_key_metadata kid held ≡ ok m
      → (key_metadata kid held ≡ ok m) × (m.origin ≡ managed)
  unfolding managed_key_metadata
  managed_key_metadata-eq-ok kid held m h = elim (is_ok-cases (key_metadata kid held)) [
    | inl (e, q) ↦ absurd (cc (rw q at h))
    | inr (r, q) ↦ ground (arith, q, h)
  ]

  -- The checks that the calls begin with, before they use the key.
  abbrev pub guarded {ℓ} :
      {A : Type ℓ} → Purpose → Text → (KeyMetadata → DidResult A) → IdentityRecord → DidResult A
  guarded purpose kid spend_key held = do
    m ← managed_key_metadata kid held
    require_active m
    refuse_if (not (serves purpose m.role)) key_role_violation
    spend_key m

  guarded-eq-ok {ℓ} :
      {A : Type ℓ} (purpose : Purpose) (kid : Text) (spend_key : KeyMetadata → DidResult A)
      (held : IdentityRecord) (a : A)
      → guarded purpose kid spend_key held ≡ ok a
      → (m : KeyMetadata) × (key_metadata kid held ≡ ok m)
        × (m.origin ≡ managed)
        × (m.state ≡ KeyState.active)
        × (serves purpose m.role ≡ true)
        × (spend_key m ≡ ok a)
  unfolding require_active
  guarded-eq-ok purpose kid spend_key held a h =
      elim (is_ok-cases (managed_key_metadata kid held)) [
        | inl (e, q) ↦ absurd (cc (rw q at h))
        | inr (m, q) ↦
            let (found, is_managed) = managed_key_metadata-eq-ok kid held m q in
            elim (Bool-cases (m.state == KeyState.active)) [
              | inr f ↦ absurd (cc (rw (q, f) at h))
              | inl t ↦ elim (Bool-cases (serves purpose m.role)) [
                | inr g ↦ absurd (cc (rw (q, t, g) at h))
                | inl u ↦ (
                  m,
                  found,
                  is_managed,
                  (eq_iff m.state KeyState.active).0 t,
                  u,
                  rw (q, t, u) at h,
                )
              ]
            ]
      ]

  pub operational-guarded {ℓ} :
      {A : Type ℓ} (purpose : Purpose) (kid : Text) (spend_key : KeyMetadata → DidResult A)
      (held : IdentityRecord) (d : Disk) (a : A)
      → (require_operational held d >>= λ _. guarded purpose kid spend_key held) ≡ ok a
      → (authorized : IsAuthorized purpose kid held d) × (spend_key authorized.key ≡ ok a)
  operational-guarded purpose kid spend_key held d a h =
      elim (is_ok-cases (require_operational held d)) [
        | inl (e, q) ↦ absurd (cc (rw q at h))
        | inr (tt, q) ↦
            let (r, is_read, is_held, is_active) = require_operational-eq-ok held d q in
            let (m, is_key, is_managed, usable, serving, used) =
              guarded-eq-ok purpose kid spend_key held a (rw q at h) in
            (
              record {
                current = r;
                key = m;
                is_read = is_read;
                is_held = is_held;
                is_active = is_active;
                is_key = is_key;
                is_managed = is_managed;
                is_usable = usable;
                is_serving = serving;
              },
              used,
            )
      ]
