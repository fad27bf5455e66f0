-- ===== src/KeyOps.antt =====
-- crates/anp-identity/src/crypto_ops.rs: which key may be used for what. No call here changes a
-- file, so each is a function of the disk. `held` is the record that the `DidIdentity` holds, and
-- `root_key` the store's, which opens the secrets. Signing and key agreement come from outside.
pub mod Proofs
pub mod Access
pub mod Uses
pub mod Provisional
pub mod PendingUses
pub mod Calls
pub mod Verify
use anp_identity.Anp.{Anp, PublicKeyMaterial}
use anp_identity.Disk.{Disk}
use anp_identity.Disk.Files.{open_secret, read_identity}
use anp_identity.Errors.{
  DidError, DidResult, conflict, err, external_key_operation, invalid_identity, invalid_peer_key,
  invalid_public_key, key_not_found, key_not_usable, key_role_violation, ok, ok_or, refuse_if,
  verification_failed, ◌>>=◌, ◌>>◌,
}
use anp_identity.Input.{
  KeyRole, device_signing, e2ee_agreement, e2ee_signing, profile_eq, request_signing, role_eq,
}
use anp_identity.Input.Kid.{canonicalize_kid}
use anp_identity.Json.{value_eq}
use anp_identity.Keystore.{SecretRef, secret_ref_eq}
use anp_identity.Prelude.{
  Bool, List, all, find, if◌then◌else◌, is_some_and, length, list_eq, nat_eq, not, option_eq,
  pair_eq, ℕ, ◌&&◌, ◌==◌, ◌||◌,
}
use anp_identity.Registry.{
  IdentityRecord, IdentityState, KeyMetadata, KeyState, capability_eq, external, key_state_eq,
  managed, origin_eq, publication_eq, state_eq, summary_eq,
}
use anp_identity.Text.{Text}

-- `ed25519_dalek` and `x25519_dalek`, for a private key of 32 bytes.
pub record Curves : Type 0 where
  pub ed25519_sign : List ℕ → List ℕ → List ℕ
  pub diffie_hellman : List ℕ → List ℕ → List ℕ
  -- `PublicKeyMaterial::verify_message(message, signature).is_ok()`.
  pub verify_message : PublicKeyMaterial → List ℕ → List ℕ → Bool

unfoldable pub require_active : KeyMetadata → DidResult (Unit {0})
require_active k = refuse_if (not (k.state == KeyState.active)) key_not_usable

-- `DidIdentity::key_metadata` and `managed_key_metadata`.
unfoldable pub key_metadata : Text → IdentityRecord → DidResult KeyMetadata
key_metadata kid held = do
  k ← canonicalize_kid held.did kid
  ok_or key_not_found (find (λ m. m.kid == k) held.keys)

unfoldable pub managed_key_metadata : Text → IdentityRecord → DidResult KeyMetadata
managed_key_metadata kid held = do
  m ← key_metadata kid held
  refuse_if (m.origin == external) external_key_operation
  ok m

-- `sign` takes three roles, a request signature two, an object proof one.
abbrev pub is_signing_role : KeyRole → Bool
is_signing_role role = role == device_signing || (role == request_signing || role == e2ee_signing)

abbrev pub is_request_role : KeyRole → Bool
is_request_role role = role == device_signing || role == request_signing

module _ ⦃anp : Anp⦄ where
  unfoldable pub current_of : IdentityRecord → Disk → DidResult IdentityRecord
  current_of held d = do
    current ← (read_identity held.identity_id d).0
    refuse_if (not (current.generation == held.generation)) conflict
    ok current

  unfoldable pub require_operational : IdentityRecord → Disk → DidResult (Unit {0})
  require_operational held d = do
    current ← current_of held d
    refuse_if (not (current.state == IdentityState.active)) key_not_usable

  unfoldable pub current_pending_enrollment :
      Text → IdentityRecord → Disk → DidResult IdentityRecord
  current_pending_enrollment enrollment_id held d = do
    current ← current_of held d
    refuse_if
        (not (current.state == IdentityState.enrolling)
          || not (is_some_and (λ p. p.enrollment_id == enrollment_id) current.pending_enrollment))
        key_not_usable
    ok current

  unfoldable pub request_signing_metadata : Text → IdentityRecord → Disk → DidResult KeyMetadata
  request_signing_metadata kid held d = do
    require_operational held d
    m ← managed_key_metadata kid held
    require_active m
    refuse_if (not (is_request_role m.role)) key_role_violation
    ok m

  unfoldable pub device_signing_metadata : Text → IdentityRecord → Disk → DidResult KeyMetadata
  device_signing_metadata kid held d = do
    require_operational held d
    m ← managed_key_metadata kid held
    require_active m
    refuse_if (not (m.role == device_signing)) key_role_violation
    ok m

  -- `DidIdentity::load_managed_secret`.
  abbrev pub secret_ref_of : IdentityRecord → KeyMetadata → SecretRef
  secret_ref_of held m = record {
    identity_id = held.identity_id;
    key_id = m.kid;
    role = m.role;
    version = m.version;
  }

  unfoldable pub load_managed_secret :
      List ℕ → IdentityRecord → KeyMetadata → Disk → DidResult (List ℕ)
  load_managed_secret root_key held m d = (open_secret root_key (secret_ref_of held m) d).0

  module _ ⦃curves : Curves⦄ where
    -- `ed25519_signing_key` and `x25519_private_key` take 32 bytes.
    unfoldable pub private_key : List ℕ → DidResult (List ℕ)
    private_key secret = if length secret == 32 then ok secret else err invalid_identity

    unfoldable pub sign_prepared :
        List ℕ → IdentityRecord → KeyMetadata → List ℕ → Disk → DidResult (List ℕ)
    sign_prepared root_key held m message d = do
      secret ← load_managed_secret root_key held m d
      key ← private_key secret
      ok (curves.ed25519_sign key message)

    -- The end of the two key agreements: a shared secret of zeros is refused.
    unfoldable pub agree :
        List ℕ → IdentityRecord → KeyMetadata → List ℕ → Disk → DidResult (List ℕ)
    agree root_key held m peer d = do
      refuse_if (not (length peer == 32)) invalid_peer_key
      secret ← load_managed_secret root_key held m d
      key ← private_key secret
      let shared = curves.diffie_hellman key peer
      refuse_if (all (λ byte. byte == 0) shared) invalid_peer_key
      ok shared

    unfoldable pub sign_by : List ℕ → Text → List ℕ → IdentityRecord → Disk → DidResult (List ℕ)
    sign_by root_key kid message held d = do
      require_operational held d
      m ← managed_key_metadata kid held
      require_active m
      refuse_if (not (is_signing_role m.role)) key_role_violation
      sign_prepared root_key held m message d

    unfoldable pub ecdh : List ℕ → Text → List ℕ → IdentityRecord → Disk → DidResult (List ℕ)
    ecdh root_key kid peer held d = do
      require_operational held d
      m ← managed_key_metadata kid held
      require_active m
      refuse_if (not (m.role == e2ee_agreement)) key_role_violation
      agree root_key held m peer d

    -- The public key of a kid in the document.
    unfoldable pub public_key_of : IdentityRecord → KeyMetadata → DidResult PublicKeyMaterial
    public_key_of held m = do
      method ← ok_or invalid_identity (anp.find_verification_method held.document m.kid)
      ok_or invalid_public_key (anp.extract_public_key method)

    unfoldable pub verify_by : Text → List ℕ → List ℕ → IdentityRecord → DidResult (Unit {0})
    verify_by kid message signature held = do
      m ← key_metadata kid held
      refuse_if (m.state == KeyState.revoked) key_not_usable
      refuse_if (m.role == e2ee_agreement) key_role_violation
      public ← public_key_of held m
      refuse_if (not (curves.verify_message public message signature)) verification_failed

    -- A key that is pending: of a device that enrolls, or of a root that is being transferred.
    abbrev pub is_pending_managed : KeyRole → KeyMetadata → Bool
    is_pending_managed role m =
        m.role == role
        && (m.origin == managed && (m.state == KeyState.pending && not m.material_erased))

    unfoldable pub pending_metadata :
        KeyRole → DidError → Text → IdentityRecord → DidResult KeyMetadata
    pending_metadata role refusal kid current = do
      m ← ok_or key_not_found (find (λ m. m.kid == kid) current.keys)
      refuse_if (not (is_pending_managed role m)) refusal
      ok m

    unfoldable pub sign_pending_enrollment :
        List ℕ → Text → Text → List ℕ → IdentityRecord → Disk → DidResult (List ℕ)
    sign_pending_enrollment root_key enrollment_id kid message held d = do
      current ← current_pending_enrollment enrollment_id held d
      local ← ok_or invalid_identity current.local_authorization
      k ← canonicalize_kid current.did kid
      refuse_if (not (k == local.signing_kid)) key_role_violation
      m ← pending_metadata device_signing key_not_usable k current
      sign_prepared root_key held m message d

    unfoldable pub ecdh_pending_enrollment :
        List ℕ → Text → Text → List ℕ → IdentityRecord → Disk → DidResult (List ℕ)
    ecdh_pending_enrollment root_key enrollment_id kid peer held d = do
      current ← current_pending_enrollment enrollment_id held d
      local ← ok_or invalid_identity current.local_authorization
      k ← canonicalize_kid current.did kid
      refuse_if (not (k == local.e2ee_kid)) key_role_violation
      m ← pending_metadata e2ee_agreement key_not_usable k current
      agree root_key held m peer d
