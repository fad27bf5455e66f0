-- ===== src/KeyOps/Verify.antt =====
-- crates/anp-identity/src/crypto_ops.rs: a signature of `sign` is accepted by `verify`.
use anp_identity.Anp.{Anp, ed25519}
use anp_identity.Disk.{Disk}
use anp_identity.Errors.{ok, ok-injective}
use anp_identity.Input.{profile_eq, role_eq}
use anp_identity.Json.{value_eq}
use anp_identity.KeyOps.{
  Curves, is_signing_role, key_metadata, load_managed_secret, private_key, public_key_of, sign_by,
  sign_prepared, verify_by,
}
use anp_identity.KeyOps.Access.{message_signature, operational-guarded}
use anp_identity.Keystore.{secret_ref_eq}
use anp_identity.Prelude.{
  Bool-cases, List, arith, inl, inr, length, list_eq, nat_eq, option_eq, pair_eq, sym, true, ℕ,
  ◌==◌, ◌∙◌, ◌≡◌,
}
use anp_identity.Registry.{
  IdentityRecord, KeyMetadata, KeyState, capability_eq, key_state_eq, origin_eq, publication_eq,
  state_eq, summary_eq,
}
use anp_identity.Text.{Text}

module _ ⦃anp : Anp⦄ ⦃curves : Curves⦄ where
  -- What Ed25519 promises.
  pub record IsSigner : Type 0 where
    pub verify_sign :
        (key message : List ℕ)
        → curves.verify_message
            (ed25519 (anp.ed25519_public key))
            message
            (curves.ed25519_sign key message)
          ≡ true

  sign_prepared-eq-ok :
      (root_key : List ℕ) (held : IdentityRecord) (m : KeyMetadata) (message : List ℕ) (d : Disk)
      (signature secret : List ℕ)
      → load_managed_secret root_key held m d ≡ ok secret
      → sign_prepared root_key held m message d ≡ ok signature
      → signature ≡ curves.ed25519_sign secret message
  unfolding sign_prepared private_key
  sign_prepared-eq-ok root_key held m message d signature secret q h =
      elim (Bool-cases (length secret == 32)) [
        | inl t ↦ sym (ok-injective (rw (q, t) at h))
        | inr f ↦ absurd (cc (rw (q, f) at h))
      ]

  -- A signature that `sign` has made is accepted by `verify` for the same key and message, if the
  -- document names the public key of the secret that is stored, and Ed25519 keeps its promise.
  pub sign-verify :
      (root_key : List ℕ) (kid : Text) (message : List ℕ) (held : IdentityRecord) (d : Disk)
      (m : KeyMetadata) (signature secret : List ℕ)
      → IsSigner
      → key_metadata kid held ≡ ok m
      → load_managed_secret root_key held m d ≡ ok secret
      → public_key_of held m ≡ ok (ed25519 (anp.ed25519_public secret))
      → sign_by root_key kid message held d ≡ ok signature
      → verify_by kid message signature held ≡ ok tt
  unfolding sign_by verify_by
  sign-verify root_key kid message held d m signature secret laws is_key is_secret is_public h =
      let (authorized, used) =
        operational-guarded message_signature kid (λ k. sign_prepared root_key held k message d)
          held d signature h in
      let is_m : authorized.key ≡ m = ok-injective (sym authorized.is_key ∙ is_key) in
      let is_signature : signature ≡ curves.ed25519_sign secret message =
        sign_prepared-eq-ok root_key held m message d signature secret is_secret
          (rw (is_m) at used) in
      let usable : m.state ≡ KeyState.active = rw (is_m) at authorized.is_usable in
      let serving : is_signing_role m.role ≡ true = rw (is_m) at authorized.is_serving in
      let is_checked = laws.verify_sign secret message in
      rw (is_key, is_public, is_signature, is_checked, usable) (ground (arith, serving))
