-- ===== src/Document.antt =====
-- crates/anp-identity/src/document.rs: digests, fingerprints and keys of a DID document. The
-- builders of new documents are not modelled.
use anp_identity.Anp.{Anp, PublicKeyMaterial, ed25519, other_curve, x25519}
use anp_identity.Errors.{
  DidResult, conflict, err, invalid_identity, invalid_public_key, ok, ok_or, refuse_if,
  serialization, ◌>>=◌, ◌>>◌,
}
use anp_identity.Input.{
  DidProfile, KeyRole, device_signing, e2ee_agreement, e2ee_signing, for_did, profile_eq,
  request_signing, role_eq, root_control, supports_root_control,
}
use anp_identity.Json.{Value, get, get_field, get_str, object, str_of, value_eq}
use anp_identity.Prelude.{
  Bool, List, Option, false, if◌then◌else◌, length, list_eq, ltb, nat_eq, none, not, option_eq,
  pair_eq, some, ℕ, ◌++◌, ◌+◌, ◌==◌, ◌^◌, ◌∷◌,
}
use anp_identity.Text.{Text, lit}

-- `checked_add(1)` on a `u64`, with the refusal that every caller of it makes.
unfoldable pub checked_inc : ℕ → DidResult ℕ
checked_inc n = if ltb (n + 1) (2 ^ 64) then ok (n + 1) else err conflict

-- `document.get(a).and_then(Value::as_object).and_then(|x| x.get(b)).and_then(Value::as_str)`.
abbrev pub inner_str : Option Value → Text → Option Text
inner_str (some (object m)) k = str_of (get_field k m)
inner_str _ k = none

module _ ⦃anp : Anp⦄ where
  unfoldable pub public_key_multibase : PublicKeyMaterial → DidResult Text
  public_key_multibase (ed25519 k) = ok (b'z' ∷ anp.base58 (0xed ∷ 0x01 ∷ k))
  public_key_multibase (x25519 k) = ok (b'z' ∷ anp.base58 (0xec ∷ 0x01 ∷ k))
  public_key_multibase (other_curve k) = err invalid_public_key

  unfoldable pub document_digest : Value → DidResult Text
  document_digest document = do
    canonical ← ok_or serialization (anp.canonical_json document)
    ok (lit "sha256:" ++ anp.sha256_base64 canonical)

  abbrev pub fingerprint_of : PublicKeyMaterial → DidResult Text
  fingerprint_of (ed25519 k) =
      ok (
        lit "sha256:" ++ anp.sha256_base64 (lit "anp-identity:root-public-fingerprint:v1" ++ 0 ∷ k))
  fingerprint_of _ = err invalid_public_key

  unfoldable pub root_key_fingerprint : Value → DidResult Text
  root_key_fingerprint document = do
    root_kid ←
        ok_or invalid_identity (inner_str (get document (lit "proof")) (lit "verificationMethod"))
    method ← ok_or invalid_identity (anp.find_verification_method document root_kid)
    public ← ok_or invalid_public_key (anp.extract_public_key method)
    fingerprint_of public

  unfoldable pub validate_method_document : Value → DidResult DidProfile
  validate_method_document document = do
    did ← ok_or invalid_identity (get_str document (lit "id"))
    profile ← for_did did
    refuse_if (not (anp.validate_did_document_method document)) invalid_identity
    if supports_root_control profile
        then (root_key_fingerprint document >>= λ _. ok profile)
        else ok profile

  unfoldable pub method_root_fingerprint : Value → DidResult (Option Text)
  method_root_fingerprint document = do
    profile ← validate_method_document document
    if supports_root_control profile
        then (root_key_fingerprint document >>= λ f. ok (some f))
        else ok none

  unfoldable pub public_key_from_raw : KeyRole → List ℕ → PublicKeyMaterial
  public_key_from_raw e2ee_agreement secret = x25519 (anp.x25519_public secret)
  public_key_from_raw root_control secret = ed25519 (anp.ed25519_public secret)
  public_key_from_raw device_signing secret = ed25519 (anp.ed25519_public secret)
  public_key_from_raw request_signing secret = ed25519 (anp.ed25519_public secret)
  public_key_from_raw e2ee_signing secret = ed25519 (anp.ed25519_public secret)

  unfoldable pub public_key_from_secret : KeyRole → List ℕ → DidResult PublicKeyMaterial
  unfolding public_key_from_raw
  public_key_from_secret role secret =
      if length secret == 32 then ok (public_key_from_raw role secret) else err invalid_identity

unfoldable pub public_keys_equal : PublicKeyMaterial → PublicKeyMaterial → Bool
public_keys_equal (ed25519 k) (ed25519 l) = k == l
public_keys_equal (x25519 k) (x25519 l) = k == l
public_keys_equal _ _ = false
