-- ===== src/Anp.antt =====
-- What the crate takes from outside the repository: the `anp` crate, SHA-256 with base64, and the
-- standard library's IP parser. The operations are an instance argument of the model.
use anp_identity.Json.{Value}
use anp_identity.Prelude.{Bool, List, Option, ℕ}
use anp_identity.Text.{Text}

-- `anp::PublicKeyMaterial`, with the curves that this crate does not use in one case.
pub data PublicKeyMaterial : Type 0 where
  ed25519 : Text → PublicKeyMaterial
  x25519 : Text → PublicKeyMaterial
  other_curve : Text → PublicKeyMaterial

-- `anp::authentication::DeviceManifestEntry` and `DeviceManifest`.
pub record DeviceManifestEntry : Type 0 where
  pub device_id : Text
  pub signing_key_id : Text
  pub e2ee_key_id : Text
  pub profiles : List Text

pub record DeviceManifest : Type 0 where
  pub manifest_type : Text
  pub devices : List DeviceManifestEntry

pub record Anp : Type 0 where
  -- `anp::authentication`; an error of theirs is `none`, as the callers replace it.
  pub extract_public_key : Value → Option PublicKeyMaterial
  pub did_web_resolution_url_is_ok : Text → Bool
  pub find_verification_method : Value → Text → Option Value
  pub is_authentication_authorized : Value → Text → Bool
  pub is_assertion_method_authorized : Value → Text → Bool
  pub validate_device_manifest : Value → Option (Option DeviceManifest)
  -- `IpAddr::from_str(s).is_ok()`.
  pub is_ip_address : Text → Bool
  -- `URL_SAFE_NO_PAD.encode(Sha256::digest(bytes))`.
  pub sha256_base64 : List ℕ → Text
  -- `validate_did_document_method(document, true)`.
  pub validate_did_document_method : Value → Bool
  -- `serde_json_canonicalizer::to_vec`.
  pub canonical_json : Value → Option (List ℕ)
  -- The public key of a 32-byte private key, by `ed25519_dalek` and by `x25519_dalek`.
  pub ed25519_public : List ℕ → Text
  pub x25519_public : List ℕ → Text
  -- `bs58::encode(bytes).into_string()`.
  pub base58 : List ℕ → Text
  -- `Hkdf::<Sha256>::new(Some(salt), key).expand(info)`, and ChaCha20-Poly1305 with key, nonce,
  -- message and associated data.
  pub hkdf_expand : List ℕ → List ℕ → List ℕ → List ℕ
  pub aead_encrypt : List ℕ → List ℕ → List ℕ → List ℕ → List ℕ
  pub aead_decrypt : List ℕ → List ℕ → List ℕ → List ℕ → Option (List ℕ)
  pub base64_encode : List ℕ → Text
  pub base64_decode : Text → Option (List ℕ)
