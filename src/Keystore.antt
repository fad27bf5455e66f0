-- ===== src/Keystore.antt =====
-- crates/anp-identity/src/keystore.rs: encrypted records, and the bytes that bind one to its key.
use anp_identity.Anp.{Anp}
use anp_identity.Errors.{
  DidResult, corrupt_record, invalid_kid_fragment, ok_or, refuse_if, ◌>>=◌, ◌>>◌,
}
use anp_identity.Input.{
  KeyRole, device_signing, e2ee_agreement, e2ee_signing, profile_eq, request_signing, role_eq,
  root_control,
}
use anp_identity.Input.Fields.{byte_len}
use anp_identity.Json.{value_eq}
use anp_identity.Prelude.{
  Bool, Eq, List, [], arith, eq_iff, if◌then◌else◌, length, list_eq, ltb, nat_eq, not, option_eq,
  pair_eq, suc, true, zero, ℕ, ◌%◌, ◌&&◌, ◌++◌, ◌+◌, ◌/◌, ◌==◌, ◌||◌, ◌↔◌, ◌∷◌, ◌≡◌,
}
use anp_identity.Text.{Text, bytes, is_blank, lit}

pub record SecretRef : Type 0 where
  pub identity_id : Text
  pub key_id : Text
  pub role : KeyRole
  pub version : ℕ

unfoldable pub secret_ref_beq : SecretRef → SecretRef → Bool
secret_ref_beq a b =
    a.identity_id == b.identity_id
    && (a.key_id == b.key_id && (a.role == b.role && a.version == b.version))

pub secret_ref_beq_iff : (a b : SecretRef) → (secret_ref_beq a b ≡ true) ↔ (a ≡ b)
unfolding secret_ref_beq
secret_ref_beq_iff a b = ground (
  arith,
  eq_iff a.identity_id b.identity_id,
  eq_iff a.key_id b.key_id,
  eq_iff a.role b.role,
  eq_iff a.version b.version,
)

instance abbrev pub secret_ref_eq : Eq SecretRef
secret_ref_eq = record { beq = secret_ref_beq; beq_iff = secret_ref_beq_iff }

pub data SealIfAbsent : Type 0 where
  sealed already_exists : SealIfAbsent

pub record EncryptedRecord : Type 0 where
  pub schema_version : ℕ
  pub secret_ref : SecretRef
  pub cipher : Text
  pub kdf : Text
  pub nonce_b64u : Text
  pub aad_b64u : Text
  pub ciphertext_b64u : Text
  pub created_at : Text

abbrev pub record_schema_version : ℕ
record_schema_version = 1

-- `to_string` of a number; the fuel `suc n` is more than the number of digits.
decimal_from : ℕ → ℕ → Text
decimal_from zero n = []
decimal_from (suc fuel) n =
    let rest = decimal_from fuel (n / 10) in
    if ltb n 10 then (48 + n) ∷ [] else rest ++ (48 + n % 10) ∷ []

unfoldable pub decimal : ℕ → Text
unfolding decimal_from
decimal n = decimal_from (suc n) n

-- `push_field` and `push_hash_field`: name, length and value, with their separators.
unfoldable pub push_field : List ℕ → Text → Text → List ℕ
push_field output name value =
    output ++ bytes name ++ 0 ∷ bytes (decimal (byte_len value)) ++ 0 ∷ bytes value ++ 0xff ∷ []

unfoldable pub key_role_name : KeyRole → Text
key_role_name root_control = lit "root-control"
key_role_name device_signing = lit "device-signing"
key_role_name request_signing = lit "request-signing"
key_role_name e2ee_signing = lit "e2ee-signing"
key_role_name e2ee_agreement = lit "e2ee-agreement"

unfoldable pub aad_for_ref : ℕ → SecretRef → List ℕ
unfolding push_field
aad_for_ref schema_version r =
    let a = push_field [] (lit "domain") (lit "anp-identity:keystore:v1") in
    let b = push_field a (lit "schema") (decimal schema_version) in
    let c = push_field b (lit "identity") r.identity_id in
    let d = push_field c (lit "kid") r.key_id in
    let e = push_field d (lit "role") (key_role_name r.role) in
    push_field e (lit "version") (decimal r.version)

unfoldable pub validate_secret_ref : SecretRef → DidResult (Unit {0})
validate_secret_ref r =
    refuse_if (is_blank r.identity_id || (is_blank r.key_id || r.version == 0)) invalid_kid_fragment

module _ ⦃anp : Anp⦄ where
  unfoldable pub record_storage_key : SecretRef → Text
  unfolding push_field
  record_storage_key r =
      let a = push_field [] (lit "identity") r.identity_id in
      let b = push_field a (lit "kid") r.key_id in
      let c = push_field b (lit "role") (key_role_name r.role) in
      anp.sha256_base64 (push_field c (lit "version") (decimal r.version))

  unfoldable pub derive_record_key : List ℕ → List ℕ → List ℕ
  derive_record_key root_key aad =
      anp.hkdf_expand (lit "anp-identity:keystore:hkdf-salt:v1") root_key aad

  -- `seal_record`; `now` is the time, and the nonce is what the random generator draws.
  unfoldable pub seal_record : Text → List ℕ → List ℕ → SecretRef → List ℕ → EncryptedRecord
  unfolding derive_record_key
  seal_record now nonce root_key r plaintext =
      let aad = aad_for_ref record_schema_version r in
      record {
        schema_version = record_schema_version;
        secret_ref = r;
        cipher = lit "chacha20-poly1305";
        kdf = lit "hkdf-sha256";
        nonce_b64u = anp.base64_encode nonce;
        aad_b64u = anp.base64_encode aad;
        ciphertext_b64u =
            anp.base64_encode
              (anp.aead_encrypt (derive_record_key root_key aad) nonce plaintext aad);
        created_at = now;
      }

  unfoldable pub open_record : List ℕ → EncryptedRecord → DidResult (List ℕ)
  unfolding derive_record_key
  open_record root_key e = do
    refuse_if
        (not (e.schema_version == record_schema_version)
          || (not (e.cipher == lit "chacha20-poly1305") || not (e.kdf == lit "hkdf-sha256")))
        corrupt_record
    let aad = aad_for_ref e.schema_version e.secret_ref
    refuse_if (not (anp.base64_encode aad == e.aad_b64u)) corrupt_record
    nonce ← ok_or corrupt_record (anp.base64_decode e.nonce_b64u)
    refuse_if (not (length nonce == 12)) corrupt_record
    ciphertext ← ok_or corrupt_record (anp.base64_decode e.ciphertext_b64u)
    ok_or corrupt_record (anp.aead_decrypt (derive_record_key root_key aad) nonce ciphertext aad)
