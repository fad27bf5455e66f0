-- ===== src/Tests/KeyOps.antt =====
-- Examples for crypto_ops.rs: a device key in an active identity.
use anp_identity.Anp.{Anp, PublicKeyMaterial, ed25519, other_curve, x25519}
use anp_identity.Assoc.{lookup}
use anp_identity.Disk.{Disk}
use anp_identity.Disk.Files.{
  finish_record, infer_local_authorization, is_local_device, open_secret, read_identity,
  storage_key,
}
use anp_identity.Disk.Transitions.{transition_state_eq}
use anp_identity.Document.{document_digest, root_key_fingerprint}
use anp_identity.Errors.{ok}
use anp_identity.Input.{device_signing, for_did, profile_eq, role_eq}
use anp_identity.Input.Fields.{
  byte_len, fragment_is_valid, is_ascii_alphanumeric, is_identifier_byte, validate_fragment,
}
use anp_identity.Input.Kid.{canonicalize_kid, fragment_of, strip_did}
use anp_identity.Json.{Value, get_field, string, value_eq}
use anp_identity.KeyOps.{
  Curves, agree, current_of, device_signing_metadata, ecdh, key_metadata, load_managed_secret,
  managed_key_metadata, private_key, public_key_of, request_signing_metadata, require_active,
  require_operational, secret_ref_of, sign_by, sign_prepared, verify_by,
}
use anp_identity.KeyOps.Calls.{end_of, role_separation}
use anp_identity.KeyOps.Proofs.{
  Proofs, http_signature_headers, legacy_did_wba_header, object_proof_by, sign_document_proof,
  sign_object_proof, sign_origin_proof,
}
use anp_identity.KeyOps.Uses.{Call, kid_of, object_call, purpose_of, sign_call, succeeds}
use anp_identity.KeyOps.Verify.{IsSigner, sign-verify}
use anp_identity.Keystore.{
  aad_for_ref, decimal, derive_record_key, key_role_name, open_record, push_field,
  record_storage_key, seal_record, secret_ref_beq, secret_ref_eq, validate_secret_ref,
}
use anp_identity.Prelude.{
  List, [], eq_refl, false, length, list_beq, list_eq, nat_eq, none, option_eq, pair_eq, refl, some,
  true, ℕ, ◌++◌, ◌==◌, ◌∷◌, ◌≡◌,
}
use anp_identity.Registry.{
  IdentityRecord, IdentityState, KeyMetadata, KeyState, capability_eq, key_state_eq, managed,
  origin_eq, prepared, publication_eq, state_eq, summary_eq,
}
use anp_identity.Tests.Record.{disk_with, sample_record}
use anp_identity.Tests.Sample.{sample_anp, sample_codec}
use anp_identity.Text.{Text, bytes, lit, starts_with, strip_prefix, trim, trim_end, trim_start}

-- An `anp` that finds one method with one key, and curves without secrecy.
abbrev secret_bytes : List ℕ
secret_bytes =
    1 ∷ 2 ∷ 3 ∷ 4 ∷ 5 ∷ 6 ∷ 7 ∷ 8 ∷ 9 ∷ 10 ∷ 11 ∷ 12 ∷ 13 ∷ 14 ∷ 15 ∷ 16 ∷ 17 ∷ 18 ∷ 19 ∷ 20 ∷ 21
    ∷ 22 ∷ 23 ∷ 24 ∷ 25 ∷ 26 ∷ 27 ∷ 28 ∷ 29 ∷ 30 ∷ 31 ∷ 32 ∷ []

abbrev key_anp : Anp
key_anp = record sample_anp {
  extract_public_key = λ v. some (ed25519 secret_bytes);
  find_verification_method = λ document kid. some Value.null;
}

abbrev put_curve : PublicKeyMaterial → List ℕ
put_curve (ed25519 key) = key
put_curve (x25519 key) = key
put_curve (other_curve key) = key

instance abbrev pub sample_curves : Curves
sample_curves = record {
  ed25519_sign = λ key message. length message ∷ message ++ key;
  diffie_hellman = λ key peer. peer ++ key;
  verify_message =
      λ public message signature. signature == length message ∷ message ++ put_curve public;
}

sample_curves-IsSigner : IsSigner ⦃anp = key_anp⦄ ⦃curves = sample_curves⦄
sample_curves-IsSigner = record {
  verify_sign = λ key message. eq_refl (length message ∷ message ++ key);
}

abbrev device_key : KeyMetadata
device_key = record {
  kid = lit "did:web:a.example#k";
  role = device_signing;
  origin = managed;
  state = KeyState.active;
  material_erased = false;
  version = 1;
  public_key_multibase = lit "z";
  created_at = lit "T";
}

abbrev keyed_record : IdentityRecord
keyed_record = record (sample_record prepared) { keys = device_key ∷ [] }

abbrev keyed_disk : Disk
keyed_disk = record (disk_with prepared) {
  identities = (lit "I", keyed_record) ∷ [];
  records =
      (
        record_storage_key ⦃anp = key_anp⦄ (secret_ref_of keyed_record device_key),
        seal_record ⦃anp = key_anp⦄ (lit "T")
            (1 ∷ 2 ∷ 3 ∷ 4 ∷ 5 ∷ 6 ∷ 7 ∷ 8 ∷ 9 ∷ 10 ∷ 11 ∷ 12 ∷ []) (7 ∷ [])
            (secret_ref_of keyed_record device_key) secret_bytes,
      )
      ∷ [];
}

-- A proof maker that is not asked in these examples.
instance abbrev pub sample_proofs : Proofs
sample_proofs = record {
  ObjectDraft = List ℕ;
  W3cDraft = List ℕ;
  OriginDraft = List ℕ;
  OriginOptions = Unit;
  OriginProof = List ℕ;
  LegacyDraft = List ℕ;
  HttpDraft = List ℕ;
  HttpOptions = Text;
  HttpHeaders = List ℕ;
  data_integrity = lit "DataIntegrityProof";
  eddsa_jcs_2022 = lit "eddsa-jcs-2022";
  object_input = λ draft. draft;
  w3c_input = λ draft. draft;
  origin_input = λ draft. draft;
  legacy_input = λ draft. draft;
  http_input = λ draft. draft;
  with_keyid = λ kid options. kid;
  prepare_object_proof = λ document public kid issuer created. some kid;
  complete_object_proof = λ draft signature. some (string signature);
  prepare_w3c_proof = λ document public kid options. some kid;
  complete_w3c_proof = λ draft signature. some (string signature);
  prepare_origin_proof = λ method meta body public kid options. some kid;
  complete_origin_proof = λ draft signature. some signature;
  prepare_legacy_header = λ document service version kid. some kid;
  complete_legacy_header = λ draft signature. some signature;
  prepare_http_headers = λ document url method headers body options. some options;
  complete_http_headers = λ draft signature. some signature;
}

abbrev a_call : Call
a_call = sign_call (lit "#k") (1 ∷ 2 ∷ [])

abbrev same_key_call : Call
same_key_call = object_call (lit "k") Value.null (lit "did:web:a.example") none

it_signs : succeeds ⦃anp = key_anp⦄ (7 ∷ []) a_call keyed_record keyed_disk ≡ true
unfolding succeeds sign_by require_operational current_of read_identity lookup list_beq storage_key
    bytes finish_record for_did starts_with infer_local_authorization managed_key_metadata
    key_metadata canonicalize_kid strip_prefix is_local_device open_secret document_digest
    root_key_fingerprint byte_len fragment_is_valid is_ascii_alphanumeric is_identifier_byte
    validate_fragment fragment_of strip_did get_field http_signature_headers legacy_did_wba_header
    object_proof_by sign_document_proof sign_object_proof sign_origin_proof agree
    device_signing_metadata ecdh load_managed_secret private_key public_key_of
    request_signing_metadata require_active sign_prepared aad_for_ref decimal derive_record_key
    key_role_name open_record push_field record_storage_key secret_ref_beq validate_secret_ref trim
    trim_end trim_start seal_record
it_signs = refl

it_proves : succeeds ⦃anp = key_anp⦄ (7 ∷ []) same_key_call keyed_record keyed_disk ≡ true
unfolding succeeds sign_object_proof device_signing_metadata require_operational current_of
    read_identity lookup list_beq storage_key bytes finish_record for_did starts_with
    infer_local_authorization managed_key_metadata key_metadata canonicalize_kid strip_prefix
    validate_fragment byte_len is_identifier_byte is_ascii_alphanumeric require_active
    object_proof_by public_key_of sign_prepared load_managed_secret open_secret validate_secret_ref
    trim record_storage_key decimal key_role_name secret_ref_beq seal_record open_record aad_for_ref
    private_key
it_proves = refl

is_kept : (read_identity ⦃anp = key_anp⦄ (lit "I") keyed_disk).0 ≡ ok keyed_record
unfolding read_identity lookup list_beq storage_key bytes finish_record for_did starts_with
    infer_local_authorization
is_kept = refl

is_one_key :
    canonicalize_kid keyed_record.did (kid_of ⦃anp = key_anp⦄ a_call)
    ≡ canonicalize_kid keyed_record.did (kid_of ⦃anp = key_anp⦄ same_key_call)
unfolding canonicalize_kid strip_prefix
is_one_key = refl

role_separation_example :
    end_of (purpose_of ⦃anp = key_anp⦄ a_call) ≡ end_of (purpose_of ⦃anp = key_anp⦄ same_key_call)
role_separation_example =
    role_separation ⦃anp = key_anp⦄ (7 ∷ []) a_call same_key_call keyed_record keyed_disk keyed_disk
      is_kept is_kept is_one_key it_signs it_proves

abbrev revoked_record : IdentityRecord
revoked_record = record keyed_record { state = IdentityState.revoked }

abbrev revoked_disk : Disk
revoked_disk = record keyed_disk { identities = (lit "I", revoked_record) ∷ [] }

is_key : key_metadata (lit "#k") keyed_record ≡ ok device_key
unfolding key_metadata canonicalize_kid strip_prefix validate_fragment byte_len bytes
    is_identifier_byte is_ascii_alphanumeric list_beq
is_key = refl

is_secret :
    load_managed_secret ⦃anp = key_anp⦄ (7 ∷ []) keyed_record device_key keyed_disk
    ≡ ok secret_bytes
unfolding load_managed_secret open_secret validate_secret_ref trim lookup list_beq
    record_storage_key bytes decimal byte_len key_role_name secret_ref_beq seal_record open_record
    aad_for_ref
is_secret = refl

is_public :
    public_key_of ⦃anp = key_anp⦄ keyed_record device_key
    ≡ ok (ed25519 (key_anp.ed25519_public secret_bytes))
unfolding public_key_of
is_public = refl

is_signature :
    sign_by ⦃anp = key_anp⦄ (7 ∷ []) (lit "#k") (1 ∷ 2 ∷ []) keyed_record keyed_disk
    ≡ ok (2 ∷ 1 ∷ 2 ∷ secret_bytes)
unfolding sign_by require_operational current_of read_identity lookup list_beq storage_key bytes
    finish_record for_did starts_with infer_local_authorization managed_key_metadata key_metadata
    canonicalize_kid strip_prefix validate_fragment is_local_device open_secret document_digest
    root_key_fingerprint byte_len fragment_is_valid is_ascii_alphanumeric is_identifier_byte
    fragment_of strip_did get_field load_managed_secret private_key require_active sign_prepared
    aad_for_ref decimal derive_record_key key_role_name open_record push_field record_storage_key
    secret_ref_beq validate_secret_ref trim trim_end trim_start seal_record
is_signature = refl

sign-verify_example :
    verify_by ⦃anp = key_anp⦄ (lit "#k") (1 ∷ 2 ∷ []) (2 ∷ 1 ∷ 2 ∷ secret_bytes) keyed_record
    ≡ ok tt
sign-verify_example =
    sign-verify ⦃anp = key_anp⦄ (7 ∷ []) (lit "#k") (1 ∷ 2 ∷ []) keyed_record keyed_disk device_key
      (2 ∷ 1 ∷ 2 ∷ secret_bytes) secret_bytes sample_curves-IsSigner is_key is_secret is_public
      is_signature
