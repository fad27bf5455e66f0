-- ===== src/KeyOps/Proofs.antt =====
-- crates/anp-identity/src/crypto_ops.rs: the proofs and headers that a key signs. The `anp` crate
-- prepares a draft, which says what is to be signed, and completes it with the signature.
use anp_identity.Anp.{Anp, PublicKeyMaterial}
use anp_identity.Disk.{Disk}
use anp_identity.Errors.{
  DidResult, crypto, invalid_identity, key_role_violation, ok_or, refuse_if,
  root_capability_unavailable, unsupported_operation, ◌>>=◌, ◌>>◌,
}
use anp_identity.Input.{e1, for_did, profile_eq, role_eq, root_control}
use anp_identity.Input.Kid.{canonicalize_kid}
use anp_identity.Json.{Value, value_eq}
use anp_identity.KeyOps.{
  Curves, current_of, device_signing_metadata, managed_key_metadata, pending_metadata,
  public_key_of, request_signing_metadata, require_active, require_operational, sign_prepared,
}
use anp_identity.Keystore.{secret_ref_eq}
use anp_identity.Prelude.{
  List, Option, is_none, list_eq, nat_eq, not, option_eq, pair_eq, ℕ, ◌==◌, ◌||◌,
}
use anp_identity.Registry.{
  IdentityRecord, IdentityState, KeyMetadata, RootCapabilityState, capability_eq, key_state_eq,
  origin_eq, publication_eq, state_eq, summary_eq,
}
use anp_identity.Text.{Text}

-- `anp::proof::ProofGenerationOptions`.
pub record ProofOptions : Type 0 where
  pub proof_purpose : Option Text
  pub proof_type : Option Text
  pub cryptosuite : Option Text
  pub created : Option Text
  pub proof_domain : Option Text
  pub challenge : Option Text

-- `anp::proof` and the headers of `anp::authentication`: an error of theirs is `none`, as the
-- callers replace it.
pub record Proofs : Type 1 where
  pub ObjectDraft : Type 0
  pub W3cDraft : Type 0
  pub OriginDraft : Type 0
  pub OriginOptions : Type 0
  pub OriginProof : Type 0
  pub LegacyDraft : Type 0
  pub HttpDraft : Type 0
  pub HttpOptions : Type 0
  pub HttpHeaders : Type 0
  -- `PROOF_TYPE_DATA_INTEGRITY` and `CRYPTOSUITE_EDDSA_JCS_2022`.
  pub data_integrity : Text
  pub eddsa_jcs_2022 : Text
  pub object_input : ObjectDraft → List ℕ
  pub w3c_input : W3cDraft → List ℕ
  pub origin_input : OriginDraft → List ℕ
  pub legacy_input : LegacyDraft → List ℕ
  pub http_input : HttpDraft → List ℕ
  -- `options.keyid = Some(kid)`.
  pub with_keyid : Text → HttpOptions → HttpOptions
  pub prepare_object_proof :
      Value → PublicKeyMaterial → Text → Text → Option Text → Option ObjectDraft
  pub complete_object_proof : ObjectDraft → List ℕ → Option Value
  pub prepare_w3c_proof : Value → PublicKeyMaterial → Text → ProofOptions → Option W3cDraft
  pub complete_w3c_proof : W3cDraft → List ℕ → Option Value
  pub prepare_origin_proof :
      Text → Value → Value → PublicKeyMaterial → Text → OriginOptions → Option OriginDraft
  pub complete_origin_proof : OriginDraft → List ℕ → Option OriginProof
  pub prepare_legacy_header : Value → Text → Text → Text → Option LegacyDraft
  pub complete_legacy_header : LegacyDraft → List ℕ → Option Text
  pub prepare_http_headers :
      Value → Text → Text → Option HttpHeaders → Option (List ℕ) → HttpOptions → Option HttpDraft
  pub complete_http_headers : HttpDraft → List ℕ → Option HttpHeaders

module _ ⦃anp : Anp⦄ ⦃curves : Curves⦄ ⦃proofs : Proofs⦄ where
  unfoldable pub object_proof_by :
      List ℕ → KeyMetadata → Value → Text → Option Text → IdentityRecord → Disk → DidResult Value
  object_proof_by root_key m document issuer_did created held d = do
    public ← public_key_of held m
    draft ← ok_or crypto (proofs.prepare_object_proof document public m.kid issuer_did created)
    signature ← sign_prepared root_key held m (proofs.object_input draft) d
    ok_or crypto (proofs.complete_object_proof draft signature)

  unfoldable pub sign_object_proof :
      List ℕ → Text → Value → Text → Option Text → IdentityRecord → Disk → DidResult Value
  sign_object_proof root_key kid document issuer_did created held d = do
    m ← device_signing_metadata kid held d
    object_proof_by root_key m document issuer_did created held d

  unfoldable pub sign_pending_root_object_proof :
      List ℕ → Text → Value → Text → Option Text → IdentityRecord → Disk → DidResult Value
  sign_pending_root_object_proof root_key kid document issuer_did created held d = do
    current ← current_of held d
    refuse_if
        (not (current.state == IdentityState.active)
          || (not (current.root_capability == RootCapabilityState.pending)
              || is_none current.pending_root_transfer))
        root_capability_unavailable
    k ← canonicalize_kid current.did kid
    m ← pending_metadata root_control root_capability_unavailable k current
    object_proof_by root_key m document issuer_did created held d

  unfoldable pub sign_document_proof :
      List ℕ → Value → Text → ProofOptions → IdentityRecord → Disk → DidResult Value
  sign_document_proof root_key document verification_method options held d = do
    require_operational held d
    refuse_if (not (held.root_capability == RootCapabilityState.active)) root_capability_unavailable
    m ← managed_key_metadata verification_method held
    require_active m
    refuse_if (not (m.role == root_control)) key_role_violation
    public ← public_key_of held m
    draft ← ok_or crypto (proofs.prepare_w3c_proof document public m.kid options)
    signature ← sign_prepared root_key held m (proofs.w3c_input draft) d
    ok_or crypto (proofs.complete_w3c_proof draft signature)

  unfoldable pub sign_origin_proof :
      List ℕ
      → Text
      → Value
      → Value
      → Text
      → proofs.OriginOptions
      → IdentityRecord
      → Disk
      → DidResult proofs.OriginProof
  sign_origin_proof root_key method meta body kid options held d = do
    m ← request_signing_metadata kid held d
    public ← public_key_of held m
    draft ← ok_or crypto (proofs.prepare_origin_proof method meta body public m.kid options)
    signature ← sign_prepared root_key held m (proofs.origin_input draft) d
    ok_or crypto (proofs.complete_origin_proof draft signature)

  unfoldable pub legacy_did_wba_header :
      List ℕ → Text → Text → Text → IdentityRecord → Disk → DidResult Text
  legacy_did_wba_header root_key kid service_domain version held d = do
    profile ← for_did held.did
    refuse_if (not (profile == e1)) unsupported_operation
    m ← request_signing_metadata kid held d
    draft ←
        ok_or invalid_identity
          (proofs.prepare_legacy_header held.document service_domain version m.kid)
    signature ← sign_prepared root_key held m (proofs.legacy_input draft) d
    ok_or crypto (proofs.complete_legacy_header draft signature)

  unfoldable pub http_signature_headers :
      List ℕ
      → Text
      → Text
      → Text
      → Option proofs.HttpHeaders
      → Option (List ℕ)
      → proofs.HttpOptions
      → IdentityRecord
      → Disk
      → DidResult proofs.HttpHeaders
  http_signature_headers root_key kid url method headers body options held d = do
    m ← request_signing_metadata kid held d
    draft ← ok_or invalid_identity (
        proofs.prepare_http_headers held.document url method headers body
          (proofs.with_keyid m.kid options))
    signature ← sign_prepared root_key held m (proofs.http_input draft) d
    ok_or crypto (proofs.complete_http_headers draft signature)
