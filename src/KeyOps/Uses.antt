-- ===== src/KeyOps/Uses.antt =====
-- crates/anp-identity/src/crypto_ops.rs: every call that uses a managed key, and what it must find.
use anp_identity.Anp.{Anp}
use anp_identity.Disk.{Disk}
use anp_identity.Disk.Files.{read_identity}
use anp_identity.Errors.{is_ok, ok}
use anp_identity.Input.{device_signing, e2ee_agreement}
use anp_identity.Json.{Value}
use anp_identity.KeyOps.{
  Curves, ecdh, ecdh_pending_enrollment, key_metadata, sign_by, sign_pending_enrollment,
}
use anp_identity.KeyOps.Access.{
  Purpose, document_proof, key_agreement, message_signature, object_proof, possession_proof,
  request_signature, serves,
}
use anp_identity.KeyOps.Proofs.{
  ProofOptions, Proofs, http_signature_headers, legacy_did_wba_header, sign_document_proof,
  sign_object_proof, sign_origin_proof, sign_pending_root_object_proof,
}
use anp_identity.Prelude.{Bool, List, Option, false, if◌then◌else◌, is_none, some, true, ℕ, ◌≡◌}
use anp_identity.Registry.{
  IdentityRecord, IdentityState, KeyMetadata, KeyState, LocalAuthorizationRecord,
  PendingEnrollmentRecord, RootCapabilityState, managed,
}
use anp_identity.Text.{Text}

-- A call with its arguments. The last three use a key that is not active yet: of a device that
-- enrolls, and of a root that is being transferred.
pub data Call ⦃proofs : Proofs⦄ : Type 0 where
  sign_call : Text → List ℕ → Call
  ecdh_call : Text → List ℕ → Call
  object_call : Text → Value → Text → Option Text → Call
  document_call : Value → Text → ProofOptions → Call
  origin_call : Text → Value → Value → Text → proofs.OriginOptions → Call
  legacy_call : Text → Text → Text → Call
  http_call :
      Text → Text → Text → Option proofs.HttpHeaders → Option (List ℕ) → proofs.HttpOptions → Call
  pending_sign_call : Text → Text → List ℕ → Call
  pending_ecdh_call : Text → Text → List ℕ → Call
  pending_object_call : Text → Value → Text → Option Text → Call

module _ ⦃anp : Anp⦄ ⦃curves : Curves⦄ ⦃proofs : Proofs⦄ where
  abbrev pub purpose_of : Call → Purpose
  purpose_of (sign_call kid message) = message_signature
  purpose_of (ecdh_call kid peer) = key_agreement
  purpose_of (object_call kid document issuer created) = object_proof
  purpose_of (document_call document kid options) = document_proof
  purpose_of (origin_call method meta body kid options) = request_signature
  purpose_of (legacy_call kid domain version) = request_signature
  purpose_of (http_call kid url method headers body options) = request_signature
  purpose_of (pending_sign_call enrollment_id kid message) = message_signature
  purpose_of (pending_ecdh_call enrollment_id kid peer) = key_agreement
  purpose_of (pending_object_call kid document issuer created) = possession_proof

  abbrev pub kid_of : Call → Text
  kid_of (sign_call kid message) = kid
  kid_of (ecdh_call kid peer) = kid
  kid_of (object_call kid document issuer created) = kid
  kid_of (document_call document kid options) = kid
  kid_of (origin_call method meta body kid options) = kid
  kid_of (legacy_call kid domain version) = kid
  kid_of (http_call kid url method headers body options) = kid
  kid_of (pending_sign_call enrollment_id kid message) = kid
  kid_of (pending_ecdh_call enrollment_id kid peer) = kid
  kid_of (pending_object_call kid document issuer created) = kid

  -- The calls that look their key up in the record that the store holds, and use it while it is
  -- pending; the others look into the record that the caller holds, for an active key.
  abbrev pub is_provisional : Call → Bool
  is_provisional (pending_sign_call enrollment_id kid message) = true
  is_provisional (pending_ecdh_call enrollment_id kid peer) = true
  is_provisional (pending_object_call kid document issuer created) = true
  is_provisional _ = false

  abbrev pub key_state_of : Call → KeyState
  key_state_of call = if is_provisional call then KeyState.pending else KeyState.active

  -- The state of the identity in which the call may be made.
  abbrev pub state_of : Call → IdentityState
  state_of (pending_sign_call enrollment_id kid message) = IdentityState.enrolling
  state_of (pending_ecdh_call enrollment_id kid peer) = IdentityState.enrolling
  state_of _ = IdentityState.active

  -- Whether the call returns.
  unfoldable pub succeeds : List ℕ → Call → IdentityRecord → Disk → Bool
  succeeds root_key (sign_call kid message) held d = is_ok (sign_by root_key kid message held d)
  succeeds root_key (ecdh_call kid peer) held d = is_ok (ecdh root_key kid peer held d)
  succeeds root_key (object_call kid document issuer created) held d =
      is_ok (sign_object_proof root_key kid document issuer created held d)
  succeeds root_key (document_call document kid options) held d =
      is_ok (sign_document_proof root_key document kid options held d)
  succeeds root_key (origin_call method meta body kid options) held d =
      is_ok (sign_origin_proof root_key method meta body kid options held d)
  succeeds root_key (legacy_call kid domain version) held d =
      is_ok (legacy_did_wba_header root_key kid domain version held d)
  succeeds root_key (http_call kid url method headers body options) held d =
      is_ok (http_signature_headers root_key kid url method headers body options held d)
  succeeds root_key (pending_sign_call enrollment_id kid message) held d =
      is_ok (sign_pending_enrollment root_key enrollment_id kid message held d)
  succeeds root_key (pending_ecdh_call enrollment_id kid peer) held d =
      is_ok (ecdh_pending_enrollment root_key enrollment_id kid peer held d)
  succeeds root_key (pending_object_call kid document issuer created) held d =
      is_ok (sign_pending_root_object_proof root_key kid document issuer created held d)

  -- The store holds the record that the caller holds, in the state that the call needs, and the
  -- key is a managed one, in the state that the call needs, of a role that serves its purpose.
  pub record IsUse (call : Call) (held : IdentityRecord) (d : Disk) : Type 0 where
    pub current : IdentityRecord
    pub key : KeyMetadata
    pub is_read : (read_identity held.identity_id d).0 ≡ ok current
    pub is_held : current.generation ≡ held.generation
    pub in_state : current.state ≡ state_of call
    pub is_key : key_metadata (kid_of call) (if is_provisional call then current else held) ≡ ok key
    pub is_managed : key.origin ≡ managed
    pub is_usable : key.state ≡ key_state_of call
    pub is_serving : serves (purpose_of call) key.role ≡ true

  -- The record waits for this enrollment.
  abbrev pub Awaits : Text → IdentityRecord → Type 0
  Awaits enrollment_id r =
      (p : PendingEnrollmentRecord) × (r.pending_enrollment ≡ some p)
      × (p.enrollment_id ≡ enrollment_id)

  -- What a call needs besides: an enrollment uses the keys of its own device, and a root is pending
  -- while its transfer is.
  abbrev pub Allows : Call → IdentityRecord → KeyMetadata → Type 0
  Allows (pending_sign_call enrollment_id kid message) r key =
      Awaits enrollment_id r
      × (key.role ≡ device_signing)
      × ((local : LocalAuthorizationRecord) × (r.local_authorization ≡ some local)
          × (key.kid ≡ local.signing_kid))
  Allows (pending_ecdh_call enrollment_id kid peer) r key =
      Awaits enrollment_id r
      × (key.role ≡ e2ee_agreement)
      × ((local : LocalAuthorizationRecord) × (r.local_authorization ≡ some local)
          × (key.kid ≡ local.e2ee_kid))
  Allows (pending_object_call kid document issuer created) r key =
      (r.root_capability ≡ RootCapabilityState.pending) × (is_none r.pending_root_transfer ≡ false)
  Allows _ r key = Unit
