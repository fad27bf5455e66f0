-- ===== src/Adoption/Settle.antt =====
-- crates/anp-identity/src/adoption.rs: what `adopt_verified_document_inner` makes of the record of an
-- identity, between its reads and its writes.
pub mod Laws
use anp_identity.Adoption.{
  AdoptDocumentOutcome, AdoptVerifiedDocumentSpec, VerifiedDocumentEvidence, activated,
  checkpoint_of, is_initial_proof_confirmation, local_authorization_matches,
  refresh_compatible_local_profiles, request_signing_authorization_matches,
  revoke_local_authorization, unchanged, updated, validate_checkpoint_progression,
}
use anp_identity.Anp.{Anp}
use anp_identity.Document.{method_root_fingerprint}
use anp_identity.Errors.{
  DidResult, err, invalid_identity, is_ok, key_role_violation, ok, refuse_if, root_key_mismatch,
  ◌>>=◌, ◌>>◌,
}
use anp_identity.Input.{profile_eq, role_eq}
use anp_identity.Json.{Value, value_eq}
use anp_identity.Keystore.{secret_ref_eq}
use anp_identity.Prelude.{
  Bool, Option, false, if◌then◌else◌, is_none, is_some_and, list_eq, map, nat_eq, none, not,
  option_eq, pair_eq, some, true, ◌&&◌, ◌==◌, ◌||◌,
}
use anp_identity.Registry.{
  DocumentCheckpoint, IdentityRecord, IdentityState, KeyMetadata, KeyState, capability_eq,
  key_state_eq, origin_eq, publication_eq, state_eq, summary_eq,
}
use anp_identity.Registry.Devices.{observe_devices}
use anp_identity.Text.{Text}

abbrev pub activate_key : KeyMetadata → KeyMetadata
activate_key key =
    if key.state == KeyState.pending then record key { state = KeyState.active } else key

abbrev has_digest : Text → Option DocumentCheckpoint → Bool
has_digest digest c = is_some_and (λ c. c.document_digest == digest) c

-- `checkpoint_unchanged`.
unfoldable pub is_checkpoint : VerifiedDocumentEvidence → DocumentCheckpoint → Bool
is_checkpoint e c =
    c.document_version == e.document_version
    && (c.registry_version == e.registry_version && c.document_digest == e.document_digest)

-- The `match` on the state of the record; `authorized` is `local_authorized`.
unfoldable pub settle_by :
    IdentityState
    → Bool
    → VerifiedDocumentEvidence
    → IdentityRecord
    → DidResult (IdentityRecord × AdoptDocumentOutcome)
settle_by IdentityState.creating authorized e r = err invalid_identity
settle_by IdentityState.enrolling authorized e r =
    if not authorized || is_none r.pending_enrollment && is_none r.pending_request_signing
    then err invalid_identity
    else ok (
      record r {
        keys = map activate_key r.keys;
        pending_enrollment = none;
        pending_request_signing = none;
        state = IdentityState.active;
      },
      activated,
    )
settle_by IdentityState.active authorized e r =
    if not authorized
    then ok (
      record (revoke_local_authorization r) { state = IdentityState.revoked },
      AdoptDocumentOutcome.revoked,
    )
    else ok (r, if has_digest e.document_digest r.checkpoint then unchanged else updated)
settle_by IdentityState.revoked authorized e r = ok (r, AdoptDocumentOutcome.revoked)

abbrev is_unchanged : AdoptDocumentOutcome → Bool
is_unchanged unchanged = true
is_unchanged _ = false

module _ ⦃anp : Anp⦄ where
  -- `local_authorized`.
  unfoldable pub local_is_authorized : IdentityRecord → Value → Bool
  local_is_authorized r document = elim r.local_authorization [
    | some local ↦ is_ok (local_authorization_matches r document local)
    | none ↦ elim r.local_request_signing_kid [
      | some kid ↦ is_ok (request_signing_authorization_matches r document kid)
      | none ↦ true
    ]
  ]

  -- The tests of the document against the record.
  unfoldable pub check_adoption :
      Bool → AdoptVerifiedDocumentSpec → IdentityRecord → DidResult (Unit {0})
  check_adoption sibling_only spec r = do
    initial ←
        if sibling_only
        then ok false
        else is_initial_proof_confirmation r spec.document spec.evidence
    if initial then ok tt else validate_checkpoint_progression r.checkpoint spec.evidence
    fingerprint ← method_root_fingerprint spec.document
    refuse_if (not (fingerprint == r.root_key_fingerprint)) root_key_mismatch
    refuse_if (sibling_only && not (local_is_authorized r spec.document)) key_role_violation

  -- The fields that the document and its evidence replace.
  unfoldable pub accept_document :
      AdoptVerifiedDocumentSpec → IdentityRecord → DidResult IdentityRecord
  accept_document spec r = do
    t ← observe_devices spec.document (refresh_compatible_local_profiles r spec.document)
    ok (record t {
      document = spec.document;
      checkpoint = some (checkpoint_of spec.evidence);
      initial_publication_pending = false;
      revision = spec.evidence.document_version;
    })

  -- The record to write, if there is one, and the outcome.
  abbrev pub finish_adoption :
      AdoptVerifiedDocumentSpec
      → IdentityRecord
      → IdentityRecord × AdoptDocumentOutcome
      → DidResult (Option IdentityRecord × AdoptDocumentOutcome)
  finish_adoption spec r (t, outcome) =
      if is_unchanged outcome
        && (is_some_and (is_checkpoint spec.evidence) r.checkpoint
            && not r.initial_publication_pending)
      then ok (none, outcome)
      else (accept_document spec t >>= λ s. ok (some s, outcome))

  unfoldable pub adopt_record :
      Bool
      → AdoptVerifiedDocumentSpec
      → IdentityRecord
      → DidResult (Option IdentityRecord × AdoptDocumentOutcome)
  adopt_record sibling_only spec r = do
    check_adoption sibling_only spec r
    settled ← settle_by r.state (local_is_authorized r spec.document) spec.evidence r
    finish_adoption spec r settled
