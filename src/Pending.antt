-- ===== src/Pending.antt =====
-- crates/anp-identity/src/lifecycle.rs: what the operations on a pending revision make of the record
-- of an identity, before they write it.
use anp_identity.Adoption.{
  AdoptVerifiedDocumentSpec, VerifiedDocumentEvidence, is_initial_proof_confirmation,
  local_authorization_matches, refresh_compatible_local_profiles,
  request_signing_authorization_matches, validate_checkpoint_progression,
  validate_verified_document,
}
use anp_identity.Anp.{Anp}
use anp_identity.Document.{checked_inc, document_digest, method_root_fingerprint}
use anp_identity.Errors.{
  DidResult, conflict, invalid_identity, invalid_publication_state, ok, ok_or,
  pending_revision_not_found, refuse_if, root_key_mismatch, ◌>>=◌, ◌>>◌,
}
use anp_identity.Input.{profile_eq, role_eq}
use anp_identity.Json.{Value, get_str, value_eq}
use anp_identity.Keystore.{secret_ref_eq}
use anp_identity.Prelude.{
  Bool, List, Option, [], false, if◌then◌else◌, is_some, list_eq, nat_eq, none, not, option_eq,
  pair_eq, some, ℕ, ◌&&◌, ◌++◌, ◌==◌, ◌||◌, ◌∷◌,
}
use anp_identity.Registry.{
  DocumentCheckpoint, IdentityRecord, KeyMetadata, KeyState, PendingRevisionRecord,
  PublicationState, capability_eq, key_state_eq, origin_eq, prepared, publication_eq,
  publication_in_flight, publication_uncertain, published, state_eq, summary_eq,
}
use anp_identity.Registry.Devices.{observe_devices}
use anp_identity.Text.{Text, lit}

unfoldable pub required_pending : IdentityRecord → Text → DidResult PendingRevisionRecord
required_pending r revision_id = do
  p ← ok_or pending_revision_not_found r.pending_revision
  refuse_if (not (p.revision_id == revision_id)) pending_revision_not_found
  ok p

-- `transition_publication`, between the read and the write.
unfoldable pub transition_record :
    Text → PublicationState → PublicationState → IdentityRecord → DidResult IdentityRecord
transition_record revision_id expected following r = do
  p ← required_pending r revision_id
  refuse_if (not (p.state == expected)) invalid_publication_state
  generation ← checked_inc p.generation
  ok (record r {
    pending_revision = some (record p { state = following; generation = generation });
  })

-- `if let Some(replaced) = keys.iter_mut().find(..) { replaced.state = Retired }`.
abbrev retire_kid : Text → List KeyMetadata → List KeyMetadata
retire_kid kid [] = []
retire_kid kid (k ∷ ks) =
    let rest = retire_kid kid ks in
    if k.kid == kid then record k { state = KeyState.retired } ∷ ks else k ∷ rest

unfoldable pub retire_kids : List Text → List KeyMetadata → List KeyMetadata
retire_kids [] keys = keys
retire_kids (kid ∷ kids) keys = retire_kids kids (retire_kid kid keys)

-- `allowed` of `commit_pending`.
unfoldable pub commit_is_allowed : PublicationState → Bool → Bool → Bool
commit_is_allowed state from_reconcile has_evidence =
    state == published
    || (has_evidence && (not from_reconcile && state == publication_in_flight)
        || from_reconcile && state == publication_uncertain)

abbrev pub revision_after : Option VerifiedDocumentEvidence → ℕ → DidResult ℕ
revision_after (some e) revision = ok e.document_version
revision_after none revision = checked_inc revision

abbrev registry_version_of : Option DocumentCheckpoint → ℕ
registry_version_of none = 0
registry_version_of (some c) = c.registry_version

abbrev registry_version_after :
    Option VerifiedDocumentEvidence → Option DocumentCheckpoint → DidResult ℕ
registry_version_after (some e) c = ok e.registry_version
registry_version_after none c = checked_inc (registry_version_of c)

module _ ⦃anp : Anp⦄ where
  abbrev pub check_evidence :
      IdentityRecord → Value → Option VerifiedDocumentEvidence → DidResult (Unit {0})
  check_evidence r document none = ok tt
  check_evidence r document (some e) = do
    validate_verified_document document e
    initial ← is_initial_proof_confirmation r document e
    if initial then ok tt else validate_checkpoint_progression r.checkpoint e

  -- `commit_pending`, between the read and the write.
  unfoldable pub commit_record :
      Text → Bool → Option VerifiedDocumentEvidence → IdentityRecord → DidResult IdentityRecord
  commit_record revision_id from_reconcile evidence r = do
    p ← required_pending r revision_id
    refuse_if
        (not (commit_is_allowed p.state from_reconcile (is_some evidence))
          || not (p.parent_revision == r.revision))
        invalid_publication_state
    check_evidence r p.candidate_document evidence
    let with_keys = record r { keys = retire_kids p.retired_kids r.keys }
    observed ←
        observe_devices p.candidate_document
          (refresh_compatible_local_profiles with_keys p.candidate_document)
    revision ← revision_after evidence r.revision
    registry_version ← registry_version_after evidence r.checkpoint
    digest ← document_digest p.candidate_document
    ok (record observed {
      keys = observed.keys ++ p.new_key_metadata;
      document = p.candidate_document;
      revision = revision;
      checkpoint = some (record {
        document_version = revision;
        registry_version = registry_version;
        document_digest = digest;
      });
      pending_revision = none;
      initial_publication_pending = false;
    })

  -- The `else if let` ladder of `abort_update_inner` that asks for the local keys.
  abbrev check_local : IdentityRecord → Value → DidResult (Unit {0})
  check_local r document = elim r.local_authorization [
    | some local ↦ local_authorization_matches r document local
    | none ↦ elim r.local_request_signing_kid [
      | some kid ↦ request_signing_authorization_matches r document kid
      | none ↦ ok tt
    ]
  ]

  -- The checks of `abort_update_inner`; `rejection` is the document that the registry holds instead,
  -- and `did` the one of the identity that is held.
  unfoldable pub check_abort :
      Text
      → Option AdoptVerifiedDocumentSpec
      → IdentityRecord
      → PendingRevisionRecord
      → DidResult (Unit {0})
  check_abort did none r p = refuse_if (not (p.state == prepared)) invalid_publication_state
  check_abort did (some o) r p = do
    refuse_if (not (p.state == publication_uncertain)) invalid_publication_state
    validate_verified_document o.document o.evidence
    refuse_if (not (get_str o.document (lit "id") == some did)) invalid_identity
    fingerprint ← method_root_fingerprint o.document
    refuse_if (not (fingerprint == r.root_key_fingerprint)) root_key_mismatch
    validate_checkpoint_progression r.checkpoint o.evidence
    check_local r o.document
    base ← ok_or conflict r.checkpoint
    refuse_if
        (o.evidence.document_version == base.document_version
          && o.evidence.registry_version == base.registry_version)
        conflict
