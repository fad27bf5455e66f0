-- ===== src/Candidate/Plan.antt =====
-- crates/anp-identity/src/lifecycle.rs: the part of `prepare_update_inner` that only reads: its checks,
-- the candidate document, and the metadata of the new keys.
use anp_identity.Anp.{Anp}
use anp_identity.Candidate.{DocumentUpdateSpec, RequestSigningRotation}
use anp_identity.Candidate.Build.{
  CandidateChanges, PreparedRotation, build_candidate_document, document_key_metadata,
  prepare_rotation,
}
use anp_identity.Candidate.Devices.{Manifests}
use anp_identity.Disk.{Disk}
use anp_identity.Disk.Transitions.{transition_state_eq}
use anp_identity.Errors.{
  DidResult, chain, err, invalid_publication_state, map_ok, ok, pending_revision_exists, refuse_if,
  unsupported_operation, ◌>>=◌, ◌>>◌,
}
use anp_identity.Input.{KeyRole, ServiceSpec, profile_eq, request_signing, role_eq}
use anp_identity.Input.Create.{check_each}
use anp_identity.Input.Fields.{validate_service}
use anp_identity.Json.{Value, value_eq}
use anp_identity.KeyOps.{Curves}
use anp_identity.KeyOps.Proofs.{Proofs}
use anp_identity.Keystore.{secret_ref_eq}
use anp_identity.Prelude.{
  Bool, List, Option, [], if◌then◌else◌, is_nil, is_none, list_eq, nat_eq, none, option_eq, pair_eq,
  some, ℕ, ◌&&◌, ◌++◌, ◌==◌, ◌∷◌,
}
use anp_identity.Registry.{
  IdentityRecord, KeyMetadata, PendingRevisionRecord, capability_eq, external, key_state_eq,
  managed, origin_eq, publication_eq, publication_uncertain, state_eq, summary_eq,
}
use anp_identity.Text.{Text}

-- What is drawn or read from outside for one update.
pub record Draws : Type 0 where
  pub now : Text
  pub challenge : Text
  pub revision_id : Text
  pub fresh_secret : List ℕ
  pub nonce : List ℕ
  pub sealed_at : Text

-- What an update comes to before anything is written.
pub record UpdatePlan : Type 0 where
  pub rotation : Option PreparedRotation
  pub changes : CandidateChanges
  pub metadata : List KeyMetadata

abbrev pub is_empty_spec : DocumentUpdateSpec → Bool
is_empty_spec spec =
    is_none spec.request_signing_rotation
    && (is_nil spec.request_signing_mutations
        && (is_nil spec.device_mutations && is_none spec.services))

abbrev pub services_of : Option (List ServiceSpec) → List ServiceSpec
services_of none = []
services_of (some services) = services

-- No other revision may be pending.
abbrev pub refuse_pending : Option PendingRevisionRecord → DidResult (Unit {0})
refuse_pending none = ok tt
refuse_pending (some p) =
    if p.state == publication_uncertain
    then err invalid_publication_state
    else err pending_revision_exists

unfoldable pub check_spec : DocumentUpdateSpec → DidResult (Unit {0})
check_spec spec = do
  refuse_if (is_empty_spec spec) unsupported_operation
  check_each validate_service (services_of spec.services)

module _ ⦃anp : Anp⦄ where
  -- `map(..).transpose()`.
  abbrev pub rotation_of :
      List ℕ → IdentityRecord → Option RequestSigningRotation → DidResult (Option PreparedRotation)
  rotation_of fresh r none = ok none
  rotation_of fresh r (some rotation) = map_ok some (prepare_rotation fresh r rotation)

  unfoldable pub added_metadata :
      Value → Text → List (Text × KeyRole) → DidResult (List KeyMetadata)
  added_metadata document now [] = ok []
  added_metadata document now ((kid, role) ∷ keys) =
      chain (document_key_metadata document kid role external now)
        (λ m. map_ok (λ ms. m ∷ ms) (added_metadata document now keys))

  abbrev pub rotation_metadata :
      Value → Text → Option PreparedRotation → DidResult (List KeyMetadata)
  rotation_metadata document now none = ok []
  rotation_metadata document now (some rotation) =
      map_ok (λ m. m ∷ [])
        (document_key_metadata document rotation.new_kid request_signing managed now)

  module _ ⦃curves : Curves⦄ ⦃proofs : Proofs⦄ ⦃manifests : Manifests⦄ where
    unfoldable pub plan_update :
        List ℕ
        → Draws
        → DocumentUpdateSpec
        → IdentityRecord
        → IdentityRecord
        → Disk
        → DidResult UpdatePlan
    plan_update root_key draws spec held r d = do
      refuse_pending r.pending_revision
      rotation ← rotation_of draws.fresh_secret r spec.request_signing_rotation
      changes ← build_candidate_document root_key draws.now draws.challenge held r rotation spec d
      added ← added_metadata changes.document draws.now changes.added_keys
      rotated ← rotation_metadata changes.document draws.now rotation
      ok (record { rotation = rotation; changes = changes; metadata = added ++ rotated })
