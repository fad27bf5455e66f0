-- ===== src/Adoption.antt =====
-- crates/anp-identity/src/adoption.rs: the checks of a document that comes from the registry, and
-- what it does to the local keys.
pub mod Settle
use anp_identity.Anp.{Anp, DeviceManifest, DeviceManifestEntry}
use anp_identity.Document.{document_digest, public_key_multibase, validate_method_document}
use anp_identity.Errors.{
  DidResult, conflict, err, invalid_extension, invalid_identity, invalid_public_key, is_ok,
  key_not_found, key_role_violation, ok, ok_or, refuse_if, ◌>>=◌, ◌>>◌,
}
use anp_identity.Input.{profile_eq, request_signing, role_eq}
use anp_identity.Json.{
  Fields, Value, as_array, as_str, get, get_str, object, remove_field, value_eq,
}
use anp_identity.Keystore.{secret_ref_eq}
use anp_identity.Prelude.{
  Bool, List, Option, [], any, contains, false, find, if◌then◌else◌, is_some_and, length, list_eq,
  ltb, map, nat_eq, none, not, option_eq, pair_eq, retain, some, suc, true, ℕ, ◌&&◌, ◌==◌, ◌||◌,
  ◌∷◌,
}
use anp_identity.Registry.{
  DocumentCheckpoint, IdentityRecord, IdentityState, KeyMetadata, KeyState,
  LocalAuthorizationRecord, RootCapabilityState, capability_eq, key_state_eq, origin_eq,
  publication_eq, state_eq, summary_eq,
}
use anp_identity.Text.{Text, lit}

pub record VerifiedDocumentEvidence : Type 0 where
  pub document_version : ℕ
  pub registry_version : ℕ
  pub document_digest : Text

pub record AdoptVerifiedDocumentSpec : Type 0 where
  pub document : Value
  pub evidence : VerifiedDocumentEvidence

pub data AdoptDocumentOutcome : Type 0 where
  activated updated unchanged revoked : AdoptDocumentOutcome

unfoldable pub validate_checkpoint_progression :
    Option DocumentCheckpoint → VerifiedDocumentEvidence → DidResult (Unit {0})
validate_checkpoint_progression none e = ok tt
validate_checkpoint_progression (some current) e =
    refuse_if
      (ltb e.document_version current.document_version
        || (ltb e.registry_version current.registry_version
            || e.document_version == current.document_version
              && not (e.document_digest == current.document_digest)))
      conflict

-- `checkpoint`.
unfoldable pub checkpoint_of : VerifiedDocumentEvidence → DocumentCheckpoint
checkpoint_of e = record {
  document_version = e.document_version;
  registry_version = e.registry_version;
  document_digest = e.document_digest;
}

-- The closure of `is_some_and` on the checkpoint.
abbrev is_first : DocumentCheckpoint → Bool
is_first c = c.document_version == 1 && c.registry_version == 1

abbrev object_without_proof : Value → DidResult Fields
object_without_proof (object m) = ok (remove_field (lit "proof") m)
object_without_proof _ = err invalid_identity

unfoldable pub is_initial_proof_confirmation :
    IdentityRecord → Value → VerifiedDocumentEvidence → DidResult Bool
is_initial_proof_confirmation r document e =
    if not r.initial_publication_pending
      || (not (r.state == IdentityState.active)
          || (not (r.root_capability == RootCapabilityState.active)
              || (not (r.revision == 1)
                  || (not (e.document_version == 1)
                      || (not (e.registry_version == 1)
                          || not (is_some_and is_first r.checkpoint))))))
    then ok false
    else (do
      before ← object_without_proof r.document
      after ← object_without_proof document
      ok (object before == object after))

-- `new.starts_with(old)` on slices.
abbrev is_prefix : List Text → List Text → Bool
is_prefix [] ys = true
is_prefix (x ∷ xs) [] = false
is_prefix (x ∷ xs) (y ∷ ys) = x == y && is_prefix xs ys

abbrev last_profile : List Text → Option Text
last_profile [] = none
last_profile (x ∷ []) = some x
last_profile (x ∷ y ∷ xs) = last_profile (y ∷ xs)

abbrev base_profile : Text
base_profile = lit "anp.group.base.v2"

unfoldable pub compatible_local_profiles : List Text → List Text → Bool
compatible_local_profiles old new =
    old == new
    || contains old (lit "anp.core.binding.v1")
      && (contains old (lit "anp.identity.discovery.v1")
          && (contains old (lit "anp.group.e2ee.v2")
              && (not (contains old base_profile)
                  && (length new == suc (length old)
                      && (is_prefix old new && last_profile new == some base_profile)))))

abbrev names_kid : Text → Value → Bool
names_kid kid value = as_str value == some kid || get_str value (lit "id") == some kid

unfoldable pub relationship_contains : Value → Text → Text → Bool
relationship_contains document name kid = elim (get document name) [
  | none ↦ false
  | some v ↦ is_some_and (any (names_kid kid)) (as_array v)
]

-- `validate_device_manifest(document).map_err(..)`.
abbrev manifest_result : Option (Option DeviceManifest) → DidResult (Option DeviceManifest)
manifest_result none = err invalid_extension
manifest_result (some m) = ok m

module _ ⦃anp : Anp⦄ where
  unfoldable pub validate_verified_document :
      Value → VerifiedDocumentEvidence → DidResult (Unit {0})
  validate_verified_document document e = do
    refuse_if (e.document_version == 0 || e.registry_version == 0) invalid_identity
    digest ← document_digest document
    refuse_if (not (digest == e.document_digest)) invalid_identity
    _ ← manifest_result (anp.validate_device_manifest document)
    _ ← validate_method_document document
    ok tt

  unfoldable pub key_matches_document : Value → KeyMetadata → DidResult (Unit {0})
  key_matches_document document metadata = do
    method ← ok_or invalid_identity (anp.find_verification_method document metadata.kid)
    observed ← ok_or invalid_public_key (anp.extract_public_key method)
    multibase_text ← public_key_multibase observed
    refuse_if (not (multibase_text == metadata.public_key_multibase)) invalid_public_key

  -- The last tests of `local_authorization_matches`.
  abbrev device_matches : LocalAuthorizationRecord → List DeviceManifestEntry → DidResult (Unit {0})
  device_matches local (device ∷ []) =
      refuse_if
        (not (device.signing_key_id == local.signing_kid)
          || (not (device.e2ee_key_id == local.e2ee_kid)
              || not (compatible_local_profiles local.profiles device.profiles)))
        invalid_extension
  device_matches local _ = err invalid_extension

  unfoldable pub local_authorization_matches :
      IdentityRecord → Value → LocalAuthorizationRecord → DidResult (Unit {0})
  local_authorization_matches r document local = do
    signing ← ok_or key_not_found (find (λ key. key.kid == local.signing_kid) r.keys)
    e2ee ← ok_or key_not_found (find (λ key. key.kid == local.e2ee_kid) r.keys)
    key_matches_document document signing
    key_matches_document document e2ee
    refuse_if
        (not (anp.is_authentication_authorized document signing.kid)
          || (not (anp.is_assertion_method_authorized document signing.kid)
              || not (relationship_contains document (lit "keyAgreement") e2ee.kid)))
        key_role_violation
    found ← manifest_result (anp.validate_device_manifest document)
    manifest ← ok_or invalid_extension found
    device_matches local (retain (λ device. device.device_id == local.device_id) manifest.devices)

  unfoldable pub request_signing_authorization_matches :
      IdentityRecord → Value → Text → DidResult (Unit {0})
  request_signing_authorization_matches r document kid = do
    metadata ←
        ok_or key_not_found (find (λ key. key.kid == kid && key.role == request_signing) r.keys)
    key_matches_document document metadata
    refuse_if
        (not (anp.is_authentication_authorized document kid)
          || anp.is_assertion_method_authorized document kid)
        key_role_violation

  -- The profiles that the document gives the local device, if there is one.
  abbrev profiles_for : LocalAuthorizationRecord → List DeviceManifestEntry → List Text
  profiles_for local [] = local.profiles
  profiles_for local (device ∷ devices) =
      if device.device_id == local.device_id then device.profiles else profiles_for local devices

  abbrev manifest_profiles : LocalAuthorizationRecord → Option (Option DeviceManifest) → List Text
  manifest_profiles local (some (some manifest)) = profiles_for local manifest.devices
  manifest_profiles local _ = local.profiles

  abbrev refreshed : IdentityRecord → Value → LocalAuthorizationRecord → LocalAuthorizationRecord
  refreshed r document local =
      if is_ok (local_authorization_matches r document local)
      then record local {
        profiles = manifest_profiles local (anp.validate_device_manifest document);
      }
      else local

  abbrev refreshed_option :
      IdentityRecord → Value → Option LocalAuthorizationRecord → Option LocalAuthorizationRecord
  refreshed_option r document none = none
  refreshed_option r document (some local) = some (refreshed r document local)

  unfoldable pub refresh_compatible_local_profiles : IdentityRecord → Value → IdentityRecord
  refresh_compatible_local_profiles r document = record r {
    local_authorization = refreshed_option r document r.local_authorization;
  }

-- `signing_kid` and `e2ee_kid`: the local keys that a revocation is about.
unfoldable pub revoked_kids : IdentityRecord → List Text
revoked_kids r = elim r.local_authorization [
  | some local ↦ local.signing_kid ∷ local.e2ee_kid ∷ []
  | none ↦ elim r.local_request_signing_kid [ some kid ↦ kid ∷ [] | none ↦ [] ]
]

abbrev pub revoke_key : List Text → KeyMetadata → KeyMetadata
revoke_key kids key = if contains kids key.kid then record key { state = KeyState.revoked } else key

unfoldable pub revoke_local_authorization : IdentityRecord → IdentityRecord
revoke_local_authorization r = record r { keys = map (revoke_key (revoked_kids r)) r.keys }
