-- ===== src/Candidate/Build.antt =====
-- crates/anp-identity/src/lifecycle.rs and document.rs: the candidate document of an update, with its
-- new proof. The fresh private key of a rotation is an argument, as are the time and the challenge of
-- the proof.
use anp_identity.Anp.{Anp, PublicKeyMaterial, ed25519}
use anp_identity.Candidate.{
  DocumentUpdateSpec, RequestSigningRotation, change_array, is_entry, method_json, push, to_items,
}
use anp_identity.Candidate.Devices.{Manifests, apply_device_mutations}
use anp_identity.Candidate.Keys.{apply_request_signing_mutations}
use anp_identity.Disk.{Disk}
use anp_identity.Disk.Transitions.{transition_state_eq}
use anp_identity.Document.{public_key_from_raw, validate_method_document}
use anp_identity.Errors.{
  DidResult, duplicate_kid, err, external_key_operation, invalid_extension, invalid_identity,
  invalid_public_key, key_not_found, key_not_usable, key_role_violation, ok, ok_or, refuse_if,
  unsupported_operation, ◌>>=◌, ◌>>◌,
}
use anp_identity.Input.{
  KeyRole, ServiceSpec, for_did, profile_eq, request_signing, role_eq, root_control,
  supports_root_control,
}
use anp_identity.Input.Fields.{validate_fragment}
use anp_identity.Input.Kid.{canonicalize_kid}
use anp_identity.Json.{
  Fields, Value, array, as_object, get_field, get_str, insert_field, items, object, object_of,
  remove_field, str_of, string, value_eq,
}
use anp_identity.KeyOps.{Curves, load_managed_secret, private_key}
use anp_identity.KeyOps.Proofs.{Proofs}
use anp_identity.Keystore.{secret_ref_eq}
use anp_identity.Prelude.{
  List, Option, [], any, false, find, if◌then◌else◌, is_nil, is_none, list_eq, map, nat_eq, none,
  not, option_eq, pair_eq, retain, some, ℕ, ◌++◌, ◌==◌, ◌∷◌,
}
use anp_identity.Registry.{
  IdentityRecord, KeyMetadata, KeyOrigin, KeyState, capability_eq, external, key_state_eq,
  origin_eq, publication_eq, state_eq, summary_eq,
}
use anp_identity.Text.{Text, lit, starts_with}

pub record PreparedRotation : Type 0 where
  pub old_kid : Text
  pub new_kid : Text
  -- `new_key`, by its secret bytes; its role is `RequestSigning`.
  pub new_secret : List ℕ

pub record CandidateChanges : Type 0 where
  pub document : Value
  pub added_keys : List (Text × KeyRole)
  pub retired_kids : List Text

unfoldable pub prepare_rotation :
    List ℕ → IdentityRecord → RequestSigningRotation → DidResult PreparedRotation
prepare_rotation fresh_secret r rotation = do
  old_kid ← canonicalize_kid r.did rotation.old_kid
  m ← ok_or key_not_found (find (λ m. m.kid == old_kid) r.keys)
  refuse_if (m.origin == external) external_key_operation
  refuse_if (m.role == root_control) unsupported_operation
  refuse_if (not (m.role == request_signing)) key_role_violation
  refuse_if (not (m.state == KeyState.active)) key_not_usable
  validate_fragment rotation.new_fragment
  new_kid ← canonicalize_kid r.did rotation.new_fragment
  refuse_if (any (λ m. m.kid == new_kid) r.keys) duplicate_kid
  ok (record { old_kid = old_kid; new_kid = new_kid; new_secret = fresh_secret })

abbrev hash_first : Text → Text
hash_first id = if starts_with (lit "#") id then id else b'#' ∷ id

abbrev texts : List Text → Value
texts ts = array (to_items (map string ts))

abbrev with_field : Text → Option Value → Fields → Fields
with_field k none m = m
with_field k (some v) m = insert_field k v m

abbrev did_value : Option Text → Option Value
did_value none = none
did_value (some t) = some (string t)

abbrev unless_nil : List Text → Option Value
unless_nil ts = if is_nil ts then none else some (texts ts)

unfoldable pub service_json : ServiceSpec → Fields
service_json s = with_field (lit "securityProfiles") (unless_nil s.security_profiles) (
    with_field (lit "profiles") (unless_nil s.profiles) (
      with_field (lit "serviceDid") (did_value s.service_did) (
        object_of (
          (lit "id", string (hash_first s.id))
          ∷ (lit "type", string s.service_type)
          ∷ (lit "serviceEndpoint", string s.service_endpoint)
          ∷ []))))

-- The identifier of a service in full.
abbrev full_service : Text → Fields → Value
full_service did m = elim (str_of (get_field (lit "id") m)) [
  | some id ↦
      if starts_with (lit "#") id
      then object (insert_field (lit "id") (string (did ++ id)) m)
      else object m
  | none ↦ object m
]

abbrev values_of : Option Value → List Value
values_of (some (array vs)) = items vs
values_of _ = []

-- The agent descriptions stay, and the new services follow.
unfoldable pub replace_services : Text → Option (List ServiceSpec) → Fields → Fields
replace_services did none m = m
replace_services did (some services) m =
    let kept =
      retain (λ v. get_str v (lit "type") == some (lit "AgentDescription"))
        (values_of (get_field (lit "service") m)) in
    let added = map (λ s. full_service did (service_json s)) services in
    insert_field (lit "service") (array (to_items (kept ++ added))) m

module _ ⦃anp : Anp⦄ where
  -- document.rs.
  unfoldable pub ed25519_public_multibase : PublicKeyMaterial → DidResult Text
  ed25519_public_multibase (ed25519 k) = ok (b'z' ∷ anp.base58 (0xed ∷ 0x01 ∷ k))
  ed25519_public_multibase _ = err invalid_public_key

  unfoldable pub document_key_metadata :
      Value → Text → KeyRole → KeyOrigin → Text → DidResult KeyMetadata
  document_key_metadata document kid role origin created_at = do
    method ← ok_or invalid_identity (anp.find_verification_method document kid)
    encoded ← ok_or invalid_public_key (get_str method (lit "publicKeyMultibase"))
    ok (record {
      kid = kid;
      role = role;
      origin = origin;
      state = KeyState.active;
      material_erased = false;
      version = 1;
      public_key_multibase = encoded;
      created_at = created_at;
    })

  unfoldable pub enter_rotation : Text → Option PreparedRotation → Fields → DidResult Fields
  enter_rotation did none m = ok m
  enter_rotation did (some rotation) m = do
    encoded ← ed25519_public_multibase (public_key_from_raw request_signing rotation.new_secret)
    a ←
        change_array (lit "verificationMethod")
          (push (method_json rotation.new_kid (lit "Multikey") did encoded)) m
    change_array (lit "authentication")
        (λ vs. push (string rotation.new_kid) (retain (λ v. not (is_entry rotation.old_kid v)) vs))
        a

  module _ ⦃curves : Curves⦄ ⦃proofs : Proofs⦄ where
    unfoldable pub sign_root_document :
        Text → Text → Value → Text → List ℕ → Option Text → DidResult Value
    sign_root_document now challenge document root_kid root_secret domain = do
      key ← private_key root_secret
      draft ← ok_or invalid_identity (
          proofs.prepare_w3c_proof document (ed25519 (anp.ed25519_public key)) root_kid (record {
            proof_purpose = some (lit "assertionMethod");
            proof_type = some proofs.data_integrity;
            cryptosuite = some proofs.eddsa_jcs_2022;
            created = some now;
            proof_domain = domain;
            challenge = some challenge;
          }))
      ok_or invalid_identity
          (proofs.complete_w3c_proof draft (curves.ed25519_sign key (proofs.w3c_input draft)))

    abbrev domain_of : Option Value → Option Text
    domain_of none = none
    domain_of (some v) = get_str v (lit "domain")

    -- An E1 document gets a new proof of its root key; a Web document has none.
    unfoldable pub sign_candidate :
        List ℕ
        → Text
        → Text
        → IdentityRecord
        → IdentityRecord
        → Option Text
        → Value
        → Disk
        → DidResult Value
    sign_candidate root_key now challenge held r domain document d = do
      profile ← for_did r.did
      if supports_root_control profile
          then (do
            root ← ok_or invalid_identity (find (λ m. m.role == root_control) r.keys)
            secret ← load_managed_secret root_key held root d
            sign_root_document now challenge document root.kid secret domain)
          else ok document

    module _ ⦃manifests : Manifests⦄ where
      unfoldable pub build_candidate_document :
          List ℕ
          → Text
          → Text
          → IdentityRecord
          → IdentityRecord
          → Option PreparedRotation
          → DocumentUpdateSpec
          → Disk
          → DidResult CandidateChanges
      build_candidate_document root_key now challenge held r rotation spec d = do
        fields ← ok_or invalid_identity (as_object r.document)
        let domain = domain_of (get_field (lit "proof") fields)
        rotated ← enter_rotation r.did rotation (remove_field (lit "proof") fields)
        keyed ←
            apply_request_signing_mutations r spec.request_signing_mutations
              (record { fields = rotated; changes = record { added_keys = []; retired_kids = [] } })
        peopled ← apply_device_mutations r spec.device_mutations keyed.fields
        let unsigned = object (replace_services r.did spec.services peopled.0)
        signed ← sign_candidate root_key now challenge held r domain unsigned d
        _ ← validate_method_document signed
        refuse_if (is_none (anp.validate_device_manifest signed)) invalid_extension
        ok (record {
          document = signed;
          added_keys = keyed.changes.added_keys ++ peopled.1.added_keys;
          retired_kids = keyed.changes.retired_kids ++ peopled.1.retired_kids;
        })
