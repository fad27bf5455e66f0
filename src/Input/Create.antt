-- ===== src/Input/Create.antt =====
-- crates/anp-identity/src/input.rs: `DidCreateSpec::validate` and `validate_for_did`.
pub mod Laws
use anp_identity.Anp.{Anp, PublicKeyMaterial, ed25519, x25519}
use anp_identity.Errors.{
  DidResult, duplicate_kid, empty_path, err, external_root_control, invalid_managed_root_count,
  invalid_public_key, invalid_service, missing_managed_request_signing, ok, ok_or, refuse_if, ◌>>=◌,
  ◌>>◌,
}
use anp_identity.Input.{
  DidCreateSpec, ExternalPublicKeyMaterial, ExternalPublicKeySpec, KeyRole, ManagedKeySpec,
  device_signing, e1, e2ee_agreement, e2ee_signing, jwk, multibase, profile_eq, request_signing,
  role_eq, root_control, supports_root_control,
}
use anp_identity.Input.Fields.{
  byte_len, max_service_value_len, validate_domain, validate_extension, validate_fragment,
  validate_path_segment, validate_service,
}
use anp_identity.Input.Kid.{validate_unique_kids}
use anp_identity.Json.{Value, object, object_of, string, value_eq}
use anp_identity.Prelude.{
  Bool, List, [], any, contains, false, if◌then◌else◌, is_nil, is_some_and, list_eq, ltb, map,
  nat_eq, not, option_eq, pair_eq, suc, true, ℕ, ◌&&◌, ◌++◌, ◌==◌, ◌||◌, ◌∷◌,
}
use anp_identity.Text.{Text, is_blank, lit}

-- `iter().filter(p).count()` and `any` over the roles of keys.
abbrev pub count_role : KeyRole → List ManagedKeySpec → ℕ
count_role r [] = 0
count_role r (k ∷ ks) = let rest = count_role r ks in if k.role == r then suc rest else rest

-- `usize::from(bool)`.
abbrev pub from_bool : Bool → ℕ
from_bool true = 1
from_bool false = 0

-- `for x in xs { check(x)?; }`.
unfoldable pub check_each {ℓ} :
    {A : Type ℓ} → (A → DidResult (Unit {0})) → List A → DidResult (Unit {0})
check_each check [] = ok tt
check_each check (x ∷ xs) = check x >>= λ _. check_each check xs

-- The loop over the managed keys; `seen` is the set of their fragments so far.
unfoldable pub check_managed : List Text → List ManagedKeySpec → DidResult (Unit {0})
check_managed seen [] = ok tt
check_managed seen (k ∷ ks) = elim (validate_fragment k.fragment) [
  | err e ↦ err e
  | ok _ ↦
      if contains seen k.fragment then err duplicate_kid else check_managed (k.fragment ∷ seen) ks
]

unfoldable pub url_is_bad : Text → Bool
url_is_bad value = is_blank value || ltb max_service_value_len (byte_len value)

abbrev pub is_request_capable : ManagedKeySpec → Bool
is_request_capable k = k.role == device_signing || k.role == request_signing

module _ ⦃anp : Anp⦄ where
  -- The verification method that `parse_public_key` has parsed.
  unfoldable pub external_method : Text → ExternalPublicKeyMaterial → Value
  unfolding object_of
  external_method method_type (multibase value) = object (
      object_of (
        (lit "id", string (lit "#external"))
        ∷ (lit "type", string method_type)
        ∷ (lit "publicKeyMultibase", string value)
        ∷ []))
  external_method method_type (jwk k) = object (
      object_of (
        (lit "id", string (lit "#external"))
        ∷ (lit "type", string (lit "JsonWebKey2020"))
        ∷ (
          lit "publicKeyJwk",
          object (
              object_of (
                (lit "kty", string k.kty)
                ∷ (lit "crv", string k.crv)
                ∷ (lit "x", string k.x)
                ∷ [])),
        )
        ∷ []))

  -- `match self.role`: the type of the method, or the refusal of a root key.
  abbrev pub method_type_of : KeyRole → DidResult Text
  method_type_of root_control = err external_root_control
  method_type_of e2ee_agreement = ok (lit "X25519KeyAgreementKey2019")
  method_type_of _ = ok (lit "Multikey")

  -- The curve that a role wants.
  abbrev pub match_curve : KeyRole → PublicKeyMaterial → DidResult PublicKeyMaterial
  match_curve device_signing (ed25519 k) = ok (ed25519 k)
  match_curve request_signing (ed25519 k) = ok (ed25519 k)
  match_curve e2ee_signing (ed25519 k) = ok (ed25519 k)
  match_curve e2ee_agreement (x25519 k) = ok (x25519 k)
  match_curve _ _ = err invalid_public_key

  -- `ExternalPublicKeySpec::parse_public_key`.
  unfoldable pub parse_public_key : ExternalPublicKeySpec → DidResult PublicKeyMaterial
  parse_public_key spec = do
    refuse_if (spec.role == root_control) external_root_control
    method_type ← method_type_of spec.role
    key ←
        ok_or invalid_public_key
          (anp.extract_public_key (external_method method_type spec.material))
    match_curve spec.role key

  abbrev pub check_external : ExternalPublicKeySpec → DidResult (Unit {0})
  check_external spec = parse_public_key spec >>= λ _. ok tt

  -- `DidCreateSpec::validate`.
  unfoldable pub validate_create : DidCreateSpec → DidResult (Unit {0})
  validate_create spec = do
    validate_domain spec.domain
    refuse_if (spec.profile == e1 && is_nil spec.path_segments) empty_path
    check_each validate_path_segment spec.path_segments
    refuse_if
        (not (
          count_role root_control spec.managed_keys
          == from_bool (supports_root_control spec.profile)))
        invalid_managed_root_count
    refuse_if (any (λ key. key.role == root_control) spec.external_keys) external_root_control
    refuse_if (spec.capabilities.did_wba && not (any is_request_capable spec.managed_keys))
        missing_managed_request_signing
    check_managed [] spec.managed_keys
    check_each check_external spec.external_keys
    check_each validate_service spec.services
    refuse_if (is_some_and url_is_bad spec.agent_description_url) invalid_service
    check_each validate_extension spec.extensions

  -- `DidCreateSpec::validate_for_did`.
  unfoldable pub validate_for_did : DidCreateSpec → Text → DidResult (Unit {0})
  validate_for_did spec did = do
    validate_create spec
    validate_unique_kids did
        (map (λ key. key.fragment) spec.managed_keys ++ map (λ key. key.kid) spec.external_keys)
