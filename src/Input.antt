-- ===== src/Input.antt =====
-- crates/anp-identity/src/input.rs: what a caller hands in to create an identity.
pub mod Fields
pub mod Kid
pub mod Create
use anp_identity.Anp.{Anp}
use anp_identity.Errors.{DidResult, err, invalid_identity, ok}
use anp_identity.Json.{value_eq}
use anp_identity.Prelude.{
  Bool, Eq, List, Option, arith, by_rank, if◌then◌else◌, list_eq, nat_eq, option_eq, pair_eq, ℕ,
  ◌&&◌, ◌==◌, ◌≡◌,
}
use anp_identity.Text.{Text, lit, starts_with}

pub data DidProfile : Type 0 where
  e1 web : DidProfile

pub data KeyRole : Type 0 where
  root_control device_signing request_signing e2ee_signing e2ee_agreement : KeyRole

abbrev profile_rank : DidProfile → ℕ
profile_rank e1 = 0
profile_rank web = 1

pub profile_rank_inj : (a b : DidProfile) → profile_rank a ≡ profile_rank b → a ≡ b
profile_rank_inj a b h = ground arith

instance abbrev pub profile_eq : Eq DidProfile
profile_eq = by_rank profile_rank profile_rank_inj

abbrev role_rank : KeyRole → ℕ
role_rank root_control = 0
role_rank device_signing = 1
role_rank request_signing = 2
role_rank e2ee_signing = 3
role_rank e2ee_agreement = 4

pub role_rank_inj : (a b : KeyRole) → role_rank a ≡ role_rank b → a ≡ b
role_rank_inj a b h = ground arith

instance abbrev pub role_eq : Eq KeyRole
role_eq = by_rank role_rank role_rank_inj

abbrev pub supports_root_control : DidProfile → Bool
supports_root_control p = p == e1

pub record Capabilities : Type 0 where
  pub did_wba : Bool

pub record ManagedKeySpec : Type 0 where
  pub fragment : Text
  pub role : KeyRole

pub record PublicOkpJwk : Type 0 where
  pub kty : Text
  pub crv : Text
  pub x : Text

pub data ExternalPublicKeyMaterial : Type 0 where
  multibase : Text → ExternalPublicKeyMaterial
  jwk : PublicOkpJwk → ExternalPublicKeyMaterial

pub record ExternalPublicKeySpec : Type 0 where
  pub kid : Text
  pub role : KeyRole
  pub material : ExternalPublicKeyMaterial

pub record ServiceSpec : Type 0 where
  pub id : Text
  pub service_type : Text
  pub service_endpoint : Text
  pub service_did : Option Text
  pub profiles : List Text
  pub security_profiles : List Text

pub record DeviceManifestEntrySpec : Type 0 where
  pub device_id : Text
  pub signing_key_id : Text
  pub e2ee_key_id : Text
  pub profiles : List Text

pub data DidExtensionSpec : Type 0 where
  device_manifest : List DeviceManifestEntrySpec → DidExtensionSpec

pub record DidCreateSpec : Type 0 where
  pub profile : DidProfile
  pub domain : Text
  pub port : Option ℕ
  pub path_segments : List Text
  pub capabilities : Capabilities
  pub managed_keys : List ManagedKeySpec
  pub external_keys : List ExternalPublicKeySpec
  pub services : List ServiceSpec
  pub agent_description_url : Option Text
  pub extensions : List DidExtensionSpec

module _ ⦃anp : Anp⦄ where
  -- `DidProfile::for_did`.
  unfoldable pub for_did : Text → DidResult DidProfile
  for_did did =
      if starts_with (lit "did:wba:") did
      then ok e1
      else if starts_with (lit "did:web:") did && anp.did_web_resolution_url_is_ok did
      then ok web
      else err invalid_identity
