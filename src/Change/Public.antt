-- ===== src/Change/Public.antt =====
-- crates/anp-identity/src/facade/types.rs and identity.rs: what an application sees of an identity.
use anp_identity.Disk.Transitions.{transition_state_eq}
use anp_identity.Errors.{err, ok, ◌>>=◌}
use anp_identity.Facade.{IdentityResult, corrupt_state}
use anp_identity.Input.{
  Capabilities, KeyRole, device_signing, e2ee_agreement, e2ee_signing, profile_eq, request_signing,
  role_eq, root_control,
}
use anp_identity.Json.{Value, value_eq}
use anp_identity.Keystore.{secret_ref_eq}
use anp_identity.Prelude.{
  List, [], if◌then◌else◌, list_eq, nat_eq, not, option_eq, pair_eq, ℕ, ◌==◌, ◌||◌, ◌∷◌,
}
use anp_identity.Registry.{
  IdentityRecord, IdentityState, KeyMetadata, KeyState, capability_eq, key_state_eq, origin_eq,
  publication_eq, state_eq, summary_eq,
}
use anp_identity.Text.{Text}
use anp_identity.Transition.Prepare.{IdentityRef}

pub data PublicIdentityState : Type 0 where
  public_enrolling public_active public_revoked : PublicIdentityState

pub data KeyAlgorithm : Type 0 where
  ed25519_key x25519_key : KeyAlgorithm

pub data KeyPurpose : Type 0 where
  root_purpose authentication device_assertion application_assertion agreement : KeyPurpose

pub record PublicKeyDescriptor : Type 0 where
  pub kid : Text
  pub algorithm : KeyAlgorithm
  pub purposes : List KeyPurpose

pub record PublicIdentity : Type 0 where
  pub reference : IdentityRef
  pub state : PublicIdentityState
  pub revision : ℕ
  pub document : Value
  pub active_keys : List PublicKeyDescriptor
  pub capabilities : Capabilities

unfoldable pub public_state : IdentityState → IdentityResult PublicIdentityState
public_state IdentityState.enrolling = ok public_enrolling
public_state IdentityState.active = ok public_active
public_state IdentityState.revoked = ok public_revoked
public_state IdentityState.creating = err corrupt_state

abbrev purposes_of : KeyRole → KeyAlgorithm × List KeyPurpose
purposes_of root_control = (ed25519_key, root_purpose ∷ [])
purposes_of device_signing = (ed25519_key, authentication ∷ device_assertion ∷ [])
purposes_of request_signing = (ed25519_key, authentication ∷ application_assertion ∷ [])
purposes_of e2ee_signing = (ed25519_key, application_assertion ∷ [])
purposes_of e2ee_agreement = (x25519_key, agreement ∷ [])

-- `PublicKeyDescriptor::from_metadata`, for `filter_map`.
unfoldable pub descriptors : List KeyMetadata → List PublicKeyDescriptor
descriptors [] = []
descriptors (k ∷ keys) =
    let rest = descriptors keys in
    if not (k.state == KeyState.active) || k.material_erased
    then rest
    else record {
      kid = k.kid;
      algorithm = (purposes_of k.role).0;
      purposes = (purposes_of k.role).1;
    }
      ∷ rest

unfoldable pub project_public_identity : Text → IdentityRecord → IdentityResult PublicIdentity
project_public_identity store_id r = do
  state ← public_state r.state
  ok (record {
    reference = record { store_id = store_id; identity_id = r.identity_id; did = r.did };
    state = state;
    revision = r.revision;
    document = r.document;
    active_keys = descriptors r.keys;
    capabilities = r.capabilities;
  })
