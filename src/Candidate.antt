-- ===== src/Candidate.antt =====
-- crates/anp-identity/src/lifecycle.rs: the changes of a document that an update asks for, and the
-- parts of a document that they touch.
pub mod Keys
pub mod Devices
pub mod Build
pub mod Plan
pub mod Prepare
pub mod Roster
pub mod Updates
pub mod Manifest
pub mod Written
use anp_identity.Disk.Transitions.{transition_state_eq}
use anp_identity.Document.{public_key_multibase}
use anp_identity.Errors.{DidResult, err, invalid_identity, ok, ◌>>=◌, ◌>>◌}
use anp_identity.Input.{KeyRole, ServiceSpec, profile_eq, role_eq}
use anp_identity.Json.{
  Fields, Items, Value, array, as_str, cons, get_field, get_str, insert_field, items, nil, object,
  object_of, string, value_eq,
}
use anp_identity.Keystore.{secret_ref_eq}
use anp_identity.Prelude.{
  Bool, List, Option, [], any, false, list_eq, nat_eq, option_eq, pair_eq, some, ◌++◌, ◌==◌, ◌∷◌,
}
use anp_identity.Registry.{
  capability_eq, key_state_eq, origin_eq, publication_eq, state_eq, summary_eq,
}
use anp_identity.Text.{Text, lit}

pub record RequestSigningRotation : Type 0 where
  pub old_kid : Text
  pub new_fragment : Text

-- `RequestSigningPublicKeySpec` and `DevicePublicKeySpec`, which have the same fields.
pub record PublicKeySpec : Type 0 where
  pub kid : Text
  pub public_key_multibase : Text

pub data RequestSigningMutationSpec : Type 0 where
  add_key : PublicKeySpec → RequestSigningMutationSpec
  remove_key : Text → RequestSigningMutationSpec

pub record DeviceAddSpec : Type 0 where
  pub device_id : Text
  pub signing_key : PublicKeySpec
  pub e2ee_key : PublicKeySpec
  pub profiles : List Text

pub data DeviceMutationSpec : Type 0 where
  add_device : DeviceAddSpec → DeviceMutationSpec
  remove_device : Text → DeviceMutationSpec
  add_profiles : Text → List Text → DeviceMutationSpec

pub record DocumentUpdateSpec : Type 0 where
  pub request_signing_rotation : Option RequestSigningRotation
  pub request_signing_mutations : List RequestSigningMutationSpec
  pub device_mutations : List DeviceMutationSpec
  pub services : Option (List ServiceSpec)

pub record DeviceChanges : Type 0 where
  pub added_keys : List (Text × KeyRole)
  pub retired_kids : List Text

-- An array of a document, changed in place.
abbrev pub to_items : List Value → Items
to_items [] = nil
to_items (v ∷ vs) = cons v (to_items vs)

abbrev array_at : Option Value → DidResult (List Value)
array_at (some (array vs)) = ok (items vs)
array_at _ = err invalid_identity

-- `methods_mut` and `relationship_mut`, with the change that follows.
unfoldable pub change_array : Text → (List Value → List Value) → Fields → DidResult Fields
change_array name change m = do
  vs ← array_at (get_field name m)
  ok (insert_field name (array (to_items (change vs))) m)

abbrev pub push : Value → List Value → List Value
push v vs = vs ++ v ∷ []

abbrev pub has_id : Text → Value → Bool
has_id kid method = get_str method (lit "id") == some kid

abbrev pub is_entry : Text → Value → Bool
is_entry kid entry = as_str entry == some kid

unfoldable pub method_exists : Fields → Text → Bool
method_exists m kid = elim (array_at (get_field (lit "verificationMethod") m)) [
  | ok methods ↦ any (has_id kid) methods
  | err _ ↦ false
]

-- The `json!` of a verification method.
unfoldable pub method_json : Text → Text → Text → Text → Value
method_json kid type controller encoded_key = object (
    object_of (
      (lit "id", string kid)
      ∷ (lit "type", string type)
      ∷ (lit "controller", string controller)
      ∷ (lit "publicKeyMultibase", string encoded_key)
      ∷ []))

-- The method that a public key is parsed from.
unfoldable pub bare_method : Text → Text → Text → Value
bare_method kid type encoded_key = object (
    object_of (
      (lit "id", string kid)
      ∷ (lit "type", string type)
      ∷ (lit "publicKeyMultibase", string encoded_key)
      ∷ []))
