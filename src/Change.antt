-- ===== src/Change.antt =====
-- crates/anp-identity/src/facade/document_change.rs and types.rs: the changes that an application asks
-- for, and the specification of the engine that they come to.
pub mod Spec
pub mod Public
pub mod Sessions
pub mod Current
pub mod Outcomes
pub mod Retry
use anp_identity.Candidate.{
  DeviceAddSpec, DocumentUpdateSpec, PublicKeySpec, add_device, add_key, add_profiles,
  remove_device, remove_key,
}
use anp_identity.Errors.{err, ok, refuse_if, ◌>>=◌, ◌>>◌}
use anp_identity.Facade.{IdentityResult, invalid_request}
use anp_identity.Input.{ServiceSpec}
use anp_identity.Prelude.{List, [], if◌then◌else◌, is_nil, is_some, none, some, ◌++◌, ◌∷◌}
use anp_identity.Text.{Text}

pub record DeviceInput : Type 0 where
  pub device_id : Text
  pub signing_key : PublicKeySpec
  pub agreement_key : PublicKeySpec
  pub profiles : List Text

-- `IdentityService` has the fields of `ServiceSpec`, and `PublicKeyInput` those of a `PublicKeySpec`.
pub data DocumentChange : Type 0 where
  rotate_signing_key : Text → Text → DocumentChange
  add_authentication_key : PublicKeySpec → DocumentChange
  remove_authentication_key : Text → DocumentChange
  add_device_change : DeviceInput → DocumentChange
  remove_device_change : Text → DocumentChange
  add_device_profiles : Text → List Text → DocumentChange
  replace_services_change : List ServiceSpec → DocumentChange

abbrev pub device_of : DeviceInput → DeviceAddSpec
device_of d = record {
  device_id = d.device_id;
  signing_key = d.signing_key;
  e2ee_key = d.agreement_key;
  profiles = d.profiles;
}

-- One turn of the loop of `into_engine_spec`.
unfoldable pub collect_change :
    DocumentChange → DocumentUpdateSpec → IdentityResult DocumentUpdateSpec
collect_change (rotate_signing_key old_kid new_fragment) s =
    if is_some s.request_signing_rotation
    then err invalid_request
    else ok (record s {
      request_signing_rotation = some (record { old_kid = old_kid; new_fragment = new_fragment });
    })
collect_change (add_authentication_key key) s =
    ok (record s { request_signing_mutations = s.request_signing_mutations ++ add_key key ∷ [] })
collect_change (remove_authentication_key kid) s =
    ok (record s { request_signing_mutations = s.request_signing_mutations ++ remove_key kid ∷ [] })
collect_change (add_device_change device) s =
    ok (record s { device_mutations = s.device_mutations ++ add_device (device_of device) ∷ [] })
collect_change (remove_device_change device_id) s =
    ok (record s { device_mutations = s.device_mutations ++ remove_device device_id ∷ [] })
collect_change (add_device_profiles device_id profiles) s =
    ok (record s { device_mutations = s.device_mutations ++ add_profiles device_id profiles ∷ [] })
collect_change (replace_services_change services) s =
    if is_some s.services then err invalid_request else ok (record s { services = some services })

unfoldable pub collect_changes :
    List DocumentChange → DocumentUpdateSpec → IdentityResult DocumentUpdateSpec
collect_changes [] s = ok s
collect_changes (change ∷ changes) s = collect_change change s >>= λ t. collect_changes changes t

abbrev pub empty_spec : DocumentUpdateSpec
empty_spec = record {
  request_signing_rotation = none;
  request_signing_mutations = [];
  device_mutations = [];
  services = none;
}

unfoldable pub into_engine_spec : List DocumentChange → IdentityResult DocumentUpdateSpec
into_engine_spec changes = do
  refuse_if (is_nil changes) invalid_request
  collect_changes changes empty_spec
