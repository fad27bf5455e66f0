-- ===== src/Change/Spec.antt =====
-- crates/anp-identity/src/facade/document_change.rs: which lists of changes are accepted, and what
-- specification they come to.
use anp_identity.Candidate.{
  DeviceMutationSpec, DocumentUpdateSpec, RequestSigningMutationSpec, RequestSigningRotation,
  add_device, add_key, add_profiles, remove_device, remove_key,
}
use anp_identity.Change.{
  DocumentChange, add_authentication_key, add_device_change, add_device_profiles, collect_change,
  collect_changes, device_of, empty_spec, into_engine_spec, remove_authentication_key,
  remove_device_change, replace_services_change, rotate_signing_key,
}
use anp_identity.Errors.{err, ok}
use anp_identity.Facade.{IdentityResult, invalid_request}
use anp_identity.Input.{ServiceSpec}
use anp_identity.Prelude.{
  List, Option, Option-cases, [], ap, if◌then◌else◌, inl, inr, is_nil, none, refl, some, ◌++◌, ◌∷◌,
  ◌≡◌,
}

-- What the changes of one kind come to, in their order.
abbrev pub rotations : List DocumentChange → List RequestSigningRotation
rotations [] = []
rotations (rotate_signing_key old_kid new_fragment ∷ changes) =
    record { old_kid = old_kid; new_fragment = new_fragment } ∷ rotations changes
rotations (_ ∷ changes) = rotations changes

abbrev pub key_mutations : List DocumentChange → List RequestSigningMutationSpec
key_mutations [] = []
key_mutations (add_authentication_key key ∷ changes) = add_key key ∷ key_mutations changes
key_mutations (remove_authentication_key kid ∷ changes) = remove_key kid ∷ key_mutations changes
key_mutations (_ ∷ changes) = key_mutations changes

abbrev pub device_changes : List DocumentChange → List DeviceMutationSpec
device_changes [] = []
device_changes (add_device_change device ∷ changes) =
    add_device (device_of device) ∷ device_changes changes
device_changes (remove_device_change device_id ∷ changes) =
    remove_device device_id ∷ device_changes changes
device_changes (add_device_profiles device_id profiles ∷ changes) =
    add_profiles device_id profiles ∷ device_changes changes
device_changes (_ ∷ changes) = device_changes changes

abbrev pub service_lists : List DocumentChange → List (List ServiceSpec)
service_lists [] = []
service_lists (replace_services_change services ∷ changes) = services ∷ service_lists changes
service_lists (_ ∷ changes) = service_lists changes

-- A place that takes one value at most.
abbrev pub fill_once {ℓ} : {A : Type ℓ} → Option A → List A → Option (Option A)
fill_once o [] = some o
fill_once none (x ∷ xs) = fill_once (some x) xs
fill_once (some a) (x ∷ xs) = none

-- The reference: both single places are filled at most once, and the lists are appended.
abbrev pub spec_from :
    Option (Option RequestSigningRotation)
    → Option (Option (List ServiceSpec))
    → List RequestSigningMutationSpec
    → List DeviceMutationSpec
    → IdentityResult DocumentUpdateSpec
spec_from (some rotation) (some services) keys devices = ok (record {
  request_signing_rotation = rotation;
  request_signing_mutations = keys;
  device_mutations = devices;
  services = services;
})
spec_from none services keys devices = err invalid_request
spec_from (some rotation) none keys devices = err invalid_request

pub reference_spec : DocumentUpdateSpec → List DocumentChange → IdentityResult DocumentUpdateSpec
reference_spec s changes =
    spec_from (fill_once s.request_signing_rotation (rotations changes))
      (fill_once s.services (service_lists changes))
      (s.request_signing_mutations ++ key_mutations changes)
      (s.device_mutations ++ device_changes changes)

snoc-append {ℓ} :
    {A : Type ℓ} (xs : List A) (y : A) (zs : List A) → (xs ++ y ∷ []) ++ zs ≡ xs ++ y ∷ zs
snoc-append [] y zs = refl
snoc-append (x ∷ xs) y zs = ap (λ ws. x ∷ ws) (snoc-append xs y zs)

append_nil {ℓ} : {A : Type ℓ} (xs : List A) → xs ++ [] ≡ xs
append_nil [] = refl
append_nil (x ∷ xs) = ap (λ ys. x ∷ ys) (append_nil xs)

spec_from-none :
    (rotation : Option (Option RequestSigningRotation)) (keys : List RequestSigningMutationSpec)
    (devices : List DeviceMutationSpec)
    → err invalid_request ≡ spec_from rotation none keys devices
spec_from-none none keys devices = refl
spec_from-none (some rotation) keys devices = refl

collect_changes_lem :
    (changes : List DocumentChange) (s : DocumentUpdateSpec)
    → collect_changes changes s ≡ reference_spec s changes
unfolding collect_changes collect_change reference_spec
collect_changes_lem [] s =
    rw (append_nil s.request_signing_mutations, append_nil s.device_mutations) refl
collect_changes_lem (rotate_signing_key old_kid new_fragment ∷ changes) s =
    elim (Option-cases s.request_signing_rotation) [
      | inr (x, q) ↦ rw q refl
      | inl q ↦ rw q (
          collect_changes_lem changes (record s {
            request_signing_rotation =
                some (record { old_kid = old_kid; new_fragment = new_fragment });
          }))
    ]
collect_changes_lem (add_authentication_key key ∷ changes) s =
    let added = add_key key in
    let rest =
      collect_changes_lem changes
        (record s { request_signing_mutations = s.request_signing_mutations ++ added ∷ [] }) in
    rw (snoc-append s.request_signing_mutations added (key_mutations changes)) at rest
collect_changes_lem (remove_authentication_key kid ∷ changes) s =
    let added = remove_key kid in
    let rest =
      collect_changes_lem changes
        (record s { request_signing_mutations = s.request_signing_mutations ++ added ∷ [] }) in
    rw (snoc-append s.request_signing_mutations added (key_mutations changes)) at rest
collect_changes_lem (add_device_change device ∷ changes) s =
    let added = add_device (device_of device) in
    let rest =
      collect_changes_lem changes
        (record s { device_mutations = s.device_mutations ++ added ∷ [] }) in
    rw (snoc-append s.device_mutations added (device_changes changes)) at rest
collect_changes_lem (remove_device_change device_id ∷ changes) s =
    let added = remove_device device_id in
    let rest =
      collect_changes_lem changes
        (record s { device_mutations = s.device_mutations ++ added ∷ [] }) in
    rw (snoc-append s.device_mutations added (device_changes changes)) at rest
collect_changes_lem (add_device_profiles device_id profiles ∷ changes) s =
    let added = add_profiles device_id profiles in
    let rest =
      collect_changes_lem changes
        (record s { device_mutations = s.device_mutations ++ added ∷ [] }) in
    rw (snoc-append s.device_mutations added (device_changes changes)) at rest
collect_changes_lem (replace_services_change services ∷ changes) s =
    elim (Option-cases s.services) [
      | inr (x, q) ↦ rw q (spec_from-none _ _ _)
      | inl q ↦ rw q (collect_changes_lem changes (record s { services = some services }))
    ]

-- An application's list of changes is accepted exactly when it is not empty and asks for at most
-- one rotation and at most one list of services, and it then comes to the specification that holds
-- these, with the changes of keys and those of devices in the order in which they were asked for.
pub into_engine_spec_lem :
    (changes : List DocumentChange)
    → into_engine_spec changes
      ≡ (if is_nil changes then err invalid_request else reference_spec empty_spec changes)
unfolding into_engine_spec
into_engine_spec_lem [] = refl
into_engine_spec_lem (change ∷ changes) = collect_changes_lem (change ∷ changes) empty_spec
