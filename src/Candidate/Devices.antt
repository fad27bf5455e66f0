-- ===== src/Candidate/Devices.antt =====
-- crates/anp-identity/src/lifecycle.rs: adding devices, removing them, and adding to their profiles.
use anp_identity.Anp.{Anp, DeviceManifest, DeviceManifestEntry, PublicKeyMaterial, ed25519, x25519}
use anp_identity.Candidate.{
  DeviceAddSpec, DeviceChanges, DeviceMutationSpec, add_device, add_profiles, bare_method,
  change_array, has_id, is_entry, method_exists, method_json, push, remove_device,
}
use anp_identity.Disk.Transitions.{transition_state_eq}
use anp_identity.Errors.{
  DidResult, duplicate_kid, err, invalid_extension, invalid_public_key, key_not_found,
  key_role_violation, ok, ok_or, refuse_if, unsupported_operation, ◌>>=◌, ◌>>◌,
}
use anp_identity.Input.{KeyRole, device_signing, e2ee_agreement, profile_eq, role_eq}
use anp_identity.Input.Kid.{canonicalize_kid}
use anp_identity.Json.{Fields, Value, get_field, insert_field, remove_field, string, value_eq}
use anp_identity.Keystore.{secret_ref_eq}
use anp_identity.Prelude.{
  Bool, List, Option, [], any, contains, false, if◌then◌else◌, is_nil, is_some_and, list_eq, nat_eq,
  none, not, option_eq, pair_eq, retain, some, true, ◌&&◌, ◌++◌, ◌==◌, ◌||◌, ◌∷◌,
}
use anp_identity.Registry.{
  IdentityRecord, capability_eq, key_state_eq, origin_eq, publication_eq, state_eq, summary_eq,
}
use anp_identity.Text.{Text, is_blank, lit, trim}

-- `serde_json` on `anp::authentication::DeviceManifest`, and the `DEVICE_MANIFEST_TYPE` of `anp`.
pub record Manifests : Type 0 where
  pub manifest_from_value : Value → Option DeviceManifest
  pub manifest_to_value : DeviceManifest → Option Value
  pub device_manifest_type : Text

pub record DeviceProgress : Type 0 where
  pub fields : Fields
  pub manifest : Option DeviceManifest
  pub changes : DeviceChanges
  pub retired_device_ids : List Text

abbrev pub devices_of : Option DeviceManifest → List DeviceManifestEntry
devices_of none = []
devices_of (some manifest) = manifest.devices

-- `text.trim().is_empty() || text.trim() != text`.
abbrev pub is_untrimmed : Text → Bool
is_untrimmed text = is_blank text || not (trim text == text)

unfoldable pub validate_device_add : DeviceAddSpec → DidResult (Unit {0})
validate_device_add device =
    refuse_if
      (is_untrimmed device.device_id || (is_nil device.profiles || any is_blank device.profiles))
      invalid_extension

-- The profiles that an entry does not have yet are put behind its own.
unfoldable pub join_profiles : List Text → List Text → List Text
join_profiles own [] = own
join_profiles own (profile ∷ profiles) =
    join_profiles (if contains own profile then own else own ++ profile ∷ []) profiles

-- The first device with the identifier, changed; `none` if there is none.
abbrev cons_device :
    DeviceManifestEntry → Option (List DeviceManifestEntry) → Option (List DeviceManifestEntry)
cons_device device none = none
cons_device device (some devices) = some (device ∷ devices)

unfoldable pub extend_device :
    Text → List Text → List DeviceManifestEntry → Option (List DeviceManifestEntry)
extend_device device_id profiles [] = none
extend_device device_id profiles (device ∷ devices) =
    let rest = extend_device device_id profiles devices in
    if device.device_id == device_id
    then some (record device { profiles = join_profiles device.profiles profiles } ∷ devices)
    else cons_device device rest

-- `devices.remove(index)` at the first device with the identifier.
abbrev pub cons_taken_out :
    DeviceManifestEntry
    → Option (DeviceManifestEntry × List DeviceManifestEntry)
    → Option (DeviceManifestEntry × List DeviceManifestEntry)
cons_taken_out device none = none
cons_taken_out device (some (removed, devices)) = some (removed, device ∷ devices)

unfoldable pub take_device :
    Text → List DeviceManifestEntry → Option (DeviceManifestEntry × List DeviceManifestEntry)
take_device device_id [] = none
take_device device_id (device ∷ devices) =
    let rest = take_device device_id devices in
    if device.device_id == device_id then some (device, devices) else cons_taken_out device rest

module _ ⦃anp : Anp⦄ where
  abbrev device_method : Text → Text → KeyRole → DidResult Value
  device_method kid encoded_key device_signing = ok (bare_method kid (lit "Multikey") encoded_key)
  device_method kid encoded_key e2ee_agreement =
      ok (bare_method kid (lit "X25519KeyAgreementKey2019") encoded_key)
  device_method kid encoded_key _ = err key_role_violation

  abbrev curve_matches : KeyRole → PublicKeyMaterial → Bool
  curve_matches device_signing (ed25519 k) = true
  curve_matches e2ee_agreement (x25519 k) = true
  curve_matches _ _ = false

  unfoldable pub validate_device_public_key : Text → Text → KeyRole → DidResult (Unit {0})
  validate_device_public_key kid encoded_key role = do
    method ← device_method kid encoded_key role
    public ← ok_or invalid_public_key (anp.extract_public_key method)
    refuse_if (not (curve_matches role public)) invalid_public_key

  -- The arrays of the document that a new device enters.
  unfoldable pub enter_device :
      IdentityRecord → DeviceAddSpec → Text → Text → Fields → DidResult Fields
  enter_device r device signing_kid e2ee_kid m = do
    a ←
        change_array (lit "verificationMethod")
          (λ vs.
            vs
            ++ method_json signing_kid (lit "Multikey") r.did
                device.signing_key.public_key_multibase
              ∷ method_json e2ee_kid (lit "X25519KeyAgreementKey2019") r.did
                  device.e2ee_key.public_key_multibase
              ∷ [])
          m
    b ← change_array (lit "authentication") (push (string signing_kid)) a
    c ← change_array (lit "assertionMethod") (push (string signing_kid)) b
    change_array (lit "keyAgreement") (push (string e2ee_kid)) c

  -- And those that it leaves.
  unfoldable pub leave_device : DeviceManifestEntry → Fields → DidResult Fields
  leave_device device m = do
    a ←
        change_array (lit "verificationMethod")
          (retain (λ v. not (has_id device.signing_key_id v) && not (has_id device.e2ee_key_id v)))
          m
    b ← change_array (lit "authentication") (retain (λ v. not (is_entry device.signing_key_id v))) a
    c ←
        change_array (lit "assertionMethod") (retain (λ v. not (is_entry device.signing_key_id v)))
          b
    change_array (lit "keyAgreement") (retain (λ v. not (is_entry device.e2ee_key_id v))) c

  module _ ⦃manifests : Manifests⦄ where
    abbrev pub manifest_or_new : Option DeviceManifest → DeviceManifest
    manifest_or_new (some manifest) = manifest
    manifest_or_new none = record { manifest_type = manifests.device_manifest_type; devices = [] }

    unfoldable pub extend_profiles : Text → List Text → DeviceProgress → DidResult DeviceProgress
    extend_profiles device_id profiles s = do
      refuse_if (is_nil profiles || any is_untrimmed profiles) invalid_extension
      devices ← ok_or key_not_found (extend_device device_id profiles (devices_of s.manifest))
      ok (record s { manifest = some (record (manifest_or_new s.manifest) { devices = devices }) })

    unfoldable pub insert_device :
        IdentityRecord → DeviceAddSpec → DeviceProgress → DidResult DeviceProgress
    insert_device r device s = do
      validate_device_add device
      signing_kid ← canonicalize_kid r.did device.signing_key.kid
      e2ee_kid ← canonicalize_kid r.did device.e2ee_key.kid
      refuse_if
          (contains s.retired_device_ids device.device_id
            || (signing_kid == e2ee_kid
                || (any (λ key. key.kid == signing_kid || key.kid == e2ee_kid) r.keys
                    || (method_exists s.fields signing_kid
                        || (method_exists s.fields e2ee_kid
                            || any (λ entry. entry.device_id == device.device_id)
                                (devices_of s.manifest))))))
          duplicate_kid
      validate_device_public_key signing_kid device.signing_key.public_key_multibase device_signing
      validate_device_public_key e2ee_kid device.e2ee_key.public_key_multibase e2ee_agreement
      fields ← enter_device r device signing_kid e2ee_kid s.fields
      let entry : DeviceManifestEntry = record {
        device_id = device.device_id;
        signing_key_id = signing_kid;
        e2ee_key_id = e2ee_kid;
        profiles = device.profiles;
      }
      ok (record s {
        fields = fields;
        manifest =
            some (record (manifest_or_new s.manifest) {
              devices = devices_of s.manifest ++ entry ∷ [];
            });
        changes = record s.changes {
          added_keys =
              s.changes.added_keys
              ++ (signing_kid, device_signing) ∷ (e2ee_kid, e2ee_agreement) ∷ [];
        };
      })

    unfoldable pub drop_device : IdentityRecord → Text → DeviceProgress → DidResult DeviceProgress
    drop_device r device_id s = do
      refuse_if (is_untrimmed device_id) invalid_extension
      refuse_if (is_some_and (λ local. local.device_id == device_id) r.local_authorization)
          unsupported_operation
      taken ← ok_or key_not_found (take_device device_id (devices_of s.manifest))
      let removed = taken.0
      fields ← leave_device removed s.fields
      ok (record {
        fields = fields;
        manifest = some (record (manifest_or_new s.manifest) { devices = taken.1 });
        changes = record s.changes {
          retired_kids =
              s.changes.retired_kids ++ removed.signing_key_id ∷ removed.e2ee_key_id ∷ [];
        };
        retired_device_ids = s.retired_device_ids ++ removed.device_id ∷ [];
      })

    abbrev pub device_step :
        IdentityRecord → DeviceMutationSpec → DeviceProgress → DidResult DeviceProgress
    device_step r (add_profiles device_id profiles) s = extend_profiles device_id profiles s
    device_step r (add_device device) s = insert_device r device s
    device_step r (remove_device device_id) s = drop_device r device_id s

    unfoldable pub device_steps :
        IdentityRecord → List DeviceMutationSpec → DeviceProgress → DidResult DeviceProgress
    device_steps r [] s = ok s
    device_steps r (mutation ∷ mutations) s =
        device_step r mutation s >>= λ t. device_steps r mutations t

    abbrev pub parsed_manifest : Option Value → DidResult (Option DeviceManifest)
    parsed_manifest none = ok none
    parsed_manifest (some v) =
        ok_or invalid_extension (manifests.manifest_from_value v) >>= λ m. ok (some m)

    -- `started` is the state before the first change, `settled` the document after the last.
    unfoldable pub started : IdentityRecord → Fields → DidResult DeviceProgress
    started r m = do
      manifest ← parsed_manifest (get_field (lit "deviceManifest") m)
      ok (record {
        fields = m;
        manifest = manifest;
        changes = record { added_keys = []; retired_kids = [] };
        retired_device_ids = r.retired_device_ids;
      })

    abbrev pub settled : Option DeviceManifest → Fields → DidResult Fields
    settled none m = ok m
    settled (some manifest) m =
        if is_nil manifest.devices
        then ok (remove_field (lit "deviceManifest") m)
        else (ok_or invalid_extension (manifests.manifest_to_value manifest) >>= λ v.
            ok (insert_field (lit "deviceManifest") v m))

    unfoldable pub apply_device_mutations :
        IdentityRecord → List DeviceMutationSpec → Fields → DidResult (Fields × DeviceChanges)
    apply_device_mutations r mutations m = do
      before ← started r m
      after ← device_steps r mutations before
      fields ← settled after.manifest after.fields
      ok (fields, after.changes)
