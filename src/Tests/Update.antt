-- ===== src/Tests/Update.antt =====
-- Examples for the last half of lifecycle.rs: a new device, and new services of a Web identity.
use anp_identity.Anp.{Anp, DeviceManifest, DeviceManifestEntry, PublicKeyMaterial, ed25519, x25519}
use anp_identity.Assoc.{insert, lookup, remove}
use anp_identity.Assoc.Laws.{some-injective}
use anp_identity.Candidate.{
  DeviceAddSpec, DeviceChanges, DocumentUpdateSpec, add_device, bare_method, change_array,
  method_exists, method_json,
}
use anp_identity.Candidate.Build.{
  build_candidate_document, enter_rotation, replace_services, sign_candidate,
}
use anp_identity.Candidate.Devices.{
  DeviceProgress, Manifests, apply_device_mutations, device_steps, enter_device, insert_device,
  started, validate_device_add, validate_device_public_key,
}
use anp_identity.Candidate.Keys.{apply_request_signing_mutations}
use anp_identity.Candidate.Manifest.{IsClean, apply_device_mutations-IsClean}
use anp_identity.Candidate.Plan.{Draws, added_metadata, check_spec, plan_update}
use anp_identity.Candidate.Prepare.{
  PreparedUpdate, prepare_update_inner, seal_rotation, store_candidate,
}
use anp_identity.Candidate.Roster.{no_repeats}
use anp_identity.Candidate.Written.{IsPrepared, prepare_update-IsPrepared}
use anp_identity.Disk.{Disk, write, ◌>>=◌}
use anp_identity.Disk.Files.{
  finish_record, infer_local_authorization, read_identity, remove_update_journal, storage_key,
  write_identity, write_update_journal,
}
use anp_identity.Disk.Transitions.{transition_state_eq}
use anp_identity.Document.{checked_inc, validate_method_document}
use anp_identity.Errors.{ok}
use anp_identity.Input.{device_signing, e2ee_agreement, for_did, profile_eq, role_eq}
use anp_identity.Input.Create.{check_each}
use anp_identity.Input.Fields.{
  byte_len, fragment_is_valid, is_ascii_alphanumeric, is_identifier_byte, validate_fragment,
}
use anp_identity.Input.Kid.{canonicalize_kid, fragment_of, strip_did}
use anp_identity.Json.{
  Fields, Value, array, cons, end, field, get_field, get_str, insert_field, nil, object, object_of,
  remove_field, string, text_lt, value_eq,
}
use anp_identity.Keystore.{secret_ref_eq}
use anp_identity.Lifecycle.{canonical_digest, current_record_for_mutation, persist_record}
use anp_identity.Prelude.{
  List, Option, [], ap, if◌then◌else◌, list_beq, list_eq, nat_eq, none, option_eq, pair_eq, refl,
  some, sym, ◌++◌, ◌==◌, ◌∷◌, ◌≡◌,
}
use anp_identity.Registry.{
  IdentityRecord, capability_eq, key_state_eq, origin_eq, prepared, publication_eq, state_eq,
  summary_eq,
}
use anp_identity.Registry.Journals.{new_update_journal}
use anp_identity.Tests.Hops.{sample_hops}
use anp_identity.Tests.KeyOps.{sample_curves, sample_proofs}
use anp_identity.Tests.Record.{empty_disk, old_document, pending_in, sample_record}
use anp_identity.Tests.Sample.{sample_anp, sample_codec}
use anp_identity.Text.{Text, bytes, lit, starts_with, strip_prefix, trim, trim_end, trim_start}

abbrev key_of : Value → PublicKeyMaterial
key_of v =
    if get_str v (lit "type") == some (lit "Multikey") then ed25519 (lit "s") else x25519 (lit "a")

abbrev device_anp : Anp
device_anp = record sample_anp { extract_public_key = λ v. some (key_of v) }

-- A codec that writes manifests of one device with one profile, and reads others as empty.
abbrev device_value : Text → Text → Text → Text → List Text → Option Value
device_value name id signing e2ee [] = none
device_value name id signing e2ee (p ∷ []) = some (
    array (
      cons (string name)
        (cons (string id) (cons (string signing) (cons (string e2ee) (cons (string p) nil))))))
device_value name id signing e2ee (p ∷ q ∷ ps) = none

abbrev devices_value : Text → List DeviceManifestEntry → Option Value
devices_value name [] = none
devices_value name (e ∷ []) =
    device_value name e.device_id e.signing_key_id e.e2ee_key_id e.profiles
devices_value name (e ∷ f ∷ es) = none

abbrev one_device : Text → Text → Text → Text → List Text → DeviceManifest
one_device name id signing e2ee ps = record {
  manifest_type = name;
  devices =
      (record { device_id = id; signing_key_id = signing; e2ee_key_id = e2ee; profiles = ps }) ∷ [];
}

abbrev read_manifest : Value → Option DeviceManifest
read_manifest
      (array (
        cons
          (string name)
          (cons (string id) (cons (string signing) (cons (string e2ee) (cons (string p) nil)))))) =
    some (one_device name id signing e2ee (p ∷ []))
read_manifest _ = some (record { manifest_type = lit "M"; devices = [] })

device_law :
    (name id signing e2ee : Text) (ps : List Text) (v : Value)
    → device_value name id signing e2ee ps ≡ some v
    → read_manifest v ≡ some (one_device name id signing e2ee ps)
device_law name id signing e2ee [] v h = absurd (cc)
device_law name id signing e2ee (p ∷ []) v h = ap read_manifest (sym (some-injective h))
device_law name id signing e2ee (p ∷ q ∷ ps) v h = absurd (cc)

devices_law :
    (name : Text) (es : List DeviceManifestEntry) (v : Value)
    → devices_value name es ≡ some v
    → read_manifest v ≡ some (record { manifest_type = name; devices = es })
devices_law name [] v h = absurd (cc)
devices_law name (e ∷ []) v h =
    device_law name e.device_id e.signing_key_id e.e2ee_key_id e.profiles v h
devices_law name (e ∷ f ∷ es) v h = absurd (cc)

instance abbrev pub sample_manifests : Manifests
sample_manifests = record {
  manifest_from_value = read_manifest;
  manifest_to_value = λ manifest. devices_value manifest.manifest_type manifest.devices;
  device_manifest_type = lit "M";
}

abbrev tablet : DeviceAddSpec
tablet = record {
  device_id = lit "tablet";
  signing_key = record { kid = lit "#s"; public_key_multibase = lit "zs" };
  e2ee_key = record { kid = lit "#a"; public_key_multibase = lit "za" };
  profiles = lit "p" ∷ [];
}

abbrev bare_fields : Fields
bare_fields = field (lit "assertionMethod") (array nil) (
    field (lit "authentication") (array nil)
      (field (lit "keyAgreement") (array nil) (field (lit "verificationMethod") (array nil) end)))

abbrev full_of : Text → Text
full_of fragment = lit "did:web:a.example#" ++ fragment

abbrev tablet_value : Value
tablet_value = array (
    cons (string (lit "M")) (
      cons (string (lit "tablet")) (
        cons (string (full_of (lit "s")))
          (cons (string (full_of (lit "a"))) (cons (string (lit "p")) nil)))))

abbrev new_fields : Fields
new_fields = field (lit "assertionMethod") (array (cons (string (full_of (lit "s"))) nil)) (
    field (lit "authentication") (array (cons (string (full_of (lit "s"))) nil)) (
      field (lit "deviceManifest") tablet_value (
        field (lit "keyAgreement") (array (cons (string (full_of (lit "a"))) nil)) (
          field (lit "verificationMethod")
            (array (
              cons
                (method_json (full_of (lit "s")) (lit "Multikey") (lit "did:web:a.example")
                  (lit "zs"))
                (cons
                  (method_json (full_of (lit "a")) (lit "X25519KeyAgreementKey2019")
                    (lit "did:web:a.example") (lit "za"))
                  nil)))
            end))))

abbrev new_changes : DeviceChanges
new_changes = record {
  added_keys = (full_of (lit "s"), device_signing) ∷ (full_of (lit "a"), e2ee_agreement) ∷ [];
  retired_kids = [];
}

abbrev bare_progress : DeviceProgress
bare_progress = record {
  fields = bare_fields;
  manifest = none;
  changes = record { added_keys = []; retired_kids = [] };
  retired_device_ids = [];
}

abbrev plain_record : IdentityRecord
plain_record = record (sample_record prepared) { pending_revision = none }

is_started : started ⦃anp = device_anp⦄ plain_record bare_fields ≡ ok bare_progress
unfolding started get_field list_beq
is_started = refl

is_bare : IsClean [] none
unfolding no_repeats
is_bare = record { distinct = refl; unretired = λ id h. refl }

is_applied :
    apply_device_mutations ⦃anp = device_anp⦄ plain_record (add_device tablet ∷ []) bare_fields
    ≡ ok (new_fields, new_changes)
unfolding apply_device_mutations started device_steps insert_device validate_device_add
    canonicalize_kid fragment_of strip_prefix strip_did validate_fragment fragment_is_valid
    is_identifier_byte is_ascii_alphanumeric byte_len bytes trim trim_start trim_end list_beq
    method_exists get_field validate_device_public_key bare_method object_of insert_field text_lt
    enter_device change_array method_json
is_applied = refl

apply_device_mutations-IsClean_example :
    (again : DeviceProgress) × (started ⦃anp = device_anp⦄ plain_record new_fields ≡ ok again)
    × IsClean [] again.manifest
apply_device_mutations-IsClean_example =
    apply_device_mutations-IsClean ⦃anp = device_anp⦄
      (λ x v h. devices_law x.manifest_type x.devices v h) plain_record (add_device tablet ∷ [])
      bare_fields new_fields new_changes bare_progress is_started is_bare is_applied

abbrev plain_disk : Disk
plain_disk = record empty_disk { identities = (lit "I", plain_record) ∷ [] }

abbrev service_update : DocumentUpdateSpec
service_update = record {
  request_signing_rotation = none;
  request_signing_mutations = [];
  device_mutations = [];
  services = some [];
}

abbrev some_draws : Draws
some_draws = record {
  now = lit "T";
  challenge = lit "C";
  revision_id = lit "N";
  fresh_secret = [];
  nonce = [];
  sealed_at = lit "T";
}

-- The document's fields.
abbrev fields_of : Value → Fields
fields_of (object m) = m
fields_of _ = end

abbrev serviced : Value
serviced = object (
    insert_field (lit "service") (array nil)
      (remove_field (lit "deviceManifest") (fields_of old_document)))

abbrev updated_record : IdentityRecord
updated_record = record plain_record {
  generation = 5;
  pending_revision = some (record (pending_in prepared) {
    revision_id = lit "N";
    candidate_document = serviced;
    candidate_digest = [];
  });
}

abbrev updated : PreparedUpdate
updated = record { revision_id = lit "N"; candidate_document = serviced; candidate_digest = [] }

abbrev updated_disk : Disk
updated_disk = record empty_disk { identities = (lit "I", updated_record) ∷ []; writes_left = 6 }

is_updated :
    prepare_update_inner [] some_draws service_update plain_record plain_disk
    ≡ (ok (updated_record, updated), updated_disk)
unfolding prepare_update_inner check_each check_spec plan_update build_candidate_document
    enter_rotation apply_request_signing_mutations apply_device_mutations started device_steps
    replace_services sign_candidate for_did starts_with validate_method_document added_metadata
    store_candidate seal_rotation write_update_journal remove_update_journal persist_record
    current_record_for_mutation read_identity finish_record infer_local_authorization lookup insert
    remove write storage_key bytes canonical_digest checked_inc write_identity new_update_journal
    remove_field insert_field get_field text_lt list_beq object_of ◌>>=◌
is_updated = refl

prepare_update-IsPrepared_example :
    IsPrepared plain_record updated_record updated plain_disk updated_disk
prepare_update-IsPrepared_example =
    prepare_update-IsPrepared [] some_draws service_update plain_record updated_record updated
      plain_disk updated_disk is_updated
