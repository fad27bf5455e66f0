-- ===== src/Candidate/Manifest.antt =====
-- crates/anp-identity/src/lifecycle.rs: the manifest of a document whose devices an update has changed.
use anp_identity.Anp.{Anp, DeviceManifest, DeviceManifestEntry}
use anp_identity.Candidate.{DeviceChanges, DeviceMutationSpec}
use anp_identity.Candidate.Devices.{
  DeviceProgress, Manifests, apply_device_mutations, device_steps, devices_of, parsed_manifest,
  settled, started,
}
use anp_identity.Candidate.Roster.{IsRoster, ids, no_repeats, retired_after}
use anp_identity.Candidate.Updates.{device_steps-IsRoster}
use anp_identity.Disk.Transitions.{transition_state_eq}
use anp_identity.Errors.{invalid_extension, ok, ok-injective, ok_or, ok_or-eq-ok, result-eq-ok}
use anp_identity.Input.{profile_eq, role_eq}
use anp_identity.Input.Fields.{last}
use anp_identity.Json.{
  Fields, Value, end, field, get_field, insert_field, remove_field, text_lt, value_eq,
}
use anp_identity.KeyOps.{agree}
use anp_identity.Keystore.{secret_ref_eq}
use anp_identity.Prelude.{
  Bool-cases, List, Option, Option-cases, [], ap, contains, eq_refl, false, inl, inr, is_nil,
  list_eq, nat_eq, ne_iff, none, option_eq, pair_eq, refl, some, subst⁻¹, sym, true, ◌==◌, ◌∙◌, ◌∷◌,
  ◌≡◌,
}
use anp_identity.Registry.{
  IdentityRecord, capability_eq, key_state_eq, origin_eq, publication_eq, state_eq, summary_eq,
}
use anp_identity.Text.{Text, lit}

-- The devices of a manifest are distinct, and none has one of these identifiers.
pub record IsClean (retired : List Text) (manifest : Option DeviceManifest) : Type 0 where
  pub distinct : no_repeats (ids (devices_of manifest)) ≡ true
  pub unretired :
      (id : Text) → contains retired id ≡ true → contains (ids (devices_of manifest)) id ≡ false

get_field-insert_field :
    (k : Text) (v : Value) (m : Fields) → get_field k (insert_field k v m) ≡ some v
unfolding get_field insert_field
get_field-insert_field k v end = rw (eq_refl k) refl
get_field-insert_field k v (field j w m) = elim (Bool-cases (k == j)) [
  | inl t ↦ rw (t, eq_refl k) refl
  | inr f ↦ elim (Bool-cases (text_lt k j)) [
    | inl u ↦ rw (f, u, eq_refl k) refl
    | inr g ↦
        let apart : (j == k) ≡ false = (ne_iff j k).1 (λ p. (ne_iff k j).0 f (sym p)) in
        rw (f, g, apart) (get_field-insert_field k v m)
  ]
]

get_field-remove_field : (k : Text) (m : Fields) → get_field k (remove_field k m) ≡ none
unfolding get_field remove_field
get_field-remove_field k end = refl
get_field-remove_field k (field j w m) = elim (Bool-cases (k == j)) [
  | inl t ↦ rw t (get_field-remove_field k m)
  | inr f ↦
      let apart : (j == k) ≡ false = (ne_iff j k).1 (λ p. (ne_iff k j).0 f (sym p)) in
      rw (f, apart) (get_field-remove_field k m)
]

module _ ⦃anp : Anp⦄ ⦃manifests : Manifests⦄ where
  abbrev begun_with : IdentityRecord → Fields → Option DeviceManifest → DeviceProgress
  begun_with r m manifest = record {
    fields = m;
    manifest = manifest;
    changes = record { added_keys = []; retired_kids = [] };
    retired_device_ids = r.retired_device_ids;
  }

  -- What the next update reads back.
  settled-started :
      (law : (x : DeviceManifest) (v : Value)
        → manifests.manifest_to_value x ≡ some v
        → manifests.manifest_from_value v ≡ some x)
      (r : IdentityRecord) (x : DeviceManifest) (m fields : Fields)
      → settled (some x) m ≡ ok fields
      → (again : DeviceProgress) × (started r fields ≡ ok again)
        × (devices_of again.manifest ≡ x.devices)
  unfolding started
  settled-started law r x m fields h = elim (Bool-cases (is_nil x.devices)) [
    | inl t ↦
        let is_fields : remove_field (lit "deviceManifest") m ≡ fields = ok-injective (rw t at h) in
        let gone : get_field (lit "deviceManifest") fields ≡ none =
          ap (get_field (lit "deviceManifest")) (sym is_fields)
          ∙ get_field-remove_field (lit "deviceManifest") m in
        (begun_with r fields none, rw gone refl, sym (is_nil-nil x.devices t))
    | inr f ↦
        let (v, q, last) =
          result-eq-ok (ok_or invalid_extension (manifests.manifest_to_value x)) _ fields
            (rw f at h) in
        let stored : get_field (lit "deviceManifest") fields ≡ some v =
          ap (get_field (lit "deviceManifest")) (sym (ok-injective last))
          ∙ get_field-insert_field (lit "deviceManifest") v m in
        let back = law x v (ok_or-eq-ok invalid_extension (manifests.manifest_to_value x) v q) in
        (begun_with r fields (some x), rw (stored, back) refl, refl)
  ]
    where
      is_nil-nil : (xs : List DeviceManifestEntry) → is_nil xs ≡ true → xs ≡ []
      is_nil-nil [] h = refl
      is_nil-nil (y ∷ ys) h = absurd (cc)

  started-IsRoster :
      (r : IdentityRecord) (m : Fields) (s : DeviceProgress)
      → started r m ≡ ok s
      → IsClean r.retired_device_ids s.manifest
      → IsRoster r.retired_device_ids s
  unfolding started
  started-IsRoster r m s h clean =
      let (x, q, last) =
        result-eq-ok (parsed_manifest (get_field (lit "deviceManifest") m)) _ s h in
      let kept : s.retired_device_ids ≡ r.retired_device_ids =
        ap (λ (y : DeviceProgress). y.retired_device_ids) (sym (ok-injective last)) in
      record {
        distinct = clean.distinct;
        unretired = λ id k. clean.unretired id (ap (λ xs. contains xs id) (sym kept) ∙ k);
        covers = λ id k. ap (λ xs. contains xs id) kept ∙ k;
      }

  started-fields :
      (r : IdentityRecord) (m : Fields) (s : DeviceProgress) → started r m ≡ ok s → s.fields ≡ m
  unfolding started
  started-fields r m s h =
      let (x, q, last) =
        result-eq-ok (parsed_manifest (get_field (lit "deviceManifest") m)) _ s h in
      ap (λ (y : DeviceProgress). y.fields) (sym (ok-injective last))

  -- The devices of the document that an update of devices gives, as the next update reads them, are
  -- distinct, and none has an identifier that the record has retired or that the update has
  -- removed, even when it adds a device later; if this was so of the document and the retired
  -- identifiers before. The first hypothesis says that a manifest is read back as it was written.
  pub apply_device_mutations-IsClean :
      (law : (x : DeviceManifest) (v : Value)
        → manifests.manifest_to_value x ≡ some v
        → manifests.manifest_from_value v ≡ some x)
      (r : IdentityRecord) (mutations : List DeviceMutationSpec) (m fields : Fields)
      (changes : DeviceChanges) (before : DeviceProgress)
      → started r m ≡ ok before
      → IsClean r.retired_device_ids before.manifest
      → apply_device_mutations r mutations m ≡ ok (fields, changes)
      → (again : DeviceProgress) × (started r fields ≡ ok again)
        × IsClean (retired_after r.retired_device_ids mutations) again.manifest
  unfolding apply_device_mutations
  apply_device_mutations-IsClean law r mutations m fields changes before is_started clean h =
      let (s, q1, h1) = result-eq-ok (started r m) _ (fields, changes) h in
      let (after, q2, h2) = result-eq-ok (device_steps r mutations s) _ (fields, changes) h1 in
      let (f, q3, last) =
        result-eq-ok (settled after.manifest after.fields) _ (fields, changes) h2 in
      let is_before : before ≡ s = ok-injective (sym is_started ∙ q1) in
      let is_fields : f ≡ fields = ap (λ p. p.0) (ok-injective last) in
      let (roster, changed) =
        device_steps-IsRoster r.retired_device_ids r mutations s after
          (subst⁻¹ (IsRoster r.retired_device_ids) (sym is_before)
            (started-IsRoster r m before is_started clean))
          q2 in
      let is_clean : (again : DeviceProgress)
          → devices_of again.manifest ≡ devices_of after.manifest
          → IsClean (retired_after r.retired_device_ids mutations) again.manifest =
        λ again e. record {
          distinct = ap (λ ds. no_repeats (ids ds)) e ∙ roster.distinct;
          unretired =
              λ id k. ap (λ ds. contains (ids ds) id) e ∙ roster.unretired id (roster.covers id k);
        } in
      elim (Option-cases after.manifest) [
        | inr (x, p) ↦
            let (again, is_again, e) =
              settled-started law r x after.fields fields
                (ap (λ o. settled o after.fields) (sym p) ∙ q3 ∙ ap ok is_fields) in
            (again, is_again, is_clean again (e ∙ ap devices_of (sym p)))
        | inl n ↦ elim changed [
          | inr (x, p) ↦ absurd (cc (n, p))
          | inl agree ↦
              let is_after : before ≡ after = is_before ∙ agree in
              let is_m : after.fields ≡ fields =
                ok-injective (ap (λ o. settled o after.fields) (sym n) ∙ q3 ∙ ap ok is_fields) in
              let begun : before.fields ≡ m = started-fields r m before is_started in
              (
                before,
                ap (started r)
                      (sym is_m ∙ ap (λ (y : DeviceProgress). y.fields) (sym is_after) ∙ begun)
                    ∙ is_started,
                is_clean before (ap (λ (y : DeviceProgress). devices_of y.manifest) is_after),
              )
        ]
      ]
