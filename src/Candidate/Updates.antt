-- ===== src/Candidate/Updates.antt =====
-- crates/anp-identity/src/lifecycle.rs: what each change of the devices of a document keeps.
use anp_identity.Anp.{Anp, DeviceManifest, DeviceManifestEntry}
use anp_identity.Candidate.{
  DeviceAddSpec, DeviceMutationSpec, add_device, add_profiles, method_exists, remove_device,
}
use anp_identity.Candidate.Devices.{
  DeviceProgress, Manifests, device_step, device_steps, devices_of, drop_device, enter_device,
  extend_device, extend_profiles, insert_device, is_untrimmed, leave_device, take_device,
  validate_device_add, validate_device_public_key,
}
use anp_identity.Candidate.Roster.{
  IsRoster, IsWithout, contains-snoc, extend_device-ids, ids, ids-any, ids-snoc, no_repeats,
  no_repeats-snoc, retired_after, take_device-IsWithout, with_retired,
}
use anp_identity.Disk.Transitions.{transition_state_eq}
use anp_identity.Errors.{
  duplicate_kid, invalid_extension, key_not_found, ok, ok-injective, ok_or, ok_or-eq-ok, refuse_if,
  refuse_if-eq-ok, result-eq-ok, unsupported_operation,
}
use anp_identity.Input.{device_signing, e2ee_agreement, profile_eq, role_eq}
use anp_identity.Input.Fields.{last}
use anp_identity.Input.Kid.{canonicalize_kid}
use anp_identity.Json.{value_eq}
use anp_identity.KeyOps.{agree}
use anp_identity.Keystore.{secret_ref_eq}
use anp_identity.Prelude.{
  Bool-cases, List, [], any, ap, arith, contains, eq_iff, false, inl, inr, is_nil, is_some_and,
  list_eq, nat_eq, option_eq, pair_eq, some, subst⁻¹, sym, true, ◌++◌, ◌==◌, ◌||◌, ◌∙◌, ◌∷◌, ◌≡◌,
  ◌⊎◌,
}
use anp_identity.Registry.{
  IdentityRecord, KeyMetadata, LocalAuthorizationRecord, capability_eq, key_state_eq, origin_eq,
  publication_eq, state_eq, summary_eq,
}
use anp_identity.Text.{Text}

module _ ⦃anp : Anp⦄ ⦃manifests : Manifests⦄ where
  abbrev pub HasManifest : DeviceProgress → Type 0
  HasManifest s = (x : DeviceManifest) × (s.manifest ≡ some x)

  extend_profiles-IsRoster :
      (base : List Text) (device_id : Text) (profiles : List Text) (s t : DeviceProgress)
      → IsRoster base s
      → extend_profiles device_id profiles s ≡ ok t
      → IsRoster base t × HasManifest t
  unfolding extend_profiles
  extend_profiles-IsRoster base device_id profiles s t roster h =
      let (u, passed, h1) =
        result-eq-ok (refuse_if (is_nil profiles || any is_untrimmed profiles) invalid_extension) _
          t h in
      let (devices, found, last) =
        result-eq-ok
          (ok_or key_not_found (extend_device device_id profiles (devices_of s.manifest))) _ t h1 in
      let is_same =
        extend_device-ids device_id profiles (devices_of s.manifest) devices
          (ok_or-eq-ok key_not_found _ devices found) in
      let is_t = ok-injective last in
      (
        subst⁻¹ (IsRoster base) (sym is_t) (record {
          distinct = ap no_repeats is_same ∙ roster.distinct;
          unretired = λ id k. ap (λ xs. contains xs id) is_same ∙ roster.unretired id k;
          covers = roster.covers;
        }),
        (_, ap (λ (y : DeviceProgress). y.manifest) (sym is_t)),
      )

  insert_device-IsRoster :
      (base : List Text) (r : IdentityRecord) (device : DeviceAddSpec) (s t : DeviceProgress)
      → IsRoster base s
      → insert_device r device s ≡ ok t
      → IsRoster base t × HasManifest t
  unfolding insert_device
  insert_device-IsRoster base r device s t roster h =
      let (u, valid, h1) = result-eq-ok (validate_device_add device) _ t h in
      let (a, q2, h2) = result-eq-ok (canonicalize_kid r.did device.signing_key.kid) _ t h1 in
      let (b, q3, h3) = result-eq-ok (canonicalize_kid r.did device.e2ee_key.kid) _ t h2 in
      let taken =
        contains s.retired_device_ids device.device_id
        || (a == b
            || (any (λ (key : KeyMetadata). key.kid == a || key.kid == b) r.keys
                || (method_exists s.fields a
                    || (method_exists s.fields b
                        || any
                            (λ (entry : DeviceManifestEntry). entry.device_id == device.device_id)
                            (devices_of s.manifest))))) in
      let (v, q4, h4) = result-eq-ok (refuse_if taken duplicate_kid) _ t h3 in
      let (w, q5, h5) =
        result-eq-ok
          (validate_device_public_key a device.signing_key.public_key_multibase device_signing) _ t
          h4 in
      let (x, q6, h6) =
        result-eq-ok
          (validate_device_public_key b device.e2ee_key.public_key_multibase e2ee_agreement) _ t
          h5 in
      let (fields, q7, last) = result-eq-ok (enter_device r device a b s.fields) _ t h6 in
      let free : taken ≡ false = refuse_if-eq-ok taken duplicate_kid q4 in
      let absent : contains (ids (devices_of s.manifest)) device.device_id ≡ false =
        sym (ids-any (devices_of s.manifest) device.device_id) ∙ ground (arith, free) in
      let unretired : contains s.retired_device_ids device.device_id ≡ false =
        ground (arith, free) in
      (
        subst⁻¹ (IsRoster base) (sym (ok-injective last)) (record {
          distinct =
              ap no_repeats (ids-snoc (devices_of s.manifest) _)
              ∙ no_repeats-snoc (ids (devices_of s.manifest)) device.device_id roster.distinct
                  absent;
          unretired = λ id k.
              ap (λ xs. contains xs id) (ids-snoc (devices_of s.manifest) _)
              ∙ contains-snoc (ids (devices_of s.manifest)) device.device_id id
              ∙ ground (arith, roster.unretired id k, unretired, k, eq_iff device.device_id id);
          covers = roster.covers;
        }),
        (_, ap (λ (y : DeviceProgress). y.manifest) (sym (ok-injective last))),
      )

  drop_device-IsRoster :
      (base : List Text) (r : IdentityRecord) (device_id : Text) (s t : DeviceProgress)
      → IsRoster base s
      → drop_device r device_id s ≡ ok t
      → IsRoster (base ++ device_id ∷ []) t × HasManifest t
  unfolding drop_device
  drop_device-IsRoster base r device_id s t roster h =
      let (u, q1, h1) = result-eq-ok (refuse_if (is_untrimmed device_id) invalid_extension) _ t h in
      let (v, q2, h2) =
        result-eq-ok
          (refuse_if
            (is_some_and (λ (local : LocalAuthorizationRecord). local.device_id == device_id)
              r.local_authorization)
            unsupported_operation)
          _ t h1 in
      let (taken, q3, h3) =
        result-eq-ok (ok_or key_not_found (take_device device_id (devices_of s.manifest))) _ t h2 in
      let (fields, q4, last) = result-eq-ok (leave_device taken.0 s.fields) _ t h3 in
      let without =
        take_device-IsWithout device_id (devices_of s.manifest) taken.1 taken.0
          (ok_or-eq-ok key_not_found _ taken q3) in
      (
        subst⁻¹ (IsRoster (base ++ device_id ∷ [])) (sym (ok-injective last)) (record {
          distinct = without.still roster.distinct;
          unretired = λ id k. left_out without roster id k;
          covers = λ id k.
              contains-snoc s.retired_device_ids taken.0.device_id id
              ∙ ap (λ x. contains s.retired_device_ids id || x == id) without.is_it
              ∙ ground (arith, roster.covers id, k, contains-snoc base device_id id);
        }),
        (_, ap (λ (y : DeviceProgress). y.manifest) (sym (ok-injective last))),
      )
    where
      left_out :
          {taken : DeviceManifestEntry × List DeviceManifestEntry}
          → IsWithout device_id (devices_of s.manifest) taken.1 taken.0
          → IsRoster base s
          → (id : Text) → contains (s.retired_device_ids ++ taken.0.device_id ∷ []) id ≡ true
          → contains (ids taken.1) id ≡ false
      left_out {taken = taken} without roster id k =
          elim (Bool-cases (contains s.retired_device_ids id)) [
            | inl t ↦ without.fewer id (roster.unretired id t)
            | inr f ↦
                let is_it : device_id ≡ id =
                  sym without.is_it
                  ∙ (eq_iff taken.0.device_id id).0 (
                      ground
                        (arith, f, k, contains-snoc s.retired_device_ids taken.0.device_id id)) in
                ap (contains (ids taken.1)) (sym is_it) ∙ without.gone roster.distinct
          ]

  device_step-IsRoster :
      (base : List Text) (r : IdentityRecord) (mutation : DeviceMutationSpec) (s t : DeviceProgress)
      → IsRoster base s
      → device_step r mutation s ≡ ok t
      → IsRoster (with_retired base mutation) t × HasManifest t
  device_step-IsRoster base r (add_profiles id profiles) s t roster h =
      extend_profiles-IsRoster base id profiles s t roster h
  device_step-IsRoster base r (add_device device) s t roster h =
      insert_device-IsRoster base r device s t roster h
  device_step-IsRoster base r (remove_device id) s t roster h =
      drop_device-IsRoster base r id s t roster h

  -- What the changes keep; and they leave a manifest, if there is one change at least.
  pub device_steps-IsRoster :
      (base : List Text) (r : IdentityRecord) (mutations : List DeviceMutationSpec)
      (s t : DeviceProgress)
      → IsRoster base s
      → device_steps r mutations s ≡ ok t
      → IsRoster (retired_after base mutations) t × ((s ≡ t) ⊎ HasManifest t)
  unfolding device_steps
  device_steps-IsRoster base r [] s t roster h =
      (subst⁻¹ (IsRoster base) (sym (ok-injective h)) roster, inl (ok-injective h))
  device_steps-IsRoster base r (mutation ∷ mutations) s t roster h =
      let (u, q, rest) = result-eq-ok (device_step r mutation s) _ t h in
      let (kept, (x, p)) = device_step-IsRoster base r mutation s u roster q in
      let (all_kept, end_of_steps) =
        device_steps-IsRoster (with_retired base mutation) r mutations u t kept rest in
      (
        all_kept,
        elim end_of_steps [
          | inl agree ↦ inr (x, ap (λ (y : DeviceProgress). y.manifest) (sym agree) ∙ p)
          | inr left ↦ inr left
        ],
      )
