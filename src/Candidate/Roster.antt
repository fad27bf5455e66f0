-- ===== src/Candidate/Roster.antt =====
-- crates/anp-identity/src/lifecycle.rs: the devices of a candidate document, and the identifiers
-- that are retired while an update changes them.
use anp_identity.Anp.{DeviceManifestEntry}
use anp_identity.Assoc.Laws.{some-injective}
use anp_identity.Candidate.{DeviceMutationSpec, add_device, add_profiles, remove_device}
use anp_identity.Candidate.Devices.{
  DeviceProgress, cons_taken_out, devices_of, extend_device, take_device,
}
use anp_identity.Disk.Transitions.{transition_state_eq}
use anp_identity.Input.{profile_eq, role_eq}
use anp_identity.Json.{value_eq}
use anp_identity.Keystore.{secret_ref_eq}
use anp_identity.Prelude.{
  Bool, Bool-cases, List, Option, Option-cases, [], any, ap, arith, contains, eq_iff, false, inl,
  inr, list_eq, nat_eq, none, not, option_eq, pair_eq, refl, some, sym, true, ◌&&◌, ◌++◌, ◌==◌,
  ◌||◌, ◌∙◌, ◌∷◌, ◌≡◌,
}
use anp_identity.Registry.{
  capability_eq, key_state_eq, origin_eq, publication_eq, state_eq, summary_eq,
}
use anp_identity.Text.{Text}

abbrev pub ids : List DeviceManifestEntry → List Text
ids [] = []
ids (device ∷ devices) = device.device_id ∷ ids devices

unfoldable pub no_repeats : List Text → Bool
no_repeats [] = true
no_repeats (x ∷ xs) = not (contains xs x) && no_repeats xs

-- The devices are distinct, and none has a retired identifier; the identifiers of `base` are retired.
pub record IsRoster (base : List Text) (s : DeviceProgress) : Type 0 where
  pub distinct : no_repeats (ids (devices_of s.manifest)) ≡ true
  pub unretired :
      (id : Text)
      → contains s.retired_device_ids id ≡ true
      → contains (ids (devices_of s.manifest)) id ≡ false
  pub covers : (id : Text) → contains base id ≡ true → contains s.retired_device_ids id ≡ true

-- The retired identifiers after some mutations, which started with those of `base`.
abbrev pub with_retired : List Text → DeviceMutationSpec → List Text
with_retired base (add_device device) = base
with_retired base (remove_device device_id) = base ++ device_id ∷ []
with_retired base (add_profiles device_id profiles) = base

abbrev pub retired_after : List Text → List DeviceMutationSpec → List Text
retired_after base [] = base
retired_after base (mutation ∷ mutations) = retired_after (with_retired base mutation) mutations

pub contains-snoc :
    (xs : List Text) (y z : Text) → contains (xs ++ y ∷ []) z ≡ (contains xs z || y == z)
contains-snoc [] y z = ground arith
contains-snoc (x ∷ xs) y z = ground (arith, contains-snoc xs y z)

pub no_repeats-snoc :
    (xs : List Text) (y : Text)
    → no_repeats xs ≡ true
    → contains xs y ≡ false
    → no_repeats (xs ++ y ∷ []) ≡ true
unfolding no_repeats
no_repeats-snoc [] y h k = refl
no_repeats-snoc (x ∷ xs) y h k =
    ground (arith, no_repeats-snoc xs y, contains-snoc xs y x, eq_iff x y, eq_iff y x)

pub ids-snoc :
    (devices : List DeviceManifestEntry) (device : DeviceManifestEntry)
    → ids (devices ++ device ∷ []) ≡ ids devices ++ device.device_id ∷ []
ids-snoc [] device = refl
ids-snoc (d ∷ devices) device = ap (λ xs. d.device_id ∷ xs) (ids-snoc devices device)

pub ids-any :
    (devices : List DeviceManifestEntry) (id : Text)
    → any (λ (entry : DeviceManifestEntry). entry.device_id == id) devices
      ≡ contains (ids devices) id
ids-any [] id = refl
ids-any (d ∷ devices) id = ground (arith, ids-any devices id)

pub extend_device-ids :
    (device_id : Text) (profiles : List Text) (devices extended : List DeviceManifestEntry)
    → extend_device device_id profiles devices ≡ some extended
    → ids extended ≡ ids devices
unfolding extend_device
extend_device-ids device_id profiles [] extended h = absurd (cc)
extend_device-ids device_id profiles (d ∷ devices) extended h =
    elim (Bool-cases (d.device_id == device_id)) [
      | inl t ↦ ap ids (sym (some-injective (rw t at h)))
      | inr f ↦ elim (Option-cases (extend_device device_id profiles devices)) [
        | inl q ↦ absurd (cc (rw (f, q) at h))
        | inr (rest, q) ↦
            ap ids (sym (some-injective (rw (f, q) at h)))
            ∙ ap (λ xs. d.device_id ∷ xs) (extend_device-ids device_id profiles devices rest q)
      ]
    ]

-- What is left when a device is taken out.
pub record IsWithout (device_id : Text) (devices rest : List DeviceManifestEntry)
    (removed : DeviceManifestEntry) : Type 0 where
  pub is_it : removed.device_id ≡ device_id
  pub fewer : (id : Text) → contains (ids devices) id ≡ false → contains (ids rest) id ≡ false
  pub still : no_repeats (ids devices) ≡ true → no_repeats (ids rest) ≡ true
  pub gone : no_repeats (ids devices) ≡ true → contains (ids rest) device_id ≡ false

cons_taken_out-eq-some :
    (device removed : DeviceManifestEntry) (rest : List DeviceManifestEntry)
    (o : Option (DeviceManifestEntry × List DeviceManifestEntry))
    → cons_taken_out device o ≡ some (removed, rest)
    → (tail : List DeviceManifestEntry) × (o ≡ some (removed, tail)) × (rest ≡ device ∷ tail)
cons_taken_out-eq-some device removed rest none h = absurd (cc)
cons_taken_out-eq-some device removed rest (some (x, tail)) h =
    let q : (x, device ∷ tail) ≡ (removed, rest) = some-injective h in
    (tail, cc (ap (λ p. p.0) q), sym (ap (λ p. p.1) q))

pub take_device-IsWithout :
    (device_id : Text) (devices rest : List DeviceManifestEntry) (removed : DeviceManifestEntry)
    → take_device device_id devices ≡ some (removed, rest)
    → IsWithout device_id devices rest removed
unfolding take_device no_repeats
take_device-IsWithout device_id [] rest removed h = absurd (cc)
take_device-IsWithout device_id (d ∷ devices) rest removed h =
    elim (Bool-cases (d.device_id == device_id)) [
      | inl t ↦
          let q : (d, devices) ≡ (removed, rest) = some-injective (rw t at h) in
          let is_d : d ≡ removed = ap (λ p. p.0) q in
          let is_rest : devices ≡ rest = ap (λ p. p.1) q in
          let named = (eq_iff d.device_id device_id).0 t in
          record {
            is_it = ap (λ (x : DeviceManifestEntry). x.device_id) (sym is_d) ∙ named;
            fewer = λ id k. ap (λ xs. contains (ids xs) id) (sym is_rest) ∙ ground (arith, k);
            still = λ k. ap (λ xs. no_repeats (ids xs)) (sym is_rest) ∙ ground (arith, k);
            gone = λ k.
                ap (λ xs. contains (ids xs) device_id) (sym is_rest)
                ∙ ap (contains (ids devices)) (sym named)
                ∙ ground (arith, k);
          }
      | inr f ↦
          let (tail, q, is_rest) =
            cons_taken_out-eq-some d removed rest (take_device device_id devices) (rw f at h) in
          let without = take_device-IsWithout device_id devices tail removed q in
          record {
            is_it = without.is_it;
            fewer = λ id k.
                ap (λ xs. contains (ids xs) id) is_rest ∙ ground (arith, k, without.fewer id);
            still = λ k.
                ap (λ xs. no_repeats (ids xs)) is_rest
                ∙ ground (arith, k, without.fewer d.device_id, without.still);
            gone = λ k.
                ap (λ xs. contains (ids xs) device_id) is_rest ∙ ground (arith, k, f, without.gone);
          }
    ]
