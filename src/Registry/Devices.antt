-- ===== src/Registry/Devices.antt =====
-- crates/anp-identity/src/registry.rs: `IdentityRecord::observe_devices`, which keeps the identifiers
-- of all the devices that the document has ever lost, and refuses a document that names one again.
pub mod Laws
use anp_identity.Errors.{DidResult, invalid_extension, ok, refuse_if, ◌>>=◌, ◌>>◌}
use anp_identity.Input.{profile_eq, role_eq}
use anp_identity.Json.{Value, array, get, get_str, items, text_lt, value_eq}
use anp_identity.Keystore.{secret_ref_eq}
use anp_identity.Prelude.{
  List, Option, [], any, contains, if◌then◌else◌, list_eq, nat_eq, none, not, option_eq, pair_eq,
  retain, some, ◌++◌, ◌==◌, ◌∷◌,
}
use anp_identity.Registry.{
  IdentityRecord, capability_eq, key_state_eq, origin_eq, publication_eq, state_eq, summary_eq,
}
use anp_identity.Text.{Text, lit}

abbrev get_of : Option Value → Text → Option Value
get_of none k = none
get_of (some v) k = get v k

abbrev items_of : Option Value → List Value
items_of none = []
items_of (some (array vs)) = items vs
items_of (some _) = []

-- `filter_map` with `device.get("device_id").and_then(Value::as_str)`.
abbrev cons_some : Option Text → List Text → List Text
cons_some none ids = ids
cons_some (some id) ids = id ∷ ids

abbrev device_ids_in : List Value → List Text
device_ids_in [] = []
device_ids_in (device ∷ devices) =
    cons_some (get_str device (lit "device_id")) (device_ids_in devices)

-- The closure `ids`, as a list: its callers ask it for membership only.
unfoldable pub device_ids : Value → List Text
device_ids document =
    device_ids_in (items_of (get_of (get document (lit "deviceManifest")) (lit "devices")))

-- `extend`, `sort` and `dedup`: each identifier goes to its place in a sorted list, once.
unfoldable pub insert_id : Text → List Text → List Text
insert_id x [] = x ∷ []
insert_id x (y ∷ ys) =
    let rest = insert_id x ys in
    if x == y then y ∷ ys else if text_lt x y then x ∷ y ∷ ys else y ∷ rest

unfoldable pub sort_dedup : List Text → List Text
unfolding insert_id
sort_dedup [] = []
sort_dedup (x ∷ xs) = insert_id x (sort_dedup xs)

-- `ids(&self.document).difference(&next_ids)`.
unfoldable pub lost_ids : Value → Value → List Text
lost_ids document candidate =
    retain (λ id. not (contains (device_ids candidate) id)) (device_ids document)

unfoldable pub observe_devices : Value → IdentityRecord → DidResult IdentityRecord
observe_devices candidate r = do
  refuse_if (any (λ id. contains (device_ids candidate) id) r.retired_device_ids) invalid_extension
  ok (record r {
    retired_device_ids = sort_dedup (r.retired_device_ids ++ lost_ids r.document candidate);
  })
