-- ===== src/Input/Fields.antt =====
-- crates/anp-identity/src/input.rs: the checks of single fields.
use anp_identity.Anp.{Anp}
use anp_identity.Errors.{
  DidResult, err, invalid_domain, invalid_extension, invalid_kid_fragment, invalid_path_segment,
  invalid_service, map_err, refuse_if, ◌>>◌,
}
use anp_identity.Input.{
  DeviceManifestEntrySpec, DidExtensionSpec, ServiceSpec, device_manifest, profile_eq, role_eq,
}
use anp_identity.Json.{value_eq}
use anp_identity.Prelude.{
  Bool, List, Option, [], all, any, if◌then◌else◌, is_nil, is_some_and, leb, length, list_eq, ltb,
  nat_eq, none, not, option_eq, pair_eq, some, ℕ, ◌&&◌, ◌==◌, ◌||◌, ◌∷◌,
}
use anp_identity.Text.{Text, bytes, is_blank, is_empty, lit, split, starts_with, trim}

abbrev pub max_domain_len : ℕ
max_domain_len = 253

abbrev pub max_path_segment_len : ℕ
max_path_segment_len = 128

abbrev pub max_kid_fragment_len : ℕ
max_kid_fragment_len = 128

abbrev pub max_service_value_len : ℕ
max_service_value_len = 2048

-- `str::len`: the number of UTF-8 bytes.
unfoldable pub byte_len : Text → ℕ
byte_len s = length (bytes s)

unfoldable pub is_ascii_alphanumeric : ℕ → Bool
is_ascii_alphanumeric c =
    leb b'0' c && leb c b'9' || (leb b'A' c && leb c b'Z' || leb b'a' c && leb c b'z')

unfoldable pub is_identifier_byte : ℕ → Bool
is_identifier_byte c =
    is_ascii_alphanumeric c || (c == b'-' || (c == b'_' || (c == b'.' || c == b'~')))

abbrev pub first : List ℕ → Option ℕ
first [] = none
first (b ∷ bs) = some b

abbrev pub last : List ℕ → Option ℕ
last [] = none
last (b ∷ []) = some b
last (b ∷ c ∷ bs) = last (c ∷ bs)

-- The closure that `validate_domain` asks of each label.
unfoldable pub label_is_valid : Text → Bool
label_is_valid label =
    not (is_empty label)
    && (leb (byte_len label) 63
        && (all (λ b. is_ascii_alphanumeric b || b == b'-') (bytes label)
            && (is_some_and is_ascii_alphanumeric (first (bytes label))
                && is_some_and is_ascii_alphanumeric (last (bytes label)))))

module _ ⦃anp : Anp⦄ where
  unfoldable pub validate_domain : Text → DidResult (Unit {0})
  validate_domain domain =
      refuse_if
        (is_empty domain
          || (ltb max_domain_len (byte_len domain)
              || (not (trim domain == domain)
                  || (anp.is_ip_address domain || not (all label_is_valid (split b'.' domain))))))
        invalid_domain

unfoldable pub validate_path_segment : Text → DidResult (Unit {0})
validate_path_segment segment =
    refuse_if
      (is_empty segment
        || (ltb max_path_segment_len (byte_len segment)
            || not (all is_identifier_byte (bytes segment))))
      invalid_path_segment

-- What `validate_fragment` accepts.
unfoldable pub fragment_is_valid : Text → Bool
fragment_is_valid fragment = not (
    is_empty fragment
    || (ltb max_kid_fragment_len (byte_len fragment)
        || not (all is_identifier_byte (bytes fragment))))

unfoldable pub validate_fragment : Text → DidResult (Unit {0})
unfolding fragment_is_valid
validate_fragment fragment = refuse_if (not (fragment_is_valid fragment)) invalid_kid_fragment

-- `self.id.strip_prefix('#').unwrap_or(&self.id)`.
abbrev pub strip_hash : Text → Text
strip_hash [] = []
strip_hash (c ∷ s) = if c == b'#' then s else c ∷ s

unfoldable pub service_did_is_bad : Text → Bool
service_did_is_bad value =
    is_blank value || (not (trim value == value) || ltb max_service_value_len (byte_len value))

-- `ServiceSpec::validate`.
unfoldable pub validate_service : ServiceSpec → DidResult (Unit {0})
unfolding validate_fragment service_did_is_bad
validate_service s =
    let fragment = strip_hash s.id in
    do
      refuse_if (starts_with (lit "#") fragment) invalid_service
      map_err (λ _. invalid_service) (validate_fragment fragment)
      refuse_if
          (is_blank s.service_type
            || (is_blank s.service_endpoint
                || (ltb max_service_value_len (byte_len s.service_type)
                    || ltb max_service_value_len (byte_len s.service_endpoint))))
          invalid_service
      refuse_if (is_some_and service_did_is_bad s.service_did) invalid_service

-- The test that the loop of `DidExtensionSpec::validate` makes of one device.
unfoldable pub device_is_bad : DeviceManifestEntrySpec → Bool
device_is_bad d =
    is_blank d.device_id
    || (ltb max_kid_fragment_len (byte_len d.device_id)
        || (is_blank d.signing_key_id
            || (ltb max_service_value_len (byte_len d.signing_key_id)
                || (is_blank d.e2ee_key_id
                    || (ltb max_service_value_len (byte_len d.e2ee_key_id)
                        || (is_nil d.profiles || any is_blank d.profiles))))))

-- `DidExtensionSpec::validate`.
unfoldable pub validate_extension : DidExtensionSpec → DidResult (Unit {0})
unfolding device_is_bad
validate_extension (device_manifest []) = err invalid_extension
validate_extension (device_manifest (d ∷ ds)) =
    refuse_if (any device_is_bad (d ∷ ds)) invalid_extension
