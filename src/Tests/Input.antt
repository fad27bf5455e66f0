-- ===== src/Tests/Input.antt =====
-- Examples for input.rs.
use anp_identity.Errors.{err, foreign_kid, ok}
use anp_identity.Input.{DidCreateSpec, e1, profile_eq, request_signing, role_eq, root_control}
use anp_identity.Input.Create.{validate_create}
use anp_identity.Input.Create.Laws.{IsValidSpec, validate_create_iff}
use anp_identity.Input.Fields.{
  byte_len, fragment_is_valid, is_ascii_alphanumeric, is_identifier_byte, validate_fragment,
}
use anp_identity.Input.Kid.{canonicalize_kid, full_kid, validate_unique_kids}
use anp_identity.Input.Kid.Laws.{
  Spells, canonicalize_kid-foreign, canonicalize_kid_idem, canonicalize_kid_iff,
}
use anp_identity.Input.Kid.Unique.{canonical_kids, validate_unique_kids_iff}
use anp_identity.Json.{value_eq}
use anp_identity.Keystore.{secret_ref_eq}
use anp_identity.Prelude.{
  Distinct, List, [], list_beq, list_eq, nat_eq, ne_iff, none, option_eq, pair_eq, refl, true, ◌↔◌,
  ◌∷◌, ◌≡◌,
}
use anp_identity.Registry.{
  capability_eq, key_state_eq, origin_eq, publication_eq, state_eq, summary_eq,
}
use anp_identity.Tests.Sample.{sample_anp, sample_codec}
use anp_identity.Text.{Text, bytes, lit, starts_with, strip_prefix}

abbrev a_did : Text
a_did = lit "did:wba:a.example"

abbrev b_did : Text
b_did = lit "did:wba:b.example"

abbrev a_key : Text
a_key = lit "did:wba:a.example#key-1"

canonicalize_kid_iff_example : (canonicalize_kid a_did (lit "#key-1") ≡ ok a_key) ↔ (
    (f : Text) × (fragment_is_valid f ≡ true)
    × (a_key ≡ full_kid a_did f)
    × Spells a_did f (lit "#key-1"))
unfolding starts_with strip_prefix
canonicalize_kid_iff_example = canonicalize_kid_iff a_did (lit "#key-1") a_key refl

canonicalize_kid_idem_example : canonicalize_kid a_did a_key ≡ ok a_key
unfolding starts_with strip_prefix canonicalize_kid validate_fragment byte_len bytes
    is_identifier_byte is_ascii_alphanumeric
canonicalize_kid_idem_example = canonicalize_kid_idem a_did (lit "key-1") a_key refl refl

canonicalize_kid-foreign_example :
    canonicalize_kid a_did (full_kid b_did (lit "k")) ≡ err foreign_kid
unfolding list_beq
canonicalize_kid-foreign_example =
    canonicalize_kid-foreign a_did b_did (lit "k") refl refl ((ne_iff b_did []).0 refl)
      ((ne_iff a_did b_did).0 refl)

abbrev two_spellings : List Text
two_spellings = lit "key-1" ∷ a_key ∷ []

validate_unique_kids_iff_example :
    (validate_unique_kids a_did two_spellings ≡ ok tt)
    ↔ ((ks : List Text) × (canonical_kids a_did two_spellings ≡ ok ks) × Distinct ks)
validate_unique_kids_iff_example = validate_unique_kids_iff a_did two_spellings

abbrev sample_spec : DidCreateSpec
sample_spec = record {
  profile = e1;
  domain = lit "a.example";
  port = none;
  path_segments = lit "user" ∷ [];
  capabilities = record { did_wba = true };
  managed_keys =
      record { fragment = lit "root"; role = root_control }
      ∷ record { fragment = lit "key-1"; role = request_signing }
      ∷ [];
  external_keys = [];
  services = [];
  agent_description_url = none;
  extensions = [];
}

validate_create_iff_example : (validate_create sample_spec ≡ ok tt) ↔ IsValidSpec sample_spec
validate_create_iff_example = validate_create_iff sample_spec
