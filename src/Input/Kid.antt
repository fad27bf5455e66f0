-- ===== src/Input/Kid.antt =====
-- crates/anp-identity/src/input.rs: key identifiers, written in full or in short, and their one
-- canonical spelling.
pub mod Laws
pub mod Unique
use anp_identity.Errors.{DidResult, duplicate_kid, err, foreign_kid, ok, ok_or, ◌>>=◌, ◌>>◌}
use anp_identity.Input.{profile_eq, role_eq}
use anp_identity.Input.Fields.{validate_fragment}
use anp_identity.Json.{value_eq}
use anp_identity.Prelude.{
  List, Option, [], contains, if◌then◌else◌, list_eq, nat_eq, none, not, option_eq, pair_eq, some,
  ◌&&◌, ◌++◌, ◌∷◌,
}
use anp_identity.Text.{Text, lit, strip_prefix}

-- The canonical spelling of a fragment: `format!("{did}#{fragment}")`.
abbrev pub full_kid : Text → Text → Text
full_kid did fragment = did ++ b'#' ∷ fragment

-- `kid.strip_prefix(&prefix)` with `prefix = "{did}#"`, and the bare fragment.
unfoldable pub strip_did : Text → Text → Option Text
strip_did did kid = elim (strip_prefix (did ++ b'#' ∷ []) kid) [
  | some fragment ↦ some fragment
  | none ↦ if not (contains kid b':') && not (contains kid b'#') then some kid else none
]

-- The `if let` ladder that finds the fragment.
unfoldable pub fragment_of : Text → Text → Option Text
unfolding strip_did
fragment_of did kid = elim (strip_prefix (lit "#") kid) [
  | some fragment ↦ some fragment
  | none ↦ strip_did did kid
]

unfoldable pub canonicalize_kid : Text → Text → DidResult Text
unfolding fragment_of
canonicalize_kid did kid = do
  fragment ← ok_or foreign_kid (fragment_of did kid)
  validate_fragment fragment
  ok (full_kid did fragment)

-- The loop of `validate_unique_kids`; `canonical` is the set of the keys already met.
unfoldable pub unique_kids_from : Text → List Text → List Text → DidResult (Unit {0})
unique_kids_from did canonical [] = ok tt
unique_kids_from did canonical (kid ∷ kids) = elim (canonicalize_kid did kid) [
  | err e ↦ err e
  | ok k ↦
      if contains canonical k then err duplicate_kid else unique_kids_from did (k ∷ canonical) kids
]

unfoldable pub validate_unique_kids : Text → List Text → DidResult (Unit {0})
unfolding unique_kids_from
validate_unique_kids did kids = unique_kids_from did [] kids
