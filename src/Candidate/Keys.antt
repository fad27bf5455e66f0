-- ===== src/Candidate/Keys.antt =====
-- crates/anp-identity/src/lifecycle.rs: adding and removing request signing keys of others.
use anp_identity.Anp.{Anp, ed25519, other_curve, x25519}
use anp_identity.Candidate.{
  DeviceChanges, PublicKeySpec, RequestSigningMutationSpec, add_key, bare_method, change_array,
  has_id, is_entry, method_exists, method_json, push, remove_key,
}
use anp_identity.Disk.Transitions.{transition_state_eq}
use anp_identity.Errors.{
  DidResult, duplicate_kid, err, invalid_public_key, key_not_found, key_role_violation, ok, ok_or,
  refuse_if, unsupported_operation, ◌>>=◌, ◌>>◌,
}
use anp_identity.Input.{profile_eq, request_signing, role_eq}
use anp_identity.Input.Kid.{canonicalize_kid}
use anp_identity.Json.{Fields, string, value_eq}
use anp_identity.Keystore.{secret_ref_eq}
use anp_identity.Prelude.{
  List, [], any, find, list_eq, nat_eq, none, not, option_eq, pair_eq, retain, some, ◌++◌, ◌==◌,
  ◌||◌, ◌∷◌,
}
use anp_identity.Registry.{
  IdentityRecord, capability_eq, external, key_state_eq, origin_eq, publication_eq, state_eq,
  summary_eq,
}
use anp_identity.Text.{Text, lit}

-- What the loop has made of the document so far, and the keys it has noted.
pub record KeyProgress : Type 0 where
  pub fields : Fields
  pub changes : DeviceChanges

module _ ⦃anp : Anp⦄ where
  unfoldable pub validate_request_signing_public_key : Text → Text → DidResult (Unit {0})
  validate_request_signing_public_key kid encoded_key =
      elim (anp.extract_public_key (bare_method kid (lit "Multikey") encoded_key)) [
        | some (ed25519 k) ↦ ok tt
        | some (x25519 k) ↦ err invalid_public_key
        | some (other_curve k) ↦ err invalid_public_key
        | none ↦ err invalid_public_key
      ]

  unfoldable pub add_request_key :
      IdentityRecord → PublicKeySpec → KeyProgress → DidResult KeyProgress
  add_request_key r key s = do
    kid ← canonicalize_kid r.did key.kid
    refuse_if (any (λ m. m.kid == kid) r.keys || method_exists s.fields kid) duplicate_kid
    validate_request_signing_public_key kid key.public_key_multibase
    with_method ←
        change_array (lit "verificationMethod")
          (push (method_json kid (lit "Multikey") r.did key.public_key_multibase)) s.fields
    with_entry ← change_array (lit "authentication") (push (string kid)) with_method
    ok (record {
      fields = with_entry;
      changes = record s.changes {
        added_keys = s.changes.added_keys ++ (kid, request_signing) ∷ [];
      };
    })

  unfoldable pub remove_request_key : IdentityRecord → Text → KeyProgress → DidResult KeyProgress
  remove_request_key r name s = do
    kid ← canonicalize_kid r.did name
    m ← ok_or key_not_found (find (λ m. m.kid == kid) r.keys)
    refuse_if (not (m.role == request_signing)) key_role_violation
    refuse_if (not (m.origin == external)) unsupported_operation
    without_method ←
        change_array (lit "verificationMethod") (retain (λ v. not (has_id kid v))) s.fields
    without_entry ←
        change_array (lit "authentication") (retain (λ v. not (is_entry kid v))) without_method
    ok (record {
      fields = without_entry;
      changes = record s.changes { retired_kids = s.changes.retired_kids ++ kid ∷ [] };
    })

  abbrev pub key_step :
      IdentityRecord → RequestSigningMutationSpec → KeyProgress → DidResult KeyProgress
  key_step r (add_key key) s = add_request_key r key s
  key_step r (remove_key kid) s = remove_request_key r kid s

  unfoldable pub apply_request_signing_mutations :
      IdentityRecord → List RequestSigningMutationSpec → KeyProgress → DidResult KeyProgress
  apply_request_signing_mutations r [] s = ok s
  apply_request_signing_mutations r (mutation ∷ mutations) s =
      key_step r mutation s >>= λ t. apply_request_signing_mutations r mutations t
