-- ===== src/Tests/Secrets.antt =====
-- Examples for keystore.rs.
use anp_identity.Assoc.{insert, lookup}
use anp_identity.Disk.{Disk, write, ◌>>=◌}
use anp_identity.Disk.Files.{open_secret, seal_if_absent}
use anp_identity.Disk.Secrets.{seal-open}
use anp_identity.Disk.Transitions.{transition_state_eq}
use anp_identity.Errors.{ok}
use anp_identity.Input.{device_signing, profile_eq, role_eq}
use anp_identity.Input.Fields.{byte_len}
use anp_identity.Json.{value_eq}
use anp_identity.Keystore.{
  SecretRef, already_exists, decimal, record_storage_key, seal_record, sealed, secret_ref_eq,
  validate_secret_ref,
}
use anp_identity.Prelude.{
  List, [], list_beq, list_eq, nat_eq, ne_iff, option_eq, pair_eq, refl, ℕ, ◌∷◌, ◌≡◌, ◌≢◌,
}
use anp_identity.Registry.{
  capability_eq, key_state_eq, origin_eq, publication_eq, state_eq, summary_eq,
}
use anp_identity.Tests.Record.{empty_disk}
use anp_identity.Tests.Sample.{sample_anp, sample_anp-IsCipher, sample_codec}
use anp_identity.Text.{Text, bytes, lit, trim}

abbrev ref_of : Text → SecretRef
ref_of identity_id = record {
  identity_id = identity_id;
  key_id = lit "did:web:a.example#k";
  role = device_signing;
  version = 1;
}

abbrev sample_nonce : List ℕ
sample_nonce = 1 ∷ 2 ∷ 3 ∷ 4 ∷ 5 ∷ 6 ∷ 7 ∷ 8 ∷ 9 ∷ 10 ∷ 11 ∷ 12 ∷ []

abbrev sealed_disk : Disk
sealed_disk = record empty_disk {
  records =
      (
        record_storage_key (ref_of (lit "I")),
        seal_record (lit "T") sample_nonce (7 ∷ []) (ref_of (lit "I")) (5 ∷ []),
      )
      ∷ [];
  writes_left = 8;
}

is_sealed :
    seal_if_absent (lit "T") sample_nonce (7 ∷ []) (ref_of (lit "I")) (5 ∷ []) empty_disk
    ≡ (ok sealed, sealed_disk)
unfolding seal_if_absent validate_secret_ref trim write ◌>>=◌ insert lookup list_beq
    record_storage_key seal_record
is_sealed = refl

keys_differ : record_storage_key (ref_of (lit "J")) ≢ record_storage_key (ref_of (lit "I"))
unfolding list_beq record_storage_key bytes decimal byte_len
keys_differ =
    (ne_iff (record_storage_key (ref_of (lit "J"))) (record_storage_key (ref_of (lit "I")))).0 refl

seal-open_example :
    (open_secret (7 ∷ []) (ref_of (lit "I")) sealed_disk ≡ (ok (5 ∷ []), sealed_disk))
    × (seal_if_absent (lit "T") sample_nonce (7 ∷ []) (ref_of (lit "I")) (6 ∷ []) sealed_disk
        ≡ (ok already_exists, sealed_disk))
    × (lookup (record_storage_key (ref_of (lit "J"))) sealed_disk.records
        ≡ lookup (record_storage_key (ref_of (lit "J"))) empty_disk.records)
seal-open_example =
    seal-open sample_anp-IsCipher (lit "T") (lit "T") sample_nonce sample_nonce (7 ∷ [])
      (ref_of (lit "I")) (ref_of (lit "J")) (5 ∷ []) (6 ∷ []) empty_disk sealed_disk refl is_sealed
      keys_differ
