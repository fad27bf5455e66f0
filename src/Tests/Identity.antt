-- ===== src/Tests/Identity.antt =====
-- Examples for identity.rs: a creation that was cut off before its registry entry.
use anp_identity.Assoc.{insert, lookup, remove}
use anp_identity.Disk.{Disk, for_each, write, ◌>>=◌}
use anp_identity.Disk.Files.{
  delete_secret, finish_record, infer_local_authorization, read_identity, remove_identity,
  remove_journal, storage_key, write_identity,
}
use anp_identity.Disk.Transitions.{transition_state_eq}
use anp_identity.Errors.{ok}
use anp_identity.Identity.{finish_creation, is_committed, recover_create}
use anp_identity.Identity.Enough.{recover_create-undoes}
use anp_identity.Identity.Forward.{IsFinished}
use anp_identity.Identity.Rollback.{IsUndone, recover_create-outcome}
use anp_identity.Input.{device_signing, for_did, profile_eq, role_eq}
use anp_identity.Input.Fields.{byte_len}
use anp_identity.Json.{value_eq}
use anp_identity.Keystore.{
  SecretRef, decimal, key_role_name, record_storage_key, seal_record, secret_ref_eq,
}
use anp_identity.Prelude.{
  [], false, list_beq, list_eq, nat_eq, none, option_eq, pair_eq, refl, true, ◌∷◌, ◌≡◌, ◌⊎◌,
}
use anp_identity.Registry.{
  IdentityRecord, IdentityState, capability_eq, key_state_eq, origin_eq, prepared, publication_eq,
  state_eq, summary, summary_eq,
}
use anp_identity.Registry.Journals.{
  CreationJournal, IdentityRegistry, create, default_registry, new_journal,
}
use anp_identity.Tests.Record.{empty_disk, sample_record}
use anp_identity.Tests.Sample.{sample_anp, sample_codec}
use anp_identity.Text.{bytes, lit, starts_with}

abbrev sample_ref : SecretRef
sample_ref = record {
  identity_id = lit "I";
  key_id = lit "did:web:a.example#k";
  role = device_signing;
  version = 1;
}

abbrev sample_journal : CreationJournal
sample_journal =
    new_journal create (lit "T") (lit "I") (lit "did:web:a.example") (sample_ref ∷ []) (lit "now")

abbrev cut_off : Disk
cut_off = record empty_disk {
  journals = (lit "T", sample_journal) ∷ [];
  records = (record_storage_key sample_ref, seal_record (lit "T") [] [] sample_ref []) ∷ [];
}

abbrev cleaned : Disk
cleaned = record empty_disk { writes_left = 6 }

is_recovered :
    recover_create sample_journal default_registry cut_off ≡ (ok default_registry, cleaned)
unfolding recover_create finish_creation is_committed lookup for_each delete_secret remove_identity
    remove_journal write ◌>>=◌ remove list_beq record_storage_key storage_key bytes new_journal
    decimal byte_len key_role_name
is_recovered = refl

-- The registry names an identity whose record was not yet made active.
abbrev half_made : IdentityRecord
half_made = record (sample_record prepared) { state = IdentityState.creating }

abbrev naming_registry : IdentityRegistry
naming_registry = record default_registry {
  identities = (lit "did:web:a.example", summary half_made) ∷ [];
}

abbrev crashed : Disk
crashed = record cut_off { identities = (lit "I", half_made) ∷ [] }

abbrev made : Disk
made = record crashed {
  identities = (lit "I", record half_made { state = IdentityState.active }) ∷ [];
  journals = [];
  writes_left = 7;
}

is_made : recover_create sample_journal naming_registry crashed ≡ (ok naming_registry, made)
unfolding recover_create ◌>>=◌ finish_creation is_committed lookup list_beq new_journal summary
    read_identity storage_key bytes finish_record for_did starts_with infer_local_authorization
    write_identity write remove_journal insert remove
is_made = refl

recover_create-outcome_example :
    (naming_registry ≡ naming_registry)
    × (lookup (storage_key sample_journal.transaction_id) made.journals ≡ none)
    × (((is_committed naming_registry sample_journal ≡ true)
          × IsFinished sample_journal crashed made)
        ⊎ ((is_committed naming_registry sample_journal ≡ false) × IsUndone sample_journal made))
recover_create-outcome_example =
    recover_create-outcome sample_journal naming_registry naming_registry crashed made is_made

recover_create-undoes_example :
    (d' : Disk) × (recover_create sample_journal default_registry cut_off
      ≡ (ok default_registry, d'))
    × IsUndone sample_journal d'
    × (lookup (storage_key sample_journal.transaction_id) d'.journals ≡ none)
unfolding is_committed lookup new_journal
recover_create-undoes_example =
    recover_create-undoes sample_journal default_registry cut_off 6 refl refl
