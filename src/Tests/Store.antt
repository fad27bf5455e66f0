-- ===== src/Tests/Store.antt =====
-- Examples for lifecycle.rs: one Web identity.
use anp_identity.Adoption.{
  VerifiedDocumentEvidence, checkpoint_of, is_initial_proof_confirmation,
  refresh_compatible_local_profiles, validate_checkpoint_progression, validate_verified_document,
}
use anp_identity.Assoc.{insert, lookup}
use anp_identity.Disk.{Disk, write, ◌>>=◌}
use anp_identity.Disk.Files.{
  finish_record, infer_local_authorization, read_identity, storage_key, write_identity,
}
use anp_identity.Document.{checked_inc, document_digest, validate_method_document}
use anp_identity.Errors.{is_ok, ok}
use anp_identity.Input.{for_did, profile_eq, role_eq}
use anp_identity.Json.{get_field, insert_field, object_of, text_lt, value_beq, value_eq}
use anp_identity.Keystore.{secret_ref_eq}
use anp_identity.Lifecycle.{
  commit_pending, commit_verified_update, current_record_for_mutation, mutate, persist_record,
  transition_publication,
}
use anp_identity.Lifecycle.Commit.{IsProgress, commit_checkpoint-IsProgress, failed-unchanged}
use anp_identity.Lifecycle.Progress.{transition_publication-ok}
use anp_identity.Pending.{commit_is_allowed, commit_record, required_pending, retire_kids}
use anp_identity.Prelude.{
  [], arith, false, list_beq, list_eq, nat_eq, none, option_eq, pair_eq, refl, some, true, ◌∷◌, ◌≡◌,
  ◌⊎◌,
}
use anp_identity.Registry.{
  IdentityRecord, capability_eq, key_state_eq, origin_eq, prepared, publication_eq,
  publication_in_flight, publication_uncertain, state_eq, summary_eq,
}
use anp_identity.Registry.Devices.{device_ids, insert_id, lost_ids, observe_devices, sort_dedup}
use anp_identity.Tests.Record.{
  disk_with, empty_disk, first_checkpoint, new_document, pending_in, sample_record,
}
use anp_identity.Tests.Sample.{sample_anp, sample_codec}
use anp_identity.Text.{bytes, lit, starts_with}

abbrev begun_record : IdentityRecord
begun_record = record (sample_record publication_in_flight) {
  generation = 5;
  pending_revision = some (record (pending_in publication_in_flight) { generation = 2 });
}

abbrev begun_disk : Disk
begun_disk = record empty_disk { identities = (lit "I", begun_record) ∷ []; writes_left = 8 }

abbrev sample_evidence : VerifiedDocumentEvidence
sample_evidence = record {
  document_version = 2;
  registry_version = 3;
  document_digest = lit "sha256:";
}

abbrev committed_record : IdentityRecord
committed_record = record (sample_record publication_in_flight) {
  generation = 5;
  revision = 2;
  document = new_document;
  checkpoint = some (checkpoint_of sample_evidence);
  retired_device_ids = lit "phone" ∷ [];
  pending_revision = none;
}

abbrev committed_disk : Disk
committed_disk = record empty_disk {
  identities = (lit "I", committed_record) ∷ [];
  writes_left = 8;
}

is_before :
    read_identity (lit "I") (disk_with publication_in_flight)
    ≡ (ok (sample_record publication_in_flight), disk_with publication_in_flight)
unfolding read_identity lookup list_beq storage_key bytes finish_record for_did starts_with
    infer_local_authorization
is_before = refl

is_committed :
    commit_verified_update
      (lit "R")
      false
      sample_evidence
      (sample_record publication_in_flight)
      (disk_with publication_in_flight)
    ≡ (ok committed_record, committed_disk)
unfolding commit_verified_update commit_pending commit_record commit_is_allowed
    validate_verified_document document_digest validate_method_document
    is_initial_proof_confirmation validate_checkpoint_progression retire_kids
    refresh_compatible_local_profiles observe_devices device_ids lost_ids sort_dedup insert_id
    object_of insert_field get_field text_lt value_beq checkpoint_of current_record_for_mutation
    read_identity lookup list_beq storage_key bytes finish_record for_did starts_with
    infer_local_authorization mutate ◌>>=◌ required_pending checked_inc persist_record
    write_identity write insert
is_committed = refl

commit_checkpoint-IsProgress_example :
    (committed_record.checkpoint ≡ some (checkpoint_of sample_evidence))
    × (document_digest committed_record.document ≡ ok sample_evidence.document_digest)
    × (committed_record.revision ≡ sample_evidence.document_version)
    × IsProgress first_checkpoint (checkpoint_of sample_evidence)
    × (((sample_record publication_in_flight).initial_publication_pending ≡ true)
        ⊎ (sample_evidence.document_version ≡ first_checkpoint.document_version
            → sample_evidence.document_digest ≡ first_checkpoint.document_digest))
commit_checkpoint-IsProgress_example =
    commit_checkpoint-IsProgress (lit "R") false sample_evidence
      (sample_record publication_in_flight) (sample_record publication_in_flight) committed_record
      first_checkpoint (disk_with publication_in_flight) committed_disk is_before refl is_committed

failed-unchanged_example :
    ((is_ok
          (transition_publication
            (lit "R")
            publication_uncertain
            prepared
            (sample_record prepared)
            (disk_with prepared)).0
        ≡ true)
      ⊎ ((transition_publication
            (lit "R")
            publication_uncertain
            prepared
            (sample_record prepared)
            (disk_with prepared)).1
          ≡ disk_with prepared))
    × ((is_ok (commit_pending (lit "R") true none (sample_record prepared) (disk_with prepared)).0
          ≡ true)
        ⊎ ((commit_pending (lit "R") true none (sample_record prepared) (disk_with prepared)).1
            ≡ disk_with prepared))
failed-unchanged_example =
    failed-unchanged (lit "R") publication_uncertain prepared true none (sample_record prepared)
      (disk_with prepared)

is_uncertain :
    read_identity (lit "I") (disk_with publication_uncertain)
    ≡ (ok (sample_record publication_uncertain), disk_with publication_uncertain)
unfolding read_identity lookup list_beq storage_key bytes finish_record for_did starts_with
    infer_local_authorization
is_uncertain = refl

transition_publication-ok_example :
    (transition_publication
      (lit "R")
      publication_uncertain
      prepared
      (sample_record publication_uncertain)
      (disk_with publication_uncertain)).0
    ≡ ok (record (sample_record publication_uncertain) {
      pending_revision =
          some (record (pending_in publication_uncertain) { state = prepared; generation = 2 });
      generation = 5;
    })
transition_publication-ok_example =
    transition_publication-ok prepared (sample_record publication_uncertain)
      (sample_record publication_uncertain) (pending_in publication_uncertain)
      (disk_with publication_uncertain) 8 is_uncertain refl refl refl (omega arith) (omega arith)
      refl
