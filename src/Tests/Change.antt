-- ===== src/Tests/Change.antt =====
-- Examples for facade/document_change.rs.
use anp_identity.Assoc.{insert, lookup}
use anp_identity.Change.{
  DocumentChange, add_authentication_key, empty_spec, into_engine_spec, remove_device_change,
  replace_services_change,
}
use anp_identity.Change.Current.{IsAttemptOf, IsCurrent}
use anp_identity.Change.Outcomes.{Follows, complete_change-Follows}
use anp_identity.Change.Retry.{begin_change-begin_change}
use anp_identity.Change.Sessions.{
  ChangeSession, Handle, PublicationAttempt, begin_change, change_uncertain, complete_change, lost,
  on_engine, required_change, validate_change_attempt,
}
use anp_identity.Change.Spec.{into_engine_spec_lem, reference_spec}
use anp_identity.Disk.{write, ◌>>=◌}
use anp_identity.Disk.Files.{
  finish_record, infer_local_authorization, read_identity, storage_key, write_identity,
}
use anp_identity.Disk.Transitions.{transition_state_eq}
use anp_identity.Document.{checked_inc}
use anp_identity.Errors.{err, ok}
use anp_identity.Facade.{invalid_request}
use anp_identity.Input.{for_did, profile_eq, role_eq}
use anp_identity.Json.{value_eq}
use anp_identity.Keystore.{secret_ref_eq}
use anp_identity.Lifecycle.{
  begin_publication, current_record_for_mutation, mark_publication_uncertain, mutate,
  persist_record, transition_publication,
}
use anp_identity.Pending.{required_pending, transition_record}
use anp_identity.Prelude.{
  List, [], if◌then◌else◌, is_nil, list_beq, list_eq, nat_eq, option_eq, pair_eq, refl, some, ◌∷◌,
  ◌≡◌,
}
use anp_identity.Registry.{
  IdentityRecord, PendingRevisionRecord, capability_eq, key_state_eq, origin_eq, prepared,
  publication_eq, publication_in_flight, publication_uncertain, state_eq, summary_eq,
}
use anp_identity.Tests.Hops.{sample_hops}
use anp_identity.Tests.KeyOps.{sample_curves, sample_proofs}
use anp_identity.Tests.Record.{disk_with, empty_disk, new_document, pending_in, sample_record}
use anp_identity.Tests.Sample.{sample_anp, sample_codec}
use anp_identity.Tests.Update.{sample_manifests}
use anp_identity.Text.{bytes, lit, starts_with}

abbrev some_changes : List DocumentChange
some_changes =
    remove_device_change (lit "phone")
    ∷ add_authentication_key (record { kid = lit "#k"; public_key_multibase = lit "z" })
    ∷ replace_services_change []
    ∷ []

into_engine_spec_lem_example :
    into_engine_spec some_changes
    ≡ (if is_nil some_changes then err invalid_request else reference_spec empty_spec some_changes)
into_engine_spec_lem_example = into_engine_spec_lem some_changes

abbrev a_session : ChangeSession
a_session = record {
  store_id = lit "S";
  reference = record { store_id = lit "S"; identity_id = lit "I"; did = lit "did:web:a.example" };
  candidate = record {
    revision_id = lit "R";
    candidate_document = new_document;
    candidate_digest = lit "X";
  };
}

abbrev an_attempt : PublicationAttempt
an_attempt = record {
  operation_id = lit "R";
  candidate_digest = lit "X";
  publication_generation = 1;
}

abbrev before_handle : Handle
before_handle = record {
  held = sample_record publication_in_flight;
  disk = disk_with publication_in_flight;
}

abbrev lost_record : IdentityRecord
lost_record = record (sample_record publication_in_flight) {
  generation = 5;
  pending_revision = some (record (pending_in publication_uncertain) { generation = 2 });
}

abbrev after_handle : Handle
after_handle = record {
  held = lost_record;
  disk = record empty_disk { identities = (lit "I", lost_record) ∷ []; writes_left = 8 };
}

is_lost :
    complete_change (lit "T") a_session an_attempt lost before_handle
    ≡ (ok change_uncertain, after_handle)
unfolding anp_identity.Change.Sessions.◌>>=◌ complete_change required_change validate_change_attempt
    on_engine mark_publication_uncertain transition_publication transition_record
    current_record_for_mutation read_identity lookup list_beq storage_key bytes finish_record
    for_did starts_with infer_local_authorization mutate ◌>>=◌ required_pending checked_inc
    persist_record write_identity write insert
is_lost = refl

complete_change-Follows_example :
    (p : PendingRevisionRecord) × IsCurrent a_session before_handle.held p
    × IsAttemptOf an_attempt p
    × Follows a_session lost change_uncertain after_handle
complete_change-Follows_example =
    complete_change-Follows (lit "T") a_session an_attempt lost change_uncertain before_handle
      after_handle is_lost

abbrev ready_handle : Handle
ready_handle = record { held = sample_record prepared; disk = disk_with prepared }

abbrev started_record : IdentityRecord
started_record = record (sample_record prepared) {
  generation = 5;
  pending_revision = some (record (pending_in publication_in_flight) { generation = 2 });
}

abbrev started_handle : Handle
started_handle = record {
  held = started_record;
  disk = record empty_disk { identities = (lit "I", started_record) ∷ []; writes_left = 8 };
}

abbrev first_attempt : PublicationAttempt
first_attempt = record an_attempt { publication_generation = 2 }

is_started : begin_change a_session ready_handle ≡ (ok first_attempt, started_handle)
unfolding anp_identity.Change.Sessions.◌>>=◌ begin_change required_change on_engine
    begin_publication transition_publication transition_record current_record_for_mutation
    read_identity lookup list_beq storage_key bytes finish_record for_did starts_with
    infer_local_authorization mutate ◌>>=◌ required_pending checked_inc persist_record
    write_identity write insert
is_started = refl

begin_change-begin_change_example :
    begin_change a_session started_handle ≡ (ok first_attempt, started_handle)
begin_change-begin_change_example =
    begin_change-begin_change a_session first_attempt ready_handle started_handle is_started
