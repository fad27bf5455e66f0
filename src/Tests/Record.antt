-- ===== src/Tests/Record.antt =====
-- A Web identity with a pending revision, and a store that holds it.
use anp_identity.Disk.{Disk}
use anp_identity.Input.{profile_eq, role_eq}
use anp_identity.Json.{Value, array, cons, nil, object, object_of, string, value_eq}
use anp_identity.Keystore.{secret_ref_eq}
use anp_identity.Prelude.{[], false, list_eq, nat_eq, none, option_eq, pair_eq, some, ◌∷◌}
use anp_identity.Registry.{
  DocumentCheckpoint, IdentityRecord, IdentityState, PendingRevisionRecord, PublicationState,
  RootCapabilityState, capability_eq, key_state_eq, origin_eq, publication_eq, state_eq, summary_eq,
}
use anp_identity.Tests.Sample.{sample_anp, sample_codec}
use anp_identity.Text.{Text, lit}

abbrev sample_did : Text
sample_did = lit "did:web:a.example"

abbrev named : Text → Value
named device_id = object (
    object_of (
      (lit "id", string sample_did)
      ∷ (
        lit "deviceManifest",
        object (
            object_of (
              (
                lit "devices",
                array (cons (object (object_of ((lit "device_id", string device_id) ∷ []))) nil),
              )
              ∷ [])),
      )
      ∷ []))

abbrev pub old_document : Value
old_document = named (lit "phone")

abbrev pub new_document : Value
new_document = named (lit "laptop")

abbrev pub pending_in : PublicationState → PendingRevisionRecord
pending_in state = record {
  revision_id = lit "R";
  parent_revision = 1;
  candidate_document = new_document;
  candidate_digest = lit "X";
  candidate_kids = [];
  pending_secret_refs = [];
  new_key_metadata = [];
  retired_kids = [];
  state = state;
  generation = 1;
  created_at = lit "T";
}

abbrev pub first_checkpoint : DocumentCheckpoint
first_checkpoint = record {
  document_version = 1;
  registry_version = 1;
  document_digest = lit "sha256:";
}

abbrev pub sample_record : PublicationState → IdentityRecord
sample_record state = record {
  schema_version = 1;
  identity_id = lit "I";
  did = sample_did;
  state = IdentityState.active;
  revision = 1;
  generation = 4;
  document = old_document;
  keys = [];
  capabilities = record { did_wba = false };
  root_capability = RootCapabilityState.absent;
  root_key_fingerprint = none;
  checkpoint = some first_checkpoint;
  initial_publication_pending = false;
  local_authorization = none;
  local_request_signing_kid = none;
  pending_enrollment = none;
  pending_request_signing = none;
  pending_root_transfer = none;
  root_transfer_replays = [];
  retired_device_ids = [];
  created_at = lit "T";
  pending_revision = some (pending_in state);
}

abbrev pub empty_disk : Disk
empty_disk = record {
  registry = none;
  identities = [];
  journals = [];
  update_journals = [];
  transitions = [];
  records = [];
  writes_left = 9;
}

abbrev pub disk_with : PublicationState → Disk
disk_with state = record empty_disk { identities = (lit "I", sample_record state) ∷ [] }
