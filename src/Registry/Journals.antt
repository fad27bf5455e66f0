-- ===== src/Registry/Journals.antt =====
-- crates/anp-identity/src/registry.rs: the journals, the registry, and new records.
use anp_identity.Input.{Capabilities}
use anp_identity.Json.{Value}
use anp_identity.Keystore.{SecretRef}
use anp_identity.Prelude.{List, Option, [], false, none, some, ℕ}
use anp_identity.Registry.{
  DocumentCheckpoint, IdentityRecord, IdentityState, IdentitySummary, KeyMetadata,
  LocalAuthorizationRecord, RootCapabilityState,
}
use anp_identity.Text.{Text}

pub data CreationJournalKind : Type 0 where
  create state_transition root_import namespace_delete : CreationJournalKind

pub record CreationJournal : Type 0 where
  pub schema_version : ℕ
  pub kind : CreationJournalKind
  pub transaction_id : Text
  pub identity_id : Text
  pub did : Text
  pub secret_refs : List SecretRef
  pub created_at : Text

pub data UpdateJournalKind : Type 0 where
  prepare cleanup : UpdateJournalKind

pub record UpdateJournal : Type 0 where
  pub schema_version : ℕ
  pub revision_id : Text
  pub identity_id : Text
  pub secret_refs : List SecretRef
  pub kind : UpdateJournalKind
  pub created_at : Text

pub data IdentityTransitionJournalState : Type 0 where
  prepared publication_in_flight publication_uncertain committed aborted :
      IdentityTransitionJournalState

-- The field that only old files have is left out: nothing reads it.
pub record IdentityTransitionJournal : Type 0 where
  pub schema_version : ℕ
  pub operation_id : Text
  pub expected_current_did : Text
  pub predecessor_identity_id : Text
  pub predecessor_generation : ℕ
  pub successor_did : Text
  pub successor_identity_id : Text
  pub successor_generation : ℕ
  pub trusted_predecessor_document : Value
  pub predecessor_document : Value
  pub successor_document : Value
  pub predecessor_digest : Text
  pub successor_digest : Text
  pub assurance : Text
  pub state : IdentityTransitionJournalState
  pub generation : ℕ
  pub created_at : Text

pub record IdentityRegistry : Type 0 where
  pub schema_version : ℕ
  pub generation : ℕ
  pub identities : List (Text × IdentitySummary)

-- `IdentityRegistry::default`.
abbrev pub default_registry : IdentityRegistry
default_registry = record { schema_version = 1; generation = 0; identities = [] }

-- `CreationJournal::new`, `new_state_transition`, `new_root_import` and `new_namespace_delete`.
unfoldable pub new_journal :
    CreationJournalKind → Text → Text → Text → List SecretRef → Text → CreationJournal
new_journal kind transaction_id identity_id did secret_refs created_at = record {
  schema_version = 1;
  kind = kind;
  transaction_id = transaction_id;
  identity_id = identity_id;
  did = did;
  secret_refs = secret_refs;
  created_at = created_at;
}

unfoldable pub new_update_journal :
    Text → Text → List SecretRef → UpdateJournalKind → Text → UpdateJournal
new_update_journal revision_id identity_id secret_refs kind created_at = record {
  schema_version = 1;
  revision_id = revision_id;
  identity_id = identity_id;
  secret_refs = secret_refs;
  kind = kind;
  created_at = created_at;
}

pub record NewIdentityRecord : Type 0 where
  pub identity_id : Text
  pub did : Text
  pub document : Value
  pub keys : List KeyMetadata
  pub capabilities : Capabilities
  pub root_capability : RootCapabilityState
  pub root_key_fingerprint : Option Text
  pub checkpoint : DocumentCheckpoint
  pub local_authorization : Option LocalAuthorizationRecord
  pub created_at : Text

unfoldable pub new_identity_record : NewIdentityRecord → IdentityRecord
new_identity_record input = record {
  schema_version = 1;
  identity_id = input.identity_id;
  did = input.did;
  state = IdentityState.creating;
  revision = 1;
  generation = 1;
  document = input.document;
  keys = input.keys;
  capabilities = input.capabilities;
  root_capability = input.root_capability;
  root_key_fingerprint = input.root_key_fingerprint;
  checkpoint = some input.checkpoint;
  initial_publication_pending = false;
  local_authorization = input.local_authorization;
  local_request_signing_kid = none;
  pending_enrollment = none;
  pending_request_signing = none;
  pending_root_transfer = none;
  root_transfer_replays = [];
  retired_device_ids = [];
  created_at = input.created_at;
  pending_revision = none;
}
