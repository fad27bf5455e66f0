-- ===== src/Registry.antt =====
-- crates/anp-identity/src/registry.rs: what the store keeps of an identity, the journals of its
-- transactions, and the registry; with the pending records of lifecycle.rs, adoption.rs and
-- root_transfer.rs that an identity record holds.
pub mod Journals
pub mod Devices
use anp_identity.Document.{document_digest, public_key_multibase, root_key_fingerprint}
use anp_identity.Input.{Capabilities, KeyRole, profile_eq, role_eq}
use anp_identity.Json.{Value, value_eq}
use anp_identity.Keystore.{SecretRef, secret_ref_eq}
use anp_identity.Prelude.{
  Bool, Eq, List, Option, arith, by_rank, eq_iff, list_eq, nat_eq, option_eq, pair_eq, true, ℕ,
  ◌&&◌, ◌==◌, ◌↔◌, ◌≡◌,
}
use anp_identity.Text.{Text}

pub data KeyOrigin : Type 0 where
  managed external : KeyOrigin

pub data KeyState : Type 0 where
  pending active retired revoked : KeyState

pub data IdentityState : Type 0 where
  creating enrolling active revoked : IdentityState

pub data RootCapabilityState : Type 0 where
  absent pending active : RootCapabilityState

pub data PublicationState : Type 0 where
  prepared publication_in_flight publication_uncertain published : PublicationState

abbrev origin_rank : KeyOrigin → ℕ
origin_rank managed = 0
origin_rank external = 1

pub origin_rank_inj : (a b : KeyOrigin) → origin_rank a ≡ origin_rank b → a ≡ b
origin_rank_inj a b h = ground arith

instance abbrev pub origin_eq : Eq KeyOrigin
origin_eq = by_rank origin_rank origin_rank_inj

abbrev key_state_rank : KeyState → ℕ
key_state_rank KeyState.pending = 0
key_state_rank KeyState.active = 1
key_state_rank KeyState.retired = 2
key_state_rank KeyState.revoked = 3

pub key_state_rank_inj : (a b : KeyState) → key_state_rank a ≡ key_state_rank b → a ≡ b
key_state_rank_inj a b h = ground arith

instance abbrev pub key_state_eq : Eq KeyState
key_state_eq = by_rank key_state_rank key_state_rank_inj

abbrev state_rank : IdentityState → ℕ
state_rank IdentityState.creating = 0
state_rank IdentityState.enrolling = 1
state_rank IdentityState.active = 2
state_rank IdentityState.revoked = 3

pub state_rank_inj : (a b : IdentityState) → state_rank a ≡ state_rank b → a ≡ b
state_rank_inj a b h = ground arith

instance abbrev pub state_eq : Eq IdentityState
state_eq = by_rank state_rank state_rank_inj

abbrev capability_rank : RootCapabilityState → ℕ
capability_rank RootCapabilityState.absent = 0
capability_rank RootCapabilityState.pending = 1
capability_rank RootCapabilityState.active = 2

pub capability_rank_inj :
    (a b : RootCapabilityState) → capability_rank a ≡ capability_rank b → a ≡ b
capability_rank_inj a b h = ground arith

instance abbrev pub capability_eq : Eq RootCapabilityState
capability_eq = by_rank capability_rank capability_rank_inj

abbrev publication_rank : PublicationState → ℕ
publication_rank prepared = 0
publication_rank publication_in_flight = 1
publication_rank publication_uncertain = 2
publication_rank published = 3

pub publication_rank_inj :
    (a b : PublicationState) → publication_rank a ≡ publication_rank b → a ≡ b
publication_rank_inj a b h = ground arith

instance abbrev pub publication_eq : Eq PublicationState
publication_eq = by_rank publication_rank publication_rank_inj

pub record DocumentCheckpoint : Type 0 where
  pub document_version : ℕ
  pub registry_version : ℕ
  pub document_digest : Text

pub record KeyMetadata : Type 0 where
  pub kid : Text
  pub role : KeyRole
  pub origin : KeyOrigin
  pub state : KeyState
  pub material_erased : Bool
  pub version : ℕ
  pub public_key_multibase : Text
  pub created_at : Text

pub record IdentitySummary : Type 0 where
  pub identity_id : Text
  pub did : Text
  pub state : IdentityState
  pub root_capability : RootCapabilityState
  pub created_at : Text

unfoldable pub summary_beq : IdentitySummary → IdentitySummary → Bool
summary_beq a b =
    a.identity_id == b.identity_id
    && (a.did == b.did
        && (a.state == b.state
            && (a.root_capability == b.root_capability && a.created_at == b.created_at)))

pub summary_beq_iff : (a b : IdentitySummary) → (summary_beq a b ≡ true) ↔ (a ≡ b)
unfolding summary_beq
summary_beq_iff a b = ground (
  arith,
  eq_iff a.identity_id b.identity_id,
  eq_iff a.did b.did,
  eq_iff a.state b.state,
  eq_iff a.root_capability b.root_capability,
  eq_iff a.created_at b.created_at,
)

instance abbrev pub summary_eq : Eq IdentitySummary
summary_eq = record { beq = summary_beq; beq_iff = summary_beq_iff }

-- adoption.rs.
pub record LocalAuthorizationRecord : Type 0 where
  pub device_id : Text
  pub signing_kid : Text
  pub e2ee_kid : Text
  pub profiles : List Text

pub record PendingEnrollmentRecord : Type 0 where
  pub enrollment_id : Text
  pub local_authorization : LocalAuthorizationRecord
  pub created_at : Text

pub record PendingRequestSigningRecord : Type 0 where
  pub enrollment_id : Text
  pub request_signing_kid : Text
  pub created_at : Text

-- root_transfer.rs.
pub record PendingRootTransferRecord : Type 0 where
  pub transfer_digest : Text
  pub root_kid : Text
  pub imported_at : Text

pub record RootTransferReplayRecord : Type 0 where
  pub nonce : Text
  pub transfer_digest : Text
  pub expires_at : Text

-- lifecycle.rs.
pub record PendingRevisionRecord : Type 0 where
  pub revision_id : Text
  pub parent_revision : ℕ
  pub candidate_document : Value
  pub candidate_digest : Text
  pub candidate_kids : List Text
  pub pending_secret_refs : List SecretRef
  pub new_key_metadata : List KeyMetadata
  pub retired_kids : List Text
  pub state : PublicationState
  pub generation : ℕ
  pub created_at : Text

pub record IdentityRecord : Type 0 where
  pub schema_version : ℕ
  pub identity_id : Text
  pub did : Text
  pub state : IdentityState
  pub revision : ℕ
  pub generation : ℕ
  pub document : Value
  pub keys : List KeyMetadata
  pub capabilities : Capabilities
  pub root_capability : RootCapabilityState
  pub root_key_fingerprint : Option Text
  pub checkpoint : Option DocumentCheckpoint
  pub initial_publication_pending : Bool
  pub local_authorization : Option LocalAuthorizationRecord
  pub local_request_signing_kid : Option Text
  pub pending_enrollment : Option PendingEnrollmentRecord
  pub pending_request_signing : Option PendingRequestSigningRecord
  pub pending_root_transfer : Option PendingRootTransferRecord
  pub root_transfer_replays : List RootTransferReplayRecord
  pub retired_device_ids : List Text
  pub created_at : Text
  pub pending_revision : Option PendingRevisionRecord

-- `IdentityRecord::summary`.
unfoldable pub summary : IdentityRecord → IdentitySummary
summary r = record {
  identity_id = r.identity_id;
  did = r.did;
  state = r.state;
  root_capability = r.root_capability;
  created_at = r.created_at;
}
