-- ===== src/Lifecycle/Machine.antt =====
-- The publication state machine of lifecycle.rs: what each operation may do to the stored record.
use anp_identity.Adoption.{
  AdoptVerifiedDocumentSpec, VerifiedDocumentEvidence, refresh_compatible_local_profiles,
}
use anp_identity.Anp.{Anp}
use anp_identity.Assoc.{insert}
use anp_identity.Disk.{Action, Disk}
use anp_identity.Disk.Files.{read_identity, storage_key}
use anp_identity.Disk.Transitions.{transition_state_eq}
use anp_identity.Errors.{ok}
use anp_identity.Input.{profile_eq, role_eq}
use anp_identity.Json.{value_eq}
use anp_identity.Keystore.{secret_ref_eq}
use anp_identity.Lifecycle.{
  abort_update_inner, begin_publication, commit_pending, mark_publication_uncertain,
  reject_publication_before_acceptance,
}
use anp_identity.Pending.{commit_is_allowed, commit_record, required_pending}
use anp_identity.Prelude.{
  Bool, Option, arith, is_some, list_eq, nat_eq, none, option_eq, pair_eq, some, true, ◌+◌, ◌≡◌,
  ◌⊎◌,
}
use anp_identity.Registry.{
  IdentityRecord, PendingRevisionRecord, PublicationState, capability_eq, key_state_eq, origin_eq,
  prepared, publication_eq, publication_in_flight, publication_uncertain, published, state_eq,
  summary_eq,
}
use anp_identity.Registry.Devices.{observe_devices}
use anp_identity.Text.{Text}

-- The changes of state that a pending revision can go through without being settled.
pub data Edge : PublicationState → PublicationState → Type 0 where
  begin : Edge prepared publication_in_flight
  lose_track : Edge publication_in_flight publication_uncertain
  reject : Edge publication_in_flight prepared
  find_old : Edge publication_uncertain prepared

-- A pending revision in this state can be committed.
pub data IsCommittable : PublicationState → Type 0 where
  was_published : IsCommittable published
  in_flight : IsCommittable publication_in_flight
  reconciled : IsCommittable publication_uncertain

-- What one operation makes of the stored record: the pending revision moves along an edge and
-- nothing else changes, or it is committed, or it is abandoned and nothing else changes.
pub data PublicationStep (r s : IdentityRecord) : Type 0 where
  advance :
      (p : PendingRevisionRecord) (following : PublicationState)
      → r.pending_revision ≡ some p
      → Edge p.state following
      → s ≡ record r {
        pending_revision = some (record p { state = following; generation = p.generation + 1 });
        generation = r.generation + 1;
      }
      → PublicationStep r s
  commit :
      (p : PendingRevisionRecord)
      → r.pending_revision ≡ some p
      → IsCommittable p.state
      → p.parent_revision ≡ r.revision
      → s.document ≡ p.candidate_document
      → s.pending_revision ≡ none
      → s.generation ≡ r.generation + 1
      → s.identity_id ≡ r.identity_id
      → PublicationStep r s
  abandon :
      (p : PendingRevisionRecord)
      → r.pending_revision ≡ some p
      → (p.state ≡ prepared) ⊎ (p.state ≡ publication_uncertain)
      → s ≡ record r { pending_revision = none; generation = r.generation + 1 }
      → PublicationStep r s

module _ ⦃anp : Anp⦄ where
  pub commit_record-eq-ok :
      (revision_id : Text) (from_reconcile : Bool) (evidence : Option VerifiedDocumentEvidence)
      (r s : IdentityRecord)
      → commit_record revision_id from_reconcile evidence r ≡ ok s
      → (p : PendingRevisionRecord) × (required_pending r revision_id ≡ ok p)
        × (commit_is_allowed p.state from_reconcile (is_some evidence) ≡ true)
        × (p.parent_revision ≡ r.revision)
        × (s.document ≡ p.candidate_document)
        × (s.pending_revision ≡ none)
        × (s.generation ≡ r.generation)
        × (s.identity_id ≡ r.identity_id)
  unfolding commit_record observe_devices refresh_compatible_local_profiles
  commit_record-eq-ok revision_id from_reconcile evidence r s h = ground arith

-- The operations on a pending revision that change the store, with their arguments.
pub data Operation : Type 0 where
  begin_it lose_it reject_it : Text → Operation
  commit_it : Text → Bool → Option VerifiedDocumentEvidence → Operation
  abort_it : Text → Text → Option AdoptVerifiedDocumentSpec → Operation

module _ ⦃anp : Anp⦄ where
  unfoldable pub run : Operation → IdentityRecord → Action IdentityRecord
  run (begin_it revision_id) = begin_publication revision_id
  run (lose_it revision_id) = mark_publication_uncertain revision_id
  run (reject_it revision_id) = reject_publication_before_acceptance revision_id
  run (commit_it revision_id from_reconcile evidence) =
      commit_pending revision_id from_reconcile evidence
  run (abort_it now revision_id rejection) = abort_update_inner now revision_id rejection

  -- What an operation has done, if it returned: it has read the record that its caller holds, and
  -- written the one that it returns.
  pub record IsStep (held s : IdentityRecord) (d d' : Disk) : Type 0 where
    pub before : IdentityRecord
    pub is_read : read_identity held.identity_id d ≡ (ok before, d)
    pub is_held : before.generation ≡ held.generation
    pub step : PublicationStep before s
    pub is_written : d'.identities ≡ insert (storage_key s.identity_id) s d.identities
