-- ===== src/Candidate/Prepare.antt =====
-- crates/anp-identity/src/lifecycle.rs: `prepare_update_inner`, which stores a pending revision with
-- its candidate document. `clock` is the time, and the revision's identifier is random.
use anp_identity.Anp.{Anp}
use anp_identity.Candidate.{DocumentUpdateSpec}
use anp_identity.Candidate.Build.{CandidateChanges, PreparedRotation}
use anp_identity.Candidate.Devices.{Manifests}
use anp_identity.Candidate.Plan.{Draws, check_spec, plan_update}
use anp_identity.Disk.{Action, lift, pure, query, ◌>>=◌, ◌>>◌}
use anp_identity.Disk.Files.{
  open_secret, remove_update_journal, seal_if_absent, write_update_journal,
}
use anp_identity.Document.{public_key_from_raw, public_key_from_secret, public_keys_equal}
use anp_identity.Errors.{invalid_identity, refuse_if}
use anp_identity.Input.{KeyRole, request_signing}
use anp_identity.Json.{Value}
use anp_identity.KeyOps.{Curves}
use anp_identity.KeyOps.Proofs.{Proofs}
use anp_identity.Keystore.{SealIfAbsent, SecretRef, already_exists, sealed}
use anp_identity.Lifecycle.{canonical_digest, current_record_for_mutation, persist_record}
use anp_identity.Prelude.{List, Option, [], none, not, some, ℕ, ◌++◌, ◌∷◌}
use anp_identity.Registry.{IdentityRecord, KeyMetadata, PendingRevisionRecord, prepared}
use anp_identity.Registry.Journals.{UpdateJournalKind, new_update_journal}
use anp_identity.Text.{Text}

pub record PreparedUpdate : Type 0 where
  pub revision_id : Text
  pub candidate_document : Value
  pub candidate_digest : Text

abbrev rotation_kids : Option PreparedRotation → List Text
rotation_kids none = []
rotation_kids (some rotation) = rotation.new_kid ∷ []

abbrev replaced_kids : Option PreparedRotation → List Text
replaced_kids none = []
replaced_kids (some rotation) = rotation.old_kid ∷ []

abbrev kids_of : List (Text × KeyRole) → List Text
kids_of [] = []
kids_of ((kid, role) ∷ keys) = kid ∷ kids_of keys

module _ ⦃anp : Anp⦄ where
  abbrev pub rotation_refs : IdentityRecord → Option PreparedRotation → List SecretRef
  rotation_refs r none = []
  rotation_refs r (some rotation) =
      record {
        identity_id = r.identity_id;
        key_id = rotation.new_kid;
        role = request_signing;
        version = 1;
      }
      ∷ []

  -- The secret of the new key is sealed; one that is there must be of the same key.
  abbrev check_stored : List ℕ → SecretRef → List ℕ → SealIfAbsent → Action (Unit {0})
  check_stored root_key secret_ref fresh sealed = pure tt
  check_stored root_key secret_ref fresh already_exists = do
    stored ← open_secret root_key secret_ref
    actual ← lift (public_key_from_secret request_signing stored)
    lift (
        refuse_if (not (public_keys_equal actual (public_key_from_raw request_signing fresh)))
          invalid_identity)

  unfoldable pub seal_rotation :
      Text → List ℕ → List ℕ → Option PreparedRotation → List SecretRef → Action (Unit {0})
  seal_rotation now nonce root_key (some rotation) (secret_ref ∷ _) =
      seal_if_absent now nonce root_key secret_ref rotation.new_secret >>= λ outcome.
      check_stored root_key secret_ref rotation.new_secret outcome
  seal_rotation now nonce root_key _ _ = pure tt

  abbrev pub pending_of :
      Draws
      → IdentityRecord
      → Option PreparedRotation
      → CandidateChanges
      → List KeyMetadata
      → Text
      → PendingRevisionRecord
  pending_of draws r rotation changes metadata digest = record {
    revision_id = draws.revision_id;
    parent_revision = r.revision;
    candidate_document = changes.document;
    candidate_digest = digest;
    candidate_kids = kids_of changes.added_keys ++ rotation_kids rotation;
    pending_secret_refs = rotation_refs r rotation;
    new_key_metadata = metadata;
    retired_kids = changes.retired_kids ++ replaced_kids rotation;
    state = prepared;
    generation = 1;
    created_at = draws.now;
  }

  -- What the update makes of the record, and the files that it writes.
  unfoldable pub store_candidate :
      List ℕ
      → Draws
      → IdentityRecord
      → Option PreparedRotation
      → CandidateChanges
      → List KeyMetadata
      → Action (IdentityRecord × PreparedUpdate)
  store_candidate root_key draws r rotation changes metadata = do
    let refs = rotation_refs r rotation
    write_update_journal (
        new_update_journal draws.revision_id r.identity_id refs UpdateJournalKind.prepare draws.now)
    seal_rotation draws.sealed_at draws.nonce root_key rotation refs
    digest ← lift (canonical_digest changes.document)
    s ←
        persist_record (record r {
          pending_revision = some (pending_of draws r rotation changes metadata digest);
        })
    remove_update_journal draws.revision_id
    pure (
      s,
      record {
        revision_id = draws.revision_id;
        candidate_document = changes.document;
        candidate_digest = digest;
      },
    )

  module _ ⦃curves : Curves⦄ ⦃proofs : Proofs⦄ ⦃manifests : Manifests⦄ where
    unfoldable pub prepare_update_inner :
        List ℕ
        → Draws
        → DocumentUpdateSpec
        → IdentityRecord
        → Action (IdentityRecord × PreparedUpdate)
    prepare_update_inner root_key draws spec held = do
      lift (check_spec spec)
      r ← current_record_for_mutation held
      plan ← query (plan_update root_key draws spec held r)
      store_candidate root_key draws r plan.rotation plan.changes plan.metadata
