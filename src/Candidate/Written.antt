-- ===== src/Candidate/Written.antt =====
-- crates/anp-identity/src/lifecycle.rs: what an update that was prepared has stored.
use anp_identity.Anp.{Anp}
use anp_identity.Assoc.{insert, lookup, remove}
use anp_identity.Assoc.Laws.{lookup-insert, lookup-remove}
use anp_identity.Candidate.{DocumentUpdateSpec}
use anp_identity.Candidate.Build.{CandidateChanges, PreparedRotation}
use anp_identity.Candidate.Devices.{Manifests}
use anp_identity.Candidate.Plan.{Draws, UpdatePlan, check_spec, plan_update, refuse_pending}
use anp_identity.Candidate.Prepare.{
  PreparedUpdate, pending_of, prepare_update_inner, rotation_refs, seal_rotation, store_candidate,
}
use anp_identity.Disk.{Disk, lift, query}
use anp_identity.Disk.Files.{
  read_identity, remove_update_journal, storage_key, write_update_journal,
}
use anp_identity.Disk.Outcome.{bind-eq-ok, lift-eq-ok, write-eq-ok}
use anp_identity.Disk.Transitions.{transition_state_eq}
use anp_identity.Errors.{ok, ok-injective, result-eq-ok}
use anp_identity.Input.{profile_eq, role_eq}
use anp_identity.Json.{value_eq}
use anp_identity.KeyOps.{Curves}
use anp_identity.KeyOps.Proofs.{Proofs}
use anp_identity.Keystore.{secret_ref_eq}
use anp_identity.Lifecycle.{canonical_digest, current_record_for_mutation, persist_record}
use anp_identity.Lifecycle.Inversion.{current_record-eq-ok, persist_record-eq-ok}
use anp_identity.Prelude.{
  List, Option, ap, arith, eq_refl, if◌then◌else◌, list_eq, nat_eq, none, option_eq, pair_eq, refl,
  some, subst⁻¹, sym, ℕ, ◌+◌, ◌∙◌, ◌≡◌,
}
use anp_identity.Registry.{
  IdentityRecord, IdentityState, KeyMetadata, PendingRevisionRecord, capability_eq, key_state_eq,
  origin_eq, prepared, publication_eq, state_eq, summary_eq,
}
use anp_identity.Registry.Journals.{UpdateJournalKind, new_update_journal}
use anp_identity.Text.{Text}

module _ ⦃anp : Anp⦄ where
  -- The stored record is the one that the caller held, with a new revision pending and one
  -- generation more; the revision was made from the current one, and is not yet published.
  pub record IsPrepared (held s : IdentityRecord) (out : PreparedUpdate) (d d' : Disk)
      : Type 0 where
    pub before : IdentityRecord
    pub pending : PendingRevisionRecord
    pub is_read : read_identity held.identity_id d ≡ (ok before, d)
    pub is_held : before.generation ≡ held.generation
    pub is_active : before.state ≡ IdentityState.active
    pub was_free : before.pending_revision ≡ none
    pub is_result :
        s ≡ record before { pending_revision = some pending; generation = before.generation + 1 }
    pub is_prepared : pending.state ≡ prepared
    pub is_child : pending.parent_revision ≡ before.revision
    pub is_candidate : pending.candidate_document ≡ out.candidate_document
    pub is_named : pending.revision_id ≡ out.revision_id
    pub is_digest : canonical_digest pending.candidate_document ≡ ok pending.candidate_digest
    pub is_stored : lookup (storage_key s.identity_id) d'.identities ≡ some s
    pub is_cleared : lookup (storage_key out.revision_id) d'.update_journals ≡ none

  remove_update_journal-eq-ok :
      (revision_id : Text) (d d' : Disk)
      → remove_update_journal revision_id d ≡ (ok tt, d')
      → (d'.identities ≡ d.identities)
        × (lookup (storage_key revision_id) d'.update_journals ≡ none)
  unfolding remove_update_journal
  remove_update_journal-eq-ok revision_id d d' h =
      let (n, q) =
        write-eq-ok
          (λ x. record x { update_journals = remove (storage_key revision_id) x.update_journals }) d
          d' h in
      (
        ap (λ (x : Disk). x.identities) q,
        ap (λ (x : Disk). lookup (storage_key revision_id) x.update_journals) q
            ∙ lookup-remove (storage_key revision_id) (storage_key revision_id) d.update_journals
            ∙ ap (λ t. if t then none else lookup (storage_key revision_id) d.update_journals)
                (eq_refl (storage_key revision_id)),
      )

  -- What the part that writes has stored.
  record IsStored (draws : Draws) (r s : IdentityRecord) (changes : CandidateChanges)
      (out : PreparedUpdate) (d' : Disk) : Type 0 where
    pending : PendingRevisionRecord
    is_result : s ≡ record r { pending_revision = some pending; generation = r.generation + 1 }
    is_prepared : pending.state ≡ prepared
    is_child : pending.parent_revision ≡ r.revision
    is_candidate : pending.candidate_document ≡ out.candidate_document
    is_named : pending.revision_id ≡ out.revision_id
    is_digest : canonical_digest pending.candidate_document ≡ ok pending.candidate_digest
    is_stored : lookup (storage_key s.identity_id) d'.identities ≡ some s
    is_cleared : lookup (storage_key out.revision_id) d'.update_journals ≡ none

  store_candidate-IsStored :
      (root_key : List ℕ) (draws : Draws) (r s : IdentityRecord)
      (rotation : Option PreparedRotation) (changes : CandidateChanges)
      (metadata : List KeyMetadata) (out : PreparedUpdate) (d d' : Disk)
      → store_candidate root_key draws r rotation changes metadata d ≡ (ok (s, out), d')
      → IsStored draws r s changes out d'
  unfolding store_candidate
  store_candidate-IsStored root_key draws r s rotation changes metadata out d d' h =
      let refs = rotation_refs r rotation in
      let (u1, d1, q1, h1) =
        bind-eq-ok
          (write_update_journal (
            new_update_journal draws.revision_id r.identity_id refs UpdateJournalKind.prepare
              draws.now))
          _ d (s, out) d' h in
      let (u2, d2, q2, h2) =
        bind-eq-ok (seal_rotation draws.sealed_at draws.nonce root_key rotation refs) _ d1 (s, out)
          d' h1 in
      let (digest, d3, q3, h3) =
        bind-eq-ok (lift (canonical_digest changes.document)) _ d2 (s, out) d' h2 in
      let pending = pending_of draws r rotation changes metadata digest in
      let changed : IdentityRecord = record r { pending_revision = some pending } in
      let (t, d4, q4, h4) = bind-eq-ok (persist_record changed) _ d3 (s, out) d' h3 in
      let (u5, d5, q5, h5) =
        bind-eq-ok (remove_update_journal draws.revision_id) _ d4 (s, out) d' h4 in
      let prepared_out : PreparedUpdate = record {
        revision_id = draws.revision_id;
        candidate_document = changes.document;
        candidate_digest = digest;
      } in
      let (pairs, is_end) = lift-eq-ok (ok (t, prepared_out)) d5 d' (s, out) h5 in
      let is_s : t ≡ s = ap (λ p. p.0) (ok-injective pairs) in
      let is_out : prepared_out ≡ out = ap (λ p. p.1) (ok-injective pairs) in
      let (n, is_t, written) = persist_record-eq-ok changed t d3 d4 q4 in
      let (kept, cleared) = remove_update_journal-eq-ok draws.revision_id d4 d5 q5 in
      record {
        pending = pending;
        is_result = sym is_s ∙ is_t;
        is_prepared = refl;
        is_child = refl;
        is_candidate = ap (λ (x : PreparedUpdate). x.candidate_document) is_out;
        is_named = ap (λ (x : PreparedUpdate). x.revision_id) is_out;
        is_digest = (lift-eq-ok (canonical_digest changes.document) d2 d3 digest q3).0;
        is_stored = read_back d3 is_s is_end (kept ∙ ap (λ (x : Disk). x.identities) written);
        is_cleared = cc (
          ap (λ (x : PreparedUpdate). storage_key x.revision_id) is_out,
          ap (λ (x : Disk). x.update_journals) is_end,
          cleared,
        );
      }
    where
      read_back :
          {t : IdentityRecord} {d5 : Disk} (d3 : Disk)
          → t ≡ s
          → d5 ≡ d'
          → d5.identities ≡ insert (storage_key t.identity_id) t d3.identities
          → lookup (storage_key s.identity_id) d'.identities ≡ some s
      read_back {t} {d5} d3 is_s is_end q =
          let there : lookup (storage_key t.identity_id) d5.identities ≡ some t =
            ap (lookup (storage_key t.identity_id)) q
            ∙ lookup-insert (storage_key t.identity_id) (storage_key t.identity_id) t d3.identities
            ∙ ap (λ b. if b then some t else lookup (storage_key t.identity_id) d3.identities)
                (eq_refl (storage_key t.identity_id)) in
          cc (
            there,
            ap (λ (x : IdentityRecord). storage_key x.identity_id) is_s,
            ap (λ (x : Disk). x.identities) is_end,
            is_s,
          )

  refuse_pending-eq-ok : (o : Option PendingRevisionRecord) → refuse_pending o ≡ ok tt → o ≡ none
  refuse_pending-eq-ok none h = refl
  refuse_pending-eq-ok (some p) h = absurd (ground (arith, h))

  module _ ⦃curves : Curves⦄ ⦃proofs : Proofs⦄ ⦃manifests : Manifests⦄ where
    planned-free :
        (root_key : List ℕ) (draws : Draws) (spec : DocumentUpdateSpec) (held r : IdentityRecord)
        (d : Disk) (plan : UpdatePlan)
        → plan_update root_key draws spec held r d ≡ ok plan
        → r.pending_revision ≡ none
    unfolding plan_update
    planned-free root_key draws spec held r d plan h =
        let (u, q, rest) = result-eq-ok (refuse_pending r.pending_revision) _ plan h in
        refuse_pending-eq-ok r.pending_revision q

    -- An update that was prepared: the store held the very generation that the caller holds, of an
    -- active identity without a pending revision. It now holds that record with the new revision
    -- pending, prepared and not yet published, made from the revision that was current, under the
    -- digest of its candidate document; nothing else of the record has changed but its generation,
    -- and the journal of the preparation is gone.
    pub prepare_update-IsPrepared :
        (root_key : List ℕ) (draws : Draws) (spec : DocumentUpdateSpec) (held s : IdentityRecord)
        (out : PreparedUpdate) (d d' : Disk)
        → prepare_update_inner root_key draws spec held d ≡ (ok (s, out), d')
        → IsPrepared held s out d d'
    unfolding prepare_update_inner
    prepare_update-IsPrepared root_key draws spec held s out d d' h =
        let (u1, d1, q1, h1) = bind-eq-ok (lift (check_spec spec)) _ d (s, out) d' h in
        let (r, d2, q2, h2) = bind-eq-ok (current_record_for_mutation held) _ d1 (s, out) d' h1 in
        let (plan, d3, q3, h3) =
          bind-eq-ok (query (plan_update root_key draws spec held r)) _ d2 (s, out) d' h2 in
        let (is_read, is_held, is_active, stays) = current_record-eq-ok held r d1 d2 q2 in
        let start : d1 ≡ d = sym (ap (λ x. x.1) q1) in
        let stored =
          store_candidate-IsStored root_key draws r s plan.rotation plan.changes plan.metadata out
            d3 d' h3 in
        record {
          before = r;
          pending = stored.pending;
          is_read = subst⁻¹ (λ x. read_identity held.identity_id x ≡ (ok r, x)) (sym start) is_read;
          is_held = is_held;
          is_active = is_active;
          was_free = planned-free root_key draws spec held r d2 plan (ap (λ x. x.0) q3);
          is_result = stored.is_result;
          is_prepared = stored.is_prepared;
          is_child = stored.is_child;
          is_candidate = stored.is_candidate;
          is_named = stored.is_named;
          is_digest = stored.is_digest;
          is_stored = stored.is_stored;
          is_cleared = stored.is_cleared;
        }
