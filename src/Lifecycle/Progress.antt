-- ===== src/Lifecycle/Progress.antt =====
-- When the operations of lifecycle.rs succeed.
use anp_identity.Anp.{Anp}
use anp_identity.Disk.{Disk, lift, write, ◌>>=◌}
use anp_identity.Disk.Files.{read_identity, write_identity}
use anp_identity.Disk.Outcome.{bind-of-ok}
use anp_identity.Document.{checked_inc}
use anp_identity.Errors.{ok}
use anp_identity.Input.{profile_eq, role_eq}
use anp_identity.Json.{value_eq}
use anp_identity.Keystore.{secret_ref_eq}
use anp_identity.Lifecycle.{
  current_record_for_mutation, mutate, persist_record, transition_publication,
}
use anp_identity.Pending.{required_pending, transition_record}
use anp_identity.Prelude.{
  ap, arith, eq_iff, eq_refl, list_eq, nat_eq, option_eq, pair_eq, some, suc, ℕ, ◌+◌, ◌<◌, ◌^◌, ◌∙◌,
  ◌≡◌,
}
use anp_identity.Registry.{
  IdentityRecord, IdentityState, PendingRevisionRecord, PublicationState, capability_eq,
  key_state_eq, origin_eq, publication_eq, state_eq, summary_eq,
}

module _ ⦃anp : Anp⦄ where
  required_pending-found :
      (r : IdentityRecord) (p : PendingRevisionRecord)
      → r.pending_revision ≡ some p
      → required_pending r p.revision_id ≡ ok p
  unfolding required_pending
  required_pending-found r p h = ground (arith, eq_refl p.revision_id)

  transition_record-ok :
      (r : IdentityRecord) (p : PendingRevisionRecord) (following : PublicationState)
      → r.pending_revision ≡ some p
      → p.generation + 1 < 2 ^ 64
      → transition_record p.revision_id p.state following r
        ≡ ok (record r {
          pending_revision = some (record p { state = following; generation = p.generation + 1 });
        })
  unfolding transition_record checked_inc
  transition_record-ok r p following h small =
      ground (arith, required_pending-found r p h, eq_refl p.state)

  current-ok :
      (held r : IdentityRecord) (d : Disk)
      → read_identity held.identity_id d ≡ (ok r, d)
      → r.generation ≡ held.generation
      → r.state ≡ IdentityState.active
      → current_record_for_mutation held d ≡ (ok r, d)
  unfolding current_record_for_mutation
  current-ok held r d h g a =
      bind-of-ok (read_identity held.identity_id) _ d r d h
      ∙ ground (
        arith,
        (eq_iff r.generation held.generation).1 g,
        (eq_iff r.state IdentityState.active).1 a,
      )

  persist_record-ok :
      (r : IdentityRecord) (d : Disk) (n : ℕ)
      → r.generation + 1 < 2 ^ 64
      → d.writes_left ≡ suc n
      → (persist_record r d).0 ≡ ok (record r { generation = r.generation + 1 })
  unfolding persist_record checked_inc write_identity write ◌>>=◌
  persist_record-ok r d n small left = ground arith

  -- A transition of the publication succeeds, and returns the record that it has made, whenever the
  -- caller holds the current generation of an active identity, the revision is pending in the state
  -- that the transition expects, neither counter overflows, and one write is left.
  pub transition_publication-ok :
      (following : PublicationState) (held r : IdentityRecord) (p : PendingRevisionRecord)
      (d : Disk) (n : ℕ)
      → read_identity held.identity_id d ≡ (ok r, d)
      → r.generation ≡ held.generation
      → r.state ≡ IdentityState.active
      → r.pending_revision ≡ some p
      → p.generation + 1 < 2 ^ 64
      → r.generation + 1 < 2 ^ 64
      → d.writes_left ≡ suc n
      → (transition_publication p.revision_id p.state following held d).0
        ≡ ok (record r {
          pending_revision = some (record p { state = following; generation = p.generation + 1 });
          generation = r.generation + 1;
        })
  unfolding transition_publication mutate
  transition_publication-ok following held r p d n h g a found small_p small_r left =
      let t : IdentityRecord = record r {
        pending_revision = some (record p { state = following; generation = p.generation + 1 });
      } in
      ap (λ x. x.0)
        (bind-of-ok (current_record_for_mutation held) _ d r d (current-ok held r d h g a)
          ∙ bind-of-ok (lift (transition_record p.revision_id p.state following r)) _ d t d
              (ap (λ x. (x, d)) (transition_record-ok r p following found small_p)))
      ∙ persist_record-ok t d n small_r left
