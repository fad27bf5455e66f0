-- ===== src/Identity/Forward.antt =====
-- The recovery of a creation that the registry names goes forward (identity.rs).
use anp_identity.Anp.{Anp}
use anp_identity.Assoc.{lookup}
use anp_identity.Assoc.Laws.{lookup-insert}
use anp_identity.Disk.{Disk, lift}
use anp_identity.Disk.Files.{read_identity, storage_key, write_identity}
use anp_identity.Disk.Outcome.{bind-eq-ok, write-eq-ok}
use anp_identity.Disk.Transitions.{transition_state_eq}
use anp_identity.Errors.{DidResult, invalid_identity, ok, ok-injective, refuse_if, refuse_if-eq-ok}
use anp_identity.Identity.{activate_record, finish_creation, read_own}
use anp_identity.Input.{profile_eq, role_eq}
use anp_identity.Json.{value_eq}
use anp_identity.Keystore.{secret_ref_eq}
use anp_identity.Lifecycle.Conflicts.{finish_found-head}
use anp_identity.Prelude.{
  Bool-cases, ap, arith, eq_iff, eq_refl, inl, inr, list_eq, nat_eq, ne_iff, not, option_eq,
  pair_eq, some, sym, true, ◌==◌, ◌∙◌, ◌≡◌, ◌≢◌, ◌⊎◌,
}
use anp_identity.Registry.{
  IdentityRecord, IdentityState, capability_eq, key_state_eq, origin_eq, publication_eq, state_eq,
  summary_eq,
}
use anp_identity.Registry.Journals.{CreationJournal}

module _ ⦃anp : Anp⦄ where
  -- The store had a record of the journal's identity and DID, no secret was deleted, and the record
  -- that is stored is active, if it was still being created, and as it was in any other state.
  pub record IsFinished (j : CreationJournal) (d d' : Disk) : Type 0 where
    pub found : IdentityRecord
    pub is_found : (read_identity j.identity_id d).0 ≡ ok found
    pub same_did : found.did ≡ j.did
    pub secrets_kept : d'.records ≡ d.records
    pub is_activated :
        ((found.state ≡ IdentityState.creating)
          × (lookup (storage_key j.identity_id) d'.identities
              ≡ some (record found { state = IdentityState.active })))
        ⊎ ((found.state ≢ IdentityState.creating) × (d'.identities ≡ d.identities))

  read_own-eq-ok :
      (j : CreationJournal) (r : IdentityRecord) (d d' : Disk)
      → read_own j d ≡ (ok r, d')
      → ((read_identity j.identity_id d).0 ≡ ok r) × (r.did ≡ j.did) × (d ≡ d')
  unfolding read_identity
  read_own-eq-ok j r d d' h =
      let (q, c, is_read, tested) = bind-eq-ok (read_identity j.identity_id) _ d r d' h in
      let (u, e, passed, given) =
        bind-eq-ok (lift (refuse_if (not (q.did == j.did)) invalid_identity)) _ c r d' tested in
      let is_r : q ≡ r = ok-injective (ap (λ x. x.0) given) in
      let stays : d ≡ d' = ap (λ x. x.1) is_read ∙ ap (λ x. x.1) passed ∙ ap (λ x. x.1) given in
      (
        ap (λ x. x.0) is_read ∙ ap ok is_r,
        ap (λ (x : IdentityRecord). x.did) (sym is_r)
            ∙ (eq_iff q.did j.did).0 (
                ground (
                  arith,
                  refuse_if-eq-ok (not (q.did == j.did)) invalid_identity (ap (λ x. x.0) passed),
                )),
        stays,
      )

  activate-eq-ok :
      (j : CreationJournal) (r : IdentityRecord) (d d' : Disk)
      → r.identity_id ≡ j.identity_id
      → activate_record r d ≡ (ok tt, d')
      → (d'.records ≡ d.records)
        × (((r.state ≡ IdentityState.creating)
              × (lookup (storage_key j.identity_id) d'.identities
                  ≡ some (record r { state = IdentityState.active })))
            ⊎ ((r.state ≢ IdentityState.creating) × (d'.identities ≡ d.identities)))
  unfolding write_identity
  activate-eq-ok j r d d' named h = elim (Bool-cases (r.state == IdentityState.creating)) [
    | inl t ↦
        let (n, eq) = write-eq-ok _ d d' (rw t at h) in
        (
          ap (λ (x : Disk). x.records) eq,
          inl (
            (eq_iff r.state IdentityState.creating).0 t,
            rw eq (rw named (simp (lookup-insert, eq_refl))),
          ),
        )
    | inr f ↦
        let stays : d ≡ d' = ap (λ (x : DidResult (Unit {0}) × Disk). x.1) (rw f at h) in
        (
          ap (λ (x : Disk). x.records) (sym stays),
          inr (
            (ne_iff r.state IdentityState.creating).0 f,
            ap (λ (x : Disk). x.identities) (sym stays),
          ),
        )
  ]

  pub forward-IsFinished :
      (j : CreationJournal) (d d' : Disk)
      → finish_creation true j d ≡ (ok tt, d')
      → IsFinished j d d'
  unfolding finish_creation read_identity
  forward-IsFinished j d d' h =
      let (r, c, own, rest) = bind-eq-ok (read_own j) _ d tt d' h in
      let (is_read, same_did, stays) = read_own-eq-ok j r d c own in
      let (raw, stored, head, named) =
        finish_found-head j.identity_id (lookup (storage_key j.identity_id) d.identities) r
          is_read in
      let (records, activation) =
        activate-eq-ok j r d d' named (ap (activate_record r) stays ∙ rest) in
      record {
        found = r;
        is_found = is_read;
        same_did = same_did;
        secrets_kept = records;
        is_activated = activation;
      }
