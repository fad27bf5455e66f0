-- ===== src/Identity/Rollback.antt =====
-- The recovery of a creation, or of a deletion, that was cut off (identity.rs).
use anp_identity.Anp.{Anp}
use anp_identity.Assoc.{lookup, remove}
use anp_identity.Assoc.Laws.{lookup-remove}
use anp_identity.Disk.{Disk, for_each}
use anp_identity.Disk.Files.{delete_secret, place, remove_identity, remove_journal, storage_key}
use anp_identity.Disk.Outcome.{bind-eq-ok, lift-eq-ok, write-eq-ok}
use anp_identity.Disk.Transitions.{transition_state_eq}
use anp_identity.Errors.{DidResult, ok, ok-injective}
use anp_identity.Identity.{finish_creation, is_committed, recover_create}
use anp_identity.Identity.Forward.{IsFinished, forward-IsFinished}
use anp_identity.Input.{profile_eq, role_eq}
use anp_identity.Input.Fields.{first}
use anp_identity.Json.{value_eq}
use anp_identity.Keystore.{SecretRef, record_storage_key, secret_ref_eq}
use anp_identity.Prelude.{
  All, Bool, List, [], ap, arith, eq_refl, false, inl, inr, list_eq, nat_eq, none, option_eq,
  pair_eq, refl, sym, true, ℕ, ◌∙◌, ◌∷◌, ◌≡◌, ◌⊎◌,
}
use anp_identity.Registry.{
  capability_eq, key_state_eq, origin_eq, publication_eq, state_eq, summary_eq,
}
use anp_identity.Registry.Journals.{CreationJournal, IdentityRegistry}
use anp_identity.Text.{Text}

module _ ⦃anp : Anp⦄ where
  -- The secrets of these references are gone.
  abbrev pub IsErased : List SecretRef → Disk → Type 0
  IsErased refs d = All (λ r. lookup (record_storage_key r) d.records ≡ none) refs

  delete_secret-records :
      (r : SecretRef) (d d' : Disk)
      → delete_secret r d ≡ (ok tt, d')
      → d'.records ≡ remove (record_storage_key r) d.records
  unfolding delete_secret
  delete_secret-records r d d' h =
      let (n, eq) = write-eq-ok _ d d' h in ap (λ (x : Disk). x.records) eq

  -- A secret that is gone stays gone while others are deleted.
  for_each-gone :
      (refs : List SecretRef) (k : Text) (d d' : Disk)
      → for_each delete_secret refs d ≡ (ok tt, d')
      → lookup k d.records ≡ none
      → lookup k d'.records ≡ none
  unfolding for_each
  for_each-gone [] k d d' h gone =
      ap (λ (x : DidResult (Unit {0}) × Disk). lookup k x.1.records) (sym h) ∙ gone
  for_each-gone (r ∷ refs) k d d' h gone =
      let (u, c, first, rest) = bind-eq-ok (delete_secret r) _ d tt d' h in
      let eq = delete_secret-records r d c first in
      for_each-gone refs k c d' rest
        (rw eq (ground (arith, lookup-remove (record_storage_key r) k d.records)))

  for_each-IsErased :
      (refs : List SecretRef) (d d' : Disk)
      → for_each delete_secret refs d ≡ (ok tt, d')
      → IsErased refs d'
  unfolding for_each
  for_each-IsErased [] d d' h = tt
  for_each-IsErased (r ∷ refs) d d' h =
      let (u, c, first, rest) = bind-eq-ok (delete_secret r) _ d tt d' h in
      let eq = delete_secret-records r d c first in
      (
        for_each-gone refs (record_storage_key r) c d' rest (rw eq (simp (lookup-remove, eq_refl))),
        for_each-IsErased refs c d' rest,
      )

  remove_identity-eq-ok :
      (id : Text) (d d' : Disk)
      → remove_identity id d ≡ (ok tt, d')
      → (n : ℕ) × (d'
          ≡ record d { identities = remove (storage_key id) d.identities; writes_left = n })
  unfolding remove_identity
  remove_identity-eq-ok id d d' h = write-eq-ok _ d d' h

  remove_journal-eq-ok :
      (id : Text) (d d' : Disk)
      → remove_journal id d ≡ (ok tt, d')
      → (n : ℕ) × (d' ≡ record d { journals = remove (storage_key id) d.journals; writes_left = n })
  unfolding remove_journal
  remove_journal-eq-ok id d d' h = write-eq-ok _ d d' h

  -- The creation of this journal is undone: no file of the identity and none of its secrets.
  pub record IsUndone (j : CreationJournal) (d : Disk) : Type 0 where
    pub no_record : lookup (storage_key j.identity_id) d.identities ≡ none
    pub no_secret : IsErased j.secret_refs d

  erase-IsUndone :
      (j : CreationJournal) (c c1 d : Disk)
      → for_each delete_secret j.secret_refs c ≡ (ok tt, c1)
      → remove_identity j.identity_id c1 ≡ (ok tt, d)
      → IsUndone j d
  erase-IsUndone j c c1 d erased removed =
      let (n, eq) = remove_identity-eq-ok j.identity_id c1 d removed in
      record {
        no_record = rw eq (simp (lookup-remove, eq_refl));
        no_secret = rw eq (for_each-IsErased j.secret_refs c c1 erased);
      }

  rollback-IsUndone :
      (j : CreationJournal) (d d' : Disk) → finish_creation false j d ≡ (ok tt, d') → IsUndone j d'
  unfolding finish_creation
  rollback-IsUndone j d d' h =
      let (u, c, erased, removed) = bind-eq-ok (for_each delete_secret j.secret_refs) _ d tt d' h in
      erase-IsUndone j d c d' erased removed

  creation-cases :
      (b : Bool) (j : CreationJournal) (d d' : Disk)
      → finish_creation b j d ≡ (ok tt, d')
      → ((b ≡ true) × IsFinished j d d') ⊎ ((b ≡ false) × IsUndone j d')
  creation-cases true j d d' h = inl (refl, forward-IsFinished j d d' h)
  creation-cases false j d d' h = inr (refl, rollback-IsUndone j d d' h)

  -- When the recovery of a creation returns, its journal is gone. If the registry names the identity,
  -- the creation has gone forward: a record that was still being created is stored as an active one,
  -- one in another state is as it was, and no secret was deleted. If the registry does not name it,
  -- the record of the identity and all the secrets that the journal lists are gone. The registry is
  -- as it was.
  pub recover_create-outcome :
      (j : CreationJournal) (registry after : IdentityRegistry) (d d' : Disk)
      → recover_create j registry d ≡ (ok after, d')
      → (after ≡ registry)
        × (lookup (storage_key j.transaction_id) d'.journals ≡ none)
        × (((is_committed registry j ≡ true) × IsFinished j d d')
            ⊎ ((is_committed registry j ≡ false) × IsUndone j d'))
  unfolding recover_create
  recover_create-outcome j registry after d d' h =
      let (u, c, finished, h1) =
        bind-eq-ok (finish_creation (is_committed registry j) j) _ d after d' h in
      let (u1, c1, removed, h2) = bind-eq-ok (remove_journal j.transaction_id) _ c after d' h1 in
      let (n, eq) = remove_journal-eq-ok j.transaction_id c c1 removed in
      let (is_after, place) = lift-eq-ok (ok registry) c1 d' after h2 in
      let shape = sym place ∙ eq in
      (
        sym (ok-injective is_after),
        rw shape (simp (lookup-remove, eq_refl)),
        elim (creation-cases (is_committed registry j) j d c finished) [
          | inl (b, kept) ↦ inl (
            b,
            rw shape (record {
              found = kept.found;
              is_found = kept.is_found;
              same_did = kept.same_did;
              secrets_kept = kept.secrets_kept;
              is_activated = kept.is_activated;
            }),
          )
          | inr (b, undone) ↦
              inr (
                b,
                rw shape (record { no_record = undone.no_record; no_secret = undone.no_secret }),
              )
        ],
      )
