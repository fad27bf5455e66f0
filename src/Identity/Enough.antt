-- ===== src/Identity/Enough.antt =====
-- Enough writes for the recovery of a creation that was cut off (identity.rs).
use anp_identity.Anp.{Anp}
use anp_identity.Assoc.{lookup}
use anp_identity.Disk.{Disk, for_each, write}
use anp_identity.Disk.Files.{delete_secret, remove_identity, remove_journal, storage_key}
use anp_identity.Disk.Outcome.{bind-of-ok}
use anp_identity.Errors.{ok}
use anp_identity.Identity.{finish_creation, is_committed, recover_create}
use anp_identity.Identity.Rollback.{IsUndone, recover_create-outcome}
use anp_identity.Input.Fields.{last}
use anp_identity.Keystore.{SecretRef}
use anp_identity.Prelude.{
  List, [], arith, false, inl, inr, length, none, refl, suc, ℕ, ◌+◌, ◌∙◌, ◌∷◌, ◌≡◌,
}
use anp_identity.Registry.Journals.{CreationJournal, IdentityRegistry}
use anp_identity.Text.{Text}

module _ ⦃anp : Anp⦄ where
  write-ok :
      (change : Disk → Disk) (d : Disk) (n : ℕ)
      → d.writes_left ≡ suc n
      → write change d ≡ (ok tt, change (record d { writes_left = n }))
  unfolding write
  write-ok change d n h = rw h

  delete_secret-ok :
      (r : SecretRef) (d : Disk) (n : ℕ)
      → d.writes_left ≡ suc n
      → (c : Disk) × (delete_secret r d ≡ (ok tt, c)) × (c.writes_left ≡ n)
  unfolding delete_secret
  delete_secret-ok r d n h = (_, write-ok _ d n h, refl)

  for_each-delete_secret :
      (refs : List SecretRef) (d : Disk) (n : ℕ)
      → d.writes_left ≡ length refs + n
      → (c : Disk) × (for_each delete_secret refs d ≡ (ok tt, c)) × (c.writes_left ≡ n)
  unfolding for_each
  for_each-delete_secret [] d n h = (d, refl, omega (arith, h))
  for_each-delete_secret (r ∷ refs) d n h =
      let (c, deleted, left) = delete_secret-ok r d (length refs + n) (h ∙ omega arith) in
      let (e, rest, last) = for_each-delete_secret refs c n left in
      (e, bind-of-ok (delete_secret r) _ d tt c deleted ∙ rest, last)

  remove_identity-ok :
      (id : Text) (d : Disk) (n : ℕ)
      → d.writes_left ≡ suc n
      → (c : Disk) × (remove_identity id d ≡ (ok tt, c)) × (c.writes_left ≡ n)
  unfolding remove_identity
  remove_identity-ok id d n h = (_, write-ok _ d n h, refl)

  remove_journal-ok :
      (id : Text) (d : Disk) (n : ℕ)
      → d.writes_left ≡ suc n
      → (c : Disk) × (remove_journal id d ≡ (ok tt, c)) × (c.writes_left ≡ n)
  unfolding remove_journal
  remove_journal-ok id d n h = (_, write-ok _ d n h, refl)

  -- A creation that the registry does not name is undone whenever there is a write for each of its
  -- secrets and two more: the recovery returns the registry as it was, and then neither the journal,
  -- nor the record of the identity, nor any of the secrets is left.
  pub recover_create-undoes :
      (j : CreationJournal) (registry : IdentityRegistry) (d : Disk) (n : ℕ)
      → is_committed registry j ≡ false
      → d.writes_left ≡ length j.secret_refs + (2 + n)
      → (d' : Disk) × (recover_create j registry d ≡ (ok registry, d'))
        × IsUndone j d'
        × (lookup (storage_key j.transaction_id) d'.journals ≡ none)
  unfolding recover_create finish_creation
  recover_create-undoes j registry d n named left =
      let (c, erased, left1) = for_each-delete_secret j.secret_refs d (2 + n) left in
      let (c1, removed, left2) = remove_identity-ok j.identity_id c (suc n) (left1 ∙ omega arith) in
      let (d', cleared, left3) = remove_journal-ok j.transaction_id c1 n left2 in
      let finished : finish_creation (is_committed registry j) j d ≡ (ok tt, c1) =
        rw named (bind-of-ok (for_each delete_secret j.secret_refs) _ d tt c erased ∙ removed) in
      let returned : recover_create j registry d ≡ (ok registry, d') =
        bind-of-ok (finish_creation (is_committed registry j) j) _ d tt c1 finished
        ∙ bind-of-ok (remove_journal j.transaction_id) _ c1 tt d' cleared in
      let (same_registry, no_journal, how) =
        recover_create-outcome j registry registry d d' returned in
      (
        d',
        returned,
        elim how [ inl (b, kept) ↦ absurd (cc (b, named)) | inr (b, undone) ↦ undone ],
        no_journal,
      )
