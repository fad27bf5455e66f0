-- ===== src/Lifecycle/Aborted.antt =====
-- `abort_update_inner` of lifecycle.rs: how a call that returned came to its result.
use anp_identity.Adoption.{AdoptVerifiedDocumentSpec}
use anp_identity.Anp.{Anp}
use anp_identity.Assoc.{insert}
use anp_identity.Disk.{Action, Disk, for_each, lift, write}
use anp_identity.Disk.Files.{
  delete_secret, read_identity, remove_update_journal, storage_key, write_update_journal,
}
use anp_identity.Disk.Outcome.{bind-eq-ok, lift-eq-ok, write-eq-ok}
use anp_identity.Errors.{ok, ok-injective}
use anp_identity.Input.Fields.{first}
use anp_identity.Keystore.{SecretRef}
use anp_identity.Lifecycle.{abort_update_inner, current_record_for_mutation, persist_record}
use anp_identity.Lifecycle.Inversion.{current_record-eq-ok, persist_record-eq-ok}
use anp_identity.Pending.{check_abort, required_pending}
use anp_identity.Prelude.{List, Option, [], ap, none, refl, sym, ◌+◌, ◌∙◌, ◌∷◌, ◌≡◌}
use anp_identity.Registry.{IdentityRecord, PendingRevisionRecord}
use anp_identity.Registry.Journals.{UpdateJournal}
use anp_identity.Text.{Text}

-- What keeps the files of the identities as they are.
abbrev pub KeepsIdentities : Action (Unit {0}) → Type 0
KeepsIdentities m = (d d' : Disk) → m d ≡ (ok tt, d') → d'.identities ≡ d.identities

write-KeepsIdentities :
    (change : Disk → Disk)
    → ((d : Disk) → (change d).identities ≡ d.identities)
    → KeepsIdentities (write change)
write-KeepsIdentities change keeps d d' h =
    let (n, eq) = write-eq-ok change d d' h in
    ap (λ (x : Disk). x.identities) eq ∙ keeps (record d { writes_left = n })

for_each-KeepsIdentities :
    {A : Type 0} (step : A → Action (Unit {0})) (xs : List A)
    → ((x : A) → KeepsIdentities (step x))
    → KeepsIdentities (for_each step xs)
unfolding for_each
for_each-KeepsIdentities step [] keeps d d' h = ap (λ x. x.1.identities) (sym h)
for_each-KeepsIdentities step (x ∷ xs) keeps d d' h =
    let (u, c, first, rest) = bind-eq-ok (step x) _ d tt d' h in
    for_each-KeepsIdentities step xs keeps c d' rest ∙ keeps x d c first

module _ ⦃anp : Anp⦄ where
  delete_secret-KeepsIdentities : (r : SecretRef) → KeepsIdentities (delete_secret r)
  unfolding delete_secret
  delete_secret-KeepsIdentities r = write-KeepsIdentities _ (λ d. refl)

  write_update_journal-KeepsIdentities :
      (j : UpdateJournal) → KeepsIdentities (write_update_journal j)
  unfolding write_update_journal
  write_update_journal-KeepsIdentities j = write-KeepsIdentities _ (λ d. refl)

  remove_update_journal-KeepsIdentities :
      (revision_id : Text) → KeepsIdentities (remove_update_journal revision_id)
  unfolding remove_update_journal
  remove_update_journal-KeepsIdentities revision_id = write-KeepsIdentities _ (λ d. refl)

  pub record IsAborted (revision_id : Text) (rejection : Option AdoptVerifiedDocumentSpec)
      (held s : IdentityRecord) (d d' : Disk) : Type 0 where
    pub before : IdentityRecord
    pub pending : PendingRevisionRecord
    pub is_read : read_identity held.identity_id d ≡ (ok before, d)
    pub is_held : before.generation ≡ held.generation
    pub is_required : required_pending before revision_id ≡ ok pending
    pub is_checked : check_abort held.did rejection before pending ≡ ok tt
    pub is_result :
        s ≡ record before { pending_revision = none; generation = before.generation + 1 }
    pub is_written : d'.identities ≡ insert (storage_key s.identity_id) s d.identities

  pub abort-eq-ok :
      (now revision_id : Text) (rejection : Option AdoptVerifiedDocumentSpec)
      (held s : IdentityRecord) (d d' : Disk)
      → abort_update_inner now revision_id rejection held d ≡ (ok s, d')
      → IsAborted revision_id rejection held s d d'
  unfolding abort_update_inner
  abort-eq-ok now revision_id rejection held s d d' h =
      let (r, c, current, h1) = bind-eq-ok (current_record_for_mutation held) _ d s d' h in
      let (is_read, is_held, is_active, e) = current_record-eq-ok held r d c current in
      let (p, c1, required, h2) = bind-eq-ok (lift (required_pending r revision_id)) _ c s d' h1 in
      let (is_required, x1) = lift-eq-ok (required_pending r revision_id) c c1 p required in
      let (u, c2, checked, h3) =
        bind-eq-ok (lift (check_abort held.did rejection r p)) _ c1 s d' h2 in
      let (is_checked, x2) = lift-eq-ok (check_abort held.did rejection r p) c1 c2 tt checked in
      let (u1, c3, journaled, h4) = bind-eq-ok (write_update_journal _) _ c2 s d' h3 in
      let (t, c4, persisted, h5) =
        bind-eq-ok (persist_record (record r { pending_revision = none })) _ c3 s d' h4 in
      let (n, is_t, written) =
        persist_record-eq-ok (record r { pending_revision = none }) t c3 c4 persisted in
      let (u2, c5, erased, h6) =
        bind-eq-ok (for_each delete_secret p.pending_secret_refs) _ c4 s d' h5 in
      let (u3, c6, removed, h7) = bind-eq-ok (remove_update_journal revision_id) _ c5 s d' h6 in
      let (is_s, x3) = lift-eq-ok (ok t) c6 d' s h7 in
      let same : t ≡ s = ok-injective is_s in
      let start : c2.identities ≡ d.identities =
        ap (λ (x : Disk). x.identities) (sym (e ∙ x1 ∙ x2)) in
      record {
        before = r;
        pending = p;
        is_read = is_read;
        is_held = is_held;
        is_required = is_required;
        is_checked = is_checked;
        is_result = sym same ∙ is_t;
        is_written =
            ap (λ (x : Disk). x.identities) (sym x3)
            ∙ remove_update_journal-KeepsIdentities revision_id c5 c6 removed
            ∙ for_each-KeepsIdentities delete_secret p.pending_secret_refs
                delete_secret-KeepsIdentities c4 c5 erased
            ∙ ap (λ (x : Disk). x.identities) written
            ∙ ap (λ m. insert (storage_key t.identity_id) t m)
                (write_update_journal-KeepsIdentities _ c2 c3 journaled ∙ start)
            ∙ ap (λ (x : IdentityRecord). insert (storage_key x.identity_id) x d.identities) same;
      }
