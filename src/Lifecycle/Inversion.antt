-- ===== src/Lifecycle/Inversion.antt =====
-- How an operation of lifecycle.rs that returned came to its result.
use anp_identity.Anp.{Anp}
use anp_identity.Assoc.{insert}
use anp_identity.Disk.{Disk, lift}
use anp_identity.Disk.Files.{place, read_identity, storage_key, write_identity}
use anp_identity.Disk.Outcome.{bind-eq-ok, lift-eq-ok, write-eq-ok}
use anp_identity.Document.{checked_inc}
use anp_identity.Errors.{DidResult, ok}
use anp_identity.Input.{profile_eq, role_eq}
use anp_identity.Input.Fields.{last}
use anp_identity.Json.{value_eq}
use anp_identity.Keystore.{secret_ref_eq}
use anp_identity.Lifecycle.{current_record_for_mutation, if_current, mutate, persist_record}
use anp_identity.Pending.{required_pending, transition_record}
use anp_identity.Prelude.{
  Bool-cases, Option-cases, ap, arith, eq_iff, inl, inr, list_eq, nat_eq, option_eq, pair_eq, some,
  sym, ℕ, ◌+◌, ◌==◌, ◌∙◌, ◌≡◌,
}
use anp_identity.Registry.{
  IdentityRecord, IdentityState, PendingRevisionRecord, PublicationState, capability_eq,
  key_state_eq, origin_eq, publication_eq, state_eq, summary_eq,
}
use anp_identity.Text.{Text}

pub checked_inc-eq-ok : (n m : ℕ) → checked_inc n ≡ ok m → m ≡ n + 1
unfolding checked_inc
checked_inc-eq-ok n m h = ground arith

pub required_pending-eq-ok :
    (r : IdentityRecord) (revision_id : Text) (p : PendingRevisionRecord)
    → required_pending r revision_id ≡ ok p
    → (r.pending_revision ≡ some p) × (p.revision_id ≡ revision_id)
unfolding required_pending
required_pending-eq-ok r revision_id p h = elim (Option-cases r.pending_revision) [
  | inl e ↦ absurd (ground (arith, e))
  | inr (q, e) ↦ ground (arith, e, eq_iff q.revision_id revision_id)
]

pub transition_record-eq-ok :
    (revision_id : Text) (expected following : PublicationState) (r s : IdentityRecord)
    → transition_record revision_id expected following r ≡ ok s
    → (p : PendingRevisionRecord) × (required_pending r revision_id ≡ ok p)
      × (p.state ≡ expected)
      × (s ≡ record r {
        pending_revision = some (record p { state = following; generation = p.generation + 1 });
      })
unfolding transition_record checked_inc
transition_record-eq-ok revision_id expected following r s h = ground arith

module _ ⦃anp : Anp⦄ where
  -- A mutation that returns has found the record that its caller holds, changed it, and written it.
  pub record IsMutated (change : IdentityRecord → DidResult IdentityRecord)
      (held s : IdentityRecord) (d d' : Disk) : Type 0 where
    pub before : IdentityRecord
    pub changed : IdentityRecord
    pub writes : ℕ
    pub is_read : read_identity held.identity_id d ≡ (ok before, d)
    pub is_held : before.generation ≡ held.generation
    pub is_active : before.state ≡ IdentityState.active
    pub is_changed : change before ≡ ok changed
    pub is_result : s ≡ record changed { generation = changed.generation + 1 }
    pub is_written : d' ≡ record d {
      identities = insert (storage_key s.identity_id) s d.identities;
      writes_left = writes;
    }

  if_current-eq-ok :
      (held q r : IdentityRecord)
      → if_current held q ≡ ok r
      → (q ≡ r) × (q.generation ≡ held.generation) × (q.state ≡ IdentityState.active)
  if_current-eq-ok held q r h = elim (Bool-cases (q.generation == held.generation)) [
    | inr f ↦ absurd (ground (arith, f))
    | inl t ↦ elim (Bool-cases (q.state == IdentityState.active)) [
      | inr f ↦ absurd (ground (arith, t, f))
      | inl u ↦ (
        ground (arith, t, u),
        (eq_iff q.generation held.generation).0 t,
        (eq_iff q.state IdentityState.active).0 u,
      )
    ]
  ]

  pub current_record-eq-ok :
      (held r : IdentityRecord) (d d' : Disk)
      → current_record_for_mutation held d ≡ (ok r, d')
      → (read_identity held.identity_id d ≡ (ok r, d))
        × (r.generation ≡ held.generation)
        × (r.state ≡ IdentityState.active)
        × (d ≡ d')
  unfolding current_record_for_mutation read_identity
  current_record-eq-ok held r d d' h =
      let (q, c, is_read, tested) = bind-eq-ok (read_identity held.identity_id) _ d r d' h in
      let (current, place) = lift-eq-ok (if_current held q) c d' r tested in
      let (is_same, g, a) = if_current-eq-ok held q r current in
      let stays : d ≡ c = ap (λ (x : DidResult IdentityRecord × Disk). x.1) is_read in
      (
        is_read ∙ cc (is_same, stays),
        ap (λ (x : IdentityRecord). x.generation) (sym is_same) ∙ g,
        ap (λ (x : IdentityRecord). x.state) (sym is_same) ∙ a,
        stays ∙ place,
      )

  pub persist_record-eq-ok :
      (r s : IdentityRecord) (d d' : Disk)
      → persist_record r d ≡ (ok s, d')
      → (n : ℕ) × (s ≡ record r { generation = r.generation + 1 })
        × (d' ≡ record d {
          identities = insert (storage_key s.identity_id) s d.identities;
          writes_left = n;
        })
  unfolding persist_record write_identity
  persist_record-eq-ok r s d d' h =
      let (g, c, is_inc, rest) = bind-eq-ok (lift (checked_inc r.generation)) _ d s d' h in
      let (inc, stays) = lift-eq-ok (checked_inc r.generation) d c g is_inc in
      let t = record r { generation = g } in
      let (u, c', is_write, last) = bind-eq-ok (write_identity t) _ c s d' rest in
      let (n, changed) = write-eq-ok _ c c' is_write in
      let (is_t, place) = lift-eq-ok (ok t) c' d' s last in
      let is_s : s ≡ t = cc is_t in
      (
        n,
        is_s ∙ ap (λ m. record r { generation = m }) (checked_inc-eq-ok r.generation g inc),
        rw (is_s) (
            sym place
            ∙ changed
            ∙ ap
                (λ (x : Disk). record x {
                  identities = insert (storage_key t.identity_id) t x.identities;
                  writes_left = n;
                })
                (sym stays)),
      )

  pub mutate-eq-ok :
      (change : IdentityRecord → DidResult IdentityRecord) (held s : IdentityRecord) (d d' : Disk)
      → mutate change held d ≡ (ok s, d')
      → IsMutated change held s d d'
  unfolding mutate
  mutate-eq-ok change held s d d' h =
      let (r, c, is_current, rest) = bind-eq-ok (current_record_for_mutation held) _ d s d' h in
      let (is_read, g, a, stays) = current_record-eq-ok held r d c is_current in
      let (t, e, is_change, last) = bind-eq-ok (lift (change r)) _ c s d' rest in
      let (changed, place) = lift-eq-ok (change r) c e t is_change in
      let (n, is_s, written) = persist_record-eq-ok t s e d' last in
      record {
        before = r;
        changed = t;
        writes = n;
        is_read = is_read;
        is_held = g;
        is_active = a;
        is_changed = changed;
        is_result = is_s;
        is_written =
            written
            ∙ ap
                (λ (x : Disk). record x {
                  identities = insert (storage_key s.identity_id) s x.identities;
                  writes_left = n;
                })
                (sym (stays ∙ place));
      }
