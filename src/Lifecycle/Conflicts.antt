-- ===== src/Lifecycle/Conflicts.antt =====
-- Two handles of one identity in lifecycle.rs, and operations that fail.
use anp_identity.Anp.{Anp}
use anp_identity.Disk.{Disk}
use anp_identity.Disk.Files.{
  fill_authorization, fill_checkpoint, fill_fingerprint, finish_found, finish_record,
  infer_local_authorization,
}
use anp_identity.Disk.Transitions.{transition_state_eq}
use anp_identity.Document.{document_digest, root_key_fingerprint}
use anp_identity.Errors.{DidResult, chain, err, map_ok, ok, ok-injective}
use anp_identity.Input.{DidProfile, e1, for_did, profile_eq, role_eq, web}
use anp_identity.Json.{value_eq}
use anp_identity.Keystore.{secret_ref_eq}
use anp_identity.Lifecycle.Machine.{PublicationStep, abandon, advance, commit}
use anp_identity.Prelude.{
  Bool-cases, Option, ap, arith, eq_iff, inl, inr, is_none, is_some_and, list_eq, nat_eq, none, not,
  option_eq, pair_eq, refl, some, sym, ◌+◌, ◌==◌, ◌||◌, ◌∙◌, ◌≡◌,
}
use anp_identity.Registry.{
  IdentityRecord, capability_eq, key_state_eq, origin_eq, publication_eq, state_eq, summary_eq,
}
use anp_identity.Text.{Text, is_empty}

pub step-generation :
    (r s : IdentityRecord)
    → PublicationStep r s
    → (s.generation ≡ r.generation + 1) × (s.identity_id ≡ r.identity_id)
step-generation r s (advance p following found edge eq) =
    (ap (λ (x : IdentityRecord). x.generation) eq, ap (λ (x : IdentityRecord). x.identity_id) eq)
step-generation r s (commit p found state parent document settled g id) = (g, id)
step-generation r s (abandon p found state eq) =
    (ap (λ (x : IdentityRecord). x.generation) eq, ap (λ (x : IdentityRecord). x.identity_id) eq)

map_ok-eq-ok :
    {A B : Type 0} (f : A → B) (m : DidResult A) (b : B) → map_ok f m ≡ ok b → (a : A) × (b ≡ f a)
map_ok-eq-ok f (ok a) b h = (a, cc h)
map_ok-eq-ok f (err e) b h = cc

chain-eq-ok :
    {A B : Type 0} (m : DidResult A) (f : A → DidResult B) (b : B)
    → chain m f ≡ ok b
    → (a : A) × (m ≡ ok a) × (f a ≡ ok b)
chain-eq-ok (ok a) f b h = (a, refl, h)
chain-eq-ok (err e) f b h = cc

-- What reading a record does not change.
abbrev IsSameHead : IdentityRecord → IdentityRecord → Type 0
IsSameHead r q = (q.generation ≡ r.generation) × (q.identity_id ≡ r.identity_id)

module _ ⦃anp : Anp⦄ where
  fill_fingerprint-head :
      (p : DidProfile) (r q : IdentityRecord) → fill_fingerprint p r ≡ ok q → IsSameHead r q
  fill_fingerprint-head e1 r q h =
      elim (Bool-cases
        (is_none r.root_key_fingerprint || is_some_and is_empty r.root_key_fingerprint)) [
          | inl t ↦
              let (f, eq) = map_ok-eq-ok _ (root_key_fingerprint r.document) q (rw t at h) in
              (
                ap (λ (x : IdentityRecord). x.generation) eq,
                ap (λ (x : IdentityRecord). x.identity_id) eq,
              )
          | inr f ↦
              let same : r ≡ q = ok-injective (rw f at h) in
              (
                ap (λ (x : IdentityRecord). x.generation) (sym same),
                ap (λ (x : IdentityRecord). x.identity_id) (sym same),
              )
        ]
  fill_fingerprint-head web r q h = ground arith

  fill_checkpoint-head : (r q : IdentityRecord) → fill_checkpoint r ≡ ok q → IsSameHead r q
  fill_checkpoint-head r q h = elim (Bool-cases (is_none r.checkpoint)) [
    | inl t ↦
        let (f, eq) = map_ok-eq-ok _ (document_digest r.document) q (rw t at h) in
        (
          ap (λ (x : IdentityRecord). x.generation) eq,
          ap (λ (x : IdentityRecord). x.identity_id) eq,
        )
    | inr f ↦
        let same : r ≡ q = ok-injective (rw f at h) in
        (
          ap (λ (x : IdentityRecord). x.generation) (sym same),
          ap (λ (x : IdentityRecord). x.identity_id) (sym same),
        )
  ]

  fill_authorization-head : (r q : IdentityRecord) → fill_authorization r ≡ ok q → IsSameHead r q
  fill_authorization-head r q h = elim (Bool-cases (is_none r.local_authorization)) [
    | inl t ↦
        let (f, eq) = map_ok-eq-ok _ (infer_local_authorization r.document r.keys) q (rw t at h) in
        (
          ap (λ (x : IdentityRecord). x.generation) eq,
          ap (λ (x : IdentityRecord). x.identity_id) eq,
        )
    | inr f ↦
        let same : r ≡ q = ok-injective (rw f at h) in
        (
          ap (λ (x : IdentityRecord). x.generation) (sym same),
          ap (λ (x : IdentityRecord). x.identity_id) (sym same),
        )
  ]

  finish_record-head :
      (identity_id : Text) (r q : IdentityRecord)
      → finish_record identity_id r ≡ ok q
      → IsSameHead r q × (q.identity_id ≡ identity_id)
  unfolding finish_record
  finish_record-head identity_id r q h =
      elim (Bool-cases (not (r.schema_version == 1) || not (r.identity_id == identity_id))) [
        | inl t ↦ absurd (cc (rw t at h))
        | inr f ↦
            let (p, profile, h1) = chain-eq-ok (for_did r.did) _ q (rw f at h) in
            let (a, filled, h2) = chain-eq-ok (fill_fingerprint p r) _ q h1 in
            let (b, checked, h3) = chain-eq-ok (fill_checkpoint a) _ q h2 in
            let (g1, i1) = fill_fingerprint-head p r a filled in
            let (g2, i2) = fill_checkpoint-head a b checked in
            let (g3, i3) = fill_authorization-head b q h3 in
            let id : r.identity_id ≡ identity_id =
              (eq_iff r.identity_id identity_id).0 (ground (arith, f)) in
            ((g3 ∙ g2 ∙ g1, i3 ∙ i2 ∙ i1), i3 ∙ i2 ∙ i1 ∙ id)
      ]

  pub finish_found-head :
      (identity_id : Text) (o : Option IdentityRecord) (q : IdentityRecord)
      → finish_found identity_id o ≡ ok q
      → (r : IdentityRecord) × (o ≡ some r)
        × (q.generation ≡ r.generation)
        × (q.identity_id ≡ identity_id)
  finish_found-head identity_id none q h = cc
  finish_found-head identity_id (some r) q h =
      let ((g, i), id) = finish_record-head identity_id r q h in (r, refl, g, id)
