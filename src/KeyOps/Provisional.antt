-- ===== src/KeyOps/Provisional.antt =====
-- crates/anp-identity/src/crypto_ops.rs: the calls that use a key which is not active yet.
use anp_identity.Anp.{Anp}
use anp_identity.Assoc.Laws.{some-injective}
use anp_identity.Disk.{Disk}
use anp_identity.Disk.Files.{read_identity}
use anp_identity.Disk.Transitions.{transition_state_eq}
use anp_identity.Errors.{
  DidError, DidResult, conflict, invalid_identity, key_not_found, key_not_usable,
  key_role_violation, ok, ok-injective, ok_or, ok_or-eq-ok, refuse_if, refuse_if-eq-ok,
  result-eq-ok, ◌>>=◌,
}
use anp_identity.Input.{KeyRole, profile_eq, role_eq}
use anp_identity.Input.Fields.{last}
use anp_identity.Input.Kid.{canonicalize_kid}
use anp_identity.Json.{value_eq}
use anp_identity.KeyOps.{
  Curves, current_of, current_pending_enrollment, is_pending_managed, key_metadata,
  pending_metadata,
}
use anp_identity.KeyOps.Proofs.{Proofs}
use anp_identity.KeyOps.Uses.{Awaits}
use anp_identity.Keystore.{secret_ref_eq}
use anp_identity.Prelude.{
  Bool, Bool-cases, List, Option, [], ap, arith, eq_iff, find, inl, inr, is_some_and, list_eq,
  nat_eq, none, not, option_eq, pair_eq, refl, some, subst⁻¹, sym, true, ◌==◌, ◌||◌, ◌∙◌, ◌∷◌, ◌≡◌,
}
use anp_identity.Registry.{
  IdentityRecord, IdentityState, KeyMetadata, KeyState, LocalAuthorizationRecord,
  PendingEnrollmentRecord, capability_eq, key_state_eq, managed, origin_eq, publication_eq,
  state_eq, summary_eq,
}
use anp_identity.Text.{Text}

find-holds {ℓ} : {A : Type ℓ} (p : A → Bool) (xs : List A) (x : A) → find p xs ≡ some x → p x ≡ true
find-holds p [] x h = absurd (cc)
find-holds p (y ∷ ys) x h = elim (Bool-cases (p y)) [
  | inl t ↦ ap p (sym (some-injective (rw t at h))) ∙ t
  | inr f ↦ find-holds p ys x (rw f at h)
]

awaited :
    (enrollment_id : Text) (o : Option PendingEnrollmentRecord)
    → is_some_and (λ p. p.enrollment_id == enrollment_id) o ≡ true
    → (p : PendingEnrollmentRecord) × (o ≡ some p) × (p.enrollment_id ≡ enrollment_id)
awaited enrollment_id none h = absurd (cc)
awaited enrollment_id (some p) h = (p, refl, (eq_iff p.enrollment_id enrollment_id).0 h)

module _ ⦃anp : Anp⦄ ⦃curves : Curves⦄ ⦃proofs : Proofs⦄ where
  pub current_of-eq-ok :
      (held r : IdentityRecord) (d : Disk)
      → current_of held d ≡ ok r
      → ((read_identity held.identity_id d).0 ≡ ok r) × (r.generation ≡ held.generation)
  unfolding current_of
  current_of-eq-ok held r d h =
      let (q, is_read, h1) = result-eq-ok (read_identity held.identity_id d).0 _ r h in
      let (u, passed, last) =
        result-eq-ok (refuse_if (not (q.generation == held.generation)) conflict) _ r h1 in
      let is_r : q ≡ r = ok-injective last in
      (
        is_read ∙ last,
        ap (λ (x : IdentityRecord). x.generation) (sym is_r)
            ∙ (eq_iff q.generation held.generation).0
                (ground (arith, refuse_if-eq-ok _ conflict passed)),
      )

  enrollment-eq-ok :
      (enrollment_id : Text) (held r : IdentityRecord) (d : Disk)
      → current_pending_enrollment enrollment_id held d ≡ ok r
      → ((read_identity held.identity_id d).0 ≡ ok r)
        × (r.generation ≡ held.generation)
        × (r.state ≡ IdentityState.enrolling)
        × Awaits enrollment_id r
  unfolding current_pending_enrollment
  enrollment-eq-ok enrollment_id held r d h =
      let (q, is_current, h1) = result-eq-ok (current_of held d) _ r h in
      let (u, passed, last) =
        result-eq-ok
          (refuse_if
            (not (q.state == IdentityState.enrolling)
              || not (
                  is_some_and (λ (p : PendingEnrollmentRecord). p.enrollment_id == enrollment_id)
                    q.pending_enrollment))
            key_not_usable)
          _ r h1 in
      let (is_read, is_held) = current_of-eq-ok held q d is_current in
      let is_r : q ≡ r = ok-injective last in
      let clear = refuse_if-eq-ok _ key_not_usable passed in
      subst⁻¹
        (λ (x : IdentityRecord).
          ((read_identity held.identity_id d).0 ≡ ok x)
          × (x.generation ≡ held.generation)
          × (x.state ≡ IdentityState.enrolling)
          × Awaits enrollment_id x)
        (sym is_r)
        (
          is_read,
          is_held,
          (eq_iff q.state IdentityState.enrolling).0 (ground (arith, clear)),
          awaited enrollment_id q.pending_enrollment (ground (arith, clear)),
        )

  -- The key of a pending use, in the record that the store holds.
  unfoldable pub IsPendingKey : KeyRole → Text → IdentityRecord → KeyMetadata → Type 0
  IsPendingKey role kid r m =
      (key_metadata kid r ≡ ok m)
      × (m.role ≡ role)
      × (m.origin ≡ managed)
      × (m.state ≡ KeyState.pending)

  pub pending-IsPendingKey :
      (role : KeyRole) (refusal : DidError) (kid k : Text) (r : IdentityRecord) (m : KeyMetadata)
      → canonicalize_kid r.did kid ≡ ok k
      → pending_metadata role refusal k r ≡ ok m
      → IsPendingKey role kid r m × (m.kid ≡ k)
  unfolding pending_metadata key_metadata IsPendingKey
  pending-IsPendingKey role refusal kid k r m spelled h =
      let found = find (λ (x : KeyMetadata). x.kid == k) r.keys in
      let (x, q, h1) = result-eq-ok (ok_or key_not_found found) _ m h in
      let (u, passed, last) =
        result-eq-ok (refuse_if (not (is_pending_managed role x)) refusal) _ m h1 in
      let is_m : x ≡ m = ok-injective last in
      let clear = refuse_if-eq-ok (not (is_pending_managed role x)) refusal passed in
      let is_found : found ≡ some x = ok_or-eq-ok key_not_found found x q in
      subst⁻¹ (λ (y : KeyMetadata). IsPendingKey role kid r y × (y.kid ≡ k)) (sym is_m)
        (
          (
            ap (λ s. s >>= λ k. ok_or key_not_found (find (λ m. m.kid == k) r.keys)) spelled ∙ q,
            (eq_iff x.role role).0 (ground (arith, clear)),
            (eq_iff x.origin managed).0 (ground (arith, clear)),
            (eq_iff x.state KeyState.pending).0 (ground (arith, clear)),
          ),
          (eq_iff x.kid k).0 (find-holds (λ (y : KeyMetadata). y.kid == k) r.keys x is_found),
        )

  -- What both calls of an enrollment do before they use the key.
  pub pending_device {ℓ} :
      {A : Type ℓ} (role : KeyRole) (own : LocalAuthorizationRecord → Text) (enrollment_id : Text)
      (kid : Text) (spend_key : KeyMetadata → DidResult A) (held : IdentityRecord) (d : Disk)
      (a : A)
      → (current_pending_enrollment enrollment_id held d >>= λ r.
          ok_or invalid_identity r.local_authorization >>= λ local.
          canonicalize_kid r.did kid >>= λ k.
          refuse_if (not (k == own local)) key_role_violation >>= λ _.
          pending_metadata role key_not_usable k r >>= spend_key)
        ≡ ok a
      → (r : IdentityRecord) × (m : KeyMetadata) × ((read_identity held.identity_id d).0 ≡ ok r)
        × (r.generation ≡ held.generation)
        × (r.state ≡ IdentityState.enrolling)
        × IsPendingKey role kid r m
        × Awaits enrollment_id r
        × ((local : LocalAuthorizationRecord) × (r.local_authorization ≡ some local)
            × (m.kid ≡ own local))
  pending_device role own enrollment_id kid spend_key held d a h =
      let (r, waiting, h1) = result-eq-ok (current_pending_enrollment enrollment_id held d) _ a h in
      let (local, q, h2) = result-eq-ok (ok_or invalid_identity r.local_authorization) _ a h1 in
      let (k, spelled, h3) = result-eq-ok (canonicalize_kid r.did kid) _ a h2 in
      let (u, passed, h4) =
        result-eq-ok (refuse_if (not (k == own local)) key_role_violation) _ a h3 in
      let (m, looked, used) = result-eq-ok (pending_metadata role key_not_usable k r) _ a h4 in
      let (is_read, is_held, in_state, awaits) = enrollment-eq-ok enrollment_id held r d waiting in
      let (is_pending, is_kid) =
        pending-IsPendingKey role key_not_usable kid k r m spelled looked in
      let is_own : k ≡ own local =
        (eq_iff k (own local)).0 (ground (arith, refuse_if-eq-ok _ key_role_violation passed)) in
      (
        r,
        m,
        is_read,
        is_held,
        in_state,
        is_pending,
        awaits,
        (local, ok_or-eq-ok invalid_identity r.local_authorization local q, is_kid ∙ is_own),
      )
