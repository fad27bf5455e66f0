-- ===== src/KeyOps/PendingUses.antt =====
-- crates/anp-identity/src/crypto_ops.rs: what the calls for a pending key have found when they return.
use anp_identity.Anp.{Anp}
use anp_identity.Disk.{Disk}
use anp_identity.Disk.Transitions.{transition_state_eq}
use anp_identity.Errors.{ok, refuse_if, refuse_if-eq-ok, result-eq-ok, root_capability_unavailable}
use anp_identity.Input.{device_signing, e2ee_agreement, profile_eq, role_eq, root_control}
use anp_identity.Input.Kid.{canonicalize_kid}
use anp_identity.Json.{Value, value_eq}
use anp_identity.KeyOps.{
  Curves, agree, current_of, ecdh_pending_enrollment, pending_metadata, sign_pending_enrollment,
  sign_prepared,
}
use anp_identity.KeyOps.Proofs.{Proofs, sign_pending_root_object_proof}
use anp_identity.KeyOps.Provisional.{
  IsPendingKey, current_of-eq-ok, pending-IsPendingKey, pending_device,
}
use anp_identity.KeyOps.Uses.{
  Allows, IsUse, pending_ecdh_call, pending_object_call, pending_sign_call,
}
use anp_identity.Keystore.{secret_ref_eq}
use anp_identity.Prelude.{
  List, Option, arith, eq_iff, is_none, list_eq, nat_eq, not, option_eq, pair_eq, refl, ℕ, ◌==◌,
  ◌||◌, ◌≡◌,
}
use anp_identity.Registry.{
  IdentityRecord, IdentityState, LocalAuthorizationRecord, RootCapabilityState, capability_eq,
  key_state_eq, origin_eq, publication_eq, state_eq, summary_eq,
}
use anp_identity.Text.{Text}

module _ ⦃anp : Anp⦄ ⦃curves : Curves⦄ ⦃proofs : Proofs⦄ where
  pub pending_sign-IsUse :
      (root_key : List ℕ) (id kid : Text) (message : List ℕ) (held : IdentityRecord) (d : Disk)
      (a : List ℕ)
      → sign_pending_enrollment root_key id kid message held d ≡ ok a
      → (used : IsUse (pending_sign_call id kid message) held d) × Allows
          (pending_sign_call id kid message)
          used.current
          used.key
  unfolding sign_pending_enrollment IsPendingKey
  pending_sign-IsUse root_key id kid message held d a h =
      let (r, m, is_read, is_held, in_state, (found, role, origin, state), awaits, own) =
        pending_device device_signing (λ (x : LocalAuthorizationRecord). x.signing_kid) id kid
          (λ m. sign_prepared root_key held m message d) held d a h in
      (
        record {
          current = r;
          key = m;
          is_read = is_read;
          is_held = is_held;
          in_state = in_state;
          is_key = found;
          is_managed = origin;
          is_usable = state;
          is_serving = rw role refl;
        },
        (awaits, role, own),
      )

  pub pending_ecdh-IsUse :
      (root_key : List ℕ) (id kid : Text) (peer : List ℕ) (held : IdentityRecord) (d : Disk)
      (a : List ℕ)
      → ecdh_pending_enrollment root_key id kid peer held d ≡ ok a
      → (used : IsUse (pending_ecdh_call id kid peer) held d) × Allows
          (pending_ecdh_call id kid peer)
          used.current
          used.key
  unfolding ecdh_pending_enrollment IsPendingKey
  pending_ecdh-IsUse root_key id kid peer held d a h =
      let (r, m, is_read, is_held, in_state, (found, role, origin, state), awaits, own) =
        pending_device e2ee_agreement (λ (x : LocalAuthorizationRecord). x.e2ee_kid) id kid
          (λ m. agree root_key held m peer d) held d a h in
      (
        record {
          current = r;
          key = m;
          is_read = is_read;
          is_held = is_held;
          in_state = in_state;
          is_key = found;
          is_managed = origin;
          is_usable = state;
          is_serving = rw role refl;
        },
        (awaits, role, own),
      )

  pub pending_object-IsUse :
      (root_key : List ℕ) (kid : Text) (document : Value) (issuer : Text) (created : Option Text)
      (held : IdentityRecord) (d : Disk) (a : Value)
      → sign_pending_root_object_proof root_key kid document issuer created held d ≡ ok a
      → (used : IsUse (pending_object_call kid document issuer created) held d) × Allows
          (pending_object_call kid document issuer created)
          used.current
          used.key
  unfolding sign_pending_root_object_proof IsPendingKey
  pending_object-IsUse root_key kid document issuer created held d a h =
      let (r, q, h1) = result-eq-ok (current_of held d) _ a h in
      let (u, passed, h2) =
        result-eq-ok
          (refuse_if
            (not (r.state == IdentityState.active)
              || (not (r.root_capability == RootCapabilityState.pending)
                  || is_none r.pending_root_transfer))
            root_capability_unavailable)
          _ a h1 in
      let (k, spelled, h3) = result-eq-ok (canonicalize_kid r.did kid) _ a h2 in
      let (m, looked, rest) =
        result-eq-ok (pending_metadata root_control root_capability_unavailable k r) _ a h3 in
      let (is_read, is_held) = current_of-eq-ok held r d q in
      let ((found, role, origin, state), is_kid) =
        pending-IsPendingKey root_control root_capability_unavailable kid k r m spelled looked in
      let clear = refuse_if-eq-ok _ root_capability_unavailable passed in
      (
        record {
          current = r;
          key = m;
          is_read = is_read;
          is_held = is_held;
          in_state = (eq_iff r.state IdentityState.active).0 (ground (arith, clear));
          is_key = found;
          is_managed = origin;
          is_usable = state;
          is_serving = rw role refl;
        },
        (
          (eq_iff r.root_capability RootCapabilityState.pending).0 (ground (arith, clear)),
          ground (arith, clear),
        ),
      )
