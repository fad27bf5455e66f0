-- ===== src/Adoption/Settle/Laws.antt =====
-- What adopting a document does to an identity, by the state that it is in.
use anp_identity.Adoption.{
  AdoptDocumentOutcome, AdoptVerifiedDocumentSpec, activated, revoke_key, revoked_kids, unchanged,
  updated,
}
use anp_identity.Adoption.Settle.{local_is_authorized}
use anp_identity.Anp.{Anp}
use anp_identity.Input.{profile_eq, role_eq}
use anp_identity.Json.{value_eq}
use anp_identity.Keystore.{secret_ref_eq}
use anp_identity.Prelude.{
  All, false, list_eq, map, nat_eq, none, option_eq, pair_eq, true, ◌≡◌, ◌≢◌, ◌⊎◌,
}
use anp_identity.Registry.{
  IdentityRecord, IdentityState, KeyState, capability_eq, key_state_eq, origin_eq, publication_eq,
  state_eq, summary_eq,
}

-- The outcomes, each with what it says of the record before and after.
pub data Adopted ⦃anp : Anp⦄ (spec : AdoptVerifiedDocumentSpec) (r s : IdentityRecord)
    : AdoptDocumentOutcome → Type 0 where
  activates :
      r.state ≡ IdentityState.enrolling
      → local_is_authorized r spec.document ≡ true
      → s.state ≡ IdentityState.active
      → All (λ key. key.state ≢ KeyState.pending) s.keys
      → (s.pending_enrollment ≡ none) × (s.pending_request_signing ≡ none)
      → Adopted spec r s activated
  revokes :
      r.state ≡ IdentityState.active
      → local_is_authorized r spec.document ≡ false
      → s.state ≡ IdentityState.revoked
      → s.keys ≡ map (revoke_key (revoked_kids r)) r.keys
      → Adopted spec r s AdoptDocumentOutcome.revoked
  stays_revoked :
      r.state ≡ IdentityState.revoked
      → s.state ≡ IdentityState.revoked
      → s.keys ≡ r.keys
      → Adopted spec r s AdoptDocumentOutcome.revoked
  keeps :
      {outcome : AdoptDocumentOutcome}
      → r.state ≡ IdentityState.active
      → local_is_authorized r spec.document ≡ true
      → s.state ≡ IdentityState.active
      → s.keys ≡ r.keys
      → (outcome ≡ updated) ⊎ (outcome ≡ unchanged)
      → Adopted spec r s outcome

-- What accepting a document leaves as it is.
record IsKept (t s : IdentityRecord) : Type 0 where
  state : s.state ≡ t.state
  keys : s.keys ≡ t.keys
  enrollment : s.pending_enrollment ≡ t.pending_enrollment
  request_signing : s.pending_request_signing ≡ t.pending_request_signing
