-- ===== src/KeyOps/Calls.antt =====
-- crates/anp-identity/src/crypto_ops.rs: every call that uses a key which the document names, and
-- what follows for all of them.
use anp_identity.Anp.{Anp}
use anp_identity.Disk.{Disk}
use anp_identity.Disk.Files.{read_identity}
use anp_identity.Disk.Transitions.{transition_state_eq}
use anp_identity.Errors.{DidResult, err, is_ok, key_not_found, ok, ok-injective, ok_or, ◌>>=◌}
use anp_identity.Input.{KeyRole, e1, for_did, profile_eq, role_eq}
use anp_identity.Input.Kid.{canonicalize_kid}
use anp_identity.Json.{Value, value_eq}
use anp_identity.KeyOps.{
  Curves, device_signing_metadata, ecdh, key_metadata, request_signing_metadata,
  require_operational, sign_by,
}
use anp_identity.KeyOps.Access.{
  IsAuthorized, Purpose, document_proof, key_agreement, message_signature, object_proof,
  operational-guarded, possession_proof, request_signature, serves,
}
use anp_identity.KeyOps.PendingUses.{pending_ecdh-IsUse, pending_object-IsUse, pending_sign-IsUse}
use anp_identity.KeyOps.Proofs.{
  ProofOptions, Proofs, http_signature_headers, legacy_did_wba_header, sign_document_proof,
  sign_object_proof, sign_origin_proof,
}
use anp_identity.KeyOps.Uses.{
  Allows, Call, IsUse, document_call, ecdh_call, http_call, is_provisional, key_state_of, kid_of,
  legacy_call, object_call, origin_call, pending_ecdh_call, pending_object_call, pending_sign_call,
  purpose_of, sign_call, state_of, succeeds,
}
use anp_identity.Keystore.{secret_ref_eq}
use anp_identity.Prelude.{
  Bool, Bool-cases, List, ap, arith, false, find, if◌then◌else◌, inl, inr, list_eq, nat_eq,
  option_eq, pair_eq, refl, sym, true, ℕ, ◌==◌, ◌∙◌, ◌≡◌,
}
use anp_identity.Registry.{
  IdentityRecord, IdentityState, KeyMetadata, KeyState, RootCapabilityState, capability_eq,
  key_state_eq, origin_eq, publication_eq, state_eq, summary_eq,
}
use anp_identity.Text.{Text}

-- What a use of a key is good for in the end.
pub data End : Type 0 where
  statement secrecy control : End

abbrev pub end_of : Purpose → End
end_of message_signature = statement
end_of key_agreement = secrecy
end_of object_proof = statement
end_of document_proof = control
end_of request_signature = statement
end_of possession_proof = statement

-- The states of a key in which it may serve a purpose: a root signs the document's proof when it is
-- active, and shows that it is held while it is pending.
abbrev admits : Purpose → KeyState → Bool
admits document_proof state = state == KeyState.active
admits possession_proof state = state == KeyState.pending
admits _ state = true

serves-end :
    (p q : Purpose) (role : KeyRole) (state : KeyState)
    → serves p role ≡ true
    → serves q role ≡ true
    → admits p state ≡ true
    → admits q state ≡ true
    → end_of p ≡ end_of q
serves-end p q role state h k a b = ground arith

module _ ⦃anp : Anp⦄ ⦃curves : Curves⦄ ⦃proofs : Proofs⦄ where
  pub is_ok-value {ℓ} : {A : Type ℓ} (m : DidResult A) → is_ok m ≡ true → (a : A) × (m ≡ ok a)
  is_ok-value (ok a) h = (a, refl)
  is_ok-value (err e) h = absurd (cc)

  sign_by-IsAuthorized :
      (root_key : List ℕ) (kid : Text) (message : List ℕ) (held : IdentityRecord) (d : Disk)
      → is_ok (sign_by root_key kid message held d) ≡ true
      → IsAuthorized message_signature kid held d
  unfolding sign_by
  sign_by-IsAuthorized root_key kid message held d h =
      let (a, q) = is_ok-value _ h in (operational-guarded message_signature kid _ held d a q).0

  ecdh-IsAuthorized :
      (root_key : List ℕ) (kid : Text) (peer : List ℕ) (held : IdentityRecord) (d : Disk)
      → is_ok (ecdh root_key kid peer held d) ≡ true
      → IsAuthorized key_agreement kid held d
  unfolding ecdh
  ecdh-IsAuthorized root_key kid peer held d h =
      let (a, q) = is_ok-value _ h in (operational-guarded key_agreement kid _ held d a q).0

  -- A call that goes on from a metadata which it looks up first.
  result-first {ℓ κ} :
      {A : Type ℓ} {B : Type κ} (m : DidResult A) (f : A → DidResult B)
      → is_ok (m >>= f) ≡ true
      → (a : A) × (m ≡ ok a)
  result-first (ok a) f h = (a, refl)
  result-first (err e) f h = absurd (cc)

  device-IsAuthorized :
      (kid : Text) (held : IdentityRecord) (d : Disk) (m : KeyMetadata)
      → device_signing_metadata kid held d ≡ ok m
      → IsAuthorized object_proof kid held d
  unfolding device_signing_metadata
  device-IsAuthorized kid held d m h = (operational-guarded object_proof kid _ held d m h).0

  request-IsAuthorized :
      (kid : Text) (held : IdentityRecord) (d : Disk) (m : KeyMetadata)
      → request_signing_metadata kid held d ≡ ok m
      → IsAuthorized request_signature kid held d
  unfolding request_signing_metadata
  request-IsAuthorized kid held d m h = (operational-guarded request_signature kid _ held d m h).0

  -- The order of the first two checks does not matter to what is known when both pass.
  document-IsAuthorized :
      (root_key : List ℕ) (document : Value) (kid : Text) (options : ProofOptions)
      (held : IdentityRecord) (d : Disk)
      → is_ok (sign_document_proof root_key document kid options held d) ≡ true
      → IsAuthorized document_proof kid held d
  unfolding sign_document_proof
  document-IsAuthorized root_key document kid options held d h =
      elim (Bool-cases (held.root_capability == RootCapabilityState.active)) [
        | inl t ↦
            let (a, q) = is_ok-value _ h in
            (operational-guarded document_proof kid _ held d a (rw t at q)).0
        | inr f ↦
            let (u, q) = result-first (require_operational held d) _ h in
            absurd (cc (rw (q, f) at h))
      ]

  -- The calls for an active key.
  active-IsUse :
      (call : Call) (held : IdentityRecord) (d : Disk)
      → is_provisional call ≡ false
      → state_of call ≡ IdentityState.active
      → IsAuthorized (purpose_of call) (kid_of call) held d
      → (used : IsUse call held d) × Unit {0}
  active-IsUse call held d settled_key state x = (
    record {
      current = x.current;
      key = x.key;
      is_read = x.is_read;
      is_held = x.is_held;
      in_state = x.is_active ∙ sym state;
      is_key = rw settled_key x.is_key;
      is_managed = x.is_managed;
      is_usable = rw settled_key x.is_usable;
      is_serving = x.is_serving;
    },
    tt,
  )

  pub call-IsAuthorized :
      (root_key : List ℕ) (call : Call) (held : IdentityRecord) (d : Disk)
      → succeeds root_key call held d ≡ true
      → (used : IsUse call held d) × Allows call used.current used.key
  unfolding succeeds sign_object_proof sign_origin_proof legacy_did_wba_header
      http_signature_headers
  call-IsAuthorized root_key (sign_call kid message) held d h =
      active-IsUse (sign_call kid message) held d refl refl
        (sign_by-IsAuthorized root_key kid message held d h)
  call-IsAuthorized root_key (ecdh_call kid peer) held d h =
      active-IsUse (ecdh_call kid peer) held d refl refl
        (ecdh-IsAuthorized root_key kid peer held d h)
  call-IsAuthorized root_key (object_call kid document issuer created) held d h =
      let (m, q) = result-first (device_signing_metadata kid held d) _ h in
      active-IsUse (object_call kid document issuer created) held d refl refl
        (device-IsAuthorized kid held d m q)
  call-IsAuthorized root_key (document_call document kid options) held d h =
      active-IsUse (document_call document kid options) held d refl refl
        (document-IsAuthorized root_key document kid options held d h)
  call-IsAuthorized root_key (origin_call method meta body kid options) held d h =
      let (m, q) = result-first (request_signing_metadata kid held d) _ h in
      active-IsUse (origin_call method meta body kid options) held d refl refl
        (request-IsAuthorized kid held d m q)
  call-IsAuthorized root_key (legacy_call kid domain version) held d h =
      let (profile, p) = result-first (for_did held.did) _ h in
      elim (Bool-cases (profile == e1)) [
        | inr f ↦ absurd (cc (rw (p, f) at h))
        | inl t ↦
            let (m, q) = result-first (request_signing_metadata kid held d) _ (rw (p, t) at h) in
            active-IsUse (legacy_call kid domain version) held d refl refl
              (request-IsAuthorized kid held d m q)
      ]
  call-IsAuthorized root_key (http_call kid url method headers body options) held d h =
      let (m, q) = result-first (request_signing_metadata kid held d) _ h in
      active-IsUse (http_call kid url method headers body options) held d refl refl
        (request-IsAuthorized kid held d m q)
  call-IsAuthorized root_key (pending_sign_call id kid message) held d h =
      let (a, q) = is_ok-value _ h in pending_sign-IsUse root_key id kid message held d a q
  call-IsAuthorized root_key (pending_ecdh_call id kid peer) held d h =
      let (a, q) = is_ok-value _ h in pending_ecdh-IsUse root_key id kid peer held d a q
  call-IsAuthorized root_key (pending_object_call kid document issuer created) held d h =
      let (a, q) = is_ok-value _ h in
      pending_object-IsUse root_key kid document issuer created held d a q

  call-admits : (call : Call) → admits (purpose_of call) (key_state_of call) ≡ true
  call-admits (sign_call kid message) = refl
  call-admits (ecdh_call kid peer) = refl
  call-admits (object_call kid document issuer created) = refl
  call-admits (document_call document kid options) = refl
  call-admits (origin_call method meta body kid options) = refl
  call-admits (legacy_call kid domain version) = refl
  call-admits (http_call kid url method headers body options) = refl
  call-admits (pending_sign_call id kid message) = refl
  call-admits (pending_ecdh_call id kid peer) = refl
  call-admits (pending_object_call kid document issuer created) = refl

  -- The key of a call, when the caller holds the stored record.
  held-key :
      (call : Call) (held : IdentityRecord) (d : Disk) (used : IsUse call held d)
      → (read_identity held.identity_id d).0 ≡ ok held
      → key_metadata (kid_of call) held ≡ ok used.key
  held-key call held d used stored =
      let is_one : used.current ≡ held = ok-injective (sym used.is_read ∙ stored) in
      let source : (if is_provisional call then used.current else held) ≡ held =
        elim (Bool-cases (is_provisional call)) [ inl t ↦ rw t is_one | inr f ↦ rw f refl ] in
      ap (key_metadata (kid_of call)) (sym source) ∙ used.is_key

  -- No key serves two ends while the stored record stays as it is: of the calls that name one key of
  -- it, however they spell it, those that agree on a secret, those that sign a document's proof and
  -- those that sign messages, requests or objects exclude each other. This holds of the calls for
  -- pending keys too: a root that proves by an object that it is held cannot sign a document yet.
  pub role_separation :
      (root_key : List ℕ) (a b : Call) (held : IdentityRecord) (d e : Disk)
      → (read_identity held.identity_id d).0 ≡ ok held
      → (read_identity held.identity_id e).0 ≡ ok held
      → canonicalize_kid held.did (kid_of a) ≡ canonicalize_kid held.did (kid_of b)
      → succeeds root_key a held d ≡ true
      → succeeds root_key b held e ≡ true
      → end_of (purpose_of a) ≡ end_of (purpose_of b)
  unfolding key_metadata
  role_separation root_key a b held d e stored still is_same p q =
      let (x, allowed) = call-IsAuthorized root_key a held d p in
      let (y, granted) = call-IsAuthorized root_key b held e q in
      let keys_agree : key_metadata (kid_of a) held ≡ key_metadata (kid_of b) held =
        ap (λ m. m >>= λ k. ok_or key_not_found (find (λ m. m.kid == k) held.keys)) is_same in
      let is_one : x.key ≡ y.key =
        ok-injective (sym (held-key a held d x stored) ∙ keys_agree ∙ held-key b held e y still) in
      serves-end (purpose_of a) (purpose_of b) x.key.role x.key.state x.is_serving
        (rw is_one y.is_serving) (ap (admits (purpose_of a)) x.is_usable ∙ call-admits a)
        (ap (admits (purpose_of b)) (ap (λ (m : KeyMetadata). m.state) is_one ∙ y.is_usable)
          ∙ call-admits b)
