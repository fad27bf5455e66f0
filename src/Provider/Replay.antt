-- ===== src/Provider/Replay.antt =====
-- Replay protection of provider_authorization.rs, over every later history of the authority.
use anp_identity.Assoc.{lookup}
use anp_identity.Assoc.Laws.{insert-All, lookup-insert, lookup-retain_values, retain_values-All}
use anp_identity.Errors.{ok}
use anp_identity.Input.{profile_eq, role_eq}
use anp_identity.Json.{value_eq}
use anp_identity.Prelude.{
  All, Bool-cases, List, ap, arith, eq_iff, eq_refl, inl, inr, list_eq, ltb, nat_eq, ne_iff,
  option_eq, pair_eq, refl, some, sym, true, ℕ, ◌<◌, ◌==◌, ◌∙◌, ◌≡◌, ◌≢◌, ◌≤◌, ◌⊎◌,
}
use anp_identity.Provider.{
  Authority, IssuedAuthorizationContext, OneTimeOperationBinding, ProviderCapabilityLease,
  TokenClaims, TokenCodec, acquire_lease_at, dispose_lease, ℤ,
}
use anp_identity.Provider.Consume.{
  admit_token-IsAdmitted, consume-IsAdmitted, consume-cases, digest_of, live_markers, mark,
  mark_consumed-state,
}
use anp_identity.Provider.Tokens.{consume_for_operation_at, read_token}
use anp_identity.Text.{Text}

module _ ⦃codec : TokenCodec⦄ where
  -- What may happen to an authority: the clock goes on, and the public operations are called. A
  -- refused call is a step too, for it may have changed the markers.
  pub data Step (t : ℕ) (a : Authority) (u : ℕ) (b : Authority) : Type 0 where
    wait : t ≤ u → b ≡ a → Step t a u b
    acquire :
        (lease_id consumer : Text) (capabilities : List Text) (store_id : Text) (ttl : ℤ)
        (lease : ProviderCapabilityLease)
        → u ≡ t
        → acquire_lease_at lease_id consumer capabilities store_id ttl t a ≡ ok (lease, b)
        → Step t a u b
    dispose :
        (lease : ProviderCapabilityLease) → u ≡ t → dispose_lease lease a ≡ ok b → Step t a u b
    consume :
        (token : Text) (e : OneTimeOperationBinding)
        → u ≡ t
        → b ≡ (consume_for_operation_at token e t a).1
        → Step t a u b

  pub data Later (t : ℕ) (a : Authority) : ℕ → Authority → Type 0 where
    here : Later t a t a
    next :
        {u : ℕ} {b : Authority} {v : ℕ} {c : Authority}
        → Later t a u b
        → Step u b v c
        → Later t a v c

  -- The claims that a token carries depend on the key alone.
  read_token-key :
      (token : Text) (a b : Authority)
      → a.hmac_key ≡ b.hmac_key
      → read_token token a ≡ read_token token b
  unfolding read_token
  read_token-key token a b p = ground arith

  -- A token stays spent while its marker, or its expiry, shuts it out.
  record IsSpent (token : Text) (claims : TokenClaims) (t : ℕ) (a : Authority) : Type 0 where
    signed : read_token token a ≡ ok claims
    shut :
        (claims.expires_at ≤ t)
        ⊎ (lookup (digest_of token) a.consumed_tokens ≡ some claims.expires_at)

  same_claims :
      (token other : Text) (claims others : TokenClaims) (a : Authority)
      → token ≡ other
      → read_token token a ≡ ok claims
      → read_token other a ≡ ok others
      → claims ≡ others
  same_claims token other claims others a e p q = cc (ap (λ t. read_token t a) e, p, q)

  mark-shut :
      (token other : Text) (claims others : TokenClaims) (t : ℕ) (a : Authority)
      → (digest_of token ≡ digest_of other → token ≡ other)
      → read_token token a ≡ ok claims
      → read_token other a ≡ ok others
      → lookup (digest_of token) a.consumed_tokens ≡ some claims.expires_at
      → t < claims.expires_at
      → lookup (digest_of token) (mark other others t a).consumed_tokens ≡ some claims.expires_at
  mark-shut token other claims others t a apart p q marked live =
      rw (lookup-insert (digest_of other) (digest_of token) others.expires_at (live_markers t a))
        (elim (Bool-cases (digest_of other == digest_of token)) [
          | inl same ↦
              let e = apart (sym ((eq_iff (digest_of other) (digest_of token)).0 same)) in
              rw same (
                ap (λ (c : TokenClaims). some c.expires_at)
                  (sym (same_claims token other claims others a e p q)))
          | inr differ ↦ rw differ (
              lookup-retain_values (digest_of token) (λ x. ltb t x) claims.expires_at
                a.consumed_tokens marked (ground arith))
        ])

  acquire_lease-keeps :
      (lease_id consumer : Text) (capabilities : List Text) (store_id : Text) (ttl : ℤ) (t : ℕ)
      (a b : Authority) (lease : ProviderCapabilityLease)
      → acquire_lease_at lease_id consumer capabilities store_id ttl t a ≡ ok (lease, b)
      → (b.hmac_key ≡ a.hmac_key) × (b.consumed_tokens ≡ a.consumed_tokens)
  unfolding acquire_lease_at
  acquire_lease-keeps lease_id consumer capabilities store_id ttl t a b lease h = ground arith

  dispose_lease-keeps :
      (lease : ProviderCapabilityLease) (a b : Authority)
      → dispose_lease lease a ≡ ok b
      → (b.hmac_key ≡ a.hmac_key) × (b.consumed_tokens ≡ a.consumed_tokens)
  unfolding dispose_lease
  dispose_lease-keeps lease a b h = ground arith

  IsSpent-keeps :
      (token : Text) (claims : TokenClaims) {t u : ℕ} {a b : Authority}
      → t ≤ u
      → (b.hmac_key ≡ a.hmac_key) × (b.consumed_tokens ≡ a.consumed_tokens)
      → IsSpent token claims t a
      → IsSpent token claims u b
  IsSpent-keeps token claims {b = b} before (key, markers) s = record {
    signed = read_token-key token _ _ key ∙ s.signed;
    shut = elim s.shut [
      | inl old ↦ inl (omega arith)
      | inr m ↦ inr (ap (lookup (digest_of token)) markers ∙ m)
    ];
  }

  module _ (token : Text)
      (apart : (other : Text) → digest_of token ≡ digest_of other → token ≡ other)
      (claims : TokenClaims) where
    IsSpent-mark :
        (t : ℕ) (a : Authority) (other : Text) (others : TokenClaims)
        → read_token other a ≡ ok others
        → IsSpent token claims t a
        → IsSpent token claims t (mark other others t a)
    IsSpent-mark t a other others q s = record {
      signed = read_token-key token (mark other others t a) a refl ∙ s.signed;
      shut = elim s.shut [
        | inl old ↦ inl old
        | inr m ↦ elim (Bool-cases (ltb t claims.expires_at)) [
          | inl live ↦
              inr
                (mark-shut token other claims others t a (apart other) s.signed q m (ground arith))
          | inr past ↦ inl (ground arith)
        ]
      ];
    }

    IsSpent-consume :
        (t : ℕ) (a : Authority) (other : Text) (e : OneTimeOperationBinding)
        → IsSpent token claims t a
        → IsSpent token claims t (consume_for_operation_at other e t a).1
    IsSpent-consume t a other e s = elim (consume-cases other e t a) [
      | inl (x, refused, eq) ↦ rw eq s
      | inr (others, admitted, eq) ↦
          let q = (admit_token-IsAdmitted other e t a others admitted).signed in
          rw (eq, mark_consumed-state other others t a) (IsSpent-mark t a other others q s)
    ]

    IsSpent-Step :
        {t : ℕ} {a : Authority} {u : ℕ} {b : Authority}
        → Step t a u b
        → IsSpent token claims t a
        → IsSpent token claims u b
    IsSpent-Step (wait before eq) s =
        IsSpent-keeps token claims before
          (ap (λ (x : Authority). x.hmac_key) eq, ap (λ (x : Authority). x.consumed_tokens) eq) s
    IsSpent-Step (acquire id consumer caps store ttl lease eq h) s =
        IsSpent-keeps token claims (omega arith)
          (acquire_lease-keeps id consumer caps store ttl _ _ _ lease h) s
    IsSpent-Step (dispose lease eq h) s =
        IsSpent-keeps token claims (omega arith) (dispose_lease-keeps lease _ _ h) s
    IsSpent-Step {t} {a} (consume other e now eq) s = rw (now, eq) (IsSpent-consume t a other e s)

    IsSpent-Later :
        {t : ℕ} {a : Authority} {u : ℕ} {b : Authority}
        → Later t a u b
        → IsSpent token claims t a
        → IsSpent token claims u b
    IsSpent-Later here s = s
    IsSpent-Later (next before step) s = IsSpent-Step step (IsSpent-Later before s)

  IsSpent-not_ok :
      (token : Text) (claims : TokenClaims) (t : ℕ) (a : Authority) (e : OneTimeOperationBinding)
      (ctx : IssuedAuthorizationContext)
      → IsSpent token claims t a
      → ¬ ((consume_for_operation_at token e t a).0 ≡ ok ctx)
  IsSpent-not_ok token claims t a e ctx s h =
      let (others, admitted, new, same, state) = consume-IsAdmitted token e t a ctx h in
      let eq = same_claims token token others claims a refl admitted.signed s.signed in
      let expiry = ap (λ (c : TokenClaims). c.expires_at) eq in
      elim s.shut [
        | inl old ↦ absurd (omega (arith, admitted.live, expiry))
        | inr m ↦ cc (
          new,
          lookup-retain_values (digest_of token) (λ x. ltb t x) claims.expires_at a.consumed_tokens
              m (ground (arith, admitted.live, expiry)),
        )
      ]

  consume-IsSpent :
      (token : Text) (e : OneTimeOperationBinding) (t : ℕ) (a : Authority)
      (ctx : IssuedAuthorizationContext)
      → (consume_for_operation_at token e t a).0 ≡ ok ctx
      → (claims : TokenClaims) × IsSpent token claims t (consume_for_operation_at token e t a).1
  consume-IsSpent token e t a ctx h =
      let (claims, admitted, new, same, state) = consume-IsAdmitted token e t a ctx h in
      (
        claims,
        rw state (record {
          signed = read_token-key token (mark token claims t a) a refl ∙ admitted.signed;
          shut = inr (simp (lookup-insert, eq_refl));
        }),
      )

  -- A token is accepted at most once: after it was accepted, whatever leases are acquired or disposed
  -- of, whatever other tokens are consumed and however much time passes, it is refused for every
  -- operation. The hypothesis says that SHA-256 gives no other text the digest of this token.
  pub one_time :
      (token : Text) (e e' : OneTimeOperationBinding) (t u : ℕ) (a b : Authority)
      (ctx ctx' : IssuedAuthorizationContext)
      → ((other : Text) → digest_of token ≡ digest_of other → token ≡ other)
      → (consume_for_operation_at token e t a).0 ≡ ok ctx
      → Later t (consume_for_operation_at token e t a).1 u b
      → ¬ ((consume_for_operation_at token e' u b).0 ≡ ok ctx')
  one_time token e e' t u a b ctx ctx' apart h later =
      let (claims, spent) = consume-IsSpent token e t a ctx h in
      IsSpent-not_ok token claims u b e' ctx' (IsSpent-Later token apart claims later spent)

  -- After a token is accepted, every replay marker that is kept expires in the future, whatever
  -- markers there were, so the markers of expired tokens do not pile up.
  pub consume-prunes :
      (token : Text) (e : OneTimeOperationBinding) (t : ℕ) (a : Authority)
      (ctx : IssuedAuthorizationContext)
      → (consume_for_operation_at token e t a).0 ≡ ok ctx
      → All
          (λ marker. ltb t marker.1 ≡ true)
          (consume_for_operation_at token e t a).1.consumed_tokens
  consume-prunes token e t a ctx h =
      let (claims, admitted, new, same, state) = consume-IsAdmitted token e t a ctx h in
      rw state (
        insert-All (λ marker. ltb t marker.1 ≡ true) (digest_of token) claims.expires_at
          (live_markers t a) (ground (arith, admitted.live))
          (retain_values-All (λ x. ltb t x) a.consumed_tokens))

  -- The marker of another token that has not expired is still there after a token is accepted.
  pub consume-keeps_marker :
      (token : Text) (e : OneTimeOperationBinding) (t : ℕ) (a : Authority)
      (ctx : IssuedAuthorizationContext) (digest : Text) (x : ℕ)
      → (consume_for_operation_at token e t a).0 ≡ ok ctx
      → digest ≢ digest_of token
      → lookup digest a.consumed_tokens ≡ some x
      → t < x
      → lookup digest (consume_for_operation_at token e t a).1.consumed_tokens ≡ some x
  consume-keeps_marker token e t a ctx digest x h ne found live =
      let (claims, admitted, new, same, state) = consume-IsAdmitted token e t a ctx h in
      rw state (
        rw (lookup-insert (digest_of token) digest claims.expires_at (live_markers t a)) (
          rw ((ne_iff (digest_of token) digest).1 (λ p. ne (sym p)))
            (lookup-retain_values digest (λ y. ltb t y) x a.consumed_tokens found (ground arith))))
