-- ===== src/Provider/Issue.antt =====
-- A token that `issue_one_time_at` returns is accepted by `consume_for_operation_at`.
use anp_identity.Assoc.{lookup}
use anp_identity.Errors.{ok}
use anp_identity.Input.{profile_eq, role_eq}
use anp_identity.Input.Fields.{byte_len}
use anp_identity.Json.{value_eq}
use anp_identity.Prelude.{
  List, Occurs, [], and_true, ap, arith, contains, contains_iff, eq_iff, eq_refl, false, leb,
  list_eq, min, nat_eq, none, option_eq, pair_eq, refl, some, subst⁻¹, sym, true, ℕ, ◌++◌, ◌+◌, ◌<◌,
  ◌∙◌, ◌∷◌, ◌≡◌, ◌≤◌,
}
use anp_identity.Provider.{
  Authority, IssuedAuthorizationContext, LeaseState, OneTimeOperationBinding,
  ProviderCapabilityLease, TokenClaims, TokenCodec, max_operation_ttl_seconds, max_token_bytes,
  token_version, ttl_within, validate_binding, ℤ,
}
use anp_identity.Provider.Consume.{
  IsAdmitted, IsAdmitted-admit_token, consume_of_ok, digest_of, live_markers,
}
use anp_identity.Provider.Leases.{ttl_within_bounds}
use anp_identity.Provider.Tokens.{
  check_lease, claims_for, claims_match, consume_for_operation_at, context_of, issue_one_time_at,
  mark_consumed, read_token, sign, split_once, token_of, verify,
}
use anp_identity.Text.{Text}

-- What the token format relies on in other crates: base64url is decoded back and writes no dot,
-- and the canonical JSON of claims is read back.
pub record IsTokenCodec (codec : TokenCodec) : Type 0 where
  pub decode_encode : (x : List ℕ) → codec.decode (codec.encode x) ≡ some x
  pub encode_no_dot : (x : List ℕ) → contains (codec.encode x) b'.' ≡ false
  pub read_claims : (c : TokenClaims) → codec.claims_from_slice (codec.claims_to_vec c) ≡ some c

split_once-append :
    (s t : Text) → contains s b'.' ≡ false → split_once b'.' (s ++ b'.' ∷ t) ≡ some (s, t)
unfolding split_once
split_once-append [] t h = refl
split_once-append (c ∷ s) t h = ground (arith, split_once-append s t)

module _ ⦃codec : TokenCodec⦄ where
  -- What a call of `issue_one_time_at` that returns has checked, and what it returns.
  pub record IsIssued (lease : ProviderCapabilityLease) (b : OneTimeOperationBinding) (now : ℕ)
      (a : Authority) (token : Text) (ctx : IssuedAuthorizationContext) : Type 0 where
    pub parent : LeaseState
    pub expires_at : ℕ
    pub bound : validate_binding b ≡ ok tt
    pub leased : lookup lease.lease_id a.leases ≡ some parent
    pub alive : now < parent.expires_at
    pub granted : contains parent.capabilities b.capability ≡ true
    pub later : now < expires_at
    pub soon : expires_at ≤ now + max_operation_ttl_seconds
    pub within : expires_at ≤ parent.expires_at
    pub is_token : token ≡ token_of a (claims_for a lease parent b expires_at)
    pub is_context : ctx ≡ context_of (claims_for a lease parent b expires_at)

  issued-parts :
      (lease : ProviderCapabilityLease) (b : OneTimeOperationBinding) (ttl : ℤ) (now : ℕ)
      (a : Authority) (token : Text) (ctx : IssuedAuthorizationContext)
      → issue_one_time_at lease b ttl now a ≡ ok (token, ctx)
      → (t : ℕ) × (parent : LeaseState) × (ttl_within max_operation_ttl_seconds ttl ≡ ok t)
        × (validate_binding b ≡ ok tt)
        × (lookup lease.lease_id a.leases ≡ some parent)
        × (now < parent.expires_at)
        × (contains parent.capabilities b.capability ≡ true)
        × (token ≡ token_of a (claims_for a lease parent b (min (now + t) parent.expires_at)))
        × (ctx ≡ context_of (claims_for a lease parent b (min (now + t) parent.expires_at)))
  unfolding issue_one_time_at
  issued-parts lease b ttl now a token ctx h = ground arith

  pub issue-IsIssued :
      (lease : ProviderCapabilityLease) (b : OneTimeOperationBinding) (ttl : ℤ) (now : ℕ)
      (a : Authority) (token : Text) (ctx : IssuedAuthorizationContext)
      → issue_one_time_at lease b ttl now a ≡ ok (token, ctx)
      → IsIssued lease b now a token ctx
  issue-IsIssued lease b ttl now a token ctx h =
      let (t, parent, e, bound, leased, alive, granted, is_token, is_context) =
        issued-parts lease b ttl now a token ctx h in
      let (least, most) = ttl_within_bounds max_operation_ttl_seconds ttl t e in
      record {
        parent = parent;
        expires_at = min (now + t) parent.expires_at;
        bound = bound;
        leased = leased;
        alive = alive;
        granted = granted;
        later = omega arith;
        soon = omega arith;
        within = omega arith;
        is_token = is_token;
        is_context = is_context;
      }

  claims_for-expires_at :
      (a : Authority) (lease : ProviderCapabilityLease) (parent : LeaseState)
      (e : OneTimeOperationBinding) (expires_at : ℕ)
      → (claims_for a lease parent e expires_at).expires_at ≡ expires_at
  unfolding claims_for
  claims_for-expires_at a lease parent e expires_at = refl

  -- What an issued token can do: its context names the lease's consumer and store, the capability is
  -- one that the lease holds, and it expires after now, within five minutes, and not after the lease.
  pub issue_bounds :
      (lease : ProviderCapabilityLease) (b : OneTimeOperationBinding) (ttl : ℤ) (now : ℕ)
      (a : Authority) (token : Text) (ctx : IssuedAuthorizationContext)
      → issue_one_time_at lease b ttl now a ≡ ok (token, ctx)
      → (parent : LeaseState) × (lookup lease.lease_id a.leases ≡ some parent)
        × Occurs b.capability parent.capabilities
        × (ctx.consumer ≡ parent.consumer)
        × (ctx.store_id ≡ parent.store_id)
        × (ctx.capability ≡ b.capability)
        × (now < ctx.expires_at)
        × (ctx.expires_at ≤ now + max_operation_ttl_seconds)
        × (ctx.expires_at ≤ parent.expires_at)
  unfolding claims_for
  issue_bounds lease b ttl now a token ctx h =
      let i = issue-IsIssued lease b ttl now a token ctx h in
      let f = λ (P : IssuedAuthorizationContext → Type 0). subst⁻¹ P i.is_context in
      (
        i.parent,
        i.leased,
        (contains_iff i.parent.capabilities b.capability).0 i.granted,
        ap (λ (c : IssuedAuthorizationContext). c.consumer) i.is_context,
        ap (λ (c : IssuedAuthorizationContext). c.store_id) i.is_context,
        ap (λ (c : IssuedAuthorizationContext). c.capability) i.is_context,
        f (λ c. now < c.expires_at) i.later,
        f (λ c. c.expires_at ≤ now + max_operation_ttl_seconds) i.soon,
        f (λ c. c.expires_at ≤ i.parent.expires_at) i.within,
      )

  module _ (laws : IsTokenCodec codec) where
    read_token-token_of :
        (a b : Authority) (claims : TokenClaims)
        → b.hmac_key ≡ a.hmac_key
        → leb (byte_len (token_of a claims)) max_token_bytes ≡ true
        → read_token (token_of a claims) b ≡ ok claims
    unfolding read_token verify token_of sign
    read_token-token_of a b claims key short =
        let payload = codec.claims_to_vec claims in
        let tag = codec.hmac a.hmac_key payload in
        ground (
          arith,
          split_once-append (codec.encode payload) (codec.encode tag) (laws.encode_no_dot payload),
          laws.encode_no_dot tag,
          laws.decode_encode payload,
          laws.decode_encode tag,
          laws.read_claims claims,
          eq_refl tag,
        )

    claims_for-match :
        (a b : Authority) (lease : ProviderCapabilityLease) (parent : LeaseState)
        (e : OneTimeOperationBinding) (expires_at : ℕ)
        → b.provider_instance_id ≡ a.provider_instance_id
        → claims_match b e (claims_for a lease parent e expires_at) ≡ true
    unfolding claims_match claims_for
    claims_for-match a b lease parent e expires_at same = and_true (eq_refl token_version) (
        and_true ((eq_iff a.provider_instance_id b.provider_instance_id).1 (sym same)) (
          and_true (eq_refl e.capability) (
            and_true (eq_refl e.identity_id) (
              and_true (eq_refl e.operation) (
                and_true (eq_refl e.kid) (
                  and_true (eq_refl e.request_id) (
                    and_true (eq_refl (codec.recipient_digest e.recipient_public_key))
                      (eq_refl e.operation_input_digest))))))))

    check_lease-claims_for :
        (a b : Authority) (lease : ProviderCapabilityLease) (parent : LeaseState)
        (e : OneTimeOperationBinding) (expires_at now : ℕ)
        → lookup lease.lease_id b.leases ≡ some parent
        → now < parent.expires_at
        → contains parent.capabilities e.capability ≡ true
        → check_lease (claims_for a lease parent e expires_at) now b ≡ ok tt
    unfolding check_lease claims_for
    check_lease-claims_for a b lease parent e expires_at now found alive granted =
        ground (arith, eq_refl parent.consumer, eq_refl parent.store_id)

    -- A token issued for an operation is accepted for that operation, with the context that was
    -- issued, at any later time before its expiry, by the same authority in any later state in which
    -- the lease still stands as it was and no live marker stands for the token. The token must fit
    -- the size limit, and the codec must read back what it writes.
    pub issue-consume :
        (lease : ProviderCapabilityLease) (e : OneTimeOperationBinding) (ttl : ℤ) (now later : ℕ)
        (a b : Authority) (token : Text) (ctx : IssuedAuthorizationContext)
        → issue_one_time_at lease e ttl now a ≡ ok (token, ctx)
        → leb (byte_len token) max_token_bytes ≡ true
        → later < ctx.expires_at
        → b.provider_instance_id ≡ a.provider_instance_id
        → b.hmac_key ≡ a.hmac_key
        → lookup lease.lease_id b.leases ≡ lookup lease.lease_id a.leases
        → lookup (digest_of token) (live_markers later b) ≡ none
        → (consume_for_operation_at token e later b).0 ≡ ok ctx
    unfolding mark_consumed
    issue-consume lease e ttl now later a b token ctx h short before same key kept fresh =
        let i = issue-IsIssued lease e ttl now a token ctx h in
        let claims = claims_for a lease i.parent e i.expires_at in
        let expiry : ctx.expires_at ≡ i.expires_at =
          ap (λ (c : IssuedAuthorizationContext). c.expires_at) i.is_context
          ∙ claims_for-expires_at a lease i.parent e i.expires_at in
        let admitted : IsAdmitted token e later b claims = record {
          bound = i.bound;
          signed = rw (i.is_token) (read_token-token_of a b claims key (rw (i.is_token) at short));
          matching = claims_for-match a b lease i.parent e i.expires_at same;
          live =
              rw (claims_for-expires_at a lease i.parent e i.expires_at)
                (omega (arith, expiry, before));
          leased =
              check_lease-claims_for a b lease i.parent e i.expires_at later (kept ∙ i.leased)
                (omega (arith, expiry, before, i.within)) i.granted;
        } in
        rw
          (consume_of_ok token e later b claims
            (IsAdmitted-admit_token token e later b claims admitted))
          (rw fresh (ap ok (sym i.is_context)))
