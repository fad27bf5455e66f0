-- ===== src/Provider/Tokens.antt =====
-- crates/anp-identity/src/host/provider_authorization.rs: issuing and consuming one-time tokens.
-- `str::split_once`.
use anp_identity.Assoc.{contains_key, insert, lookup, retain_values}
use anp_identity.Errors.{err, ok, ok_or, refuse_if, ◌>>=◌, ◌>>◌}
use anp_identity.Input.{profile_eq, role_eq}
use anp_identity.Input.Fields.{byte_len}
use anp_identity.Json.{value_eq}
use anp_identity.Prelude.{
  Bool, List, Option, [], contains, if◌then◌else◌, leb, list_eq, ltb, min, nat_eq, none, not,
  option_eq, pair_eq, some, ℕ, ◌&&◌, ◌++◌, ◌+◌, ◌==◌, ◌||◌, ◌∷◌,
}
use anp_identity.Provider.{
  Authority, IssuedAuthorizationContext, LeaseState, OneTimeOperationBinding,
  ProviderCapabilityLease, ProviderResult, TokenClaims, TokenCodec, capability_denied,
  lease_invalid, max_operation_ttl_seconds, max_token_bytes, token_consumed, token_expired,
  token_invalid, token_version, ttl_within, validate_binding, ℤ,
}
use anp_identity.Text.{Text, bytes}

abbrev pub cons_fst : ℕ → Option (Text × Text) → Option (Text × Text)
cons_fst c none = none
cons_fst c (some (s, t)) = some (c ∷ s, t)

unfoldable pub split_once : ℕ → Text → Option (Text × Text)
split_once d [] = none
split_once d (c ∷ s) = let rest = split_once d s in if c == d then some ([], s) else cons_fst c rest

-- `.filter(|(_, tag)| !tag.contains('.'))`.
abbrev pub without_dot : Option (Text × Text) → Option (Text × Text)
without_dot none = none
without_dot (some (s, t)) = if contains t b'.' then none else some (s, t)

module _ ⦃codec : TokenCodec⦄ where
  unfoldable pub sign : Authority → List ℕ → List ℕ
  sign a payload = codec.hmac a.hmac_key payload

  unfoldable pub verify : Authority → List ℕ → List ℕ → ProviderResult (Unit {0})
  verify a payload tag = refuse_if (not (codec.hmac a.hmac_key payload == tag)) token_invalid

  unfoldable pub claims_for :
      Authority → ProviderCapabilityLease → LeaseState → OneTimeOperationBinding → ℕ → TokenClaims
  claims_for a lease parent b expires_at = record {
    version = token_version;
    provider_instance_id = a.provider_instance_id;
    parent_lease_id = lease.lease_id;
    consumer = parent.consumer;
    capability = b.capability;
    store_id = parent.store_id;
    identity_id = b.identity_id;
    operation = b.operation;
    kid = b.kid;
    request_id = b.request_id;
    recipient_public_key_digest = codec.recipient_digest b.recipient_public_key;
    operation_input_digest = b.operation_input_digest;
    expires_at = expires_at;
  }

  abbrev pub context_of : TokenClaims → IssuedAuthorizationContext
  context_of c = record {
    provider_instance_id = c.provider_instance_id;
    parent_lease_id = c.parent_lease_id;
    consumer = c.consumer;
    capability = c.capability;
    store_id = c.store_id;
    expires_at = c.expires_at;
  }

  -- `format!("{}.{}", encode(payload), encode(tag))`.
  unfoldable pub token_of : Authority → TokenClaims → Text
  unfolding sign
  token_of a claims =
      let payload = codec.claims_to_vec claims in
      codec.encode payload ++ b'.' ∷ codec.encode (sign a payload)

  -- `issue_one_time_with_context_at`.
  unfoldable pub issue_one_time_at :
      ProviderCapabilityLease
      → OneTimeOperationBinding
      → ℤ
      → ℕ
      → Authority
      → ProviderResult (Text × IssuedAuthorizationContext)
  issue_one_time_at lease binding ttl_seconds now a = do
    validate_binding binding
    refuse_if (not (lease.provider_instance_id == a.provider_instance_id)) lease_invalid
    ttl ← ttl_within max_operation_ttl_seconds ttl_seconds
    parent ← ok_or lease_invalid (lookup lease.lease_id a.leases)
    refuse_if (leb parent.expires_at now) lease_invalid
    refuse_if (not (contains parent.capabilities binding.capability)) capability_denied
    let claims = claims_for a lease parent binding (min (now + ttl) parent.expires_at)
    ok (token_of a claims, context_of claims)

  -- The comparison of the claims with the authority and the expected binding.
  unfoldable pub claims_match : Authority → OneTimeOperationBinding → TokenClaims → Bool
  claims_match a e c =
      c.version == token_version
      && (c.provider_instance_id == a.provider_instance_id
          && (c.capability == e.capability
              && (c.identity_id == e.identity_id
                  && (c.operation == e.operation
                      && (c.kid == e.kid
                          && (c.request_id == e.request_id
                              && (c.recipient_public_key_digest
                                    == codec.recipient_digest e.recipient_public_key
                                  && c.operation_input_digest == e.operation_input_digest)))))))

  -- The part of `consume_for_operation_at` that reads the token: from its size to its signature.
  unfoldable pub read_token : Text → Authority → ProviderResult TokenClaims
  unfolding verify
  read_token token a = do
    refuse_if (ltb max_token_bytes (byte_len token)) token_invalid
    (payload_text, tag_text) ← ok_or token_invalid (without_dot (split_once b'.' token))
    payload ← ok_or token_invalid (codec.decode payload_text)
    tag ← ok_or token_invalid (codec.decode tag_text)
    verify a payload tag
    ok_or token_invalid (codec.claims_from_slice payload)

  -- The tests of the lease that the claims name.
  unfoldable pub check_lease : TokenClaims → ℕ → Authority → ProviderResult (Unit {0})
  check_lease claims now a = do
    parent ← ok_or lease_invalid (lookup claims.parent_lease_id a.leases)
    refuse_if
        (leb parent.expires_at now
          || (not (parent.consumer == claims.consumer)
              || (not (parent.store_id == claims.store_id)
                  || not (contains parent.capabilities claims.capability))))
        lease_invalid

  -- The tests that come before the state is changed.
  unfoldable pub admit_token :
      Text → OneTimeOperationBinding → ℕ → Authority → ProviderResult TokenClaims
  admit_token token expected now a = do
    validate_binding expected
    claims ← read_token token a
    refuse_if (not (claims_match a expected claims)) token_invalid
    refuse_if (leb claims.expires_at now) token_expired
    check_lease claims now a
    ok claims

  -- Prune the markers that have expired, and mark this token: `insert` tells whether it was marked.
  unfoldable pub mark_consumed :
      Text → TokenClaims → ℕ → Authority → ProviderResult IssuedAuthorizationContext × Authority
  mark_consumed token claims now a =
      let digest = codec.sha256 (bytes token) in
      let live = retain_values (λ expires_at. ltb now expires_at) a.consumed_tokens in
      let marked = record a { consumed_tokens = insert digest claims.expires_at live } in
      if contains_key digest live
      then (err token_consumed, marked)
      else (ok (context_of claims), marked)

  abbrev pub then_mark :
      Text
      → ℕ
      → Authority
      → ProviderResult TokenClaims
      → ProviderResult IssuedAuthorizationContext × Authority
  then_mark token now a (err e) = (err e, a)
  then_mark token now a (ok claims) = mark_consumed token claims now a

  -- `consume_for_operation_at`; its result has the fields of an issued context.
  unfoldable pub consume_for_operation_at :
      Text
      → OneTimeOperationBinding
      → ℕ
      → Authority
      → ProviderResult IssuedAuthorizationContext × Authority
  consume_for_operation_at token expected now a =
      then_mark token now a (admit_token token expected now a)
