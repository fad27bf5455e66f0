-- ===== src/Tests/Provider.antt =====
-- Examples for host/provider_authorization.rs: one lease, one operation, one token.
use anp_identity.Assoc.{insert, lookup, remove, retain_values}
use anp_identity.Disk.Transitions.{transition_state_eq}
use anp_identity.Errors.{err, is_ok, ok}
use anp_identity.Input.{profile_eq, role_eq}
use anp_identity.Input.Fields.{byte_len}
use anp_identity.Json.{value_eq}
use anp_identity.Keystore.{secret_ref_eq}
use anp_identity.Prelude.{
  All, List, Occurs, [], arith, false, list_beq, list_eq, ltb, nat_eq, ne_iff, none, option_eq,
  pair_eq, refl, some, true, ◌+◌, ◌<◌, ◌↔◌, ◌∷◌, ◌≡◌, ◌≢◌, ◌≤◌,
}
use anp_identity.Provider.{
  Authority, IssuedAuthorizationContext, LeaseState, OneTimeOperationBinding,
  ProviderCapabilityLease, TokenClaims, acquire_lease_at, authorize, dispose_lease, lease_invalid,
  max_lease_ttl_seconds, max_operation_ttl_seconds, pos, token_expired, token_version,
  validate_binding,
}
use anp_identity.Provider.Consume.{consume-unchanged, digest_of, live_markers, mark}
use anp_identity.Provider.Issue.{issue-consume, issue_bounds}
use anp_identity.Provider.Leases.{acquire_lease-grants, dispose_lease-final}
use anp_identity.Provider.Replay.{consume-keeps_marker, consume-prunes, here, next, one_time, wait}
use anp_identity.Provider.Sound.{IsAuthentic, IsFor, IsLeased, consume_sound}
use anp_identity.Provider.Tokens.{
  admit_token, check_lease, claims_for, claims_match, consume_for_operation_at, context_of,
  issue_one_time_at, mark_consumed, read_token, split_once, token_of,
}
use anp_identity.Registry.{
  capability_eq, key_state_eq, origin_eq, publication_eq, state_eq, summary_eq,
}
use anp_identity.Tests.Sample.{bytes-injective, sample_anp, sample_codec, sample_codec-IsTokenCodec}
use anp_identity.Text.{Text, bytes, lit, trim}

abbrev start : Authority
start = record {
  provider_instance_id = lit "P";
  hmac_key = 1 ∷ [];
  leases = [];
  consumed_tokens = [];
}

abbrev sign_capability : List Text
sign_capability = lit "sign" ∷ []

abbrev sample_lease : ProviderCapabilityLease
sample_lease = record { provider_instance_id = lit "P"; lease_id = lit "L" }

abbrev sample_state : LeaseState
sample_state = record {
  consumer = lit "C";
  capabilities = sign_capability;
  store_id = lit "S";
  expires_at = 70;
}

abbrev leased : Authority
leased = record start { leases = (lit "L", sample_state) ∷ [] }

abbrev sample_operation : OneTimeOperationBinding
sample_operation = record {
  capability = lit "sign";
  identity_id = lit "I";
  operation = lit "O";
  kid = none;
  request_id = lit "R";
  recipient_public_key = 7 ∷ [];
  operation_input_digest = lit "D";
}

abbrev sample_claims : TokenClaims
sample_claims = record {
  version = token_version;
  provider_instance_id = lit "P";
  parent_lease_id = lit "L";
  consumer = lit "C";
  capability = lit "sign";
  store_id = lit "S";
  identity_id = lit "I";
  operation = lit "O";
  kid = none;
  request_id = lit "R";
  recipient_public_key_digest = 7 ∷ [];
  operation_input_digest = lit "D";
  expires_at = 40;
}

acquire_lease-grants_example :
    (s : LeaseState) × (lookup sample_lease.lease_id leased.leases ≡ some s)
    × (10 < s.expires_at)
    × (s.expires_at ≤ 10 + max_lease_ttl_seconds)
    × ((authorize sample_lease (lit "sign") 10 leased ≡ ok tt)
        ↔ Occurs (lit "sign") sign_capability)
    × (lookup (lit "M") leased.leases ≡ lookup (lit "M") start.leases)
    × (leased.consumed_tokens ≡ start.consumed_tokens)
unfolding acquire_lease_at trim insert list_beq
acquire_lease-grants_example =
    acquire_lease-grants (lit "L") (lit "C") sign_capability (lit "S") (pos 60) 10 start leased
      sample_lease (lit "sign") (lit "M") refl refl ((ne_iff (lit "M") (lit "L")).0 refl)

dispose_lease-final_example :
    (dispose_lease sample_lease start ≡ err lease_invalid)
    × (authorize sample_lease (lit "sign") 20 start ≡ err lease_invalid)
    × (is_ok (issue_one_time_at sample_lease sample_operation (pos 30) 20 start) ≡ false)
    × (check_lease sample_claims 20 start ≡ err lease_invalid)
unfolding dispose_lease list_beq lookup remove
dispose_lease-final_example =
    dispose_lease-final sample_lease leased start (lit "sign") sample_operation (pos 30)
      sample_claims 20 refl refl

abbrev sample_token : Text
sample_token = token_of leased sample_claims

abbrev sample_context : IssuedAuthorizationContext
sample_context = context_of sample_claims

issue_bounds_example :
    (parent : LeaseState) × (lookup sample_lease.lease_id leased.leases ≡ some parent)
    × Occurs sample_operation.capability parent.capabilities
    × (sample_context.consumer ≡ parent.consumer)
    × (sample_context.store_id ≡ parent.store_id)
    × (sample_context.capability ≡ sample_operation.capability)
    × (10 < sample_context.expires_at)
    × (sample_context.expires_at ≤ 10 + max_operation_ttl_seconds)
    × (sample_context.expires_at ≤ parent.expires_at)
unfolding issue_one_time_at validate_binding trim list_beq lookup claims_for
issue_bounds_example =
    issue_bounds sample_lease sample_operation (pos 30) 10 leased sample_token sample_context refl

issue-consume_example :
    (consume_for_operation_at sample_token sample_operation 20 leased).0 ≡ ok sample_context
unfolding issue_one_time_at validate_binding trim list_beq lookup claims_for byte_len bytes token_of
    retain_values
issue-consume_example =
    issue-consume sample_codec-IsTokenCodec sample_lease sample_operation (pos 30) 10 20 leased
      leased sample_token sample_context refl refl (omega arith) refl refl refl refl

-- The token is accepted, which the examples below need.
accepted : (consume_for_operation_at sample_token sample_operation 20 leased).0 ≡ ok sample_context
unfolding consume_for_operation_at admit_token validate_binding trim read_token byte_len bytes
    token_of split_once list_beq claims_match check_lease lookup mark_consumed retain_values
accepted = refl

consume_sound_example :
    (claims : TokenClaims) × IsAuthentic sample_token leased claims
    × IsFor leased sample_operation claims
    × (20 < claims.expires_at)
    × IsLeased claims 20 leased
    × (lookup (digest_of sample_token) (live_markers 20 leased) ≡ none)
    × (sample_context ≡ context_of claims)
    × ((consume_for_operation_at sample_token sample_operation 20 leased).1
        ≡ mark sample_token claims 20 leased)
consume_sound_example =
    consume_sound sample_token sample_operation 20 leased sample_context accepted

consume-unchanged_example :
    (consume_for_operation_at sample_token sample_operation 40 leased).1 ≡ leased
unfolding consume_for_operation_at admit_token validate_binding trim read_token byte_len bytes
    token_of split_once list_beq claims_match
consume-unchanged_example =
    consume-unchanged sample_token sample_operation 40 leased token_expired refl (λ h. cc)

one_time_example : ¬ (
    (consume_for_operation_at sample_token sample_operation 30
      (consume_for_operation_at sample_token sample_operation 20 leased).1).0
    ≡ ok sample_context)
unfolding token_of
one_time_example =
    one_time sample_token sample_operation sample_operation 20 30 leased
      (consume_for_operation_at sample_token sample_operation 20 leased).1 sample_context
      sample_context (λ other. bytes-injective sample_token other refl) accepted
      (next here (wait (omega arith) refl))

abbrev with_marker : Authority
with_marker = record leased { consumed_tokens = (lit "D", 90) ∷ (lit "E", 15) ∷ [] }

accepted_beside :
    (consume_for_operation_at sample_token sample_operation 20 with_marker).0 ≡ ok sample_context
unfolding consume_for_operation_at admit_token validate_binding trim read_token byte_len bytes
    token_of split_once list_beq claims_match check_lease lookup mark_consumed retain_values
accepted_beside = refl

another_digest : lit "D" ≢ digest_of sample_token
unfolding list_beq bytes token_of
another_digest = (ne_iff (lit "D") (digest_of sample_token)).0 refl

consume-prunes_example :
    All
      (λ marker. ltb 20 marker.1 ≡ true)
      (consume_for_operation_at sample_token sample_operation 20 with_marker).1.consumed_tokens
consume-prunes_example =
    consume-prunes sample_token sample_operation 20 with_marker sample_context accepted_beside

consume-keeps_marker_example :
    lookup
      (lit "D")
      (consume_for_operation_at sample_token sample_operation 20 with_marker).1.consumed_tokens
    ≡ some 90
unfolding list_beq lookup
consume-keeps_marker_example =
    consume-keeps_marker sample_token sample_operation 20 with_marker sample_context (lit "D") 90
      accepted_beside another_digest refl (omega arith)
