-- ===== src/Provider.antt =====
-- crates/anp-identity/src/host/provider_authorization.rs: leases and one-time tokens.
pub mod Tokens
pub mod Leases
pub mod Consume
pub mod Sound
pub mod Replay
pub mod Issue
use anp_identity.Assoc.{contains_key, insert, lookup, remove}
use anp_identity.Errors.{Result, err, ok, ok_or, refuse_if, ◌>>=◌, ◌>>◌}
use anp_identity.Input.{profile_eq, role_eq}
use anp_identity.Json.{value_eq}
use anp_identity.Prelude.{
  List, Option, any, contains, if◌then◌else◌, is_nil, is_some_and, leb, list_eq, nat_eq, not,
  option_eq, pair_eq, ℕ, ◌&&◌, ◌*◌, ◌+◌, ◌==◌, ◌||◌,
}
use anp_identity.Text.{Text, is_blank, lit}

-- `i64`; `negsuc n` is -(n + 1). Only a time to live may be negative here: times are the host's
-- clock in seconds since 1970, and their sums stay below 2^63.
pub data ℤ : Type 0 where
  pos : ℕ → ℤ
  negsuc : ℕ → ℤ

pub data ProviderAuthorizationError : Type 0 where
  lease_invalid capability_denied token_invalid : ProviderAuthorizationError
  token_expired token_consumed : ProviderAuthorizationError

abbrev pub ProviderResult : Type 0 → Type 0
ProviderResult A = Result ProviderAuthorizationError A

abbrev pub token_version : Text
token_version = lit "anp-identity-capability/1"

abbrev pub max_token_bytes : ℕ
max_token_bytes = 16 * 1024

abbrev pub max_lease_ttl_seconds : ℕ
max_lease_ttl_seconds = 24 * 60 * 60

abbrev pub max_operation_ttl_seconds : ℕ
max_operation_ttl_seconds = 5 * 60

pub record OneTimeOperationBinding : Type 0 where
  pub capability : Text
  pub identity_id : Text
  pub operation : Text
  pub kid : Option Text
  pub request_id : Text
  pub recipient_public_key : List ℕ
  pub operation_input_digest : Text

pub record ProviderCapabilityLease : Type 0 where
  pub provider_instance_id : Text
  pub lease_id : Text

pub record IssuedAuthorizationContext : Type 0 where
  pub provider_instance_id : Text
  pub parent_lease_id : Text
  pub consumer : Text
  pub capability : Text
  pub store_id : Text
  pub expires_at : ℕ

pub record LeaseState : Type 0 where
  pub consumer : Text
  pub capabilities : List Text
  pub store_id : Text
  pub expires_at : ℕ

-- `ProviderAuthorization` with its `AuthorizationState`; the keys of `consumed_tokens` are digests.
pub record Authority : Type 0 where
  pub provider_instance_id : Text
  pub hmac_key : List ℕ
  pub leases : List (Text × LeaseState)
  pub consumed_tokens : List (Text × ℕ)

pub record TokenClaims : Type 0 where
  pub version : Text
  pub provider_instance_id : Text
  pub parent_lease_id : Text
  pub consumer : Text
  pub capability : Text
  pub store_id : Text
  pub identity_id : Text
  pub operation : Text
  pub kid : Option Text
  pub request_id : Text
  pub recipient_public_key_digest : Text
  pub operation_input_digest : Text
  pub expires_at : ℕ

-- What the tokens take from other crates: HMAC-SHA-256, SHA-256, base64url without padding, the
-- canonical JSON of the claims, and the `anp` crate's digest of a recipient key.
pub record TokenCodec : Type 0 where
  pub hmac : List ℕ → List ℕ → List ℕ
  pub sha256 : List ℕ → Text
  pub encode : List ℕ → Text
  pub decode : Text → Option (List ℕ)
  pub claims_to_vec : TokenClaims → List ℕ
  pub claims_from_slice : List ℕ → Option TokenClaims
  pub recipient_digest : List ℕ → Text

unfoldable pub validate_nonempty : Text → ProviderResult (Unit {0})
validate_nonempty value = refuse_if (is_blank value) token_invalid

unfoldable pub validate_binding : OneTimeOperationBinding → ProviderResult (Unit {0})
unfolding validate_nonempty
validate_binding b = do
  validate_nonempty b.capability
  validate_nonempty b.identity_id
  validate_nonempty b.operation
  validate_nonempty b.request_id
  validate_nonempty b.operation_input_digest
  refuse_if (is_some_and is_blank b.kid) token_invalid

-- `if !(1..=bound).contains(&ttl) { return Err(LeaseInvalid) }`.
abbrev pub ttl_within : ℕ → ℤ → ProviderResult ℕ
ttl_within bound (pos n) = if leb 1 n && leb n bound then ok n else err lease_invalid
ttl_within bound (negsuc n) = err lease_invalid

-- `acquire_lease_at`; `lease_id` is what `random_id` draws.
unfoldable pub acquire_lease_at :
    Text
    → Text
    → List Text
    → Text
    → ℤ
    → ℕ
    → Authority
    → ProviderResult (ProviderCapabilityLease × Authority)
unfolding validate_nonempty
acquire_lease_at lease_id consumer capabilities store_id ttl_seconds now a = do
  validate_nonempty consumer
  validate_nonempty store_id
  ttl ← ttl_within max_lease_ttl_seconds ttl_seconds
  refuse_if (is_nil capabilities || any is_blank capabilities) lease_invalid
  let lease : LeaseState = record {
    consumer = consumer;
    capabilities = capabilities;
    store_id = store_id;
    expires_at = now + ttl;
  }
  let handle : ProviderCapabilityLease = record {
    provider_instance_id = a.provider_instance_id;
    lease_id = lease_id;
  }
  ok (handle, record a { leases = insert lease_id lease a.leases })

unfoldable pub dispose_lease : ProviderCapabilityLease → Authority → ProviderResult Authority
dispose_lease lease a = do
  refuse_if (not (lease.provider_instance_id == a.provider_instance_id)) lease_invalid
  refuse_if (not (contains_key lease.lease_id a.leases)) lease_invalid
  ok (record a { leases = remove lease.lease_id a.leases })

unfoldable pub authorize :
    ProviderCapabilityLease → Text → ℕ → Authority → ProviderResult (Unit {0})
authorize lease capability now a = do
  refuse_if (not (lease.provider_instance_id == a.provider_instance_id) || is_blank capability)
      lease_invalid
  parent ← ok_or lease_invalid (lookup lease.lease_id a.leases)
  refuse_if (leb parent.expires_at now) lease_invalid
  refuse_if (not (contains parent.capabilities capability)) capability_denied
