-- ===== src/Provider/Leases.antt =====
-- The life of a lease in provider_authorization.rs: what it grants, for how long, and disposal.
use anp_identity.Assoc.{insert, lookup, remove}
use anp_identity.Assoc.Laws.{lookup-insert, lookup-remove}
use anp_identity.Errors.{err, is_ok, ok}
use anp_identity.Input.{profile_eq, role_eq}
use anp_identity.Json.{value_eq}
use anp_identity.Prelude.{
  List, Occurs, ap, arith, contains_iff, eq_iff, eq_refl, false, list_eq, nat_eq, none, option_eq,
  pair_eq, some, sym, ℕ, ◌+◌, ◌<◌, ◌↔◌, ◌∙◌, ◌≡◌, ◌≢◌, ◌≤◌,
}
use anp_identity.Provider.{
  Authority, LeaseState, OneTimeOperationBinding, ProviderCapabilityLease, TokenClaims, TokenCodec,
  acquire_lease_at, authorize, dispose_lease, lease_invalid, max_lease_ttl_seconds, negsuc, pos,
  ttl_within, ℤ,
}
use anp_identity.Provider.Tokens.{check_lease, issue_one_time_at}
use anp_identity.Text.{Text, is_blank}

abbrev granted : Text → List Text → Text → ℕ → LeaseState
granted consumer capabilities store_id expires_at = record {
  consumer = consumer;
  capabilities = capabilities;
  store_id = store_id;
  expires_at = expires_at;
}

pub ttl_within_bounds :
    (bound : ℕ) (ttl : ℤ) (t : ℕ) → ttl_within bound ttl ≡ ok t → (1 ≤ t) × (t ≤ bound)
ttl_within_bounds bound (pos n) t h = ground arith
ttl_within_bounds bound (negsuc n) t h = cc

module _ (lease_id consumer : Text) (capabilities : List Text) (store_id : Text) (ttl : ℤ) (now : ℕ)
    (a a' : Authority) (lease : ProviderCapabilityLease) where
  acquire_lease-eq-ok :
      acquire_lease_at lease_id consumer capabilities store_id ttl now a ≡ ok (lease, a')
      → (t : ℕ) × (ttl_within max_lease_ttl_seconds ttl ≡ ok t)
        × (lease.lease_id ≡ lease_id)
        × (lease.provider_instance_id ≡ a.provider_instance_id)
        × (a' ≡ record a {
          leases = insert lease_id (granted consumer capabilities store_id (now + t)) a.leases;
        })
  unfolding acquire_lease_at
  acquire_lease-eq-ok h = ground arith

authorize_iff :
    (lease : ProviderCapabilityLease) (c : Text) (now : ℕ) (a : Authority) (s : LeaseState)
    → is_blank c ≡ false
    → lease.provider_instance_id ≡ a.provider_instance_id
    → lookup lease.lease_id a.leases ≡ some s
    → now < s.expires_at
    → (authorize lease c now a ≡ ok tt) ↔ Occurs c s.capabilities
unfolding authorize
authorize_iff lease c now a s blank same found live = (
  λ h.
      (contains_iff s.capabilities c).0
        (ground (arith, eq_iff lease.provider_instance_id a.provider_instance_id)),
  λ o.
      let has = (contains_iff s.capabilities c).1 o in
      ground (arith, eq_iff lease.provider_instance_id a.provider_instance_id),
)

-- A lease that is acquired expires at most a day later and after now, is stored under its
-- identifier for this authority, and grants a capability that is not blank exactly when that
-- capability was asked for; the other leases and the replay markers are as before.
pub acquire_lease-grants :
    (lease_id consumer : Text) (capabilities : List Text) (store_id : Text) (ttl : ℤ) (now : ℕ)
    (a a' : Authority) (lease : ProviderCapabilityLease) (c other : Text)
    → acquire_lease_at lease_id consumer capabilities store_id ttl now a ≡ ok (lease, a')
    → is_blank c ≡ false
    → other ≢ lease_id
    → (s : LeaseState) × (lookup lease.lease_id a'.leases ≡ some s)
      × (now < s.expires_at)
      × (s.expires_at ≤ now + max_lease_ttl_seconds)
      × ((authorize lease c now a' ≡ ok tt) ↔ Occurs c capabilities)
      × (lookup other a'.leases ≡ lookup other a.leases)
      × (a'.consumed_tokens ≡ a.consumed_tokens)
acquire_lease-grants lease_id consumer capabilities store_id ttl now a a' lease c other h nb ne =
    let (t, e, id, inst, eq) =
      acquire_lease-eq-ok lease_id consumer capabilities store_id ttl now a a' lease h in
    let (least, most) = ttl_within_bounds max_lease_ttl_seconds ttl t e in
    let s = granted consumer capabilities store_id (now + t) in
    let stored : lookup lease.lease_id a'.leases ≡ some s =
      rw (eq, id) (simp (lookup-insert, eq_refl)) in
    (
      s,
      stored,
      omega arith,
      omega arith,
      authorize_iff lease c now a' s nb
          (inst ∙ sym (ap (λ (x : Authority). x.provider_instance_id) eq)) stored (omega arith),
      rw eq (ground (arith, lookup-insert lease_id other s a.leases, eq_iff lease_id other)),
      ap (λ (x : Authority). x.consumed_tokens) eq,
    )

dispose_lease-eq-ok :
    (lease : ProviderCapabilityLease) (a a' : Authority)
    → dispose_lease lease a ≡ ok a'
    → a' ≡ record a { leases = remove lease.lease_id a.leases }
unfolding dispose_lease
dispose_lease-eq-ok lease a a' h = ground arith

dispose_lease-absent :
    (lease : ProviderCapabilityLease) (a a' : Authority)
    → dispose_lease lease a ≡ ok a'
    → lookup lease.lease_id a'.leases ≡ none
dispose_lease-absent lease a a' h =
    rw (dispose_lease-eq-ok lease a a' h) (simp (lookup-remove, eq_refl))

-- Once a lease is disposed of, it authorizes nothing, cannot be disposed of again, issues no
-- token, and the claims of a token that was issued under it pass the test of the lease no more.
pub dispose_lease-final :
    ⦃codec : TokenCodec⦄ (lease : ProviderCapabilityLease) (a a' : Authority) (c : Text)
    (b : OneTimeOperationBinding) (ttl : ℤ) (claims : TokenClaims) (now : ℕ)
    → dispose_lease lease a ≡ ok a'
    → claims.parent_lease_id ≡ lease.lease_id
    → (dispose_lease lease a' ≡ err lease_invalid)
      × (authorize lease c now a' ≡ err lease_invalid)
      × (is_ok (issue_one_time_at lease b ttl now a') ≡ false)
      × (check_lease claims now a' ≡ err lease_invalid)
unfolding dispose_lease authorize issue_one_time_at check_lease
dispose_lease-final lease a a' c b ttl claims now h e =
    let gone = dispose_lease-absent lease a a' (unfold dispose_lease in h) in
    (ground arith, ground arith, ground arith, ground arith)
