-- ===== src/Provider/Consume.antt =====
-- `consume_for_operation_at` of provider_authorization.rs: what an accepted token proves, and what a
-- refused one leaves behind.
use anp_identity.Assoc.{insert, lookup, retain_values}
use anp_identity.Errors.{err, ok}
use anp_identity.Prelude.{List, arith, inl, inr, ltb, none, refl, true, ℕ, ◌<◌, ◌≡◌, ◌≢◌, ◌⊎◌}
use anp_identity.Provider.{
  Authority, IssuedAuthorizationContext, OneTimeOperationBinding, ProviderAuthorizationError,
  ProviderResult, TokenClaims, TokenCodec, token_consumed, validate_binding,
}
use anp_identity.Provider.Tokens.{
  admit_token, check_lease, claims_match, consume_for_operation_at, context_of, mark_consumed,
  read_token,
}
use anp_identity.Text.{Text, bytes}

module _ ⦃codec : TokenCodec⦄ where
  abbrev pub digest_of : Text → Text
  digest_of token = codec.sha256 (bytes token)

  abbrev pub live_markers : ℕ → Authority → List (Text × ℕ)
  live_markers now a = retain_values (λ expires_at. ltb now expires_at) a.consumed_tokens

  abbrev pub mark : Text → TokenClaims → ℕ → Authority → Authority
  mark token claims now a = record a {
    consumed_tokens = insert (digest_of token) claims.expires_at (live_markers now a);
  }

  -- What `admit_token` has found of the claims that it returns.
  pub record IsAdmitted (token : Text) (e : OneTimeOperationBinding) (now : ℕ) (a : Authority)
      (claims : TokenClaims) : Type 0 where
    pub bound : validate_binding e ≡ ok tt
    pub signed : read_token token a ≡ ok claims
    pub matching : claims_match a e claims ≡ true
    pub live : now < claims.expires_at
    pub leased : check_lease claims now a ≡ ok tt

  pub admit_token-IsAdmitted :
      (token : Text) (e : OneTimeOperationBinding) (now : ℕ) (a : Authority) (claims : TokenClaims)
      → admit_token token e now a ≡ ok claims
      → IsAdmitted token e now a claims
  unfolding admit_token
  admit_token-IsAdmitted token e now a claims h = ground arith

  pub IsAdmitted-admit_token :
      (token : Text) (e : OneTimeOperationBinding) (now : ℕ) (a : Authority) (claims : TokenClaims)
      → IsAdmitted token e now a claims
      → admit_token token e now a ≡ ok claims
  unfolding admit_token
  IsAdmitted-admit_token token e now a claims h = ground arith

  -- The three ways in which `consume_for_operation_at` ends.
  consume_of_err :
      (token : Text) (e : OneTimeOperationBinding) (now : ℕ) (a : Authority)
      (x : ProviderAuthorizationError)
      → admit_token token e now a ≡ err x
      → consume_for_operation_at token e now a ≡ (err x, a)
  unfolding consume_for_operation_at
  consume_of_err token e now a x h = rw h

  pub consume_of_ok :
      (token : Text) (e : OneTimeOperationBinding) (now : ℕ) (a : Authority) (claims : TokenClaims)
      → admit_token token e now a ≡ ok claims
      → consume_for_operation_at token e now a ≡ mark_consumed token claims now a
  unfolding consume_for_operation_at
  consume_of_ok token e now a claims h = rw h

  pub consume-cases :
      (token : Text) (e : OneTimeOperationBinding) (now : ℕ) (a : Authority)
      → ((x : ProviderAuthorizationError) × (admit_token token e now a ≡ err x)
          × (consume_for_operation_at token e now a ≡ (err x, a)))
        ⊎ ((claims : TokenClaims) × (admit_token token e now a ≡ ok claims)
            × (consume_for_operation_at token e now a ≡ mark_consumed token claims now a))
  consume-cases token e now a = split (admit_token token e now a) refl
    where
      split :
          (r : ProviderResult TokenClaims)
          → admit_token token e now a ≡ r
          → ((x : ProviderAuthorizationError) × (admit_token token e now a ≡ err x)
              × (consume_for_operation_at token e now a ≡ (err x, a)))
            ⊎ ((claims : TokenClaims) × (admit_token token e now a ≡ ok claims)
                × (consume_for_operation_at token e now a ≡ mark_consumed token claims now a))
      split (err x) h = inl (x, h, consume_of_err token e now a x h)
      split (ok claims) h = inr (claims, h, consume_of_ok token e now a claims h)

  pub mark_consumed-state :
      (token : Text) (claims : TokenClaims) (now : ℕ) (a : Authority)
      → (mark_consumed token claims now a).1 ≡ mark token claims now a
  unfolding mark_consumed
  mark_consumed-state token claims now a = ground arith

  mark_consumed-eq-ok :
      (token : Text) (claims : TokenClaims) (now : ℕ) (a : Authority)
      (ctx : IssuedAuthorizationContext)
      → (mark_consumed token claims now a).0 ≡ ok ctx
      → (lookup (digest_of token) (live_markers now a) ≡ none) × (ctx ≡ context_of claims)
  unfolding mark_consumed
  mark_consumed-eq-ok token claims now a ctx h = ground arith

  pub consume-IsAdmitted :
      (token : Text) (e : OneTimeOperationBinding) (now : ℕ) (a : Authority)
      (ctx : IssuedAuthorizationContext)
      → (consume_for_operation_at token e now a).0 ≡ ok ctx
      → (claims : TokenClaims) × IsAdmitted token e now a claims
        × (lookup (digest_of token) (live_markers now a) ≡ none)
        × (ctx ≡ context_of claims)
        × ((consume_for_operation_at token e now a).1 ≡ mark token claims now a)
  consume-IsAdmitted token e now a ctx h = elim (consume-cases token e now a) [
    | inl (x, refused, eq) ↦ absurd (cc (h, eq))
    | inr (claims, admitted, eq) ↦
        let (new, same) = mark_consumed-eq-ok token claims now a ctx (cc (h, eq)) in
        (
          claims,
          admit_token-IsAdmitted token e now a claims admitted,
          new,
          same,
          rw eq (mark_consumed-state token claims now a),
        )
  ]

  -- A call that fails for another reason than a consumed token leaves the authority as it was.
  pub consume-unchanged :
      (token : Text) (e : OneTimeOperationBinding) (now : ℕ) (a : Authority)
      (x : ProviderAuthorizationError)
      → (consume_for_operation_at token e now a).0 ≡ err x
      → x ≢ token_consumed
      → (consume_for_operation_at token e now a).1 ≡ a
  unfolding consume_for_operation_at mark_consumed
  consume-unchanged token e now a x h ne = ground arith
