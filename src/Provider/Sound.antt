-- ===== src/Provider/Sound.antt =====
-- `consume_for_operation_at` of provider_authorization.rs: what an accepted token is, spelled out.
use anp_identity.Assoc.{lookup}
use anp_identity.Assoc.Laws.{some-injective}
use anp_identity.Errors.{ok, ok_or, ok_or-eq-ok, refuse_if, refuse_if-eq-ok, result-eq-ok, ◌>>=◌}
use anp_identity.Input.{profile_eq, role_eq}
use anp_identity.Input.Fields.{byte_len, last}
use anp_identity.Json.{value_eq}
use anp_identity.Prelude.{
  Bool, Bool-cases, List, Option, ap, arith, contains, eq_iff, false, inl, inr, list_eq, ltb,
  nat_eq, none, not, option_eq, pair_eq, refl, some, sym, true, ℕ, ◌&&◌, ◌<◌, ◌==◌, ◌∙◌, ◌≡◌, ◌≤◌,
}
use anp_identity.Provider.{
  Authority, IssuedAuthorizationContext, LeaseState, OneTimeOperationBinding,
  ProviderAuthorizationError, ProviderResult, TokenClaims, TokenCodec, lease_invalid,
  max_token_bytes, token_invalid, token_version,
}
use anp_identity.Provider.Consume.{consume-IsAdmitted, digest_of, live_markers, mark}
use anp_identity.Provider.Tokens.{
  check_lease, claims_match, consume_for_operation_at, context_of, read_token, split_once, verify,
  without_dot,
}
use anp_identity.Text.{Text}

module _ ⦃codec : TokenCodec⦄ where
  -- The token is a payload and a tag, parted by its only dot; the tag is the HMAC of the payload
  -- under the authority's key, and the payload holds the claims.
  pub record IsAuthentic (token : Text) (a : Authority) (claims : TokenClaims) : Type 0 where
    pub payload_text : Text
    pub tag_text : Text
    pub payload : List ℕ
    pub tag : List ℕ
    pub is_short : byte_len token ≤ max_token_bytes
    pub is_split : split_once b'.' token ≡ some (payload_text, tag_text)
    pub one_dot : contains tag_text b'.' ≡ false
    pub is_payload : codec.decode payload_text ≡ some payload
    pub is_tag : codec.decode tag_text ≡ some tag
    pub is_signed : codec.hmac a.hmac_key payload ≡ tag
    pub is_claims : codec.claims_from_slice payload ≡ some claims

  -- The claims are made for this authority and for the expected operation.
  pub record IsFor (a : Authority) (e : OneTimeOperationBinding) (claims : TokenClaims)
      : Type 0 where
    pub same_version : claims.version ≡ token_version
    pub same_provider : claims.provider_instance_id ≡ a.provider_instance_id
    pub same_capability : claims.capability ≡ e.capability
    pub same_identity : claims.identity_id ≡ e.identity_id
    pub same_operation : claims.operation ≡ e.operation
    pub same_kid : claims.kid ≡ e.kid
    pub same_request : claims.request_id ≡ e.request_id
    pub same_recipient :
        claims.recipient_public_key_digest ≡ codec.recipient_digest e.recipient_public_key
    pub same_input : claims.operation_input_digest ≡ e.operation_input_digest

  -- The lease of the claims is held, lasts, and grants them.
  pub record IsLeased (claims : TokenClaims) (now : ℕ) (a : Authority) : Type 0 where
    pub parent : LeaseState
    pub is_held : lookup claims.parent_lease_id a.leases ≡ some parent
    pub lasts : now < parent.expires_at
    pub same_consumer : parent.consumer ≡ claims.consumer
    pub same_store : parent.store_id ≡ claims.store_id
    pub grants : contains parent.capabilities claims.capability ≡ true

  split-cases :
      (x : Option (Text × Text)) (p : Text × Text)
      → without_dot x ≡ some p
      → (x ≡ some p) × (contains p.1 b'.' ≡ false)
  split-cases none p h = absurd (cc)
  split-cases (some (s, t)) p h = elim (Bool-cases (contains t b'.')) [
    | inl u ↦ absurd (cc (rw u at h))
    | inr f ↦
        let q : (s, t) ≡ p = some-injective (rw f at h) in
        (ap some q, ap (λ (y : Text × Text). contains y.1 b'.') (sym q) ∙ f)
  ]

  refused :
      {A : Type 0} (b : Bool) (x : ProviderAuthorizationError) (m : ProviderResult A) (v : A)
      → (refuse_if b x >>= λ _. m) ≡ ok v
      → (b ≡ false) × (m ≡ ok v)
  refused true x m v h = absurd (cc)
  refused false x m v h = (refl, h)

  read_token-IsAuthentic :
      (token : Text) (a : Authority) (claims : TokenClaims)
      → read_token token a ≡ ok claims
      → IsAuthentic token a claims
  unfolding read_token verify
  read_token-IsAuthentic token a claims h =
      let (short, h1) = refused (ltb max_token_bytes (byte_len token)) token_invalid _ claims h in
      let (texts, q2, h2) =
        result-eq-ok (ok_or token_invalid (without_dot (split_once b'.' token))) _ claims h1 in
      let (is_split, one_dot) =
        split-cases (split_once b'.' token) texts (ok_or-eq-ok token_invalid _ texts q2) in
      let (payload, q3, h3) =
        result-eq-ok (ok_or token_invalid (codec.decode texts.0)) _ claims h2 in
      let (tag, q4, h4) = result-eq-ok (ok_or token_invalid (codec.decode texts.1)) _ claims h3 in
      let (u, q5, last) =
        result-eq-ok (refuse_if (not (codec.hmac a.hmac_key payload == tag)) token_invalid) _ claims
          h4 in
      record {
        payload_text = texts.0;
        tag_text = texts.1;
        payload = payload;
        tag = tag;
        is_short = ground (arith, short);
        is_split = is_split;
        one_dot = one_dot;
        is_payload = ok_or-eq-ok token_invalid _ payload q3;
        is_tag = ok_or-eq-ok token_invalid _ tag q4;
        is_signed =
            (eq_iff (codec.hmac a.hmac_key payload) tag).0
              (ground (arith, refuse_if-eq-ok _ token_invalid q5));
        is_claims = ok_or-eq-ok token_invalid _ claims last;
      }

  and-true : (a b : Bool) → (a && b) ≡ true → (a ≡ true) × (b ≡ true)
  and-true true b h = (refl, h)
  and-true false b h = absurd (cc)

  claims_match-IsFor :
      (a : Authority) (e : OneTimeOperationBinding) (claims : TokenClaims)
      → claims_match a e claims ≡ true
      → IsFor a e claims
  unfolding claims_match
  claims_match-IsFor a e c h =
      let (h1, r1) = and-true (c.version == token_version) _ h in
      let (h2, r2) = and-true (c.provider_instance_id == a.provider_instance_id) _ r1 in
      let (h3, r3) = and-true (c.capability == e.capability) _ r2 in
      let (h4, r4) = and-true (c.identity_id == e.identity_id) _ r3 in
      let (h5, r5) = and-true (c.operation == e.operation) _ r4 in
      let (h6, r6) = and-true (c.kid == e.kid) _ r5 in
      let (h7, r7) = and-true (c.request_id == e.request_id) _ r6 in
      let (h8, h9) =
        and-true (c.recipient_public_key_digest == codec.recipient_digest e.recipient_public_key) _
          r7 in
      record {
        same_version = (eq_iff c.version token_version).0 h1;
        same_provider = (eq_iff c.provider_instance_id a.provider_instance_id).0 h2;
        same_capability = (eq_iff c.capability e.capability).0 h3;
        same_identity = (eq_iff c.identity_id e.identity_id).0 h4;
        same_operation = (eq_iff c.operation e.operation).0 h5;
        same_kid = (eq_iff c.kid e.kid).0 h6;
        same_request = (eq_iff c.request_id e.request_id).0 h7;
        same_recipient =
            (eq_iff c.recipient_public_key_digest (codec.recipient_digest e.recipient_public_key)).0
              h8;
        same_input = (eq_iff c.operation_input_digest e.operation_input_digest).0 h9;
      }

  check_lease-IsLeased :
      (claims : TokenClaims) (now : ℕ) (a : Authority)
      → check_lease claims now a ≡ ok tt
      → IsLeased claims now a
  unfolding check_lease
  check_lease-IsLeased c now a h =
      let (parent, q, h1) =
        result-eq-ok (ok_or lease_invalid (lookup c.parent_lease_id a.leases)) _ tt h in
      let passed = refuse_if-eq-ok _ lease_invalid h1 in
      record {
        parent = parent;
        is_held = ok_or-eq-ok lease_invalid _ parent q;
        lasts = ground (arith, passed);
        same_consumer = (eq_iff parent.consumer c.consumer).0 (ground (arith, passed));
        same_store = (eq_iff parent.store_id c.store_id).0 (ground (arith, passed));
        grants = ground (arith, passed);
      }

  -- An accepted token has a payload that was signed with this authority's key and holds its claims;
  -- they name this authority, and every field that the operation has equals the expected one; they
  -- had not expired; and their lease was held, had not expired, has the consumer and the store of
  -- the claims and grants their capability. No live marker stood for the token. The result is the
  -- context of the claims, and the new state holds a marker for the token.
  pub consume_sound :
      (token : Text) (e : OneTimeOperationBinding) (now : ℕ) (a : Authority)
      (ctx : IssuedAuthorizationContext)
      → (consume_for_operation_at token e now a).0 ≡ ok ctx
      → (claims : TokenClaims) × IsAuthentic token a claims
        × IsFor a e claims
        × (now < claims.expires_at)
        × IsLeased claims now a
        × (lookup (digest_of token) (live_markers now a) ≡ none)
        × (ctx ≡ context_of claims)
        × ((consume_for_operation_at token e now a).1 ≡ mark token claims now a)
  consume_sound token e now a ctx h =
      let (claims, admitted, new, same, state) = consume-IsAdmitted token e now a ctx h in
      (
        claims,
        read_token-IsAuthentic token a claims admitted.signed,
        claims_match-IsFor a e claims admitted.matching,
        admitted.live,
        check_lease-IsLeased claims now a admitted.leased,
        new,
        same,
        state,
      )
