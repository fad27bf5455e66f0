-- ===== src/Input/Create/Laws.antt =====
-- `DidCreateSpec::validate` accepts exactly the specifications that keep the documented rules.
use anp_identity.Anp.{Anp, PublicKeyMaterial}
use anp_identity.Errors.{DidResult, err, ok, ◌>>=◌}
use anp_identity.Input.{
  DidCreateSpec, DidProfile, ExternalPublicKeySpec, ManagedKeySpec, e1, profile_eq, role_eq,
  root_control, supports_root_control, web,
}
use anp_identity.Input.Create.{
  check_each, check_external, check_managed, count_role, from_bool, is_request_capable,
  parse_public_key, url_is_bad, validate_create,
}
use anp_identity.Input.Fields.{
  fragment_is_valid, validate_domain, validate_extension, validate_fragment, validate_path_segment,
  validate_service,
}
use anp_identity.Json.{value_eq}
use anp_identity.Prelude.{
  All, Bool, Distinct, Fresh, Fresh-nil_iff, List, [], all, any, arith, contains, false, is_nil,
  is_some_and, list_eq, map, nat_eq, not, not_contains, option_eq, pair_eq, refl, sym, true, ℕ,
  ◌&&◌, ◌==◌, ◌↔◌, ◌∷◌, ◌≡◌, ◌≢◌,
}
use anp_identity.Text.{Text}

check_each_iff {ℓ} :
    {A : Type ℓ} (check : A → DidResult (Unit {0})) (xs : List A)
    → (check_each check xs ≡ ok tt) ↔ All (λ x. check x ≡ ok tt) xs
unfolding check_each
check_each_iff check [] = (λ _. tt, λ _. refl)
check_each_iff check (x ∷ xs) = ground (arith, check_each_iff check xs)

validate_fragment_iff : (s : Text) → (validate_fragment s ≡ ok tt) ↔ (fragment_is_valid s ≡ true)
unfolding validate_fragment
validate_fragment_iff s = ground arith

abbrev fragment_spec : ManagedKeySpec → Text
fragment_spec k = k.fragment

module _ (seen : List Text) (k : ManagedKeySpec) (ks : List ManagedKeySpec) where
  cons-check_managed :
      check_managed seen (k ∷ ks) ≡ ok tt
      → (validate_fragment k.fragment ≡ ok tt)
        × (contains seen k.fragment ≡ false)
        × (check_managed (k.fragment ∷ seen) ks ≡ ok tt)
  unfolding check_managed
  cons-check_managed h = ground arith

  check_managed-cons :
      validate_fragment k.fragment ≡ ok tt
      → contains seen k.fragment ≡ false
      → check_managed (k.fragment ∷ seen) ks ≡ ok tt
      → check_managed seen (k ∷ ks) ≡ ok tt
  unfolding check_managed
  check_managed-cons p q h = ground arith

check_managed_iff :
    (seen : List Text) (ks : List ManagedKeySpec)
    → (check_managed seen ks ≡ ok tt)
      ↔ (All (λ k. fragment_is_valid k.fragment ≡ true) ks × Fresh seen (map (λ k. k.fragment) ks))
unfolding check_managed
check_managed_iff seen [] = (λ _. (tt, tt), λ _. refl)
check_managed_iff seen (k ∷ ks) = (
  λ h.
      let (valid, new, rest) = cons-check_managed seen k ks h in
      let (all, fresh) = (check_managed_iff (k.fragment ∷ seen) ks).0 rest in
      (
        ((validate_fragment_iff k.fragment).0 valid, all),
        ((not_contains seen k.fragment).0 new, fresh),
      ),
  λ (v, f).
      check_managed-cons seen k ks ((validate_fragment_iff k.fragment).1 v.0)
        ((not_contains seen k.fragment).1 f.0)
        ((check_managed_iff (k.fragment ∷ seen) ks).1 (v.1, f.1)),
)

discard_iff :
    {A : Type 0} (r : DidResult A) → ((r >>= λ _. ok tt) ≡ ok (tt {0})) ↔ ((a : A) × (r ≡ ok a))
discard_iff (ok a) = (λ _. (a, refl), λ _. refl)
discard_iff (err e) = (λ h. cc, λ (a, h). cc)

module _ ⦃anp : Anp⦄ where
  check_external_iff :
      (k : ExternalPublicKeySpec)
      → (check_external k ≡ ok tt) ↔ ((key : PublicKeyMaterial) × (parse_public_key k ≡ ok key))
  check_external_iff k = discard_iff (parse_public_key k)

  All-check_external :
      (ks : List ExternalPublicKeySpec)
      → All (λ k. check_external k ≡ ok tt) ks
        ↔ All (λ k. (key : PublicKeyMaterial) × (parse_public_key k ≡ ok key)) ks
  All-check_external [] = (λ h. h, λ h. h)
  All-check_external (k ∷ ks) = (
    λ h. ((check_external_iff k).0 h.0, (All-check_external ks).0 h.1),
    λ h. ((check_external_iff k).1 h.0, (All-check_external ks).1 h.1),
  )

  -- The rules, one field each.
  pub record IsValidSpec (spec : DidCreateSpec) : Type 0 where
    pub domain : validate_domain spec.domain ≡ ok tt
    pub path_given : spec.profile ≡ e1 → spec.path_segments ≢ []
    pub segments : All (λ s. validate_path_segment s ≡ ok tt) spec.path_segments
    pub one_root : spec.profile ≡ e1 → count_role root_control spec.managed_keys ≡ 1
    pub no_root : spec.profile ≡ web → count_role root_control spec.managed_keys ≡ 0
    pub wba_signer :
        spec.capabilities.did_wba ≡ true → any is_request_capable spec.managed_keys ≡ true
    pub fragments : All (λ k. fragment_is_valid k.fragment ≡ true) spec.managed_keys
    pub distinct : Distinct (map (λ k. k.fragment) spec.managed_keys)
    pub externals :
        All (λ k. (key : PublicKeyMaterial) × (parse_public_key k ≡ ok key)) spec.external_keys
    pub services : All (λ s. validate_service s ≡ ok tt) spec.services
    pub description : is_some_and url_is_bad spec.agent_description_url ≡ false
    pub extensions : All (λ x. validate_extension x ≡ ok tt) spec.extensions

  -- The order in which `validate` asks.
  record Checks (spec : DidCreateSpec) : Type 0 where
    domain : validate_domain spec.domain ≡ ok tt
    path_given : (spec.profile == e1 && is_nil spec.path_segments) ≡ false
    segments : check_each validate_path_segment spec.path_segments ≡ ok tt
    root_count :
        (count_role root_control spec.managed_keys
          == from_bool (supports_root_control spec.profile))
        ≡ true
    wba_signer :
        (spec.capabilities.did_wba && not (any is_request_capable spec.managed_keys)) ≡ false
    managed : check_managed [] spec.managed_keys ≡ ok tt
    no_external_root : any (λ key. key.role == root_control) spec.external_keys ≡ false
    externals : check_each check_external spec.external_keys ≡ ok tt
    services : check_each validate_service spec.services ≡ ok tt
    description : is_some_and url_is_bad spec.agent_description_url ≡ false
    extensions : check_each validate_extension spec.extensions ≡ ok tt

  validate_create-Checks : (spec : DidCreateSpec) → validate_create spec ≡ ok tt → Checks spec
  unfolding validate_create
  validate_create-Checks spec h = ground arith

  Checks-validate_create : (spec : DidCreateSpec) → Checks spec → validate_create spec ≡ ok tt
  unfolding validate_create
  Checks-validate_create spec h = ground arith

  no_external_root_of :
      (ks : List ExternalPublicKeySpec)
      → All (λ k. (key : PublicKeyMaterial) × (parse_public_key k ≡ ok key)) ks
      → any (λ key. key.role == root_control) ks ≡ false
  unfolding parse_public_key
  no_external_root_of [] h = refl
  no_external_root_of (k ∷ ks) h = ground (arith, no_external_root_of ks h.1)

  root_count_iff :
      (p : DidProfile) (n : ℕ)
      → ((n == from_bool (supports_root_control p)) ≡ true) ↔ ((p ≡ e1 → n ≡ 1) × (p ≡ web → n ≡ 0))
  root_count_iff e1 n = ground arith
  root_count_iff web n = ground arith

  path_given_iff :
      (p : DidProfile) (segments : List Text)
      → ((p == e1 && is_nil segments) ≡ false) ↔ (p ≡ e1 → segments ≢ [])
  path_given_iff e1 [] = (λ h. cc, λ h. absurd (h refl refl))
  path_given_iff e1 (s ∷ ss) = (λ _ _ e. cc, λ _. refl)
  path_given_iff web segments = (λ _ e. cc, λ _. refl)

  wba_iff : (a b : Bool) → ((a && not b) ≡ false) ↔ (a ≡ true → b ≡ true)
  wba_iff true true = (λ _ _. refl, λ _. refl)
  wba_iff true false = (λ h. cc, λ h. sym (h refl))
  wba_iff false b = (λ _ e. cc, λ _. refl)

  -- `DidCreateSpec::validate` accepts a specification exactly when it keeps every rule of
  -- `IsValidSpec`: the domain, path segments, services and extensions pass their checks, an E1
  -- identity has a path and exactly one managed root key and a Web identity none, DID-WBA has a managed
  -- signer, the managed fragments are valid and distinct, and each external key parses for its role.
  pub validate_create_iff :
      (spec : DidCreateSpec) → (validate_create spec ≡ ok tt) ↔ IsValidSpec spec
  validate_create_iff spec = (to_rules, from_rules)
    where
      to_rules : validate_create spec ≡ ok tt → IsValidSpec spec
      to_rules h =
          let c = validate_create-Checks spec h in
          let (fragments, fresh) = (check_managed_iff [] spec.managed_keys).0 c.managed in
          let roots =
            (root_count_iff spec.profile (count_role root_control spec.managed_keys)).0
              c.root_count in
          record {
            domain = c.domain;
            path_given = (path_given_iff spec.profile spec.path_segments).0 c.path_given;
            segments = (check_each_iff validate_path_segment spec.path_segments).0 c.segments;
            one_root = roots.0;
            no_root = roots.1;
            wba_signer = (wba_iff spec.capabilities.did_wba _).0 c.wba_signer;
            fragments = fragments;
            distinct = (Fresh-nil_iff _).0 fresh;
            externals =
                (All-check_external spec.external_keys).0
                  ((check_each_iff check_external spec.external_keys).0 c.externals);
            services = (check_each_iff validate_service spec.services).0 c.services;
            description = c.description;
            extensions = (check_each_iff validate_extension spec.extensions).0 c.extensions;
          }

      from_rules : IsValidSpec spec → validate_create spec ≡ ok tt
      from_rules v = Checks-validate_create spec (record {
        domain = v.domain;
        path_given = (path_given_iff spec.profile spec.path_segments).1 v.path_given;
        segments = (check_each_iff validate_path_segment spec.path_segments).1 v.segments;
        root_count = (root_count_iff spec.profile _).1 (v.one_root, v.no_root);
        wba_signer = (wba_iff spec.capabilities.did_wba _).1 v.wba_signer;
        managed =
            (check_managed_iff [] spec.managed_keys).1
              (v.fragments, (Fresh-nil_iff _).1 v.distinct);
        no_external_root = no_external_root_of spec.external_keys v.externals;
        externals =
            (check_each_iff check_external spec.external_keys).1
              ((All-check_external spec.external_keys).1 v.externals);
        services = (check_each_iff validate_service spec.services).1 v.services;
        description = v.description;
        extensions = (check_each_iff validate_extension spec.extensions).1 v.extensions;
      })
