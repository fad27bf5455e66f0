-- ===== src/Transition/Exclusive.antt =====
-- crates/anp-identity/src/facade/identity_transition.rs: preparing a transition does not give an
-- identity a second one.
use anp_identity.Anp.{Anp}
use anp_identity.Assoc.{insert, lookup}
use anp_identity.Disk.{Disk}
use anp_identity.Disk.Files.{
  list_identity_transition_journals, operation_of, read_registry, sort_by, storage_key, values,
}
use anp_identity.Disk.Outcome.{write-cases}
use anp_identity.Disk.Transitions.{
  read_identity_transition_journal, transition_state_eq, write_identity_transition_journal,
}
use anp_identity.Errors.{DidResult, err, ok, ok-injective, refuse_if}
use anp_identity.Facade.{
  IdentityResult, Request, conflict, demand, engine, engine_outcome, go_on, look, ◌>>=◌,
}
use anp_identity.Facade.Outcome.{engine-eq-ok}
use anp_identity.Input.{profile_eq, role_eq}
use anp_identity.Json.{value_eq}
use anp_identity.KeyOps.{Curves}
use anp_identity.KeyOps.Proofs.{Proofs}
use anp_identity.Keystore.{secret_ref_eq}
use anp_identity.Prelude.{
  Bool, Bool-cases, List, [], all, any, ap, arith, eq_iff, false, inl, inr, list_eq, nat_eq, not,
  option_eq, pair_eq, refl, some, subst⁻¹, sym, true, ℕ, ◌==◌, ◌∙◌, ◌∷◌, ◌≡◌,
}
use anp_identity.Registry.{
  capability_eq, key_state_eq, origin_eq, publication_eq, state_eq, summary_eq,
}
use anp_identity.Registry.Journals.{IdentityRegistry, IdentityTransitionJournal}
use anp_identity.Text.{Text}
use anp_identity.Transition.{Hops}
use anp_identity.Transition.Prepare.{IdentityTransitionRequest, blocks, new_hop, validate_request}
use anp_identity.Transition.Sessions.{
  SessionCall, prepare_identity_transition, reuse_or_start, run_call, save, start_hop,
}
use anp_identity.Transition.Single.{
  IsSingle, any-sort_by, call-IsSingle, insert-IsSingle, lookup-any,
}

go_on-holds {ℓ κ} :
    {A : Type ℓ} {B : Type κ} (P : Disk → Type 0) (f : A → Request B) (x : IdentityResult A × Disk)
    → P x.1
    → ((a : A) (c : Disk) → x ≡ (ok a, c) → P c → P (f a c).1)
    → P (go_on f x).1
go_on-holds P f (ok a, c) start then_so = then_so a c refl start
go_on-holds P f (err e, c) start then_so = start

-- What holds after the first part of a request, and after every rest of it, holds at the end.
pub request-holds {ℓ κ} :
    {A : Type ℓ} {B : Type κ} (P : Disk → Type 0) (m : Request A) (f : A → Request B) (d : Disk)
    → P (m d).1
    → ((a : A) (c : Disk) → m d ≡ (ok a, c) → P c → P (f a c).1)
    → P ((m >>= f) d).1
unfolding ◌>>=◌
request-holds P m f d start then_so = go_on-holds P f (m d) start then_so

blocks-did :
    (did : Text) (j : IdentityTransitionJournal)
    → blocks did j ≡ true
    → j.expected_current_did ≡ did
blocks-did did j h = (eq_iff j.expected_current_did did).0 (ground (arith, h))

abbrev SingleDisk : Disk → Type 0
SingleDisk d = IsSingle d.transitions

refused-false :
    (b : Bool) → Path (IdentityResult (Unit {0})) (refuse_if b conflict) (ok tt) → b ≡ false
refused-false b h = ground (arith, h)

module _ ⦃anp : Anp⦄ ⦃hops : Hops⦄ ⦃curves : Curves⦄ ⦃proofs : Proofs⦄ where
  new_hop-did :
      (root_key : List ℕ) (created_at : Text) (r : IdentityTransitionRequest)
      (registry : IdentityRegistry) (d : Disk) (j : IdentityTransitionJournal)
      → new_hop root_key created_at r registry d ≡ ok j
      → j.expected_current_did ≡ r.expected_current_did
  unfolding new_hop
  new_hop-did root_key created_at r registry d j h = ground arith

  listed-unblocked :
      (did : Text) (d c : Disk) (journals : List IdentityTransitionJournal)
      → list_identity_transition_journals d ≡ (ok journals, c)
      → any (blocks did) journals ≡ false
      → (l : Text) (j : IdentityTransitionJournal) → lookup l d.transitions ≡ some j
      → blocks did j ≡ false
  unfolding list_identity_transition_journals
  listed-unblocked did d c journals h q l j is_there =
      let schemas =
        all (λ (j : IdentityTransitionJournal). j.schema_version == 1) (values d.transitions) in
      elim (Bool-cases schemas) [
        | inr f ↦ absurd (cc (rw f at (ap (λ x. x.0) h)))
        | inl t ↦
            let listed : sort_by operation_of (values d.transitions) ≡ journals =
              ok-injective (rw t at (ap (λ x. x.0) h)) in
            lookup-any (blocks did) l j d.transitions is_there (
              sym (any-sort_by (blocks did) operation_of (values d.transitions))
              ∙ ap (any (blocks did)) listed
              ∙ q)
      ]

  -- The journal of a new hop is written where no other of its predecessor is alive.
  save-IsSingle :
      (j : IdentityTransitionJournal) (d : Disk)
      → IsSingle d.transitions
      → ((l : Text) (k : IdentityTransitionJournal)
          → lookup l d.transitions ≡ some k
          → blocks j.expected_current_did k ≡ false)
      → IsSingle (save j d).1.transitions
  unfolding write_identity_transition_journal
  save-IsSingle j d single free =
      request-holds SingleDisk (engine (write_identity_transition_journal j)) _ d
        (elim (write-cases
          (λ x. record x { transitions = insert (storage_key j.operation_id) j x.transitions }) d) [
            | inl q ↦ subst⁻¹ (λ x. IsSingle (engine_outcome x).1.transitions) q single
            | inr (n, u, q) ↦
                subst⁻¹ (λ x. IsSingle (engine_outcome x).1.transitions) q
                  (insert-IsSingle (storage_key j.operation_id) j d.transitions single
                    (λ l k is_there did a b.
                      absurd (
                        cc
                          (b, ap (λ t. blocks t k) (sym (blocks-did did j a)), free l k is_there))))
          ])
        (λ a c q held. held)

  start_hop-IsSingle :
      (root_key : List ℕ) (created_at : Text) (r : IdentityTransitionRequest)
      (registry : IdentityRegistry) (d : Disk)
      → IsSingle d.transitions
      → IsSingle (start_hop root_key created_at r registry d).1.transitions
  unfolding list_identity_transition_journals
  start_hop-IsSingle root_key created_at r registry d single =
      request-holds SingleDisk (engine list_identity_transition_journals) _ d single
        (λ journals c listed held.
          request-holds SingleDisk
            (demand (refuse_if (any (blocks r.expected_current_did) journals) conflict)) _ c held
            (λ _ e passed kept.
              request-holds SingleDisk (look (new_hop root_key created_at r registry)) _ e kept
                (λ j f made still.
                  request-holds SingleDisk (save j) _ f
                    (save-IsSingle j f still (λ l k is_there.
                      ap (λ did. blocks did k)
                        (new_hop-did root_key created_at r registry e j (ap (λ x. x.0) made))
                      ∙ listed-unblocked r.expected_current_did d c journals
                          (engine-eq-ok list_identity_transition_journals d journals c listed)
                          (refused-false _ (ap (λ x. x.0) passed)) l k
                          (ap (λ (x : Disk). lookup l x.transitions)
                              (ap (λ x. x.1) listed ∙ ap (λ x. x.1) passed ∙ ap (λ x. x.1) made)
                            ∙ is_there)))
                    (λ s x saved y. y))))

  prepare-IsSingle :
      (store_id : Text) (generation : ℕ) (root_key : List ℕ) (created_at : Text)
      (r : IdentityTransitionRequest) (d : Disk)
      → IsSingle d.transitions
      → IsSingle
          (prepare_identity_transition store_id generation root_key created_at r d).1.transitions
  unfolding prepare_identity_transition read_registry
  prepare-IsSingle store_id generation root_key created_at r d single =
      request-holds SingleDisk (demand (validate_request r store_id)) _ d single (λ _ c valid held.
        request-holds SingleDisk (engine read_registry) _ c held (λ registry e known kept.
          request-holds SingleDisk
            (demand (refuse_if (not (registry.generation == generation)) conflict)) _ e kept
            (λ _ f current still.
              request-holds SingleDisk
                (look (λ x. ok (read_identity_transition_journal r.operation_id x))) _ f still
                (λ existing g found yet. reuse-holds registry existing g yet))))
    where
      reuse-holds :
          (registry : IdentityRegistry) (existing : DidResult IdentityTransitionJournal) (g : Disk)
          → IsSingle g.transitions
          → IsSingle (reuse_or_start root_key created_at r registry existing g).1.transitions
      reuse-holds registry (ok j) g single = single
      reuse-holds registry (err e) g single =
          start_hop-IsSingle root_key created_at r registry g single

  -- What the manager and the sessions of a store do with its transitions.
  pub data TransitionEvent : Type 0 where
    prepares : Text → ℕ → Text → IdentityTransitionRequest → TransitionEvent
    goes_on : SessionCall → IdentityTransitionJournal → TransitionEvent

  unfoldable pub run_events : List ℕ → List TransitionEvent → Disk → Disk
  run_events root_key [] d = d
  run_events root_key (prepares store_id generation now r ∷ events) d =
      run_events root_key events
        (prepare_identity_transition store_id generation root_key now r d).1
  run_events root_key (goes_on call held ∷ events) d =
      run_events root_key events (run_call call held d).1

  -- On a store where every identity has at most one transition that was not aborted, this still
  -- holds after any preparations and calls of sessions, whether they return or fail.
  pub run_events-IsSingle :
      (root_key : List ℕ) (events : List TransitionEvent) (d : Disk)
      → IsSingle d.transitions
      → IsSingle (run_events root_key events d).transitions
  unfolding run_events
  run_events-IsSingle root_key [] d single = single
  run_events-IsSingle root_key (prepares store_id generation now r ∷ events) d single =
      run_events-IsSingle root_key events _
        (prepare-IsSingle store_id generation root_key now r d single)
  run_events-IsSingle root_key (goes_on call held ∷ events) d single =
      run_events-IsSingle root_key events _ (call-IsSingle call held d single)
