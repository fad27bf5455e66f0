-- ===== src/Transition/Kept.antt =====
-- crates/anp-identity/src/facade/identity_transition.rs: preparing a transition leaves the journals that
-- the store has as they are.
use anp_identity.Anp.{Anp}
use anp_identity.Assoc.{insert, lookup}
use anp_identity.Assoc.Laws.{lookup-insert}
use anp_identity.Disk.{Disk}
use anp_identity.Disk.Files.{list_identity_transition_journals, read_registry, storage_key}
use anp_identity.Disk.Outcome.{write-cases}
use anp_identity.Disk.Transitions.{
  checked_transition, read_identity_transition_journal, transition_state_eq,
  write_identity_transition_journal,
}
use anp_identity.Errors.{DidResult, err, ok, ok-injective, refuse_if}
use anp_identity.Facade.{conflict, demand, engine, engine_outcome, look}
use anp_identity.Input.{profile_eq, role_eq}
use anp_identity.Json.{value_eq}
use anp_identity.KeyOps.{Curves}
use anp_identity.KeyOps.Proofs.{Proofs}
use anp_identity.Keystore.{secret_ref_eq}
use anp_identity.Prelude.{
  List, any, ap, arith, false, if◌then◌else◌, inl, inr, list_eq, nat_eq, ne_iff, not, option_eq,
  pair_eq, some, subst⁻¹, sym, ℕ, ◌==◌, ◌∙◌, ◌≡◌, ◌≢◌,
}
use anp_identity.Registry.{
  capability_eq, key_state_eq, origin_eq, publication_eq, state_eq, summary_eq,
}
use anp_identity.Registry.Journals.{IdentityRegistry, IdentityTransitionJournal}
use anp_identity.Text.{Text}
use anp_identity.Transition.{Hops}
use anp_identity.Transition.Exclusive.{request-holds}
use anp_identity.Transition.Prepare.{IdentityTransitionRequest, blocks, new_hop, validate_request}
use anp_identity.Transition.Sessions.{prepare_identity_transition, reuse_or_start, save, start_hop}

module _ ⦃anp : Anp⦄ ⦃hops : Hops⦄ ⦃curves : Curves⦄ ⦃proofs : Proofs⦄ where
  -- The journal of this operation.
  unfoldable pub IsStored : Text → IdentityTransitionJournal → Disk → Type 0
  IsStored operation_id j d = read_identity_transition_journal operation_id d ≡ ok j

  save-IsStored :
      (s j : IdentityTransitionJournal) (operation_id : Text) (d : Disk)
      → (storage_key s.operation_id ≡ storage_key operation_id → s.operation_id ≡ operation_id)
      → s.operation_id ≢ operation_id
      → IsStored operation_id j d
      → IsStored operation_id j (save s d).1
  unfolding IsStored write_identity_transition_journal read_identity_transition_journal
  save-IsStored s j operation_id d injective other stored =
      let apart : (storage_key s.operation_id == storage_key operation_id) ≡ false =
        (ne_iff (storage_key s.operation_id) (storage_key operation_id)).1
          (λ p. other (injective p)) in
      request-holds (IsStored operation_id j) (engine (write_identity_transition_journal s)) _ d
        (elim (write-cases
          (λ x. record x { transitions = insert (storage_key s.operation_id) s x.transitions }) d) [
            | inl q ↦ subst⁻¹ (λ x. IsStored operation_id j (engine_outcome x).1) q stored
            | inr (n, u, q) ↦
                subst⁻¹ (λ x. IsStored operation_id j (engine_outcome x).1) q
                  (ap (checked_transition operation_id) (
                      lookup-insert (storage_key s.operation_id) (storage_key operation_id) s
                        d.transitions
                      ∙ ap
                          (λ t.
                            if t then some s else lookup (storage_key operation_id) d.transitions)
                          apart)
                    ∙ stored)
          ])
        (λ a c q held. held)

  new_hop-operation_id :
      (root_key : List ℕ) (created_at : Text) (r : IdentityTransitionRequest)
      (registry : IdentityRegistry) (d : Disk) (j : IdentityTransitionJournal)
      → new_hop root_key created_at r registry d ≡ ok j
      → j.operation_id ≡ r.operation_id
  unfolding new_hop
  new_hop-operation_id root_key created_at r registry d j h = ground arith

  start_hop-IsStored :
      (root_key : List ℕ) (created_at : Text) (r : IdentityTransitionRequest)
      (registry : IdentityRegistry) (j : IdentityTransitionJournal) (operation_id : Text) (d : Disk)
      → ((other : Text) → storage_key other ≡ storage_key operation_id → other ≡ operation_id)
      → r.operation_id ≢ operation_id
      → IsStored operation_id j d
      → IsStored operation_id j (start_hop root_key created_at r registry d).1
  unfolding list_identity_transition_journals
  start_hop-IsStored root_key created_at r registry j operation_id d injective other stored =
      let P = IsStored operation_id j in
      request-holds P (engine list_identity_transition_journals) _ d stored
        (λ journals c listed held.
          request-holds P
            (demand (refuse_if (any (blocks r.expected_current_did) journals) conflict)) _ c held
            (λ _ e passed kept.
              request-holds P (look (new_hop root_key created_at r registry)) _ e kept
                (λ s f made still.
                  let is_named =
                    new_hop-operation_id root_key created_at r registry e s (ap (λ x. x.0) made) in
                  request-holds P (save s) _ f
                    (save-IsStored s j operation_id f (injective s.operation_id)
                      (λ p. other (sym is_named ∙ p)) still)
                    (λ t x saved y. y))))

  reuse-IsStored :
      (root_key : List ℕ) (created_at : Text) (r : IdentityTransitionRequest)
      (registry : IdentityRegistry) (j : IdentityTransitionJournal) (operation_id : Text)
      (existing : DidResult IdentityTransitionJournal) (d : Disk)
      → ((other : Text) → storage_key other ≡ storage_key operation_id → other ≡ operation_id)
      → read_identity_transition_journal r.operation_id d ≡ existing
      → IsStored operation_id j d
      → IsStored operation_id j (reuse_or_start root_key created_at r registry existing d).1
  unfolding IsStored
  reuse-IsStored root_key created_at r registry j operation_id (ok s) d injective found stored =
      stored
  reuse-IsStored root_key created_at r registry j operation_id (err e) d injective found stored =
      start_hop-IsStored root_key created_at r registry j operation_id d injective
        (λ p. cc (found, stored, ap (λ id. read_identity_transition_journal id d) p)) stored

  pub prepare-IsStored :
      (store_id : Text) (generation : ℕ) (root_key : List ℕ) (created_at : Text)
      (r : IdentityTransitionRequest) (j : IdentityTransitionJournal) (operation_id : Text)
      (d : Disk)
      → ((other : Text) → storage_key other ≡ storage_key operation_id → other ≡ operation_id)
      → IsStored operation_id j d
      → IsStored operation_id j
          (prepare_identity_transition store_id generation root_key created_at r d).1
  unfolding prepare_identity_transition read_registry
  prepare-IsStored store_id generation root_key created_at r j operation_id d injective stored =
      let P = IsStored operation_id j in
      request-holds P (demand (validate_request r store_id)) _ d stored (λ _ c valid held.
        request-holds P (engine read_registry) _ c held (λ registry e known kept.
          request-holds P (demand (refuse_if (not (registry.generation == generation)) conflict)) _
            e kept
            (λ _ f current still.
              request-holds P (look (λ x. ok (read_identity_transition_journal r.operation_id x))) _
                f still
                (λ existing g found yet.
                  reuse-IsStored root_key created_at r registry j operation_id existing g injective
                    (ap (read_identity_transition_journal r.operation_id)
                        (sym (ap (λ x. x.1) found))
                      ∙ ok-injective (ap (λ x. x.0) found))
                    yet))))
