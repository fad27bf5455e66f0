-- ===== src/Transition/Prepare.antt =====
-- crates/anp-identity/src/facade/identity_transition.rs: preparing a hop, and resuming one after a
-- restart.
use anp_identity.Anp.{Anp}
use anp_identity.Assoc.{lookup}
use anp_identity.Disk.{Disk}
use anp_identity.Disk.Files.{list_identity_transition_journals, read_identity}
use anp_identity.Disk.Transitions.{transition_state_eq}
use anp_identity.Document.{document_digest}
use anp_identity.Errors.{err, ok, ok_or, refuse_if, ◌>>=◌, ◌>>◌}
use anp_identity.Facade.{
  IdentityResult, corrupt_state, engine_result, identity_not_found, invalid_request,
  key_unavailable,
}
use anp_identity.Input.{profile_eq, role_eq, root_control}
use anp_identity.Input.Fields.{byte_len}
use anp_identity.Json.{Value, as_object, bool, insert_field, object, remove_field, string, value_eq}
use anp_identity.KeyOps.{Curves}
use anp_identity.KeyOps.Proofs.{Proofs, sign_document_proof}
use anp_identity.Keystore.{secret_ref_eq}
use anp_identity.Prelude.{
  Bool, List, Option, [], contains, false, find, list_eq, ltb, nat_eq, none, not, option_eq,
  pair_eq, retain, some, true, ℕ, ◌&&◌, ◌==◌, ◌||◌, ◌∷◌,
}
use anp_identity.Registry.{
  IdentityRecord, KeyMetadata, KeyState, capability_eq, key_state_eq, managed, origin_eq,
  publication_eq, state_eq, summary_eq,
}
use anp_identity.Registry.Journals.{
  IdentityRegistry, IdentityTransitionJournal, IdentityTransitionJournalState,
}
use anp_identity.Text.{Text, bytes, is_empty, lit}
use anp_identity.Transition.{
  Hops, PreparedIdentityTransition, assurance_name, candidate_from_journal,
}

pub record IdentityRef : Type 0 where
  pub store_id : Text
  pub identity_id : Text
  pub did : Text

pub record IdentityTransitionRequest : Type 0 where
  pub expected_current_did : Text
  pub operation_id : Text
  pub successor : IdentityRef
  pub transition_document : Option Value

pub record IdentityTransitionSession : Type 0 where
  pub journal : IdentityTransitionJournal
  pub candidate : PreparedIdentityTransition

abbrev max_operation_id_bytes : ℕ
max_operation_id_bytes = 256

unfoldable pub validate_request : IdentityTransitionRequest → Text → IdentityResult (Unit {0})
validate_request r store_id =
    refuse_if
      (is_empty r.expected_current_did
        || (is_empty r.operation_id
            || (ltb max_operation_id_bytes (byte_len r.operation_id)
                || (contains (bytes r.operation_id) 0
                    || (not (r.successor.store_id == store_id)
                        || r.successor.did == r.expected_current_did)))))
      invalid_request

-- `matches!` of the states that a transition can go on from.
abbrev pub is_unfinished : IdentityTransitionJournalState → Bool
is_unfinished IdentityTransitionJournalState.prepared = true
is_unfinished IdentityTransitionJournalState.publication_in_flight = true
is_unfinished IdentityTransitionJournalState.publication_uncertain = true
is_unfinished IdentityTransitionJournalState.committed = false
is_unfinished IdentityTransitionJournalState.aborted = false

-- A journal of the same predecessor that was not aborted.
abbrev pub blocks : Text → IdentityTransitionJournal → Bool
blocks did j =
    j.expected_current_did == did && not (j.state == IdentityTransitionJournalState.aborted)

abbrev pub unfinished_of : Text → IdentityTransitionJournal → Bool
unfinished_of did j = j.expected_current_did == did && is_unfinished j.state

module _ ⦃anp : Anp⦄ where
  abbrev is_digest_of : Text → Option Value → Bool
  is_digest_of digest none = true
  is_digest_of digest (some document) = elim (document_digest document) [
    | ok d ↦ d == digest
    | err _ ↦ false
  ]

  unfoldable pub journal_matches_request :
      IdentityTransitionJournal → IdentityTransitionRequest → Bool
  journal_matches_request j r =
      j.operation_id == r.operation_id
      && (j.expected_current_did == r.expected_current_did
          && (j.successor_did == r.successor.did
              && (j.successor_identity_id == r.successor.identity_id
                  && is_digest_of j.predecessor_digest r.transition_document)))

  -- `IdentityTransitionSession::from_journal`.
  unfoldable pub from_journal : IdentityTransitionJournal → IdentityResult IdentityTransitionSession
  from_journal j = candidate_from_journal j >>= λ c. ok (record { journal = j; candidate = c })

  -- The two records of a hop, from the registry.
  unfoldable pub find_parties :
      IdentityTransitionRequest
      → IdentityRegistry
      → Disk
      → IdentityResult (IdentityRecord × IdentityRecord)
  find_parties r registry d = do
    predecessor ← ok_or identity_not_found (lookup r.expected_current_did registry.identities)
    successor ← ok_or identity_not_found (lookup r.successor.did registry.identities)
    refuse_if
        (not (successor.identity_id == r.successor.identity_id)
          || predecessor.identity_id == successor.identity_id)
        invalid_request
    p ← engine_result (read_identity predecessor.identity_id d).0
    s ← engine_result (read_identity successor.identity_id d).0
    ok (p, s)

  abbrev pub one_or_none :
      List IdentityTransitionJournal → IdentityResult (Option IdentityTransitionSession)
  one_or_none [] = ok none
  one_or_none (j ∷ []) = from_journal j >>= λ s. ok (some s)
  one_or_none (j ∷ k ∷ rest) = err corrupt_state

  -- `resume_identity_transition`, after the store has been reloaded.
  unfoldable pub resume_identity_transition :
      Text → Disk → IdentityResult (Option IdentityTransitionSession)
  resume_identity_transition did d = do
    journals ← engine_result (list_identity_transition_journals d).0
    one_or_none (retain (unfinished_of did) journals)

  module _ ⦃curves : Curves⦄ ⦃proofs : Proofs⦄ ⦃hops : Hops⦄ where
    abbrev is_root_signer : KeyMetadata → Bool
    is_root_signer k =
        k.role == root_control
        && (k.origin == managed && (k.state == KeyState.active && not k.material_erased))

    -- The predecessor's document, deactivated and naming its successor, under a new proof.
    unfoldable pub create_verified_transition_document :
        List ℕ → IdentityRecord → Text → Text → Disk → IdentityResult Value
    create_verified_transition_document root_key predecessor successor_did created_at d = do
      fields ← ok_or corrupt_state (as_object predecessor.document)
      let unsigned = object (
          insert_field (lit "successorDid") (string successor_did)
            (insert_field (lit "deactivated") (bool true) (remove_field (lit "proof") fields)))
      root ← ok_or key_unavailable (find is_root_signer predecessor.keys)
      engine_result (
          sign_document_proof root_key unsigned root.kid
            (record {
              proof_purpose = some (lit "assertionMethod");
              proof_type = some proofs.data_integrity;
              cryptosuite = some proofs.eddsa_jcs_2022;
              created = some created_at;
              proof_domain = none;
              challenge = none;
            })
            predecessor d)

    abbrev document_or : Option Value → IdentityResult Value → IdentityResult Value
    document_or (some document) make = ok document
    document_or none make = make

    -- A new journal, once the request has passed and no other journal is in its way.
    unfoldable pub new_hop :
        List ℕ
        → Text
        → IdentityTransitionRequest
        → IdentityRegistry
        → Disk
        → IdentityResult IdentityTransitionJournal
    new_hop root_key created_at r registry d = do
      parties ← find_parties r registry d
      let predecessor = parties.0
      let successor = parties.1
      refuse_if (not (hops.verify_active_e1_document predecessor.did predecessor.document))
          invalid_request
      refuse_if (not (hops.verify_active_e1_document successor.did successor.document))
          invalid_request
      document ←
          document_or r.transition_document
            (create_verified_transition_document root_key predecessor successor.did created_at d)
      assurance ←
          ok_or invalid_request
            (hops.verify_transition_hop document successor.document predecessor.document)
      predecessor_digest ← engine_result (document_digest document)
      successor_digest ← engine_result (document_digest successor.document)
      ok (record {
        schema_version = 1;
        operation_id = r.operation_id;
        expected_current_did = r.expected_current_did;
        predecessor_identity_id = predecessor.identity_id;
        predecessor_generation = predecessor.generation;
        successor_did = successor.did;
        successor_identity_id = successor.identity_id;
        successor_generation = successor.generation;
        trusted_predecessor_document = predecessor.document;
        predecessor_document = document;
        successor_document = successor.document;
        predecessor_digest = predecessor_digest;
        successor_digest = successor_digest;
        assurance = assurance_name assurance;
        state = IdentityTransitionJournalState.prepared;
        generation = 1;
        created_at = created_at;
      })
