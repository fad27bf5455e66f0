-- ===== src/Tests/Hops.antt =====
-- Examples for facade/identity_transition.rs: one hop between two Web identities.
use anp_identity.Assoc.{insert, lookup}
use anp_identity.Disk.{Disk, write}
use anp_identity.Disk.Files.{
  finish_record, infer_local_authorization, is_local_device, read_identity, storage_key,
}
use anp_identity.Disk.Transitions.{
  read_identity_transition_journal, transition_state_eq, write_identity_transition_journal,
}
use anp_identity.Document.{document_digest, root_key_fingerprint}
use anp_identity.Errors.{chain, err, ok}
use anp_identity.Facade.{conflict, from_did_error, ◌>>=◌}
use anp_identity.Input.{for_did, profile_eq, role_eq}
use anp_identity.Json.{get_field, text_lt, value_eq}
use anp_identity.Keystore.{secret_ref_eq}
use anp_identity.Prelude.{
  List, [], arith, inl, list_beq, list_eq, nat_eq, none, option_eq, pair_eq, refl, some, sym, true,
  ℕ, ◌∷◌, ◌≡◌, ◌⊎◌,
}
use anp_identity.Registry.{
  IdentityRecord, capability_eq, key_state_eq, origin_eq, prepared, publication_eq, state_eq,
  summary_eq,
}
use anp_identity.Registry.Journals.{IdentityTransitionJournal, IdentityTransitionJournalState}
use anp_identity.Tests.KeyOps.{sample_curves, sample_proofs}
use anp_identity.Tests.Record.{empty_disk, new_document, old_document, sample_record}
use anp_identity.Tests.Sample.{bytes-injective, sample_anp, sample_codec}
use anp_identity.Text.{Text, bytes, lit, starts_with}
use anp_identity.Transition.{
  Hops, advance_journal, assurance_name, attempt_from_journal, conclude, confirmed, judge,
  next_generation, reload_and_validate, validate_attempt, validate_evidence, verified,
}
use anp_identity.Transition.Commits.{Shows, committed_only-Shows}
use anp_identity.Transition.Ends.{ended_stays}
use anp_identity.Transition.Exclusive.{
  TransitionEvent, goes_on, prepares, run_events, run_events-IsSingle,
}
use anp_identity.Transition.Histories.{stale_session_fails}
use anp_identity.Transition.Moves.{IsRepeated, run_call-cases}
use anp_identity.Transition.Prepare.{from_journal, resume_identity_transition}
use anp_identity.Transition.Quiet.{run_call-IsQuiet}
use anp_identity.Transition.Resume.{IsKeyed, resume-finds}
use anp_identity.Transition.Sessions.{
  SessionCall, begin_call, begin_transition, complete_call, complete_transition,
  reconcile_transition, run_call,
}
use anp_identity.Transition.Single.{IsSingle, insert-IsSingle}
use anp_identity.Transition.Steps.{IsHopStep}

abbrev hop_at : IdentityTransitionJournalState → ℕ → IdentityTransitionJournal
hop_at state generation = record {
  schema_version = 1;
  operation_id = lit "O";
  expected_current_did = lit "did:web:a.example";
  predecessor_identity_id = lit "I";
  predecessor_generation = 4;
  successor_did = lit "did:web:b.example";
  successor_identity_id = lit "J";
  successor_generation = 4;
  trusted_predecessor_document = old_document;
  predecessor_document = new_document;
  successor_document = old_document;
  predecessor_digest = lit "sha256:";
  successor_digest = lit "sha256:";
  assurance = lit "verified";
  state = state;
  generation = generation;
  created_at = lit "T";
}

abbrev successor_record : IdentityRecord
successor_record = record (sample_record prepared) {
  identity_id = lit "J";
  did = lit "did:web:b.example";
}

abbrev hop_disk : IdentityTransitionJournalState → ℕ → ℕ → Disk
hop_disk state generation writes = record empty_disk {
  identities = (lit "I", sample_record prepared) ∷ (lit "J", successor_record) ∷ [];
  transitions = (lit "O", hop_at state generation) ∷ [];
  writes_left = writes;
}

instance abbrev pub sample_hops : Hops
sample_hops = record {
  verify_active_e1_document = λ did document. true;
  verify_transition_hop = λ predecessor successor trusted. some verified;
}

abbrev fresh_hop : IdentityTransitionJournal
fresh_hop = hop_at IdentityTransitionJournalState.prepared 1

abbrev begun_hop : IdentityTransitionJournal
begun_hop = hop_at IdentityTransitionJournalState.publication_in_flight 2

abbrev done_hop : IdentityTransitionJournal
done_hop = hop_at IdentityTransitionJournalState.committed 3

abbrev fresh_disk : Disk
fresh_disk = hop_disk IdentityTransitionJournalState.prepared 1 9

abbrev begun_disk : Disk
begun_disk = hop_disk IdentityTransitionJournalState.publication_in_flight 2 8

abbrev done_disk : Disk
done_disk = hop_disk IdentityTransitionJournalState.committed 3 7

abbrev good_answer : SessionCall
good_answer =
    complete_call
      (record {
        operation_id = lit "O";
        predecessor_digest = lit "sha256:";
        successor_digest = lit "sha256:";
        publication_generation = 2;
      })
      (confirmed (record { predecessor_digest = lit "sha256:"; successor_digest = lit "sha256:" }))

has_begun : run_call begin_call fresh_hop fresh_disk ≡ (ok begun_hop, begun_disk)
unfolding run_call ◌>>=◌ begin_transition reload_and_validate read_identity_transition_journal
    lookup list_beq storage_key bytes read_identity finish_record for_did starts_with
    infer_local_authorization advance_journal next_generation write_identity_transition_journal
    insert is_local_device write document_digest root_key_fingerprint from_did_error get_field
    text_lt complete_transition reconcile_transition assurance_name attempt_from_journal conclude
    judge validate_attempt validate_evidence
has_begun = refl

has_ended : run_call good_answer begun_hop begun_disk ≡ (ok done_hop, done_disk)
unfolding run_call ◌>>=◌ complete_transition reload_and_validate read_identity_transition_journal
    lookup list_beq storage_key bytes read_identity finish_record for_did starts_with
    infer_local_authorization validate_attempt conclude validate_evidence insert is_local_device
    write_identity_transition_journal write document_digest root_key_fingerprint from_did_error
    get_field text_lt begin_transition reconcile_transition advance_journal assurance_name
    attempt_from_journal judge next_generation
has_ended = refl

run_call-cases_example :
    IsHopStep fresh_hop begun_hop fresh_disk begun_disk
    ⊎ IsRepeated fresh_hop begun_hop fresh_disk begun_disk
run_call-cases_example =
    run_call-cases begin_call fresh_hop begun_hop fresh_disk begun_disk has_begun

committed_only-Shows_example :
    (j : IdentityTransitionJournal) × (reload_and_validate begun_hop begun_disk ≡ ok j)
    × Shows good_answer j
committed_only-Shows_example =
    committed_only-Shows good_answer begun_hop done_hop begun_disk done_disk has_ended refl

is_refused : run_call good_answer fresh_hop fresh_disk ≡ (err conflict, fresh_disk)
unfolding run_call ◌>>=◌ complete_transition reload_and_validate read_identity_transition_journal
    lookup list_beq storage_key bytes read_identity finish_record for_did starts_with
    infer_local_authorization validate_attempt
is_refused = refl

run_call-IsQuiet_example : fresh_disk ≡ fresh_disk
run_call-IsQuiet_example =
    run_call-IsQuiet good_answer fresh_hop conflict fresh_disk fresh_disk is_refused

stale_session_fails_example : run_call begin_call fresh_hop begun_disk ≡ (err conflict, begun_disk)
stale_session_fails_example =
    stale_session_fails begin_call begin_call fresh_hop fresh_hop begun_hop fresh_disk begun_disk
      has_begun refl (λ q. omega arith)

is_there : read_identity_transition_journal (lit "O") done_disk ≡ ok done_hop
unfolding read_identity_transition_journal lookup list_beq storage_key bytes
is_there = refl

same_file : (other : Text) → storage_key other ≡ storage_key (lit "O") → other ≡ lit "O"
unfolding storage_key
same_file other h = sym (bytes-injective (lit "O") other refl (sym h))

one_hop-IsSingle : IsSingle fresh_disk.transitions
unfolding IsSingle lookup insert
one_hop-IsSingle =
    insert-IsSingle (lit "O") fresh_hop [] (λ k l i j p q did a b. absurd (cc p))
      (λ l j p did a b. absurd (cc p))

abbrev some_events : List TransitionEvent
some_events =
    goes_on begin_call fresh_hop
    ∷ prepares (lit "S") 0 (lit "T") (record {
      expected_current_did = lit "did:web:a.example";
      operation_id = lit "P";
      successor = record {
        store_id = lit "S";
        identity_id = lit "J";
        did = lit "did:web:b.example";
      };
      transition_document = none;
    })
    ∷ []

run_events-IsSingle_example : IsSingle (run_events [] some_events fresh_disk).transitions
run_events-IsSingle_example = run_events-IsSingle [] some_events fresh_disk one_hop-IsSingle

is_keyed : IsKeyed fresh_disk.transitions
unfolding IsKeyed lookup
is_keyed = (refl, tt)

is_stored : lookup (lit "O") fresh_disk.transitions ≡ some fresh_hop
unfolding lookup list_beq
is_stored = refl

resume-finds_example :
    resume_identity_transition ⦃anp = sample_anp⦄ (lit "did:web:a.example") fresh_disk
    ≡ chain (from_journal ⦃anp = sample_anp⦄ fresh_hop) (λ s. ok (some s))
unfolding list_beq
resume-finds_example =
    resume-finds ⦃anp = sample_anp⦄ (lit "did:web:a.example") (lit "O") fresh_hop fresh_disk
      is_keyed one_hop-IsSingle refl is_stored refl

-- The committed transition is prepared again, and its session and another one are called.
abbrev later_events : List TransitionEvent
later_events =
    prepares (lit "S") 0 (lit "T") (record {
      expected_current_did = lit "did:web:a.example";
      operation_id = lit "O";
      successor = record {
        store_id = lit "S";
        identity_id = lit "J";
        did = lit "did:web:b.example";
      };
      transition_document = none;
    })
    ∷ goes_on begin_call done_hop
    ∷ goes_on good_answer begun_hop
    ∷ []

ended_stays_example :
    read_identity_transition_journal (lit "O") (run_events [] later_events done_disk) ≡ ok done_hop
ended_stays_example =
    ended_stays [] later_events done_hop (lit "O") done_disk same_file is_there (inl refl)
