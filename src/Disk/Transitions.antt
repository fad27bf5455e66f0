-- ===== src/Disk/Transitions.antt =====
-- crates/anp-identity/src/registry.rs: reading and writing the journal of one identity transition.
use anp_identity.Anp.{Anp}
use anp_identity.Assoc.{insert, lookup}
use anp_identity.Disk.{Action, Disk, write}
use anp_identity.Disk.Files.{storage_key}
use anp_identity.Errors.{DidResult, err, invalid_identity, ok, pending_revision_not_found}
use anp_identity.Input.{profile_eq, role_eq}
use anp_identity.Json.{value_eq}
use anp_identity.Keystore.{secret_ref_eq}
use anp_identity.Prelude.{
  Eq, Option, arith, by_rank, if◌then◌else◌, list_eq, nat_eq, none, not, option_eq, pair_eq, some,
  ℕ, ◌==◌, ◌||◌, ◌≡◌,
}
use anp_identity.Registry.{
  capability_eq, key_state_eq, origin_eq, publication_eq, state_eq, summary_eq,
}
use anp_identity.Registry.Journals.{IdentityTransitionJournal, IdentityTransitionJournalState}
use anp_identity.Text.{Text}

abbrev pub state_rank : IdentityTransitionJournalState → ℕ
state_rank IdentityTransitionJournalState.prepared = 0
state_rank IdentityTransitionJournalState.publication_in_flight = 1
state_rank IdentityTransitionJournalState.publication_uncertain = 2
state_rank IdentityTransitionJournalState.committed = 3
state_rank IdentityTransitionJournalState.aborted = 4

pub state_rank_inj : (a b : IdentityTransitionJournalState) → state_rank a ≡ state_rank b → a ≡ b
state_rank_inj a b h = ground arith

instance abbrev pub transition_state_eq : Eq IdentityTransitionJournalState
transition_state_eq = by_rank state_rank state_rank_inj

abbrev pub checked_transition :
    Text → Option IdentityTransitionJournal → DidResult IdentityTransitionJournal
checked_transition operation_id none = err pending_revision_not_found
checked_transition operation_id (some j) =
    if not (j.schema_version == 1) || not (j.operation_id == operation_id)
    then err invalid_identity
    else ok j

module _ ⦃anp : Anp⦄ where
  unfoldable pub read_identity_transition_journal :
      Text → Disk → DidResult IdentityTransitionJournal
  read_identity_transition_journal operation_id d =
      checked_transition operation_id (lookup (storage_key operation_id) d.transitions)

  unfoldable pub write_identity_transition_journal : IdentityTransitionJournal → Action (Unit {0})
  write_identity_transition_journal j =
      write (λ d. record d { transitions = insert (storage_key j.operation_id) j d.transitions })
