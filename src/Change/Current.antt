-- ===== src/Change/Current.antt =====
-- crates/anp-identity/src/facade/document_change.rs: which pending revision a session is for, and which
-- attempt is one to publish it.
use anp_identity.Change.Sessions.{
  ChangeSession, PublicationAttempt, required_change, validate_change_attempt,
}
use anp_identity.Disk.Transitions.{transition_state_eq}
use anp_identity.Errors.{ok, ok-injective, refuse_if-eq-ok}
use anp_identity.Facade.{conflict}
use anp_identity.Input.{profile_eq, role_eq}
use anp_identity.Json.{value_eq}
use anp_identity.Keystore.{secret_ref_eq}
use anp_identity.Prelude.{
  Bool, Bool-cases, Option-cases, arith, eq_iff, false, inl, inr, list_eq, nat_eq, not, option_eq,
  pair_eq, some, subst⁻¹, sym, true, ◌==◌, ◌||◌, ◌∙◌, ◌≡◌,
}
use anp_identity.Registry.{
  IdentityRecord, PendingRevisionRecord, capability_eq, key_state_eq, origin_eq, publication_eq,
  state_eq, summary_eq,
}

-- The record that is held has this revision pending, and the session is for it and for the record.
pub record IsCurrent (session : ChangeSession) (held : IdentityRecord) (p : PendingRevisionRecord)
    : Type 0 where
  pub is_pending : held.pending_revision ≡ some p
  pub is_candidate : p.revision_id ≡ session.candidate.revision_id
  pub same_digest : p.candidate_digest ≡ session.candidate.candidate_digest
  pub same_identity : held.identity_id ≡ session.reference.identity_id
  pub same_did : held.did ≡ session.reference.did

pub record IsAttemptOf (attempt : PublicationAttempt) (p : PendingRevisionRecord) : Type 0 where
  pub of_revision : attempt.operation_id ≡ p.revision_id
  pub of_candidate : attempt.candidate_digest ≡ p.candidate_digest
  pub of_generation : attempt.publication_generation ≡ p.generation

or-false : (a b : Bool) → (a || b) ≡ false → (a ≡ false) × (b ≡ false)
or-false a b h = (ground arith, ground arith)

not-false : (b : Bool) → not b ≡ false → b ≡ true
not-false b h = ground arith

pub required_change-IsCurrent :
    (session : ChangeSession) (held : IdentityRecord) (p : PendingRevisionRecord)
    → required_change session held ≡ ok p
    → IsCurrent session held p
unfolding required_change
required_change-IsCurrent session held p h = elim (Option-cases held.pending_revision) [
  | inl n ↦ absurd (cc (rw n at h))
  | inr (r, s) ↦
      let differs =
        not (r.revision_id == session.candidate.revision_id)
        || (not (r.candidate_digest == session.candidate.candidate_digest)
            || (not (held.identity_id == session.reference.identity_id)
                || not (held.did == session.reference.did))) in
      elim (Bool-cases differs) [
        | inl t ↦ absurd (cc (rw (s, t) at h))
        | inr f ↦
            let is_r : r ≡ p = ok-injective (rw (s, f) at h) in
            let (a, f1) = or-false (not (r.revision_id == session.candidate.revision_id)) _ f in
            let (b, f2) =
              or-false (not (r.candidate_digest == session.candidate.candidate_digest)) _ f1 in
            let (c, e) = or-false (not (held.identity_id == session.reference.identity_id)) _ f2 in
            subst⁻¹ (IsCurrent session held) (sym is_r) (record {
              is_pending = s;
              is_candidate = (eq_iff r.revision_id session.candidate.revision_id).0 (not-false _ a);
              same_digest =
                  (eq_iff r.candidate_digest session.candidate.candidate_digest).0 (not-false _ b);
              same_identity =
                  (eq_iff held.identity_id session.reference.identity_id).0 (not-false _ c);
              same_did = (eq_iff held.did session.reference.did).0 (not-false _ e);
            })
      ]
]

pub attempt-IsAttemptOf :
    (session : ChangeSession) (attempt : PublicationAttempt) (held : IdentityRecord)
    (p : PendingRevisionRecord)
    → IsCurrent session held p
    → validate_change_attempt session attempt p ≡ ok tt
    → IsAttemptOf attempt p
unfolding validate_change_attempt
attempt-IsAttemptOf session attempt held p current h =
    let passed = refuse_if-eq-ok _ conflict h in
    let (a, f1) = or-false (not (attempt.operation_id == session.candidate.revision_id)) _ passed in
    let (b, e) =
      or-false (not (attempt.candidate_digest == session.candidate.candidate_digest)) _ f1 in
    record {
      of_revision =
          (eq_iff attempt.operation_id session.candidate.revision_id).0 (not-false _ a)
          ∙ sym current.is_candidate;
      of_candidate =
          (eq_iff attempt.candidate_digest session.candidate.candidate_digest).0 (not-false _ b)
          ∙ sym current.same_digest;
      of_generation = (eq_iff attempt.publication_generation p.generation).0 (not-false _ e);
    }
