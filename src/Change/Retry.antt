-- ===== src/Change/Retry.antt =====
-- crates/anp-identity/src/facade/document_change.rs: beginning a publication again, after an answer was
-- lost.
use anp_identity.Anp.{Anp}
use anp_identity.Assoc.Laws.{some-injective}
use anp_identity.Change.Outcomes.{engine-returned, pending-eq-ok, share-eq-ok}
use anp_identity.Change.Sessions.{
  ChangeSession, Handle, PublicationAttempt, begin_change, begin_change_by, pending_now,
  required_change, share, ◌>>=◌,
}
use anp_identity.Errors.{err, ok, ok-injective}
use anp_identity.Facade.{invalid_document_change_state}
use anp_identity.Input.Fields.{last}
use anp_identity.Lifecycle.{begin_publication, transition_publication}
use anp_identity.Lifecycle.Inversion.{mutate-eq-ok, transition_record-eq-ok}
use anp_identity.Pending.{transition_record}
use anp_identity.Prelude.{Option-cases, ap, arith, inl, inr, refl, some, sym, ◌∙◌, ◌≡◌, ◌⊎◌}
use anp_identity.Registry.{
  IdentityRecord, PendingRevisionRecord, PublicationState, prepared, publication_in_flight,
  publication_uncertain, published,
}

-- A revision whose publication has begun.
IsBegun : PendingRevisionRecord → Type 0
IsBegun p = (p.state ≡ publication_in_flight) ⊎ (p.state ≡ published)

abbrev attempt_of : ChangeSession → PendingRevisionRecord → PublicationAttempt
attempt_of session p = record {
  operation_id = session.candidate.revision_id;
  candidate_digest = session.candidate.candidate_digest;
  publication_generation = p.generation;
}

required_change-pending :
    (session : ChangeSession) (held : IdentityRecord) (p : PendingRevisionRecord)
    → required_change session held ≡ ok p
    → held.pending_revision ≡ some p
unfolding required_change
required_change-pending session held p h = elim (Option-cases held.pending_revision) [
  | inl n ↦ absurd (cc (rw n at h))
  | inr (r, s) ↦ s ∙ ap some (ground (arith, s, h))
]

attempt-eq-ok :
    (session : ChangeSession) (attempt : PublicationAttempt) (k h' : Handle)
    → (pending_now session >>= λ p. share (ok (attempt_of session p))) k ≡ (ok attempt, h')
    → (p : PendingRevisionRecord) × (required_change session k.held ≡ ok p)
      × (attempt_of session p ≡ attempt)
      × (k ≡ h')
attempt-eq-ok session attempt k h' q =
    let (p, required, last) = pending-eq-ok session _ k attempt h' q in
    (p, required, ok-injective (ap (λ x. x.0) last), ap (λ x. x.1) last)

module _ ⦃anp : Anp⦄ where
  IsBegun-begin_change :
      (session : ChangeSession) (p : PendingRevisionRecord) (k : Handle)
      → required_change session k.held ≡ ok p
      → IsBegun p
      → begin_change session k ≡ (ok (attempt_of session p), k)
  unfolding begin_change IsBegun ◌>>=◌
  IsBegun-begin_change session p k required (inl t) = rw (required, t, required) refl
  IsBegun-begin_change session p k required (inr t) = rw (required, t, required) refl

  begin_change_by-IsBegun :
      (session : ChangeSession) (attempt : PublicationAttempt) (p : PendingRevisionRecord)
      (state : PublicationState) (h h' : Handle)
      → required_change session h.held ≡ ok p
      → p.state ≡ state
      → (begin_change_by session state >>= λ _.
            pending_now session >>= λ q. share (ok (attempt_of session q)))
          h
        ≡ (ok attempt, h')
      → (q : PendingRevisionRecord) × (required_change session h'.held ≡ ok q)
        × IsBegun q
        × (attempt_of session q ≡ attempt)
  unfolding IsBegun begin_publication transition_publication
  begin_change_by-IsBegun session attempt p prepared h h' required in_state q =
      let (s, d, begun, q1) =
        engine-returned (begin_publication session.candidate.revision_id) _ h attempt h' q in
      let (r, required2, is_attempt, is_end) =
        attempt-eq-ok session attempt (record { held = s; disk = d }) h' q1 in
      let change = transition_record session.candidate.revision_id prepared publication_in_flight in
      let m = mutate-eq-ok change h.held s h.disk d begun in
      let (t, was, at, eq) =
        transition_record-eq-ok session.candidate.revision_id prepared publication_in_flight
          m.before m.changed m.is_changed in
      let stored = required_change-pending session s r required2 in
      (
        r,
        ap (λ (y : Handle). required_change session y.held) (sym is_end) ∙ required2,
        inl (
            ap (λ (y : PendingRevisionRecord). y.state)
              (some-injective (
                sym stored
                ∙ ap (λ (y : IdentityRecord). y.pending_revision) m.is_result
                ∙ ap (λ (y : IdentityRecord). y.pending_revision) eq))),
        is_attempt,
      )
  begin_change_by-IsBegun session attempt p publication_in_flight h h' required in_state q =
      let (u, passed, q1) = share-eq-ok (ok tt) _ h attempt h' q in
      let (r, required2, is_attempt, is_end) = attempt-eq-ok session attempt h h' q1 in
      (
        p,
        ap (λ (y : Handle). required_change session y.held) (sym is_end) ∙ required,
        inl in_state,
        ap (attempt_of session) (ok-injective (sym required ∙ required2)) ∙ is_attempt,
      )
  begin_change_by-IsBegun session attempt p published h h' required in_state q =
      let (u, passed, q1) = share-eq-ok (ok tt) _ h attempt h' q in
      let (r, required2, is_attempt, is_end) = attempt-eq-ok session attempt h h' q1 in
      (
        p,
        ap (λ (y : Handle). required_change session y.held) (sym is_end) ∙ required,
        inr in_state,
        ap (attempt_of session) (ok-injective (sym required ∙ required2)) ∙ is_attempt,
      )
  begin_change_by-IsBegun session attempt p publication_uncertain h h' required in_state q =
      let (u, passed, q1) = share-eq-ok (err invalid_document_change_state) _ h attempt h' q in
      absurd (cc passed)

  -- After a call that began a publication and returned, a second call gives the attempt that the
  -- first one gave, and changes neither the disk nor the record that is held.
  pub begin_change-begin_change :
      (session : ChangeSession) (attempt : PublicationAttempt) (h h' : Handle)
      → begin_change session h ≡ (ok attempt, h')
      → begin_change session h' ≡ (ok attempt, h')
  unfolding begin_change
  begin_change-begin_change session attempt h h' q =
      let (p, required, q1) = pending-eq-ok session _ h attempt h' q in
      let (r, required2, begun, is_attempt) =
        begin_change_by-IsBegun session attempt p p.state h h' required refl q1 in
      IsBegun-begin_change session r h' required2 begun
      ∙ ap (λ (a : PublicationAttempt). (ok a, h')) is_attempt
