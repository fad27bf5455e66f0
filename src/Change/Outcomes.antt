-- ===== src/Change/Outcomes.antt =====
-- crates/anp-identity/src/facade/document_change.rs: what a call of a session that returned has found
-- and done.
use anp_identity.Adoption.{VerifiedDocumentEvidence}
use anp_identity.Anp.{Anp}
use anp_identity.Change.Current.{
  IsAttemptOf, IsCurrent, attempt-IsAttemptOf, required_change-IsCurrent,
}
use anp_identity.Change.Public.{project_public_identity}
use anp_identity.Change.Sessions.{
  ChangeSession, DocumentChangeOutcome, Handle, PublicationAttempt, PublicationResult, Shared,
  accepted, change_aborted, change_committed, change_uncertain, committed_outcome, complete_change,
  conclude_change, engine_end, engine_evidence, lost, on_engine, pending_now, proceed, rejected,
  required_change, share, validate_change_attempt, validate_change_evidence, ◌>>=◌,
}
use anp_identity.Disk.{Action, Disk}
use anp_identity.Disk.Transitions.{transition_state_eq}
use anp_identity.Document.{document_digest}
use anp_identity.Errors.{DidResult, err, map_ok, ok, ok-injective, refuse_if, refuse_if-eq-ok}
use anp_identity.Facade.{IdentityResult, invalid_document_change_state, invalid_request}
use anp_identity.Input.{profile_eq, role_eq}
use anp_identity.Input.Fields.{last}
use anp_identity.Json.{value_eq}
use anp_identity.Keystore.{secret_ref_eq}
use anp_identity.Lifecycle.{
  abort_update_inner, commit_pending, commit_verified_update, mark_publication_uncertain,
  reject_publication_before_acceptance, transition_publication,
}
use anp_identity.Lifecycle.Aborted.{abort-eq-ok}
use anp_identity.Lifecycle.Commit.{check_evidence-cases, commit_evidence, verified-digest}
use anp_identity.Lifecycle.Inversion.{mutate-eq-ok, transition_record-eq-ok}
use anp_identity.Lifecycle.Machine.{commit_record-eq-ok}
use anp_identity.Pending.{commit_record, transition_record}
use anp_identity.Prelude.{
  ap, arith, eq_iff, false, list_eq, nat_eq, none, not, option_eq, pair_eq, refl, some, sym, ◌+◌,
  ◌==◌, ◌||◌, ◌∙◌, ◌≡◌,
}
use anp_identity.Registry.{
  IdentityRecord, PendingRevisionRecord, capability_eq, key_state_eq, origin_eq, publication_eq,
  publication_in_flight, publication_uncertain, published, state_eq, summary_eq,
}
use anp_identity.Text.{Text}

module _ {ℓ κ} {A : Type ℓ} {B : Type κ} where
  -- A step that leaves the handle as it is.
  pub share-eq-ok :
      (r : IdentityResult A) (f : A → Shared B) (h : Handle) (b : B) (h' : Handle)
      → (share r >>= f) h ≡ (ok b, h')
      → (a : A) × (r ≡ ok a) × (f a h ≡ (ok b, h'))
  unfolding ◌>>=◌
  share-eq-ok (ok a) f h b h' q = (a, refl, q)
  share-eq-ok (err e) f h b h' q = absurd (cc (ap (λ x. x.0) q))

module _ {ℓ} {B : Type ℓ} where
  pub pending-eq-ok :
      (session : ChangeSession) (f : PendingRevisionRecord → Shared B) (h : Handle) (b : B)
      (h' : Handle)
      → (pending_now session >>= f) h ≡ (ok b, h')
      → (p : PendingRevisionRecord) × (required_change session h.held ≡ ok p) × (f p h ≡ (ok b, h'))
  unfolding ◌>>=◌
  pending-eq-ok session f h b h' q = share-eq-ok (required_change session h.held) f h b h' q

  engine_end-eq-ok :
      (held : IdentityRecord) (x : DidResult IdentityRecord × Disk) (f : Unit {0} → Shared B)
      (b : B) (h' : Handle)
      → proceed f (engine_end held x) ≡ (ok b, h')
      → (s : IdentityRecord) × (d : Disk) × (x ≡ (ok s, d))
        × (f tt (record { held = s; disk = d }) ≡ (ok b, h'))
  engine_end-eq-ok held (ok s, d) f b h' q = (s, d, refl, q)
  engine_end-eq-ok held (err e, d) f b h' q = absurd (cc (ap (λ x. x.0) q))

  pub engine-returned :
      (op : IdentityRecord → Action IdentityRecord) (f : Unit {0} → Shared B) (h : Handle) (b : B)
      (h' : Handle)
      → (on_engine op >>= f) h ≡ (ok b, h')
      → (s : IdentityRecord) × (d : Disk) × (op h.held h.disk ≡ (ok s, d))
        × (f tt (record { held = s; disk = d }) ≡ (ok b, h'))
  unfolding ◌>>=◌ on_engine
  engine-returned op f h b h' q = engine_end-eq-ok h.held (op h.held h.disk) f b h' q

module _ ⦃anp : Anp⦄ where
  -- What a result of the publication leads to.
  pub Follows : ChangeSession → PublicationResult → DocumentChangeOutcome → Handle → Type 0
  Follows session (accepted e) outcome h' =
      (e.document_digest ≡ session.candidate.candidate_digest)
      × (document_digest h'.held.document ≡ ok (engine_evidence e).document_digest)
      × (h'.held.revision ≡ e.document_version)
      × (h'.held.pending_revision ≡ none)
      × (ok outcome ≡ map_ok change_committed (project_public_identity session.store_id h'.held))
  Follows session rejected outcome h' =
      (h'.held.pending_revision ≡ none) × (outcome ≡ change_aborted)
  Follows session lost outcome h' =
      ((p : PendingRevisionRecord) × (h'.held.pending_revision ≡ some p)
        × (p.state ≡ publication_uncertain))
      × (outcome ≡ change_uncertain)

  committed-Follows :
      (session : ChangeSession) (e : VerifiedDocumentEvidence) (outcome : DocumentChangeOutcome)
      (held s : IdentityRecord) (d d' : Disk) (h' : Handle)
      → e.document_digest ≡ session.candidate.candidate_digest
      → commit_verified_update session.candidate.revision_id false (engine_evidence e) held d
        ≡ (ok s, d')
      → committed_outcome session (record { held = s; disk = d' }) ≡ (ok outcome, h')
      → Follows session (accepted e) outcome h'
  unfolding commit_verified_update commit_pending Follows engine_evidence
  committed-Follows session e outcome held s d d' h' is_digest h last =
      let x = engine_evidence e in
      let m =
        mutate-eq-ok (commit_record session.candidate.revision_id false (some x)) held s d d' h in
      let (p, required, checked, document, revision) =
        commit_evidence session.candidate.revision_id false x m.before m.changed m.is_changed in
      let (p2, required2, allowed, parent, document2, none_left, g, id) =
        commit_record-eq-ok session.candidate.revision_id false (some x) m.before m.changed
          m.is_changed in
      let digest =
        verified-digest p.candidate_document x
          (check_evidence-cases m.before p.candidate_document x checked).0 in
      let is_end : s ≡ h'.held =
        ap (λ (y : IdentityResult DocumentChangeOutcome × Handle). y.1.held) last in
      let is_changed : m.changed.document ≡ h'.held.document =
        sym (ap (λ (y : IdentityRecord). y.document) m.is_result)
        ∙ ap (λ (y : IdentityRecord). y.document) is_end in
      (
        is_digest,
        ap document_digest (sym is_changed ∙ document) ∙ digest,
        ap (λ (y : IdentityRecord). y.revision) (sym is_end ∙ m.is_result) ∙ revision,
        ap (λ (y : IdentityRecord). y.pending_revision) (sym is_end ∙ m.is_result) ∙ none_left,
        sym (ap (λ (y : IdentityResult DocumentChangeOutcome × Handle). y.0) last)
            ∙ ap (λ r. map_ok change_committed (project_public_identity session.store_id r)) is_end,
      )

  conclude_change-Follows :
      (clock : Text) (session : ChangeSession) (p : PendingRevisionRecord)
      (result : PublicationResult) (outcome : DocumentChangeOutcome) (h h' : Handle)
      → conclude_change clock session p result h ≡ (ok outcome, h')
      → Follows session result outcome h'
  unfolding Follows reject_publication_before_acceptance mark_publication_uncertain
      transition_publication validate_change_evidence
  conclude_change-Follows clock session p (accepted e) outcome h h' q =
      let (u1, evidence, q1) =
        share-eq-ok (validate_change_evidence e session.candidate.candidate_digest) _ h outcome h'
          q in
      let (u2, passed, q2) =
        share-eq-ok
          (refuse_if (not (p.state == publication_in_flight || p.state == published))
            invalid_document_change_state)
          _ h outcome h' q1 in
      let (s, d, committed, last) =
        engine-returned
          (commit_verified_update session.candidate.revision_id false (engine_evidence e)) _ h
          outcome h' q2 in
      let is_digest : e.document_digest ≡ session.candidate.candidate_digest =
        (eq_iff e.document_digest session.candidate.candidate_digest).0 (
          ground (
            arith,
            refuse_if-eq-ok
                (e.document_version == 0
                  || (e.registry_version == 0
                      || not (e.document_digest == session.candidate.candidate_digest)))
                invalid_request evidence,
          )) in
      committed-Follows session e outcome h.held s h.disk d h' is_digest committed last
  conclude_change-Follows clock session p rejected outcome h h' q =
      let (u1, passed, q1) =
        share-eq-ok
          (refuse_if (not (p.state == publication_in_flight)) invalid_document_change_state) _ h
          outcome h' q in
      let (s, d, refused, q2) =
        engine-returned (reject_publication_before_acceptance session.candidate.revision_id) _ h
          outcome h' q1 in
      let (t, e, abandoned, last) =
        engine-returned (abort_update_inner clock session.candidate.revision_id none) _
          (record { held = s; disk = d }) outcome h' q2 in
      let a = abort-eq-ok clock session.candidate.revision_id none s t d e abandoned in
      (
        ap (λ (y : IdentityResult DocumentChangeOutcome × Handle). y.1.held.pending_revision)
              (sym last)
            ∙ ap (λ (y : IdentityRecord). y.pending_revision) a.is_result,
        sym (ok-injective (ap (λ (y : IdentityResult DocumentChangeOutcome × Handle). y.0) last)),
      )
  conclude_change-Follows clock session p lost outcome h h' q =
      let (u1, passed, q1) =
        share-eq-ok
          (refuse_if (not (p.state == publication_in_flight)) invalid_document_change_state) _ h
          outcome h' q in
      let (s, d, marked, last) =
        engine-returned (mark_publication_uncertain session.candidate.revision_id) _ h outcome h'
          q1 in
      let change =
        transition_record session.candidate.revision_id publication_in_flight
          publication_uncertain in
      let m = mutate-eq-ok change h.held s h.disk d marked in
      let (r, required, at, eq) =
        transition_record-eq-ok session.candidate.revision_id publication_in_flight
          publication_uncertain m.before m.changed m.is_changed in
      (
        (
          record r { state = publication_uncertain; generation = r.generation + 1 },
          ap (λ (y : IdentityResult DocumentChangeOutcome × Handle). y.1.held.pending_revision)
                (sym last)
              ∙ ap (λ (y : IdentityRecord). y.pending_revision) (m.is_result)
              ∙ ap (λ (y : IdentityRecord). y.pending_revision) eq,
          refl,
        ),
        sym (ok-injective (ap (λ (y : IdentityResult DocumentChangeOutcome × Handle). y.0) last)),
      )

  -- An answer of the publisher is taken only for the current attempt: the record that is held has a
  -- pending revision, the attempt names its identifier, its candidate digest and its generation, the
  -- session is for this candidate, and for the identity and the DID of the record. An acceptance names the
  -- candidate's digest, and the record that is then held has the document with the digest of the
  -- evidence, at its version, and nothing pending; a rejection leaves nothing pending; and when the
  -- outcome is not known the revision is pending and uncertain. The outcome returned says which.
  pub complete_change-Follows :
      (clock : Text) (session : ChangeSession) (attempt : PublicationAttempt)
      (result : PublicationResult) (outcome : DocumentChangeOutcome) (h h' : Handle)
      → complete_change clock session attempt result h ≡ (ok outcome, h')
      → (p : PendingRevisionRecord) × IsCurrent session h.held p
        × IsAttemptOf attempt p
        × Follows session result outcome h'
  unfolding complete_change
  complete_change-Follows clock session attempt result outcome h h' q =
      let (p, required, q1) = pending-eq-ok session _ h outcome h' q in
      let (u, attempted, q2) =
        share-eq-ok (validate_change_attempt session attempt p) _ h outcome h' q1 in
      let current = required_change-IsCurrent session h.held p required in
      (
        p,
        current,
        attempt-IsAttemptOf session attempt h.held p current attempted,
        conclude_change-Follows clock session p result outcome h h' q2,
      )
