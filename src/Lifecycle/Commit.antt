-- ===== src/Lifecycle/Commit.antt =====
-- `commit_verified_update` of lifecycle.rs: the checkpoint of an identity never goes back. And what
-- a failed operation leaves behind.
use anp_identity.Adoption.{
  VerifiedDocumentEvidence, checkpoint_of, is_initial_proof_confirmation,
  validate_checkpoint_progression, validate_verified_document,
}
use anp_identity.Anp.{Anp}
use anp_identity.Disk.{Disk, write, ◌>>=◌}
use anp_identity.Disk.Files.{read_identity, write_identity}
use anp_identity.Disk.Transitions.{transition_state_eq}
use anp_identity.Document.{document_digest}
use anp_identity.Errors.{DidResult, is_ok, is_ok-cases, ok, ok-injective}
use anp_identity.Input.{profile_eq, role_eq}
use anp_identity.Input.Fields.{first}
use anp_identity.Json.{Value, value_eq}
use anp_identity.Keystore.{secret_ref_eq}
use anp_identity.Lifecycle.{
  commit_pending, commit_verified_update, current_record_for_mutation, mutate, persist_record,
  transition_publication,
}
use anp_identity.Lifecycle.Inversion.{mutate-eq-ok}
use anp_identity.Pending.{check_evidence, commit_record, required_pending, transition_record}
use anp_identity.Prelude.{
  Bool, Option, ap, arith, eq_iff, inl, inr, list_eq, nat_eq, option_eq, pair_eq, some, sym, true,
  ◌∙◌, ◌≡◌, ◌≤◌, ◌⊎◌,
}
use anp_identity.Registry.{
  DocumentCheckpoint, IdentityRecord, PendingRevisionRecord, PublicationState, capability_eq,
  key_state_eq, origin_eq, publication_eq, state_eq, summary_eq,
}
use anp_identity.Text.{Text}

-- The order of checkpoints: by both versions, and one document version has one digest.
pub record IsProgress (c e : DocumentCheckpoint) : Type 0 where
  pub document : c.document_version ≤ e.document_version
  pub registry : c.registry_version ≤ e.registry_version

validation-IsProgress :
    (c : DocumentCheckpoint) (e : VerifiedDocumentEvidence)
    → validate_checkpoint_progression (some c) e ≡ ok tt
    → IsProgress c (checkpoint_of e)
      × (e.document_version ≡ c.document_version → e.document_digest ≡ c.document_digest)
unfolding validate_checkpoint_progression checkpoint_of
validation-IsProgress c e h = (
  record { document = ground arith; registry = ground arith },
  λ same. ground (
    arith,
    eq_iff e.document_version c.document_version,
    eq_iff e.document_digest c.document_digest,
  ),
)

initial_is_first :
    (r : IdentityRecord) (document : Value) (e : VerifiedDocumentEvidence) (c : DocumentCheckpoint)
    → is_initial_proof_confirmation r document e ≡ ok true
    → r.checkpoint ≡ some c
    → IsProgress c (checkpoint_of e) × (r.initial_publication_pending ≡ true)
unfolding is_initial_proof_confirmation checkpoint_of
initial_is_first r document e c h has =
    (record { document = ground arith; registry = ground arith }, ground arith)

module _ ⦃anp : Anp⦄ where
  pub verified-digest :
      (document : Value) (e : VerifiedDocumentEvidence)
      → validate_verified_document document e ≡ ok tt
      → document_digest document ≡ ok e.document_digest
  unfolding validate_verified_document
  verified-digest document e h = elim (is_ok-cases (document_digest document)) [
    | inl (x, bad) ↦ absurd (ground (arith, bad))
    | inr (digest, good) ↦ ground (arith, good, eq_iff digest e.document_digest)
  ]

  pub commit_evidence :
      (revision_id : Text) (from_reconcile : Bool) (e : VerifiedDocumentEvidence)
      (r s : IdentityRecord)
      → commit_record revision_id from_reconcile (some e) r ≡ ok s
      → (p : PendingRevisionRecord) × (required_pending r revision_id ≡ ok p)
        × (check_evidence r p.candidate_document (some e) ≡ ok tt)
        × (s.document ≡ p.candidate_document)
        × (s.revision ≡ e.document_version)
  unfolding commit_record
  commit_evidence revision_id from_reconcile e r s h = ground arith

  commit_checkpoint :
      (revision_id : Text) (from_reconcile : Bool) (e : VerifiedDocumentEvidence)
      (r s : IdentityRecord) (p : PendingRevisionRecord)
      → commit_record revision_id from_reconcile (some e) r ≡ ok s
      → required_pending r revision_id ≡ ok p
      → document_digest p.candidate_document ≡ ok e.document_digest
      → s.checkpoint ≡ some (checkpoint_of e)
  unfolding commit_record checkpoint_of
  commit_checkpoint revision_id from_reconcile e r s p h found digest = ground arith

  pub check_evidence-cases :
      (r : IdentityRecord) (document : Value) (e : VerifiedDocumentEvidence)
      → check_evidence r document (some e) ≡ ok tt
      → (validate_verified_document document e ≡ ok tt)
        × ((is_initial_proof_confirmation r document e ≡ ok true)
            ⊎ (validate_checkpoint_progression r.checkpoint e ≡ ok tt))
  check_evidence-cases r document e h = ground arith

  check_evidence-IsProgress :
      (r : IdentityRecord) (document : Value) (e : VerifiedDocumentEvidence)
      (c : DocumentCheckpoint)
      → check_evidence r document (some e) ≡ ok tt
      → r.checkpoint ≡ some c
      → IsProgress c (checkpoint_of e)
        × ((r.initial_publication_pending ≡ true)
            ⊎ (e.document_version ≡ c.document_version → e.document_digest ≡ c.document_digest))
  check_evidence-IsProgress r document e c h has = elim (check_evidence-cases r document e h).1 [
    | inl initial ↦ let (p, first) = initial_is_first r document e c initial has in (p, inl first)
    | inr next_one ↦
        let (p, alike) = validation-IsProgress c e (rw has at next_one) in (p, inr alike)
  ]

  -- After a verified commit the record's checkpoint is the evidence, whose digest is the one of the
  -- document now held. Compared with the checkpoint that the store held before, neither version has
  -- gone back, and the same document version means the same digest, unless the identity had never
  -- been published.
  pub commit_checkpoint-IsProgress :
      (revision_id : Text) (from_reconcile : Bool) (e : VerifiedDocumentEvidence)
      (held before s : IdentityRecord) (c : DocumentCheckpoint) (d d' : Disk)
      → read_identity held.identity_id d ≡ (ok before, d)
      → before.checkpoint ≡ some c
      → commit_verified_update revision_id from_reconcile e held d ≡ (ok s, d')
      → (s.checkpoint ≡ some (checkpoint_of e))
        × (document_digest s.document ≡ ok e.document_digest)
        × (s.revision ≡ e.document_version)
        × IsProgress c (checkpoint_of e)
        × ((before.initial_publication_pending ≡ true)
            ⊎ (e.document_version ≡ c.document_version → e.document_digest ≡ c.document_digest))
  unfolding commit_verified_update commit_pending
  commit_checkpoint-IsProgress revision_id from_reconcile e held before s c d d' is_before has h =
      let m = mutate-eq-ok (commit_record revision_id from_reconcile (some e)) held s d d' h in
      let (p, found, checked, document, revision) =
        commit_evidence revision_id from_reconcile e m.before m.changed m.is_changed in
      let verified =
        verified-digest p.candidate_document e
          (check_evidence-cases m.before p.candidate_document e checked).0 in
      let is_it : m.before ≡ before =
        ok-injective
          (ap (λ (x : DidResult IdentityRecord × Disk). x.0) (sym m.is_read ∙ is_before)) in
      let (forward, fresh) =
        check_evidence-IsProgress m.before p.candidate_document e c checked
          (ap (λ (x : IdentityRecord). x.checkpoint) is_it ∙ has) in
      (
        ap (λ (x : IdentityRecord). x.checkpoint) m.is_result
            ∙ commit_checkpoint revision_id from_reconcile e m.before m.changed p m.is_changed found
                verified,
        ap (λ (x : IdentityRecord). document_digest x.document) m.is_result
            ∙ ap document_digest document
            ∙ verified,
        ap (λ (x : IdentityRecord). x.revision) m.is_result ∙ revision,
        forward,
        elim fresh [
          | inl first ↦
              inl (ap (λ (x : IdentityRecord). x.initial_publication_pending) (sym is_it) ∙ first)
          | inr alike ↦ inr alike
        ],
      )

  -- The writes of a failed mutation.
  mutate-unchanged :
      (change : IdentityRecord → DidResult IdentityRecord) (held : IdentityRecord) (d : Disk)
      → (is_ok (mutate change held d).0 ≡ true) ⊎ ((mutate change held d).1 ≡ d)
  unfolding mutate current_record_for_mutation persist_record write_identity read_identity ◌>>=◌
      write
  mutate-unchanged change held d = ground arith

  -- A transition or a commit either returns or, for whatever reason it fails, has changed no file.
  pub failed-unchanged :
      (revision_id : Text) (expected following : PublicationState) (from_reconcile : Bool)
      (evidence : Option VerifiedDocumentEvidence) (held : IdentityRecord) (d : Disk)
      → ((is_ok (transition_publication revision_id expected following held d).0 ≡ true)
          ⊎ ((transition_publication revision_id expected following held d).1 ≡ d))
        × ((is_ok (commit_pending revision_id from_reconcile evidence held d).0 ≡ true)
            ⊎ ((commit_pending revision_id from_reconcile evidence held d).1 ≡ d))
  unfolding transition_publication commit_pending
  failed-unchanged revision_id expected following from_reconcile evidence held d = (
    mutate-unchanged (transition_record revision_id expected following) held d,
    mutate-unchanged (commit_record revision_id from_reconcile evidence) held d,
  )
