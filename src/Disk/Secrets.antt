-- ===== src/Disk/Secrets.antt =====
-- crates/anp-identity/src/keystore.rs: a secret that was sealed is opened again, once and for its
-- own reference.
use anp_identity.Anp.{Anp}
use anp_identity.Assoc.{insert, lookup}
use anp_identity.Assoc.Laws.{lookup-insert}
use anp_identity.Disk.{Disk, write, ◌>>=◌}
use anp_identity.Disk.Files.{open_secret, seal_if_absent}
use anp_identity.Disk.Transitions.{transition_state_eq}
use anp_identity.Errors.{ok}
use anp_identity.Input.{profile_eq, role_eq}
use anp_identity.Json.{value_eq}
use anp_identity.Keystore.{
  EncryptedRecord, SecretRef, aad_for_ref, already_exists, derive_record_key, open_record,
  record_schema_version, record_storage_key, seal_record, sealed, secret_ref_eq,
  validate_secret_ref,
}
use anp_identity.Prelude.{
  List, arith, eq_iff, eq_refl, length, list_eq, nat_eq, option_eq, pair_eq, refl, some, true, ℕ,
  ◌==◌, ◌≡◌, ◌≢◌,
}
use anp_identity.Registry.{
  capability_eq, key_state_eq, origin_eq, publication_eq, state_eq, summary_eq,
}
use anp_identity.Text.{Text, lit}

-- What the key store relies on in other crates: the cipher decrypts what it encrypted with the same
-- key, nonce and associated data, and base64url is decoded back.
pub record IsCipher (anp : Anp) : Type 0 where
  pub decrypt_encrypt :
      (key nonce message aad : List ℕ)
      → anp.aead_decrypt key nonce (anp.aead_encrypt key nonce message aad) aad ≡ some message
  pub decode_encode : (x : List ℕ) → anp.base64_decode (anp.base64_encode x) ≡ some x

module _ ⦃anp : Anp⦄ (laws : IsCipher anp) where
  open_record-seal_record :
      (now : Text) (nonce root_key : List ℕ) (r : SecretRef) (plaintext : List ℕ)
      → length nonce ≡ 12
      → open_record root_key (seal_record now nonce root_key r plaintext) ≡ ok plaintext
  unfolding open_record seal_record derive_record_key
  open_record-seal_record now nonce root_key r plaintext len =
      let aad = aad_for_ref record_schema_version r in
      ground (
        arith,
        eq_refl (lit "chacha20-poly1305"),
        eq_refl (lit "hkdf-sha256"),
        eq_refl (anp.base64_encode aad),
        laws.decode_encode nonce,
        laws.decode_encode (anp.aead_encrypt (derive_record_key root_key aad) nonce plaintext aad),
        laws.decrypt_encrypt (derive_record_key root_key aad) nonce plaintext aad,
      )

  secret_ref_of_seal :
      (now : Text) (nonce root_key : List ℕ) (r : SecretRef) (plaintext : List ℕ)
      → ((seal_record now nonce root_key r plaintext).secret_ref == r) ≡ true
  unfolding seal_record
  secret_ref_of_seal now nonce root_key r plaintext = eq_refl r

  seal-eq-ok :
      (now : Text) (nonce root_key : List ℕ) (r : SecretRef) (plaintext : List ℕ) (d d' : Disk)
      → seal_if_absent now nonce root_key r plaintext d ≡ (ok sealed, d')
      → (validate_secret_ref r ≡ ok tt)
        × (d'.records
            ≡ insert (record_storage_key r) (seal_record now nonce root_key r plaintext) d.records)
  unfolding seal_if_absent write ◌>>=◌
  seal-eq-ok now nonce root_key r plaintext d d' h = ground arith

  seal-again :
      (now : Text) (nonce root_key : List ℕ) (r : SecretRef) (plaintext : List ℕ) (d : Disk)
      (e : EncryptedRecord)
      → validate_secret_ref r ≡ ok tt
      → lookup (record_storage_key r) d.records ≡ some e
      → seal_if_absent now nonce root_key r plaintext d ≡ (ok already_exists, d)
  unfolding seal_if_absent
  seal-again now nonce root_key r plaintext d e valid found = ground arith

  -- A secret that `seal_if_absent` has stored is opened under the same key with the same reference.
  -- Sealing the reference again does nothing, and the records of references that have another
  -- storage key are as before. The nonce is the twelve bytes that are drawn, and the cipher and the
  -- encoding keep their laws.
  pub seal-open :
      (now later : Text) (nonce other_nonce root_key : List ℕ) (r other : SecretRef)
      (plaintext another : List ℕ) (d d' : Disk)
      → length nonce ≡ 12
      → seal_if_absent now nonce root_key r plaintext d ≡ (ok sealed, d')
      → record_storage_key other ≢ record_storage_key r
      → (open_secret root_key r d' ≡ (ok plaintext, d'))
        × (seal_if_absent later other_nonce root_key r another d' ≡ (ok already_exists, d'))
        × (lookup (record_storage_key other) d'.records
            ≡ lookup (record_storage_key other) d.records)
  unfolding open_secret
  seal-open now later nonce other_nonce root_key r other plaintext another d d' len h ne =
      let (valid, stored) = seal-eq-ok now nonce root_key r plaintext d d' h in
      let e = seal_record now nonce root_key r plaintext in
      let found : lookup (record_storage_key r) d'.records ≡ some e =
        rw stored (simp (lookup-insert, eq_refl)) in
      (
        rw (valid, found)
            (rw (secret_ref_of_seal now nonce root_key r plaintext)
              (rw (open_record-seal_record now nonce root_key r plaintext len) refl)),
        seal-again later other_nonce root_key r another d' e valid found,
        rw stored (
            ground (
              arith,
              lookup-insert (record_storage_key r) (record_storage_key other) e d.records,
              eq_iff (record_storage_key r) (record_storage_key other),
            )),
      )
