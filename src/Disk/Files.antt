-- ===== src/Disk/Files.antt =====
-- crates/anp-identity/src/registry.rs and keystore.rs: the files of the store.
use anp_identity.Anp.{Anp, DeviceManifestEntry}
use anp_identity.Assoc.{contains_key, insert, lookup, remove}
use anp_identity.Disk.{Action, pure, write, ◌>>=◌}
use anp_identity.Document.{document_digest, root_key_fingerprint}
use anp_identity.Errors.{
  DidResult, chain, corrupt_record, err, identity_not_found, invalid_extension, invalid_identity,
  map_ok, ok, secret_not_found,
}
use anp_identity.Input.{
  DidProfile, device_signing, e1, e2ee_agreement, for_did, profile_eq, role_eq, root_control, web,
}
use anp_identity.Json.{Value, text_lt, value_eq}
use anp_identity.Keystore.{
  EncryptedRecord, SealIfAbsent, SecretRef, already_exists, open_record, record_storage_key,
  seal_record, sealed, secret_ref_eq, validate_secret_ref,
}
use anp_identity.Prelude.{
  Bool, List, Option, [], all, any, if◌then◌else◌, is_none, is_some, is_some_and, list_eq, nat_eq,
  none, not, option_eq, pair_eq, retain, some, ℕ, ◌&&◌, ◌==◌, ◌||◌, ◌∷◌,
}
use anp_identity.Registry.{
  IdentityRecord, KeyMetadata, LocalAuthorizationRecord, RootCapabilityState, capability_eq,
  key_state_eq, managed, origin_eq, publication_eq, state_eq, summary_eq,
}
use anp_identity.Registry.Journals.{
  CreationJournal, IdentityRegistry, IdentityTransitionJournal, UpdateJournal, default_registry,
}
use anp_identity.Text.{Text, bytes, is_empty}

-- `sort_by` on a text key, stable.
unfoldable pub place {ℓ} : {A : Type ℓ} → (A → Text) → A → List A → List A
place key x [] = x ∷ []
place key x (y ∷ ys) =
    let rest = place key x ys in if text_lt (key y) (key x) then y ∷ rest else x ∷ y ∷ ys

unfoldable pub sort_by {ℓ} : {A : Type ℓ} → (A → Text) → List A → List A
unfolding place
sort_by key [] = []
sort_by key (x ∷ xs) = place key x (sort_by key xs)

abbrev pub values {ℓ} : {A : Type ℓ} → List (Text × A) → List A
values [] = []
values ((k, v) ∷ m) = v ∷ values m

abbrev pub journal_id : CreationJournal → Text
journal_id j = j.transaction_id

abbrev pub revision_of : UpdateJournal → Text
revision_of j = j.revision_id

-- The registry that a file holds, by default empty, if its schema is known.
abbrev pub registry_of : Option IdentityRegistry → DidResult IdentityRegistry
registry_of none = ok default_registry
registry_of (some r) = if r.schema_version == 1 then ok r else err invalid_identity

unfoldable pub read_registry : Action IdentityRegistry
read_registry d = (registry_of d.registry, d)

unfoldable pub write_registry : IdentityRegistry → Action (Unit {0})
write_registry r = write (λ d. record d { registry = some r })

unfoldable pub list_journals : Action (List CreationJournal)
list_journals d = (
  if all (λ j. j.schema_version == 1) (values d.journals)
      then ok (sort_by journal_id (values d.journals))
      else err invalid_identity,
  d,
)

unfoldable pub list_update_journals : Action (List UpdateJournal)
list_update_journals d = (
  if all (λ j. j.schema_version == 1) (values d.update_journals)
      then ok (sort_by revision_of (values d.update_journals))
      else err invalid_identity,
  d,
)

abbrev pub operation_of : IdentityTransitionJournal → Text
operation_of j = j.operation_id

unfoldable pub list_identity_transition_journals : Action (List IdentityTransitionJournal)
list_identity_transition_journals d = (
  if all (λ j. j.schema_version == 1) (values d.transitions)
      then ok (sort_by operation_of (values d.transitions))
      else err invalid_identity,
  d,
)

module _ ⦃anp : Anp⦄ where
  -- `storage_key`: the name of the file of an identifier.
  unfoldable pub storage_key : Text → Text
  storage_key value = anp.sha256_base64 (bytes value)

  unfoldable pub write_identity : IdentityRecord → Action (Unit {0})
  write_identity r =
      write (λ d. record d { identities = insert (storage_key r.identity_id) r d.identities })

  unfoldable pub remove_identity : Text → Action (Unit {0})
  remove_identity identity_id =
      write (λ d. record d { identities = remove (storage_key identity_id) d.identities })

  unfoldable pub write_journal : CreationJournal → Action (Unit {0})
  write_journal j =
      write (λ d. record d { journals = insert (storage_key j.transaction_id) j d.journals })

  unfoldable pub remove_journal : Text → Action (Unit {0})
  remove_journal transaction_id =
      write (λ d. record d { journals = remove (storage_key transaction_id) d.journals })

  unfoldable pub write_update_journal : UpdateJournal → Action (Unit {0})
  write_update_journal j =
      write
        (λ d. record d { update_journals = insert (storage_key j.revision_id) j d.update_journals })

  unfoldable pub remove_update_journal : Text → Action (Unit {0})
  remove_update_journal revision_id =
      write (λ d. record d { update_journals = remove (storage_key revision_id) d.update_journals })

  -- The device of a manifest whose two keys are both managed here.
  unfoldable pub is_local_device : List KeyMetadata → DeviceManifestEntry → Bool
  is_local_device keys device =
      any
        (λ key.
          key.origin == managed && (key.role == device_signing && key.kid == device.signing_key_id))
        keys
      && any
          (λ key.
            key.origin == managed && (key.role == e2ee_agreement && key.kid == device.e2ee_key_id))
          keys

  abbrev pub sole_device : List DeviceManifestEntry → DidResult (Option LocalAuthorizationRecord)
  sole_device [] = ok none
  sole_device (device ∷ []) = ok (
      some (record {
        device_id = device.device_id;
        signing_kid = device.signing_key_id;
        e2ee_kid = device.e2ee_key_id;
        profiles = device.profiles;
      }))
  sole_device (device ∷ other ∷ rest) = err invalid_extension

  -- adoption.rs, `infer_local_authorization`.
  unfoldable pub infer_local_authorization :
      Value → List KeyMetadata → DidResult (Option LocalAuthorizationRecord)
  infer_local_authorization document keys = elim (anp.validate_device_manifest document) [
    | none ↦ err invalid_extension
    | some none ↦ ok none
    | some (some manifest) ↦ sole_device (retain (is_local_device keys) manifest.devices)
  ]

  abbrev pub fill_fingerprint : DidProfile → IdentityRecord → DidResult IdentityRecord
  fill_fingerprint e1 r =
      if is_none r.root_key_fingerprint || is_some_and is_empty r.root_key_fingerprint
      then map_ok (λ f. record r { root_key_fingerprint = some f })
          (root_key_fingerprint r.document)
      else ok r
  fill_fingerprint web r =
      if is_some r.root_key_fingerprint
        || (not (r.root_capability == RootCapabilityState.absent)
            || any (λ key. key.role == root_control) r.keys)
      then err invalid_identity
      else ok r

  abbrev pub fill_checkpoint : IdentityRecord → DidResult IdentityRecord
  fill_checkpoint r =
      if is_none r.checkpoint
      then map_ok
          (λ digest. record r {
            checkpoint = some (record {
              document_version = r.revision;
              registry_version = 1;
              document_digest = digest;
            });
          })
          (document_digest r.document)
      else ok r

  abbrev pub fill_authorization : IdentityRecord → DidResult IdentityRecord
  fill_authorization r =
      if is_none r.local_authorization
      then map_ok (λ local. record r { local_authorization = local })
          (infer_local_authorization r.document r.keys)
      else ok r

  -- What `read_identity` makes of the record in the file.
  unfoldable pub finish_record : Text → IdentityRecord → DidResult IdentityRecord
  finish_record identity_id r =
      if not (r.schema_version == 1) || not (r.identity_id == identity_id)
      then err invalid_identity
      else chain (for_did r.did) (λ profile.
        chain (fill_fingerprint profile r) (λ s. chain (fill_checkpoint s) fill_authorization))

  abbrev pub finish_found : Text → Option IdentityRecord → DidResult IdentityRecord
  finish_found identity_id none = err identity_not_found
  finish_found identity_id (some r) = finish_record identity_id r

  unfoldable pub read_identity : Text → Action IdentityRecord
  read_identity identity_id d =
      (finish_found identity_id (lookup (storage_key identity_id) d.identities), d)

  -- `FileKeyStore::delete`, `seal_if_absent` and `open`.
  unfoldable pub delete_secret : SecretRef → Action (Unit {0})
  delete_secret r = write (λ d. record d { records = remove (record_storage_key r) d.records })

  unfoldable pub seal_if_absent : Text → List ℕ → List ℕ → SecretRef → List ℕ → Action SealIfAbsent
  seal_if_absent now nonce root_key r plaintext d = elim (validate_secret_ref r) [
    | err e ↦ (err e, d)
    | ok _ ↦
        if contains_key (record_storage_key r) d.records
        then (ok already_exists, d)
        else (write (λ d'. record d' {
          records =
              insert (record_storage_key r) (seal_record now nonce root_key r plaintext) d'.records;
        })
              >>= λ _. pure sealed)
            d
  ]

  abbrev pub open_found : List ℕ → SecretRef → Option EncryptedRecord → DidResult (List ℕ)
  open_found root_key r none = err secret_not_found
  open_found root_key r (some e) =
      if e.secret_ref == r then open_record root_key e else err corrupt_record

  unfoldable pub open_secret : List ℕ → SecretRef → Action (List ℕ)
  open_secret root_key r d = (
    chain (validate_secret_ref r)
        (λ _. open_found root_key r (lookup (record_storage_key r) d.records)),
    d,
  )
