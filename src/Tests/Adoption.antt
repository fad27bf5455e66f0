-- ===== src/Tests/Adoption.antt =====
-- Examples for the devices of registry.rs and for adoption.rs.
use anp_identity.Adoption.{AdoptVerifiedDocumentSpec, VerifiedDocumentEvidence, checkpoint_of}
use anp_identity.Disk.Transitions.{transition_state_eq}
use anp_identity.Errors.{err, invalid_extension, ok}
use anp_identity.Input.{profile_eq, role_eq}
use anp_identity.Json.{get_field, object_of, value_eq}
use anp_identity.Keystore.{secret_ref_eq}
use anp_identity.Prelude.{[], list_beq, list_eq, nat_eq, option_eq, pair_eq, refl, some, ◌∷◌, ◌≡◌}
use anp_identity.Registry.{
  IdentityRecord, capability_eq, key_state_eq, origin_eq, prepared, publication_eq, state_eq,
  summary_eq,
}
use anp_identity.Registry.Devices.{device_ids, lost_ids, observe_devices, sort_dedup}
use anp_identity.Registry.Devices.Laws.{Later, lost_device_stays_lost}
use anp_identity.Tests.Record.{new_document, old_document, sample_record}
use anp_identity.Tests.Sample.{sample_anp, sample_codec}
use anp_identity.Text.{lit}

abbrev observed_record : IdentityRecord
observed_record = record (sample_record prepared) { retired_device_ids = lit "phone" ∷ [] }

phone_is_lost : observe_devices new_document (sample_record prepared) ≡ ok observed_record
unfolding observe_devices sort_dedup lost_ids device_ids get_field object_of list_beq
phone_is_lost = refl

-- The old document is held again, as after a root promotion, and is still refused.
lost_device_stays_lost_example :
    observe_devices old_document (record observed_record { document = old_document })
    ≡ err invalid_extension
unfolding device_ids get_field object_of list_beq
lost_device_stays_lost_example =
    lost_device_stays_lost new_document old_document (sample_record prepared) observed_record
      (record observed_record { document = old_document }) (lit "phone") refl refl phone_is_lost
      (Later.elsewhere Later.same refl) refl

abbrev other_evidence : VerifiedDocumentEvidence
other_evidence = record {
  document_version = 2;
  registry_version = 3;
  document_digest = lit "sha256:2";
}

abbrev sample_adoption : AdoptVerifiedDocumentSpec
sample_adoption = record { document = new_document; evidence = other_evidence }

abbrev adopted_record : IdentityRecord
adopted_record = record (sample_record prepared) {
  document = new_document;
  revision = 2;
  checkpoint = some (checkpoint_of other_evidence);
  retired_device_ids = lit "phone" ∷ [];
}
