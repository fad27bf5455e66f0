-- ===== src/Facade.antt =====
-- crates/anp-identity/src/facade/error.rs: the errors of the facade, and calls that fail with them.
pub mod Outcome
use anp_identity.Disk.{Action, Disk}
use anp_identity.Errors.{DidError, DidResult, Result, err, map_err, ok}

pub data IdentityError : Type 0 where
  invalid_request store_not_found provider_unavailable root_key_mismatch : IdentityError
  corrupt_state identity_not_found identity_already_exists key_not_found : IdentityError
  key_unavailable key_purpose_violation ambiguous_key verification_failed : IdentityError
  pending_document_change document_change_not_found : IdentityError
  invalid_document_change_state conflict capability_unavailable : IdentityError
  unsupported storage internal : IdentityError

-- `From<DidError>`.
unfoldable pub from_did_error : DidError → IdentityError
from_did_error DidError.invalid_domain = invalid_request
from_did_error DidError.empty_path = invalid_request
from_did_error DidError.invalid_path_segment = invalid_request
from_did_error DidError.invalid_kid_fragment = invalid_request
from_did_error DidError.invalid_managed_root_count = invalid_request
from_did_error DidError.external_root_control = invalid_request
from_did_error DidError.missing_managed_request_signing = invalid_request
from_did_error DidError.foreign_kid = invalid_request
from_did_error DidError.duplicate_kid = invalid_request
from_did_error DidError.invalid_public_key = invalid_request
from_did_error DidError.invalid_service = invalid_request
from_did_error DidError.invalid_extension = invalid_request
from_did_error DidError.invalid_peer_key = invalid_request
from_did_error DidError.invalid_root_transfer = invalid_request
from_did_error DidError.root_transfer_expired = invalid_request
from_did_error DidError.store_not_found = IdentityError.store_not_found
from_did_error DidError.provider_unavailable = IdentityError.provider_unavailable
from_did_error DidError.root_key_mismatch = IdentityError.root_key_mismatch
from_did_error DidError.corrupt_record = corrupt_state
from_did_error DidError.serialization = corrupt_state
from_did_error DidError.invalid_identity = corrupt_state
from_did_error DidError.secret_not_found = IdentityError.key_not_found
from_did_error DidError.key_not_found = IdentityError.key_not_found
from_did_error DidError.identity_not_found = IdentityError.identity_not_found
from_did_error DidError.duplicate_identity = identity_already_exists
from_did_error DidError.external_key_operation = key_unavailable
from_did_error DidError.key_not_usable = key_unavailable
from_did_error DidError.key_material_erased = key_unavailable
from_did_error DidError.key_role_violation = key_purpose_violation
from_did_error DidError.verification_failed = IdentityError.verification_failed
from_did_error DidError.pending_revision_exists = pending_document_change
from_did_error DidError.pending_root_transfer_exists = pending_document_change
from_did_error DidError.pending_revision_not_found = document_change_not_found
from_did_error DidError.invalid_publication_state = invalid_document_change_state
from_did_error DidError.conflict = IdentityError.conflict
from_did_error DidError.root_capability_unavailable = capability_unavailable
from_did_error DidError.unsupported_operation = unsupported
from_did_error DidError.io = storage
from_did_error DidError.crypto = internal

abbrev pub IdentityResult {ℓ} : Type ℓ → Type ℓ
IdentityResult A = Result IdentityError A

-- `?` on a result of the engine.
abbrev pub engine_result {ℓ} : {A : Type ℓ} → DidResult A → IdentityResult A
engine_result m = map_err from_did_error m

-- A call of the facade, as an action on the disk.
abbrev pub Request {ℓ} : Type ℓ → Type ℓ
Request A = Disk → IdentityResult A × Disk

abbrev pub give {ℓ} : {A : Type ℓ} → A → Request A
give a d = (ok a, d)

abbrev pub demand {ℓ} : {A : Type ℓ} → IdentityResult A → Request A
demand r d = (r, d)

abbrev pub look {ℓ} : {A : Type ℓ} → (Disk → IdentityResult A) → Request A
look f d = (f d, d)

abbrev pub engine_outcome {ℓ} : {A : Type ℓ} → DidResult A × Disk → IdentityResult A × Disk
engine_outcome (r, d) = (engine_result r, d)

abbrev pub engine {ℓ} : {A : Type ℓ} → Action A → Request A
engine m d = engine_outcome (m d)

abbrev pub go_on {ℓ κ} :
    {A : Type ℓ} {B : Type κ} → (A → Request B) → IdentityResult A × Disk → IdentityResult B × Disk
go_on f (ok a, d) = f a d
go_on f (err e, d) = (err e, d)

infixl 5 ◌>>=◌ ◌>>◌
unfoldable pub ◌>>=◌ {ℓ κ} : {A : Type ℓ} {B : Type κ} → Request A → (A → Request B) → Request B
◌>>=◌ m f d = go_on f (m d)

abbrev pub ◌>>◌ {ℓ} : {B : Type ℓ} → Request (Unit {0}) → Request B → Request B
m >> n = m >>= λ _. n
