-- ===== src/Lib.antt =====
-- anp-identity keeps W3C DIDs of the methods did:wba (profile E1) and did:web for agents: it creates
-- identities, stores their keys encrypted, publishes new revisions of their documents, and lets a
-- host give out leases and one-time tokens for single operations. This library models the engine of
-- the crate crates/anp-identity; all paths below are from its directory src.
--
-- The parts, the files that model them, and how they correspond:
--   Errors      error.rs: `DidError` without its messages, and `Result`; `?` is a bind of do blocks.
--   Text        Rust strings as lists of code points, with their UTF-8 bytes where the code counts
--               bytes.
--   Json        serde_json's values, with natural numbers; an object is sorted by its keys.
--   Anp         what comes from outside the repository (the `anp` crate, hashes, ciphers, encodings):
--               a record of functions that every definition takes as an instance argument.
--   Assoc       maps with text keys, as sorted association lists.
--   Input       input.rs. Input is the specifications; Input/Fields the checks of single fields;
--               Input/Kid `canonicalize_kid` and `validate_unique_kids`; Input/Create
--               `DidCreateSpec::validate` (here `validate_create`) and `validate_for_did`.
--   Provider    host/provider_authorization.rs. `Authority` is `ProviderAuthorization` with its state;
--               Provider is the leases, Provider/Tokens the one-time tokens. The clock and the random
--               identifiers are arguments. `TokenCodec` is the cryptography that they use. A function
--               that takes a state gives the state after it, also when it fails, if it can change.
--   Document    document.rs: digests, fingerprints and key encodings.
--   Keystore    keystore.rs: the encrypted records and the data that binds them to their keys.
--   Registry    registry.rs: `IdentityRecord` and what it holds; Registry/Journals the journals and the
--               registry file; Registry/Devices `observe_devices`.
--   Adoption    adoption.rs: the checks of a document that the remote registry holds; Adoption/Settle
--               what such a document makes of the record, by the state of the identity.
--   Disk        the directory of the store. An operation is a function from a disk to a result and a
--               disk; Disk/Files has the file operations of registry.rs and keystore.rs. Each change
--               of a file takes one of `writes_left`, and fails when none is left, so a crash or a full
--               disk can come before any write.
--   Pending     lifecycle.rs: what an operation on the pending revision makes of a record.
--   Lifecycle   lifecycle.rs: the operations on the store. A `DidIdentity` is the record it holds, and
--               an operation gives the record that it holds afterwards. Lifecycle/Adopt is
--               `adopt_verified_document_inner` and `persist_state_transition` of adoption.rs.
--   Identity    identity.rs: opening an identity, and `recover`, which finishes or undoes what a crash
--               has cut off, by the journals.
--   KeyOps      crypto_ops.rs: the calls that use a key; KeyOps/Proofs the signed objects, documents,
--               origins and HTTP requests. Curves and the drafts of the `anp` crate come from outside.
--   Candidate   lifecycle.rs and document.rs: the candidate document of an update. Candidate/Keys and
--               Candidate/Devices are the changes of keys and devices, Candidate/Build the document
--               and its proof, Candidate/Plan and Candidate/Prepare `prepare_update_inner` (the part
--               that only reads, and the rest).
--   Facade      facade/error.rs: `IdentityError`, and calls on a disk that fail with it.
--   Transition  facade/identity_transition.rs: the hop from an identity to its successor. Transition is
--               the checks, Transition/Prepare a new journal and resuming, Transition/Sessions the
--               calls. Disk/Transitions is the journal's files (registry.rs), and Transition/Steps
--               the state machine of a journal as a relation.
--   Change      facade/document_change.rs, facade/types.rs. Change/Spec is `into_engine_spec`,
--               Change/Sessions the calls of a `DocumentChangeSession`, Change/Public
--               `project_public_identity` of facade/identity.rs.
--   Tests       concrete instances of the outside world, and each property at concrete values.
--
-- The parts interact by values: Lifecycle reads and writes through Disk/Files, asks Adoption about a
-- document and Registry/Devices about its devices; Input guards what enters; Provider stands alone and
-- is asked by the host before an operation runs. Candidate/Prepare signs through KeyOps/Proofs and
-- stores a pending revision, which Lifecycle then moves. Change drives Candidate/Prepare and Lifecycle
-- for an application; Transition has journals of its own, and reads the records that Lifecycle writes.
--
-- Numbers are naturals. The u64 counters keep their overflow (`checked_inc`). The only signed numbers
-- are times to live; times themselves are seconds since 1970, and their sums stay below 2^63. No
-- loop needs fuel but `decimal`, which is given one more than its number, and so more than its digits.
--
-- Not modelled: creation and deletion of identities (identity.rs, namespace.rs), building the
-- documents of new identities (document.rs), enrollments, root transfer, key import, the facade's
-- manager and signers, the host adapters and sealed handoff. They stand on the parts above. Files,
-- locks, key rings and the bindings are input and output. JSON text, damaged files, a poisoned mutex
-- and the messages of errors are left out too.
pub mod Prelude
pub mod Errors
pub mod Text
pub mod Json
pub mod Anp
pub mod Assoc
pub mod Input
pub mod Provider
pub mod Document
pub mod Keystore
pub mod Registry
pub mod Adoption
pub mod Disk
pub mod Pending
pub mod Lifecycle
pub mod Identity
pub mod KeyOps
pub mod Candidate
pub mod Facade
pub mod Transition
pub mod Change
pub mod Tests
