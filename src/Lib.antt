-- ===== src/Lib.antt =====
-- A model of the offline verifier `specora_verify`, with the theorems that make its core correct.
--
-- The verifier reads JSON artifacts and checks them without a network: canonical bytes are hashed
-- with SHA-256, hashes are signed with Ed25519, signed artifacts are chained in a transparency
-- log, keys are checked against a revocation list, independent organisations attest anchors, and
-- manifests and bundles are checked against contracts and hashes.
-- The parts modelled here, each with the file of the repository that it translates:
--
-- * Canonical (specora_verify/canonical.py): `canonical_json_bytes`. `json.dumps` is written out as
--   an encoder that writes each value in front of the bytes that follow; `sort_keys` orders the
--   keys of every object and `all_finite` is `allow_nan=False`.
-- * Hash (specora_verify/hash.py, specora_verify/fingerprint.py): `sha256_hex`,
--   `compute_manifest_hash`, `compute_key_fingerprint`, `derive_key_id`.
-- * Signature (specora_verify/signature.py): `load_public_key` and `verify_signature`, for keys given
--   as text. A key object is known by its raw bytes.
-- * Chain (specora_verify/validators/chain.py): the log. Chain/Dict holds the checks of one dict,
--   whose values may have any type, and Chain/Dicts the loop of `verify_chain` over them; `int` and
--   `<` of what is not an integer are arguments. Chain/Entry and Chain/Verify hold the same code for
--   entries whose documented fields have their documented types (the index an integer, all else
--   text) or are missing, and Chain/Documents shows that both agree on such logs. Chain/Log is the
--   specification, the log that an honest writer appends to.
-- * Revocation (specora_verify/revocation.py): `RevocationList.lookup` and `get_status` in
--   Revocation/List, `parse_revocation_list` in Revocation/Parse, `check_key_trust` in
--   Revocation/Trust.
-- * Witness (specora_verify/validators/witness.py): the registry and its parser in Witness/Entry and
--   Witness/Parse, `validate_witness_statement` in Witness/Structure and Witness/Statement,
--   `verify_witness_quorum` in Witness/Quorum. Dicts are association lists in the order of insertion.
-- * Registry (specora_verify/validators/registry.py): in Registry/Snapshot the snapshots of the
--   registry, their lookups and `compute_registry_hash`; the parser in Registry/Witnesses and
--   Registry/Parse, `validate_registry_snapshot` in Registry/Validate, `verify_registry_chain` in
--   Registry/Chain, and `enforce_revocation_monotonicity` in Registry/Revoked.
-- * Manifest (specora_verify/contracts/registry.py, specora_verify/validators/manifest.py): the
--   contracts in Manifest/Contract, the types of fields and the search for floats in Manifest/Fields,
--   `validate_manifest` in Manifest/Validate; in Manifest/Anchor the two validators that call it
--   (specora_verify/validators/anchor.py and receipt.py).
-- * Vectors (specora_verify/validators/vectors.py, and the same code in anchor.py and receipt.py): the
--   golden files, whose contents are an argument.
-- * Identity (specora_verify/agent_identity.py, specora_verify/wire_spec.py):
--   `validate_agent_identity_certificate` in Identity/Certificate, `validate_bundle_v1_1` in
--   Identity/Wire; `bytes.fromhex`, `datetime.fromisoformat` and the time are arguments.
-- * Bundle (specora_verify/validators/bundle.py): `verify_bundle`; the archive and `json.loads` are
--   arguments.
-- * Stp (specora_verify/stp_contracts.py, specora_verify/validators/stp.py): the closed sets in
--   Stp/Contracts, `validate_stp_message` in Stp/Body and Stp/Message, `simulate_stp_decision` in
--   Stp/Simulate.
-- * External (specora_verify/validators/external_anchor.py): `verify_external_anchor` in
--   External/Anchor, `verify_external_anchor_chain` in External/Chain; `<` between two indices that
--   are not both integers is an argument.
--
-- Shared modules: Base (native numbers, text, lists, integers), Errors (a computation that may
-- raise returns a `Result`), Json (what `json.loads` returns), Pattern (the regular expressions, as
-- matchers), Checked (reading a field with its checks), Platform (what comes from outside the
-- repository: SHA-256, Ed25519, PEM, base64, Unicode's classes, and `==` between numbers of
-- different types; all arguments of the model) and Toy (a platform for the tests).
--
-- Error messages are constructors that carry the values shown. Floats are known by their `repr`;
-- texts are sequences of Unicode scalar values. All loops are structural recursion, but for the
-- decimal digits of an integer: their loop has one step of fuel more than the number, which is
-- more than the number has digits.
--
-- Not modelled: reading files, network access, the clock, the command line and its output, and the
-- remaining validators (mirrors, certification, receipts of a verification, the
-- inspection of STP artifacts and the readers of provider logs).
pub mod Base
pub mod Errors
pub mod Platform
pub mod Toy
pub mod Json
pub mod Pattern
pub mod Checked
pub mod Canonical
pub mod Hash
pub mod Signature
pub mod Chain
pub mod Revocation
pub mod Witness
pub mod Registry
pub mod Manifest
pub mod Vectors
pub mod Bundle
pub mod Identity
pub mod Stp
pub mod External
