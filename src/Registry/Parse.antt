-- ===== src/Registry/Parse.antt =====
-- `parse_registry_snapshot` in validators/registry.py.
use specora_verify.Base.{ℤ, String, ◌==◌, none, some, List, [], ◌∷◌, length, is_nil}
use specora_verify.Errors.{Result, ok, err, verification, require, ◌>>=◌, ◌>>◌}
use specora_verify.Platform.{Platform}
use specora_verify.Json.{Fields}
use specora_verify.Pattern.{hex64_pattern, key_id_pattern, timestamp_pattern, has_text}
use specora_verify.Checked.{text_where, positive_int, items_in, missing_from, at, is_str}
use specora_verify.Witness.Parse.{any_text}
use specora_verify.Registry.Snapshot.{RegistrySnapshot}
use specora_verify.Registry.Witnesses.{
  SnapshotError, missing_fields, bad_spec_id, bad_schema_version, bad_version, bad_generated_at,
  bad_previous_hash, bad_hash, bad_registry_key_id, bad_authority, signature_not_text,
  bad_signature_base64, witnesses_not_array, signature_length, parse_witnesses,
}

-- `SNAPSHOT_REQUIRED_FIELDS`, sorted
abbrev pub required_fields : List String
required_fields =
    "generated_at" ∷ "previous_registry_hash" ∷ "registry_authority" ∷ "registry_hash"
    ∷ "registry_key_id" ∷ "registry_signature" ∷ "registry_version" ∷ "schema_version" ∷ "spec_id"
    ∷ "witnesses" ∷ []

unfoldable pub check_signature_text : Platform → String → Result SnapshotError (Unit {0})
check_signature_text P signature = elim (P.b64decode signature) [
  | none ↦ err (verification bad_signature_base64)
  | some bytes ↦ require (length bytes == 64) (signature_length (length bytes))
]

-- The part in front of the hashes. The fields are present: `at` reads `data[key]`.
unfoldable pub check_identity : Fields → Result SnapshotError (Unit {0})
check_identity fs = do
  require (is_nil (missing_from fs required_fields))
      (missing_fields (missing_from fs required_fields))
  require (is_str "witness-registry-snapshot" (at "spec_id" fs)) (bad_spec_id (at "spec_id" fs))
  require (is_str "1.0.0" (at "schema_version" fs)) (bad_schema_version (at "schema_version" fs))

pub record Header : Type 0 where
  pub version : ℤ
  pub generated_at : String
  pub previous_hash : String
  pub authority : String

unfoldable pub parse_header : Platform → Fields → Result SnapshotError Header
parse_header P fs = do
  version ← positive_int (at "registry_version" fs) (bad_version (at "registry_version" fs))
  generated_at ←
      text_where (timestamp_pattern P) (at "generated_at" fs)
        (bad_generated_at (at "generated_at" fs))
  previous_hash ←
      text_where hex64_pattern (at "previous_registry_hash" fs)
        (bad_previous_hash (at "previous_registry_hash" fs))
  authority ← text_where (has_text P) (at "registry_authority" fs) bad_authority
  ok record {
    version = version;
    generated_at = generated_at;
    previous_hash = previous_hash;
    authority = authority;
  }

pub record Seal : Type 0 where
  pub hash : String
  pub key_id : String
  pub signature : String

unfoldable pub parse_seal : Platform → Fields → Result SnapshotError Seal
parse_seal P fs = do
  hash ← text_where hex64_pattern (at "registry_hash" fs) (bad_hash (at "registry_hash" fs))
  key_id ←
      text_where (key_id_pattern b'r') (at "registry_key_id" fs)
        (bad_registry_key_id (at "registry_key_id" fs))
  signature ← text_where any_text (at "registry_signature" fs) signature_not_text
  check_signature_text P signature
  ok record { hash = hash; key_id = key_id; signature = signature }

unfoldable pub parse_registry_snapshot : Platform → Fields → Result SnapshotError RegistrySnapshot
parse_registry_snapshot P fs = do
  check_identity fs
  header ← parse_header P fs
  seal ← parse_seal P fs
  vs ← items_in (at "witnesses" fs) witnesses_not_array
  witnesses ← parse_witnesses P 0 [] vs
  ok record {
    spec_id = "witness-registry-snapshot";
    schema_version = "1.0.0";
    registry_version = header.version;
    version_value = at "registry_version" fs;
    generated_at = header.generated_at;
    previous_registry_hash = header.previous_hash;
    registry_authority = header.authority;
    witnesses = witnesses;
    registry_hash = seal.hash;
    registry_key_id = seal.key_id;
    registry_signature = seal.signature;
  }
