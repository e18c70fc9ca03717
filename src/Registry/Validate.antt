-- ===== src/Registry/Validate.antt =====
-- `validate_registry_snapshot` in validators/registry.py.
use specora_verify.Base.{
  ℤ, String, str_eq, str_truthy, Bool, true, false, not, Option, none, some, List, [], ◌∷◌, ◌++◌,
  is_nil, if◌then◌else◌,
}
use specora_verify.Errors.{Result, ok, err, verification, encoded, ◌>>=◌}
use specora_verify.Platform.{Platform}
use specora_verify.Json.{Fields}
use specora_verify.Signature.{KeyFormat, SignatureError, SignatureResult, verify_signature}
use specora_verify.Registry.Snapshot.{
  RegistrySnapshot, snapshot_to_dict, is_genesis, compute_registry_hash,
}
use specora_verify.Registry.Witnesses.{SnapshotError}
use specora_verify.Registry.Parse.{parse_registry_snapshot}

pub data ValidationError : Type 0 where
  unreadable : SnapshotError → ValidationError
  registry_hash_mismatch : String → String → ValidationError
  bad_signature : List SignatureError → ValidationError
  signature_raised : ValidationError

pub data ValidationWarning : Type 0 where
  no_public_key no_crypto skipped_by_request : ValidationWarning

pub record ValidationResult : Type 0 where
  pub valid : Bool
  pub registry_version : Option ℤ
  pub registry_hash : Option String
  pub previous_registry_hash : Option String
  pub generated_at : Option String
  pub signature_valid : Bool
  pub hash_valid : Bool
  pub is_genesis : Bool
  pub errors : List ValidationError
  pub warnings : List ValidationWarning

-- What the callers choose: the key and its format, and whether the signature is looked at.
pub record Options : Type 0 where
  pub public_key : Option String
  pub key_format : KeyFormat
  pub skip_signature : Bool

-- Whether the signature passed, the errors and the warnings of its check.
pub record SignatureCheck : Type 0 where
  pub passed : Bool
  pub errors : List ValidationError
  pub warnings : List ValidationWarning

abbrev pub skipped : ValidationWarning → SignatureCheck
skipped w = record { passed = false; errors = []; warnings = w ∷ [] }

abbrev pub signature_outcome : Result SignatureError SignatureResult → SignatureCheck
signature_outcome (ok r) =
    if r.valid
    then record { passed = true; errors = []; warnings = [] }
    else record { passed = false; errors = bad_signature r.errors ∷ []; warnings = [] }
signature_outcome (err e) = record { passed = false; errors = signature_raised ∷ []; warnings = [] }

-- INV-REG-001, under a key that is given
unfoldable pub check_with_key : Platform → KeyFormat → String → RegistrySnapshot → SignatureCheck
check_with_key P format key s =
    if not (str_truthy key)
    then skipped no_public_key
    else if not P.crypto_available
    then skipped no_crypto
    else signature_outcome (verify_signature P s.registry_hash s.registry_signature key format)

unfoldable pub check_signature : Platform → Options → RegistrySnapshot → SignatureCheck
check_signature P o s = if o.skip_signature then skipped skipped_by_request else elim o.public_key [
  | none ↦ skipped no_public_key
  | some key ↦ check_with_key P o.key_format key s
]

-- INV-REG-005
abbrev pub hash_errors : String → String → List ValidationError
hash_errors computed stated =
    if str_eq computed stated then [] else registry_hash_mismatch computed stated ∷ []

abbrev pub hash_and_signature :
    RegistrySnapshot → List ValidationError → SignatureCheck → ValidationResult
hash_and_signature s hash check =
    let errors = hash ++ check.errors in
    record {
      valid = is_nil errors;
      registry_version = some s.registry_version;
      registry_hash = some s.registry_hash;
      previous_registry_hash = some s.previous_registry_hash;
      generated_at = some s.generated_at;
      signature_valid = check.passed;
      hash_valid = is_nil hash;
      is_genesis = is_genesis s;
      errors = errors;
      warnings = check.warnings;
    }

-- The checks of a parsed snapshot; `fields` is the dict that is hashed.
unfoldable pub validate_parsed :
    Platform → Options → RegistrySnapshot → Fields → Result SnapshotError ValidationResult
validate_parsed P o s fields = do
  computed ← encoded (compute_registry_hash P fields)
  ok (hash_and_signature s (hash_errors computed s.registry_hash) (check_signature P o s))

abbrev pub not_parsed : SnapshotError → ValidationResult
not_parsed e = record {
  valid = false;
  registry_version = none;
  registry_hash = none;
  previous_registry_hash = none;
  generated_at = none;
  signature_valid = false;
  hash_valid = false;
  is_genesis = false;
  errors = unreadable e ∷ [];
  warnings = [];
}

-- What is validated: a dict, or a snapshot that has been parsed.
pub data Input : Type 0 where
  raw : Fields → Input
  parsed : RegistrySnapshot → Input

abbrev pub validate_raw :
    Platform
    → Options
    → Fields
    → Result SnapshotError RegistrySnapshot
    → Result SnapshotError ValidationResult
validate_raw P o fields (ok s) = validate_parsed P o s fields
validate_raw P o fields (err (verification e)) = ok (not_parsed e)
validate_raw P o fields (err e) = err e

unfoldable pub validate_registry_snapshot :
    Platform → Options → Input → Result SnapshotError ValidationResult
validate_registry_snapshot P o (raw fields) =
    validate_raw P o fields (parse_registry_snapshot P fields)
validate_registry_snapshot P o (parsed s) = validate_parsed P o s (snapshot_to_dict s)
