-- ===== src/Manifest/Validate.antt =====
-- validators/manifest.py: `validate_manifest`.
use specora_verify.Base.{
  String, str_eq, str_truthy, Bool, false, ◌&&◌, Option, none, some, List, [], ◌∷◌, ◌++◌, is_nil,
  if◌then◌else◌,
}
use specora_verify.Errors.{Result, ok, encoded, ◌>>=◌}
use specora_verify.Platform.{Platform}
use specora_verify.Json.{obj, Fields, get}
use specora_verify.Hash.{compute_manifest_hash}
use specora_verify.Manifest.Contract.{
  FieldType, ManifestContract, get_contract, detect_spec_id, validate_required_fields,
  get_field_validators,
}
use specora_verify.Manifest.Fields.{
  ManifestError, not_detected, unknown_contract, missing_fields, hash_mismatch, validate_field_type,
  check_no_floats,
}

pub record ManifestResult : Type 0 where
  pub valid : Bool
  pub spec_id : Option String
  pub schema_version : Option String
  pub computed_hash : Option String
  pub expected_hash : Option String
  pub missing_fields : List String
  pub type_errors : List ManifestError
  pub errors : List ManifestError

-- `given or other`
abbrev pub or_else : Option String → Option String → Option String
or_else none other = other
or_else (some t) other = if str_truthy t then some t else other

abbrev pub text_or : Option String → String → String
text_or none other = other
text_or (some t) other = if str_truthy t then t else other

abbrev pub required_errors : List String → List ManifestError
required_errors [] = []
required_errors (m ∷ ms) = missing_fields (m ∷ ms) ∷ []

abbrev pub found : Option ManifestError → List ManifestError
found none = []
found (some e) = e ∷ []

abbrev pub field_error : Platform → Fields → String → FieldType → List ManifestError
field_error P payload name t = elim (get name payload) [
  | none ↦ []
  | some v ↦ found (validate_field_type P name v t)
]

unfoldable pub field_errors : Platform → Fields → List (String × FieldType) → List ManifestError
field_errors P payload [] = []
field_errors P payload ((name, t) ∷ rest) =
    field_error P payload name t ++ field_errors P payload rest

abbrev pub compare_hash : Option String → String → List ManifestError
compare_hash none computed = []
compare_hash (some e) computed =
    if str_truthy e then (if str_eq computed e then [] else hash_mismatch computed e ∷ []) else []

abbrev pub invalid : Option String → Option String → Option String → ManifestError → ManifestResult
invalid expected spec_id version e = record {
  valid = false;
  spec_id = spec_id;
  schema_version = version;
  computed_hash = none;
  expected_hash = expected;
  missing_fields = [];
  type_errors = [];
  errors = e ∷ [];
}

abbrev pub type_errors : Platform → ManifestContract → Fields → List ManifestError
type_errors P contract payload =
    check_no_floats [] payload ++ field_errors P payload (get_field_validators contract)

abbrev pub contract_result :
    Platform → ManifestContract → String → String → Option String → Fields → String → ManifestResult
contract_result P contract spec_id version expected payload computed =
    let missing = validate_required_fields contract payload in
    let types = type_errors P contract payload in
    let hash = compare_hash expected computed in
    record {
      valid = is_nil missing && (is_nil types && is_nil hash);
      spec_id = some spec_id;
      schema_version = some version;
      computed_hash = some computed;
      expected_hash = expected;
      missing_fields = missing;
      type_errors = types;
      errors = required_errors missing ++ (types ++ hash);
    }

-- The part behind the lookup of the contract.
unfoldable pub check_contract :
    Platform
    → ManifestContract
    → String
    → String
    → Option String
    → Fields
    → Result ManifestError ManifestResult
check_contract P contract spec_id version expected payload = do
  computed ← encoded (compute_manifest_hash P (obj payload))
  ok (contract_result P contract spec_id version expected payload computed)

abbrev pub with_contract :
    Platform
    → String
    → String
    → Option String
    → Fields
    → Option ManifestContract
    → Result ManifestError ManifestResult
with_contract P spec_id version expected payload none =
    ok (invalid expected (some spec_id) (some version) (unknown_contract spec_id version))
with_contract P spec_id version expected payload (some contract) =
    check_contract P contract spec_id version expected payload

abbrev pub with_spec_id :
    Platform → String → Option String → Fields → Option String → Result ManifestError ManifestResult
with_spec_id P version expected payload none = ok (invalid expected none none not_detected)
with_spec_id P version expected payload (some spec_id) =
    with_contract P spec_id version expected payload (get_contract spec_id version)

unfoldable pub validate_manifest :
    Platform
    → Fields
    → Option String
    → Option String
    → Option String
    → Result ManifestError ManifestResult
validate_manifest P payload expected spec_id version =
    with_spec_id P (text_or version "1.0.0") expected payload
      (or_else spec_id (detect_spec_id payload))
