-- ===== src/Stp/Message.antt =====
-- `validate_stp_message` in validators/stp.py.
use specora_verify.Base.{
  String, str_eq, str_mem, str_truthy, Bool, true, not, ◌&&◌, Option, none, some, List, [], ◌∷◌,
  ◌++◌, is_nil, if◌then◌else◌,
}
use specora_verify.Errors.{Result, ok, encoded, ◌>>=◌}
use specora_verify.Platform.{Platform}
use specora_verify.Json.{Value, str, obj, Fields, end, has_key}
use specora_verify.Checked.{at, truthy, is_str}
use specora_verify.Hash.{compute_manifest_hash}
use specora_verify.Stp.Contracts.{
  stp_protocol_version, stp_message_types, stp_response_types, stp_required_fields,
  stp_payload_required_fields, stp_result_required_fields,
}
use specora_verify.Stp.Body.{
  MessageError, type_mismatch, unknown_type, version_mismatch, missing_field, missing_payload_field,
  missing_result_field, seal_mismatch, in_list, looked_up, entry_of, absent_from, Notes, no_notes,
  get_or, validate_payload_values,
}

pub record VerifyResult : Type 0 where
  pub valid : Bool
  pub message_type : Value
  pub protocol_version : Value
  pub schema_valid : Bool
  pub seal_valid : Option Bool
  pub computed_seal : Option String
  pub expected_seal : Option String
  pub errors : List MessageError
  pub warnings : List MessageError

-- What the caller asks for.
pub record Request : Type 0 where
  pub message_type : Option String
  pub strict : Bool
  pub check_seal : Bool
  pub expected_seal : Option String

-- `text and not test`
abbrev pub expected_type_errors : Option String → Value → List MessageError
expected_type_errors none v = []
expected_type_errors (some t) v =
    if str_truthy t && not (is_str t v) then type_mismatch t v ∷ [] else []

abbrev pub known_type_errors : Value → List MessageError
known_type_errors v =
    if truthy v && not (in_list (stp_message_types ++ stp_response_types) v)
    then unknown_type v ∷ []
    else []

abbrev pub version_notes : Bool → Value → Notes
version_notes strict v =
    if is_str stp_protocol_version v
    then no_notes
    else if strict
    then record { errors = version_mismatch v ∷ []; warnings = [] }
    else record { errors = []; warnings = version_mismatch v ∷ [] }

abbrev pub missing_fields_errors : Fields → List String → List MessageError
missing_fields_errors fs [] = []
missing_fields_errors fs (name ∷ names) =
    let rest = missing_fields_errors fs names in
    if has_key name fs then rest else missing_field name ∷ rest

abbrev pub of_entry : Fields → Option (List String) → List MessageError
of_entry fs none = []
of_entry fs (some names) = missing_fields_errors fs names

abbrev pub envelope_errors : Fields → Value → Result MessageError (List MessageError)
envelope_errors fs v =
    if truthy v then (do entry ← looked_up v stp_required_fields; ok (of_entry fs entry)) else ok []

abbrev pub names_for : String → List (String × List String) → List String
names_for t table = elim (entry_of t table) [ none ↦ [] | some names ↦ names ]

abbrev pub payload_notes : String → Value → Result MessageError Notes
payload_notes t payload_data = do
  missing ← absent_from missing_payload_field payload_data (names_for t stp_payload_required_fields)
  notes ← validate_payload_values t payload_data
  ok record { errors = missing ++ notes.errors; warnings = notes.warnings }

abbrev pub result_notes : String → Value → Result MessageError Notes
result_notes t result_data = do
  missing ← absent_from missing_result_field result_data (names_for t stp_result_required_fields)
  ok record { errors = missing; warnings = [] }

unfoldable pub is_request : String → Bool
is_request t = str_mem t stp_message_types

unfoldable pub is_response : String → Bool
is_response t = str_mem t stp_response_types

unfoldable pub body_notes : Fields → Value → Result MessageError Notes
body_notes fs (str t) =
    if is_request t
    then payload_notes t (get_or "payload" (obj end) fs)
    else if is_response t
    then result_notes t (get_or "result" (obj end) fs)
    else ok no_notes
body_notes fs v = ok no_notes

pub record Seal : Type 0 where
  pub passed : Option Bool
  pub computed : Option String
  pub expected : Option String
  pub errors : List MessageError

abbrev pub seal_against : String → Option String → Seal
seal_against computed none = record {
  passed = some true;
  computed = some computed;
  expected = none;
  errors = [];
}
seal_against computed (some e) =
    if str_truthy e
    then record {
      passed = some (str_eq computed e);
      computed = some computed;
      expected = some e;
      errors = if str_eq computed e then [] else seal_mismatch computed e ∷ [];
    }
    else record { passed = some true; computed = some computed; expected = none; errors = [] }

unfoldable pub requested_seal : Platform → Option String → Fields → Result MessageError Seal
requested_seal P expected fs = do
  computed ← encoded (compute_manifest_hash P (obj fs))
  ok (seal_against computed expected)

-- The seal is the hash of the canonical bytes of the message.
unfoldable pub seal_of : Platform → Request → Fields → Result MessageError Seal
seal_of P q fs =
    if q.check_seal
    then requested_seal P q.expected_seal fs
    else ok record { passed = none; computed = none; expected = none; errors = [] }

abbrev pub message_result : Request → Fields → List MessageError → Notes → Seal → VerifyResult
message_result q fs envelope body seal =
    let detected = at "message_type" fs in
    let version = version_notes q.strict (at "protocol_version" fs) in
    let errors =
      expected_type_errors q.message_type detected
      ++ (known_type_errors detected
          ++ (version.errors ++ (envelope ++ (body.errors ++ seal.errors)))) in
    record {
      valid = is_nil errors;
      message_type = detected;
      protocol_version = at "protocol_version" fs;
      schema_valid = is_nil errors;
      seal_valid = seal.passed;
      computed_seal = seal.computed;
      expected_seal = seal.expected;
      errors = errors;
      warnings = version.warnings ++ body.warnings;
    }

unfoldable pub validate_stp_message : Platform → Request → Fields → Result MessageError VerifyResult
validate_stp_message P q fs = do
  envelope ← envelope_errors fs (at "message_type" fs)
  body ← body_notes fs (at "message_type" fs)
  seal ← seal_of P q fs
  ok (message_result q fs envelope body seal)
