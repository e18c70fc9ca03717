-- ===== src/External/Anchor.antt =====
-- `validate_external_anchor_schema` and `verify_external_anchor` in validators/external_anchor.py.
use specora_verify.Base.{
  ℕ, pos, eq_ℤ, ◌==◌, String, str_len, str_all, utf8, Bool, true, false, not, ◌&&◌, Option, none,
  some, List, [], ◌∷◌, ◌++◌, length, is_nil, if◌then◌else◌,
}
use specora_verify.Errors.{Result, ok, err, type_error, encoded, ◌>>=◌}
use specora_verify.Platform.{Platform}
use specora_verify.Json.{
  Value, bool, int, float, str, arr, obj, Fields, end, field, get, has_key, to_list,
}
use specora_verify.Checked.{at, is_str}
use specora_verify.Pattern.{is_hex}
use specora_verify.Hash.{compute_manifest_hash}
use specora_verify.Stp.Body.{get_or, keys, is_substring}

pub data AnchorError : Type 0 where
  missing_field bad_hash_format : String → AnchorError
  unsupported_version : Value → AnchorError
  hash_mismatch : String → Value → AnchorError
  signature_failed signature_error : AnchorError
  chain_break : ℕ → Value → Value → Value → AnchorError
  no_anchors : AnchorError

pub data AnchorWarning : Type 0 where
  no_crypto no_key : AnchorWarning

pub record AnchorResult : Type 0 where
  pub valid : Bool
  pub chain_head_index : Value
  pub anchor_hash : Value
  pub previous_anchor_hash : Value
  pub hash_valid : Bool
  pub signature_valid : Bool
  pub schema_valid : Bool
  pub errors : List AnchorError
  pub warnings : List AnchorWarning

abbrev pub genesis_hash : String
genesis_hash = "0000000000000000000000000000000000000000000000000000000000000000"

abbrev pub required_fields : List String
required_fields =
    "schema_version" ∷ "timestamp" ∷ "chain_head_index" ∷ "chain_head_hash" ∷ "chain_head_signature"
    ∷ "chain_head_key_id" ∷ "previous_external_anchor_hash" ∷ "anchor_hash" ∷ "anchor_signature"
    ∷ "anchor_key_id" ∷ []

-- The payload that is hashed; the fields are present.
abbrev pub payload_for_hash : Fields → Fields
payload_for_hash fs = field "schema_version" (get_or "schema_version" (int (pos 1)) fs) (
    field "timestamp" (at "timestamp" fs) (
      field "chain_head_index" (at "chain_head_index" fs) (
        field "chain_head_hash" (at "chain_head_hash" fs) (
          field "chain_head_signature" (at "chain_head_signature" fs) (
            field "chain_head_key_id" (at "chain_head_key_id" fs) (
              field "previous_external_anchor_hash" (at "previous_external_anchor_hash" fs)
                end))))))

abbrev pub missing_errors : Fields → List String → List AnchorError
missing_errors fs [] = []
missing_errors fs (name ∷ names) =
    let rest = missing_errors fs names in
    if has_key name fs then rest else missing_field name ∷ rest

-- `v == 1`
abbrev pub is_version_one : Platform → Value → Bool
is_version_one P (int n) = eq_ℤ n (pos 1)
is_version_one P (bool b) = P.same_number (bool b) (int (pos 1))
is_version_one P (float r) = P.same_number (float r) (int (pos 1))
is_version_one P v = false

-- `all(c in "0123456789abcdef" for c in value)` for what a list or a dict holds
abbrev pub all_digits : List Value → Result AnchorError Bool
all_digits [] = ok true
all_digits (str t ∷ vs) =
    let rest = all_digits vs in if is_substring t "0123456789abcdef" then rest else ok false
all_digits (v ∷ vs) = err type_error

abbrev pub digits_of_length : List Value → Result AnchorError Bool
digits_of_length vs = if length vs == 64 then all_digits vs else ok false

-- `len(value) == 64 and all(...)`; what has no length raises a `TypeError`.
abbrev pub is_hash : Value → Result AnchorError Bool
is_hash (str s) = ok (str_len s == 64 && str_all is_hex s)
is_hash (arr vs) = digits_of_length (to_list vs)
is_hash (obj fs) = digits_of_length (keys fs)
is_hash v = err type_error

abbrev pub hash_field_errors : String → Option Value → Result AnchorError (List AnchorError)
hash_field_errors name none = ok []
hash_field_errors name (some v) = do
  fine ← is_hash v
  ok (if fine then [] else bad_hash_format name ∷ [])

unfoldable pub hash_errors : Fields → Result AnchorError (List AnchorError)
hash_errors fs = do
  head ← hash_field_errors "chain_head_hash" (get "chain_head_hash" fs)
  previous ←
      hash_field_errors "previous_external_anchor_hash" (get "previous_external_anchor_hash" fs)
  own ← hash_field_errors "anchor_hash" (get "anchor_hash" fs)
  ok (head ++ (previous ++ own))

abbrev pub version_errors : Platform → Value → List AnchorError
version_errors P v = if is_version_one P v then [] else unsupported_version v ∷ []

unfoldable pub validate_external_anchor_schema :
    Platform → Fields → Result AnchorError (List AnchorError)
validate_external_anchor_schema P fs = do
  hashes ← hash_errors fs
  ok (missing_errors fs required_fields ++ (version_errors P (at "schema_version" fs) ++ hashes))

abbrev pub schema_failed : Fields → List AnchorError → AnchorResult
schema_failed fs errors = record {
  valid = false;
  chain_head_index = get_or "chain_head_index" (int (pos 0)) fs;
  anchor_hash = get_or "anchor_hash" (str "") fs;
  previous_anchor_hash = get_or "previous_external_anchor_hash" (str "") fs;
  hash_valid = false;
  signature_valid = false;
  schema_valid = false;
  errors = errors;
  warnings = [];
}

-- Whether the signature passed, the errors and the warnings of its check.
pub record SignatureCheck : Type 0 where
  pub passed : Bool
  pub errors : List AnchorError
  pub warnings : List AnchorWarning

abbrev pub signature_raised : SignatureCheck
signature_raised = record { passed = false; errors = signature_error ∷ []; warnings = [] }

-- The signature is over the text of the hash. Whatever raises is an error of the check.
abbrev pub check_texts : Platform → List ℕ → Value → Value → SignatureCheck
check_texts P key (str signature) (str hash) = elim (P.b64decode signature) [
  | none ↦ signature_raised
  | some bytes ↦
      if P.verifies key bytes (utf8 hash)
      then record { passed = true; errors = []; warnings = [] }
      else record { passed = false; errors = signature_failed ∷ []; warnings = [] }
]
check_texts P key signature hash = signature_raised

unfoldable pub check_signature : Platform → Option (List ℕ) → Bool → Fields → SignatureCheck
check_signature P key false fs = record { passed = true; errors = []; warnings = [] }
check_signature P none true fs = record { passed = true; errors = []; warnings = no_key ∷ [] }
check_signature P (some key) true fs =
    if not P.crypto_available
    then record { passed = true; errors = []; warnings = no_crypto ∷ [] }
    else if length key == 32
    then check_texts P key (at "anchor_signature" fs) (at "anchor_hash" fs)
    else signature_raised

-- `v[:16]` in a message: only texts and lists have slices.
abbrev pub sliced : Value → Result AnchorError (Unit {0})
sliced (str s) = ok tt
sliced (arr vs) = ok tt
sliced v = err type_error

abbrev pub compare_hash : String → Value → Result AnchorError (List AnchorError)
compare_hash computed stated =
    let shown = sliced stated in
    if is_str computed stated
    then ok []
    else (do u ← shown; ok (hash_mismatch computed stated ∷ []))

abbrev pub anchor_result : Fields → List AnchorError → SignatureCheck → AnchorResult
anchor_result fs hash check = record {
  valid = is_nil hash && check.passed;
  chain_head_index = get_or "chain_head_index" (int (pos 0)) fs;
  anchor_hash = get_or "anchor_hash" (str "") fs;
  previous_anchor_hash = get_or "previous_external_anchor_hash" (str "") fs;
  hash_valid = is_nil hash;
  signature_valid = check.passed;
  schema_valid = true;
  errors = hash ++ check.errors;
  warnings = check.warnings;
}

unfoldable pub check_content :
    Platform → Option (List ℕ) → Bool → Fields → Result AnchorError AnchorResult
check_content P key verify_signature fs = do
  computed ← encoded (compute_manifest_hash P (obj (payload_for_hash fs)))
  hash ← compare_hash computed (at "anchor_hash" fs)
  ok (anchor_result fs hash (check_signature P key verify_signature fs))

unfoldable pub verify_external_anchor :
    Platform → Option (List ℕ) → Bool → Fields → Result AnchorError AnchorResult
verify_external_anchor P key verify_signature fs = do
  schema ← validate_external_anchor_schema P fs
  if is_nil schema then check_content P key verify_signature fs else ok (schema_failed fs schema)
