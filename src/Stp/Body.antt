-- ===== src/Stp/Body.antt =====
-- What Python's `in` and `for` do with JSON values in validators/stp.py, and
-- `_validate_payload_values`.
use specora_verify.Base.{
  String, str_eq, str_mem, Bool, true, false, not, ◌&&◌, ◌||◌, Option, none, some, List, [], ◌∷◌,
  ◌++◌, if◌then◌else◌, any, code, ◌==◌,
}
use specora_verify.Errors.{Result, ok, err, type_error, attribute_error, ◌>>=◌}
use specora_verify.Json.{Value, str, arr, obj, nil, Fields, end, field, get, has_key, to_list}
use specora_verify.Checked.{at, truthy, is_str}
use specora_verify.Stp.Contracts.{
  stp_runtime_types, stp_capabilities, stp_action_types, stp_execution_statuses,
}

pub data MessageError : Type 0 where
  type_mismatch : String → Value → MessageError
  unknown_type : Value → MessageError
  version_mismatch : Value → MessageError
  missing_field missing_payload_field missing_result_field : String → MessageError
  invalid_status unknown_runtime unknown_capability unknown_action : Value → MessageError
  seal_mismatch : String → String → MessageError

-- `v in names` for a list of texts
abbrev pub in_list : List String → Value → Bool
in_list names (str s) = str_mem s names
in_list names v = false

-- `d[v]`, and `v in d`, for a dict whose keys are texts: a list or a dict has no hash.
abbrev pub entry_of : String → List (String × List String) → Option (List String)
entry_of s [] = none
entry_of s ((k, names) ∷ rest) = if str_eq k s then some names else entry_of s rest

abbrev pub looked_up :
    Value → List (String × List String) → Result MessageError (Option (List String))
looked_up (str s) table = ok (entry_of s table)
looked_up (arr vs) table = err type_error
looked_up (obj fs) table = err type_error
looked_up v table = ok none

-- `t in s` for texts
abbrev pub is_prefix : String → String → Bool
is_prefix String.[] s = true
is_prefix (String.◌∷◌ c t) String.[] = false
is_prefix (String.◌∷◌ c t) (String.◌∷◌ d s) = code c == code d && is_prefix t s

abbrev pub is_substring : String → String → Bool
is_substring t String.[] = is_prefix t String.[]
is_substring t (String.◌∷◌ c s) = is_prefix t (String.◌∷◌ c s) || is_substring t s

-- `name in data`: a key of a dict, an element of a list, a part of a text.
abbrev pub contains : String → Value → Result MessageError Bool
contains name (obj fs) = ok (has_key name fs)
contains name (arr vs) = ok (any (is_str name) (to_list vs))
contains name (str s) = ok (is_substring name s)
contains name v = err type_error

-- The required names that are not in the data.
unfoldable pub absent_from :
    (String → MessageError) → Value → List String → Result MessageError (List MessageError)
absent_from e data_value [] = ok []
absent_from e data_value (name ∷ names) = do
  here ← contains name data_value
  rest ← absent_from e data_value names
  ok (if here then rest else e name ∷ rest)

-- `if v and v not in names: ...`
abbrev pub unless_known : List String → (Value → MessageError) → Value → List MessageError
unless_known names e v = if truthy v && not (in_list names v) then e v ∷ [] else []

abbrev pub characters : String → List Value
characters String.[] = []
characters (String.◌∷◌ c s) = str (String.◌∷◌ c String.[]) ∷ characters s

abbrev pub keys : Fields → List Value
keys end = []
keys (field k v fs) = str k ∷ keys fs

-- What `for v in data` goes through.
abbrev pub elements : Value → Result MessageError (List Value)
elements (arr vs) = ok (to_list vs)
elements (str s) = ok (characters s)
elements (obj fs) = ok (keys fs)
elements v = err type_error

abbrev pub unknown_capabilities : List Value → List MessageError
unknown_capabilities [] = []
unknown_capabilities (v ∷ vs) =
    let rest = unknown_capabilities vs in
    if in_list stp_capabilities v then rest else unknown_capability v ∷ rest

-- Errors and warnings.
pub record Notes : Type 0 where
  pub errors : List MessageError
  pub warnings : List MessageError

abbrev pub no_notes : Notes
no_notes = record { errors = []; warnings = [] }

abbrev pub get_or : String → Value → Fields → Value
get_or key default fs = elim (get key fs) [ none ↦ default | some v ↦ v ]

abbrev pub identity_notes : Fields → Result MessageError Notes
identity_notes fs = do
  capabilities ← elements (get_or "capabilities_requested" (arr nil) fs)
  ok record {
    errors = [];
    warnings =
        unless_known stp_runtime_types unknown_runtime (at "runtime" fs)
        ++ unknown_capabilities capabilities;
  }

-- `payload.get` of what is no dict raises an `AttributeError`.
unfoldable pub validate_payload_values : String → Value → Result MessageError Notes
validate_payload_values message_type (obj fs) =
    if str_eq message_type "agent.identity"
    then identity_notes fs
    else if str_eq message_type "execution.authorize"
    then ok record {
      errors = [];
      warnings = unless_known stp_action_types unknown_action (at "action_type" fs);
    }
    else if str_eq message_type "execution.record"
    then ok record {
      errors = unless_known stp_execution_statuses invalid_status (at "status" fs);
      warnings = [];
    }
    else ok no_notes
validate_payload_values message_type v =
    if str_mem message_type ("agent.identity" ∷ "execution.authorize" ∷ "execution.record" ∷ [])
    then err attribute_error
    else ok no_notes
