-- ===== src/Manifest/Fields.antt =====
-- validators/manifest.py: `_validate_field_type` and `_check_no_floats`.
use specora_verify.Base.{
  ℕ, suc, pos, leb_ℤ, String, str_mem, Bool, true, Option, none, some, List, [], ◌∷◌, ◌++◌,
  if◌then◌else◌,
}
use specora_verify.Platform.{Platform}
use specora_verify.Json.{
  Value, null, int, float, str, arr, obj, Items, nil, cons, Fields, end, field,
}
use specora_verify.Pattern.{uuid_pattern, hex64_pattern, timestamp_pattern}
use specora_verify.Manifest.Contract.{
  FieldType, enum, uuid, hex64, iso8601_utc, integer, integer_or_null, string,
}

-- Where a float was found: the keys and the positions that lead to it.
pub data Step : Type 0 where
  key : String → Step
  index : ℕ → Step

pub data ManifestError : Type 0 where
  not_detected : ManifestError
  unknown_contract : String → String → ManifestError
  missing_fields : List String → ManifestError
  hash_mismatch : String → String → ManifestError
  not_one_of : List String → String → Value → ManifestError
  not_text not_uuid not_hex not_timestamp not_integer not_negative not_integer_or_null :
      String → Value → ManifestError
  float_found : List Step → String → ManifestError

-- A text that passes a test; `other` is the message for what is no text.
abbrev pub text_field :
    (String → Bool)
    → (String → Value → ManifestError)
    → (String → Value → ManifestError)
    → String
    → Value
    → Option ManifestError
text_field p malformed other name (str s) = if p s then none else some (malformed name (str s))
text_field p malformed other name v = some (other name v)

abbrev pub count_field : (String → Value → ManifestError) → String → Value → Option ManifestError
count_field other name (int n) = if leb_ℤ (pos 0) n then none else some (not_negative name (int n))
count_field other name v = some (other name v)

abbrev pub count_or_null_field : String → Value → Option ManifestError
count_or_null_field name null = none
count_or_null_field name v = count_field not_integer_or_null name v

unfoldable pub validate_field_type : Platform → String → Value → FieldType → Option ManifestError
validate_field_type P name v (enum choices) =
    text_field (λ s. str_mem s choices) (not_one_of choices) (not_one_of choices) name v
validate_field_type P name v uuid = text_field uuid_pattern not_uuid not_text name v
validate_field_type P name v hex64 = text_field hex64_pattern not_hex not_text name v
validate_field_type P name v iso8601_utc =
    text_field (timestamp_pattern P) not_timestamp not_text name v
validate_field_type P name v integer = count_field not_integer name v
validate_field_type P name v integer_or_null = count_or_null_field name v
validate_field_type P name v string = text_field (λ _. true) not_text not_text name v

-- The path of the dict comes with its last step first.
unfoldable mutual
  pub check_no_floats : List Step → Fields → List ManifestError
  check_no_floats path end = []
  check_no_floats path (field k v fs) = floats_in (key k ∷ path) v ++ check_no_floats path fs

  pub floats_in : List Step → Value → List ManifestError
  floats_in path (float r) = float_found path r ∷ []
  floats_in path (obj fs) = check_no_floats path fs
  floats_in path (arr vs) = floats_among path 0 vs
  floats_in path v = []

  -- The elements of a list: a list among them is not looked into.
  pub floats_among : List Step → ℕ → Items → List ManifestError
  floats_among path i nil = []
  floats_among path i (cons v vs) = floats_at (index i ∷ path) v ++ floats_among path (suc i) vs

  pub floats_at : List Step → Value → List ManifestError
  floats_at path (float r) = float_found path r ∷ []
  floats_at path (obj fs) = check_no_floats path fs
  floats_at path v = []
