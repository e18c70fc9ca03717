-- ===== src/Manifest/Typed.antt =====
-- The values that `_validate_field_type` in validators/manifest.py lets pass.
use specora_verify.Base.{
  ◌≡◌, refl, ◌↔◌, pos, String, str_mem, negsuc, Bool, true, Option, none, some, List, [], ◌∷◌,
  is_nil, is_nil-append, arith,
}
use specora_verify.Platform.{Platform}
use specora_verify.Json.{Value, null, int, str, Fields, get}
use specora_verify.Pattern.{uuid_pattern, hex64_pattern, timestamp_pattern}
use specora_verify.Manifest.Contract.{
  FieldType, enum, uuid, hex64, iso8601_utc, integer, integer_or_null, string,
}
use specora_verify.Manifest.Fields.{
  ManifestError, text_field, count_field, count_or_null_field, not_one_of, not_integer_or_null,
  not_uuid, not_hex, not_timestamp, not_text, not_integer, validate_field_type,
}
use specora_verify.Manifest.Validate.{found, field_error, field_errors}

abbrev pub IsText : (String → Bool) → Value → Type 0
IsText p (str s) = p s ≡ true
IsText p v = ⊥

-- A natural number; a Boolean is none.
abbrev pub IsCount : Value → Type 0
IsCount (int (pos n)) = Unit
IsCount v = ⊥

abbrev pub IsCountOrNull : Value → Type 0
IsCountOrNull null = Unit
IsCountOrNull v = IsCount v

-- The values of a field's type.
abbrev pub HasType : Platform → FieldType → Value → Type 0
HasType P (enum choices) v = IsText (λ s. str_mem s choices) v
HasType P uuid v = IsText uuid_pattern v
HasType P hex64 v = IsText hex64_pattern v
HasType P iso8601_utc v = IsText (timestamp_pattern P) v
HasType P integer v = IsCount v
HasType P integer_or_null v = IsCountOrNull v
HasType P string v = IsText (λ _. true) v

abbrev Passes : Option ManifestError → Type 0
Passes e = is_nil (found e) ≡ true

text_field_iff :
    (p : String → Bool) (malformed other : String → Value → ManifestError) (name : String)
    (v : Value)
    → Passes (text_field p malformed other name v) ↔ IsText p v
text_field_iff p malformed other name (str s) = (λ h. ground (arith, h), λ h. ground (arith, h))
text_field_iff p malformed other name v = (λ h. absurd (cc), λ h. absurd h)

count_field_iff :
    (other : String → Value → ManifestError) (name : String) (v : Value)
    → Passes (count_field other name v) ↔ IsCount v
count_field_iff other name (int (pos n)) = (λ h. tt, λ h. ground arith)
count_field_iff other name (int (negsuc n)) = (λ h. absurd (ground (arith, h)), λ h. absurd h)
count_field_iff other name v = (λ h. absurd (cc), λ h. absurd h)

count_or_null_field_iff :
    (name : String) (v : Value) → Passes (count_or_null_field name v) ↔ IsCountOrNull v
count_or_null_field_iff name null = (λ h. tt, λ h. refl)
count_or_null_field_iff name v = count_field_iff not_integer_or_null name v

validate_field_type_iff :
    (P : Platform) (name : String) (v : Value) (t : FieldType)
    → Passes (validate_field_type P name v t) ↔ HasType P t v
unfolding validate_field_type
validate_field_type_iff P name v (enum choices) =
    text_field_iff (λ s. str_mem s choices) (not_one_of choices) (not_one_of choices) name v
validate_field_type_iff P name v uuid = text_field_iff uuid_pattern not_uuid not_text name v
validate_field_type_iff P name v hex64 = text_field_iff hex64_pattern not_hex not_text name v
validate_field_type_iff P name v iso8601_utc =
    text_field_iff (timestamp_pattern P) not_timestamp not_text name v
validate_field_type_iff P name v integer = count_field_iff not_integer name v
validate_field_type_iff P name v integer_or_null = count_or_null_field_iff name v
validate_field_type_iff P name v string = text_field_iff (λ _. true) not_text not_text name v

-- A field that is present has a value of its type.
abbrev pub IsField : Platform → FieldType → Option Value → Type 0
IsField P t none = Unit
IsField P t (some v) = HasType P t v

present_iff :
    (P : Platform) (name : String) (t : FieldType) (v : Option Value)
    → (is_nil (elim v [ none ↦ [] | some w ↦ found (validate_field_type P name w t) ]) ≡ true)
      ↔ IsField P t v
present_iff P name t none = (λ h. tt, λ h. refl)
present_iff P name t (some v) = validate_field_type_iff P name v t

-- A manifest's fields have the types that are declared for them.
abbrev pub AllTyped : Platform → Fields → List (String × FieldType) → Type 0
AllTyped P payload [] = Unit
AllTyped P payload ((name, t) ∷ rest) = IsField P t (get name payload) × AllTyped P payload rest

pub field_errors_iff :
    (P : Platform) (payload : Fields) (types : List (String × FieldType))
    → (is_nil (field_errors P payload types) ≡ true) ↔ AllTyped P payload types
unfolding field_errors
field_errors_iff P payload [] = (λ h. tt, λ h. refl)
field_errors_iff P payload ((name, t) ∷ rest) =
    let here = present_iff P name t (get name payload) in
    let later = field_errors_iff P payload rest in
    let split = is_nil-append (field_error P payload name t) (field_errors P payload rest) in
    (
      λ h. (here.0 (ground (arith, split, h)), later.0 (ground (arith, split, h))),
      λ (a, b). rw (split, here.1 a, later.1 b),
    )
