-- ===== src/Chain/Dict.antt =====
-- One entry of the transparency log in validators/chain.py as the code reads it: a dict, whose values
-- may be of any type, and where `len`, `int`, `[:16]` and the membership in a set may raise.
use specora_verify.Base.{
  ℕ, zero, suc, ℤ, pos, ◌==◌, String, str_mem, str_len, Bool, true, false, ◌&&◌, not, Option, none,
  some, List, [], ◌∷◌, ◌++◌, is_nil, length, if◌then◌else◌,
}
use specora_verify.Errors.{Result, ok, err, type_error, ◌>>=◌, fetch, encoded}
use specora_verify.Platform.{Platform}
use specora_verify.Json.{Value, int, str, arr, obj, Fields, end, field, get, to_list}
use specora_verify.Checked.{or_null, is_str, truthy}
use specora_verify.Canonical.{canonical_json_bytes}
use specora_verify.Hash.{sha256_hex}
use specora_verify.Signature.{SignatureError}
use specora_verify.Stp.Simulate.{value_eq, field_count}
use specora_verify.Chain.Entry.{
  ChainError, missing_field, hash_not_64, bad_artifact_type, unexpected_index, bad_genesis,
  link_mismatch, hash_mismatch, bad_signature, EntryVerification, or_else, is_some, valid_types,
  genesis_previous_hash, check_signature,
}

-- What Python does with values that are not integers: `<`, and `int`.
pub record Dynamic : Type 0 where
  pub less : Value → Value → Result ChainError Bool
  pub integer : Value → Result ChainError ℤ

-- `int(v)`
abbrev pub integer_of : Dynamic → Value → Result ChainError ℤ
integer_of D (int n) = ok n
integer_of D v = D.integer v

abbrev pub payload_values : ℤ → Value → Value → Value → Value → Value → Value
payload_values index artifact_type artifact_sha256 previous key_id created_at = obj (
    field "schema_version" (int (pos 1)) (
      field "index" (int index) (
        field "artifact_type" artifact_type (
          field "artifact_sha256" artifact_sha256 (
            field "previous_entry_hash" previous
              (field "public_key_id" key_id (field "created_at" created_at end)))))))

unfoldable pub dict_payload : Dynamic → Fields → Result ChainError Value
dict_payload D fs = do
  index_value ← fetch (get "index" fs)
  index ← integer_of D index_value
  artifact_type ← fetch (get "artifact_type" fs)
  artifact_sha256 ← fetch (get "artifact_sha256" fs)
  previous ← fetch (get "previous_entry_hash" fs)
  key_id ← fetch (get "public_key_id" fs)
  created_at ← fetch (get "created_at" fs)
  ok (payload_values index artifact_type artifact_sha256 previous key_id created_at)

unfoldable pub dict_hash : Platform → Dynamic → Fields → Result ChainError String
dict_hash P D fs = do
  payload ← dict_payload D fs
  bytes ← encoded (canonical_json_bytes payload)
  ok (sha256_hex P bytes)

-- `len(v)`
abbrev pub length_of : Value → Result ChainError ℕ
length_of (str s) = ok (str_len s)
length_of (arr vs) = ok (length (to_list vs))
length_of (obj fs) = ok (field_count fs)
length_of v = err type_error

abbrev pub length_errors : Value → String → Option Value → Result ChainError (List ChainError)
length_errors i name none = ok []
length_errors i name (some v) = do
  n ← length_of v
  ok (if n == 64 then [] else hash_not_64 i name ∷ [])

-- `v not in valid_types`: a list or a dict has no hash.
abbrev pub type_errors : Value → Option Value → Result ChainError (List ChainError)
type_errors i none = ok []
type_errors i (some (str t)) =
    ok (if str_mem t valid_types then [] else bad_artifact_type i (str t) ∷ [])
type_errors i (some (arr vs)) = err type_error
type_errors i (some (obj fs)) = err type_error
type_errors i (some v) = ok (bad_artifact_type i v ∷ [])

abbrev pub absent : Value → String → Fields → List ChainError
absent i name fs = if is_some (get name fs) then [] else missing_field i name ∷ []

abbrev pub absent_errors : Value → Fields → List String → List ChainError → List ChainError
absent_errors i fs [] others = others
absent_errors i fs (name ∷ names) others = absent i name fs ++ absent_errors i fs names others

abbrev pub required_names : List String
required_names =
    "index" ∷ "artifact_type" ∷ "artifact_sha256" ∷ "previous_entry_hash" ∷ "entry_hash"
    ∷ "signature_b64" ∷ "public_key_id" ∷ "created_at" ∷ []

unfoldable pub dict_schema : Fields → Value → Result ChainError (List ChainError)
dict_schema fs i = do
  own ← length_errors i "entry_hash" (get "entry_hash" fs)
  previous ← length_errors i "previous_entry_hash" (get "previous_entry_hash" fs)
  content ← length_errors i "artifact_sha256" (get "artifact_sha256" fs)
  known ← type_errors i (get "artifact_type" fs)
  ok (absent_errors i fs required_names (own ++ (previous ++ (content ++ known))))

-- `entry_index != i`
abbrev pub gap_errors : Platform → ℕ → Value → List ChainError
gap_errors P i index = if value_eq P index (int (pos i)) then [] else unexpected_index i index ∷ []

-- `v[:16]` in a message: only texts and lists have slices.
abbrev pub slices : Value → Result ChainError (Unit {0})
slices (str s) = ok tt
slices (arr vs) = ok tt
slices v = err type_error

abbrev pub broken_link : Value → Value → Value → Result ChainError (List ChainError)
broken_link index previous got = do
  a ← slices previous
  b ← slices got
  ok (link_mismatch index previous got ∷ [])

unfoldable pub dict_link :
    Platform → ℕ → Value → Option Value → Option Value → Result ChainError (List ChainError)
dict_link P zero index previous link =
    ok (if is_str genesis_previous_hash (or_null link) then [] else bad_genesis ∷ [])
dict_link P (suc i) index previous link =
    let broken = broken_link index (or_null previous) (or_else (str "") link) in
    if truthy (or_null previous) && not (value_eq P (or_null link) (or_null previous))
    then broken
    else ok []

abbrev pub compare_stored : Value → String → Option Value → Result ChainError (List ChainError)
compare_stored index computed stored =
    let shown = slices (or_else (str "") stored) in
    if is_str computed (or_null stored)
    then ok []
    else (do u ← shown; ok (hash_mismatch index computed (or_else (str "") stored) ∷ []))

unfoldable pub dict_hash_errors :
    Platform → Dynamic → Fields → Value → Result ChainError (List ChainError)
dict_hash_errors P D fs index = do
  computed ← dict_hash P D fs
  compare_stored index computed (get "entry_hash" fs)

-- What is not a text fails the signature check, whichever step of it raises or refuses.
abbrev pub signature_of_values : Platform → Value → Value → String → Bool × Option SignatureError
signature_of_values P (str hash) (str signature) key = check_signature P hash signature key
signature_of_values P hash signature key = (not P.crypto_available, none)

abbrev pub failed_signature : Value → Bool × Option SignatureError → List ChainError
failed_signature index (true, e) = []
failed_signature index (false, e) = bad_signature index e ∷ []

unfoldable pub dict_signature : Platform → Option String → Fields → Value → List ChainError
dict_signature P none fs index = []
dict_signature P (some key) fs index = failed_signature index (
    signature_of_values P (or_else (str "") (get "entry_hash" fs))
      (or_else (str "") (get "signature_b64" fs)) key)

-- One round of the loop.
unfoldable pub check_dict :
    Platform
    → Dynamic
    → Option String
    → ℕ
    → Option Value
    → Fields
    → Result ChainError (Bool × EntryVerification)
check_dict P D key i previous fs = do
  let index = or_else (int (pos i)) (get "index" fs)
  schema ← dict_schema fs index
  let gap = gap_errors P i index
  link ← dict_link P i index previous (get "previous_entry_hash" fs)
  hash ← (if is_nil schema then dict_hash_errors P D fs index else ok [])
  let signature = if is_nil schema then dict_signature P key fs index else []
  ok (
    is_nil schema && is_nil gap && is_nil link && is_nil hash && is_nil signature,
    record {
      index = index;
      entry_hash = or_else (str "") (get "entry_hash" fs);
      valid = is_nil hash && is_nil link && is_nil signature && is_nil schema;
      hash_valid = is_nil hash;
      link_valid = is_nil link;
      signature_valid = is_nil signature;
      errors = schema ++ (gap ++ (link ++ (hash ++ signature)));
    },
  )
