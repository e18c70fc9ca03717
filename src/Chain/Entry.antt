-- ===== src/Chain/Entry.antt =====
-- One entry of the transparency log in validators/chain.py whose documented fields have their types:
-- the payload that is hashed, and the checks of its schema, index, link, hash and signature. Values
-- of other types, and the further fields of a dict, are in Chain/Dict.
use specora_verify.Base.{
  ℕ, zero, suc, ℤ, pos, eq_ℤ, String, str_eq, str_mem, str_len, str_truthy, Bool, true, false, ◌&&◌,
  not, ◌==◌, Option, none, some, List, [], ◌∷◌, ◌++◌, if◌then◌else◌,
}
use specora_verify.Errors.{Result, ok, err, verification, ◌>>=◌, fetch, encoded}
use specora_verify.Json.{Value, int, str, obj, end, field}
use specora_verify.Canonical.{canonical_json_bytes}
use specora_verify.Hash.{sha256_hex}
use specora_verify.Signature.{SignatureError, SignatureResult, auto, verify_signature}
use specora_verify.Platform.{Platform}

-- An entry by its documented fields, each of its documented type, or missing.
pub record Entry : Type 0 where
  pub index : Option ℤ
  pub artifact_type : Option String
  pub artifact_sha256 : Option String
  pub previous_entry_hash : Option String
  pub entry_hash : Option String
  pub signature_b64 : Option String
  pub public_key_id : Option String
  pub created_at : Option String

-- The messages, with the values that they show. `expected` and `got` stand for their first 16
-- characters.
pub data ChainError : Type 0 where
  missing_field : Value → String → ChainError
  hash_not_64 : Value → String → ChainError
  bad_artifact_type : Value → Value → ChainError
  unexpected_index : ℕ → Value → ChainError
  bad_genesis : ChainError
  link_mismatch : Value → Value → Value → ChainError
  hash_mismatch : Value → String → Value → ChainError
  bad_signature : Value → Option SignatureError → ChainError
  empty_chain : ChainError

pub record EntryVerification : Type 0 where
  pub index : Value
  pub entry_hash : Value
  pub valid : Bool
  pub hash_valid : Bool
  pub link_valid : Bool
  pub signature_valid : Bool
  pub errors : List ChainError

pub record ChainResult : Type 0 where
  pub valid : Bool
  pub total_entries : ℕ
  pub verified_count : ℕ
  pub start_index : Value
  pub end_index : Value
  pub first_entry_hash : Option Value
  pub last_entry_hash : Option Value
  pub errors : List ChainError
  pub entry_results : List EntryVerification

abbrev pub or_else {ℓ} : {A : Type ℓ} → A → Option A → A
or_else d none = d
or_else d (some a) = a

abbrev pub genesis_previous_hash : String
genesis_previous_hash = "0000000000000000000000000000000000000000000000000000000000000000"

-- `_build_canonical_payload`
abbrev pub payload_of : ℤ → String → String → String → String → String → Value
payload_of index artifact_type artifact_sha256 previous key_id created_at = obj (
    field "schema_version" (int (pos 1)) (
      field "index" (int index) (
        field "artifact_type" (str artifact_type) (
          field "artifact_sha256" (str artifact_sha256) (
            field "previous_entry_hash" (str previous)
              (field "public_key_id" (str key_id) (field "created_at" (str created_at) end)))))))

unfoldable pub build_canonical_payload : Entry → Result ChainError Value
build_canonical_payload e = do
  index ← fetch e.index
  artifact_type ← fetch e.artifact_type
  artifact_sha256 ← fetch e.artifact_sha256
  previous ← fetch e.previous_entry_hash
  key_id ← fetch e.public_key_id
  created_at ← fetch e.created_at
  ok (payload_of index artifact_type artifact_sha256 previous key_id created_at)

unfoldable pub compute_entry_hash : Platform → Entry → Result ChainError String
unfolding build_canonical_payload sha256_hex
compute_entry_hash P e = do
  payload ← build_canonical_payload e
  bytes ← encoded (canonical_json_bytes payload)
  ok (sha256_hex P bytes)

abbrev missing : ℤ → String → Bool → List ChainError
missing i name present = if present then [] else missing_field (int i) name ∷ []

abbrev pub is_some {ℓ} : {A : Type ℓ} → Option A → Bool
is_some none = false
is_some (some a) = true

abbrev pub hash_length : ℤ → String → Option String → List ChainError
hash_length i name none = []
hash_length i name (some h) = if str_len h == 64 then [] else hash_not_64 (int i) name ∷ []

abbrev pub valid_types : List String
valid_types = "attestation" ∷ "bundle" ∷ "erk" ∷ "scorecard" ∷ []

abbrev pub artifact_type_error : ℤ → Option String → List ChainError
artifact_type_error i none = []
artifact_type_error i (some t) =
    if str_mem t valid_types then [] else bad_artifact_type (int i) (str t) ∷ []

unfoldable pub validate_entry_schema : Entry → ℤ → List ChainError
validate_entry_schema e i =
    missing i "index" (is_some e.index)
    ++ (missing i "artifact_type" (is_some e.artifact_type)
        ++ (missing i "artifact_sha256" (is_some e.artifact_sha256)
            ++ (missing i "previous_entry_hash" (is_some e.previous_entry_hash)
                ++ (missing i "entry_hash" (is_some e.entry_hash)
                    ++ (missing i "signature_b64" (is_some e.signature_b64)
                        ++ (missing i "public_key_id" (is_some e.public_key_id)
                            ++ (missing i "created_at" (is_some e.created_at)
                                ++ (hash_length i "entry_hash" e.entry_hash
                                    ++ (hash_length i "previous_entry_hash" e.previous_entry_hash
                                        ++ (hash_length i "artifact_sha256" e.artifact_sha256
                                            ++ artifact_type_error i e.artifact_type))))))))))

abbrev first_error : List SignatureError → Option SignatureError
first_error [] = none
first_error (e ∷ es) = some e

-- `_verify_signature`: what is raised counts as a failed check.
abbrev signature_outcome : Result SignatureError SignatureResult → Bool × Option SignatureError
signature_outcome (ok r) = (r.valid, first_error r.errors)
signature_outcome (err (verification e)) = (false, some e)
signature_outcome (err e) = (false, none)

unfoldable pub check_signature : Platform → String → String → String → Bool × Option SignatureError
check_signature P hash signature public_key =
    if P.crypto_available
    then signature_outcome (verify_signature P hash signature public_key auto)
    else (true, none)

-- An optional text is this one.
abbrev pub is_text : String → Option String → Bool
is_text t none = false
is_text t (some u) = str_eq u t

abbrev pub index_errors : ℕ → ℤ → List ChainError
index_errors i index = if eq_ℤ index (pos i) then [] else unexpected_index i (int index) ∷ []

-- The link to the previous entry; it is not checked behind an entry without a hash.
abbrev pub link_errors : ℕ → ℤ → Option String → Option String → List ChainError
link_errors zero index previous_hash link =
    if is_text genesis_previous_hash link then [] else bad_genesis ∷ []
link_errors (suc i) index none link = []
link_errors (suc i) index (some h) link =
    if str_truthy h && not (is_text h link)
    then link_mismatch (int index) (str h) (str (or_else "" link)) ∷ []
    else []

unfoldable pub hash_errors : Platform → Entry → ℤ → Result ChainError (List ChainError)
unfolding compute_entry_hash
hash_errors P e index = do
  computed ← compute_entry_hash P e
  ok (
      if is_text computed e.entry_hash
      then []
      else hash_mismatch (int index) computed (str (or_else "" e.entry_hash)) ∷ [])

abbrev pub signature_errors : ℤ → Bool × Option SignatureError → List ChainError
signature_errors index (true, e) = []
signature_errors index (false, e) = bad_signature (int index) e ∷ []

-- Whether signatures are to be checked, and by which key.
abbrev pub signing_key : Bool → Option String → Option String
signing_key verify_signatures none = none
signing_key verify_signatures (some key) =
    if verify_signatures && str_truthy key then some key else none

unfoldable pub check_entry_signature : Platform → Option String → Entry → ℤ → List ChainError
unfolding check_signature
check_entry_signature P none e index = []
check_entry_signature P (some key) e index =
    signature_errors index
      (check_signature P (or_else "" e.entry_hash) (or_else "" e.signature_b64) key)
