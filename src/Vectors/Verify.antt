-- ===== src/Vectors/Verify.antt =====
-- `verify_single_vector` and `verify_vectors` in validators/vectors.py; validators/anchor.py,
-- validators/receipt.py and validators/stp.py repeat them for their own vectors.
use Prim.Native.String.{◌++◌ as str_append}
use specora_verify.Base.{
  ℕ, suc, String, str_eq, Bool, true, false, ◌&&◌, Option, none, some, List, [], ◌∷◌, ◌++◌, length,
  if◌then◌else◌,
}
use specora_verify.Errors.{Result, ok, encoded, ◌>>=◌}
use specora_verify.Platform.{Platform}
use specora_verify.Json.{Value, null}
use specora_verify.Canonical.{canonical_json_bytes}
use specora_verify.Hash.{sha256_hex}
use specora_verify.Vectors.Directory.{
  JsonFile, absent, malformed, parsed, Directory, bytes_eq, strip,
}

pub data VectorError : Type 0 where
  unparsable vector_missing canonical_missing hash_missing : String → VectorError
  bytes_mismatch : String → String → ℕ → ℕ → VectorError
  hash_mismatch : String → String → String → String → VectorError
  directory_missing : VectorError

pub record VectorResult : Type 0 where
  pub spec_id : String
  pub version : String
  pub bytes_match : Bool
  pub hash_match : Bool
  pub computed_hash : String
  pub expected_hash : String
  pub errors : List VectorError

-- the property `valid`
abbrev pub is_valid : VectorResult → Bool
is_valid r = r.bytes_match && r.hash_match

-- `f"{spec_id}-{version}.json"`, and likewise for the other endings
unfoldable pub file_name : String → String → String → String
file_name spec_id version ending = str_append spec_id (str_append "-" (str_append version ending))

abbrev pub json_errors : String → JsonFile → List VectorError
json_errors name absent = vector_missing name ∷ []
json_errors name malformed = unparsable name ∷ []
json_errors name (parsed v) = []

abbrev pub missing_error {ℓ} : {A : Type ℓ} → VectorError → Option A → List VectorError
missing_error e none = e ∷ []
missing_error e (some a) = []

-- The errors of `_load_vector_files`.
unfoldable pub load_errors :
    String → String → JsonFile → Option (List ℕ) → Option String → List VectorError
load_errors spec_id version j b t =
    json_errors (file_name spec_id version ".json") j
    ++ (missing_error (canonical_missing (file_name spec_id version ".canonical.json")) b
        ++ missing_error (hash_missing (file_name spec_id version ".sha256.txt")) t)

abbrev pub stripped_or_empty : Platform → Option String → String
stripped_or_empty P none = ""
stripped_or_empty P (some t) = strip P t

abbrev pub not_loaded : String → String → String → List VectorError → VectorResult
not_loaded spec_id version expected errors = record {
  spec_id = spec_id;
  version = version;
  bytes_match = false;
  hash_match = false;
  computed_hash = "";
  expected_hash = expected;
  errors = errors;
}

abbrev pub compared : Platform → String → String → List ℕ → List ℕ → String → VectorResult
compared P spec_id version computed expected expected_hash =
    let hash = sha256_hex P computed in
    let bytes_match = bytes_eq computed expected in
    let hash_match = str_eq hash expected_hash in
    record {
      spec_id = spec_id;
      version = version;
      bytes_match = bytes_match;
      hash_match = hash_match;
      computed_hash = hash;
      expected_hash = expected_hash;
      errors =
          (if bytes_match
            then []
            else bytes_mismatch spec_id version (length computed) (length expected) ∷ [])
          ++ (if hash_match then [] else hash_mismatch spec_id version hash expected_hash ∷ []);
    }

abbrev pub is_none : Value → Bool
is_none null = true
is_none v = false

unfoldable pub check_payload :
    Platform → String → String → Value → List ℕ → String → Result VectorError VectorResult
check_payload P spec_id version payload expected expected_hash = do
  computed ← encoded (canonical_json_bytes payload)
  ok (compared P spec_id version computed expected expected_hash)

-- What is found in the files. A file that holds `null` counts as not loaded, with no error.
unfoldable pub check_files :
    Platform
    → String
    → String
    → JsonFile
    → Option (List ℕ)
    → Option String
    → Result VectorError VectorResult
check_files P spec_id version (parsed payload) (some expected) (some text) =
    if is_none payload
    then ok (not_loaded spec_id version (strip P text) [])
    else check_payload P spec_id version payload expected (strip P text)
check_files P spec_id version j b t =
    ok (not_loaded spec_id version (stripped_or_empty P t) (load_errors spec_id version j b t))

unfoldable pub verify_single_vector :
    Platform → Directory → String → String → Result VectorError VectorResult
verify_single_vector P d spec_id version =
    check_files P spec_id version (d.json (file_name spec_id version ".json"))
      (d.bytes (file_name spec_id version ".canonical.json"))
      (d.text (file_name spec_id version ".sha256.txt"))

pub record VectorsResult : Type 0 where
  pub valid : Bool
  pub total : ℕ
  pub passed : ℕ
  pub failed : ℕ
  pub results : List VectorResult
  pub errors : List VectorError

abbrev pub no_vectors : VectorsResult
no_vectors = record { valid = true; total = 0; passed = 0; failed = 0; results = []; errors = [] }

-- One turn of the loop, behind which `rest` is gathered.
abbrev pub count_in : VectorResult → VectorsResult → VectorsResult
count_in r rest = record {
  valid = is_valid r && rest.valid;
  total = suc rest.total;
  passed = if is_valid r then suc rest.passed else rest.passed;
  failed = if is_valid r then rest.failed else suc rest.failed;
  results = r ∷ rest.results;
  errors = (if is_valid r then [] else r.errors) ++ rest.errors;
}

unfoldable pub verify_each :
    Platform → Directory → List (String × String) → Result VectorError VectorsResult
verify_each P d [] = ok no_vectors
verify_each P d ((spec_id, version) ∷ known) = do
  r ← verify_single_vector P d spec_id version
  rest ← verify_each P d known
  ok (count_in r rest)

-- The vectors of a directory, or its absence.
unfoldable pub verify_known :
    Platform → Directory → List (String × String) → Result VectorError VectorsResult
verify_known P d known =
    if d.exists
    then verify_each P d known
    else ok (record no_vectors { valid = false; errors = directory_missing ∷ [] })

abbrev pub manifest_vectors : List (String × String)
manifest_vectors = ("proof-manifest", "1.0.0") ∷ ("attestation-manifest", "1.0.0") ∷ []

abbrev pub anchor_vectors : List (String × String)
anchor_vectors = ("anchor-payload", "1.0.0") ∷ []

abbrev pub receipt_vectors : List (String × String)
receipt_vectors = ("anchor-receipt", "1.0.0") ∷ []

abbrev pub stp_vectors : List (String × String)
stp_vectors =
    ("agent-identity-request", "1.0.0")
    ∷ ("agent-identity-response", "1.0.0")
    ∷ ("execution-authorize-request", "1.0.0")
    ∷ ("execution-authorize-response", "1.0.0")
    ∷ ("execution-record-request", "1.0.0")
    ∷ ("execution-record-response", "1.0.0")
    ∷ ("execution-attest-request", "1.0.0")
    ∷ ("execution-attest-response", "1.0.0")
    ∷ []

unfoldable pub verify_vectors : Platform → Directory → Result VectorError VectorsResult
verify_vectors P d = verify_known P d manifest_vectors

unfoldable pub verify_anchor_vectors : Platform → Directory → Result VectorError VectorsResult
verify_anchor_vectors P d = verify_known P d anchor_vectors

unfoldable pub verify_receipt_vectors : Platform → Directory → Result VectorError VectorsResult
verify_receipt_vectors P d = verify_known P d receipt_vectors

unfoldable pub verify_stp_vectors : Platform → Directory → Result VectorError VectorsResult
verify_stp_vectors P d = verify_known P d stp_vectors
