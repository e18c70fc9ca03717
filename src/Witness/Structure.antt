-- ===== src/Witness/Structure.antt =====
-- The structural checks of `validate_witness_statement` in validators/witness.py.
use specora_verify.Base.{
  pos, leb_ℤ, String, str_eq, str_mem, str_truthy, Bool, true, false, not, ◌&&◌, Option, none, some,
  List, [], ◌∷◌, joined, if◌then◌else◌,
}
use specora_verify.Errors.{Result, ok, err, type_error, ◌>>=◌}
use specora_verify.Platform.{Platform}
use specora_verify.Checked.{at, is_str, truthy}
use specora_verify.Json.{Value, bool, int, str, arr, obj, Items, nil, cons, Fields}
use specora_verify.Signature.{SignatureError}
use specora_verify.Pattern.{hex64_pattern, key_id_pattern, statement_id_pattern, timestamp_pattern}
use specora_verify.Witness.Entry.{WitnessStatus}

-- The messages of a statement's errors and warnings.
pub data StatementError : Type 0 where
  missing_fields : List String → StatementError
  bad_spec_id bad_statement_id : Value → StatementError
  bad_time : String → Value → StatementError
  bad_anchor_hash bad_anchor_index : Value → StatementError
  surfaces_empty surfaces_unknown : StatementError
  bad_result bad_key_id : Value → StatementError
  anchor_mismatch : String → String → StatementError
  not_registered : Value → Value → StatementError
  witness_revoked : Value → Value → StatementError
  bad_signature : List SignatureError → StatementError
  signature_raised : StatementError

pub data StatementWarning : Type 0 where
  unknown_schema : Value → StatementWarning
  witness_suspended : Value → StatementWarning
  no_registry no_crypto skipped_by_request : StatementWarning

pub record StatementResult : Type 0 where
  pub valid : Bool
  pub witness_org_id : Value
  pub verification_result : Value
  pub anchor_hash : Value
  pub anchor_index : Value
  pub signature_valid : Bool
  pub witness_status : Option WitnessStatus
  pub errors : List StatementError
  pub warnings : List StatementWarning

-- `STATEMENT_REQUIRED_FIELDS`, sorted
abbrev pub required_fields : List String
required_fields =
    "anchor_hash" ∷ "anchor_index" ∷ "schema_version" ∷ "spec_id" ∷ "timestamp"
    ∷ "verification_result" ∷ "verification_timestamp" ∷ "verified_surfaces" ∷ "witness_org_id"
    ∷ "witness_public_key_id" ∷ "witness_signature" ∷ "witness_statement_id" ∷ []

abbrev pub or_unknown : Option Value → Value
or_unknown none = str "unknown"
or_unknown (some v) = v

-- `PATTERN.match(v)`, which raises unless `v` is a text
unfoldable pub match_text : (String → Bool) → Value → Result StatementError Bool
match_text p (str s) = ok (p s)
match_text p v = err type_error

abbrev pub unless : Bool → StatementError → List StatementError
unless passed e = if passed then [] else e ∷ []

-- `isinstance(v, int) and v >= 0`
abbrev pub is_index : Value → Bool
is_index (int n) = leb_ℤ (pos 0) n
is_index (bool b) = true
is_index v = false

-- `v in names` for a set of texts
unfoldable pub in_set : List String → Value → Result StatementError Bool
in_set names (str s) = ok (str_mem s names)
in_set names (arr vs) = err type_error
in_set names (obj fs) = err type_error
in_set names v = ok false

abbrev pub valid_surfaces : List String
valid_surfaces = "github_release" ∷ "s3_versioned" ∷ "dns_txt" ∷ "local_file" ∷ []

abbrev pub valid_results : List String
valid_results = "pass" ∷ "warn" ∷ "fail" ∷ []

-- Whether `set(vs) - VALID_SURFACES` is empty. A value that is not a text raises: a list or a dict
-- has no hash, and any other is unknown, and then `join` takes texts only.
abbrev pub surface_known : Value → Result StatementError Bool
surface_known (str s) = ok (str_mem s valid_surfaces)
surface_known v = err type_error

unfoldable pub surfaces_known : Items → Result StatementError Bool
surfaces_known nil = ok true
surfaces_known (cons v vs) = do
  known ← surface_known v
  rest ← surfaces_known vs
  ok (known && rest)

unfoldable pub surface_errors : Value → Result StatementError (List StatementError)
surface_errors (arr (cons v vs)) = do
  known ← surfaces_known (cons v vs)
  ok (unless known surfaces_unknown)
surface_errors v = ok (surfaces_empty ∷ [])

unfoldable pub anchor_hash_errors : Value → Result StatementError (List StatementError)
anchor_hash_errors v =
    if truthy v
    then (do matched ← match_text hex64_pattern v; ok (unless matched (bad_anchor_hash v)))
    else ok (bad_anchor_hash v ∷ [])

-- INV-ANCHOR-014; a hash that is not a text has raised before.
unfoldable pub mismatch_errors : Option String → Value → List StatementError
mismatch_errors (some expected) (str h) =
    if str_truthy expected && str_truthy h && not (str_eq h expected)
    then anchor_mismatch h expected ∷ []
    else []
mismatch_errors expected v = []

-- The outcomes of the checks that may raise.
pub record Checks : Type 0 where
  pub id_ok : Bool
  pub time_ok : Bool
  pub verified_ok : Bool
  pub anchor_errors : List StatementError
  pub surfaces : List StatementError
  pub outcome_ok : Bool
  pub key_ok : Bool

unfoldable pub read_checks : Platform → Fields → Result StatementError Checks
read_checks P fs = do
  id_ok ← match_text statement_id_pattern (at "witness_statement_id" fs)
  time_ok ← match_text (timestamp_pattern P) (at "timestamp" fs)
  verified_ok ← match_text (timestamp_pattern P) (at "verification_timestamp" fs)
  anchor_errors ← anchor_hash_errors (at "anchor_hash" fs)
  surfaces ← surface_errors (at "verified_surfaces" fs)
  outcome_ok ← in_set valid_results (at "verification_result" fs)
  key_ok ← match_text (key_id_pattern b'w') (at "witness_public_key_id" fs)
  ok record {
    id_ok = id_ok;
    time_ok = time_ok;
    verified_ok = verified_ok;
    anchor_errors = anchor_errors;
    surfaces = surfaces;
    outcome_ok = outcome_ok;
    key_ok = key_ok;
  }

-- The errors in the order of the checks.
abbrev pub error_groups : Option String → Fields → Checks → List (List StatementError)
error_groups expected fs c =
    unless (is_str "witness-statement" (at "spec_id" fs)) (bad_spec_id (at "spec_id" fs))
    ∷ unless c.id_ok (bad_statement_id (at "witness_statement_id" fs))
    ∷ unless c.time_ok (bad_time "timestamp" (at "timestamp" fs))
    ∷ unless c.verified_ok (bad_time "verification_timestamp" (at "verification_timestamp" fs))
    ∷ c.anchor_errors
    ∷ unless (is_index (at "anchor_index" fs)) (bad_anchor_index (at "anchor_index" fs))
    ∷ c.surfaces
    ∷ unless c.outcome_ok (bad_result (at "verification_result" fs))
    ∷ unless c.key_ok (bad_key_id (at "witness_public_key_id" fs))
    ∷ mismatch_errors expected (at "anchor_hash" fs)
    ∷ []

-- The checks between the required fields and the registry.
unfoldable pub structure_errors :
    Platform → Option String → Fields → Result StatementError (List StatementError)
structure_errors P expected fs = do c ← read_checks P fs; ok (joined (error_groups expected fs c))

abbrev pub schema_warnings : Fields → List StatementWarning
schema_warnings fs =
    if is_str "1.0.0" (at "schema_version" fs)
    then []
    else unknown_schema (at "schema_version" fs) ∷ []
