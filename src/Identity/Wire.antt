-- ===== src/Identity/Wire.antt =====
-- `validate_bundle_v1_1` and `has_any_agent_identity` in wire_spec.py.
use specora_verify.Base.{
  ℕ, suc, ℤ, String, Bool, true, false, ◌&&◌, Option, none, some, List, [], ◌∷◌, ◌++◌, length,
  if◌then◌else◌, not, any,
}
use specora_verify.Errors.{Result, ok, ◌>>=◌}
use specora_verify.Platform.{Platform}
use specora_verify.Json.{Value, null, arr, obj, Items, nil, cons, has_key, to_list}
use specora_verify.Checked.{at}
use specora_verify.Identity.Certificate.{
  Clock, Reason, IdentityResult, validate_agent_identity_certificate,
}

-- The status of a record, with the reason where it is `invalid`.
pub data Status : Type 0 where
  absent valid : Status
  record_not_object no_issuer_key : Status
  rejected_by_validator : Option Reason → Status

pub record RecordVerdict : Type 0 where
  pub record_index : ℕ
  pub status : Status

abbrev pub is_failure : Status → Bool
is_failure absent = false
is_failure valid = false
is_failure s = true

pub data BundleReason : Type 0 where
  bundle_not_object records_not_array : BundleReason
  record_failed : ℕ → Status → BundleReason

pub record WireResult : Type 0 where
  pub valid : Bool
  pub record_count : ℕ
  pub record_verdicts : List RecordVerdict
  pub reasons : List BundleReason

abbrev pub unusable : BundleReason → WireResult
unusable r = record { valid = false; record_count = 0; record_verdicts = []; reasons = r ∷ [] }

abbrev pub identity_status : IdentityResult → Status
identity_status r = if r.valid then valid else rejected_by_validator r.reason

abbrev pub check_identity : Platform → Clock → Option String → ℤ → Value → Result Reason Status
check_identity P T issuer now null = ok absent
check_identity P T none now identity = ok no_issuer_key
check_identity P T (some key) now identity = do
  r ← validate_agent_identity_certificate P T key now identity
  ok (identity_status r)

unfoldable pub record_status : Platform → Clock → Option String → ℤ → Value → Result Reason Status
record_status P T issuer now (obj fs) = check_identity P T issuer now (at "agent_identity" fs)
record_status P T issuer now v = ok record_not_object

-- What the loop has gathered.
pub record Verdicts : Type 0 where
  pub valid : Bool
  pub verdicts : List RecordVerdict
  pub reasons : List BundleReason

abbrev pub add_verdict : ℕ → Status → Verdicts → Verdicts
add_verdict i s rest = record {
  valid = not (is_failure s) && rest.valid;
  verdicts = record { record_index = i; status = s } ∷ rest.verdicts;
  reasons = (if is_failure s then record_failed i s ∷ [] else []) ++ rest.reasons;
}

unfoldable pub check_records :
    Platform → Clock → Option String → ℤ → ℕ → Items → Result Reason Verdicts
check_records P T issuer now i nil = ok record { valid = true; verdicts = []; reasons = [] }
check_records P T issuer now i (cons v vs) = do
  s ← record_status P T issuer now v
  rest ← check_records P T issuer now (suc i) vs
  ok (add_verdict i s rest)

abbrev pub wire_result : Items → Verdicts → WireResult
wire_result vs w = record {
  valid = w.valid;
  record_count = length (to_list vs);
  record_verdicts = w.verdicts;
  reasons = w.reasons;
}

abbrev pub validate_records :
    Platform → Clock → Option String → ℤ → Value → Result Reason WireResult
validate_records P T issuer now (arr vs) = do
  w ← check_records P T issuer now 0 vs
  ok (wire_result vs w)
validate_records P T issuer now v = ok (unusable records_not_array)

unfoldable pub validate_bundle_v1_1 :
    Platform → Clock → Option String → ℤ → Value → Result Reason WireResult
validate_bundle_v1_1 P T issuer now (obj fs) = validate_records P T issuer now (at "records" fs)
validate_bundle_v1_1 P T issuer now v = ok (unusable bundle_not_object)

abbrev pub carries_identity : Value → Bool
carries_identity (obj fs) = has_key "agent_identity" fs
carries_identity v = false

abbrev pub any_identity : Value → Bool
any_identity (arr vs) = any carries_identity (to_list vs)
any_identity v = false

unfoldable pub has_any_agent_identity : Value → Bool
has_any_agent_identity (obj fs) = any_identity (at "records" fs)
has_any_agent_identity v = false
