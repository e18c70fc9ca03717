-- ===== src/Witness/Statement.antt =====
-- `validate_witness_statement` in validators/witness.py.
use specora_verify.Base.{
  ℕ, String, Bool, true, false, not, Option, none, some, List, [], ◌∷◌, ◌++◌, is_nil, if◌then◌else◌,
}
use specora_verify.Errors.{Result, ok, err, ◌>>=◌}
use specora_verify.Platform.{Platform}
use specora_verify.Checked.{at, missing_from, text_of}
use specora_verify.Json.{Value, str, obj, Fields, get, drop_key}
use specora_verify.Canonical.{canonical_json_bytes}
use specora_verify.Hash.{sha256_hex}
use specora_verify.Signature.{SignatureError, SignatureResult, base64, verify_decoded}
use specora_verify.Witness.Entry.{
  WitnessStatus, active, suspended, revoked, WitnessEntry, WitnessRegistry, lookup,
}
use specora_verify.Witness.Structure.{
  StatementError, StatementResult, StatementWarning, bad_signature, missing_fields, no_crypto,
  no_registry, not_registered, or_unknown, required_fields, schema_warnings, signature_raised,
  skipped_by_request, structure_errors, witness_revoked, witness_suspended,
}

-- `compute_witness_statement_signing_bytes`
unfoldable pub compute_witness_statement_signing_bytes : Fields → Option (List ℕ)
compute_witness_statement_signing_bytes fs =
    canonical_json_bytes (obj (drop_key "witness_signature" fs))

-- What a call of `verify_signature` adds: whether it passed, and the error.
abbrev pub signature_outcome : Result SignatureError SignatureResult → Bool × List StatementError
signature_outcome (ok r) = if r.valid then (true, []) else (false, bad_signature r.errors ∷ [])
signature_outcome (err e) = (false, signature_raised ∷ [])

-- `base64.b64decode(statement.get("witness_signature", ""))`
abbrev pub decode_signature : Platform → Value → Option (List ℕ)
decode_signature P (str s) = P.b64decode s
decode_signature P v = none

-- INV-ANCHOR-013, for a registered witness
unfoldable pub statement_signature : Platform → WitnessEntry → Fields → Bool × List StatementError
statement_signature P entry fs = elim (compute_witness_statement_signing_bytes fs) [
  | none ↦ (false, signature_raised ∷ [])
  | some bytes ↦ signature_outcome (
      verify_decoded P (sha256_hex P bytes) (decode_signature P (at "witness_signature" fs))
        entry.public_key base64)
]

-- The result that each early return fills.
abbrev pub rejected :
    Fields → Option WitnessStatus → List StatementError → List StatementWarning → StatementResult
rejected fs status errors warnings = record {
  valid = false;
  witness_org_id = or_unknown (get "witness_org_id" fs);
  verification_result = or_unknown (get "verification_result" fs);
  anchor_hash = at "anchor_hash" fs;
  anchor_index = at "anchor_index" fs;
  signature_valid = false;
  witness_status = status;
  errors = errors;
  warnings = warnings;
}

-- The signature check and the final result.
unfoldable pub conclude :
    Platform → Bool → Option WitnessEntry → Fields → List StatementWarning → StatementResult
conclude P skip_signature none fs warnings =
    record (rejected fs none []
      (warnings ++ (if skip_signature then skipped_by_request else no_registry) ∷ [])) {
        valid = true;
      }
conclude P skip_signature (some entry) fs warnings =
    if skip_signature
    then record (rejected fs (some entry.status) [] (warnings ++ skipped_by_request ∷ [])) {
      valid = true;
    }
    else if not P.crypto_available
    then record (rejected fs (some entry.status) [] (warnings ++ no_crypto ∷ [])) { valid = true }
    else let (signed, errors) = statement_signature P entry fs in
      record (rejected fs (some entry.status) errors warnings) {
        valid = is_nil errors;
        signature_valid = signed;
      }

-- INV-ANCHOR-016, for a registered witness
unfoldable pub check_standing :
    Platform → Bool → WitnessEntry → Fields → List StatementWarning → StatementResult
check_standing P skip_signature entry fs warnings = elim entry.status [
  | revoked ↦
      rejected fs (some revoked)
        (witness_revoked (at "witness_org_id" fs) entry.revocation_reason ∷ []) warnings
  | suspended ↦
      conclude P skip_signature (some entry) fs
        (warnings ++ witness_suspended (at "witness_org_id" fs) ∷ [])
  | active ↦ conclude P skip_signature (some entry) fs warnings
]

-- The part behind the structural checks. The lookup is by the organisation or by the key; an
-- identifier that is not a text names no entry.
unfoldable pub check_registry :
    Platform → Option WitnessRegistry → Bool → Fields → List StatementWarning → StatementResult
check_registry P none skip_signature fs warnings = conclude P skip_signature none fs warnings
check_registry P (some r) skip_signature fs warnings =
    let org_id = at "witness_org_id" fs in
    let key_id = at "witness_public_key_id" fs in
    elim (lookup r (text_of org_id) (text_of key_id)) [
      | none ↦ rejected fs none (not_registered org_id key_id ∷ []) warnings
      | some entry ↦ check_standing P skip_signature entry fs warnings
    ]

unfoldable pub validate_witness_statement :
    Platform
    → Fields
    → Option WitnessRegistry
    → Option String
    → Bool
    → Result StatementError StatementResult
validate_witness_statement P fs registry expected skip_signature =
    let missing = missing_from fs required_fields in
    if not (is_nil missing) then ok (rejected fs none (missing_fields missing ∷ []) []) else (do
      errors ← structure_errors P expected fs
      let warnings = schema_warnings fs
      ok (
          if is_nil errors
          then check_registry P registry skip_signature fs warnings
          else rejected fs none errors warnings))
