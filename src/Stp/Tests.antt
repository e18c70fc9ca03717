-- ===== src/Stp/Tests.antt =====
-- Messages of the protocol.
use specora_verify.Canonical.{canonical_json_bytes, all_finite, emit, sort_keys}
use specora_verify.Hash.{compute_manifest_hash}
use specora_verify.Base.{
  ◌≡◌, refl, pos, ℕ, ℤ, String, Bool, true, false, Option, none, some, List, [], ◌∷◌,
}
use specora_verify.Errors.{Result, ok, err}
use specora_verify.Json.{null, str, int, arr, obj, nil, cons, Fields, end, field}
use specora_verify.Canonical.{canonical_json_bytes}
use specora_verify.Hash.{sha256_hex}
use specora_verify.Stp.Simulate.{
  SimulateResult, loaded, matched_rule, simulate_stp_decision, simulate_with, first_match, value_eq,
  decide_by,
}
use specora_verify.Stp.Decision.{IsFounded, simulate_stp_decision-IsFounded}
use specora_verify.Toy.{toy}
use specora_verify.Stp.Contracts.{get_total_enum_cardinality, validate_enum_cardinality}
use specora_verify.Stp.Body.{MessageError, no_notes, absent_from, validate_payload_values}
use specora_verify.Stp.Message.{
  VerifyResult, Request, message_result, validate_stp_message, body_notes, is_request, seal_of,
  requested_seal,
}
use specora_verify.Stp.Sound.{IsMessage, validate_stp_message-IsMessage}

-- INV-STP-CARD-001
below_the_limit : (get_total_enum_cardinality ≡ 60) × (validate_enum_cardinality ≡ true)
unfolding get_total_enum_cardinality validate_enum_cardinality
below_the_limit = (refl, refl)

abbrev lenient : Request
lenient = record { message_type = none; strict = false; check_seal = false; expected_seal = none }

abbrev strict_request : Request
strict_request = record {
  message_type = some "execution.record";
  strict = true;
  check_seal = true;
  expected_seal = some "aaaaaaaaaaaaaaaaaaaaaaaaaaaaaaaaaaaaaaaaaaaaaaaaaaaaaaaaaaaaaaaa";
}

abbrev recorded : Fields
recorded = field "protocol_version" (str "1.0.0") (
    field "message_type" (str "execution.record") (
      field "timestamp" (str "2026-03-01T00:00:00Z") (
        field "payload"
          (obj (field "authorization_id" (str "a1") (field "status" (str "success") end))) end)))

abbrev unread : VerifyResult
unread =
    message_result lenient end [] no_notes
      record { passed = none; computed = none; expected = none; errors = [] }

abbrev result_in : Result MessageError VerifyResult → VerifyResult
result_in (ok r) = r
result_in (err e) = unread

abbrev verdict : VerifyResult
verdict = result_in (validate_stp_message toy strict_request recorded)

recorded_valid :
    (validate_stp_message toy strict_request recorded ≡ ok verdict) × (verdict.valid ≡ true)
unfolding validate_stp_message body_notes is_request absent_from validate_payload_values seal_of
    requested_seal compute_manifest_hash canonical_json_bytes all_finite emit sort_keys
recorded_valid = (refl, refl)

validate_stp_message-IsMessage_example : IsMessage toy strict_request recorded "execution.record"
validate_stp_message-IsMessage_example =
    validate_stp_message-IsMessage toy strict_request recorded "execution.record" {r = verdict} refl
      refl recorded_valid.0 recorded_valid.1

-- A message without a type passes, whatever it leaves out.
empty_passes : (result_in (validate_stp_message toy lenient end)).valid ≡ true
unfolding validate_stp_message body_notes seal_of
empty_passes = refl

abbrev rule : Fields
rule =
    field "action_type" (str "code_edit")
      (field "decision" (str "require_approval") (field "required_trust_tier" (int (pos 1)) end))

abbrev policy : Fields
policy = field "rules" (arr (cons (obj rule) nil)) (field "default_decision" (str "allow") end)

abbrev edit : Fields
edit = field "payload" (obj (field "action_type" (str "code_edit") end)) end

abbrev never_at_least : ℤ → String → Bool
never_at_least tier r = false

abbrev bytes_in : Option (List ℕ) → List ℕ
bytes_in none = []
bytes_in (some bytes) = bytes

abbrev decided : SimulateResult
decided = record {
  decision = str "require_approval";
  policy_hash = sha256_hex toy (bytes_in (canonical_json_bytes (obj policy)));
  reasons = matched_rule (str "code_edit") (str "require_approval") ∷ [];
  restrictions = null;
}

simulated_edit :
    simulate_stp_decision toy never_at_least edit (loaded (obj policy)) (pos 2) ≡ ok decided
unfolding simulate_stp_decision simulate_with compute_manifest_hash canonical_json_bytes all_finite
    first_match value_eq decide_by
simulated_edit = refl

simulate_stp_decision-IsFounded_example :
    IsFounded toy never_at_least
      (str "code_edit")
      (pos 2)
      (str "allow")
      (obj rule ∷ [])
      (str "require_approval")
simulate_stp_decision-IsFounded_example =
    simulate_stp_decision-IsFounded toy never_at_least edit policy (pos 2) (str "code_edit")
      (obj rule ∷ []) {r = decided} refl refl simulated_edit
