-- ===== src/Manifest/Tests.antt =====
-- A proof manifest.
use specora_verify.Pattern.{uuid_pattern, hex64_pattern, timestamp_pattern}
use specora_verify.Canonical.{canonical_json_bytes, all_finite}
use specora_verify.Hash.{compute_manifest_hash}
use specora_verify.Base.{◌≡◌, refl, pos, ◌↔◌, String, true, none, some, List, [], ◌∷◌, All}
use specora_verify.Errors.{Result, ok, err, verification}
use specora_verify.Json.{Value, null, str, int, float, arr, nil, cons, Fields, end, field}
use specora_verify.Toy.{toy}
use specora_verify.Manifest.Contract.{
  enum, hex64, string, ManifestContract, proof_manifest_v1, detect_spec_id, get_contract,
  get_field_validators, validate_required_fields,
}
use specora_verify.Manifest.Fields.{
  ManifestError, check_no_floats, validate_field_type, float_found, not_detected, index, key,
}
use specora_verify.Manifest.Validate.{
  ManifestResult, invalid, validate_manifest, check_contract, field_errors, or_else, text_or,
}
use specora_verify.Manifest.Conforms.{Conforms, validate_manifest-valid_iff}
use specora_verify.Manifest.Typed.{HasType}
use specora_verify.Manifest.Anchor.{
  AnchorResult, anchor_result, validate_anchor_payload, validate_anchor_payload-HasType,
  ReceiptResult, receipt_result, validate_receipt, validate_receipt-HasType,
}
use specora_verify.Manifest.Required.{IsPresent, validate_manifest-IsPresent}

abbrev org : String
org = "01234567-89ab-cdef-0123-456789abcdef"

abbrev digest : String
digest = "0123456789abcdef0123456789abcdef0123456789abcdef0123456789abcdef"

abbrev with_field : String → Value → Fields
with_field name v = field "id" (str org) (
    field "org_id" (str org) (
      field "root_type" (str "daily") (
        field "root_hash" (str digest) (
          field "leaf_count" (int (pos 3)) (
            field "period_start" (str "2026-03-01T00:00:00Z") (
              field "period_end" (str "2026-03-02T00:00:00Z")
                (field "created_at" (str "2026-03-02T00:00:05Z") (field name v end))))))))

abbrev plain : Fields
plain = with_field "note" (str "none")

abbrev result_in : Result ManifestError ManifestResult → ManifestResult
result_in (ok r) = r
result_in (err (verification e)) = invalid none none none e
result_in (err e) = invalid none none none not_detected

abbrev verdict : ManifestResult
verdict = result_in (validate_manifest toy plain none none none)

plain_valid : (validate_manifest toy plain none none none ≡ ok verdict) × (verdict.valid ≡ true)
unfolding validate_manifest detect_spec_id get_contract check_contract compute_manifest_hash
    canonical_json_bytes all_finite validate_required_fields check_no_floats field_errors
    get_field_validators validate_field_type uuid_pattern hex64_pattern timestamp_pattern
plain_valid = (refl, refl)

plain_contract :
    (or_else none (detect_spec_id plain) ≡ some "proof-manifest")
    × (get_contract "proof-manifest" (text_or none "1.0.0") ≡ some proof_manifest_v1)
unfolding detect_spec_id get_contract
plain_contract = (refl, refl)

validate_manifest-valid_iff_example :
    ((r : ManifestResult) × (validate_manifest toy plain none none none ≡ ok r) × (r.valid ≡ true))
    ↔ ((name : String) × (contract : ManifestContract) × (or_else none (detect_spec_id plain)
          ≡ some name)
        × (get_contract name (text_or none "1.0.0") ≡ some contract)
        × Conforms toy contract none plain)
validate_manifest-valid_iff_example = validate_manifest-valid_iff toy plain none none none

validate_manifest-IsPresent_example :
    All (IsPresent toy proof_manifest_v1 plain) proof_manifest_v1.required_fields
validate_manifest-IsPresent_example =
    validate_manifest-IsPresent toy plain none none none "proof-manifest" proof_manifest_v1
      {r = verdict} plain_contract.0 plain_contract.1 plain_valid.0 plain_valid.1

-- A float in a list is found, but not in a list inside a list.
float_in_list :
    check_no_floats [] (with_field "x" (arr (cons (float "0.5") nil)))
    ≡ float_found (index 0 ∷ key "x" ∷ []) "0.5" ∷ []
unfolding check_no_floats
float_in_list = refl

nested_list_passes :
    check_no_floats [] (with_field "x" (arr (cons (arr (cons (float "0.5") nil)) nil))) ≡ []
unfolding check_no_floats
nested_list_passes = refl

abbrev text_fields : List String → Fields → Fields
text_fields [] rest = rest
text_fields (name ∷ names) rest = field name (str "text") (text_fields names rest)

abbrev payload : Fields
payload = field "payload_schema_version" (str "1.0.0") (
    field "root_hash" (str digest) (
      field "root_type" (str "daily") (
        field "period_start" (str "2026-03-01T00:00:00Z") (
          field "period_end" (str "2026-03-02T00:00:00Z") (
            field "leaf_count" (int (pos 3)) (
              field "first_seq" null (
                field "last_seq" (int (pos 7)) (
                  field "manifest_hash" (str digest) (
                    text_fields
                      ("manifest_spec_id" ∷ "manifest_schema_version" ∷ "hash_algorithm"
                        ∷ "hash_algorithm_version" ∷ "ledger_hash_algorithm"
                        ∷ "ledger_hash_algorithm_version" ∷ [])
                      end)))))))))

abbrev receipt : Fields
receipt = field "org_id" (str org) (
    field "payload_hash" (str digest) (
      field "receipt_timestamp" (str "2026-03-02T00:00:05Z") (
        text_fields
          ("spec_id" ∷ "schema_version" ∷ "anchor_backend" ∷ "receipt_id" ∷ "receipt_signature"
            ∷ "hash_algorithm" ∷ "hash_algorithm_version" ∷ [])
          end)))

abbrev payload_verdict : AnchorResult
payload_verdict =
    anchor_result payload
      (result_in (validate_manifest toy payload none (some "anchor-payload") (some "1.0.0")))

payload_valid :
    (validate_anchor_payload toy payload none ≡ ok payload_verdict) × (payload_verdict.valid ≡ true)
unfolding validate_anchor_payload validate_manifest get_contract check_contract
    compute_manifest_hash canonical_json_bytes all_finite validate_required_fields check_no_floats
    field_errors get_field_validators validate_field_type hex64_pattern timestamp_pattern
payload_valid = (refl, refl)

validate_anchor_payload-HasType_example :
    HasType toy (enum ("daily" ∷ "hourly" ∷ "monthly" ∷ [])) payload_verdict.root_type
    × HasType toy hex64 payload_verdict.manifest_hash
    × HasType toy string payload_verdict.schema_version
validate_anchor_payload-HasType_example =
    validate_anchor_payload-HasType toy payload none {r = payload_verdict} payload_valid.0
      payload_valid.1

abbrev receipt_verdict : ReceiptResult
receipt_verdict =
    receipt_result receipt
      (result_in (validate_manifest toy receipt none (some "anchor-receipt") (some "1.0.0")))

receipt_valid :
    (validate_receipt toy receipt none ≡ ok receipt_verdict) × (receipt_verdict.valid ≡ true)
unfolding validate_receipt validate_manifest get_contract check_contract compute_manifest_hash
    canonical_json_bytes all_finite validate_required_fields check_no_floats field_errors
    get_field_validators validate_field_type uuid_pattern hex64_pattern timestamp_pattern
receipt_valid = (refl, refl)

validate_receipt-HasType_example :
    HasType toy hex64 receipt_verdict.payload_hash
    × HasType toy string receipt_verdict.anchor_backend
    × HasType toy string receipt_verdict.receipt_id
    × HasType toy string receipt_verdict.schema_version
validate_receipt-HasType_example =
    validate_receipt-HasType toy receipt none {r = receipt_verdict} receipt_valid.0 receipt_valid.1
