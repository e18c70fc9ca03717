-- ===== src/Identity/Tests.antt =====
-- A certificate of the toy platform, where a signature is any 64 bytes.
use specora_verify.Canonical.{canonical_json_bytes, all_finite}
use specora_verify.Base.{
  ◌≡◌, refl, pos, ◌↔◌, String, str_eq, utf8, Bool, true, false, none, some, if◌then◌else◌,
}
use specora_verify.Errors.{Result, ok, err}
use specora_verify.Json.{Value, str, arr, obj, nil, cons, end, field}
use specora_verify.Toy.{toy}
use specora_verify.Identity.Certificate.{
  Clock, instant, Reason, IdentityResult, validate_agent_identity_certificate,
  public_key_fingerprint, check_issuer, check_signed, verify_ed25519, check_window, parse_rfc3339,
  principal_result,
}
use specora_verify.Identity.Certified.{IsCertified}
use specora_verify.Identity.Complete.{validate_agent_identity_certificate-valid_iff}
use specora_verify.Identity.Wire.{
  WireResult, validate_bundle_v1_1, has_any_agent_identity, check_records, record_status,
}
use specora_verify.Identity.Records.{IsBundleOfRecords, validate_bundle_v1_1-valid_iff}

abbrev a64 : String
a64 = "aaaaaaaaaaaaaaaaaaaaaaaaaaaaaaaaaaaaaaaaaaaaaaaaaaaaaaaaaaaaaaaa"

abbrev clock : Clock
clock = record {
  fromhex = λ s. some (utf8 s);
  fromisoformat =
      λ s. if str_eq s "2026-03-01T00:00:00+00:00" then instant (pos 10) else instant (pos 20);
}

abbrev certificate : Value
certificate = obj (
    field "format" (str "specora-aid-cert-v1") (
      field "issuer_key_fingerprint" (str a64) (
        field "issued_at" (str "2026-03-01T00:00:00Z") (
          field "not_after" (str "2027-03-01T00:00:00Z") (
            field "principal" (obj (field "id" (str "owner") (field "public_key" (str a64) end)))
              (field "signature" (str a64) end))))))

abbrev bundle : Value
bundle = obj (
    field "records" (arr (cons (obj (field "agent_identity" certificate end)) (cons (obj end) nil)))
      end)

abbrev verdict_of : Result Reason IdentityResult → Bool
verdict_of (ok r) = r.valid
verdict_of (err e) = false

abbrev wire_verdict_of : Result Reason WireResult → Bool
wire_verdict_of (ok r) = r.valid
wire_verdict_of (err e) = false

abbrev issuer : String
issuer = "kkkkkkkkkkkkkkkkkkkkkkkkkkkkkkkk"

certificate_valid :
    (verdict_of (validate_agent_identity_certificate toy clock issuer (pos 15) certificate) ≡ true)
    × (verdict_of (validate_agent_identity_certificate toy clock issuer (pos 20) certificate)
        ≡ false)
unfolding validate_agent_identity_certificate public_key_fingerprint check_issuer utf8 check_signed
    canonical_json_bytes all_finite verify_ed25519 check_window parse_rfc3339 principal_result
certificate_valid = (refl, refl)

bundle_valid :
    (wire_verdict_of (validate_bundle_v1_1 toy clock (some issuer) (pos 15) bundle) ≡ true)
    × (wire_verdict_of (validate_bundle_v1_1 toy clock none (pos 15) bundle) ≡ false)
    × (has_any_agent_identity bundle ≡ true)
unfolding validate_bundle_v1_1 check_records record_status validate_agent_identity_certificate
    public_key_fingerprint check_issuer utf8 check_signed canonical_json_bytes all_finite
    verify_ed25519 check_window parse_rfc3339 principal_result has_any_agent_identity
bundle_valid = (refl, refl, refl)

validate_agent_identity_certificate-valid_iff_example :
    ((r : IdentityResult) × (validate_agent_identity_certificate toy clock issuer
          (pos 15)
          certificate
        ≡ ok r)
      × (r.valid ≡ true))
    ↔ IsCertified toy clock issuer (pos 15) certificate
validate_agent_identity_certificate-valid_iff_example =
    validate_agent_identity_certificate-valid_iff toy clock issuer (pos 15) certificate

validate_bundle_v1_1-valid_iff_example :
    ((r : WireResult) × (validate_bundle_v1_1 toy clock (some issuer) (pos 15) bundle ≡ ok r)
      × (r.valid ≡ true))
    ↔ IsBundleOfRecords toy clock (some issuer) (pos 15) bundle
validate_bundle_v1_1-valid_iff_example =
    validate_bundle_v1_1-valid_iff toy clock (some issuer) (pos 15) bundle
