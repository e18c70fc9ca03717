-- ===== src/Witness/Tests.antt =====
-- Witness statements at concrete organisations.
use specora_verify.Base.{◌≡◌, refl, pos, String, true, none, some, List, [], ◌∷◌, utf8, All}
use specora_verify.Errors.{ok}
use specora_verify.Toy.{toy}
use specora_verify.Json.{Value, null, int, str, arr, nil, cons, Fields, end, field}
use specora_verify.Pattern.{key_id_pattern, timestamp_pattern}
use specora_verify.Hash.{derive_key_id, compute_key_fingerprint}
use specora_verify.Witness.Entry.{
  active, pass, WitnessEntry, WitnessRegistry, lookup, entry_to_dict, derive_witness_key_id,
}
use specora_verify.Witness.Parse.{
  decode_key, fresh_org_id, fresh_key_id, witness_data, parse_standing, parse_fields, parse_witness,
  parse_witnesses, parse_witness_registry,
}
use specora_verify.Witness.Registered.{IsRegistered, parse_witness_registry-IsRegistered}
use specora_verify.Witness.Structure.{StatementResult}
use specora_verify.Witness.Quorum.{group_by_hash, conclude_quorum}

abbrev alpha : WitnessEntry
alpha = record {
  witness_org_id = "alpha";
  org_name = "Alpha";
  public_key = "0123456789abcdef0123456789abcdef";
  public_key_id = "wpk-aaaaaaaaaaaaaaaa";
  trust_level = "external";
  status = active;
  registered_at = "2026-02-01T00:00:00Z";
  revoked_at = none;
  revocation_reason = null;
}

abbrev registry : WitnessRegistry
registry = record {
  registry_version = pos 1;
  generated_at = "2026-03-01T00:00:00Z";
  registry_authority = "Authority";
  witnesses = alpha ∷ [];
}

abbrev anchor : String
anchor = "0123456789abcdef0123456789abcdef0123456789abcdef0123456789abcdef"

abbrev statement_of : String → Fields
statement_of org = field "spec_id" (str "witness-statement") (
    field "schema_version" (str "1.0.0") (
      field "witness_statement_id" (str "ws-01234567-89ab-cdef-0123-456789abcdef") (
        field "timestamp" (str "2026-03-02T04:12:00Z") (
          field "anchor_hash" (str anchor) (
            field "anchor_index" (int (pos 7)) (
              field "verified_surfaces" (arr (cons (str "dns_txt") nil)) (
                field "verification_result" (str "pass") (
                  field "verification_timestamp" (str "2026-03-02T04:11:58Z") (
                    field "witness_org_id" (str org) (
                      field "witness_public_key_id" (str "wpk-aaaaaaaaaaaaaaaa")
                        (field "witness_signature" (str anchor) end)))))))))))

abbrev accepted : String → StatementResult
accepted org = record {
  valid = true;
  witness_org_id = str org;
  verification_result = str "pass";
  anchor_hash = str anchor;
  anchor_index = int (pos 7);
  signature_valid = true;
  witness_status = some active;
  errors = [];
  warnings = [];
}

abbrev both : List (Value × StatementResult)
both = (str "alpha", accepted "alpha") ∷ (str "ghost", accepted "ghost") ∷ []

one_key_passes : (conclude_quorum toy (pos 2) both).status ≡ pass
unfolding conclude_quorum group_by_hash
one_key_passes = refl

abbrev registry_doc : Fields
registry_doc = field "registry_version" (int (pos 1)) (
    field "generated_at" (str "2026-03-01T00:00:00Z") (
      field "registry_authority" (str "Authority")
        (field "witnesses" (arr (cons (entry_to_dict alpha) nil)) end)))

registry_parsed : parse_witness_registry toy registry_doc ≡ ok registry
unfolding parse_witness_registry parse_witnesses parse_witness witness_data parse_fields
    fresh_org_id fresh_key_id decode_key parse_standing entry_to_dict timestamp_pattern
    key_id_pattern derive_witness_key_id derive_key_id compute_key_fingerprint utf8
registry_parsed = refl

parse_witness_registry-IsRegistered_example :
    All (IsRegistered toy) (alpha ∷ [])
    × All (λ e. lookup registry (some e.witness_org_id) none ≡ some e) (alpha ∷ [])
    × All (λ e. lookup registry none (some e.public_key_id) ≡ some e) (alpha ∷ [])
parse_witness_registry-IsRegistered_example =
    parse_witness_registry-IsRegistered toy registry_doc {r = registry} registry_parsed
