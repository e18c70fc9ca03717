-- ===== src/Manifest/Contract.antt =====
-- contracts/registry.py: the contracts, the types of their fields, and how a manifest's contract is
-- found.
use specora_verify.Base.{
  String, str_eq, ◌&&◌, ◌||◌, Option, none, some, List, [], ◌∷◌, if◌then◌else◌,
}
use specora_verify.Json.{Fields, has_key}
use specora_verify.Checked.{at, is_str, missing_from}

-- The expected types, which the source writes as texts: `enum:a|b` is `enum` with its choices.
pub data FieldType : Type 0 where
  enum : List String → FieldType
  uuid hex64 iso8601_utc integer integer_or_null string : FieldType

pub record ManifestContract : Type 0 where
  pub spec_id : String
  pub schema_version : String
  pub required_fields : List String

-- `[f for f in self.required_fields if f not in data]`
unfoldable pub validate_required_fields : ManifestContract → Fields → List String
validate_required_fields contract payload = missing_from payload contract.required_fields

abbrev pub proof_validators : List (String × FieldType)
proof_validators =
    ("id", uuid)
    ∷ ("org_id", uuid)
    ∷ ("root_type", enum ("daily" ∷ "monthly" ∷ "window" ∷ []))
    ∷ ("root_hash", hex64)
    ∷ ("leaf_count", integer)
    ∷ ("period_start", iso8601_utc)
    ∷ ("period_end", iso8601_utc)
    ∷ ("created_at", iso8601_utc)
    ∷ []

abbrev pub attestation_validators : List (String × FieldType)
attestation_validators =
    ("id", uuid)
    ∷ ("org_id", uuid)
    ∷ ("snapshot_type", enum ("window" ∷ "calibration" ∷ "region" ∷ "drift" ∷ "anomaly" ∷ []))
    ∷ ("period_start", iso8601_utc)
    ∷ ("period_end", iso8601_utc)
    ∷ ("created_at", iso8601_utc)
    ∷ []

abbrev pub payload_validators : List (String × FieldType)
payload_validators =
    ("payload_schema_version", string)
    ∷ ("root_hash", hex64)
    ∷ ("root_type", enum ("daily" ∷ "hourly" ∷ "monthly" ∷ []))
    ∷ ("period_start", iso8601_utc)
    ∷ ("period_end", iso8601_utc)
    ∷ ("leaf_count", integer)
    ∷ ("first_seq", integer_or_null)
    ∷ ("last_seq", integer_or_null)
    ∷ ("manifest_hash", hex64)
    ∷ ("manifest_spec_id", string)
    ∷ ("manifest_schema_version", string)
    ∷ ("hash_algorithm", string)
    ∷ ("hash_algorithm_version", string)
    ∷ ("ledger_hash_algorithm", string)
    ∷ ("ledger_hash_algorithm_version", string)
    ∷ ("org_id", uuid)
    ∷ []

abbrev pub receipt_validators : List (String × FieldType)
receipt_validators =
    ("spec_id", string)
    ∷ ("schema_version", string)
    ∷ ("org_id", uuid)
    ∷ ("anchor_backend", string)
    ∷ ("payload_hash", hex64)
    ∷ ("receipt_id", string)
    ∷ ("receipt_timestamp", iso8601_utc)
    ∷ ("receipt_signature", string)
    ∷ ("hash_algorithm", string)
    ∷ ("hash_algorithm_version", string)
    ∷ []

unfoldable pub get_field_validators : ManifestContract → List (String × FieldType)
get_field_validators contract =
    if str_eq contract.spec_id "proof-manifest"
    then proof_validators
    else if str_eq contract.spec_id "attestation-manifest"
    then attestation_validators
    else if str_eq contract.spec_id "anchor-payload"
    then payload_validators
    else if str_eq contract.spec_id "anchor-receipt"
    then receipt_validators
    else []

abbrev pub proof_manifest_v1 : ManifestContract
proof_manifest_v1 = record {
  spec_id = "proof-manifest";
  schema_version = "1.0.0";
  required_fields =
      "id" ∷ "org_id" ∷ "root_type" ∷ "root_hash" ∷ "leaf_count" ∷ "period_start" ∷ "period_end"
      ∷ "created_at" ∷ [];
}

abbrev pub attestation_manifest_v1 : ManifestContract
attestation_manifest_v1 = record {
  spec_id = "attestation-manifest";
  schema_version = "1.0.0";
  required_fields =
      "id" ∷ "org_id" ∷ "snapshot_type" ∷ "period_start" ∷ "period_end" ∷ "created_at" ∷ [];
}

abbrev pub anchor_payload_v1 : ManifestContract
anchor_payload_v1 = record {
  spec_id = "anchor-payload";
  schema_version = "1.0.0";
  required_fields =
      "payload_schema_version" ∷ "root_hash" ∷ "root_type" ∷ "period_start" ∷ "period_end"
      ∷ "leaf_count" ∷ "first_seq" ∷ "last_seq" ∷ "manifest_hash" ∷ "manifest_spec_id"
      ∷ "manifest_schema_version" ∷ "hash_algorithm" ∷ "hash_algorithm_version"
      ∷ "ledger_hash_algorithm" ∷ "ledger_hash_algorithm_version" ∷ [];
}

abbrev pub anchor_receipt_v1 : ManifestContract
anchor_receipt_v1 = record {
  spec_id = "anchor-receipt";
  schema_version = "1.0.0";
  required_fields =
      "spec_id" ∷ "schema_version" ∷ "org_id" ∷ "anchor_backend" ∷ "payload_hash" ∷ "receipt_id"
      ∷ "receipt_timestamp" ∷ "receipt_signature" ∷ "hash_algorithm" ∷ "hash_algorithm_version"
      ∷ [];
}

-- `_CONTRACTS`, whose keys are the `spec_id` and `schema_version` of the values
abbrev pub contracts : List ManifestContract
contracts = proof_manifest_v1 ∷ attestation_manifest_v1 ∷ anchor_payload_v1 ∷ anchor_receipt_v1 ∷ []

abbrev pub find_contract : String → String → List ManifestContract → Option ManifestContract
find_contract spec_id version [] = none
find_contract spec_id version (c ∷ cs) =
    if str_eq c.spec_id spec_id && str_eq c.schema_version version
    then some c
    else find_contract spec_id version cs

-- `none` is the `KeyError` of an unknown contract.
unfoldable pub get_contract : String → String → Option ManifestContract
get_contract spec_id version = find_contract spec_id version contracts

abbrev pub contract_ids : List ManifestContract → List (String × String)
contract_ids [] = []
contract_ids (c ∷ cs) = (c.spec_id, c.schema_version) ∷ contract_ids cs

unfoldable pub list_contracts : List (String × String)
list_contracts = contract_ids contracts

unfoldable pub detect_spec_id : Fields → Option String
detect_spec_id payload =
    if is_str "anchor-receipt" (at "spec_id" payload)
      || (has_key "receipt_signature" payload && has_key "payload_hash" payload)
    then some "anchor-receipt"
    else if has_key "payload_schema_version" payload && has_key "manifest_hash" payload
    then some "anchor-payload"
    else if has_key "root_type" payload
        && (has_key "root_hash" payload && has_key "leaf_count" payload)
    then some "proof-manifest"
    else if has_key "snapshot_type" payload
    then some "attestation-manifest"
    else none
