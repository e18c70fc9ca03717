-- ===== src/Registry/Tests.antt =====
-- Snapshots of one witness.
use specora_verify.Hash.{derive_key_id, compute_key_fingerprint}
use specora_verify.Witness.Entry.{derive_witness_key_id}
use specora_verify.Pattern.{timestamp_pattern, hex64_pattern, key_id_pattern}
use specora_verify.Base.{
  ◌≡◌, refl, pos, utf8, ℤ, String, Bool, true, false, some, List, [], ◌∷◌, ◌++◌, All, ◌↔◌,
}
use specora_verify.Errors.{Result, ok, err}
use specora_verify.Json.{str, int, arr, obj, nil, cons, Fields, end, field}
use specora_verify.Toy.{toy}
use specora_verify.Canonical.{canonical_json_bytes, all_finite, emit, sort_keys}
use specora_verify.Signature.{base64, verify_signature, verify_decoded, load_public_key}
use specora_verify.Registry.Snapshot.{
  RegistryWitness, RegistrySnapshot, genesis_hash, snapshot_to_dict, compute_registry_hash,
  get_witness,
}
use specora_verify.Registry.Witnesses.{
  SnapshotError, parse_witnesses, parse_witness, read_witness_data, parse_witness_fields,
  parse_keys, parse_key, read_key_data, parse_key_fields, decode_key, check_derived,
}
use specora_verify.Registry.Validate.{
  Options, Input, parsed, raw, ValidationResult, validate_registry_snapshot, validate_parsed,
  check_signature, check_with_key,
}
use specora_verify.Registry.Parse.{
  parse_registry_snapshot, check_identity, parse_header, parse_seal, check_signature_text,
}
use specora_verify.Registry.Registered.{IsWitness, parse_registry_snapshot-IsWitness}
use specora_verify.Registry.Chain.{
  ChainResult, pass, empty_result, no_snapshots, walk, insert_snapshot, link_errors, all_read,
  parse_all, sort_snapshots, verify_registry_chain,
}
use specora_verify.Registry.Accepted.{
  IsAccepted, verify_registry_chain-pass_iff, verify_registry_chain-revoked,
}
use specora_verify.Registry.Revoked.{
  key_violations, witness_violations, witness_reactivated, enforce_revocation_monotonicity,
}
use specora_verify.Registry.Monotone.{
  AllMonotone, status_in, enforce_revocation_monotonicity-revoked,
}

abbrev listed_as : String → RegistryWitness
listed_as status = record {
  witness_org_id = "alpha";
  org_name = "Alpha";
  trust_level = "external";
  status = status;
  registered_at = "2026-02-01T00:00:00Z";
  keys = [];
}

abbrev with_witnesses : List RegistryWitness → RegistrySnapshot
with_witnesses ws = record {
  spec_id = "witness-registry";
  schema_version = "1.0.0";
  registry_version = pos 1;
  version_value = int (pos 1);
  generated_at = "2026-03-01T00:00:00Z";
  previous_registry_hash = "";
  registry_authority = "Authority";
  witnesses = ws;
  registry_hash = "";
  registry_key_id = "";
  registry_signature = "";
}

abbrev revoked_one : RegistrySnapshot
revoked_one = with_witnesses (listed_as "revoked" ∷ [])

abbrev active_one : RegistrySnapshot
active_one = with_witnesses (listed_as "active" ∷ [])

abbrev nobody : RegistrySnapshot
nobody = with_witnesses []

taken_back_fails :
    enforce_revocation_monotonicity (some revoked_one) active_one
    ≡ witness_reactivated "alpha" "active" ∷ []
unfolding enforce_revocation_monotonicity witness_violations key_violations
taken_back_fails = refl

-- A revoked witness that one snapshot leaves out comes back as an active one.
left_out_passes : AllMonotone revoked_one (nobody ∷ active_one ∷ [])
unfolding enforce_revocation_monotonicity witness_violations key_violations
left_out_passes = (refl, (refl, tt))

revoked_chain : AllMonotone revoked_one (revoked_one ∷ revoked_one ∷ [])
unfolding enforce_revocation_monotonicity witness_violations key_violations
revoked_chain = (refl, (refl, tt))

enforce_revocation_monotonicity-revoked_example :
    All (λ s. status_in "alpha" s ≡ some "revoked") (revoked_one ∷ revoked_one ∷ [])
enforce_revocation_monotonicity-revoked_example =
    enforce_revocation_monotonicity-revoked "alpha" revoked_one (revoked_one ∷ revoked_one ∷ [])
      revoked_chain refl (refl, (refl, tt))

abbrev a64 : String
a64 = "aaaaaaaaaaaaaaaaaaaaaaaaaaaaaaaaaaaaaaaaaaaaaaaaaaaaaaaaaaaaaaaa"

abbrev snapshot : ℤ → String → RegistrySnapshot
snapshot version previous = record {
  spec_id = "witness-registry-snapshot";
  schema_version = "1.0.0";
  registry_version = version;
  version_value = int version;
  generated_at = "2026-03-01T00:00:00Z";
  previous_registry_hash = previous;
  registry_authority = "Authority";
  witnesses = listed_as "revoked" ∷ [];
  registry_hash = a64;
  registry_key_id = "rpk-aaaaaaaaaaaaaaaa";
  registry_signature = a64;
}

abbrev first : RegistrySnapshot
first = snapshot (pos 1) genesis_hash

abbrev second : RegistrySnapshot
second = snapshot (pos 2) a64

abbrev with_key : Options
with_key = record {
  public_key = some "kkkkkkkkkkkkkkkkkkkkkkkkkkkkkkkk";
  key_format = base64;
  skip_signature = false;
}

-- The later snapshot is given first.
abbrev two_snapshots : List Input
two_snapshots = parsed second ∷ parsed first ∷ []

abbrev result_in : Result SnapshotError ChainResult → ChainResult
result_in (ok c) = c
result_in (err e) = empty_result no_snapshots

abbrev verdict : ChainResult
verdict = result_in (verify_registry_chain toy with_key two_snapshots)

two_snapshots_pass :
    (verify_registry_chain toy with_key two_snapshots ≡ ok verdict) × (verdict.status ≡ pass)
unfolding verify_registry_chain parse_all walk sort_snapshots insert_snapshot link_errors
    enforce_revocation_monotonicity witness_violations key_violations validate_registry_snapshot
    validate_parsed compute_registry_hash snapshot_to_dict check_signature check_with_key
    verify_signature verify_decoded load_public_key utf8 canonical_json_bytes all_finite emit
    sort_keys
two_snapshots_pass = (refl, refl)

verify_registry_chain-pass_iff_example :
    ((c : ChainResult) × (verify_registry_chain toy with_key two_snapshots ≡ ok c)
      × (c.status ≡ pass))
    ↔ IsAccepted toy with_key two_snapshots
verify_registry_chain-pass_iff_example = verify_registry_chain-pass_iff toy with_key two_snapshots

two_snapshots_read :
    (parse_all toy 0 two_snapshots ≡ ok (all_read (second ∷ first ∷ [])))
    × (sort_snapshots (second ∷ first ∷ []) ≡ [] ++ (first ∷ second ∷ []))
unfolding parse_all sort_snapshots insert_snapshot
two_snapshots_read = (refl, refl)

verify_registry_chain-revoked_example :
    All (λ t. status_in "alpha" t ≡ some "revoked") (second ∷ [])
verify_registry_chain-revoked_example =
    verify_registry_chain-revoked toy with_key two_snapshots (second ∷ first ∷ []) {c = verdict}
      two_snapshots_read.0 two_snapshots_pass.0 two_snapshots_pass.1 "alpha" [] first (second ∷ [])
      two_snapshots_read.1 refl (refl, tt)

abbrev key_fields : Fields
key_fields = field "public_key_id" (str "wpk-aaaaaaaaaaaaaaaa") (
    field "public_key" (str "kkkkkkkkkkkkkkkkkkkkkkkkkkkkkkkk")
      (field "status" (str "active") (field "created_at" (str "2026-02-01T00:00:00Z") end)))

abbrev witness_fields : Fields
witness_fields = field "witness_org_id" (str "alpha") (
    field "org_name" (str "Alpha") (
      field "trust_level" (str "external") (
        field "status" (str "active") (
          field "registered_at" (str "2026-02-01T00:00:00Z")
            (field "keys" (arr (cons (obj key_fields) nil)) end)))))

abbrev snapshot_fields : Fields
snapshot_fields = field "spec_id" (str "witness-registry-snapshot") (
    field "schema_version" (str "1.0.0") (
      field "registry_version" (int (pos 1)) (
        field "generated_at" (str "2026-03-01T00:00:00Z") (
          field "previous_registry_hash" (str genesis_hash) (
            field "registry_authority" (str "Authority1") (
              field "witnesses" (arr (cons (obj witness_fields) nil)) (
                field "registry_hash" (str a64) (
                  field "registry_key_id" (str "rpk-aaaaaaaaaaaaaaaa")
                    (field "registry_signature" (str a64) end)))))))))

abbrev snapshot_in : Result SnapshotError RegistrySnapshot → RegistrySnapshot
snapshot_in (ok s) = s
snapshot_in (err e) = first

abbrev parsed_fields : RegistrySnapshot
parsed_fields = snapshot_in (parse_registry_snapshot toy snapshot_fields)

fields_parse : parse_registry_snapshot toy snapshot_fields ≡ ok parsed_fields
unfolding parse_registry_snapshot check_identity parse_header parse_seal check_signature_text
    parse_witnesses parse_witness read_witness_data parse_witness_fields parse_keys parse_key
    read_key_data parse_key_fields decode_key check_derived utf8 timestamp_pattern hex64_pattern
    key_id_pattern derive_witness_key_id derive_key_id compute_key_fingerprint
fields_parse = refl

parse_registry_snapshot-IsWitness_example :
    All (IsWitness toy) parsed_fields.witnesses
    × All (λ w. get_witness parsed_fields w.witness_org_id ≡ some w) parsed_fields.witnesses
parse_registry_snapshot-IsWitness_example =
    parse_registry_snapshot-IsWitness toy snapshot_fields {s = parsed_fields} fields_parse

abbrev result_of : Result SnapshotError ValidationResult → Bool
result_of (ok r) = r.valid
result_of (err e) = false

-- A snapshot whose key leaves out the optional fields has another hash once it is written again.
raw_valid_rewritten_not :
    (result_of (validate_registry_snapshot toy with_key (raw snapshot_fields)) ≡ true)
    × (result_of (validate_registry_snapshot toy with_key (parsed parsed_fields)) ≡ false)
unfolding validate_registry_snapshot parse_registry_snapshot check_identity parse_header parse_seal
    check_signature_text parse_witnesses parse_witness read_witness_data parse_witness_fields
    parse_keys parse_key read_key_data parse_key_fields decode_key check_derived utf8
    validate_parsed compute_registry_hash snapshot_to_dict check_signature check_with_key
    verify_signature verify_decoded load_public_key canonical_json_bytes all_finite emit sort_keys
    timestamp_pattern hex64_pattern key_id_pattern derive_witness_key_id derive_key_id
    compute_key_fingerprint
raw_valid_rewritten_not = (refl, refl)
