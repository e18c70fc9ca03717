-- ===== src/Chain/Tests.antt =====
-- The transparency log at concrete entries, under a toy digest of the right length.
use mathlib.Core.List.Perm
use specora_verify.Base.{
  ◌≡◌, refl, ◌∙◌, ℕ, String, ◌%◌, ◌≤◌, ◌==◌, ◌↔◌, pos, true, false, none, List, [], ◌∷◌, length,
  map, is_nil, if◌then◌else◌,
}
use specora_verify.Errors.{ok, err, type_error}
use specora_verify.Json.{null, int, str, Fields, end, field}
use specora_verify.Platform.{Platform, bad_pem}
use specora_verify.Canonical.{canonical_json_bytes, emit, sort_keys, all_finite}
use specora_verify.Chain.Entry.{
  Entry, ChainResult, EntryVerification, or_else, unexpected_index, genesis_previous_hash,
  validate_entry_schema, hash_errors, check_entry_signature,
}
use specora_verify.Chain.Verify.{sort_entries, check_entry, walk, verify_chain, chain_result}
use specora_verify.Chain.Log.{Body, IsAcceptable, entry_at, body_hash}
use specora_verify.Chain.Dict.{Dynamic}
use specora_verify.Chain.Dicts.{verify_dicts}
use specora_verify.Chain.Typed.{Shows}
use specora_verify.Chain.Documents.{AllShow, verify_dicts-eq}
use specora_verify.Chain.Documented.{
  IsShuffledLog, verify_dicts-valid_iff, verify_dicts_total, verify_dicts-fixes_chain,
}
use specora_verify.Chain.Tamper.{unsigned, entry_bytes}
use specora_verify.Chain.Content.{Distinguishes}
use specora_verify.Chain.Order.{verify_chain-Perm}
use specora_verify.Chain.Report.{verify_chain-report, verify_chain-counts_gap}

abbrev toy : Platform
toy = record {
  hexdigest = λ bytes.
      if length bytes % 2 == 0
      then "aaaaaaaaaaaaaaaaaaaaaaaaaaaaaaaaaaaaaaaaaaaaaaaaaaaaaaaaaaaaaaaa"
      else "bbbbbbbbbbbbbbbbbbbbbbbbbbbbbbbbbbbbbbbbbbbbbbbbbbbbbbbbbbbbbbbb";
  crypto_available = false;
  load_pem = λ _. bad_pem;
  verifies = λ _ _ _. false;
  b64decode = λ _. none;
  b64decode_bytes = λ _. none;
  is_decimal = λ _. false;
  is_space = λ _. false;
  same_number = λ _ _. false;
}

abbrev bundle : Body
bundle = record {
  artifact_type = "bundle";
  artifact_sha256 = "0123456789abcdef0123456789abcdef0123456789abcdef0123456789abcdef";
  public_key_id = "spk-0123456789abcdef";
  created_at = "2026-03-01T00:00:00Z";
  signature_b64 = "c2ln";
}

abbrev scorecard : Body
scorecard = record bundle { artifact_type = "scorecard" }

abbrev resigned : Body
resigned = record bundle { signature_b64 = "b3RoZXI=" }

abbrev first : Entry
first = entry_at toy 0 genesis_previous_hash bundle

abbrev second : Entry
second = entry_at toy 1 (body_hash toy 0 genesis_previous_hash bundle) scorecard

-- The verdict of an entry that passes every check, and the result of a chain of such entries.
abbrev verdict : Entry → EntryVerification
verdict e = record {
  index = int (or_else (pos 0) e.index);
  entry_hash = str (or_else "" e.entry_hash);
  valid = true;
  hash_valid = true;
  link_valid = true;
  signature_valid = true;
  errors = [];
}

abbrev passed : List Entry → ChainResult
passed es = chain_result es (true, map verdict es)

log_passes : verify_chain toy (second ∷ first ∷ []) none true ≡ ok (passed (first ∷ second ∷ []))
unfolding verify_chain walk sort_entries check_entry validate_entry_schema hash_errors
    check_entry_signature canonical_json_bytes emit sort_keys all_finite
log_passes = refl

alone_passes : verify_chain toy (first ∷ []) none true ≡ ok (passed (first ∷ []))
unfolding verify_chain walk sort_entries check_entry validate_entry_schema hash_errors
    check_entry_signature canonical_json_bytes emit sort_keys all_finite
alone_passes = refl

resigned_passes :
    verify_chain toy (entry_at toy 0 genesis_previous_hash resigned ∷ []) none true
    ≡ ok (passed (entry_at toy 0 genesis_previous_hash resigned ∷ []))
unfolding verify_chain walk sort_entries check_entry validate_entry_schema hash_errors
    check_entry_signature canonical_json_bytes emit sort_keys all_finite
resigned_passes = refl

one_payload :
    Distinguishes toy
      (map entry_bytes (sort_entries (first ∷ [])))
      (map entry_bytes (sort_entries (entry_at toy 0 genesis_previous_hash resigned ∷ [])))
unfolding sort_entries entry_bytes
one_payload = (((λ _. refl), tt), tt)

-- The dict of an entry, with a further field.
abbrev dict_at : ℕ → String → Body → Fields
dict_at i prev b = field "note" null (
    field "index" (int (pos i)) (
      field "artifact_type" (str b.artifact_type) (
        field "artifact_sha256" (str b.artifact_sha256) (
          field "previous_entry_hash" (str prev) (
            field "entry_hash" (str (body_hash toy i prev b)) (
              field "signature_b64" (str b.signature_b64) (
                field "public_key_id" (str b.public_key_id)
                  (field "created_at" (str b.created_at) end))))))))

dict_at-Shows :
    (i : ℕ) (prev : String) (b : Body) → Shows (dict_at i prev b) (entry_at toy i prev b)
dict_at-Shows i prev b = record {
  index_shown = refl;
  artifact_type_shown = refl;
  artifact_sha256_shown = refl;
  previous_shown = refl;
  hash_shown = refl;
  signature_shown = refl;
  key_id_shown = refl;
  created_at_shown = refl;
}

abbrev python : Dynamic
python = record { less = λ _ _. err type_error; integer = λ _. err type_error }

abbrev second_hash : String
second_hash = body_hash toy 0 genesis_previous_hash bundle

abbrev log_dicts : List Fields
log_dicts = dict_at 1 second_hash scorecard ∷ dict_at 0 genesis_previous_hash bundle ∷ []

log_shown : AllShow log_dicts (second ∷ first ∷ [])
log_shown =
    (dict_at-Shows 1 second_hash scorecard, (dict_at-Shows 0 genesis_previous_hash bundle, tt))

dicts_pass : verify_dicts toy python log_dicts none true ≡ ok (passed (first ∷ second ∷ []))
dicts_pass =
    verify_dicts-eq toy python log_dicts (second ∷ first ∷ []) none true log_shown ∙ log_passes

verify_dicts-valid_iff_example :
    ((passed (first ∷ second ∷ [])).valid ≡ true) ↔ IsShuffledLog toy none (second ∷ first ∷ [])
verify_dicts-valid_iff_example =
    verify_dicts-valid_iff toy python log_dicts (second ∷ first ∷ []) none true
      {r = passed (first ∷ second ∷ [])} log_shown dicts_pass

verify_dicts_total_example :
    (r : ChainResult) × (verify_dicts toy python log_dicts none true ≡ ok r)
verify_dicts_total_example =
    verify_dicts_total toy python log_dicts (second ∷ first ∷ []) none true log_shown

abbrev one_dict : Body → List Fields
one_dict b = dict_at 0 genesis_previous_hash b ∷ []

one_shown : (b : Body) → AllShow (one_dict b) (entry_at toy 0 genesis_previous_hash b ∷ [])
one_shown b = (dict_at-Shows 0 genesis_previous_hash b, tt)

verify_dicts-fixes_chain_example :
    map unsigned (sort_entries (first ∷ []))
    ≡ map unsigned (sort_entries (entry_at toy 0 genesis_previous_hash resigned ∷ []))
verify_dicts-fixes_chain_example =
    verify_dicts-fixes_chain toy python (one_dict bundle) (one_dict resigned) (first ∷ [])
      (entry_at toy 0 genesis_previous_hash resigned ∷ []) none none true true (one_shown bundle)
      (one_shown resigned) one_payload
      (verify_dicts-eq toy python (one_dict bundle) (first ∷ []) none true (one_shown bundle)
        ∙ alone_passes)
      (verify_dicts-eq toy python (one_dict resigned)
          (entry_at toy 0 genesis_previous_hash resigned ∷ []) none true (one_shown resigned)
        ∙ resigned_passes)
      refl refl refl

verify_chain-Perm_example :
    verify_chain toy (first ∷ second ∷ []) none true ≡ ok (passed (first ∷ second ∷ []))
verify_chain-Perm_example =
    verify_chain-Perm toy (second ∷ first ∷ []) (first ∷ second ∷ []) none true
      (Perm.swap first second []) log_passes refl

verify_chain-report_example :
    (is_nil (passed (first ∷ second ∷ [])).errors ≡ (passed (first ∷ second ∷ [])).valid)
    × ((passed (first ∷ second ∷ [])).total_entries ≡ 2)
    × ((passed (first ∷ second ∷ [])).verified_count ≤ (passed (first ∷ second ∷ [])).total_entries)
    × ((passed (first ∷ second ∷ [])).valid ≡ true
        → (passed (first ∷ second ∷ [])).verified_count
          ≡ (passed (first ∷ second ∷ [])).total_entries)
verify_chain-report_example =
    verify_chain-report toy second (first ∷ []) none true {r = passed (first ∷ second ∷ [])}
      log_passes

-- An honest entry for position 1 that claims to be the first.
abbrev misplaced : Entry
misplaced = entry_at toy 1 genesis_previous_hash bundle

abbrev gap_result : ChainResult
gap_result =
    chain_result (misplaced ∷ [])
      (false, record (verdict misplaced) { errors = unexpected_index 0 (int (pos 1)) ∷ [] } ∷ [])

gap_fails : verify_chain toy (misplaced ∷ []) none true ≡ ok gap_result
unfolding verify_chain walk sort_entries check_entry validate_entry_schema hash_errors
    check_entry_signature canonical_json_bytes emit sort_keys all_finite
gap_fails = refl

misplaced_IsAcceptable : IsAcceptable toy none (body_hash toy 1 genesis_previous_hash bundle) bundle
unfolding emit sort_keys
misplaced_IsAcceptable = record {
  known_type = refl;
  full_content = refl;
  full_hash = refl;
  signed = tt;
}

verify_chain-counts_gap_example :
    (gap_result.valid ≡ false) × (gap_result.verified_count ≡ gap_result.total_entries)
verify_chain-counts_gap_example =
    verify_chain-counts_gap toy 0 bundle {r = gap_result} misplaced_IsAcceptable gap_fails
