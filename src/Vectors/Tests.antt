-- ===== src/Vectors/Tests.antt =====
-- Directories with one vector.
use specora_verify.Hash.{sha256_hex}
use specora_verify.Canonical.{canonical_json_bytes, all_finite, emit, sort_keys}
use specora_verify.Base.{◌≡◌, refl, ◌↔◌, true, some, All, utf8}
use specora_verify.Errors.{Result, ok, err}
use specora_verify.Json.{str, obj, end, field}
use specora_verify.Toy.{toy}
use specora_verify.Vectors.Directory.{Directory, parsed}
use specora_verify.Vectors.Verify.{
  VectorError, VectorsResult, no_vectors, anchor_vectors, verify_known, verify_each,
  verify_single_vector, check_files, check_payload,
}
use specora_verify.Vectors.Golden.{IsGoldenIn, verify_known-valid_iff}
use specora_verify.Vectors.Counts.{IsCounted, verify_known-IsCounted}

-- Every file name leads to the same vector.
abbrev directory : Directory
directory = record {
  exists = true;
  json = λ name. parsed (obj (field "a" (str "b") end));
  bytes = λ name. some (utf8 "{\"a\":\"b\"}");
  text = λ name. some "bbbbbbbbbbbbbbbbbbbbbbbbbbbbbbbbbbbbbbbbbbbbbbbbbbbbbbbbbbbbbbbb ";
}

abbrev result_in : Result VectorError VectorsResult → VectorsResult
result_in (ok r) = r
result_in (err e) = no_vectors

abbrev verdict : VectorsResult
verdict = result_in (verify_known toy directory anchor_vectors)

directory_checked :
    (verify_known toy directory anchor_vectors ≡ ok verdict) × (verdict.valid ≡ true)
unfolding verify_known verify_each verify_single_vector check_files check_payload
    canonical_json_bytes all_finite emit sort_keys utf8 sha256_hex
directory_checked = (refl, refl)

verify_known-valid_iff_example :
    ((r : VectorsResult) × (verify_known toy directory anchor_vectors ≡ ok r) × (r.valid ≡ true))
    ↔ ((directory.exists ≡ true) × All (λ k. IsGoldenIn toy directory k.0 k.1) anchor_vectors)
verify_known-valid_iff_example = verify_known-valid_iff toy directory anchor_vectors

verify_known-IsCounted_example : IsCounted 1 verdict
verify_known-IsCounted_example =
    verify_known-IsCounted toy directory anchor_vectors {r = verdict} refl directory_checked.0
