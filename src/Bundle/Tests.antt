-- ===== src/Bundle/Tests.antt =====
-- A bundle with one artifact.
use specora_verify.Canonical.{canonical_json_bytes, all_finite}
use specora_verify.Hash.{compute_manifest_hash}
use specora_verify.Base.{◌≡◌, refl, pos, ◌↔◌, ℕ, str_eq, true, List, [], ◌∷◌, All, if◌then◌else◌}
use specora_verify.Errors.{Result, ok, err}
use specora_verify.Json.{Value, str, int, arr, obj, nil, cons, end, field}
use specora_verify.Toy.{toy}
use specora_verify.Bundle.Archive.{Archive, JsonText, parsed, opened, content}
use specora_verify.Bundle.Verify.{
  BundleError, BundleResult, rejected, bundle_missing, verify_bundle, check_manifest,
  verify_artifacts, verify_artifact,
}
use specora_verify.Bundle.Sound.{IsBundle, verify_bundle-valid_iff}
use specora_verify.Bundle.Same.{TellsApart, name_of, listed_artifacts, verify_bundle-same_contents}

abbrev artifact : Value
artifact = obj (
    field "name" (str "log.json") (
      field "sha256" (str "bbbbbbbbbbbbbbbbbbbbbbbbbbbbbbbbbbbbbbbbbbbbbbbbbbbbbbbbbbbbbbbb")
        (field "size_bytes" (int (pos 3)) end)))

-- Whatever the bytes, the manifest is the same.
abbrev loads : List ℕ → JsonText
loads bytes = parsed (obj (field "artifacts" (arr (cons artifact nil)) end))

-- A member that the manifest does not list goes unnoticed.
abbrev archive : Archive
archive = record {
  names = "manifest.json" ∷ "log.json" ∷ "other.bin" ∷ [];
  read = λ name. if str_eq name "other.bin" then content (9 ∷ []) else content (1 ∷ 2 ∷ 3 ∷ []);
}

abbrev result_in : Result BundleError BundleResult → BundleResult
result_in (ok r) = r
result_in (err e) = rejected bundle_missing

abbrev verdict : BundleResult
verdict = result_in (verify_bundle toy loads (opened archive))

archive_valid : (verify_bundle toy loads (opened archive) ≡ ok verdict) × (verdict.valid ≡ true)
unfolding verify_bundle check_manifest compute_manifest_hash canonical_json_bytes all_finite
    verify_artifacts verify_artifact
archive_valid = (refl, refl)

verify_bundle-valid_iff_example :
    ((r : BundleResult) × (verify_bundle toy loads (opened archive) ≡ ok r) × (r.valid ≡ true))
    ↔ IsBundle toy loads (opened archive)
verify_bundle-valid_iff_example = verify_bundle-valid_iff toy loads (opened archive)

told_apart : TellsApart toy archive archive
told_apart name a b ha hb e = cc (ha, hb)

verify_bundle-same_contents_example :
    All
      (λ v. archive.read (name_of v) ≡ archive.read (name_of v))
      (listed_artifacts loads (archive.read "manifest.json"))
verify_bundle-same_contents_example =
    verify_bundle-same_contents toy loads archive archive {r = verdict} {s = verdict}
      archive_valid.0 archive_valid.1 archive_valid.0 archive_valid.1 refl told_apart
