-- ===== src/Bundle/Sound.antt =====
-- The bundles that `verify_bundle` in validators/bundle.py finds valid.
use specora_verify.Base.{
  ◌≡◌, refl, ◌↔◌, inl, inr, ℕ, String, str_mem, true, some, List, All, Bool-cases, arith,
}
use specora_verify.Errors.{Result, ok, encoded, encoded-eq-ok, >>=-eq-ok, ◌>>=◌}
use specora_verify.Platform.{Platform}
use specora_verify.Json.{arr, obj, Items, nil, Fields, to_list}
use specora_verify.Hash.{compute_manifest_hash}
use specora_verify.Bundle.Archive.{Member, content, JsonText, parsed, Archive, BundleFile, opened}
use specora_verify.Bundle.Verify.{
  BundleError, BundleResult, get_or, of_manifest, verify_artifacts, iterated, check_manifest,
  verify_bundle, check_text, check_json,
}
use specora_verify.Bundle.Intact.{IsIntact, all_sound, all_complete}

-- A bundle that is a ZIP file with a manifest, of which every listed artifact is intact.
pub record IsBundle (P : Platform) (loads : List ℕ → JsonText) (file : BundleFile) : Type 0 where
  pub archive : Archive
  pub bytes : List ℕ
  pub manifest : Fields
  pub hash : String
  pub artifacts : Items
  pub is_zip : file ≡ opened archive
  pub listed : str_mem "manifest.json" archive.names ≡ true
  pub found : archive.read "manifest.json" ≡ content bytes
  pub loaded : loads bytes ≡ parsed (obj manifest)
  pub hashed : compute_manifest_hash P (obj manifest) ≡ some hash
  pub listed_artifacts :
      ◌≡◌ {A = Result BundleError Items}
        (iterated (get_or "artifacts" (arr nil) manifest))
        (ok artifacts)
  pub intact : All (IsIntact P archive) (to_list artifacts)

module _ (P : Platform) (loads : List ℕ → JsonText) (z : Archive)
    (listed : str_mem "manifest.json" z.names ≡ true) where
  json_sound :
      (bytes : List ℕ) (j : JsonText) {r : BundleResult}
      → z.read "manifest.json" ≡ content bytes
      → loads bytes ≡ j
      → check_json P z j ≡ ok r
      → r.valid ≡ true
      → IsBundle P loads (opened z)
  unfolding check_manifest
  json_sound bytes (parsed (obj fs)) found loaded h valid =
      let (hash, e, h1) =
        >>=-eq-ok (encoded (compute_manifest_hash P (obj fs)))
          (λ hash. do
            vs ← iterated (get_or "artifacts" (arr nil) fs)
            verify_artifacts P z (of_manifest fs hash) vs)
          h in
      let (vs, it, h2) =
        >>=-eq-ok (iterated (get_or "artifacts" (arr nil) fs))
          (verify_artifacts P z (of_manifest fs hash)) h1 in
      record {
        archive = z;
        bytes = bytes;
        manifest = fs;
        hash = hash;
        artifacts = vs;
        is_zip = refl;
        listed = listed;
        found = found;
        loaded = loaded;
        hashed = encoded-eq-ok (compute_manifest_hash P (obj fs)) e;
        listed_artifacts = it;
        intact = all_sound P z (of_manifest fs hash) vs h2 valid;
      }
  json_sound bytes j found loaded h valid = absurd (ground (arith, h, valid))

  text_sound :
      (m : Member) {r : BundleResult}
      → z.read "manifest.json" ≡ m
      → check_text P loads z m ≡ ok r
      → r.valid ≡ true
      → IsBundle P loads (opened z)
  text_sound (content bytes) found h valid = json_sound bytes (loads bytes) found refl h valid
  text_sound m found h valid = absurd (ground (arith, h))

file_sound :
    (P : Platform) (loads : List ℕ → JsonText) (file : BundleFile) {r : BundleResult}
    → verify_bundle P loads file ≡ ok r
    → r.valid ≡ true
    → IsBundle P loads file
unfolding verify_bundle
file_sound P loads (opened z) {r} h valid = elim (Bool-cases (str_mem "manifest.json" z.names)) [
  | inl listed ↦
      text_sound P loads z listed (z.read "manifest.json") {r = r} refl (ground (arith, listed, h))
        valid
  | inr unlisted ↦ absurd (ground (arith, unlisted, h, valid))
]
file_sound P loads file h valid = absurd (ground (arith, h, valid))

-- A bundle is valid exactly if it is a ZIP file that lists `manifest.json`, the manifest is an
-- object whose hash can be computed, and every artifact that it lists is a member with the declared
-- hash, and with the declared size unless this is left out or zero.
pub verify_bundle-valid_iff :
    (P : Platform) (loads : List ℕ → JsonText) (file : BundleFile)
    → ((r : BundleResult) × (verify_bundle P loads file ≡ ok r) × (r.valid ≡ true))
      ↔ IsBundle P loads file
unfolding verify_bundle check_manifest
verify_bundle-valid_iff P loads file = (
  λ (r, h, v). file_sound P loads file h v,
  λ w.
      let (r, h, valid) =
        all_complete P w.archive (of_manifest w.manifest w.hash) w.artifacts refl w.intact in
      (r, rw (w.is_zip, w.listed, w.found, w.loaded, w.hashed, w.listed_artifacts) h, valid),
)
