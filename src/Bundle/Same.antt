-- ===== src/Bundle/Same.antt =====
-- Two bundles with the same manifest.
use specora_verify.Base.{◌≡◌, sym, ap, subst, ◌∙◌, ℕ, String, true, List, [], All, All-both}
use specora_verify.Errors.{Result, ok, err}
use specora_verify.Platform.{Platform}
use specora_verify.Json.{Value, null, str, arr, obj, Items, nil, to_list}
use specora_verify.Hash.{sha256_hex}
use specora_verify.Bundle.Archive.{Member, content, JsonText, parsed, Archive, opened}
use specora_verify.Bundle.Verify.{BundleError, BundleResult, get_or, iterated, verify_bundle}
use specora_verify.Bundle.Intact.{IsIntact}
use specora_verify.Bundle.Sound.{IsBundle, verify_bundle-valid_iff}

abbrev name_in : Value → String
name_in (str s) = s
name_in v = ""

-- The name of an artifact.
abbrev pub name_of : Value → String
name_of (obj fs) = name_in (get_or "name" (str "") fs)
name_of v = ""

abbrev run_items : Result BundleError Items → List Value
run_items (ok vs) = to_list vs
run_items (err e) = []

abbrev listed_in_manifest : JsonText → List Value
listed_in_manifest (parsed (obj fs)) = run_items (iterated (get_or "artifacts" (arr nil) fs))
listed_in_manifest j = []

-- The artifacts that the manifest of a bundle lists.
abbrev pub listed_artifacts : (List ℕ → JsonText) → Member → List Value
listed_artifacts loads (content bytes) = listed_in_manifest (loads bytes)
listed_artifacts loads m = []

-- SHA-256 tells the contents of the two bundles apart.
abbrev pub TellsApart : Platform → Archive → Archive → Type 0
TellsApart P z w =
    (name : String) (a b : List ℕ)
    → z.read name ≡ content a
    → w.read name ≡ content b
    → P.hexdigest a ≡ P.hexdigest b
    → a ≡ b

intact_name : (P : Platform) (z : Archive) (v : Value) (a : IsIntact P z v) → name_of v ≡ a.name
intact_name P z v a = ap name_of a.is_dict ∙ ap name_in a.named

hash_declared : Value → Value
hash_declared (obj fs) = get_or "sha256" (str "") fs
hash_declared v = null

str_injective : (s t : String) → str s ≡ str t → s ≡ t
str_injective s t h = cc

intact_same :
    (P : Platform) (z w : Archive)
    → TellsApart P z w
    → (v : Value) → IsIntact P z v
    → IsIntact P w v
    → z.read (name_of v) ≡ w.read (name_of v)
unfolding sha256_hex hash_declared
intact_same P z w apart v a b =
    let na = intact_name P z v a in
    let nb = intact_name P w v b in
    let hash_a : hash_declared v ≡ str (P.hexdigest a.bytes) =
      ap hash_declared a.is_dict ∙ a.hashed in
    let hash_b : hash_declared v ≡ str (P.hexdigest b.bytes) =
      ap hash_declared b.is_dict ∙ b.hashed in
    let found_a : z.read (name_of v) ≡ content a.bytes = ap z.read na ∙ a.found in
    let found_b : w.read (name_of v) ≡ content b.bytes = ap w.read nb ∙ b.found in
    found_a
    ∙ ap content (
        apart (name_of v) a.bytes b.bytes found_a found_b
          (str_injective (P.hexdigest a.bytes) (P.hexdigest b.bytes) (sym hash_a ∙ hash_b)))
    ∙ sym found_b

opened_injective : (z w : Archive) → opened z ≡ opened w → z ≡ w
opened_injective z w h = cc

-- All that the manifest of a valid bundle lists is intact.
all_listed :
    (P : Platform) (loads : List ℕ → JsonText) (z : Archive)
    → IsBundle P loads (opened z)
    → All (IsIntact P z) (listed_artifacts loads (z.read "manifest.json"))
all_listed P loads z b =
    let same = opened_injective z b.archive b.is_zip in
    let lists : listed_artifacts loads (b.archive.read "manifest.json") ≡ to_list b.artifacts =
      ap (listed_artifacts loads) b.found
      ∙ ap listed_in_manifest b.loaded
      ∙ ap run_items b.listed_artifacts in
    subst (λ y. All (IsIntact P y) (listed_artifacts loads (y.read "manifest.json"))) (sym same)
      (subst (All (IsIntact P b.archive)) (sym lists) b.intact)

-- Two valid bundles with the same manifest hold the same contents under the name of every artifact
-- that it lists, provided that SHA-256 tells these contents apart.
pub verify_bundle-same_contents :
    (P : Platform) (loads : List ℕ → JsonText) (z w : Archive) {r s : BundleResult}
    → verify_bundle P loads (opened z) ≡ ok r
    → r.valid ≡ true
    → verify_bundle P loads (opened w) ≡ ok s
    → s.valid ≡ true
    → z.read "manifest.json" ≡ w.read "manifest.json"
    → TellsApart P z w
    → All
        (λ v. z.read (name_of v) ≡ w.read (name_of v))
        (listed_artifacts loads (z.read "manifest.json"))
verify_bundle-same_contents P loads z w {r} {s} hz vz hw vw same apart =
    let a = (verify_bundle-valid_iff P loads (opened z)).0 (r, hz, vz) in
    let b = (verify_bundle-valid_iff P loads (opened w)).0 (s, hw, vw) in
    let listed_z = listed_artifacts loads (z.read "manifest.json") in
    All-both listed_z (all_listed P loads z a)
      (subst (λ m. All (IsIntact P w) (listed_artifacts loads m)) (sym same)
        (all_listed P loads w b))
      (intact_same P z w apart)
