-- ===== src/Bundle/Intact.antt =====
-- The artifacts that `_verify_artifact` in validators/bundle.py finds valid.
use specora_verify.Base.{
  ◌≡◌, refl, ap, ◌∙◌, ◌⊎◌, inl, inr, ℕ, pos, String, eq_refl, true, false, not, ◌&&◌, List, length,
  is_nil, All, Bool-cases, arith,
}
use specora_verify.Errors.{ok, >>=-eq-ok, ok-injective, ◌>>=◌}
use specora_verify.Platform.{Platform}
use specora_verify.Json.{Value, int, str, obj, Items, nil, cons, Fields, to_list}
use specora_verify.Checked.{is_str-eq, truthy, is_str}
use specora_verify.Hash.{sha256_hex}
use specora_verify.Bundle.Archive.{Member, content, no_such_member, damaged, Archive}
use specora_verify.Bundle.Verify.{
  ArtifactVerification, BundleResult, get_or, open_member, is_size, content_errors, check_member,
  verify_artifact, add_artifact, verify_artifacts,
}

-- An artifact of the manifest, whose member has the declared hash, and the declared size unless this
-- is left out or zero.
pub record IsIntact (P : Platform) (z : Archive) (v : Value) : Type 0 where
  pub fields : Fields
  pub name : String
  pub bytes : List ℕ
  pub is_dict : v ≡ obj fields
  pub named : get_or "name" (str "") fields ≡ str name
  pub found : z.read name ≡ content bytes
  pub hashed : get_or "sha256" (str "") fields ≡ str (sha256_hex P bytes)
  pub sized :
      (truthy (get_or "size_bytes" (int (pos 0)) fields) ≡ false)
      ⊎ (is_size P (length bytes) (get_or "size_bytes" (int (pos 0)) fields) ≡ true)

size_cases :
    (P : Platform) (n : ℕ) (v : Value)
    → (truthy v && not (is_size P n v)) ≡ false
    → (truthy v ≡ false) ⊎ (is_size P n v ≡ true)
size_cases P n v h = elim (Bool-cases (truthy v)) [
  | inl t ↦ inr (ground (arith, t, h))
  | inr f ↦ inl f
]

cases_size :
    (P : Platform) (n : ℕ) (v : Value)
    → (truthy v ≡ false) ⊎ (is_size P n v ≡ true)
    → (truthy v && not (is_size P n v)) ≡ false
cases_size P n v (inl f) = ground (arith, f)
cases_size P n v (inr s) = ground (arith, s)

errors_sound :
    (P : Platform) (hash size : Value) (bytes : List ℕ)
    → is_nil (content_errors P hash size bytes) ≡ true
    → (is_str (sha256_hex P bytes) hash ≡ true)
      × ((truthy size && not (is_size P (length bytes) size)) ≡ false)
errors_sound P hash size bytes h = ground (arith, h)

errors_complete :
    (P : Platform) (hash size : Value) (bytes : List ℕ)
    → is_str (sha256_hex P bytes) hash ≡ true
    → (truthy size && not (is_size P (length bytes) size)) ≡ false
    → is_nil (content_errors P hash size bytes) ≡ true
errors_complete P hash size bytes h s = rw (h, s)

-- The member that a valid artifact names, and its bytes.
member_sound :
    (P : Platform) (z : Archive) (name hash size : Value) {m : Member} {a : ArtifactVerification}
    → open_member z name ≡ ok m
    → check_member P name hash size m ≡ ok a
    → a.valid ≡ true
    → (s : String) × (bytes : List ℕ) × (name ≡ str s)
      × (z.read s ≡ content bytes)
      × (is_nil (content_errors P hash size bytes) ≡ true)
member_sound P z (str s) hash size {m = content bytes} o h v =
    (s, bytes, refl, ok-injective (z.read s) (content bytes) o, ground (arith, h, v))
member_sound P z (str s) hash size {m = no_such_member} o h v = absurd (ground (arith, h, v))
member_sound P z (str s) hash size {m = damaged} o h v = absurd (ground (arith, h))
member_sound P z name hash size {m} o h v = absurd (ground (arith, o, h, v))

artifact_sound :
    (P : Platform) (z : Archive) (v : Value) {a : ArtifactVerification}
    → verify_artifact P z v ≡ ok a
    → a.valid ≡ true
    → IsIntact P z v
unfolding verify_artifact
artifact_sound P z (obj fs) h valid =
    let name = get_or "name" (str "") fs in
    let hash = get_or "sha256" (str "") fs in
    let size = get_or "size_bytes" (int (pos 0)) fs in
    let (m, o, h1) = >>=-eq-ok (open_member z name) (check_member P name hash size) h in
    let (s, bytes, named, found, none_wrong) = member_sound P z name hash size {m = m} o h1 valid in
    let (same, sized) = errors_sound P hash size bytes none_wrong in
    record {
      fields = fs;
      name = s;
      bytes = bytes;
      is_dict = refl;
      named = named;
      found = found;
      hashed = is_str-eq (sha256_hex P bytes) hash same;
      sized = size_cases P (length bytes) size sized;
    }
artifact_sound P z v h valid = absurd (ground (arith, h))

artifact_complete :
    (P : Platform) (z : Archive) (v : Value)
    → IsIntact P z v
    → (a : ArtifactVerification) × (verify_artifact P z v ≡ ok a) × (a.valid ≡ true)
unfolding verify_artifact
artifact_complete P z v w =
    let hash = get_or "sha256" (str "") w.fields in
    let size = get_or "size_bytes" (int (pos 0)) w.fields in
    let fine =
      errors_complete P hash size w.bytes (rw (w.hashed) (eq_refl (sha256_hex P w.bytes)))
        (cases_size P (length w.bytes) size w.sized) in
    (
      record {
        name = str w.name;
        declared_hash = hash;
        computed_hash = sha256_hex P w.bytes;
        size_bytes = length w.bytes;
        valid = is_nil (content_errors P hash size w.bytes);
        errors = content_errors P hash size w.bytes;
      },
      rw (w.is_dict, w.named, w.found),
      fine,
    )

pub all_sound :
    (P : Platform) (z : Archive) (start : BundleResult) (vs : Items) {r : BundleResult}
    → verify_artifacts P z start vs ≡ ok r
    → r.valid ≡ true
    → All (IsIntact P z) (to_list vs)
unfolding verify_artifacts
all_sound P z start nil h valid = tt
all_sound P z start (cons v vs) {r} h valid =
    let (a, ha, h1) =
      >>=-eq-ok (verify_artifact P z v)
        (λ a. do rest ← verify_artifacts P z start vs; ok (add_artifact a rest)) h in
    let (rest, hr, h2) =
      >>=-eq-ok (verify_artifacts P z start vs) (λ rest. ok (add_artifact a rest)) h1 in
    let both = ap (λ r. r.valid) (ok-injective (add_artifact a rest) r h2) ∙ valid in
    (
      artifact_sound P z v ha (ground (arith, both)),
      all_sound P z start vs hr (ground (arith, both)),
    )

pub all_complete :
    (P : Platform) (z : Archive) (start : BundleResult) (vs : Items)
    → start.valid ≡ true
    → All (IsIntact P z) (to_list vs)
    → (r : BundleResult) × (verify_artifacts P z start vs ≡ ok r) × (r.valid ≡ true)
unfolding verify_artifacts
all_complete P z start nil s intact = (start, refl, s)
all_complete P z start (cons v vs) s intact =
    let (a, ha, va) = artifact_complete P z v intact.0 in
    let (rest, hr, vr) = all_complete P z start vs s intact.1 in
    (add_artifact a rest, rw (ha, hr), rw (va, vr))
