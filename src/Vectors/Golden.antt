-- ===== src/Vectors/Golden.antt =====
-- What valid vectors are.
use specora_verify.Base.{
  ◌≡◌, refl, sym, ap, ◌∙◌, ◌↔◌, ℕ, String, eq_iff, eq_refl, true, false, Option, some, List, [],
  ◌∷◌, All, arith, ==_iff, Bool-cases, inl, inr,
}
use specora_verify.Errors.{Result, ok, encoded, encoded-eq-ok, >>=-eq-ok, ok-injective, ◌>>=◌}
use specora_verify.Platform.{Platform}
use specora_verify.Json.{Value}
use specora_verify.Canonical.{canonical_json_bytes}
use specora_verify.Hash.{sha256_hex}
use specora_verify.Vectors.Directory.{JsonFile, parsed, Directory, bytes_eq, strip}
use specora_verify.Vectors.Verify.{
  VectorError, VectorResult, is_valid, file_name, check_files, compared, is_none,
  verify_single_vector, VectorsResult, count_in, no_vectors, verify_each, verify_known,
  check_payload,
}

bytes_eq-eq : (xs ys : List ℕ) → bytes_eq xs ys ≡ true → xs ≡ ys
bytes_eq-eq [] [] h = refl
bytes_eq-eq [] (b ∷ ys) h = absurd (cc)
bytes_eq-eq (a ∷ xs) [] h = absurd (cc)
bytes_eq-eq (a ∷ xs) (b ∷ ys) h =
    let same = (==_iff a b).0 (ground (arith, h)) in
    let rest = bytes_eq-eq xs ys (ground (arith, h)) in cc (same, rest)

bytes_eq_refl : (xs : List ℕ) → bytes_eq xs xs ≡ true
bytes_eq_refl [] = refl
bytes_eq_refl (a ∷ xs) = ground (arith, bytes_eq_refl xs)

-- The three files of a vector agree: the canonical bytes of the payload are those of the second
-- file, and their hash is the text of the third, without the white space around it.
pub record IsGolden (P : Platform) (j : JsonFile) (b : Option (List ℕ)) (t : Option String)
    : Type 0 where
  pub payload : Value
  pub bytes : List ℕ
  pub text : String
  pub read_payload : j ≡ parsed payload
  pub not_null : is_none payload ≡ false
  pub read_bytes : b ≡ some bytes
  pub read_text : t ≡ some text
  pub canonical : canonical_json_bytes payload ≡ some bytes
  pub hashed : strip P text ≡ sha256_hex P bytes

-- The files of a directory that belong to a vector agree.
abbrev pub IsGoldenIn : Platform → Directory → String → String → Type 0
IsGoldenIn P d spec_id version =
    IsGolden P (d.json (file_name spec_id version ".json"))
      (d.bytes (file_name spec_id version ".canonical.json"))
      (d.text (file_name spec_id version ".sha256.txt"))

abbrev IsValid : Result VectorError VectorResult → Type 0
IsValid run = (r : VectorResult) × (run ≡ ok r) × (is_valid r ≡ true)

module _ (P : Platform) (spec_id version : String) where
  result_of : List ℕ → String → List ℕ → VectorResult
  result_of bytes text computed = compared P spec_id version computed bytes (strip P text)

  -- The part behind the check for `null`.
  payload_sound :
      (payload : Value) (bytes : List ℕ) (text : String)
      → is_none payload ≡ false
      → IsValid (check_payload P spec_id version payload bytes (strip P text))
      → IsGolden P (parsed payload) (some bytes) (some text)
  unfolding result_of check_payload
  payload_sound payload bytes text some_value (r, h, v) =
      let (computed, e, same) =
        >>=-eq-ok (encoded (canonical_json_bytes payload)) (λ c. ok (result_of bytes text c)) h in
      let valid = ap is_valid (ok-injective (result_of bytes text computed) r same) ∙ v in
      let equal : computed ≡ bytes = bytes_eq-eq computed bytes (ground (arith, valid)) in
      record {
        payload = payload;
        bytes = bytes;
        text = text;
        read_payload = refl;
        not_null = some_value;
        read_bytes = refl;
        read_text = refl;
        canonical = encoded-eq-ok (canonical_json_bytes payload) e ∙ ap some equal;
        hashed =
            sym ((eq_iff (sha256_hex P computed) (strip P text)).0 (ground (arith, valid)))
            ∙ ap (sha256_hex P) equal;
      }

  files_sound :
      (j : JsonFile) (b : Option (List ℕ)) (t : Option String)
      → IsValid (check_files P spec_id version j b t)
      → IsGolden P j b t
  unfolding check_files result_of
  files_sound (parsed payload) (some bytes) (some text) (r, h, v) =
      elim (Bool-cases (is_none payload)) [
        | inl nothing ↦ absurd (ground (arith, nothing, h, v))
        | inr value ↦ payload_sound payload bytes text value (r, ground (arith, value, h), v)
      ]
  files_sound j b t (r, h, v) = absurd (ground (arith, h, v))

  files_complete :
      (j : JsonFile) (b : Option (List ℕ)) (t : Option String)
      → IsGolden P j b t
      → IsValid (check_files P spec_id version j b t)
  unfolding check_files check_payload result_of
  files_complete j b t g = (
    result_of g.bytes g.text g.bytes,
    rw (g.read_payload, g.read_bytes, g.read_text, g.not_null, g.canonical),
    rw (bytes_eq_refl g.bytes, g.hashed, eq_refl (sha256_hex P g.bytes)),
  )

-- A vector is valid exactly if its three files are there and agree.
pub verify_single_vector-valid_iff :
    (P : Platform) (d : Directory) (spec_id version : String)
    → ((r : VectorResult) × (verify_single_vector P d spec_id version ≡ ok r) × (is_valid r ≡ true))
      ↔ IsGoldenIn P d spec_id version
unfolding verify_single_vector
verify_single_vector-valid_iff P d spec_id version =
    let j = d.json (file_name spec_id version ".json") in
    let b = d.bytes (file_name spec_id version ".canonical.json") in
    let t = d.text (file_name spec_id version ".sha256.txt") in
    (files_sound P spec_id version j b t, files_complete P spec_id version j b t)

each_sound :
    (P : Platform) (d : Directory) (known : List (String × String)) {r : VectorsResult}
    → verify_each P d known ≡ ok r
    → r.valid ≡ true
    → All (λ k. IsGoldenIn P d k.0 k.1) known
unfolding verify_each
each_sound P d [] h v = tt
each_sound P d ((spec_id, version) ∷ known) {r} h v =
    let (x, hx, h1) =
      >>=-eq-ok (verify_single_vector P d spec_id version)
        (λ x. do rest ← verify_each P d known; ok (count_in x rest)) h in
    let (rest, hr, h2) = >>=-eq-ok (verify_each P d known) (λ rest. ok (count_in x rest)) h1 in
    let valid = ap (λ r. r.valid) (ok-injective (count_in x rest) r h2) ∙ v in
    (
      (verify_single_vector-valid_iff P d spec_id version).0 (x, hx, ground (arith, valid)),
      each_sound P d known hr (ground (arith, valid)),
    )

each_complete :
    (P : Platform) (d : Directory) (known : List (String × String))
    → All (λ k. IsGoldenIn P d k.0 k.1) known
    → (r : VectorsResult) × (verify_each P d known ≡ ok r) × (r.valid ≡ true)
unfolding verify_each
each_complete P d [] golden = (no_vectors, refl, refl)
each_complete P d ((spec_id, version) ∷ known) golden =
    let (x, hx, valid) = (verify_single_vector-valid_iff P d spec_id version).1 golden.0 in
    let (rest, hr, others) = each_complete P d known golden.1 in
    (count_in x rest, rw (hx, hr), rw (valid, others))

-- The vectors of a directory are valid exactly if the directory exists and of each known vector the
-- three files are there and agree: the canonical bytes of the payload are those of the second file,
-- and their SHA-256 is the text of the third, without the white space around it.
pub verify_known-valid_iff :
    (P : Platform) (d : Directory) (known : List (String × String))
    → ((r : VectorsResult) × (verify_known P d known ≡ ok r) × (r.valid ≡ true))
      ↔ ((d.exists ≡ true) × All (λ k. IsGoldenIn P d k.0 k.1) known)
unfolding verify_known verify_each each_complete verify_single_vector verify_single_vector-valid_iff
verify_known-valid_iff P d known = (
  λ (r, h, v).
      let there : d.exists ≡ true = ground (arith, h, v) in
      let run : verify_each P d known ≡ ok r = ground (arith, h, there) in
      (there, each_sound P d known run v),
  λ (there, golden). let (r, h, v) = each_complete P d known golden in (r, rw (there) h, v),
)
