-- ===== src/Vectors/Counts.antt =====
-- The counts that `verify_vectors` in validators/vectors.py reports.
use specora_verify.Base.{
  ◌≡◌, refl, subst, ℕ, suc, ◌+◌, ◌==◌, String, true, List, [], ◌∷◌, length, arith,
}
use specora_verify.Errors.{ok, >>=-eq-ok, ok-injective, ◌>>=◌}
use specora_verify.Platform.{Platform}
use specora_verify.Vectors.Directory.{Directory}
use specora_verify.Vectors.Verify.{
  VectorResult, verify_single_vector, VectorsResult, count_in, no_vectors, verify_each,
  verify_known,
}

-- All of `n` vectors are counted, as passed or as failed, and the verdict is that none failed.
abbrev pub IsCounted : ℕ → VectorsResult → Type 0
IsCounted n r =
    (r.total ≡ n) × (r.passed + r.failed ≡ n) × (length r.results ≡ n) × (r.valid ≡ (r.failed == 0))

count_in-IsCounted :
    (n : ℕ) (x : VectorResult) (rest : VectorsResult)
    → IsCounted n rest
    → IsCounted (suc n) (count_in x rest)
count_in-IsCounted n x rest (t, p, l, v) =
    (ground (arith, t), ground (arith, p), ground (arith, l), ground (arith, v))

verify_each-IsCounted :
    (P : Platform) (d : Directory) (known : List (String × String)) {r : VectorsResult}
    → verify_each P d known ≡ ok r
    → IsCounted (length known) r
unfolding verify_each
verify_each-IsCounted P d [] {r} h =
    subst (IsCounted 0) (ok-injective no_vectors r h) (refl, refl, refl, refl)
verify_each-IsCounted P d ((spec_id, version) ∷ known) {r} h =
    let (x, hx, h1) =
      >>=-eq-ok (verify_single_vector P d spec_id version)
        (λ x. do rest ← verify_each P d known; ok (count_in x rest)) h in
    let (rest, hr, h2) = >>=-eq-ok (verify_each P d known) (λ rest. ok (count_in x rest)) h1 in
    subst (IsCounted (suc (length known))) (ok-injective (count_in x rest) r h2)
      (count_in-IsCounted (length known) x rest (verify_each-IsCounted P d known hr))

-- If the directory exists, each known vector is counted once, as passed or as failed, and has one
-- result; and the verdict is valid exactly if none has failed.
pub verify_known-IsCounted :
    (P : Platform) (d : Directory) (known : List (String × String)) {r : VectorsResult}
    → d.exists ≡ true
    → verify_known P d known ≡ ok r
    → IsCounted (length known) r
unfolding verify_known
verify_known-IsCounted P d known {r} there h =
    let run : verify_each P d known ≡ ok r = ground (arith, h, there) in
    verify_each-IsCounted P d known run
