-- ===== src/Identity/Records.antt =====
-- The bundles that `validate_bundle_v1_1` in wire_spec.py finds valid.
use specora_verify.Base.{
  ◌≡◌, refl, ap, ◌∙◌, ◌↔◌, ◌⊎◌, inl, inr, ℕ, suc, ℤ, String, true, false, Option, none, some, [],
  All, arith,
}
use specora_verify.Errors.{Result, ok, >>=-eq-ok, ok-injective, ◌>>=◌}
use specora_verify.Platform.{Platform}
use specora_verify.Json.{Value, null, arr, obj, Items, nil, cons, Fields, to_list}
use specora_verify.Checked.{at}
use specora_verify.Identity.Certificate.{Clock, Reason, validate_agent_identity_certificate}
use specora_verify.Identity.Certified.{IsCertified}
use specora_verify.Identity.Complete.{validate_agent_identity_certificate-valid_iff}
use specora_verify.Identity.Wire.{
  Status, absent, valid, is_failure, WireResult, identity_status, check_identity, record_status,
  Verdicts, add_verdict, check_records, wire_result, validate_bundle_v1_1, validate_records,
}

-- No identity, or one that is certified by the issuer whose key is given.
abbrev pub IsTrusted : Platform → Clock → Option String → ℤ → Value → Type 0
IsTrusted P T issuer now identity =
    (identity ≡ null) ⊎ ((key : String) × (issuer ≡ some key) × IsCertified P T key now identity)

-- A record of a bundle.
pub record IsRecord (P : Platform) (T : Clock) (issuer : Option String) (now : ℤ) (v : Value)
    : Type 0 where
  pub fields : Fields
  pub is_dict : v ≡ obj fields
  pub trusted : IsTrusted P T issuer now (at "agent_identity" fields)

abbrev Passes : Result Reason Status → Type 0
Passes run = (s : Status) × (run ≡ ok s) × (is_failure s ≡ false)

module _ (P : Platform) (T : Clock) (now : ℤ) where
  identity_sound :
      (issuer : Option String) (v : Value)
      → Passes (check_identity P T issuer now v)
      → IsTrusted P T issuer now v
  identity_sound issuer null p = inl refl
  identity_sound none v (s, h, fine) = absurd (ground (arith, h, fine))
  identity_sound (some key) v (s, h, fine) =
      let (r, hr, same) =
        >>=-eq-ok (validate_agent_identity_certificate P T key now v) (λ r. ok (identity_status r))
          h in
      let status = ok-injective (identity_status r) s same in
      inr (
        key,
        refl,
        (validate_agent_identity_certificate-valid_iff P T key now v).0
            (r, hr, ground (arith, status, fine)),
      )

  check_identity-Passes :
      (key : String) (v : Value)
      → IsCertified P T key now v
      → Passes (check_identity P T (some key) now v)
  check_identity-Passes key null c = (absent, refl, refl)
  check_identity-Passes key v c =
      let (r, h, ok_verdict) = (validate_agent_identity_certificate-valid_iff P T key now v).1 c in
      (valid, rw (h, ok_verdict), refl)

  identity_complete :
      (issuer : Option String) (v : Value)
      → IsTrusted P T issuer now v
      → Passes (check_identity P T issuer now v)
  identity_complete issuer v (inl e) = (absent, rw (e), refl)
  identity_complete issuer v (inr (key, e, c)) =
      let (s, h, fine) = check_identity-Passes key v c in (s, rw (e) h, fine)

module _ (P : Platform) (T : Clock) (issuer : Option String) (now : ℤ) where
  record_status-IsRecord :
      (v : Value) → Passes (record_status P T issuer now v) → IsRecord P T issuer now v
  unfolding record_status
  record_status-IsRecord (obj fs) p = record {
    fields = fs;
    is_dict = refl;
    trusted = identity_sound P T now issuer (at "agent_identity" fs) p;
  }
  record_status-IsRecord v (s, h, fine) = absurd (ground (arith, h, fine))

  record_complete :
      (v : Value) → IsRecord P T issuer now v → Passes (record_status P T issuer now v)
  unfolding record_status
  record_complete v w =
      let (s, h, fine) =
        identity_complete P T now issuer (at "agent_identity" w.fields) w.trusted in
      (s, rw (w.is_dict) h, fine)

  records_sound :
      (i : ℕ) (vs : Items) {w : Verdicts}
      → check_records P T issuer now i vs ≡ ok w
      → w.valid ≡ true
      → All (IsRecord P T issuer now) (to_list vs)
  unfolding check_records
  records_sound i nil h v = tt
  records_sound i (cons x xs) {w} h v =
      let (s, hs, h1) =
        >>=-eq-ok (record_status P T issuer now x)
          (λ s. do rest ← check_records P T issuer now (suc i) xs; ok (add_verdict i s rest)) h in
      let (rest, hr, h2) =
        >>=-eq-ok (check_records P T issuer now (suc i) xs) (λ rest. ok (add_verdict i s rest))
          h1 in
      let both = ap (λ w. w.valid) (ok-injective (add_verdict i s rest) w h2) ∙ v in
      (
        record_status-IsRecord x (s, hs, ground (arith, both)),
        records_sound (suc i) xs hr (ground (arith, both)),
      )

  records_complete :
      (i : ℕ) (vs : Items)
      → All (IsRecord P T issuer now) (to_list vs)
      → (w : Verdicts) × (check_records P T issuer now i vs ≡ ok w) × (w.valid ≡ true)
  unfolding check_records
  records_complete i nil a = (record { valid = true; verdicts = []; reasons = [] }, refl, refl)
  records_complete i (cons x xs) a =
      let (s, hs, fine) = record_complete x a.0 in
      let (rest, hr, v) = records_complete (suc i) xs a.1 in
      (add_verdict i s rest, rw (hs, hr), rw (fine, v))

  array_sound :
      (v : Value) {r : WireResult}
      → validate_records P T issuer now v ≡ ok r
      → r.valid ≡ true
      → (vs : Items) × (v ≡ arr vs) × All (IsRecord P T issuer now) (to_list vs)
  array_sound (arr vs) {r} h v =
      let (w, hw, same) =
        >>=-eq-ok (check_records P T issuer now 0 vs) (λ w. ok (wire_result vs w)) h in
      let result = ok-injective (wire_result vs w) r same in
      (vs, refl, records_sound 0 vs hw (ap (λ r. r.valid) result ∙ v))
  array_sound v h fine = absurd (ground (arith, h, fine))

-- A bundle with an array of records, all of them as they should be.
pub record IsBundleOfRecords (P : Platform) (T : Clock) (issuer : Option String) (now : ℤ)
    (bundle : Value) : Type 0 where
  pub fields : Fields
  pub records : Items
  pub is_dict : bundle ≡ obj fields
  pub listed : at "records" fields ≡ arr records
  pub all_records : All (IsRecord P T issuer now) (to_list records)

bundle_sound :
    (P : Platform) (T : Clock) (issuer : Option String) (now : ℤ) (bundle : Value) {r : WireResult}
    → validate_bundle_v1_1 P T issuer now bundle ≡ ok r
    → r.valid ≡ true
    → IsBundleOfRecords P T issuer now bundle
unfolding validate_bundle_v1_1
bundle_sound P T issuer now (obj fs) h v =
    let (vs, e, a) = array_sound P T issuer now (at "records" fs) h v in
    record { fields = fs; records = vs; is_dict = refl; listed = e; all_records = a }
bundle_sound P T issuer now bundle h v = absurd (ground (arith, h, v))

-- A bundle is valid exactly if it is an object with an array of records, and each record is an
-- object that carries no identity (or `null`), or one that is certified by the issuer whose key is
-- given.
pub validate_bundle_v1_1-valid_iff :
    (P : Platform) (T : Clock) (issuer : Option String) (now : ℤ) (bundle : Value)
    → ((r : WireResult) × (validate_bundle_v1_1 P T issuer now bundle ≡ ok r) × (r.valid ≡ true))
      ↔ IsBundleOfRecords P T issuer now bundle
unfolding validate_bundle_v1_1
validate_bundle_v1_1-valid_iff P T issuer now bundle = (
  λ (r, h, v). bundle_sound P T issuer now bundle {r = r} h v,
  λ w.
      let (x, h, v) = records_complete P T issuer now 0 w.records w.all_records in
      (wire_result w.records x, rw (w.is_dict, w.listed, h), v),
)
