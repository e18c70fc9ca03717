-- ===== src/External/Sound.antt =====
-- What `verify_external_anchor` in validators/external_anchor.py finds valid.
use specora_verify.Base.{
  ◌≡◌, refl, sym, subst, ℕ, String, Bool, true, false, Option, none, some, List, [], ◌∷◌, ◌++◌,
  is_nil, All, Bool-cases, Option-cases, arith, inl, inr, ◌&&◌, length, ◌==◌, utf8, pos, ap,
  eq_ℤ_iff, str_eq,
}
use specora_verify.Errors.{Result, ok, encoded, encoded-eq-ok, >>=-eq-ok, ok-injective}
use specora_verify.Platform.{Platform}
use specora_verify.Stp.Body.{get_or}
use specora_verify.Json.{Value, str, obj, Fields, has_key, int, field, end, bool, float}
use specora_verify.Checked.{at}
use specora_verify.Hash.{compute_manifest_hash}
use specora_verify.External.Anchor.{
  AnchorError, AnchorResult, required_fields, payload_for_hash, missing_errors, is_version_one,
  version_errors, hash_errors, validate_external_anchor_schema, schema_failed, check_signature,
  compare_hash, anchor_result, check_content, verify_external_anchor, check_texts,
}
use specora_verify.External.Chain.{own_errors}
use specora_verify.External.Linked.{
  IsSigned, IsAnchor, key_used, missing_sound, signature_sound, compare_sound, IsOne,
  hashed_document,
}

pub nil_parts {ℓ} :
    {A : Type ℓ} (xs ys : List A)
    → is_nil (xs ++ ys) ≡ true
    → (is_nil xs ≡ true) × (is_nil ys ≡ true)
nil_parts [] ys h = (refl, h)
nil_parts (x ∷ xs) ys h = absurd (cc)

is_version_one-IsOne : (P : Platform) (v : Value) → is_version_one P v ≡ true → IsOne P v
is_version_one-IsOne P (int n) h = inl (ap (λ m. int m) ((eq_ℤ_iff n (pos 1)).0 h))
is_version_one-IsOne P (bool b) h = inr (inl (b, refl, h))
is_version_one-IsOne P (float r) h = inr (inr (r, refl, h))
is_version_one-IsOne P v h = absurd (cc)

version_sound : (P : Platform) (v : Value) → is_nil (version_errors P v) ≡ true → IsOne P v
version_sound P v h = elim (Bool-cases (is_version_one P v)) [
  | inl one ↦ is_version_one-IsOne P v one
  | inr other ↦ absurd (ground (arith, other, h))
]

pub present_at :
    (name : String) (fs : Fields) (d : Value)
    → has_key name fs ≡ true
    → at name fs ≡ get_or name d fs
present_at name end d h = absurd (cc)
present_at name (field k v fs) d h = elim (Bool-cases (str_eq k name)) [
  | inl here ↦ ground (arith, here)
  | inr other ↦ ground (arith, other, present_at name fs d (ground (arith, other, h)))
]

-- The payload that the code hashes is the document of an anchor whose version is there.
payload_for_hash-eq :
    (fs : Fields)
    → has_key "schema_version" fs ≡ true
    → obj (payload_for_hash fs) ≡ hashed_document fs
payload_for_hash-eq fs h =
    let same = sym (present_at "schema_version" fs (int (pos 1)) h) in
    ap
      (λ v. obj (
        field "schema_version" v (
          field "timestamp" (at "timestamp" fs) (
            field "chain_head_index" (at "chain_head_index" fs) (
              field "chain_head_hash" (at "chain_head_hash" fs) (
                field "chain_head_signature" (at "chain_head_signature" fs) (
                  field "chain_head_key_id" (at "chain_head_key_id" fs) (
                    field "previous_external_anchor_hash" (at "previous_external_anchor_hash" fs)
                      end))))))))
      same

-- What a schema without errors has.
schema_sound :
    (P : Platform) (fs : Fields) {es : List AnchorError}
    → validate_external_anchor_schema P fs ≡ ok es
    → is_nil es ≡ true
    → All (λ f. has_key f fs ≡ true) required_fields × IsOne P (at "schema_version" fs)
unfolding validate_external_anchor_schema
schema_sound P fs {es} h n =
    let (hashes, run, same) = >>=-eq-ok (hash_errors fs) _ h in
    let (missing, rest) =
      nil_parts (missing_errors fs required_fields)
        (version_errors P (at "schema_version" fs) ++ hashes)
        (subst (λ d. is_nil d ≡ true) (sym (ok-injective _ _ same)) n) in
    (
      missing_sound fs required_fields missing,
      version_sound P (at "schema_version" fs)
          (nil_parts (version_errors P (at "schema_version" fs)) hashes rest).0,
    )

-- What a check of the content that passes shows.
content_sound :
    (P : Platform) (key : Option (List ℕ)) (verify : Bool) (fs : Fields) {r : AnchorResult}
    → check_content P key verify fs ≡ ok r
    → r.valid ≡ true
    → (hash : String) × (at "anchor_hash" fs ≡ str hash)
      × (compute_manifest_hash P (obj (payload_for_hash fs)) ≡ some hash)
      × IsSigned P (key_used P key verify) fs
unfolding check_content
content_sound P key verify fs {r} h valid_h =
    let (computed, run, after) =
      >>=-eq-ok (encoded (compute_manifest_hash P (obj (payload_for_hash fs)))) _ h in
    let (es, compared, same) = >>=-eq-ok (compare_hash computed (at "anchor_hash" fs)) _ after in
    let both : (is_nil es && (check_signature P key verify fs).passed) ≡ true =
      subst (λ d. d.valid ≡ true) (sym (ok-injective _ _ same)) valid_h in
    (
      computed,
      compare_sound computed (at "anchor_hash" fs) compared (ground (arith, both)),
      encoded-eq-ok _ run,
      signature_sound P key verify fs (ground (arith, both)),
    )

pub verify_external_anchor-IsAnchor :
    (P : Platform) (key : Option (List ℕ)) (verify : Bool) (fs : Fields) {r : AnchorResult}
    → verify_external_anchor P key verify fs ≡ ok r
    → r.valid ≡ true
    → (hash : String) × IsAnchor P key verify fs hash
unfolding verify_external_anchor
verify_external_anchor-IsAnchor P key verify fs {r} h valid_h =
    let (es, schema, after) = >>=-eq-ok (validate_external_anchor_schema P fs) _ h in
    elim (Bool-cases (is_nil es)) [
      | inl none_h ↦
          let run : check_content P key verify fs ≡ ok r = ground (arith, none_h, after) in
          let (hash, stated, hashed, signed) = content_sound P key verify fs run valid_h in
          let (complete, version) = schema_sound P fs schema none_h in
          (
            hash,
            record {
              complete = complete;
              known_version = version;
              stated = stated;
              hashed =
                  subst (λ d. compute_manifest_hash P d ≡ some hash)
                    (payload_for_hash-eq fs complete.0) hashed;
              signed = signed;
            },
          )
      | inr some_h ↦
          let failed : ◌≡◌ {A = Result AnchorError AnchorResult} (ok (schema_failed fs es)) (ok r) =
            ground (arith, some_h, after) in
          let same = ok-injective (schema_failed fs es) r failed in
          (let wrong : false ≡ true = subst (λ d. d.valid ≡ true) (sym same) valid_h in absurd (cc))
    ]

texts_explain :
    (P : Platform) (key : List ℕ) (signature hash : Value)
    → (check_texts P key signature hash).passed ≡ false
    → is_nil ((check_texts P key signature hash).errors) ≡ false
texts_explain P key (str s) (str t) h = elim (Option-cases (P.b64decode s)) [
  | inl e ↦ ground (arith, e)
  | inr (bytes, e) ↦ elim (Bool-cases (P.verifies key bytes (utf8 t))) [
    | inl good ↦ absurd (ground (arith, e, good, h))
    | inr bad ↦ ground (arith, e, bad)
  ]
]
texts_explain P key signature hash h = refl

-- A failed check has an error to show.
check_explains :
    (P : Platform) (key : Option (List ℕ)) (verify : Bool) (fs : Fields)
    → (check_signature P key verify fs).passed ≡ false
    → is_nil ((check_signature P key verify fs).errors) ≡ false
unfolding check_signature
check_explains P key false fs h = absurd (cc)
check_explains P none true fs h = absurd (cc)
check_explains P (some key) true fs h = elim (Bool-cases P.crypto_available) [
  | inr off ↦ absurd (ground (arith, off, h))
  | inl on ↦ elim (Bool-cases (length key == 32)) [
    | inr short ↦ ground (arith, on, short)
    | inl full ↦
        let explained =
          texts_explain P key (at "anchor_signature" fs) (at "anchor_hash" fs)
            (ground (arith, on, full, h)) in
        ground (arith, on, full, explained)
  ]
]

-- An anchor that fails its content check has an error to show.
content_explains :
    (P : Platform) (fs : Fields) (es : List AnchorError) (key : Option (List ℕ)) (verify : Bool)
    → (anchor_result fs es (check_signature P key verify fs)).valid ≡ false
    → is_nil ((anchor_result fs es (check_signature P key verify fs)).errors) ≡ false
content_explains P fs [] key verify h = check_explains P key verify fs h
content_explains P fs (e ∷ es) key verify h = refl

content_hidden :
    (P : Platform) (key : Option (List ℕ)) (verify : Bool) (fs : Fields) {r : AnchorResult}
    → check_content P key verify fs ≡ ok r
    → r.valid ≡ false
    → is_nil r.errors ≡ false
unfolding check_content
content_hidden P key verify fs {r} h bad =
    let (computed, run, after) =
      >>=-eq-ok (encoded (compute_manifest_hash P (obj (payload_for_hash fs)))) _ h in
    let (es, compared, same) = >>=-eq-ok (compare_hash computed (at "anchor_hash" fs)) _ after in
    subst (λ d. d.valid ≡ false → is_nil d.errors ≡ false) (ok-injective _ _ same)
      (content_explains P fs es key verify) bad

-- An anchor that shows no errors of its own is valid.
pub own_errors-valid :
    (P : Platform) (key : Option (List ℕ)) (verify : Bool) (fs : Fields) {r : AnchorResult}
    → verify_external_anchor P key verify fs ≡ ok r
    → is_nil (own_errors r) ≡ true
    → r.valid ≡ true
unfolding verify_external_anchor
own_errors-valid P key verify fs {r} h n = elim (Bool-cases r.valid) [
  | inl good ↦ good
  | inr bad ↦
      let shown : is_nil r.errors ≡ true = ground (arith, bad, n) in
      let (es, schema, after) = >>=-eq-ok (validate_external_anchor_schema P fs) _ h in
      elim (Bool-cases (is_nil es)) [
        | inl none_h ↦
            let run : check_content P key verify fs ≡ ok r = ground (arith, none_h, after) in
            let hidden = content_hidden P key verify fs run bad in
            absurd (ground (arith, shown, hidden))
        | inr some_h ↦
            let failed : ◌≡◌ {A = Result AnchorError AnchorResult} (ok (schema_failed fs es))
                (ok r) =
              ground (arith, some_h, after) in
            let same = ok-injective (schema_failed fs es) r failed in
            let listed : is_nil es ≡ true = subst (λ d. is_nil d.errors ≡ true) (sym same) shown in
            absurd (ground (arith, some_h, listed))
      ]
]
