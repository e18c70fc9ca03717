-- ===== src/Manifest/Conforms.antt =====
-- The manifests that `validate_manifest` in validators/manifest.py finds valid.
use specora_verify.Base.{
  ◌≡◌, refl, sym, ap, subst, ◌∙◌, ◌↔◌, inl, inr, String, str_truthy, eq_iff, true, false, ◌&&◌,
  Option, none, some, List, [], ◌∷◌, All, is_nil, is_nil-append, Bool-cases, arith,
}
use specora_verify.Errors.{Result, ok, encoded, encoded-eq-ok, >>=-eq-ok, ok-injective}
use specora_verify.Platform.{Platform}
use specora_verify.Json.{obj, Fields, has_key}
use specora_verify.Checked.{missing_from}
use specora_verify.Hash.{compute_manifest_hash}
use specora_verify.Manifest.Contract.{
  ManifestContract, get_contract, detect_spec_id, validate_required_fields, get_field_validators,
}
use specora_verify.Manifest.Fields.{ManifestError, not_detected, unknown_contract, check_no_floats}
use specora_verify.Manifest.Floats.{FloatIn, check_no_floats_iff}
use specora_verify.Manifest.Typed.{AllTyped, field_errors_iff}
use specora_verify.Manifest.Validate.{
  ManifestResult, or_else, text_or, compare_hash, field_errors, type_errors, contract_result,
  check_contract, with_spec_id, validate_manifest, with_contract, invalid,
}

missing_from_iff :
    (payload : Fields) (names : List String)
    → (is_nil (missing_from payload names) ≡ true) ↔ All (λ f. has_key f payload ≡ true) names
missing_from_iff payload [] = (λ h. tt, λ h. refl)
missing_from_iff payload (n ∷ ns) =
    let rest = missing_from_iff payload ns in
    (λ h. (ground (arith, h), rest.0 (ground (arith, h))), λ (a, b). ground (arith, a, rest.1 b))

-- The hash is the expected one, if one is given that is not empty.
abbrev pub IsExpected : Option String → String → Type 0
IsExpected none computed = Unit
IsExpected (some e) computed = computed ≡ e

wanted_none : (e : String) → str_truthy e ≡ false → or_else (some e) none ≡ none
wanted_none e h = rw (h)

wanted_some : (e : String) → str_truthy e ≡ true → or_else (some e) none ≡ some e
wanted_some e h = rw (h)

compare_hash_iff :
    (expected : Option String) (computed : String)
    → (is_nil (compare_hash expected computed) ≡ true) ↔ IsExpected (or_else expected none) computed
compare_hash_iff none computed = (λ h. tt, λ h. refl)
compare_hash_iff (some t) computed = elim (Bool-cases (str_truthy t)) [
  | inl given ↦
      rw (given) (
        λ h. (eq_iff computed t).0 (ground (arith, h)),
        λ h. ground (arith, (eq_iff computed t).1 h),
      )
  | inr empty ↦ rw (empty) (λ h. tt, λ h. refl)
]

-- A manifest in the form of a contract: no required field is missing, no float is reached, the
-- fields have the declared types, and the hash is as expected.
pub record Conforms (P : Platform) (contract : ManifestContract) (expected : Option String)
    (payload : Fields) : Type 0 where
  pub complete : All (λ f. has_key f payload ≡ true) contract.required_fields
  pub float_free : ¬ ((r : String) × FloatIn r payload)
  pub typed : AllTyped P payload (get_field_validators contract)
  pub computed : String
  pub hashed : compute_manifest_hash P (obj payload) ≡ some computed
  pub as_expected : IsExpected (or_else expected none) computed

pub some_injective {ℓ} : {A : Type ℓ} {a b : A} → ◌≡◌ {A = Option A} (some a) (some b) → a ≡ b
some_injective h = cc

abbrev Accepts : Platform → ManifestContract → String → String → Option String → Fields → Type 0
Accepts P contract spec_id version expected payload =
    (r : ManifestResult) × (check_contract P contract spec_id version expected payload ≡ ok r)
    × (r.valid ≡ true)

module _ (P : Platform) (contract : ManifestContract) (spec_id version : String)
    (expected : Option String) (payload : Fields) where
  result_of : String → ManifestResult
  result_of computed = contract_result P contract spec_id version expected payload computed

  types_split : is_nil (type_errors P contract payload) ≡ (
      is_nil (check_no_floats [] payload)
      && is_nil (field_errors P payload (get_field_validators contract)))
  types_split =
      is_nil-append (check_no_floats [] payload)
        (field_errors P payload (get_field_validators contract))

  contract_sound :
      Accepts P contract spec_id version expected payload → Conforms P contract expected payload
  unfolding check_contract validate_required_fields result_of
  contract_sound (r, h, v) =
      let (computed, e, same) =
        >>=-eq-ok (encoded (compute_manifest_hash P (obj payload))) (λ c. ok (result_of c)) h in
      let valid = ap (λ r. r.valid) (ok-injective (result_of computed) r same) ∙ v in
      record {
        complete = (missing_from_iff payload contract.required_fields).0 (ground (arith, valid));
        float_free = (check_no_floats_iff [] payload).0 (ground (arith, valid, types_split));
        typed =
            (field_errors_iff P payload (get_field_validators contract)).0
              (ground (arith, valid, types_split));
        computed = computed;
        hashed = encoded-eq-ok (compute_manifest_hash P (obj payload)) e;
        as_expected = (compare_hash_iff expected computed).0 (ground (arith, valid));
      }

  contract_complete :
      Conforms P contract expected payload → Accepts P contract spec_id version expected payload
  unfolding check_contract validate_required_fields result_of
  contract_complete c = (
    result_of c.computed,
    rw (c.hashed),
    rw (
      types_split,
      (missing_from_iff payload contract.required_fields).1 c.complete,
      (check_no_floats_iff [] payload).1 c.float_free,
      (field_errors_iff P payload (get_field_validators contract)).1 c.typed,
      (compare_hash_iff expected c.computed).1 c.as_expected,
    ),
  )

abbrev IsValid : Result ManifestError ManifestResult → Type 0
IsValid run = (r : ManifestResult) × (run ≡ ok r) × (r.valid ≡ true)

never_valid : (r : ManifestResult) → r.valid ≡ false → ¬ IsValid (ok r)
never_valid r invalid (s, same, valid) = cc (ok-injective r s same, invalid, valid)

with_contract_iff :
    (P : Platform) (spec_id version : String) (expected : Option String) (payload : Fields)
    (known : Option ManifestContract)
    → IsValid (with_contract P spec_id version expected payload known) ↔ (
        (contract : ManifestContract) × (known ≡ some contract)
        × Conforms P contract expected payload)
with_contract_iff P spec_id version expected payload none = (
  λ h. absurd (
      never_valid
        (invalid expected (some spec_id) (some version) (unknown_contract spec_id version)) refl h),
  λ (contract, e, c). absurd (cc),
)
with_contract_iff P spec_id version expected payload (some contract) = (
  λ h. (contract, refl, contract_sound P contract spec_id version expected payload h),
  λ (other, e, c).
      contract_complete P contract spec_id version expected payload
        (subst (λ k. Conforms P k expected payload) (sym (some_injective e)) c),
)

with_spec_id_iff :
    (P : Platform) (version : String) (expected : Option String) (payload : Fields)
    (named : Option String)
    → IsValid (with_spec_id P version expected payload named) ↔ (
        (name : String) × (contract : ManifestContract) × (named ≡ some name)
        × (get_contract name version ≡ some contract)
        × Conforms P contract expected payload)
with_spec_id_iff P version expected payload none = (
  λ h. absurd (never_valid (invalid expected none none not_detected) refl h),
  λ (name, contract, e, g, c). absurd (cc),
)
with_spec_id_iff P version expected payload (some name) =
    let known = with_contract_iff P name version expected payload (get_contract name version) in
    (
      λ h. let (contract, g, c) = known.0 h in (name, contract, refl, g, c),
      λ (other, contract, e, g, c). known.1 (
        contract,
        subst (λ n. get_contract n version ≡ some contract) (sym (some_injective e)) g,
        c,
      ),
    )

-- A manifest is valid exactly if its contract, named by the caller or detected, is a registered one
-- and the manifest is in its form: no required field is missing, no float is reached, the fields
-- have the declared types, its hash can be computed, and it is the expected one if one is given.
pub validate_manifest-valid_iff :
    (P : Platform) (payload : Fields) (expected spec_id version : Option String)
    → ((r : ManifestResult) × (validate_manifest P payload expected spec_id version ≡ ok r)
        × (r.valid ≡ true))
      ↔ ((name : String) × (contract : ManifestContract) × (or_else spec_id (detect_spec_id payload)
            ≡ some name)
          × (get_contract name (text_or version "1.0.0") ≡ some contract)
          × Conforms P contract expected payload)
unfolding validate_manifest
validate_manifest-valid_iff P payload expected spec_id version =
    with_spec_id_iff P (text_or version "1.0.0") expected payload
      (or_else spec_id (detect_spec_id payload))
