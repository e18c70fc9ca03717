-- ===== src/Manifest/Required.antt =====
-- The required fields of the contracts in contracts/registry.py have types, and a valid manifest
-- has values of these types.
use specora_verify.Base.{
  ◌≡◌, refl, subst, inl, inr, String, str_eq, eq_iff, Bool, true, ◌&&◌, Option, none, some, List,
  [], ◌∷◌, All, All-both, all, Option-cases, Bool-cases, if◌then◌else◌, arith,
}
use specora_verify.Errors.{ok}
use specora_verify.Platform.{Platform}
use specora_verify.Json.{Value, end, field, Fields, get, has_key}
use specora_verify.Chain.Entry.{is_some}
use specora_verify.Manifest.Contract.{
  proof_manifest_v1, attestation_manifest_v1, anchor_payload_v1, anchor_receipt_v1, FieldType,
  ManifestContract, find_contract, contracts, get_contract, detect_spec_id, get_field_validators,
}
use specora_verify.Manifest.Typed.{HasType, IsField, AllTyped}
use specora_verify.Manifest.Validate.{ManifestResult, or_else, text_or, validate_manifest}
use specora_verify.Manifest.Conforms.{some_injective, Conforms, validate_manifest-valid_iff}

-- The type that is declared for a field.
abbrev pub type_of : String → List (String × FieldType) → Option FieldType
type_of name [] = none
type_of name ((n, t) ∷ rest) = if str_eq n name then some t else type_of name rest

AllTyped-type_of :
    (P : Platform) (payload : Fields) (types : List (String × FieldType)) (name : String)
    (t : FieldType)
    → AllTyped P payload types
    → type_of name types ≡ some t
    → IsField P t (get name payload)
AllTyped-type_of P payload [] name t typed e = absurd (cc)
AllTyped-type_of P payload ((n, u) ∷ rest) name t typed e = elim (Bool-cases (str_eq n name)) [
  | inl same ↦
      let declared : u ≡ t = ground (arith, same, e) in
      subst (λ m. IsField P t (get m payload)) ((eq_iff n name).0 same)
        (subst (λ s. IsField P s (get n payload)) declared typed.0)
  | inr other ↦ AllTyped-type_of P payload rest name t typed.1 (ground (arith, other, e))
]

find_contract-All :
    (Q : ManifestContract → Type 0) (name version : String) (cs : List ManifestContract)
    {c : ManifestContract}
    → All Q cs
    → find_contract name version cs ≡ some c
    → Q c
find_contract-All Q name version [] holds e = absurd (cc)
find_contract-All Q name version (d ∷ ds) {c} holds e =
    elim (Bool-cases (str_eq d.spec_id name && str_eq d.schema_version version)) [
      | inl same ↦ subst Q (some_injective (ground (arith, same, e))) holds.0
      | inr other ↦ find_contract-All Q name version ds holds.1 (ground (arith, other, e))
    ]

-- Every required field of a contract has a declared type.
abbrev IsDeclared : ManifestContract → Type 0
IsDeclared c = All (λ f. is_some (type_of f (get_field_validators c)) ≡ true) c.required_fields

all-All : (p : String → Bool) (xs : List String) → all p xs ≡ true → All (λ x. p x ≡ true) xs
all-All p [] h = tt
all-All p (x ∷ xs) h = (ground (arith, h), all-All p xs (ground (arith, h)))

declared :
    (c : ManifestContract)
    → all (λ f. is_some (type_of f (get_field_validators c))) c.required_fields ≡ true
    → IsDeclared c
declared c h = all-All (λ f. is_some (type_of f (get_field_validators c))) c.required_fields h

contracts-IsDeclared : All IsDeclared contracts
unfolding get_field_validators
contracts-IsDeclared = (
  declared proof_manifest_v1 refl,
  (
    declared attestation_manifest_v1 refl,
    (declared anchor_payload_v1 refl, (declared anchor_receipt_v1 refl, tt)),
  ),
)

has_key-get : (name : String) (fs : Fields) → has_key name fs ≡ true → is_some (get name fs) ≡ true
has_key-get name end h = absurd (cc)
has_key-get name (field k v fs) h = ground (arith, h, has_key-get name fs)

-- A field that is present, with a value of the type that the contract declares for it.
pub record IsPresent (P : Platform) (contract : ManifestContract) (payload : Fields) (name : String)
    : Type 0 where
  pub value : Value
  pub type : FieldType
  pub present : get name payload ≡ some value
  pub declared : type_of name (get_field_validators contract) ≡ some type
  pub typed : HasType P type value

field-IsPresent :
    (P : Platform) (contract : ManifestContract) (payload : Fields) (name : String)
    → AllTyped P payload (get_field_validators contract)
    → has_key name payload ≡ true
    → is_some (type_of name (get_field_validators contract)) ≡ true
    → IsPresent P contract payload name
field-IsPresent P contract payload name typed here known =
    let types = get_field_validators contract in
    elim (Option-cases (get name payload)) [
      | inl e ↦ absurd (ground (arith, e, has_key-get name payload here))
      | inr (v, e) ↦ elim (Option-cases (type_of name types)) [
        | inl d ↦ absurd (ground (arith, d, known))
        | inr (t, d) ↦ record {
          value = v;
          type = t;
          present = e;
          declared = d;
          typed = subst (IsField P t) e (AllTyped-type_of P payload types name t typed d);
        }
      ]
    ]

-- In a valid manifest, every field that its contract requires is present and has a value of the
-- type that the contract declares for it; `contract` is the registered one whose name the caller
-- gives or the manifest shows.
pub validate_manifest-IsPresent :
    (P : Platform) (payload : Fields) (expected spec_id version : Option String) (name : String)
    (contract : ManifestContract) {r : ManifestResult}
    → or_else spec_id (detect_spec_id payload) ≡ some name
    → get_contract name (text_or version "1.0.0") ≡ some contract
    → validate_manifest P payload expected spec_id version ≡ ok r
    → r.valid ≡ true
    → All (IsPresent P contract payload) contract.required_fields
unfolding get_contract
validate_manifest-IsPresent P payload expected spec_id version name contract {r} e g h valid =
    let (other, k, en, gk, w) =
      (validate_manifest-valid_iff P payload expected spec_id version).0 (r, h, valid) in
    let same : k ≡ contract = some_injective (ground (arith, e, en, g, gk)) in
    let c = subst (λ k. Conforms P k expected payload) same w in
    All-both contract.required_fields c.complete
      (find_contract-All IsDeclared name (text_or version "1.0.0") contracts contracts-IsDeclared g)
      (λ f here known. field-IsPresent P contract payload f c.typed here known)
