-- ===== src/Manifest/Anchor.antt =====
-- `validate_anchor_payload` in validators/anchor.py and `validate_receipt` in validators/receipt.py.
use specora_verify.Base.{
  ◌≡◌, refl, subst, ap, ◌∙◌, String, Bool, true, Option, some, List, [], ◌∷◌, sym,
}
use specora_verify.Errors.{Result, ok, >>=-eq-ok, ok-injective, ◌>>=◌}
use specora_verify.Platform.{Platform}
use specora_verify.Json.{Value, Fields}
use specora_verify.Checked.{at, or_null}
use specora_verify.Manifest.Contract.{
  FieldType, enum, hex64, string, anchor_payload_v1, anchor_receipt_v1, get_contract,
  get_field_validators, ManifestContract,
}
use specora_verify.Manifest.Fields.{ManifestError}
use specora_verify.Manifest.Typed.{HasType}
use specora_verify.Manifest.Validate.{ManifestResult, validate_manifest}
use specora_verify.Manifest.Conforms.{some_injective}
use specora_verify.Manifest.Required.{IsPresent, type_of, validate_manifest-IsPresent}

pub record AnchorResult : Type 0 where
  pub valid : Bool
  pub schema_version : Value
  pub computed_hash : Option String
  pub expected_hash : Option String
  pub root_type : Value
  pub manifest_hash : Value
  pub errors : List ManifestError

abbrev pub anchor_result : Fields → ManifestResult → AnchorResult
anchor_result payload r = record {
  valid = r.valid;
  schema_version = at "payload_schema_version" payload;
  computed_hash = r.computed_hash;
  expected_hash = r.expected_hash;
  root_type = at "root_type" payload;
  manifest_hash = at "manifest_hash" payload;
  errors = r.errors;
}

unfoldable pub validate_anchor_payload :
    Platform → Fields → Option String → Result ManifestError AnchorResult
validate_anchor_payload P payload expected = do
  r ← validate_manifest P payload expected (some "anchor-payload") (some "1.0.0")
  ok (anchor_result payload r)

pub record ReceiptResult : Type 0 where
  pub valid : Bool
  pub schema_version : Value
  pub computed_hash : Option String
  pub expected_hash : Option String
  pub payload_hash : Value
  pub anchor_backend : Value
  pub receipt_id : Value
  pub errors : List ManifestError

abbrev pub receipt_result : Fields → ManifestResult → ReceiptResult
receipt_result payload r = record {
  valid = r.valid;
  schema_version = at "schema_version" payload;
  computed_hash = r.computed_hash;
  expected_hash = r.expected_hash;
  payload_hash = at "payload_hash" payload;
  anchor_backend = at "anchor_backend" payload;
  receipt_id = at "receipt_id" payload;
  errors = r.errors;
}

unfoldable pub validate_receipt :
    Platform → Fields → Option String → Result ManifestError ReceiptResult
validate_receipt P payload expected = do
  r ← validate_manifest P payload expected (some "anchor-receipt") (some "1.0.0")
  ok (receipt_result payload r)

present_at :
    (P : Platform) (payload : Fields) (contract : ManifestContract) (name : String) (t : FieldType)
    → type_of name (get_field_validators contract) ≡ some t
    → IsPresent P contract payload name
    → HasType P t (at name payload)
present_at P payload contract name t e w =
    subst (λ u. HasType P u (at name payload)) (some_injective (sym w.declared ∙ e))
      (subst (HasType P w.type) (sym (ap or_null w.present)) w.typed)

payload_known : get_contract "anchor-payload" "1.0.0" ≡ some anchor_payload_v1
unfolding get_contract
payload_known = refl

receipt_known : get_contract "anchor-receipt" "1.0.0" ≡ some anchor_receipt_v1
unfolding get_contract
receipt_known = refl

-- Of a valid anchor payload, the root's type, the manifest's hash and the schema version that are
-- reported are a known type, a text of 64 lowercase hexadecimal digits, behind which Python's `$`
-- lets a newline stand, and a text.
pub validate_anchor_payload-HasType :
    (P : Platform) (payload : Fields) (expected : Option String) {r : AnchorResult}
    → validate_anchor_payload P payload expected ≡ ok r
    → r.valid ≡ true
    → HasType P (enum ("daily" ∷ "hourly" ∷ "monthly" ∷ [])) r.root_type
      × HasType P hex64 r.manifest_hash
      × HasType P string r.schema_version
unfolding validate_anchor_payload get_field_validators
validate_anchor_payload-HasType P payload expected {r} h valid =
    let (x, hx, same) =
      >>=-eq-ok (validate_manifest P payload expected (some "anchor-payload") (some "1.0.0"))
        (λ x. ok (anchor_result payload x)) h in
    let result = ok-injective (anchor_result payload x) r same in
    let present =
      validate_manifest-IsPresent P payload expected (some "anchor-payload") (some "1.0.0")
        "anchor-payload" anchor_payload_v1 refl payload_known hx
        (ap (λ r. r.valid) result ∙ valid) in
    let typed = present_at P payload anchor_payload_v1 in
    (
      subst (λ r. HasType P (enum ("daily" ∷ "hourly" ∷ "monthly" ∷ [])) r.root_type) result
          (typed "root_type" (enum ("daily" ∷ "hourly" ∷ "monthly" ∷ [])) refl present.1.1.0),
      subst (λ r. HasType P hex64 r.manifest_hash) result
          (typed "manifest_hash" hex64 refl present.1.1.1.1.1.1.1.1.0),
      subst (λ r. HasType P string r.schema_version) result
          (typed "payload_schema_version" string refl present.0),
    )

-- Of a valid receipt, the hash of the payload that is reported is a text of 64 lowercase hexadecimal
-- digits, behind which Python's `$` lets a newline stand, and the backend, the receipt's identifier
-- and the schema version are texts.
pub validate_receipt-HasType :
    (P : Platform) (payload : Fields) (expected : Option String) {r : ReceiptResult}
    → validate_receipt P payload expected ≡ ok r
    → r.valid ≡ true
    → HasType P hex64 r.payload_hash
      × HasType P string r.anchor_backend
      × HasType P string r.receipt_id
      × HasType P string r.schema_version
unfolding validate_receipt get_field_validators
validate_receipt-HasType P payload expected {r} h valid =
    let (x, hx, same) =
      >>=-eq-ok (validate_manifest P payload expected (some "anchor-receipt") (some "1.0.0"))
        (λ x. ok (receipt_result payload x)) h in
    let result = ok-injective (receipt_result payload x) r same in
    let present =
      validate_manifest-IsPresent P payload expected (some "anchor-receipt") (some "1.0.0")
        "anchor-receipt" anchor_receipt_v1 refl receipt_known hx
        (ap (λ r. r.valid) result ∙ valid) in
    let typed = present_at P payload anchor_receipt_v1 in
    (
      subst (λ r. HasType P hex64 r.payload_hash) result
          (typed "payload_hash" hex64 refl present.1.1.1.1.0),
      subst (λ r. HasType P string r.anchor_backend) result
          (typed "anchor_backend" string refl present.1.1.1.0),
      subst (λ r. HasType P string r.receipt_id) result
          (typed "receipt_id" string refl present.1.1.1.1.1.0),
      subst (λ r. HasType P string r.schema_version) result
          (typed "schema_version" string refl present.1.0),
    )
