-- ===== src/Registry/Sealed.antt =====
-- What a valid verdict of `validate_registry_snapshot` in validators/registry.py means.
use specora_verify.Base.{
  ◌≡◌, refl, ap, ◌∙◌, eq_refl, ◌↔◌, inl, inr, String, str_eq, str_truthy, eq_iff, true, Option,
  none, some, is_nil, arith, Option-cases, if◌then◌else◌, ◌&&◌,
}
use specora_verify.Errors.{Result, ok, err, encoded, encoded-eq-ok, >>=-eq-ok, ok-injective}
use specora_verify.Platform.{Platform}
use specora_verify.Json.{Fields}
use specora_verify.Signature.{SignatureResult, SignatureError, verify_signature}
use specora_verify.Registry.Snapshot.{RegistrySnapshot, compute_registry_hash}
use specora_verify.Registry.Validate.{
  Options, ValidationResult, SignatureCheck, check_signature, check_with_key, signature_outcome,
  validate_parsed, hash_and_signature, hash_errors,
}

-- The key under which the signature is looked at: it is not skipped, there is a key, and the library
-- to check it.
abbrev pub key_used : Platform → Options → Option String
key_used P o = if o.skip_signature then none else elim o.public_key [
  | none ↦ none
  | some key ↦ if str_truthy key && P.crypto_available then some key else none
]

-- The signature over the stated hash passes, under a key with which it is looked at.
abbrev pub IsSigned : Platform → Options → RegistrySnapshot → Option String → Type 0
IsSigned P o s none = Unit
IsSigned P o s (some key) =
    (r : SignatureResult) × (verify_signature P s.registry_hash s.registry_signature key
        o.key_format
      ≡ ok r)
    × (r.valid ≡ true)

pub record IsSealed (P : Platform) (o : Options) (fields : Fields) (s : RegistrySnapshot)
    : Type 0 where
  pub hashed : compute_registry_hash P fields ≡ some s.registry_hash
  pub signed : IsSigned P o s (key_used P o)

outcome-errors :
    (v : Result SignatureError SignatureResult)
    → is_nil (signature_outcome v).errors ≡ true
    → (r : SignatureResult) × (v ≡ ok r) × (r.valid ≡ true)
outcome-errors (ok r) h = (r, refl, ground (arith, h))
outcome-errors (err e) h = absurd (cc)

outcome-valid :
    (v : Result SignatureError SignatureResult) (r : SignatureResult)
    → v ≡ ok r
    → r.valid ≡ true
    → is_nil (signature_outcome v).errors ≡ true
outcome-valid v r e h = ground (arith, e, h)

abbrev outcome_under : Platform → Options → RegistrySnapshot → String → SignatureCheck
outcome_under P o s key =
    signature_outcome (verify_signature P s.registry_hash s.registry_signature key o.key_format)

not_looked_at :
    (P : Platform) (o : Options) (s : RegistrySnapshot)
    → key_used P o ≡ none
    → is_nil (check_signature P o s).errors ≡ true
unfolding check_signature check_with_key
not_looked_at P o s h = ground (arith, h)

looked_at :
    (P : Platform) (o : Options) (s : RegistrySnapshot) (key : String)
    → key_used P o ≡ some key
    → is_nil (check_signature P o s).errors ≡ is_nil (outcome_under P o s key).errors
unfolding check_signature check_with_key
looked_at P o s key h = ground (arith, h)

check_signature-IsSigned :
    (P : Platform) (o : Options) (s : RegistrySnapshot)
    → (is_nil (check_signature P o s).errors ≡ true) ↔ IsSigned P o s (key_used P o)
check_signature-IsSigned P o s = elim (Option-cases (key_used P o)) [
  | inl e ↦ rw (e) (λ h. tt, λ h. not_looked_at P o s e)
  | inr (key, e) ↦
      let v = verify_signature P s.registry_hash s.registry_signature key o.key_format in
      rw (e, looked_at P o s key e)
        (λ h. outcome-errors v h, λ (r, same, valid). outcome-valid v r same valid)
]

result-valid :
    (P : Platform) (o : Options) (s : RegistrySnapshot) (computed : String)
    → (hash_and_signature s (hash_errors computed s.registry_hash) (check_signature P o s)).valid
      ≡ true
    → (str_eq computed s.registry_hash ≡ true) × (is_nil (check_signature P o s).errors ≡ true)
result-valid P o s computed h = ground (arith, h)

valid-result :
    (P : Platform) (o : Options) (s : RegistrySnapshot) (computed : String)
    → str_eq computed s.registry_hash ≡ true
    → is_nil (check_signature P o s).errors ≡ true
    → (hash_and_signature s (hash_errors computed s.registry_hash) (check_signature P o s)).valid
      ≡ true
valid-result P o s computed e h = rw (e, h)

pub validate_parsed-IsSealed :
    (P : Platform) (o : Options) (s : RegistrySnapshot) (fields : Fields) {r : ValidationResult}
    → validate_parsed P o s fields ≡ ok r
    → r.valid ≡ true
    → IsSealed P o fields s
unfolding validate_parsed
validate_parsed-IsSealed P o s fields {r} h valid =
    let (computed, e, same) =
      >>=-eq-ok (encoded (compute_registry_hash P fields))
        (λ computed.
          ok (hash_and_signature s (hash_errors computed s.registry_hash) (check_signature P o s)))
        h in
    let result =
      hash_and_signature s (hash_errors computed s.registry_hash) (check_signature P o s) in
    let (hash, sig) =
      result-valid P o s computed (ap (λ r. r.valid) (ok-injective result r same) ∙ valid) in
    record {
      hashed =
          encoded-eq-ok (compute_registry_hash P fields) e
          ∙ ap some ((eq_iff computed s.registry_hash).0 hash);
      signed = (check_signature-IsSigned P o s).0 sig;
    }

pub IsSealed-validate_parsed :
    (P : Platform) (o : Options) (s : RegistrySnapshot) (fields : Fields)
    → IsSealed P o fields s
    → (r : ValidationResult) × (validate_parsed P o s fields ≡ ok r) × (r.valid ≡ true)
unfolding validate_parsed
IsSealed-validate_parsed P o s fields w = (
  hash_and_signature s (hash_errors s.registry_hash s.registry_hash) (check_signature P o s),
  rw (w.hashed),
  valid-result P o s s.registry_hash (eq_refl s.registry_hash)
      ((check_signature-IsSigned P o s).1 w.signed),
)
