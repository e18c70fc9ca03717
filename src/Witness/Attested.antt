-- ===== src/Witness/Attested.antt =====
-- What a valid statement in validators/witness.py attests.
use specora_verify.Base.{
  ◌≡◌, ℕ, String, Bool, true, false, Option, some, List, [], ◌∷◌, is_nil, arith, joined,
  joined-is_nil,
}
use specora_verify.Errors.{Result, ok, >>=-eq-ok}
use specora_verify.Platform.{Platform}
use specora_verify.Checked.{at, text_of}
use specora_verify.Json.{Value, str, obj, Fields}
use specora_verify.Canonical.{canonical_json_bytes}
use specora_verify.Hash.{sha256_hex}
use specora_verify.Signature.{base64, verify_decoded, SignatureResult}
use specora_verify.Pattern.{hex64_pattern}
use specora_verify.Witness.Unsigned.{IsUnsigned}
use specora_verify.Witness.Entry.{
  WitnessStatus, active, suspended, revoked, WitnessEntry, WitnessRegistry, lookup,
}
use specora_verify.Witness.Structure.{
  StatementError, StatementResult, StatementWarning, structure_errors, Checks, read_checks,
  error_groups, anchor_hash_errors, mismatch_errors, match_text, schema_warnings,
}
use specora_verify.Witness.Statement.{
  check_registry, check_standing, conclude, validate_witness_statement, decode_signature,
}

abbrev pub is_revoked : WitnessStatus → Bool
is_revoked revoked = true
is_revoked active = false
is_revoked suspended = false

pub hash_text :
    (v : Value)
    → anchor_hash_errors v ≡ ok []
    → (h : String) × (v ≡ str h) × (hex64_pattern h ≡ true)
unfolding anchor_hash_errors match_text
hash_text v e = ground arith

read_checks-hash :
    (P : Platform) (fs : Fields) {c : Checks}
    → read_checks P fs ≡ ok c
    → anchor_hash_errors (at "anchor_hash" fs) ≡ ok c.anchor_errors
unfolding read_checks
read_checks-hash P fs h = ground arith

nil_through :
    {xs ys : List StatementError}
    → ◌≡◌ {A = Result StatementError (List StatementError)} (ok xs) (ok ys)
    → is_nil ys ≡ true
    → is_nil xs ≡ true
nil_through {xs} {ys} h n = ground arith

ok_nil :
    {r : Result StatementError (List StatementError)} (xs : List StatementError)
    → r ≡ ok xs
    → is_nil xs ≡ true
    → r ≡ ok []
ok_nil [] h n = h
ok_nil (x ∷ xs) h n = absurd (cc)

-- A statement without structural errors names a hash of the right form, the expected one if there
-- is one.
pub structure_errors-hash :
    (P : Platform) (expected : Option String) (fs : Fields) {es : List StatementError}
    → structure_errors P expected fs ≡ ok es
    → is_nil es ≡ true
    → (anchor_hash_errors (at "anchor_hash" fs) ≡ ok [])
      × (is_nil (mismatch_errors expected (at "anchor_hash" fs)) ≡ true)
unfolding structure_errors
structure_errors-hash P expected fs {es} h n =
    let (c, read, same) =
      >>=-eq-ok (read_checks P fs) (λ c. ok (joined (error_groups expected fs c))) h in
    let parts = joined-is_nil (error_groups expected fs c) (nil_through same n) in
    (ok_nil c.anchor_errors (read_checks-hash P fs read) parts.1.1.1.1.0, parts.1.1.1.1.1.1.1.1.1.0)

-- What the registry's part establishes for a statement that it accepts: the witness that the
-- lookup finds is not revoked, and its key has signed the statement without the signature.
pub record IsAttested (P : Platform) (r : WitnessRegistry) (fs : Fields) : Type 0 where
  pub entry : WitnessEntry
  pub found :
      lookup r (text_of (at "witness_org_id" fs)) (text_of (at "witness_public_key_id" fs))
      ≡ some entry
  pub not_revoked : is_revoked entry.status ≡ false
  pub bytes : List ℕ
  pub document : Fields
  pub unsigned : IsUnsigned fs document
  pub signed_bytes : canonical_json_bytes (obj document) ≡ some bytes
  pub signature : SignatureResult
  pub checked :
      verify_decoded P
        (sha256_hex P bytes)
        (decode_signature P (at "witness_signature" fs))
        entry.public_key
        base64
      ≡ ok signature
  pub passed : signature.valid ≡ true

pub check_registry-hash :
    (P : Platform) (r : Option WitnessRegistry) (skip : Bool) (fs : Fields)
    (ws : List StatementWarning)
    → (check_registry P r skip fs ws).anchor_hash ≡ at "anchor_hash" fs
unfolding check_registry check_standing conclude
check_registry-hash P r skip fs ws = ground arith

pub validated :
    (P : Platform) (fs : Fields) (r : Option WitnessRegistry) (expected : Option String)
    (skip : Bool) {s : StatementResult}
    → validate_witness_statement P fs r expected skip ≡ ok s
    → s.valid ≡ true
    → (structure_errors P expected fs ≡ ok [])
      × (s ≡ check_registry P r skip fs (schema_warnings fs))
unfolding validate_witness_statement
validated P fs r expected skip {s} h valid = ground (arith, h, valid)
