-- ===== src/Identity/Certificate.antt =====
-- `validate_agent_identity_certificate` in agent_identity.py.
use specora_verify.Base.{
  ℕ, ℤ, ltb_ℤ, leb_ℤ, code, ◌==◌, String, str_len, str_all, str_truthy, Bool, true, false, ◌&&◌,
  Option, none, some, List, length, if◌then◌else◌,
}
use specora_verify.Errors.{Result, ok, err, library_error, encoded, ◌>>=◌}
use specora_verify.Platform.{Platform}
use specora_verify.Json.{Value, null, str, obj, Fields, drop_key}
use specora_verify.Checked.{at, is_str}
use specora_verify.Pattern.{is_hex}
use specora_verify.Canonical.{canonical_json_bytes}

-- What `datetime.fromisoformat` gives, taken to UTC: an instant, a time without an offset, a text
-- that it does not read (`ValueError`), or one that has no instant in UTC (`OverflowError`).
pub data IsoTime : Type 0 where
  instant : ℤ → IsoTime
  naive unreadable overflow : IsoTime

-- The parts of Python's library that this module relies on.
pub record Clock : Type 0 where
  pub fromhex : String → Option (List ℕ)
  pub fromisoformat : String → IsoTime

pub data Reason : Type 0 where
  not_an_object unsupported_format issuer_mismatch malformed_signature bad_signature : Reason
  malformed_window not_yet_valid expired malformed_principal no_principal_id : Reason
  bad_principal_key : Reason

pub record IdentityResult : Type 0 where
  pub valid : Bool
  pub reason : Option Reason
  pub subject : Value
  pub principal : Option (String × String)
  pub issuer_key_fingerprint : Option String

abbrev pub refused : Reason → IdentityResult
refused r = record {
  valid = false;
  reason = some r;
  subject = null;
  principal = none;
  issuer_key_fingerprint = none;
}

abbrev pub cert_format_version : String
cert_format_version = "specora-aid-cert-v1"

-- `bytes.fromhex` may raise a `ValueError`.
unfoldable pub public_key_fingerprint : Platform → Clock → String → Result Reason String
public_key_fingerprint P T public_key_hex = do
  key ← encoded (T.fromhex public_key_hex)
  ok (P.hexdigest key)

-- `value[:-1] + "+00:00"` for a text that ends in `Z`
abbrev pub utc_text : String → String
utc_text String.[] = String.[]
utc_text (String.◌∷◌ c String.[]) = if code c == b'Z' then "+00:00" else String.◌∷◌ c String.[]
utc_text (String.◌∷◌ c (String.◌∷◌ d s)) = String.◌∷◌ c (utc_text (String.◌∷◌ d s))

abbrev pub to_utc : IsoTime → Result Reason (Option ℤ)
to_utc (instant t) = ok (some t)
to_utc naive = ok none
to_utc unreadable = ok none
to_utc overflow = err library_error

unfoldable pub parse_rfc3339 : Clock → Value → Result Reason (Option ℤ)
parse_rfc3339 T (str s) = to_utc (T.fromisoformat (utc_text s))
parse_rfc3339 T v = ok none

abbrev pub key_verifies : Platform → Option (List ℕ) → List ℕ → List ℕ → Bool
key_verifies P none message signature = false
key_verifies P (some key) message signature = length key == 32 && P.verifies key signature message

-- Without the crypto library it raises a `RuntimeError`; whatever else fails means no.
unfoldable pub verify_ed25519 : Platform → Clock → String → List ℕ → List ℕ → Result Reason Bool
verify_ed25519 P T public_key_hex message signature =
    if P.crypto_available
    then ok (key_verifies P (T.fromhex public_key_hex) message signature)
    else err library_error

abbrev pub accepted : Fields → String → String → String → IdentityResult
accepted fs fingerprint id key = record {
  valid = true;
  reason = none;
  subject = at "subject" fs;
  principal = some (id, key);
  issuer_key_fingerprint = some fingerprint;
}

abbrev pub principal_key_result : Fields → String → String → Value → IdentityResult
principal_key_result fs fingerprint id (str key) =
    if str_len key == 64 && str_all is_hex key
    then accepted fs fingerprint id key
    else refused bad_principal_key
principal_key_result fs fingerprint id v = refused bad_principal_key

abbrev pub principal_id_result : Fields → String → Value → Value → IdentityResult
principal_id_result fs fingerprint (str id) key =
    if str_truthy id then principal_key_result fs fingerprint id key else refused no_principal_id
principal_id_result fs fingerprint v key = refused no_principal_id

unfoldable pub principal_result : Fields → String → Value → IdentityResult
principal_result fs fingerprint (obj ps) =
    principal_id_result fs fingerprint (at "id" ps) (at "public_key" ps)
principal_result fs fingerprint v = refused malformed_principal

-- `now` lies in `[issued_at, not_after)`.
abbrev pub window_result : ℤ → Fields → String → Option ℤ → Option ℤ → IdentityResult
window_result now fs fingerprint (some issued_at) (some not_after) =
    if ltb_ℤ now issued_at
    then refused not_yet_valid
    else if leb_ℤ not_after now
    then refused expired
    else principal_result fs fingerprint (at "principal" fs)
window_result now fs fingerprint issued_at not_after = refused malformed_window

unfoldable pub check_window : Clock → ℤ → Fields → String → Result Reason IdentityResult
check_window T now fs fingerprint = do
  issued_at ← parse_rfc3339 T (at "issued_at" fs)
  not_after ← parse_rfc3339 T (at "not_after" fs)
  ok (window_result now fs fingerprint issued_at not_after)

-- The signature is over the canonical bytes of the certificate without it.
unfoldable pub check_signed :
    Platform → Clock → String → ℤ → Fields → String → String → Result Reason IdentityResult
check_signed P T issuer now fs fingerprint signature_text = do
  message ← encoded (canonical_json_bytes (obj (drop_key "signature" fs)))
  signature ← encoded (P.b64decode signature_text)
  verified ← verify_ed25519 P T issuer message signature
  if verified then check_window T now fs fingerprint else ok (refused bad_signature)

abbrev pub check_signature :
    Platform → Clock → String → ℤ → Fields → String → Value → Result Reason IdentityResult
check_signature P T issuer now fs fingerprint (str text) =
    check_signed P T issuer now fs fingerprint text
check_signature P T issuer now fs fingerprint v = ok (refused malformed_signature)

unfoldable pub check_issuer :
    Platform → Clock → String → ℤ → Fields → String → Result Reason IdentityResult
check_issuer P T issuer now fs fingerprint =
    if is_str fingerprint (at "issuer_key_fingerprint" fs)
    then check_signature P T issuer now fs fingerprint (at "signature" fs)
    else ok (refused issuer_mismatch)

unfoldable pub validate_agent_identity_certificate :
    Platform → Clock → String → ℤ → Value → Result Reason IdentityResult
validate_agent_identity_certificate P T issuer now (obj fs) =
    if is_str cert_format_version (at "format" fs)
    then (do
      fingerprint ← public_key_fingerprint P T issuer
      check_issuer P T issuer now fs fingerprint)
    else ok (refused unsupported_format)
validate_agent_identity_certificate P T issuer now v = ok (refused not_an_object)
