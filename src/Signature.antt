-- ===== src/Signature.antt =====
-- signature.py: loading an Ed25519 public key and checking a signature over a hash in hex.
pub mod Sound
mod Tests
use text.Mathlib.Text.{starts_with}
use specora_verify.Base.{
  ℕ, ◌==◌, String, str_len, str_all, utf8, Bool, true, false, not, Option, none, some, List, [],
  ◌∷◌, length, if◌then◌else◌,
}
use specora_verify.Errors.{Result, ok, err, verification, require, ◌>>◌}
use specora_verify.Pattern.{is_hex}
use specora_verify.Hash.{compute_key_fingerprint}
use specora_verify.Platform.{Platform, ed25519, other_key, bad_pem}

pub data KeyFormat : Type 0 where
  auto pem base64 raw : KeyFormat
  unknown_format : String → KeyFormat

-- The messages of signature.py, raised or listed in a result.
pub data SignatureError : Type 0 where
  crypto_missing wrong_key_type key_load_failed bad_key_base64 : SignatureError
  key_length : ℕ → SignatureError
  bad_format : String → SignatureError
  hash_length : ℕ → SignatureError
  hash_not_hex bad_signature_base64 : SignatureError
  signature_length : ℕ → SignatureError
  invalid_signature : SignatureError

abbrev pub detect : String → KeyFormat → KeyFormat
detect key auto =
    if starts_with key "-----BEGIN" then pem else if length (utf8 key) == 32 then raw else base64
detect key pem = pem
detect key base64 = base64
detect key raw = raw
detect key (unknown_format f) = unknown_format f

abbrev raw_key : List ℕ → Result SignatureError (List ℕ)
raw_key bytes =
    if length bytes == 32 then ok bytes else err (verification (key_length (length bytes)))

abbrev pub load_as : Platform → String → KeyFormat → Result SignatureError (List ℕ)
load_as P key auto = err (verification (bad_format "auto"))
load_as P key pem = elim (P.load_pem key) [
  | ed25519 bytes ↦ ok bytes
  | other_key ↦ err (verification wrong_key_type)
  | bad_pem ↦ err (verification key_load_failed)
]
load_as P key base64 = elim (P.b64decode_bytes (utf8 key)) [
  | none ↦ err (verification bad_key_base64)
  | some bytes ↦ raw_key bytes
]
load_as P key raw = raw_key (utf8 key)
load_as P key (unknown_format f) = err (verification (bad_format f))

-- The key is given as text, of which Python takes the UTF-8 bytes first; its raw bytes stand for the
-- key object.
unfoldable pub load_public_key : Platform → String → KeyFormat → Result SignatureError (List ℕ)
load_public_key P key format = do
  require P.crypto_available crypto_missing
  load_as P key (detect key format)

pub record SignatureResult : Type 0 where
  pub valid : Bool
  pub key_fingerprint : Option String
  pub errors : List SignatureError

abbrev pub refused : SignatureError → SignatureResult
refused e = record { valid = false; key_fingerprint = none; errors = e ∷ [] }

abbrev pub check_decoded : Platform → String → List ℕ → List ℕ → SignatureResult
check_decoded P hash key signature =
    let fp = some (compute_key_fingerprint P key) in
    if not (length signature == 64)
    then record {
      valid = false;
      key_fingerprint = fp;
      errors = signature_length (length signature) ∷ [];
    }
    else if P.verifies key signature (utf8 hash)
    then record { valid = true; key_fingerprint = fp; errors = [] }
    else record { valid = false; key_fingerprint = fp; errors = invalid_signature ∷ [] }

-- `decoded` is the signature behind base64, `none` where the decoding raises.
abbrev pub check_key : Platform → String → Option (List ℕ) → List ℕ → SignatureResult
check_key P hash decoded key = elim decoded [
  | none ↦ record {
    valid = false;
    key_fingerprint = some (compute_key_fingerprint P key);
    errors = bad_signature_base64 ∷ [];
  }
  | some signature ↦ check_decoded P hash key signature
]

-- `except VerificationError`: what the key's loader raises is listed.
abbrev pub with_key :
    Platform → String → Option (List ℕ) → Result SignatureError (List ℕ) → SignatureResult
with_key P hash decoded (ok key) = check_key P hash decoded key
with_key P hash decoded (err (verification e)) = refused e
with_key P hash decoded (err other) = refused key_load_failed

unfoldable pub verify_decoded :
    Platform → String → Option (List ℕ) → String → KeyFormat → Result SignatureError SignatureResult
unfolding load_public_key
verify_decoded P hash decoded key format = do
  require P.crypto_available crypto_missing
  ok (
      if not (str_len hash == 64)
      then refused (hash_length (str_len hash))
      else if not (str_all is_hex hash)
      then refused hash_not_hex
      else with_key P hash decoded (load_public_key P key format))

unfoldable pub verify_signature :
    Platform → String → String → String → KeyFormat → Result SignatureError SignatureResult
unfolding verify_decoded
verify_signature P hash signature_b64 key format =
    verify_decoded P hash (P.b64decode signature_b64) key format
