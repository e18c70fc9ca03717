-- ===== src/Platform.antt =====
-- What the program takes from outside this repository: SHA-256, the Ed25519 and key routines of
-- the optional `cryptography` package, base64, and Unicode's character classes. All are
-- arguments of the model.
use specora_verify.Json.{Value}
use specora_verify.Base.{ℕ, String, Char, List, Option, Bool}

-- `load_pem_public_key`: an Ed25519 key by its raw bytes, a key of another type, or an exception.
pub data PemKey : Type 0 where
  ed25519 : List ℕ → PemKey
  other_key : PemKey
  bad_pem : PemKey

pub record Platform : Type 0 where
  -- `hashlib.sha256(data).hexdigest()`
  pub hexdigest : List ℕ → String
  -- whether `import cryptography` works
  pub crypto_available : Bool
  pub load_pem : String → PemKey
  -- `Ed25519PublicKey.from_public_bytes(key).verify(signature, message)` raises nothing
  pub verifies : List ℕ → List ℕ → List ℕ → Bool
  -- `base64.b64decode` of a text, which raises where this is not ASCII, and of bytes, of which it
  -- skips what is no base64 letter; `none` where it raises
  pub b64decode : String → Option (List ℕ)
  pub b64decode_bytes : List ℕ → Option (List ℕ)
  -- the characters that `\d` matches, and those that `str.strip` removes
  pub is_decimal : Char → Bool
  pub is_space : Char → Bool
  -- `v == w` for a Boolean, an integer or a float on either side
  pub same_number : Value → Value → Bool
