-- ===== src/Revocation/List.antt =====
-- The revocation list in revocation.py: its entries, and the lookup of a key.
use specora_verify.Base.{
  ℤ, String, str_eq, str_truthy, Bool, false, ◌&&◌, ◌||◌, Option, none, some, List, [], ◌∷◌,
  if◌then◌else◌,
}
use specora_verify.Json.{Value}

-- A status reason is not checked by the parser: it is any JSON value, `null` where it is absent.
pub record KeyEntry : Type 0 where
  pub derived_key_id : String
  pub fingerprint_sha256 : String
  pub status : String
  pub status_reason : Value
  pub effective_at : Option String

pub record RevocationList : Type 0 where
  pub version : ℤ
  pub generated_at : String
  pub authority : String
  pub keys : List KeyEntry

-- An identifier is given, is not empty and is this one.
abbrev pub names : Option String → String → Bool
names none own = false
names (some asked) own = str_truthy asked && str_eq own asked

unfoldable pub matches : Option String → Option String → KeyEntry → Bool
matches key_id fingerprint e =
    names key_id e.derived_key_id || names fingerprint e.fingerprint_sha256

unfoldable pub find_key : Option String → Option String → List KeyEntry → Option KeyEntry
find_key key_id fingerprint [] = none
find_key key_id fingerprint (e ∷ es) =
    if matches key_id fingerprint e then some e else find_key key_id fingerprint es

unfoldable pub lookup : RevocationList → Option String → Option String → Option KeyEntry
lookup l key_id fingerprint = find_key key_id fingerprint l.keys

abbrev pub status_of : Option KeyEntry → String
status_of none = "unknown"
status_of (some e) = e.status

unfoldable pub get_status : RevocationList → Option String → Option String → String
get_status l key_id fingerprint = status_of (lookup l key_id fingerprint)
