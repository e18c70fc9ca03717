-- ===== src/Hash.antt =====
-- hash.py and fingerprint.py: SHA-256 of canonical bytes, and the key identifiers derived from it.
use Prim.Native.String.{◌++◌}
use specora_verify.Base.{ℕ, String, List, Option, none, some, str_take}
use specora_verify.Json.{Value}
use specora_verify.Canonical.{canonical_json_bytes}
use specora_verify.Platform.{Platform}

unfoldable pub sha256_hex : Platform → List ℕ → String
sha256_hex P data_bytes = P.hexdigest data_bytes

-- `none` is the `ValueError` of a float that is not finite.
unfoldable pub compute_manifest_hash : Platform → Value → Option String
unfolding sha256_hex
compute_manifest_hash P payload = elim (canonical_json_bytes payload) [
  | none ↦ none
  | some bytes ↦ some (sha256_hex P bytes)
]

unfoldable pub compute_key_fingerprint : Platform → List ℕ → String
compute_key_fingerprint P key = P.hexdigest key

-- The identifier of a key by its fingerprint: `spk-`, `wpk-` or `rpk-` and 16 digits.
unfoldable pub derive_key_id : String → String → String
derive_key_id prefix fingerprint = prefix ++ str_take 16 fingerprint

unfoldable pub compute_key_fingerprint_and_id :
    Platform → List ℕ → record { fingerprint : String; key_id : String }
unfolding compute_key_fingerprint derive_key_id
compute_key_fingerprint_and_id P key =
    let f = compute_key_fingerprint P key in
    record { fingerprint = f; key_id = derive_key_id "spk-" f }
