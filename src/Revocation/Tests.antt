-- ===== src/Revocation/Tests.antt =====
-- The revocation list at concrete keys.
use specora_verify.Base.{
  ◌≡◌, refl, ◌↔◌, ◌⊎◌, ◌≢◌, pos, String, true, false, not, Option, none, some, List, [], ◌∷◌,
}
use specora_verify.Errors.{ok}
use specora_verify.Toy.{toy}
use specora_verify.Json.{null}
use specora_verify.Pattern.{hex64_pattern, key_id_pattern, timestamp_pattern}
use specora_verify.Hash.{derive_key_id}
use specora_verify.Revocation.List.{KeyEntry, RevocationList, matches, find_key, lookup, get_status}
use specora_verify.Revocation.Parse.{parse_revocation_list, parse_keys, parse_key}
use specora_verify.Revocation.Trust.{check_key_trust, decide}
use specora_verify.Revocation.Sound.{
  IsValidKey, IsValidList, list_to_json, parse_revocation_list-to_json,
}
use specora_verify.Revocation.Decision.{
  IsFirst, check_key_trust-trusted_iff, check_key_trust-revoked, check_key_trust-parsed,
}
use specora_verify.Revocation.Read.{IsDocument, parse_revocation_list-IsDocument}
use specora_verify.Revocation.Named.{IsFirstNamed, lookup-IsFirstNamed}
use specora_verify.Chain.Entry.{is_some}

abbrev trusted_key : KeyEntry
trusted_key = record {
  derived_key_id = "spk-0123456789abcdef";
  fingerprint_sha256 = "0123456789abcdef0123456789abcdef0123456789abcdef0123456789abcdef";
  status = "active";
  status_reason = null;
  effective_at = some "2026-02-15T00:00:00Z";
}

abbrev revoked_key : KeyEntry
revoked_key = record trusted_key { status = "revoked" }

abbrev with_keys : List KeyEntry → RevocationList
with_keys keys = record {
  version = pos 1;
  generated_at = "2026-03-01T00:00:00Z";
  authority = "Specora Key Authority";
  keys = keys;
}

abbrev asked : Option String
asked = some "spk-0123456789abcdef"

trusted_key-IsValidKey : IsValidKey toy trusted_key
unfolding key_id_pattern hex64_pattern timestamp_pattern derive_key_id
trusted_key-IsValidKey = record {
  key_id_form = refl;
  fingerprint_form = refl;
  derived = refl;
  known_status = refl;
  effective_form = refl;
}

list_IsValidList : IsValidList toy (with_keys (trusted_key ∷ []))
unfolding timestamp_pattern
list_IsValidList = record {
  version_form = refl;
  generated_form = refl;
  authority_form = refl;
  keys_form = (trusted_key-IsValidKey, tt);
}

parse_revocation_list-to_json_example :
    parse_revocation_list toy (list_to_json (with_keys (trusted_key ∷ [])))
    ≡ ok (with_keys (trusted_key ∷ []))
parse_revocation_list-to_json_example =
    parse_revocation_list-to_json toy (with_keys (trusted_key ∷ [])) list_IsValidList

parsed :
    parse_revocation_list toy (list_to_json (with_keys (trusted_key ∷ [])))
    ≡ ok (with_keys (trusted_key ∷ []))
unfolding parse_revocation_list parse_keys parse_key key_id_pattern hex64_pattern timestamp_pattern
    derive_key_id
parsed = refl

parse_revocation_list-IsDocument_example :
    IsDocument (list_to_json (with_keys (trusted_key ∷ []))) (with_keys (trusted_key ∷ []))
    × IsValidList toy (with_keys (trusted_key ∷ []))
parse_revocation_list-IsDocument_example =
    parse_revocation_list-IsDocument toy (list_to_json (with_keys (trusted_key ∷ [])))
      {l = with_keys (trusted_key ∷ [])} parsed

lookup-IsFirstNamed_example :
    (lookup (with_keys (trusted_key ∷ [])) asked none ≡ some trusted_key)
    ↔ IsFirstNamed asked none (trusted_key ∷ []) trusted_key
lookup-IsFirstNamed_example =
    lookup-IsFirstNamed (with_keys (trusted_key ∷ [])) asked none trusted_key

check_key_trust-trusted_iff_example :
    (((check_key_trust (some (with_keys (revoked_key ∷ []))) asked none false).trusted ≡ true) ↔ (
      (get_status (with_keys (revoked_key ∷ [])) asked none ≡ "active")
      ⊎ ((false ≡ false) × (get_status (with_keys (revoked_key ∷ [])) asked none ≢ "revoked"))))
    × (is_some (check_key_trust (some (with_keys (revoked_key ∷ []))) asked none false).error
        ≡ not (check_key_trust (some (with_keys (revoked_key ∷ []))) asked none false).trusted)
check_key_trust-trusted_iff_example =
    check_key_trust-trusted_iff (with_keys (revoked_key ∷ [])) asked none false

check_key_trust-revoked_example :
    (check_key_trust (some (with_keys (revoked_key ∷ []))) asked none false).trusted ≡ false
unfolding matches
check_key_trust-revoked_example =
    check_key_trust-revoked (with_keys (revoked_key ∷ [])) asked none false ((λ _. refl), tt) refl

-- The same key is listed as active and, behind it, as revoked.
found_active :
    (check_key_trust (some (with_keys (trusted_key ∷ []))) asked none true).trusted ≡ true
unfolding check_key_trust decide lookup find_key matches
found_active = refl

check_key_trust-parsed_example :
    (e : KeyEntry) × IsFirst asked none (trusted_key ∷ []) e
    × IsValidKey toy e
    × (e.status ≡ "active")
check_key_trust-parsed_example =
    check_key_trust-parsed toy (list_to_json (with_keys (trusted_key ∷ [])))
      {l = with_keys (trusted_key ∷ [])} asked none parsed found_active
