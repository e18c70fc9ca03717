-- ===== src/Revocation/Parse.antt =====
-- `parse_revocation_list` in revocation.py, from the JSON value to the list.
use specora_verify.Base.{ℕ, suc, String, str_eq, List, [], ◌∷◌}
use specora_verify.Errors.{Result, ok, err, verification, require, ◌>>=◌, ◌>>◌}
use specora_verify.Platform.{Platform}
use specora_verify.Json.{Value, obj, Items, nil, cons, Fields, get}
use specora_verify.Pattern.{hex64_pattern, key_id_pattern, timestamp_pattern, has_text}
use specora_verify.Hash.{derive_key_id}
use specora_verify.Checked.{
  required, text_where, positive_int, member_of, optional_text, or_null, items_in,
}
use specora_verify.Revocation.List.{KeyEntry, RevocationList}

-- The messages of `parse_revocation_list`, with the values that they show.
pub data RevocationError : Type 0 where
  missing_list_field : String → RevocationError
  bad_version bad_generated_at : Value → RevocationError
  bad_authority keys_not_array : RevocationError
  key_not_object : ℕ → RevocationError
  missing_key_field : ℕ → String → RevocationError
  bad_key_id : ℕ → Value → RevocationError
  bad_fingerprint : ℕ → RevocationError
  key_id_mismatch : ℕ → String → String → RevocationError
  bad_status bad_effective_at : ℕ → Value → RevocationError

abbrev pub valid_key_statuses : List String
valid_key_statuses = "active" ∷ "retired" ∷ "revoked" ∷ []

unfoldable pub parse_key : Platform → ℕ → Value → Result RevocationError KeyEntry
parse_key P i (obj fs) = do
  id_data ← required "derived_key_id" fs (missing_key_field i "derived_key_id")
  fingerprint_data ← required "fingerprint_sha256" fs (missing_key_field i "fingerprint_sha256")
  status_data ← required "status" fs (missing_key_field i "status")
  key_id ← text_where (key_id_pattern b's') id_data (bad_key_id i id_data)
  fingerprint ← text_where hex64_pattern fingerprint_data (bad_fingerprint i)
  let expected = derive_key_id "spk-" fingerprint
  require (str_eq key_id expected) (key_id_mismatch i key_id expected)
  status ← member_of valid_key_statuses status_data (bad_status i status_data)
  effective_at ← optional_text (timestamp_pattern P) (get "effective_at" fs) (bad_effective_at i)
  ok record {
    derived_key_id = key_id;
    fingerprint_sha256 = fingerprint;
    status = status;
    status_reason = or_null (get "status_reason" fs);
    effective_at = effective_at;
  }
parse_key P i v = err (verification (key_not_object i))

unfoldable pub parse_keys : Platform → ℕ → Items → Result RevocationError (List KeyEntry)
parse_keys P i nil = ok []
parse_keys P i (cons v vs) = do e ← parse_key P i v; es ← parse_keys P (suc i) vs; ok (e ∷ es)

unfoldable pub parse_revocation_list : Platform → Fields → Result RevocationError RevocationList
parse_revocation_list P data_fields = do
  version_data ← required "version" data_fields (missing_list_field "version")
  generated_data ← required "generated_at" data_fields (missing_list_field "generated_at")
  authority_data ← required "authority" data_fields (missing_list_field "authority")
  keys_data ← required "keys" data_fields (missing_list_field "keys")
  version ← positive_int version_data (bad_version version_data)
  generated_at ← text_where (timestamp_pattern P) generated_data (bad_generated_at generated_data)
  authority ← text_where (has_text P) authority_data bad_authority
  vs ← items_in keys_data keys_not_array
  keys ← parse_keys P 0 vs
  ok record { version = version; generated_at = generated_at; authority = authority; keys = keys }
