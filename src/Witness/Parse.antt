-- ===== src/Witness/Parse.antt =====
-- `parse_witness_registry` in validators/witness.py.
use specora_verify.Base.{
  Option, ℕ, suc, String, str_eq, str_mem, Bool, true, not, ◌==◌, none, some, List, [], ◌∷◌, length,
  if◌then◌else◌,
}
use specora_verify.Errors.{Result, ok, err, verification, require, ◌>>=◌, ◌>>◌}
use specora_verify.Platform.{Platform}
use specora_verify.Json.{Value, obj, Items, nil, cons, Fields, get}
use specora_verify.Pattern.{key_id_pattern, timestamp_pattern, has_text}
use specora_verify.Checked.{
  required, text_where, positive_int, member_of, optional_text, or_null, items_in,
}
use specora_verify.Witness.Entry.{
  WitnessStatus, active, suspended, revoked, WitnessEntry, WitnessRegistry, derive_witness_key_id,
}

-- The messages of `parse_witness_registry`, with the values that they show.
pub data RegistryError : Type 0 where
  missing_registry_field : String → RegistryError
  bad_registry_version bad_generated_at : Value → RegistryError
  bad_authority witnesses_not_array : RegistryError
  witness_not_object : ℕ → RegistryError
  missing_witness_field : ℕ → String → RegistryError
  empty_org_id empty_org_name key_not_text bad_key_base64 : ℕ → RegistryError
  duplicate_org_id duplicate_key_id : ℕ → String → RegistryError
  key_length : ℕ → ℕ → RegistryError
  bad_key_id : ℕ → Value → RegistryError
  key_id_mismatch : ℕ → String → String → RegistryError
  bad_trust_level bad_status bad_registered_at bad_revoked_at : ℕ → Value → RegistryError

abbrev pub valid_trust_levels : List String
valid_trust_levels = "external" ∷ "internal" ∷ "partner" ∷ []

abbrev pub valid_witness_statuses : List String
valid_witness_statuses = "active" ∷ "suspended" ∷ "revoked" ∷ []

-- `WitnessStatus(status_str)`, of one of the three texts
abbrev pub status_from : String → WitnessStatus
status_from s =
    if str_eq s "active" then active else if str_eq s "suspended" then suspended else revoked

abbrev pub any_text : String → Bool
any_text s = true

unfoldable pub decode_key : Platform → ℕ → String → Result RegistryError (List ℕ)
decode_key P i public_key = elim (P.b64decode public_key) [
  | none ↦ err (verification (bad_key_base64 i))
  | some bytes ↦
      if length bytes == 32 then ok bytes else err (verification (key_length i (length bytes)))
]

-- The required fields of a witness, as they are found.
pub record WitnessData : Type 0 where
  pub org_data : Value
  pub name_data : Value
  pub key_data : Value
  pub id_data : Value
  pub level_data : Value
  pub status_data : Value
  pub registered_data : Value

unfoldable pub witness_data : ℕ → Fields → Result RegistryError WitnessData
witness_data i fs = do
  org_data ← required "witness_org_id" fs (missing_witness_field i "witness_org_id")
  name_data ← required "org_name" fs (missing_witness_field i "org_name")
  key_data ← required "public_key" fs (missing_witness_field i "public_key")
  id_data ← required "public_key_id" fs (missing_witness_field i "public_key_id")
  level_data ← required "trust_level" fs (missing_witness_field i "trust_level")
  status_data ← required "status" fs (missing_witness_field i "status")
  registered_data ← required "registered_at" fs (missing_witness_field i "registered_at")
  ok record {
    org_data = org_data;
    name_data = name_data;
    key_data = key_data;
    id_data = id_data;
    level_data = level_data;
    status_data = status_data;
    registered_data = registered_data;
  }

unfoldable pub fresh_org_id : Platform → ℕ → List String → Value → Result RegistryError String
fresh_org_id P i seen_org_ids org_data = do
  org_id ← text_where (has_text P) org_data (empty_org_id i)
  require (not (str_mem org_id seen_org_ids)) (duplicate_org_id i org_id)
  ok org_id

-- The identifier of a decoded key: well formed, derived from the key, and new.
unfoldable pub fresh_key_id :
    Platform → ℕ → List String → List ℕ → Value → Result RegistryError String
fresh_key_id P i seen_key_ids key_bytes id_data = do
  key_id ← text_where (key_id_pattern b'w') id_data (bad_key_id i id_data)
  let expected = derive_witness_key_id P key_bytes
  require (str_eq key_id expected) (key_id_mismatch i key_id expected)
  require (not (str_mem key_id seen_key_ids)) (duplicate_key_id i key_id)
  ok key_id

-- The checks behind the key: trust level, status and timestamps.
unfoldable pub parse_standing :
    Platform
    → ℕ
    → WitnessData
    → Fields
    → Result RegistryError (record {
      level : String;
      status : WitnessStatus;
      registered_at : String;
      revoked_at : Option String;
    })
parse_standing P i d fs = do
  level ← member_of valid_trust_levels d.level_data (bad_trust_level i d.level_data)
  status ← member_of valid_witness_statuses d.status_data (bad_status i d.status_data)
  registered_at ←
      text_where (timestamp_pattern P) d.registered_data (bad_registered_at i d.registered_data)
  revoked_at ← optional_text (timestamp_pattern P) (get "revoked_at" fs) (bad_revoked_at i)
  ok record {
    level = level;
    status = status_from status;
    registered_at = registered_at;
    revoked_at = revoked_at;
  }

-- The checks of a witness that has the required fields.
unfoldable pub parse_fields :
    Platform
    → ℕ
    → List String
    → List String
    → Fields
    → WitnessData
    → Result RegistryError WitnessEntry
parse_fields P i seen_org_ids seen_key_ids fs d = do
  org_id ← fresh_org_id P i seen_org_ids d.org_data
  org_name ← text_where (has_text P) d.name_data (empty_org_name i)
  public_key ← text_where any_text d.key_data (key_not_text i)
  key_bytes ← decode_key P i public_key
  key_id ← fresh_key_id P i seen_key_ids key_bytes d.id_data
  standing ← parse_standing P i d fs
  ok record {
    witness_org_id = org_id;
    org_name = org_name;
    public_key = public_key;
    public_key_id = key_id;
    trust_level = standing.level;
    status = standing.status;
    registered_at = standing.registered_at;
    revoked_at = standing.revoked_at;
    revocation_reason = or_null (get "revocation_reason" fs);
  }

-- One round of the loop: `seen_org_ids` and `seen_key_ids` hold those of the earlier witnesses.
unfoldable pub parse_witness :
    Platform → ℕ → List String → List String → Value → Result RegistryError WitnessEntry
parse_witness P i seen_org_ids seen_key_ids (obj fs) = do
  d ← witness_data i fs
  parse_fields P i seen_org_ids seen_key_ids fs d
parse_witness P i seen_org_ids seen_key_ids v = err (verification (witness_not_object i))

unfoldable pub parse_witnesses :
    Platform → ℕ → List String → List String → Items → Result RegistryError (List WitnessEntry)
parse_witnesses P i seen_org_ids seen_key_ids nil = ok []
parse_witnesses P i seen_org_ids seen_key_ids (cons v vs) = do
  e ← parse_witness P i seen_org_ids seen_key_ids v
  es ←
      parse_witnesses P (suc i) (e.witness_org_id ∷ seen_org_ids) (e.public_key_id ∷ seen_key_ids)
        vs
  ok (e ∷ es)

unfoldable pub parse_witness_registry : Platform → Fields → Result RegistryError WitnessRegistry
parse_witness_registry P fs = do
  version_data ← required "registry_version" fs (missing_registry_field "registry_version")
  generated_data ← required "generated_at" fs (missing_registry_field "generated_at")
  authority_data ← required "registry_authority" fs (missing_registry_field "registry_authority")
  witnesses_data ← required "witnesses" fs (missing_registry_field "witnesses")
  version ← positive_int version_data (bad_registry_version version_data)
  generated_at ← text_where (timestamp_pattern P) generated_data (bad_generated_at generated_data)
  authority ← text_where (has_text P) authority_data bad_authority
  vs ← items_in witnesses_data witnesses_not_array
  witnesses ← parse_witnesses P 0 [] [] vs
  ok record {
    registry_version = version;
    generated_at = generated_at;
    registry_authority = authority;
    witnesses = witnesses;
  }
