-- ===== src/Registry/Witnesses.antt =====
-- `_parse_registry_witness` and `_parse_registry_key` in validators/registry.py.
use specora_verify.Base.{
  ℕ, suc, String, str_eq, str_mem, not, ◌==◌, none, some, List, [], ◌∷◌, length, if◌then◌else◌,
}
use specora_verify.Errors.{Result, ok, err, verification, require, ◌>>=◌, ◌>>◌}
use specora_verify.Platform.{Platform}
use specora_verify.Json.{Value, obj, Items, nil, cons, Fields, get}
use specora_verify.Pattern.{key_id_pattern, timestamp_pattern, has_text}
use specora_verify.Checked.{required, text_where, member_of, optional_text, or_null, items_in}
use specora_verify.Witness.Entry.{derive_witness_key_id}
use specora_verify.Witness.Parse.{any_text, valid_trust_levels, valid_witness_statuses}
use specora_verify.Revocation.Parse.{valid_key_statuses}
use specora_verify.Registry.Snapshot.{RegistryKey, RegistryWitness}

-- The messages of the parser, with the values that they show; a key is named by the positions of
-- its witness and of itself.
pub data SnapshotError : Type 0 where
  missing_fields : List String → SnapshotError
  bad_spec_id bad_schema_version bad_version bad_generated_at : Value → SnapshotError
  bad_previous_hash bad_hash bad_registry_key_id : Value → SnapshotError
  bad_authority signature_not_text bad_signature_base64 witnesses_not_array : SnapshotError
  signature_length : ℕ → SnapshotError
  witness_not_object empty_org_id empty_org_name keys_not_array : ℕ → SnapshotError
  missing_witness_field : ℕ → String → SnapshotError
  bad_trust_level bad_witness_status bad_registered_at : ℕ → Value → SnapshotError
  duplicate_org_id : ℕ → String → SnapshotError
  key_not_object key_not_text bad_key_base64 : ℕ → ℕ → SnapshotError
  missing_key_field duplicate_key_id : ℕ → ℕ → String → SnapshotError
  bad_key_id bad_key_status bad_created_at bad_revoked_at : ℕ → ℕ → Value → SnapshotError
  key_length : ℕ → ℕ → ℕ → SnapshotError
  key_id_mismatch : ℕ → ℕ → String → String → SnapshotError

unfoldable pub decode_key : Platform → ℕ → ℕ → String → Result SnapshotError (List ℕ)
decode_key P i j public_key = elim (P.b64decode public_key) [
  | none ↦ err (verification (bad_key_base64 i j))
  | some bytes ↦
      if length bytes == 32 then ok bytes else err (verification (key_length i j (length bytes)))
]

-- The required fields of a key, as they are found.
pub record KeyData : Type 0 where
  pub id_data : Value
  pub key_data : Value
  pub status_data : Value
  pub created_data : Value

unfoldable pub read_key_data : ℕ → ℕ → Fields → Result SnapshotError KeyData
read_key_data i j fs = do
  id_data ← required "public_key_id" fs (missing_key_field i j "public_key_id")
  key_data ← required "public_key" fs (missing_key_field i j "public_key")
  status_data ← required "status" fs (missing_key_field i j "status")
  created_data ← required "created_at" fs (missing_key_field i j "created_at")
  ok record {
    id_data = id_data;
    key_data = key_data;
    status_data = status_data;
    created_data = created_data;
  }

-- INV-REG-004: the identifier is derived from the key.
unfoldable pub check_derived : Platform → ℕ → ℕ → String → List ℕ → Result SnapshotError (Unit {0})
check_derived P i j key_id bytes =
    let expected = derive_witness_key_id P bytes in
    require (str_eq key_id expected) (key_id_mismatch i j key_id expected)

unfoldable pub parse_key_fields :
    Platform → ℕ → ℕ → Fields → KeyData → Result SnapshotError RegistryKey
parse_key_fields P i j fs d = do
  key_id ← text_where (key_id_pattern b'w') d.id_data (bad_key_id i j d.id_data)
  public_key ← text_where any_text d.key_data (key_not_text i j)
  bytes ← decode_key P i j public_key
  check_derived P i j key_id bytes
  status ← member_of valid_key_statuses d.status_data (bad_key_status i j d.status_data)
  created_at ← text_where (timestamp_pattern P) d.created_data (bad_created_at i j d.created_data)
  revoked_at ← optional_text (timestamp_pattern P) (get "revoked_at" fs) (bad_revoked_at i j)
  ok record {
    public_key_id = key_id;
    public_key = public_key;
    status = status;
    created_at = created_at;
    revoked_at = revoked_at;
    revocation_reason = or_null (get "revocation_reason" fs);
  }

unfoldable pub parse_key : Platform → ℕ → ℕ → Value → Result SnapshotError RegistryKey
parse_key P i j (obj fs) = do d ← read_key_data i j fs; parse_key_fields P i j fs d
parse_key P i j v = err (verification (key_not_object i j))

-- The keys of a witness; `seen` holds the identifiers of the earlier ones.
unfoldable pub parse_keys :
    Platform → ℕ → ℕ → List String → Items → Result SnapshotError (List RegistryKey)
parse_keys P i j seen nil = ok []
parse_keys P i j seen (cons v vs) = do
  k ← parse_key P i j v
  require (not (str_mem k.public_key_id seen)) (duplicate_key_id i j k.public_key_id)
  ks ← parse_keys P i (suc j) (k.public_key_id ∷ seen) vs
  ok (k ∷ ks)

-- The required fields of a witness, as they are found.
pub record WitnessData : Type 0 where
  pub org_data : Value
  pub name_data : Value
  pub level_data : Value
  pub status_data : Value
  pub registered_data : Value
  pub keys_data : Value

unfoldable pub read_witness_data : ℕ → Fields → Result SnapshotError WitnessData
read_witness_data i fs = do
  org_data ← required "witness_org_id" fs (missing_witness_field i "witness_org_id")
  name_data ← required "org_name" fs (missing_witness_field i "org_name")
  level_data ← required "trust_level" fs (missing_witness_field i "trust_level")
  status_data ← required "status" fs (missing_witness_field i "status")
  registered_data ← required "registered_at" fs (missing_witness_field i "registered_at")
  keys_data ← required "keys" fs (missing_witness_field i "keys")
  ok record {
    org_data = org_data;
    name_data = name_data;
    level_data = level_data;
    status_data = status_data;
    registered_data = registered_data;
    keys_data = keys_data;
  }

unfoldable pub parse_witness_fields :
    Platform → ℕ → WitnessData → Result SnapshotError RegistryWitness
parse_witness_fields P i d = do
  org_id ← text_where (has_text P) d.org_data (empty_org_id i)
  org_name ← text_where (has_text P) d.name_data (empty_org_name i)
  level ← member_of valid_trust_levels d.level_data (bad_trust_level i d.level_data)
  status ← member_of valid_witness_statuses d.status_data (bad_witness_status i d.status_data)
  registered_at ←
      text_where (timestamp_pattern P) d.registered_data (bad_registered_at i d.registered_data)
  vs ← items_in d.keys_data (keys_not_array i)
  keys ← parse_keys P i 0 [] vs
  ok record {
    witness_org_id = org_id;
    org_name = org_name;
    trust_level = level;
    status = status;
    registered_at = registered_at;
    keys = keys;
  }

unfoldable pub parse_witness : Platform → ℕ → Value → Result SnapshotError RegistryWitness
parse_witness P i (obj fs) = do d ← read_witness_data i fs; parse_witness_fields P i d
parse_witness P i v = err (verification (witness_not_object i))

unfoldable pub parse_witnesses :
    Platform → ℕ → List String → Items → Result SnapshotError (List RegistryWitness)
parse_witnesses P i seen nil = ok []
parse_witnesses P i seen (cons v vs) = do
  w ← parse_witness P i v
  require (not (str_mem w.witness_org_id seen)) (duplicate_org_id i w.witness_org_id)
  ws ← parse_witnesses P (suc i) (w.witness_org_id ∷ seen) vs
  ok (w ∷ ws)
