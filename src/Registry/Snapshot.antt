-- ===== src/Registry/Snapshot.antt =====
-- The snapshots of validators/registry.py, their lookups, hash and the check that revocations are
-- not taken back.
use specora_verify.Base.{ℕ, ℤ, String, str_eq, Bool, Option, none, some, List, [], ◌∷◌, find_by}
use specora_verify.Platform.{Platform}
use specora_verify.Json.{Value, str, arr, obj, Items, nil, cons, Fields, end, field, drop_key}
use specora_verify.Witness.Entry.{optional_value}
use specora_verify.Canonical.{canonical_json_bytes}
use specora_verify.Hash.{derive_key_id, compute_key_fingerprint}

pub record RegistryKey : Type 0 where
  pub public_key_id : String
  pub public_key : String
  pub status : String
  pub created_at : String
  pub revoked_at : Option String
  pub revocation_reason : Value

pub record RegistryWitness : Type 0 where
  pub witness_org_id : String
  pub org_name : String
  pub trust_level : String
  pub status : String
  pub registered_at : String
  pub keys : List RegistryKey

pub record RegistrySnapshot : Type 0 where
  pub spec_id : String
  pub schema_version : String
  pub registry_version : ℤ
  -- The version as it was read, and as it is written again: `true` counts as 1 and stays `true`.
  pub version_value : Value
  pub generated_at : String
  pub previous_registry_hash : String
  pub registry_authority : String
  pub witnesses : List RegistryWitness
  pub registry_hash : String
  pub registry_key_id : String
  pub registry_signature : String

unfoldable pub derive_registry_key_id : Platform → List ℕ → String
derive_registry_key_id P key = derive_key_id "rpk-" (compute_key_fingerprint P key)

-- `none` is the `ValueError` of a float that is not finite.
unfoldable pub compute_registry_hash : Platform → Fields → Option String
compute_registry_hash P snapshot =
    elim (canonical_json_bytes
      (obj (drop_key "registry_signature" (drop_key "registry_hash" snapshot)))) [
        | none ↦ none
        | some bytes ↦ some (P.hexdigest bytes)
      ]

abbrev pub genesis_hash : String
genesis_hash = "0000000000000000000000000000000000000000000000000000000000000000"

-- `RegistryKey.to_dict`, `RegistryWitness.to_dict` and `RegistrySnapshot.to_dict`
abbrev pub key_to_dict : RegistryKey → Value
key_to_dict k = obj (
    field "public_key_id" (str k.public_key_id) (
      field "public_key" (str k.public_key) (
        field "status" (str k.status) (
          field "created_at" (str k.created_at) (
            field "revoked_at" (optional_value k.revoked_at)
              (field "revocation_reason" k.revocation_reason end))))))

abbrev pub keys_to_dict : List RegistryKey → Items
keys_to_dict [] = nil
keys_to_dict (k ∷ ks) = cons (key_to_dict k) (keys_to_dict ks)

abbrev pub witness_to_dict : RegistryWitness → Value
witness_to_dict w = obj (
    field "witness_org_id" (str w.witness_org_id) (
      field "org_name" (str w.org_name) (
        field "trust_level" (str w.trust_level) (
          field "status" (str w.status) (
            field "registered_at" (str w.registered_at)
              (field "keys" (arr (keys_to_dict w.keys)) end))))))

abbrev pub witnesses_to_dict : List RegistryWitness → Items
witnesses_to_dict [] = nil
witnesses_to_dict (w ∷ ws) = cons (witness_to_dict w) (witnesses_to_dict ws)

unfoldable pub snapshot_to_dict : RegistrySnapshot → Fields
snapshot_to_dict s = field "spec_id" (str s.spec_id) (
    field "schema_version" (str s.schema_version) (
      field "registry_version" s.version_value (
        field "generated_at" (str s.generated_at) (
          field "previous_registry_hash" (str s.previous_registry_hash) (
            field "registry_authority" (str s.registry_authority) (
              field "witnesses" (arr (witnesses_to_dict s.witnesses)) (
                field "registry_hash" (str s.registry_hash) (
                  field "registry_key_id" (str s.registry_key_id)
                    (field "registry_signature" (str s.registry_signature) end)))))))))

abbrev pub is_genesis : RegistrySnapshot → Bool
is_genesis s = str_eq s.previous_registry_hash genesis_hash

abbrev pub find_org : String → List RegistryWitness → Option RegistryWitness
find_org org_id ws = find_by (λ w. w.witness_org_id) org_id ws

unfoldable pub get_witness : RegistrySnapshot → String → Option RegistryWitness
get_witness s org_id = find_org org_id s.witnesses

abbrev pub find_key : String → List RegistryKey → Option RegistryKey
find_key key_id ks = find_by (λ k. k.public_key_id) key_id ks

abbrev pub find_owner : String → List RegistryWitness → Option (RegistryWitness × RegistryKey)
find_owner key_id [] = none
find_owner key_id (w ∷ ws) = elim (find_key key_id w.keys) [
  | some k ↦ some (w, k)
  | none ↦ find_owner key_id ws
]

unfoldable pub get_key : RegistrySnapshot → String → Option (RegistryWitness × RegistryKey)
get_key s key_id = find_owner key_id s.witnesses
