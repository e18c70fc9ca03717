-- ===== src/Witness/Entry.antt =====
-- The witness registry in validators/witness.py: its entries and the lookup of a witness.
use specora_verify.Base.{
  ℕ, ℤ, String, Bool, true, false, ◌||◌, Option, none, some, List, [], ◌∷◌, if◌then◌else◌,
}
use specora_verify.Json.{Value, str, null, obj, end, field, Items, nil, cons}
use specora_verify.Revocation.List.{names}
use specora_verify.Hash.{compute_key_fingerprint, derive_key_id}
use specora_verify.Platform.{Platform}

pub data WitnessStatus : Type 0 where
  active suspended revoked : WitnessStatus

pub data WitnessVerificationStatus : Type 0 where
  pass warn fail error : WitnessVerificationStatus

-- A revocation reason is not checked by the parser: it is any JSON value.
pub record WitnessEntry : Type 0 where
  pub witness_org_id : String
  pub org_name : String
  pub public_key : String
  pub public_key_id : String
  pub trust_level : String
  pub status : WitnessStatus
  pub registered_at : String
  pub revoked_at : Option String
  pub revocation_reason : Value

pub record WitnessRegistry : Type 0 where
  pub registry_version : ℤ
  pub generated_at : String
  pub registry_authority : String
  pub witnesses : List WitnessEntry

unfoldable pub matches : Option String → Option String → WitnessEntry → Bool
matches org_id key_id e = names org_id e.witness_org_id || names key_id e.public_key_id

unfoldable pub find_witness :
    Option String → Option String → List WitnessEntry → Option WitnessEntry
find_witness org_id key_id [] = none
find_witness org_id key_id (e ∷ es) =
    if matches org_id key_id e then some e else find_witness org_id key_id es

unfoldable pub lookup : WitnessRegistry → Option String → Option String → Option WitnessEntry
lookup r org_id key_id = find_witness org_id key_id r.witnesses

abbrev pub is_active : WitnessEntry → Bool
is_active e = elim e.status [ active ↦ true | suspended ↦ false | revoked ↦ false ]

abbrev active_among : List WitnessEntry → List WitnessEntry
active_among [] = []
active_among (e ∷ es) = if is_active e then e ∷ active_among es else active_among es

unfoldable pub get_active_witnesses : WitnessRegistry → List WitnessEntry
get_active_witnesses r = active_among r.witnesses

unfoldable pub derive_witness_key_id : Platform → List ℕ → String
derive_witness_key_id P key = derive_key_id "wpk-" (compute_key_fingerprint P key)

abbrev pub status_value : WitnessStatus → String
status_value active = "active"
status_value suspended = "suspended"
status_value revoked = "revoked"

abbrev pub optional_value : Option String → Value
optional_value none = null
optional_value (some t) = str t

-- `WitnessEntry.to_dict`
unfoldable pub entry_to_dict : WitnessEntry → Value
entry_to_dict e = obj (
    field "witness_org_id" (str e.witness_org_id) (
      field "org_name" (str e.org_name) (
        field "public_key" (str e.public_key) (
          field "public_key_id" (str e.public_key_id) (
            field "trust_level" (str e.trust_level) (
              field "status" (str (status_value e.status)) (
                field "registered_at" (str e.registered_at) (
                  field "revoked_at" (optional_value e.revoked_at)
                    (field "revocation_reason" e.revocation_reason end)))))))))

unfoldable pub entries_to_dict : List WitnessEntry → Items
entries_to_dict [] = nil
entries_to_dict (e ∷ es) = cons (entry_to_dict e) (entries_to_dict es)
