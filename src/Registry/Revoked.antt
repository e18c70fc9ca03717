-- ===== src/Registry/Revoked.antt =====
-- `enforce_revocation_monotonicity` in validators/registry.py: revocations are not taken back.
use specora_verify.Base.{
  String, str_eq, Bool, not, ◌&&◌, Option, none, some, List, [], ◌∷◌, ◌++◌, if◌then◌else◌,
}
use specora_verify.Registry.Snapshot.{RegistryKey, RegistryWitness, RegistrySnapshot}

-- `{w.witness_org_id: w for w in witnesses}.get(org_id)`: the last one counts.
abbrev pub last_witness : String → List RegistryWitness → Option RegistryWitness
last_witness org_id [] = none
last_witness org_id (w ∷ ws) = elim (last_witness org_id ws) [
  | some v ↦ some v
  | none ↦ if str_eq w.witness_org_id org_id then some w else none
]

-- `{k.public_key_id: k for k in keys}.get(key_id)`
abbrev pub last_key : String → List RegistryKey → Option RegistryKey
last_key key_id [] = none
last_key key_id (k ∷ ks) = elim (last_key key_id ks) [
  | some v ↦ some v
  | none ↦ if str_eq k.public_key_id key_id then some k else none
]

pub data Violation : Type 0 where
  witness_reactivated key_reactivated : String → String → Violation

-- From a revoked status to another one.
abbrev pub taken_back : String → String → Bool
taken_back before now = str_eq before "revoked" && not (str_eq now "revoked")

unfoldable pub key_violations : List RegistryKey → List RegistryKey → List Violation
key_violations previous [] = []
key_violations previous (k ∷ ks) = elim (last_key k.public_key_id previous) [
  | none ↦ key_violations previous ks
  | some p ↦
      (if taken_back p.status k.status then key_reactivated k.public_key_id k.status ∷ [] else [])
      ++ key_violations previous ks
]

unfoldable pub witness_violations : List RegistryWitness → List RegistryWitness → List Violation
witness_violations previous [] = []
witness_violations previous (w ∷ ws) = elim (last_witness w.witness_org_id previous) [
  | none ↦ witness_violations previous ws
  | some p ↦
      (if taken_back p.status w.status
        then witness_reactivated w.witness_org_id w.status ∷ []
        else [])
      ++ (key_violations p.keys w.keys ++ witness_violations previous ws)
]

unfoldable pub enforce_revocation_monotonicity :
    Option RegistrySnapshot → RegistrySnapshot → List Violation
enforce_revocation_monotonicity none current = []
enforce_revocation_monotonicity (some previous) current =
    witness_violations previous.witnesses current.witnesses
