-- ===== src/Registry/Chain.antt =====
-- `verify_registry_chain` in validators/registry.py.
use specora_verify.Base.{
  ℕ, suc, ℤ, leb_ℤ, eq_ℤ, String, str_eq, Bool, true, false, not, ◌&&◌, ◌||◌, Option, none, some,
  List, [], ◌∷◌, ◌++◌, map, length, is_nil, if◌then◌else◌,
}
use specora_verify.Errors.{Result, ok, err, verification, ◌>>=◌}
use specora_verify.Platform.{Platform}
use specora_verify.Registry.Snapshot.{RegistrySnapshot, is_genesis}
use specora_verify.Registry.Revoked.{Violation, enforce_revocation_monotonicity}
use specora_verify.Registry.Witnesses.{SnapshotError}
use specora_verify.Registry.Parse.{parse_registry_snapshot}
use specora_verify.Registry.Validate.{
  Options, ValidationResult, Input, raw, parsed, validate_registry_snapshot,
}

pub data RegistryVerificationStatus : Type 0 where
  pass warn fail error : RegistryVerificationStatus

pub data ChainError : Type 0 where
  no_snapshots : ChainError
  snapshot_unreadable : ℕ → SnapshotError → ChainError
  first_not_genesis : ℤ → ChainError
  link_broken : ℤ → String → String → ChainError
  version_not_increasing : ℤ → ℤ → ChainError
  taken_back_status : Violation → ChainError

pub record ChainResult : Type 0 where
  pub status : RegistryVerificationStatus
  pub chain_length : ℕ
  pub chain_valid : Bool
  pub latest_version : Option ℤ
  pub latest_hash : Option String
  pub revocation_violations : List Violation
  pub snapshot_results : List (ℤ × ValidationResult)
  pub errors : List ChainError

abbrev pub empty_result : ChainError → ChainResult
empty_result e = record {
  status = error;
  chain_length = 0;
  chain_valid = false;
  latest_version = none;
  latest_hash = none;
  revocation_violations = [];
  snapshot_results = [];
  errors = e ∷ [];
}

abbrev pub parse_input : Platform → Input → Result SnapshotError RegistrySnapshot
parse_input P (raw fields) = parse_registry_snapshot P fields
parse_input P (parsed s) = ok s

-- The snapshots parsed, or the first one that cannot be.
pub data Parsed : Type 0 where
  all_read : List RegistrySnapshot → Parsed
  unread : ℕ → SnapshotError → Parsed

abbrev pub prepend : RegistrySnapshot → Parsed → Parsed
prepend s (all_read ss) = all_read (s ∷ ss)
prepend s (unread i e) = unread i e

unfoldable pub parse_all : Platform → ℕ → List Input → Result SnapshotError Parsed
parse_all P i [] = ok (all_read [])
parse_all P i (x ∷ xs) = elim (parse_input P x) [
  | err (verification e) ↦ ok (unread i e)
  | err e ↦ err e
  | ok s ↦ (do rest ← parse_all P (suc i) xs; ok (prepend s rest))
]

-- `sort(key=lambda s: s.registry_version)`, which is stable
unfoldable pub insert_snapshot : RegistrySnapshot → List RegistrySnapshot → List RegistrySnapshot
insert_snapshot s [] = s ∷ []
insert_snapshot s (t ∷ ts) =
    if leb_ℤ s.registry_version t.registry_version then s ∷ t ∷ ts else t ∷ insert_snapshot s ts

unfoldable pub sort_snapshots : List RegistrySnapshot → List RegistrySnapshot
sort_snapshots [] = []
sort_snapshots (s ∷ ss) = insert_snapshot s (sort_snapshots ss)

-- INV-REG-002 and the version, for a snapshot behind `previous`.
unfoldable pub link_errors : Option RegistrySnapshot → RegistrySnapshot → List ChainError
link_errors none s = if is_genesis s then [] else first_not_genesis s.registry_version ∷ []
link_errors (some p) s =
    (if str_eq s.previous_registry_hash p.registry_hash
      then []
      else link_broken s.registry_version s.previous_registry_hash p.registry_hash ∷ [])
    ++ (if leb_ℤ s.registry_version p.registry_version
        then version_not_increasing p.registry_version s.registry_version ∷ []
        else [])

-- `snapshot_results[version] = result`
abbrev pub put_result :
    ℤ → ValidationResult → List (ℤ × ValidationResult) → List (ℤ × ValidationResult)
put_result v r [] = (v, r) ∷ []
put_result v r ((w, old) ∷ rest) =
    let others = put_result v r rest in if eq_ℤ w v then (w, r) ∷ rest else (w, old) ∷ others

-- What the loop has gathered.
pub record Walk : Type 0 where
  pub chain_valid : Bool
  pub violations : List Violation
  pub results : List (ℤ × ValidationResult)
  pub errors : List ChainError

unfoldable pub walk :
    Platform
    → Options
    → Option RegistrySnapshot
    → List (ℤ × ValidationResult)
    → List RegistrySnapshot
    → Result SnapshotError Walk
walk P o previous results [] =
    ok record { chain_valid = true; violations = []; results = results; errors = [] }
walk P o previous results (s ∷ rest) = do
  r ← validate_registry_snapshot P o (parsed s)
  let link = link_errors previous s
  let violations = enforce_revocation_monotonicity previous s
  w ← walk P o (some s) (put_result s.registry_version r results) rest
  ok record {
    chain_valid = r.valid && is_nil link && is_nil violations && w.chain_valid;
    violations = violations ++ w.violations;
    results = w.results;
    errors = link ++ (map taken_back_status violations ++ w.errors);
  }

abbrev pub last_snapshot : List RegistrySnapshot → Option RegistrySnapshot
last_snapshot [] = none
last_snapshot (s ∷ []) = some s
last_snapshot (s ∷ t ∷ ss) = last_snapshot (t ∷ ss)

abbrev pub version_of : Option RegistrySnapshot → Option ℤ
version_of none = none
version_of (some s) = some s.registry_version

abbrev pub hash_of : Option RegistrySnapshot → Option String
hash_of none = none
hash_of (some s) = some s.registry_hash

-- The result of the loop. `warnings` stays empty in the code, so `warn` is never given.
abbrev pub chain_result : List RegistrySnapshot → Walk → ChainResult
chain_result sorted w = record {
  status = if not w.chain_valid || not (is_nil w.errors) then fail else pass;
  chain_length = length sorted;
  chain_valid = w.chain_valid;
  latest_version = version_of (last_snapshot sorted);
  latest_hash = hash_of (last_snapshot sorted);
  revocation_violations = w.violations;
  snapshot_results = w.results;
  errors = w.errors;
}

abbrev pub verify_parsed : Platform → Options → Parsed → Result SnapshotError ChainResult
verify_parsed P o (unread i e) = ok (empty_result (snapshot_unreadable i e))
verify_parsed P o (all_read ss) = do
  let sorted = sort_snapshots ss
  w ← walk P o none [] sorted
  ok (chain_result sorted w)

unfoldable pub verify_registry_chain :
    Platform → Options → List Input → Result SnapshotError ChainResult
verify_registry_chain P o [] = ok (empty_result no_snapshots)
verify_registry_chain P o (x ∷ xs) = do ss ← parse_all P 0 (x ∷ xs); verify_parsed P o ss

-- `get_exit_code`
unfoldable pub get_exit_code : RegistryVerificationStatus → ℕ
get_exit_code pass = 0
get_exit_code warn = 1
get_exit_code fail = 2
get_exit_code error = 3
