-- ===== src/Witness/Quorum.antt =====
-- `verify_witness_quorum` in validators/witness.py.
use specora_verify.Base.{
  ℕ, suc, ◌-◌, ltb, ℤ, pos, leb_ℤ, String, str_eq, str_truthy, Bool, true, false, Option, none,
  some, List, [], ◌∷◌, ◌++◌, length, if◌then◌else◌,
}
use specora_verify.Errors.{Result, ok, err, type_error, ◌>>=◌, ◌>>◌}
use specora_verify.Platform.{Platform}
use specora_verify.Json.{Value, null, str, arr, obj, Fields}
use specora_verify.Witness.Entry.{
  WitnessRegistry, WitnessVerificationStatus, pass, warn, fail, error,
}
use specora_verify.Witness.Structure.{StatementError, StatementResult}
use specora_verify.Witness.Statement.{validate_witness_statement}

pub data QuorumError : Type 0 where
  no_statements : QuorumError
  witnesses_disagree hash_mismatch : ℕ → QuorumError
  quorum_not_met : ℤ → ℕ → QuorumError

pub data QuorumWarning : Type 0 where
  some_invalid : ℕ → ℕ → QuorumWarning

-- `statement_results` and `hash_groups` in the order of insertion
abbrev pub Results : Type 0
Results = List (Value × StatementResult)

abbrev pub Groups : Type 0
Groups = List (String × List Value)

pub record QuorumResult : Type 0 where
  pub status : WitnessVerificationStatus
  pub quorum_required : ℤ
  pub quorum_achieved : ℕ
  pub witnesses_checked : ℕ
  pub witnesses_valid : ℕ
  pub consensus_anchor_hash : Option String
  pub consensus_anchor_index : Value
  pub hash_mismatch_detected : Bool
  pub mismatched_witnesses : List Value
  pub statement_results : Results
  pub errors : List QuorumError
  pub warnings : List QuorumWarning

-- Whether two keys of a dict are the same.
abbrev pub key_eq : Platform → Value → Value → Bool
key_eq P (str s) (str t) = str_eq s t
key_eq P (str s) w = false
key_eq P v (str t) = false
key_eq P null null = true
key_eq P null w = false
key_eq P v null = false
key_eq P v w = P.same_number v w

-- `statement_results[key] = r`
abbrev pub put : Platform → Value → StatementResult → Results → Results
put P key r [] = (key, r) ∷ []
put P key r ((k, old) ∷ rest) =
    let others = put P key r rest in if key_eq P k key then (k, r) ∷ rest else (k, old) ∷ others

abbrev pub at_key : Platform → Value → Results → Option StatementResult
at_key P key [] = none
at_key P key ((k, r) ∷ rest) = if key_eq P k key then some r else at_key P key rest

-- A list or a dict cannot be a key.
abbrev pub hashable : Value → Result StatementError (Unit {0})
hashable (arr vs) = err type_error
hashable (obj fs) = err type_error
hashable v = ok tt

-- The loop that validates each statement.
unfoldable pub validate_all :
    Platform
    → WitnessRegistry
    → Option String
    → Bool
    → List Fields
    → Results
    → Result StatementError Results
validate_all P r expected skip [] results = ok results
validate_all P r expected skip (fs ∷ rest) results = do
  s ← validate_witness_statement P fs (some r) expected skip
  hashable s.witness_org_id
  validate_all P r expected skip rest (put P s.witness_org_id s results)

abbrev pub count_valid : Results → ℕ
count_valid [] = 0
count_valid ((k, r) ∷ rest) = if r.valid then suc (count_valid rest) else count_valid rest

-- `hash_groups[h].append(org_id)`, in a new group where there is none
abbrev pub join_group : String → Value → Groups → Groups
join_group h org [] = (h, org ∷ []) ∷ []
join_group h org ((g, orgs) ∷ rest) =
    let others = join_group h org rest in
    if str_eq g h then (g, orgs ++ org ∷ []) ∷ rest else (g, orgs) ∷ others

-- `anchor_hash` where it is a text that is not empty
abbrev pub vote_hash : Value → Option String
vote_hash (str h) = if str_truthy h then some h else none
vote_hash v = none

-- The hash that a valid result counts for.
abbrev pub vote : StatementResult → Option String
vote r = if r.valid then vote_hash r.anchor_hash else none

unfoldable pub group_by_hash : Results → Groups → Groups
group_by_hash [] groups = groups
group_by_hash ((org, r) ∷ rest) groups = elim (vote r) [
  | none ↦ group_by_hash rest groups
  | some h ↦ group_by_hash rest (join_group h org groups)
]

-- `max(hash_groups.keys(), key=...)`: the first of the largest groups
abbrev pub largest : String × List Value → Groups → String × List Value
largest best [] = best
largest (h, orgs) ((g, more) ∷ rest) =
    if ltb (length orgs) (length more) then largest (g, more) rest else largest (h, orgs) rest

abbrev pub first_index : Platform → Results → List Value → Value
first_index P results [] = null
first_index P results (org ∷ orgs) = elim (at_key P org results) [
  | none ↦ first_index P results orgs
  | some r ↦ elim r.anchor_index [ null ↦ first_index P results orgs | v ↦ v ]
]

abbrev pub outside : String → Groups → List Value
outside best [] = []
outside best ((h, orgs) ∷ rest) =
    if str_eq h best then outside best rest else orgs ++ outside best rest

abbrev pub group_hash : Groups → Option String
group_hash [] = none
group_hash (g ∷ gs) = some (largest g gs).0

abbrev pub group_members : Groups → List Value
group_members [] = []
group_members (g ∷ gs) = (largest g gs).1

abbrev pub mismatched : Groups → List Value
mismatched [] = []
mismatched (g ∷ []) = []
mismatched (g ∷ h ∷ gs) = outside (largest g (h ∷ gs)).0 (g ∷ h ∷ gs)

-- The status, and the errors and warnings that it comes with.
abbrev pub decide_quorum :
    ℤ
    → ℕ
    → ℕ
    → ℕ
    → Bool
    → List Value
    → WitnessVerificationStatus × List QuorumError × List QuorumWarning
decide_quorum required achieved checked valid mismatch disagreeing =
    if mismatch
    then (
      fail,
      witnesses_disagree (length disagreeing) ∷ hash_mismatch (length disagreeing) ∷ [],
      [],
    )
    else if leb_ℤ required (pos achieved)
    then (if ltb valid checked
        then (warn, [], some_invalid (checked - valid) checked ∷ [])
        else (pass, [], []))
    else (fail, quorum_not_met required achieved ∷ [], [])

-- The verdict on the results of all statements.
unfoldable pub conclude_quorum : Platform → ℤ → Results → QuorumResult
conclude_quorum P required results =
    let groups = group_by_hash results [] in
    let members = group_members groups in
    let several = ltb 1 (length groups) in
    let disagreeing = mismatched groups in
    let (status, errors, warnings) =
      decide_quorum required (length members) (length results) (count_valid results) several
        disagreeing in
    record {
      status = status;
      quorum_required = required;
      quorum_achieved = length members;
      witnesses_checked = length results;
      witnesses_valid = count_valid results;
      consensus_anchor_hash = group_hash groups;
      consensus_anchor_index = first_index P results members;
      hash_mismatch_detected = several;
      mismatched_witnesses = disagreeing;
      statement_results = results;
      errors = errors;
      warnings = warnings;
    }

unfoldable pub verify_witness_quorum :
    Platform
    → List Fields
    → WitnessRegistry
    → ℤ
    → Option String
    → Bool
    → Result StatementError QuorumResult
verify_witness_quorum P [] r required expected skip = ok record {
  status = error;
  quorum_required = required;
  quorum_achieved = 0;
  witnesses_checked = 0;
  witnesses_valid = 0;
  consensus_anchor_hash = none;
  consensus_anchor_index = null;
  hash_mismatch_detected = false;
  mismatched_witnesses = [];
  statement_results = [];
  errors = no_statements ∷ [];
  warnings = [];
}
verify_witness_quorum P (fs ∷ rest) r required expected skip = do
  results ← validate_all P r expected skip (fs ∷ rest) []
  ok (conclude_quorum P required results)

-- `WitnessQuorumResult.valid`
abbrev pub is_valid : QuorumResult → Bool
is_valid r = elim r.status [ pass ↦ true | warn ↦ true | fail ↦ false | error ↦ false ]

unfoldable pub witness_status_to_exit_code : WitnessVerificationStatus → ℕ
witness_status_to_exit_code pass = 0
witness_status_to_exit_code warn = 1
witness_status_to_exit_code fail = 2
witness_status_to_exit_code error = 3
