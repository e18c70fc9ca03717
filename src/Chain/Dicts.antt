-- ===== src/Chain/Dicts.antt =====
-- `verify_chain` in validators/chain.py, over the dicts of the log.
use specora_verify.Base.{
  ℕ, suc, pos, negsuc, ltb_ℤ, String, Bool, true, ◌&&◌, Option, none, some, List, [], ◌∷◌, length,
  if◌then◌else◌,
}
use specora_verify.Errors.{Result, ok, ◌>>=◌}
use specora_verify.Platform.{Platform}
use specora_verify.Json.{Value, int, Fields, get}
use specora_verify.Chain.Entry.{ChainError, ChainResult, EntryVerification, or_else, signing_key}
use specora_verify.Chain.Verify.{count_valid, collect_errors, empty_result}
use specora_verify.Chain.Dict.{Dynamic, check_dict}

-- `<` between two indices
abbrev pub value_less : Dynamic → Value → Value → Result ChainError Bool
value_less D (int m) (int n) = ok (ltb_ℤ m n)
value_less D v w = D.less v w

abbrev pub sort_key : Fields → Value
sort_key fs = or_else (int (pos 0)) (get "index" fs)

-- `sorted(entries, key=lambda e: e.get("index", 0))`, which is stable
unfoldable pub insert_dict : Dynamic → Fields → List Fields → Result ChainError (List Fields)
insert_dict D a [] = ok (a ∷ [])
insert_dict D a (b ∷ bs) = do
  smaller ← value_less D (sort_key b) (sort_key a)
  rest ← if smaller then insert_dict D a bs else ok (a ∷ bs)
  ok (if smaller then b ∷ rest else a ∷ b ∷ bs)

unfoldable pub sort_dicts : Dynamic → List Fields → Result ChainError (List Fields)
sort_dicts D [] = ok []
sort_dicts D (a ∷ given) = do rest ← sort_dicts D given; insert_dict D a rest

unfoldable pub walk_dicts :
    Platform
    → Dynamic
    → Option String
    → ℕ
    → Option Value
    → List Fields
    → Result ChainError (Bool × List EntryVerification)
walk_dicts P D key i previous [] = ok (true, [])
walk_dicts P D key i previous (d ∷ ds) = do
  (kept, r) ← check_dict P D key i previous d
  (kept_all, rs) ← walk_dicts P D key (suc i) (get "entry_hash" d) ds
  ok (kept && kept_all, r ∷ rs)

abbrev pub first_dict : List Fields → Option Fields
first_dict [] = none
first_dict (d ∷ ds) = some d

abbrev pub last_dict : List Fields → Option Fields
last_dict [] = none
last_dict (d ∷ []) = some d
last_dict (d ∷ e ∷ es) = last_dict (e ∷ es)

-- `d.get(name)`, of an entry that there may be
abbrev pub field_of : String → Option Fields → Option Value
field_of name none = none
field_of name (some d) = get name d

abbrev pub dicts_result : List Fields → Bool × List EntryVerification → ChainResult
dicts_result ds (valid, rs) = record {
  valid = valid;
  total_entries = length ds;
  verified_count = count_valid rs;
  start_index = or_else (int (pos 0)) (field_of "index" (first_dict ds));
  end_index = or_else (int (negsuc 0)) (field_of "index" (last_dict ds));
  first_entry_hash = field_of "entry_hash" (first_dict ds);
  last_entry_hash = field_of "entry_hash" (last_dict ds);
  errors = collect_errors rs;
  entry_results = rs;
}

unfoldable pub verify_dicts :
    Platform → Dynamic → List Fields → Option String → Bool → Result ChainError ChainResult
verify_dicts P D [] public_key verify_signatures = ok empty_result
verify_dicts P D (d ∷ ds) public_key verify_signatures = do
  sorted ← sort_dicts D (d ∷ ds)
  rs ← walk_dicts P D (signing_key verify_signatures public_key) 0 none sorted
  ok (dicts_result sorted rs)
