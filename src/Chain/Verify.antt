-- ===== src/Chain/Verify.antt =====
-- The loop of `verify_chain` in validators/chain.py, and the result that it fills, for entries whose
-- documented fields have their types; for any dicts they are in Chain/Dicts.
use specora_verify.Base.{
  ℕ, suc, ℤ, pos, negsuc, leb_ℤ, String, Bool, true, ◌&&◌, Option, none, some, List, [], ◌∷◌, ◌++◌,
  is_nil, length, if◌then◌else◌,
}
use specora_verify.Errors.{Result, ok, ◌>>=◌}
use specora_verify.Json.{Value, int, str}
use specora_verify.Platform.{Platform}
use specora_verify.Chain.Entry.{
  Entry, EntryVerification, ChainError, ChainResult, empty_chain, or_else, validate_entry_schema,
  index_errors, link_errors, hash_errors, signing_key, check_entry_signature,
}

-- One round of the loop in `verify_chain`: the entry's result, and whether `result.valid` is kept.
unfoldable pub check_entry :
    Platform
    → Option String
    → ℕ
    → Option String
    → Entry
    → Result ChainError (Bool × EntryVerification)
check_entry P key i previous_hash e = do
  let index = or_else (pos i) e.index
  let schema = validate_entry_schema e index
  let gap = index_errors i index
  let link = link_errors i index previous_hash e.previous_entry_hash
  hash ← (if is_nil schema then hash_errors P e index else ok [])
  let signature = if is_nil schema then check_entry_signature P key e index else []
  ok (
    is_nil schema && is_nil gap && is_nil link && is_nil hash && is_nil signature,
    record {
      index = int index;
      entry_hash = str (or_else "" e.entry_hash);
      valid = is_nil hash && is_nil link && is_nil signature && is_nil schema;
      hash_valid = is_nil hash;
      link_valid = is_nil link;
      signature_valid = is_nil signature;
      errors = schema ++ (gap ++ (link ++ (hash ++ signature)));
    },
  )

unfoldable pub walk :
    Platform
    → Option String
    → ℕ
    → Option String
    → List Entry
    → Result ChainError (Bool × List EntryVerification)
walk P key i previous_hash [] = ok (true, [])
walk P key i previous_hash (e ∷ es) = do
  (kept, r) ← check_entry P key i previous_hash e
  (kept_all, rs) ← walk P key (suc i) e.entry_hash es
  ok (kept && kept_all, r ∷ rs)

-- `sorted(entries, key=lambda e: e.get("index", 0))`, which is stable
unfoldable pub insert_entry : Entry → List Entry → List Entry
insert_entry e [] = e ∷ []
insert_entry e (f ∷ fs) =
    if leb_ℤ (or_else (pos 0) e.index) (or_else (pos 0) f.index)
    then e ∷ f ∷ fs
    else f ∷ insert_entry e fs

unfoldable pub sort_entries : List Entry → List Entry
unfolding insert_entry
sort_entries [] = []
sort_entries (e ∷ es) = insert_entry e (sort_entries es)

abbrev pub count_valid : List EntryVerification → ℕ
count_valid [] = 0
count_valid (r ∷ rs) = if r.valid then suc (count_valid rs) else count_valid rs

abbrev pub collect_errors : List EntryVerification → List ChainError
collect_errors [] = []
collect_errors (r ∷ rs) = r.errors ++ collect_errors rs

abbrev pub first_entry : List Entry → Option Entry
first_entry [] = none
first_entry (e ∷ es) = some e

abbrev pub last_entry : List Entry → Option Entry
last_entry [] = none
last_entry (e ∷ []) = some e
last_entry (e ∷ f ∷ fs) = last_entry (f ∷ fs)

abbrev pub hash_of : Option Entry → Option String
hash_of none = none
hash_of (some e) = e.entry_hash

abbrev pub index_of : ℤ → Option Entry → ℤ
index_of d none = d
index_of d (some e) = or_else d e.index

-- A text as a JSON value.
abbrev pub as_text : Option String → Option Value
as_text none = none
as_text (some s) = some (str s)

abbrev pub empty_result : ChainResult
empty_result = record {
  valid = true;
  total_entries = 0;
  verified_count = 0;
  start_index = int (pos 0);
  end_index = int (negsuc 0);
  first_entry_hash = none;
  last_entry_hash = none;
  errors = empty_chain ∷ [];
  entry_results = [];
}

abbrev pub chain_result : List Entry → Bool × List EntryVerification → ChainResult
chain_result es (valid, rs) = record {
  valid = valid;
  total_entries = length es;
  verified_count = count_valid rs;
  start_index = int (index_of (pos 0) (first_entry es));
  end_index = int (index_of (negsuc 0) (last_entry es));
  first_entry_hash = as_text (hash_of (first_entry es));
  last_entry_hash = as_text (hash_of (last_entry es));
  errors = collect_errors rs;
  entry_results = rs;
}

unfoldable pub verify_chain :
    Platform → List Entry → Option String → Bool → Result ChainError ChainResult
verify_chain P [] public_key verify_signatures = ok empty_result
verify_chain P (e ∷ es) public_key verify_signatures = do
  let sorted = sort_entries (e ∷ es)
  rs ← walk P (signing_key verify_signatures public_key) 0 none sorted
  ok (chain_result sorted rs)
