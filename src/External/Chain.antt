-- ===== src/External/Chain.antt =====
-- `verify_external_anchor_chain` in validators/external_anchor.py.
use specora_verify.Base.{
  ℕ, suc, pos, Bool, true, Option, none, List, [], ◌∷◌, ◌++◌, length, is_nil, if◌then◌else◌, String,
  ltb_ℤ,
}
use specora_verify.Errors.{Result, ok, ◌>>=◌}
use specora_verify.Platform.{Platform}
use specora_verify.Json.{Value, int, str, Fields, get}
use specora_verify.Stp.Body.{get_or}
use specora_verify.Stp.Simulate.{value_eq}
use specora_verify.External.Anchor.{
  AnchorError, chain_break, no_anchors, AnchorResult, genesis_hash, sliced, verify_external_anchor,
}

pub record AnchorChainResult : Type 0 where
  pub valid : Bool
  pub total_anchors : ℕ
  pub verified_count : ℕ
  pub first_anchor_hash : Option Value
  pub last_anchor_hash : Option Value
  pub first_chain_index : Option Value
  pub last_chain_index : Option Value
  pub errors : List AnchorError
  pub anchor_results : List AnchorResult

abbrev pub index_key : Fields → Value
index_key fs = get_or "chain_head_index" (int (pos 0)) fs

-- `<` between two indices: of integers it is written out; of other values it is an argument, and
-- may raise.
abbrev pub index_less :
    (Value → Value → Result AnchorError Bool) → Value → Value → Result AnchorError Bool
index_less less (int m) (int n) = ok (ltb_ℤ m n)
index_less less v w = less v w

-- `sorted(anchors, key=...)`, which is stable.
unfoldable pub insert_anchor :
    (Value → Value → Result AnchorError Bool)
    → Fields
    → List Fields
    → Result AnchorError (List Fields)
insert_anchor less a [] = ok (a ∷ [])
insert_anchor less a (b ∷ bs) = do
  smaller ← index_less less (index_key b) (index_key a)
  rest ← if smaller then insert_anchor less a bs else ok (a ∷ bs)
  ok (if smaller then b ∷ rest else a ∷ b ∷ bs)

unfoldable pub sort_anchors :
    (Value → Value → Result AnchorError Bool) → List Fields → Result AnchorError (List Fields)
sort_anchors less [] = ok []
sort_anchors less (a ∷ given) = do rest ← sort_anchors less given; insert_anchor less a rest

-- The link to the anchor before.
unfoldable pub link_errors : Platform → ℕ → Value → Fields → Result AnchorError (List AnchorError)
link_errors P i expected fs =
    let actual = get_or "previous_external_anchor_hash" (str "") fs in
    if value_eq P actual expected then ok [] else (do
      u ← sliced actual
      v ← sliced expected
      ok (chain_break i (get_or "chain_head_index" (str "?") fs) actual expected ∷ []))

abbrev pub own_errors : AnchorResult → List AnchorError
own_errors r = if r.valid then [] else r.errors

pub record Walk : Type 0 where
  pub errors : List AnchorError
  pub results : List AnchorResult

abbrev pub add_result : AnchorResult → List AnchorError → Walk → Walk
add_result r link w = record {
  errors = own_errors r ++ (link ++ w.errors);
  results = r ∷ w.results;
}

unfoldable pub walk :
    Platform → Option (List ℕ) → Bool → ℕ → Value → List Fields → Result AnchorError Walk
walk P key verify_signatures i expected [] = ok record { errors = []; results = [] }
walk P key verify_signatures i expected (fs ∷ rest) = do
  r ← verify_external_anchor P key verify_signatures fs
  link ← link_errors P i expected fs
  w ← walk P key verify_signatures (suc i) (get_or "anchor_hash" (str "") fs) rest
  ok (add_result r link w)

abbrev pub count_valid : List AnchorResult → ℕ
count_valid [] = 0
count_valid (r ∷ rs) = if r.valid then suc (count_valid rs) else count_valid rs

abbrev pub of_first : String → List Fields → Option Value
of_first name [] = none
of_first name (fs ∷ rest) = get name fs

abbrev pub of_last : String → List Fields → Option Value
of_last name [] = none
of_last name (fs ∷ []) = get name fs
of_last name (fs ∷ gs ∷ rest) = of_last name (gs ∷ rest)

abbrev pub chain_result : List Fields → Walk → AnchorChainResult
chain_result sorted w = record {
  valid = is_nil w.errors;
  total_anchors = length sorted;
  verified_count = count_valid w.results;
  first_anchor_hash = of_first "anchor_hash" sorted;
  last_anchor_hash = of_last "anchor_hash" sorted;
  first_chain_index = of_first "chain_head_index" sorted;
  last_chain_index = of_last "chain_head_index" sorted;
  errors = w.errors;
  anchor_results = w.results;
}

-- No anchors are a valid chain, with an error listed.
abbrev pub empty_result : AnchorChainResult
empty_result = record {
  valid = true;
  total_anchors = 0;
  verified_count = 0;
  first_anchor_hash = none;
  last_anchor_hash = none;
  first_chain_index = none;
  last_chain_index = none;
  errors = no_anchors ∷ [];
  anchor_results = [];
}

unfoldable pub verify_external_anchor_chain :
    Platform
    → (Value → Value → Result AnchorError Bool)
    → Option (List ℕ)
    → Bool
    → List Fields
    → Result AnchorError AnchorChainResult
verify_external_anchor_chain P less key verify_signatures [] = ok empty_result
verify_external_anchor_chain P less key verify_signatures (a ∷ given) = do
  sorted ← sort_anchors less (a ∷ given)
  w ← walk P key verify_signatures 0 (str genesis_hash) sorted
  ok (chain_result sorted w)
