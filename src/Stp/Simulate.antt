-- ===== src/Stp/Simulate.antt =====
-- `simulate_stp_decision` in validators/stp.py.
use specora_verify.Base.{
  ℕ, suc, pos, ℤ, leb_ℤ, eq_ℤ, ◌==◌, String, str_eq, Bool, true, false, ◌&&◌, none, some, List, [],
  ◌∷◌, if◌then◌else◌,
}
use specora_verify.Errors.{Result, ok, err, type_error, attribute_error, encoded, ◌>>=◌}
use specora_verify.Platform.{Platform}
use specora_verify.Json.{
  Value, null, bool, int, float, str, arr, obj, Items, nil, cons, Fields, end, field, get, to_list,
}
use specora_verify.Checked.{at, truthy}
use specora_verify.Hash.{compute_manifest_hash}
use specora_verify.Stp.Body.{get_or}

-- What is said of a decision.
pub data DecisionReason : Type 0 where
  policy_unreadable : DecisionReason
  matched_rule : Value → Value → DecisionReason
  tier_insufficient : Value → ℤ → DecisionReason
  no_matching_rule : Value → Value → DecisionReason

pub record SimulateResult : Type 0 where
  pub decision : Value
  pub policy_hash : String
  pub reasons : List DecisionReason
  pub restrictions : Value

-- Where the policy comes from: a file that cannot be read, a document, or nothing.
pub data PolicySource : Type 0 where
  unreadable no_policy : PolicySource
  loaded : Value → PolicySource

abbrev pub field_count : Fields → ℕ
field_count end = 0
field_count (field k v fs) = suc (field_count fs)

-- `v == w` for JSON values; a dict is compared as what it maps.
unfoldable mutual
  pub value_eq : Platform → Value → Value → Bool
  value_eq P null null = true
  value_eq P (str s) (str t) = str_eq s t
  value_eq P (int m) (int n) = eq_ℤ m n
  value_eq P (arr vs) (arr ws) = items_eq P vs ws
  value_eq P (obj fs) (obj gs) = field_count fs == field_count gs && fields_within P fs gs
  value_eq P (bool b) (bool c) = P.same_number (bool b) (bool c)
  value_eq P (bool b) (int n) = P.same_number (bool b) (int n)
  value_eq P (bool b) (float r) = P.same_number (bool b) (float r)
  value_eq P (float r) (bool b) = P.same_number (float r) (bool b)
  value_eq P (float r) (int n) = P.same_number (float r) (int n)
  value_eq P (float r) (float q) = P.same_number (float r) (float q)
  value_eq P (int m) (bool b) = P.same_number (int m) (bool b)
  value_eq P (int m) (float r) = P.same_number (int m) (float r)
  value_eq P v w = false

  pub items_eq : Platform → Items → Items → Bool
  items_eq P nil nil = true
  items_eq P (cons v vs) (cons w ws) = value_eq P v w && items_eq P vs ws
  items_eq P vs ws = false

  pub fields_within : Platform → Fields → Fields → Bool
  fields_within P end gs = true
  fields_within P (field k v fs) gs =
      (elim (get k gs) [ none ↦ false | some w ↦ value_eq P v w ]) && fields_within P fs gs

-- `current_tier >= required_tier`; the comparison with a float is an argument.
abbrev pub tier_suffices : (ℤ → String → Bool) → ℤ → Value → Result DecisionReason Bool
tier_suffices at_least tier (int n) = ok (leb_ℤ n tier)
tier_suffices at_least tier (bool true) = ok (leb_ℤ (pos 1) tier)
tier_suffices at_least tier (bool false) = ok (leb_ℤ (pos 0) tier)
tier_suffices at_least tier (float r) = ok (at_least tier r)
tier_suffices at_least tier v = err type_error

-- The outcome of the loop: the decision, its reason, and the restrictions.
pub record Outcome : Type 0 where
  pub decision : Value
  pub reason : DecisionReason
  pub restrictions : Value

-- What the rule that matches says.
abbrev pub rule_outcome : Value → ℤ → Fields → Bool → Outcome
rule_outcome action tier rule suffices =
    if suffices
    then record {
      decision = get_or "decision" (str "allow") rule;
      reason = matched_rule action (get_or "decision" (str "allow") rule);
      restrictions = at "restrictions" rule;
    }
    else record {
      decision = str "block";
      reason = tier_insufficient (get_or "required_trust_tier" (int (pos 0)) rule) tier;
      restrictions = null;
    }

abbrev pub default_outcome : Value → Value → Outcome
default_outcome action default = record {
  decision = default;
  reason = no_matching_rule action default;
  restrictions = null;
}

abbrev pub matches_action : Platform → Value → Fields → Bool
matches_action P action rule = value_eq P (at "action_type" rule) action

unfoldable pub decide_by : (ℤ → String → Bool) → Value → ℤ → Fields → Result DecisionReason Outcome
decide_by at_least action tier rule = do
  suffices ← tier_suffices at_least tier (get_or "required_trust_tier" (int (pos 0)) rule)
  ok (rule_outcome action tier rule suffices)

-- The first rule for the action decides.
unfoldable pub first_match :
    Platform → (ℤ → String → Bool) → Value → ℤ → Value → List Value → Result DecisionReason Outcome
first_match P at_least action tier default [] = ok (default_outcome action default)
first_match P at_least action tier default (obj rule ∷ rules) =
    let rest = first_match P at_least action tier default rules in
    if matches_action P action rule then decide_by at_least action tier rule else rest
first_match P at_least action tier default (v ∷ rules) = err attribute_error

-- `payload.get("action_type", "unknown")`
abbrev pub action_of : Value → Result DecisionReason Value
action_of (obj ps) = ok (get_or "action_type" (str "unknown") ps)
action_of v = err attribute_error

abbrev pub rules_of : Value → Result DecisionReason (List Value)
rules_of (arr vs) = ok (to_list vs)
rules_of (obj end) = ok []
rules_of (str String.[]) = ok []
rules_of (obj (field k v fs)) = err attribute_error
rules_of (str (String.◌∷◌ c s)) = err attribute_error
rules_of v = err type_error

abbrev pub policy_hash_of : Platform → Fields → Result DecisionReason String
policy_hash_of P end = ok ""
policy_hash_of P (field k v fs) = encoded (compute_manifest_hash P (obj (field k v fs)))

unfoldable pub simulate_with :
    Platform → (ℤ → String → Bool) → Fields → Fields → ℤ → Result DecisionReason SimulateResult
simulate_with P at_least request policy tier = do
  hash ← policy_hash_of P policy
  action ← action_of (get_or "payload" (obj end) request)
  rules ← rules_of (get_or "rules" (arr nil) policy)
  o ← first_match P at_least action tier (get_or "default_decision" (str "block") policy) rules
  ok record {
    decision = o.decision;
    policy_hash = hash;
    reasons = o.reason ∷ [];
    restrictions = o.restrictions;
  }

-- The decision for a request; `tier` is `int(trust_score / 20)`.
unfoldable pub simulate_stp_decision :
    Platform
    → (ℤ → String → Bool)
    → Fields
    → PolicySource
    → ℤ
    → Result DecisionReason SimulateResult
simulate_stp_decision P at_least request unreadable tier = ok record {
  decision = str "block";
  policy_hash = "";
  reasons = policy_unreadable ∷ [];
  restrictions = null;
}
simulate_stp_decision P at_least request no_policy tier = simulate_with P at_least request end tier
simulate_stp_decision P at_least request (loaded (obj policy)) tier =
    simulate_with P at_least request policy tier
simulate_stp_decision P at_least request (loaded v) tier =
    if truthy v
    then (do hash ← encoded (compute_manifest_hash P v); err attribute_error)
    else err attribute_error
