-- ===== src/Stp/Decision.antt =====
-- What the decisions of `simulate_stp_decision` in validators/stp.py rest on.
use specora_verify.Base.{
  ◌≡◌, refl, sym, ap, subst, ◌∙◌, ◌⊎◌, inl, inr, ℤ, leb_ℤ, String, Bool, true, false, List, [], ◌∷◌,
  ◌++◌, All, Bool-cases, arith, pos,
}
use specora_verify.Errors.{Result, ok, >>=-eq-ok, ok-injective, ◌>>=◌}
use specora_verify.Platform.{Platform}
use specora_verify.Json.{Value, bool, int, float, str, arr, obj, nil, Fields, end}
use specora_verify.Stp.Body.{get_or}
use specora_verify.Stp.Simulate.{
  DecisionReason, SimulateResult, loaded, Outcome, tier_suffices, rule_outcome, default_outcome,
  matches_action, decide_by, first_match, action_of, rules_of, policy_hash_of, simulate_with,
  simulate_stp_decision,
}

-- A rule for another action.
abbrev pub IsOther : Platform → Value → Value → Type 0
IsOther P action (obj rule) = matches_action P action rule ≡ false
IsOther P action v = ⊥

-- The tier that a rule requires is met: it is a number, `true` counting as 1 and `false` as 0, that
-- is at most the tier of the request; for a float, `at_least` compares.
abbrev pub IsMet : (ℤ → String → Bool) → ℤ → Value → Type 0
IsMet at_least tier v =
    ((n : ℤ) × (v ≡ int n) × (leb_ℤ n tier ≡ true))
    ⊎ (((v ≡ bool true) × (leb_ℤ (pos 1) tier ≡ true))
        ⊎ (((v ≡ bool false) × (leb_ℤ (pos 0) tier ≡ true))
            ⊎ ((r : String) × (v ≡ float r) × (at_least tier r ≡ true))))

tier_suffices-IsMet :
    (at_least : ℤ → String → Bool) (tier : ℤ) (v : Value)
    → ◌≡◌ {A = Result DecisionReason Bool} (tier_suffices at_least tier v) (ok true)
    → IsMet at_least tier v
tier_suffices-IsMet at_least tier (int n) h = inl (n, refl, ok-injective (leb_ℤ n tier) true h)
tier_suffices-IsMet at_least tier (bool true) h =
    inr (inl (refl, ok-injective (leb_ℤ (pos 1) tier) true h))
tier_suffices-IsMet at_least tier (bool false) h =
    inr (inr (inl (refl, ok-injective (leb_ℤ (pos 0) tier) true h)))
tier_suffices-IsMet at_least tier (float r) h =
    inr (inr (inr (r, refl, ok-injective (at_least tier r) true h)))
tier_suffices-IsMet at_least tier v h = absurd (cc)

-- The rule that decides: the first one for the action, whose tier is met.
pub record IsGranted (P : Platform) (at_least : ℤ → String → Bool) (action : Value) (tier : ℤ)
    (rules : List Value) (decision : Value) : Type 0 where
  pub before : List Value
  pub rule : Fields
  pub after : List Value
  pub split : rules ≡ before ++ (obj rule ∷ after)
  pub others : All (IsOther P action) before
  pub for_action : matches_action P action rule ≡ true
  pub met : IsMet at_least tier (get_or "required_trust_tier" (int (pos 0)) rule)
  pub granted : decision ≡ get_or "decision" (str "allow") rule

-- A decision blocks, or is that of the rule that decides, or is the default where no rule is for
-- the action.
abbrev pub IsFounded :
    Platform → (ℤ → String → Bool) → Value → ℤ → Value → List Value → Value → Type 0
IsFounded P at_least action tier default rules decision =
    (decision ≡ str "block")
    ⊎ (IsGranted P at_least action tier rules decision
        ⊎ (All (IsOther P action) rules × (decision ≡ default)))

module _ (P : Platform) (at_least : ℤ → String → Bool) (action : Value) (tier : ℤ)
    (default : Value) where
  behind :
      (rule : Fields) (rules : List Value) (decision : Value)
      → matches_action P action rule ≡ false
      → IsFounded P at_least action tier default rules decision
      → IsFounded P at_least action tier default (obj rule ∷ rules) decision
  behind rule rules decision other (inl blocked) = inl blocked
  behind rule rules decision other (inr (inl g)) = inr (
      inl record {
        before = obj rule ∷ g.before;
        rule = g.rule;
        after = g.after;
        split = ap (λ rs. obj rule ∷ rs) g.split;
        others = (other, g.others);
        for_action = g.for_action;
        met = g.met;
        granted = g.granted;
      })
  behind rule rules decision other (inr (inr (others, e))) = inr (inr ((other, others), e))

  matched :
      (rule : Fields) (rules : List Value) (b : Bool)
      → matches_action P action rule ≡ true
      → ◌≡◌ {A = Result DecisionReason Bool}
          (tier_suffices at_least tier (get_or "required_trust_tier" (int (pos 0)) rule))
          (ok b)
      → IsFounded P at_least action tier default
          (obj rule ∷ rules)
          (rule_outcome action tier rule b).decision
  matched rule rules true same met = inr (
      inl record {
        before = [];
        rule = rule;
        after = rules;
        split = refl;
        others = tt;
        for_action = same;
        met =
            tier_suffices-IsMet at_least tier (get_or "required_trust_tier" (int (pos 0)) rule) met;
        granted = refl;
      })
  matched rule rules false same met = inl refl

  first_match-IsFounded :
      (rules : List Value) {o : Outcome}
      → first_match P at_least action tier default rules ≡ ok o
      → IsFounded P at_least action tier default rules o.decision
  unfolding first_match decide_by
  first_match-IsFounded [] {o} h =
      inr (inr (tt, sym (ap (λ o. o.decision) (ok-injective (default_outcome action default) o h))))
  first_match-IsFounded (obj rule ∷ rules) {o} h =
      elim (Bool-cases (matches_action P action rule)) [
        | inl same ↦
            let run : decide_by at_least action tier rule ≡ ok o = ground (arith, same, h) in
            let (b, met, h1) =
              >>=-eq-ok
                (tier_suffices at_least tier (get_or "required_trust_tier" (int (pos 0)) rule))
                (λ b. ok (rule_outcome action tier rule b)) run in
            let result = ok-injective (rule_outcome action tier rule b) o h1 in
            subst (IsFounded P at_least action tier default (obj rule ∷ rules))
              (ap (λ o. o.decision) result) (matched rule rules b same met)
        | inr other ↦
            let run : first_match P at_least action tier default rules ≡ ok o =
              ground (arith, other, h) in
            behind rule rules o.decision other (first_match-IsFounded rules run)
      ]
  first_match-IsFounded (v ∷ rules) h = absurd (ground (arith, h))

-- A decision that is simulated under a policy blocks, or is that of the first rule for the action,
-- whose trust tier is met, or is the default where no rule is for the action; `action` and `rules`
-- are those of the request and the policy.
pub simulate_stp_decision-IsFounded :
    (P : Platform) (at_least : ℤ → String → Bool) (request policy : Fields) (tier : ℤ)
    (action : Value) (rules : List Value) {r : SimulateResult}
    → ◌≡◌ {A = Result DecisionReason Value}
        (action_of (get_or "payload" (obj end) request))
        (ok action)
    → ◌≡◌ {A = Result DecisionReason (List Value)}
        (rules_of (get_or "rules" (arr nil) policy))
        (ok rules)
    → simulate_stp_decision P at_least request (loaded (obj policy)) tier ≡ ok r
    → IsFounded P at_least action tier
        (get_or "default_decision" (str "block") policy)
        rules
        r.decision
unfolding simulate_stp_decision simulate_with
simulate_stp_decision-IsFounded P at_least request policy tier action rules {r} ha hr h =
    let default = get_or "default_decision" (str "block") policy in
    let result : String → Outcome → SimulateResult = λ hash o. record {
      decision = o.decision;
      policy_hash = hash;
      reasons = o.reason ∷ [];
      restrictions = o.restrictions;
    } in
    let finish : String → Value → List Value → Result DecisionReason SimulateResult =
      λ hash a rs. (do o ← first_match P at_least a tier default rs; ok (result hash o)) in
    let (hash, hh, h1) =
      >>=-eq-ok (policy_hash_of P policy)
        (λ hash. do
          a ← action_of (get_or "payload" (obj end) request)
          rs ← rules_of (get_or "rules" (arr nil) policy)
          finish hash a rs)
        h in
    let (a, ea, h2) =
      >>=-eq-ok (action_of (get_or "payload" (obj end) request))
        (λ a. do rs ← rules_of (get_or "rules" (arr nil) policy); finish hash a rs) h1 in
    let (rs, er, h3) = >>=-eq-ok (rules_of (get_or "rules" (arr nil) policy)) (finish hash a) h2 in
    let (o, ho, h4) =
      >>=-eq-ok (first_match P at_least a tier default rs) (λ o. ok (result hash o)) h3 in
    let same_action = ok-injective a action (sym ea ∙ ha) in
    let same_rules = ok-injective rs rules (sym er ∙ hr) in
    let decision = ap (λ r. r.decision) (ok-injective (result hash o) r h4) in
    let founded = first_match-IsFounded P at_least a tier default rs ho in
    subst (λ d. IsFounded P at_least action tier default rules d) decision
      (subst (λ x. IsFounded P at_least x tier default rules o.decision) same_action
        (subst (λ ys. IsFounded P at_least a tier default ys o.decision) same_rules founded))
