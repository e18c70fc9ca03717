-- ===== src/Revocation/Named.antt =====
-- Which entry `RevocationList.lookup` in revocation.py finds.
use specora_verify.Base.{
  ◌≡◌, sym, ap, ◌∙◌, ◌↔◌, ◌⊎◌, inl, inr, String, str_truthy, eq_iff, true, false, Option, none,
  some, List, [], ◌∷◌, ◌++◌, arith, All, Bool-cases,
}
use specora_verify.Revocation.List.{KeyEntry, RevocationList, names, matches, lookup}
use specora_verify.Revocation.Decision.{lookup-eq-some_iff}

-- The identifier is the one that is asked for, and is not empty.
abbrev pub IsAsked : Option String → String → Type 0
IsAsked asked own = (asked ≡ some own) × (str_truthy own ≡ true)

-- The entry has the key's identifier, or its fingerprint.
abbrev pub IsNamed : Option String → Option String → KeyEntry → Type 0
IsNamed key_id fingerprint e =
    IsAsked key_id e.derived_key_id ⊎ IsAsked fingerprint e.fingerprint_sha256

-- `e` is the first entry that is named.
pub record IsFirstNamed (key_id fingerprint : Option String) (es : List KeyEntry) (e : KeyEntry)
    : Type 0 where
  pub before : List KeyEntry
  pub after : List KeyEntry
  pub split : es ≡ before ++ (e ∷ after)
  pub passed : All (λ d. ¬ IsNamed key_id fingerprint d) before
  pub found : IsNamed key_id fingerprint e

names_iff : (o : Option String) (own : String) → (names o own ≡ true) ↔ IsAsked o own
names_iff none own = (λ h. absurd (cc), λ (e, _). absurd (cc))
names_iff (some asked) own = (
  λ h.
      let same : own ≡ asked = (eq_iff own asked).0 (ground (arith, h)) in
      (ap (λ x. some x) (sym same), ap str_truthy same ∙ ground (arith, h)),
  λ (e, given).
      let same : asked ≡ own = cc (e) in
      let both = (eq_iff own asked).1 (sym same) in
      let long : str_truthy asked ≡ true = ap str_truthy same ∙ given in ground (arith, both, long),
)

matches_iff : (k f : Option String) (e : KeyEntry) → (matches k f e ≡ true) ↔ IsNamed k f e
unfolding matches
matches_iff k f e =
    let by_id = names_iff k e.derived_key_id in
    let by_print = names_iff f e.fingerprint_sha256 in
    (
      λ h. elim (Bool-cases (names k e.derived_key_id)) [
        | inl yes_id ↦ inl (by_id.0 yes_id)
        | inr no_id ↦ inr (by_print.0 (ground (arith, no_id, h)))
      ],
      λ n. elim n [
        | inl a ↦ let here = by_id.1 a in ground (arith, here)
        | inr b ↦ let here = by_print.1 b in ground (arith, here)
      ],
    )

unmatched : (k f : Option String) (e : KeyEntry) → ¬ IsNamed k f e → matches k f e ≡ false
unmatched k f e n = elim (Bool-cases (matches k f e)) [
  | inl here ↦ absurd (n ((matches_iff k f e).0 here))
  | inr other ↦ other
]

all_passed :
    (k f : Option String) (es : List KeyEntry)
    → All (λ d. matches k f d ≡ false) es ↔ All (λ d. ¬ IsNamed k f d) es
all_passed k f [] = (λ _. tt, λ _. tt)
all_passed k f (e ∷ es) =
    let rest = all_passed k f es in
    (
      λ (no_e, others).
          ((λ n. let found = (matches_iff k f e).1 n in absurd (cc (no_e, found))), rest.0 others),
      λ (no_e, others). (unmatched k f e no_e, rest.1 others),
    )

-- The lookup finds an entry exactly when it is the first one that has the identifier, or the
-- fingerprint, that is asked for; an empty one asks for nothing.
pub lookup-IsFirstNamed :
    (l : RevocationList) (k f : Option String) (e : KeyEntry)
    → (lookup l k f ≡ some e) ↔ IsFirstNamed k f l.keys e
lookup-IsFirstNamed l k f e = (
  λ h.
      let w = (lookup-eq-some_iff l k f e).0 h in
      record {
        before = w.before;
        after = w.after;
        split = w.split;
        passed = (all_passed k f w.before).0 w.passed;
        found = (matches_iff k f e).0 w.found;
      },
  λ w. (lookup-eq-some_iff l k f e).1 record {
    before = w.before;
    after = w.after;
    split = w.split;
    passed = (all_passed k f w.before).1 w.passed;
    found = (matches_iff k f e).1 w.found;
  },
)
