-- ===== src/Witness/Groups.antt =====
-- The groups of witnesses that `verify_witness_quorum` forms by their anchor hash.
use specora_verify.Base.{
  ◌≡◌, refl, sym, ◌∙◌, ap, ◌⊎◌, inl, inr, ℕ, suc, ◌+◌, ltb, String, str_eq, true, false, none, some,
  List, [], ◌∷◌, ◌++◌, length, length-append, All, arith, Bool-cases, Option-cases, eq_iff, subst,
}
use specora_verify.Json.{Value}
use specora_verify.Witness.Structure.{StatementResult}
use specora_verify.Witness.Quorum.{Results, Groups, join_group, vote, group_by_hash}

abbrev pub count_votes : Results → ℕ
count_votes [] = 0
count_votes ((k, r) ∷ rest) = elim (vote r) [
  | none ↦ count_votes rest
  | some h ↦ suc (count_votes rest)
]

abbrev pub total : Groups → ℕ
total [] = 0
total ((h, orgs) ∷ rest) = length orgs + total rest

total-join_group :
    (h : String) (org : Value) (gs : Groups) → total (join_group h org gs) ≡ suc (total gs)
total-join_group h org [] = refl
total-join_group h org ((g, orgs) ∷ rest) =
    ground (arith, total-join_group h org rest, length-append orgs (org ∷ []))

pub total-group_by_hash :
    (rs : Results) (gs : Groups) → total (group_by_hash rs gs) ≡ count_votes rs + total gs
unfolding group_by_hash
total-group_by_hash [] gs = omega arith
total-group_by_hash ((org, r) ∷ rest) gs = elim (Option-cases (vote r)) [
  | inl e ↦ ground (arith, e, total-group_by_hash rest gs)
  | inr (h, e) ↦
      ground (arith, e, total-group_by_hash rest (join_group h org gs), total-join_group h org gs)
]

-- Every result that has a vote votes for `h`.
abbrev pub AllFor : String → Results → Type 0
AllFor h = All (λ kr. (k : String) → vote kr.1 ≡ some k → k ≡ h)

-- One group is left: it is the first one, and everyone else voted for its hash.
pub record IsOne (h : String) (gs : Groups) (rs : Results) (final : Groups) : Type 0 where
  pub members : List Value
  pub alone : gs ≡ []
  pub final_eq : final ≡ (h, members) ∷ []
  pub votes : AllFor h rs

join_group-nonempty :
    (h : String) (org : Value) (gs : Groups) {A : Type 0} → join_group h org gs ≡ [] → A
join_group-nonempty h org [] e = absurd (cc)
join_group-nonempty h org (g ∷ gs) e = absurd (ground (arith, e))

one_vote : (r : StatementResult) {j k : String} → vote r ≡ some k → vote r ≡ some j → j ≡ k
one_vote r e v = cc

module _ (org : Value) (r : StatementResult) (rest : Results) (gs : Groups) where
  group-silent : vote r ≡ none → group_by_hash ((org, r) ∷ rest) gs ≡ group_by_hash rest gs
  unfolding group_by_hash
  group-silent e = rw (group_by_hash, e)

  group-votes :
      (k : String)
      → vote r ≡ some k
      → group_by_hash ((org, r) ∷ rest) gs ≡ group_by_hash rest (join_group k org gs)
  unfolding group_by_hash
  group-votes k e = rw (group_by_hash, e)

join_group-same :
    (h k : String) (org : Value) (orgs : List Value) (gs : Groups)
    → str_eq h k ≡ true
    → join_group k org ((h, orgs) ∷ gs) ≡ (h, orgs ++ org ∷ []) ∷ gs
join_group-same h k org orgs gs e = rw e

join_group-other :
    (h k : String) (org : Value) (orgs : List Value) (gs : Groups)
    → str_eq h k ≡ false
    → join_group k org ((h, orgs) ∷ gs) ≡ (h, orgs) ∷ join_group k org gs
join_group-other h k org orgs gs e = rw e

abbrev FewGroups : Groups → Type 0
FewGroups gs = ltb 1 (length gs) ≡ false

IsOne-group :
    (rs : Results) (h : String) (orgs : List Value) (gs : Groups)
    → FewGroups (group_by_hash rs ((h, orgs) ∷ gs))
    → IsOne h gs rs (group_by_hash rs ((h, orgs) ∷ gs))
IsOne-group [] h orgs [] few =
    unfold group_by_hash in record { members = orgs; alone = refl; final_eq = refl; votes = tt }
IsOne-group [] h orgs (g ∷ gs) few = unfold group_by_hash in absurd (ground (arith, few))
IsOne-group ((org, r) ∷ rest) h orgs gs few = elim (Option-cases (vote r)) [
  | inl e ↦
      let step = group-silent org r rest ((h, orgs) ∷ gs) e in
      let w = IsOne-group rest h orgs gs (subst FewGroups step few) in
      record {
        members = w.members;
        alone = w.alone;
        final_eq = step ∙ w.final_eq;
        votes = ((λ k v. absurd (cc)), w.votes);
      }
  | inr (k, e) ↦ elim (Bool-cases (str_eq h k)) [
    | inl same ↦
        let step =
          group-votes org r rest ((h, orgs) ∷ gs) k e
          ∙ ap (group_by_hash rest) (join_group-same h k org orgs gs same) in
        let w = IsOne-group rest h (orgs ++ org ∷ []) gs (subst FewGroups step few) in
        record {
          members = w.members;
          alone = w.alone;
          final_eq = step ∙ w.final_eq;
          votes = ((λ j v. one_vote r e v ∙ sym ((eq_iff h k).0 same)), w.votes);
        }
    | inr other ↦
        let step =
          group-votes org r rest ((h, orgs) ∷ gs) k e
          ∙ ap (group_by_hash rest) (join_group-other h k org orgs gs other) in
        let w = IsOne-group rest h orgs (join_group k org gs) (subst FewGroups step few) in
        join_group-nonempty k org gs w.alone
  ]
]

-- Without a second group, either nobody voted, or all votes are for one hash and its group holds
-- the voters.
pub few-agree :
    (rs : Results)
    → ltb 1 (length (group_by_hash rs [])) ≡ false
    → ((group_by_hash rs [] ≡ []) × All (λ kr. vote kr.1 ≡ none) rs)
      ⊎ ((h : String) × IsOne h [] rs (group_by_hash rs []))
few-agree [] few = unfold group_by_hash in inl (refl, tt)
few-agree ((org, r) ∷ rest) few = elim (Option-cases (vote r)) [
  | inl e ↦
      let step = group-silent org r rest [] e in
      elim (few-agree rest (subst FewGroups step few)) [
        | inl (none_left, silent) ↦ inl (step ∙ none_left, (e, silent))
        | inr (h, w) ↦ inr (
          h,
          record {
            members = w.members;
            alone = refl;
            final_eq = step ∙ w.final_eq;
            votes = ((λ k v. absurd (cc)), w.votes);
          },
        )
      ]
  | inr (k, e) ↦
      let step = group-votes org r rest [] k e in
      let w = IsOne-group rest k (org ∷ []) [] (subst FewGroups step few) in
      inr (
        k,
        record {
          members = w.members;
          alone = refl;
          final_eq = step ∙ w.final_eq;
          votes = ((λ j v. one_vote r e v), w.votes);
        },
      )
]
