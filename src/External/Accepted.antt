-- ===== src/External/Accepted.antt =====
-- Why a chain that `verify_external_anchor_chain` in validators/external_anchor.py finds valid is linked.
use mathlib.Core.List.{Permᴰ}
use specora_verify.Base.{
  ◌≡◌, sym, subst, ◌∙◌, ℕ, suc, String, Bool, true, false, Option, List, [], ◌∷◌, ◌++◌, is_nil, All,
  Bool-cases, arith, inl, inr,
}
use specora_verify.Errors.{Result, ok, >>=-eq-ok, ok-injective, ◌>>=◌}
use specora_verify.Platform.{Platform}
use specora_verify.Json.{Value, str, Fields, has_key}
use specora_verify.Checked.{at}
use specora_verify.Stp.Body.{get_or}
use specora_verify.Stp.Simulate.{value_eq}
use specora_verify.External.Anchor.{
  AnchorError, genesis_hash, required_fields, verify_external_anchor, sliced, chain_break,
}
use specora_verify.External.Chain.{
  AnchorChainResult, sort_anchors, link_errors, own_errors, Walk, walk,
  verify_external_anchor_chain,
}
use specora_verify.External.Linked.{IsLinked, value_eq-str, get_or-at, InOrder}
use specora_verify.External.Sorted.{sort_sound}
use specora_verify.External.Sound.{
  present_at, nil_parts, verify_external_anchor-IsAnchor, own_errors-valid,
}

has_previous :
    (fs : Fields)
    → All (λ f. has_key f fs ≡ true) required_fields
    → has_key "previous_external_anchor_hash" fs ≡ true
has_previous fs h = h.1.1.1.1.1.1.0

break_hidden :
    (i : ℕ) (index actual expected : Value) {es : List AnchorError}
    → (do u ← sliced actual; v ← sliced expected; ok (chain_break i index actual expected ∷ []))
      ≡ ok es
    → is_nil es ≡ true
    → ⊥
break_hidden i index actual expected {es} h n =
    let (u, first, after) = >>=-eq-ok (sliced actual) _ h in
    let (v, second, same) = >>=-eq-ok (sliced expected) _ after in
    let wrong : false ≡ true = subst (λ d. is_nil d ≡ true) (sym (ok-injective _ _ same)) n in
    absurd (cc)

-- The link that is not reported broken.
link_sound :
    (P : Platform) (i : ℕ) (expected : String) (fs : Fields) {es : List AnchorError}
    → link_errors P i (str expected) fs ≡ ok es
    → is_nil es ≡ true
    → has_key "previous_external_anchor_hash" fs ≡ true
    → at "previous_external_anchor_hash" fs ≡ str expected
unfolding link_errors
link_sound P i expected fs {es} h n there =
    let actual = get_or "previous_external_anchor_hash" (str "") fs in
    elim (Bool-cases (value_eq P actual (str expected))) [
      | inl same ↦
          present_at "previous_external_anchor_hash" fs (str "") there
          ∙ value_eq-str P actual expected same
      | inr other ↦ absurd (
          break_hidden i (get_or "chain_head_index" (str "?") fs) actual (str expected)
            (ground (arith, other, h)) n)
    ]

walk_sound :
    (P : Platform) (key : Option (List ℕ)) (verify : Bool) (i : ℕ) (expected : String)
    (anchors : List Fields) {w : Walk}
    → walk P key verify i (str expected) anchors ≡ ok w
    → is_nil w.errors ≡ true
    → IsLinked P key verify expected anchors
unfolding walk
walk_sound P key verify i expected [] h n = tt
walk_sound P key verify i expected (fs ∷ rest) {w} h n =
    let (r, run, after) = >>=-eq-ok (verify_external_anchor P key verify fs) _ h in
    let (link, linked, later) = >>=-eq-ok (link_errors P i (str expected) fs) _ after in
    let next = get_or "anchor_hash" (str "") fs in
    let (w_rest, walked, same) = >>=-eq-ok (walk P key verify (suc i) next rest) _ later in
    let (own, others) =
      nil_parts (own_errors r) (link ++ w_rest.errors)
        (subst (λ d. is_nil d.errors ≡ true) (sym (ok-injective _ _ same)) n) in
    let (no_break, remaining) = nil_parts link w_rest.errors others in
    let (hash, anchor) =
      verify_external_anchor-IsAnchor P key verify fs run
        (own_errors-valid P key verify fs run own) in
    let from : walk P key verify (suc i) (str hash) rest ≡ ok w_rest =
      subst (λ d. walk P key verify (suc i) d rest ≡ ok w_rest)
        (get_or-at "anchor_hash" fs hash anchor.stated (str "")) walked in
    (
      hash,
      anchor,
      link_sound P i expected fs linked no_break (has_previous fs anchor.complete),
      walk_sound P key verify (suc i) hash rest from remaining,
    )

-- A chain of at least one anchor that is found valid consists of the given anchors, put in the
-- order of their indices, and is linked from the genesis hash: each anchor has the required fields,
-- the version 1, as its hash that of its seven other fields but for the signature and its key, and,
-- with a key at hand, a signature over that hash, and names the hash of the anchor before.
pub verify_external_anchor_chain-IsLinked :
    (P : Platform) (less : Value → Value → Result AnchorError Bool) (key : Option (List ℕ))
    (verify : Bool) (first : Fields) (rest : List Fields) (c : AnchorChainResult)
    → verify_external_anchor_chain P less key verify (first ∷ rest) ≡ ok c
    → c.valid ≡ true
    → (sorted : List Fields) × Permᴰ sorted (first ∷ rest)
      × InOrder less sorted
      × IsLinked P key verify genesis_hash sorted
unfolding verify_external_anchor_chain
verify_external_anchor_chain-IsLinked P less key verify first rest c h valid_h =
    let (sorted, in_order, after) = >>=-eq-ok (sort_anchors less (first ∷ rest)) _ h in
    let (w, walked, same) = >>=-eq-ok (walk P key verify 0 (str genesis_hash) sorted) _ after in
    let (perm, order) = sort_sound less (first ∷ rest) in_order in
    (
      sorted,
      perm,
      order,
      walk_sound P key verify 0 genesis_hash sorted walked
          (subst (λ d. d.valid ≡ true) (sym (ok-injective _ _ same)) valid_h),
    )
