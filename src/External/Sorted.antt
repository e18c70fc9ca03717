-- ===== src/External/Sorted.antt =====
-- What `sorted` does to the anchors in validators/external_anchor.py.
use mathlib.Core.List.Permᴰ
use mathlib.Core.List.{Permᴰ}
use specora_verify.Base.{
  ◌≡◌, refl, ap, subst, ◌∙◌, ◌⊎◌, inl, inr, Bool, true, false, List, [], ◌∷◌, Bool-cases,
  if◌then◌else◌, arith,
}
use specora_verify.Errors.{Result, ok, >>=-eq-ok, ok-injective}
use specora_verify.Json.{Value, Fields}
use specora_verify.External.Anchor.{AnchorError}
use specora_verify.External.Chain.{index_less, index_key, insert_anchor, sort_anchors}
use specora_verify.External.Linked.{InOrder}

-- The order of one pair of neighbours.
abbrev Below : (Value → Value → Result AnchorError Bool) → Fields → Fields → Type 0
Below less a b =
    ◌≡◌ {A = Result AnchorError Bool} (index_less less (index_key b) (index_key a)) (ok false)
    ⊎ ◌≡◌ {A = Result AnchorError Bool} (index_less less (index_key a) (index_key b)) (ok true)

-- The first of a list, where there is one, is not below the given anchor.
abbrev Heads : (Value → Value → Result AnchorError Bool) → Fields → List Fields → Type 0
Heads less a [] = Unit {0}
Heads less a (b ∷ bs) = Below less a b

InOrder-cons :
    (less : Value → Value → Result AnchorError Bool) (a : Fields) (bs : List Fields)
    → Heads less a bs
    → InOrder less bs
    → InOrder less (a ∷ bs)
InOrder-cons less a [] h o = tt
InOrder-cons less a (b ∷ bs) h o = (h, o)

InOrder-tail :
    (less : Value → Value → Result AnchorError Bool) (b : Fields) (bs : List Fields)
    → InOrder less (b ∷ bs)
    → Heads less b bs × InOrder less bs
InOrder-tail less b [] o = (tt, tt)
InOrder-tail less b (c ∷ cs) o = o

insert_sound :
    (less : Value → Value → Result AnchorError Bool) (a : Fields) (bs : List Fields)
    {cs : List Fields}
    → insert_anchor less a bs ≡ ok cs
    → InOrder less bs
    → Permᴰ cs (a ∷ bs)
      × InOrder less cs
      × ((c : Fields) → Heads less c bs → Below less c a → Heads less c cs)
unfolding insert_anchor
insert_sound less a [] {cs} h o =
    let same = ok-injective (a ∷ []) cs h in
    subst
      (λ ds.
        Permᴰ ds (a ∷ [])
        × InOrder less ds
        × ((c : Fields) → Unit {0} → Below less c a → Heads less c ds))
      same (Permᴰ.refl (a ∷ []), tt, λ c hs below. below)
insert_sound less a (b ∷ bs) {cs} h o =
    let (smaller, compared, h1) = >>=-eq-ok (index_less less (index_key b) (index_key a)) _ h in
    let (rest, made, same) =
      >>=-eq-ok (if smaller then insert_anchor less a bs else ok (a ∷ bs)) _ h1 in
    elim (Bool-cases smaller) [
      | inl below_a ↦
          let inserted : insert_anchor less a bs ≡ ok rest = ground (arith, below_a, made) in
          let result : ◌≡◌ {A = Result AnchorError (List Fields)} (ok (b ∷ rest)) (ok cs) =
            ground (arith, below_a, same) in
          let (heads, tail) = InOrder-tail less b bs o in
          let (perm, order, first) = insert_sound less a bs inserted tail in
          subst
            (λ ds.
              Permᴰ ds (a ∷ b ∷ bs)
              × InOrder less ds
              × ((c : Fields) → Below less c b → Below less c a → Heads less c ds))
            (ok-injective (b ∷ rest) cs result)
            (
              Permᴰ.trans (Permᴰ.cons refl perm) (Permᴰ.swap refl refl),
              InOrder-cons less b rest (first b heads (inr (compared ∙ ap (λ x. ok x) below_a)))
                  order,
              λ c hs below. hs,
            )
      | inr above ↦
          let result : ◌≡◌ {A = Result AnchorError (List Fields)} (ok (a ∷ b ∷ bs)) (ok cs) =
            ground (arith, above, same) in
          subst
            (λ ds.
              Permᴰ ds (a ∷ b ∷ bs)
              × InOrder less ds
              × ((c : Fields) → Below less c b → Below less c a → Heads less c ds))
            (ok-injective (a ∷ b ∷ bs) cs result)
            (
              Permᴰ.refl (a ∷ b ∷ bs),
              (inl (compared ∙ ap (λ x. ok x) above), o),
              λ c hs below. below,
            )
    ]

-- Sorting keeps the anchors and puts them in order.
pub sort_sound :
    (less : Value → Value → Result AnchorError Bool) (anchors : List Fields) {sorted : List Fields}
    → sort_anchors less anchors ≡ ok sorted
    → Permᴰ sorted anchors × InOrder less sorted
unfolding sort_anchors
sort_sound less [] {sorted} h =
    subst (λ s. Permᴰ s [] × InOrder less s) (ok-injective [] sorted h) (Permᴰ.nil, tt)
sort_sound less (a ∷ given) {sorted} h =
    let (rest, run, inserted) = >>=-eq-ok (sort_anchors less given) _ h in
    let (perm, order) = sort_sound less given run in
    let (all, in_order, first) = insert_sound less a rest inserted order in
    (Permᴰ.trans all (Permᴰ.cons refl perm), in_order)
