-- ===== src/Canonical/Shape.antt =====
-- The shape of the written values: which documents are written at all, what the first byte shows,
-- and what follows a value inside an array or an object.
use specora_verify.Base.{
  ◌≡◌, refl, ℕ, zero, suc, ◌+◌, ◌%◌, ◌/◌, ◌==◌, ltb, ℤ, pos, negsuc, String, codes, true, false,
  List, [], ◌∷◌, ◌++◌, all, arith, if◌then◌else◌, Bool-cases, inl, inr,
}
use text.Mathlib.TextEquality.{Char-path}
use specora_verify.Json.{
  Value, null, bool, int, float, str, arr, obj, Items, nil, cons, Fields, end, field,
}
use specora_verify.Canonical.{decimal_loop, emit_int, emit, emit_more_items, emit_more_fields}
use specora_verify.Canonical.Escape.{cons-injective}
use specora_verify.Canonical.Number.{is_int_byte, is_number_byte, Follows}

-- What the `repr` of a finite float looks like: number bytes, not all of them digits or minus.
abbrev pub IsFloatText : String → Type 0
IsFloatText r = (all is_number_byte (codes r) ≡ true) × (all is_int_byte (codes r) ≡ false)

abbrev mutual
  pub WellFormed : Value → Type 0
  WellFormed null = Unit
  WellFormed (bool b) = Unit
  WellFormed (int n) = Unit
  WellFormed (float r) = IsFloatText r
  WellFormed (str s) = Unit
  WellFormed (arr xs) = WellFormedItems xs
  WellFormed (obj fs) = WellFormedFields fs

  pub WellFormedItems : Items → Type 0
  WellFormedItems nil = Unit
  WellFormedItems (cons v vs) = WellFormed v × WellFormedItems vs

  pub WellFormedFields : Fields → Type 0
  WellFormedFields end = Unit
  WellFormedFields (field k v fs) = WellFormed v × WellFormedFields fs

-- The kind of a value shows in the first byte.
abbrev pub kind_of : List ℕ → ℕ
kind_of [] = 0
kind_of (c ∷ r) =
    if is_number_byte c
    then 3
    else if c == b'n'
    then 1
    else if c == b't'
    then 2
    else if c == b'f'
    then 4
    else if c == 34
    then 5
    else if c == b'['
    then 6
    else if c == b'{'
    then 7
    else 0

abbrev pub kind : Value → ℕ
kind null = 1
kind (bool true) = 2
kind (bool false) = 4
kind (int n) = 3
kind (float r) = 3
kind (str s) = 5
kind (arr xs) = 6
kind (obj fs) = 7

kind_of-decimal_loop : (f n : ℕ) (q : List ℕ) → kind_of q ≡ 3 → kind_of (decimal_loop f n q) ≡ 3
unfolding decimal_loop
kind_of-decimal_loop zero n q h = h
kind_of-decimal_loop (suc f) n q h = elim (Bool-cases (ltb n 10)) [
  | inl small ↦ rw small (ground arith)
  | inr big ↦ rw big (kind_of-decimal_loop f (n / 10) ((n % 10 + 48) ∷ q) (ground arith))
]

kind_of-emit_int : (n : ℤ) (r : List ℕ) → kind_of (emit_int n r) ≡ 3
unfolding emit_int decimal_loop
kind_of-emit_int (pos n) r = elim (Bool-cases (ltb n 10)) [
  | inl small ↦ rw small (ground arith)
  | inr big ↦ rw big (kind_of-decimal_loop n (n / 10) ((n % 10 + 48) ∷ r) (ground arith))
]
kind_of-emit_int (negsuc n) r = refl

kind_of-float : (r : String) (q : List ℕ) → IsFloatText r → kind_of (codes r ++ q) ≡ 3
kind_of-float String.[] q h = cc (h.1)
kind_of-float (String.◌∷◌ c r) q h = ground arith

pub kind_of-emit : (v : Value) (r : List ℕ) → WellFormed v → kind_of (emit v r) ≡ kind v
unfolding emit
kind_of-emit null r w = refl
kind_of-emit (bool true) r w = refl
kind_of-emit (bool false) r w = refl
kind_of-emit (int n) r w = kind_of-emit_int n r
kind_of-emit (float t) r w = kind_of-float t r w
kind_of-emit (str s) r w = refl
kind_of-emit (arr xs) r w = refl
kind_of-emit (obj fs) r w = refl

pub codes-injective : (s t : String) → codes s ≡ codes t → s ≡ t
codes-injective String.[] String.[] h = refl
codes-injective String.[] (String.◌∷◌ c t) h = absurd (cc)
codes-injective (String.◌∷◌ c s) String.[] h = absurd (cc)
codes-injective (String.◌∷◌ c s) (String.◌∷◌ d t) h =
    let k = cons-injective h in
    let rest = codes-injective s t k.1 in λ i. String.◌∷◌ (Char-path c d k.0 i) (rest i)

pub items_follow : (xs : Items) (r : List ℕ) → Follows (emit_more_items xs r)
unfolding emit
items_follow nil r = refl
items_follow (cons v vs) r = refl

pub fields_follow : (xs : Fields) (r : List ℕ) → Follows (emit_more_fields xs r)
unfolding emit
fields_follow end r = refl
fields_follow (field k v vs) r = refl

pub not_closing : (v : Value) (r : List ℕ) → WellFormed v → ¬ (kind_of (emit v r) ≡ 0)
not_closing (bool true) r w h = omega (arith, kind_of-emit (bool true) r w)
not_closing (bool false) r w h = omega (arith, kind_of-emit (bool false) r w)
not_closing v r w h = omega (arith, kind_of-emit v r w)
