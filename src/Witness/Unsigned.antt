-- ===== src/Witness/Unsigned.antt =====
-- A witness statement of validators/witness.py without its signature.
use specora_verify.Base.{
  ◌≡◌, refl, sym, ◌∙◌, inl, inr, String, str_eq, eq_iff, true, false, none, Bool-cases, arith,
}
use specora_verify.Json.{Fields, end, field, get, drop_key}

-- A document without its signature: all other fields are as they were.
pub record IsUnsigned (fs gs : Fields) : Type 0 where
  pub kept : (name : String) → str_eq name "witness_signature" ≡ false → get name gs ≡ get name fs
  pub left_out : get "witness_signature" gs ≡ none

apart :
    (k key name : String) → str_eq k key ≡ true → str_eq name key ≡ false → str_eq k name ≡ false
apart k key name dropped h = elim (Bool-cases (str_eq k name)) [
  | inr other ↦ other
  | inl here ↦
      let same : name ≡ key = sym ((eq_iff k name).0 here) ∙ (eq_iff k key).0 dropped in
      let both = (eq_iff name key).1 same in absurd (cc (both, h))
]

pub get-drop_key :
    (key name : String) (fs : Fields)
    → str_eq name key ≡ false
    → get name (drop_key key fs) ≡ get name fs
get-drop_key key name end h = refl
get-drop_key key name (field k v fs) h = elim (Bool-cases (str_eq k key)) [
  | inl dropped ↦
      let other : str_eq k name ≡ false = apart k key name dropped h in
      ground (arith, dropped, other, get-drop_key key name fs h)
  | inr left ↦ elim (Bool-cases (str_eq k name)) [
    | inl here ↦ ground (arith, left, here)
    | inr other ↦ ground (arith, left, other, get-drop_key key name fs h)
  ]
]

pub get_dropped : (key : String) (fs : Fields) → get key (drop_key key fs) ≡ none
get_dropped key end = refl
get_dropped key (field k v fs) = elim (Bool-cases (str_eq k key)) [
  | inl dropped ↦ ground (arith, dropped, get_dropped key fs)
  | inr left ↦ ground (arith, left, get_dropped key fs)
]
