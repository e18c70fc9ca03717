-- ===== src/Stp/Holds.antt =====
-- What Python's `in` says of the body of a message, in validators/stp.py.
use text.Mathlib.TextEquality.{Char-path}
use specora_verify.Base.{
  ◌≡◌, refl, ap, inl, inr, String, Bool, true, none, some, List, [], any, str_eq, ◌∷◌, ◌++◌,
  Bool-cases, arith, Option-cases,
}
use specora_verify.Errors.{Result, ok, ok-injective}
use specora_verify.Json.{Value, str, arr, obj, Fields, end, field, get, has_key, to_list}
use specora_verify.Checked.{is_str, is_str-eq}
use specora_verify.Stp.Body.{MessageError, is_prefix, is_substring, contains}

-- The text is made of the given parts.
abbrev pub followed_by : String → String → String
followed_by String.[] t = t
followed_by (String.◌∷◌ c s) t = String.◌∷◌ c (followed_by s t)

-- A value holds a name: a dict as a key, a list as an element, a text as a part of it.
abbrev pub Holds : String → Value → Type 0
Holds name (obj fs) = (v : Value) × (get name fs ≡ some v)
Holds name (arr vs) =
    (before : List Value) × (after : List Value) × (to_list vs ≡ before ++ (str name ∷ after))
Holds name (str s) =
    (before : String) × (after : String) × (s ≡ followed_by before (followed_by name after))
Holds name v = ⊥

prefix_sound : (t s : String) → is_prefix t s ≡ true → (after : String) × (s ≡ followed_by t after)
prefix_sound String.[] s h = (s, refl)
prefix_sound (String.◌∷◌ c t) String.[] h = absurd (cc)
prefix_sound (String.◌∷◌ c t) (String.◌∷◌ d s) h =
    let (after, rest) = prefix_sound t s (ground (arith, h)) in
    let same : d ≡ c = Char-path d c (ground (arith, h)) in
    (after, λ i. String.◌∷◌ (same i) (rest i))

substring_sound :
    (t s : String)
    → is_substring t s ≡ true
    → (before : String) × (after : String) × (s ≡ followed_by before (followed_by t after))
substring_sound t String.[] h = let (after, e) = prefix_sound t String.[] h in ("", after, e)
substring_sound t (String.◌∷◌ c s) h = elim (Bool-cases (is_prefix t (String.◌∷◌ c s))) [
  | inl here ↦ let (after, e) = prefix_sound t (String.◌∷◌ c s) here in ("", after, e)
  | inr other ↦
      let (before, after, e) = substring_sound t s (ground (arith, other, h)) in
      (String.◌∷◌ c before, after, ap (λ u. String.◌∷◌ c u) e)
]

element_sound :
    (name : String) (vs : List Value)
    → any (is_str name) vs ≡ true
    → (before : List Value) × (after : List Value) × (vs ≡ before ++ (str name ∷ after))
element_sound name [] h = absurd (cc)
element_sound name (v ∷ vs) h = elim (Bool-cases (is_str name v)) [
  | inl here ↦ ([], vs, ap (λ w. w ∷ vs) (is_str-eq name v here))
  | inr other ↦
      let (before, after, e) = element_sound name vs (ground (arith, other, h)) in
      (v ∷ before, after, ap (λ ws. v ∷ ws) e)
]

key_there : (name : String) (fs : Fields) → has_key name fs ≡ true → get name fs ≡ none → ⊥
key_there name end h e = absurd (cc)
key_there name (field k v fs) h e = elim (Bool-cases (str_eq k name)) [
  | inl here ↦ absurd (ground (arith, here, e))
  | inr other ↦ key_there name fs (ground (arith, other, h)) (ground (arith, other, e))
]

key_sound :
    (name : String) (fs : Fields) → has_key name fs ≡ true → (v : Value) × (get name fs ≡ some v)
key_sound name fs h = elim (Option-cases (get name fs)) [
  | inl e ↦ absurd (key_there name fs h e)
  | inr found ↦ found
]

pub contains-Holds :
    (name : String) (v : Value)
    → ◌≡◌ {A = Result MessageError Bool} (contains name v) (ok true)
    → Holds name v
contains-Holds name (obj fs) h = key_sound name fs (ok-injective (has_key name fs) true h)
contains-Holds name (arr vs) h =
    element_sound name (to_list vs) (ok-injective (any (is_str name) (to_list vs)) true h)
contains-Holds name (str s) h = substring_sound name s (ok-injective (is_substring name s) true h)
contains-Holds name v h = absurd (cc)
