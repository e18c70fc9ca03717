-- ===== src/Canonical/Escape.antt =====
-- Escaped text: the bytes that `emit_chars` writes can be read back in one way only.
use Prim.Native.Char.{char}
use text.Mathlib.TextEquality.{Char-path}
use specora_verify.Base.{
  ◌≡◌, ◌≢◌, ◌∙◌, refl, sym, ap, ℕ, ◌+◌, ◌-◌, ◌/◌, ◌%◌, ◌<◌, ◌⊎◌, inl, inr, Char, code, String, List,
  [], ◌∷◌, arith, none, some, ltb, leb, Option-cases, Bool-cases, ◌&&◌,
}
use specora_verify.Canonical.{
  hex_digit, escape_unit, short_escape, escape_other, escape_char, emit_chars,
}

module _ {ℓ} {A : Type ℓ} where
  head_default : A → List A → A
  head_default d [] = d
  head_default d (x ∷ xs) = x

  tail_list : List A → List A
  tail_list [] = []
  tail_list (x ∷ xs) = xs

  pub cons-injective : {x y : A} {xs ys : List A} → x ∷ xs ≡ y ∷ ys → (x ≡ y) × (xs ≡ ys)
  unfolding head_default tail_list
  cons-injective {x} h = (ap (head_default x) h, ap tail_list h)

hex_digit-injective : (a b : ℕ) → a < 16 → b < 16 → hex_digit a ≡ hex_digit b → a ≡ b
unfolding hex_digit
hex_digit-injective a b la lb h = ground arith

-- One escaped UTF-16 unit.
escape_unit-injective :
    (m n : ℕ) {r s : List ℕ}
    → m < 65536
    → n < 65536
    → escape_unit m r ≡ escape_unit n s
    → (m ≡ n) × (r ≡ s)
unfolding escape_unit
escape_unit-injective m n lm ln h =
    let a = cons-injective (cons-injective (cons-injective h).1).1 in
    let b = cons-injective a.1 in
    let c = cons-injective b.1 in
    let d = cons-injective c.1 in
    let e = hex_digit-injective (m / 4096 % 16) (n / 4096 % 16) (omega arith) (omega arith) a.0 in
    let f = hex_digit-injective (m / 256 % 16) (n / 256 % 16) (omega arith) (omega arith) b.0 in
    let g = hex_digit-injective (m / 16 % 16) (n / 16 % 16) (omega arith) (omega arith) c.0 in
    let i = hex_digit-injective (m % 16) (n % 16) (omega arith) (omega arith) d.0 in
    (omega (arith, e, f, g, i), d.1)

-- A Unicode scalar value.
abbrev Scalar : ℕ → Type 0
Scalar n = (n < 55296) ⊎ ((57343 < n) × (n < 1114112))

Scalar-code : (c : Char) → Scalar (code c)
Scalar-code (char n h) = ground arith

-- How a character is written: as itself, by a letter, by one unit or by a surrogate pair.
data Form (c : ℕ) : Type 0 where
  plain : c ≢ 34 → c ≢ 92 → ((r : List ℕ) → escape_char c r ≡ c ∷ r) → Form c
  short :
      (e : ℕ)
      → short_escape c ≡ some e
      → e ≢ 117
      → ((r : List ℕ) → escape_char c r ≡ 92 ∷ e ∷ r)
      → Form c
  unit :
      (c < 55296) ⊎ (57343 < c)
      → c < 65536
      → ((r : List ℕ) → escape_char c r ≡ escape_unit c r)
      → Form c
  pair :
      65535 < c
      → c < 1114112
      → ((r : List ℕ)
          → escape_char c r
            ≡ escape_unit (55296 + (c - 65536) / 1024) (escape_unit (56320 + (c - 65536) % 1024) r))
      → Form c

short_letter : (c e : ℕ) → short_escape c ≡ some e → e ≢ 117
unfolding short_escape
short_letter c e h = ground arith

not_short : (c : ℕ) → short_escape c ≡ none → (c ≢ 34) × (c ≢ 92)
unfolding short_escape
not_short c h = ground arith

other-Form :
    (c : ℕ)
    → Scalar c
    → short_escape c ≡ none
    → ((r : List ℕ) → escape_char c r ≡ escape_other c r)
    → Form c
unfolding escape_other
other-Form c sc h e = elim (Bool-cases (leb 32 c && leb c 126)) [
  | inl p ↦ plain (not_short c h).0 (not_short c h).1 (λ r. e r ∙ rw p)
  | inr q ↦ elim (Bool-cases (ltb c 65536)) [
    | inl p ↦ unit (ground arith) (ground arith) (λ r. e r ∙ rw (q, p))
    | inr p ↦ pair (ground arith) (ground arith) (λ r. e r ∙ rw (q, p))
  ]
]

form : (c : ℕ) → Scalar c → Form c
unfolding escape_char
form c sc = elim (Option-cases (short_escape c)) [
  | inl h ↦ other-Form c sc h (λ r. rw (h, escape_char))
  | inr (e, h) ↦ short e h (short_letter c e h) (λ r. rw (h, escape_char))
]

short_escape-injective : (c d e : ℕ) → short_escape c ≡ some e → short_escape d ≡ some e → c ≡ d
unfolding short_escape
short_escape-injective c d e h k = ground arith

-- The first bytes of each form.
unit_is_not_short :
    {e : ℕ} {r : List ℕ} (n : ℕ) (s : List ℕ) → e ≢ 117 → ¬ (92 ∷ e ∷ r ≡ escape_unit n s)
unfolding escape_unit
unit_is_not_short n s ne h = ne (cons-injective (cons-injective h).1).0

unit_is_not_plain : {c : ℕ} {r : List ℕ} (n : ℕ) (s : List ℕ) → c ≢ 92 → ¬ (c ∷ r ≡ escape_unit n s)
unfolding escape_unit
unit_is_not_plain n s nc h = nc (cons-injective h).0

abbrev high : ℕ → ℕ
high c = 55296 + (c - 65536) / 1024

abbrev low : ℕ → ℕ
low c = 56320 + (c - 65536) % 1024

pair-injective :
    (c d : ℕ) {r s : List ℕ}
    → 65535 < c
    → c < 1114112
    → 65535 < d
    → d < 1114112
    → escape_unit (high c) (escape_unit (low c) r) ≡ escape_unit (high d) (escape_unit (low d) s)
    → (c ≡ d) × (r ≡ s)
pair-injective c d lc uc ld ud h =
    let a = escape_unit-injective (high c) (high d) (omega arith) (omega arith) h in
    let b = escape_unit-injective (low c) (low d) (omega arith) (omega arith) a.1 in
    (omega (arith, a.0, b.0), b.1)

Same : ℕ → ℕ → List ℕ → List ℕ → Type 0
Same c d r s = escape_char c r ≡ escape_char d s → (c ≡ d) × (r ≡ s)

Form-cases : (c d : ℕ) (r s : List ℕ) → Form c → Form d → Same c d r s
unfolding Same
Form-cases c d r s (plain a b p) (plain a' b' q) h = cons-injective (sym (p r) ∙ h ∙ q s)
Form-cases c d r s (plain a b p) (short e x ne q) h =
    absurd (b (cons-injective (sym (p r) ∙ h ∙ q s)).0)
Form-cases c d r s (plain a b p) (unit x y q) h =
    absurd (unit_is_not_plain _ _ b (sym (p r) ∙ h ∙ q s))
Form-cases c d r s (plain a b p) (pair x y q) h =
    absurd (unit_is_not_plain _ _ b (sym (p r) ∙ h ∙ q s))
Form-cases c d r s (short e x ne q) (plain a b p) h =
    absurd (b (cons-injective (sym (p s) ∙ sym h ∙ q r)).0)
Form-cases c d r s (short e x ne p) (short e' x' ne' q) h =
    let k = cons-injective (cons-injective (sym (p r) ∙ h ∙ q s)).1 in
    (short_escape-injective c d e x (x' ∙ ap some (sym k.0)), k.1)
Form-cases c d r s (short e x ne p) (unit a b q) h =
    absurd (unit_is_not_short _ _ ne (sym (p r) ∙ h ∙ q s))
Form-cases c d r s (short e x ne p) (pair a b q) h =
    absurd (unit_is_not_short _ _ ne (sym (p r) ∙ h ∙ q s))
Form-cases c d r s (unit x y q) (plain a b p) h =
    absurd (unit_is_not_plain _ _ b (sym (p s) ∙ sym h ∙ q r))
Form-cases c d r s (unit a b q) (short e x ne p) h =
    absurd (unit_is_not_short _ _ ne (sym (p s) ∙ sym h ∙ q r))
Form-cases c d r s (unit a b p) (unit a' b' q) h =
    escape_unit-injective c d b b' (sym (p r) ∙ h ∙ q s)
Form-cases c d r s (unit a b p) (pair a' b' q) h =
    let k = escape_unit-injective c (high d) b (omega arith) (sym (p r) ∙ h ∙ q s) in
    absurd (omega (arith, k.0))
Form-cases c d r s (pair x y q) (plain a b p) h =
    absurd (unit_is_not_plain _ _ b (sym (p s) ∙ sym h ∙ q r))
Form-cases c d r s (pair a b q) (short e x ne p) h =
    absurd (unit_is_not_short _ _ ne (sym (p s) ∙ sym h ∙ q r))
Form-cases c d r s (pair a b p) (unit a' b' q) h =
    let k = escape_unit-injective (high c) d (omega arith) b' (sym (p r) ∙ h ∙ q s) in
    absurd (omega (arith, k.0))
Form-cases c d r s (pair a b p) (pair a' b' q) h =
    pair-injective c d a b a' b' (sym (p r) ∙ h ∙ q s)

-- No character is written as a bare quote.
quote_ends : (c : ℕ) (r : List ℕ) {s : List ℕ} → Form c → ¬ (escape_char c r ≡ 34 ∷ s)
unfolding escape_unit
quote_ends c r (plain a b p) h = a (cons-injective (sym (p r) ∙ h)).0
quote_ends c r (short e x ne p) h = absurd (omega (arith, (cons-injective (sym (p r) ∙ h)).0))
quote_ends c r (unit x y p) h = absurd (omega (arith, (cons-injective (sym (p r) ∙ h)).0))
quote_ends c r (pair x y p) h = absurd (omega (arith, (cons-injective (sym (p r) ∙ h)).0))

-- A text and what follows it are determined by their bytes.
pub emit_chars-injective :
    (s t : String) {q r : List ℕ} → emit_chars s q ≡ emit_chars t r → (s ≡ t) × (q ≡ r)
unfolding emit_chars Same
emit_chars-injective String.[] String.[] h = (refl, (cons-injective h).1)
emit_chars-injective String.[] (String.◌∷◌ d t) h =
    absurd (quote_ends (code d) _ (form (code d) (Scalar-code d)) (sym h))
emit_chars-injective (String.◌∷◌ c s) String.[] h =
    absurd (quote_ends (code c) _ (form (code c) (Scalar-code c)) h)
emit_chars-injective (String.◌∷◌ c s) (String.◌∷◌ d t) {q} {r} h =
    let k =
      Form-cases (code c) (code d) (emit_chars s q) (emit_chars t r) (form (code c) (Scalar-code c))
        (form (code d) (Scalar-code d)) h in
    let rest = emit_chars-injective s t k.1 in
    ((λ i. String.◌∷◌ (Char-path c d k.0 i) (rest.0 i)), rest.1)
