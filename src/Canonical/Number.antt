-- ===== src/Canonical/Number.antt =====
-- Numbers: the digits that `decimal_loop` writes are read back by a scan up to the first byte that
-- no number holds.
use specora_verify.Base.{
  ◌≡◌, refl, sym, ap, ◌∙◌, ℕ, zero, suc, ◌+◌, ◌-◌, ◌*◌, ◌/◌, ◌%◌, ◌<◌, ◌==◌, ltb, leb, ℤ, pos,
  negsuc, Bool, true, false, ◌&&◌, ◌||◌, List, [], ◌∷◌, ◌++◌, all, arith, if◌then◌else◌, Bool-cases,
  inl, inr,
}
use specora_verify.Canonical.{decimal_loop, emit_int}
use specora_verify.Canonical.Escape.{cons-injective}

abbrev is_digit : ℕ → Bool
is_digit c = leb 48 c && leb c 57

-- The bytes of an integer, and those of any number.
abbrev pub is_int_byte : ℕ → Bool
is_int_byte c = is_digit c || (c == b'-')

abbrev pub is_number_byte : ℕ → Bool
is_number_byte c = is_int_byte c || (c == b'+') || (c == b'.') || (c == b'e')

-- What may follow a number: nothing, or a byte that no number holds.
abbrev pub Follows : List ℕ → Type 0
Follows [] = Unit
Follows (c ∷ r) = is_number_byte c ≡ false

read : ℕ → List ℕ → ℕ
read v [] = v
read v (c ∷ r) = let rest = read (v * 10 + (c - 48)) r in if is_digit c then rest else v

read_step : (v d : ℕ) (r : List ℕ) → d < 10 → read v ((d + 48) ∷ r) ≡ read (v * 10 + d) r
unfolding read
read_step v d r h =
    let e : v * 10 + (d + 48 - 48) ≡ v * 10 + d = omega arith in rw (← e) (ground arith)

-- Reading the digits of `n` gives `n` back, when the fuel is enough.
read-decimal_loop : (f n : ℕ) (r : List ℕ) → n < f → read 0 (decimal_loop f n r) ≡ read n r
unfolding decimal_loop
read-decimal_loop zero n r h = elim h [ ]
read-decimal_loop (suc f) n r h = elim (Bool-cases (ltb n 10)) [
  | inl small ↦ rw small (read_step 0 n r (ground arith) ∙ ap (λ k. read k r) (omega arith))
  | inr big ↦ rw big (
      read-decimal_loop f (n / 10) ((n % 10 + 48) ∷ r) (ground arith)
      ∙ read_step (n / 10) (n % 10) r (omega arith)
      ∙ ap (λ k. read k r) (omega arith))
]

-- The digits as a text of their own, in front of what follows.
decimal_loop-append : (f n : ℕ) (q r : List ℕ) → decimal_loop f n q ++ r ≡ decimal_loop f n (q ++ r)
unfolding decimal_loop
decimal_loop-append zero n q r = refl
decimal_loop-append (suc f) n q r = elim (Bool-cases (ltb n 10)) [
  | inl small ↦ rw small
  | inr big ↦ rw big (decimal_loop-append f (n / 10) ((n % 10 + 48) ∷ q) r)
]

decimal_loop_digits :
    (f n : ℕ) (q : List ℕ) → all is_digit q ≡ true → all is_digit (decimal_loop f n q) ≡ true
unfolding decimal_loop
decimal_loop_digits zero n q h = h
decimal_loop_digits (suc f) n q h = elim (Bool-cases (ltb n 10)) [
  | inl small ↦ rw small (ground arith)
  | inr big ↦ rw big (decimal_loop_digits f (n / 10) ((n % 10 + 48) ∷ q) (ground arith))
]

pub int_text : ℤ → List ℕ
int_text n = emit_int n []

pub emit_int-eq : (n : ℤ) (r : List ℕ) → emit_int n r ≡ int_text n ++ r
unfolding emit_int int_text
emit_int-eq (pos n) r = sym (decimal_loop-append (suc n) n [] r)
emit_int-eq (negsuc n) r = ap (λ l. b'-' ∷ l) (sym (decimal_loop-append (suc (suc n)) (suc n) [] r))

digits_are_int_bytes : (xs : List ℕ) → all is_digit xs ≡ true → all is_int_byte xs ≡ true
digits_are_int_bytes [] h = refl
digits_are_int_bytes (x ∷ xs) h = ground (arith, digits_are_int_bytes xs)

pub int_text_bytes : (n : ℤ) → all is_int_byte (int_text n) ≡ true
unfolding int_text emit_int
int_text_bytes (pos n) =
    digits_are_int_bytes (decimal_loop (suc n) n []) (decimal_loop_digits (suc n) n [] refl)
int_text_bytes (negsuc n) =
    digits_are_int_bytes (decimal_loop (suc (suc n)) (suc n) [])
      (decimal_loop_digits (suc (suc n)) (suc n) [] refl)

decimal-injective : (m n : ℕ) → decimal_loop (suc m) m [] ≡ decimal_loop (suc n) n [] → m ≡ n
unfolding read
decimal-injective m n h =
    sym (read-decimal_loop (suc m) m [] (omega arith))
    ∙ ap (read 0) h
    ∙ read-decimal_loop (suc n) n [] (omega arith)

digits_have_no_minus : (xs ys : List ℕ) → all is_digit xs ≡ true → ¬ (xs ≡ b'-' ∷ ys)
digits_have_no_minus [] ys h e = cc
digits_have_no_minus (x ∷ xs) ys h e = let k = (cons-injective e).0 in ground arith

pub int_text-injective : (m n : ℤ) → int_text m ≡ int_text n → m ≡ n
unfolding int_text emit_int
int_text-injective (pos m) (pos n) h = ap pos (decimal-injective m n h)
int_text-injective (pos m) (negsuc n) h =
    absurd (digits_have_no_minus _ _ (decimal_loop_digits (suc m) m [] refl) h)
int_text-injective (negsuc m) (pos n) h =
    absurd (digits_have_no_minus _ _ (decimal_loop_digits (suc n) n [] refl) (sym h))
int_text-injective (negsuc m) (negsuc n) h =
    ground (arith, decimal-injective (suc m) (suc n) (cons-injective h).1)

-- A run of number bytes ends where a byte of another kind follows.
pub span-injective :
    (t u r s : List ℕ)
    → all is_number_byte t ≡ true
    → all is_number_byte u ≡ true
    → Follows r
    → Follows s
    → t ++ r ≡ u ++ s
    → (t ≡ u) × (r ≡ s)
span-injective [] [] r s ht hu fr fs h = (refl, h)
span-injective [] (y ∷ u) [] s ht hu fr fs h = absurd (cc)
span-injective [] (y ∷ u) (c ∷ r) s ht hu fr fs h =
    let k = (cons-injective h).0 in absurd (ground arith)
span-injective (x ∷ t) [] r [] ht hu fr fs h = absurd (cc)
span-injective (x ∷ t) [] r (c ∷ s) ht hu fr fs h =
    let k = (cons-injective h).0 in absurd (ground arith)
span-injective (x ∷ t) (y ∷ u) r s ht hu fr fs h =
    let k = cons-injective h in
    let rest = span-injective t u r s (ground arith) (ground arith) fr fs k.1 in
    ((λ i. k.0 i ∷ rest.0 i), rest.1)

pub int_bytes_are_number_bytes :
    (xs : List ℕ) → all is_int_byte xs ≡ true → all is_number_byte xs ≡ true
int_bytes_are_number_bytes [] h = refl
int_bytes_are_number_bytes (x ∷ xs) h = ground (arith, int_bytes_are_number_bytes xs)
