-- ===== src/Pattern.antt =====
-- The regular expressions of the validators (revocation.py, contracts/registry.py and
-- validators/*.py), each as a matcher for `PATTERN.match(s)`. Python's `$` also matches before a
-- newline that ends the text, and `\d` matches every Unicode decimal digit.
use specora_verify.Base.{
  ℕ, zero, suc, ◌==◌, leb, Char, code, String, Bool, true, false, ◌&&◌, ◌||◌, Option, none, some,
  if◌then◌else◌,
}
use specora_verify.Platform.{Platform}

infixl 5 ◌>>=◌
abbrev pub ◌>>=◌ : {A B : Type 0} → Option A → (A → Option B) → Option B
none >>= f = none
some a >>= f = f a

-- `[0-9a-f]`
abbrev pub is_hex : Char → Bool
is_hex c = (leb 48 (code c) && leb (code c) 57) || (leb 97 (code c) && leb (code c) 102)

-- The rest of the text behind `n` characters of a class.
abbrev pub run : (Char → Bool) → ℕ → String → Option String
run p zero s = some s
run p (suc n) String.[] = none
run p (suc n) (String.◌∷◌ c s) = let rest = run p n s in if p c then rest else none

-- One given character.
abbrev pub lit : ℕ → String → Option String
lit k String.[] = none
lit k (String.◌∷◌ c s) = if code c == k then some s else none

-- `$`
abbrev pub at_end : String → Bool
at_end String.[] = true
at_end (String.◌∷◌ c String.[]) = code c == 10
at_end (String.◌∷◌ c (String.◌∷◌ d s)) = false

abbrev pub matched : Option String → Bool
matched none = false
matched (some rest) = at_end rest

-- `^[0-9a-f]{64}$`
unfoldable pub hex64_pattern : String → Bool
hex64_pattern s = matched (run is_hex 64 s)

-- `^spk-[0-9a-f]{16}$`, and likewise for `wpk-` and `rpk-`: the first letter is the argument.
unfoldable pub key_id_pattern : ℕ → String → Bool
key_id_pattern letter s =
    matched (do a ← lit letter s; b ← lit b'p' a; c ← lit b'k' b; d ← lit b'-' c; run is_hex 16 d)

-- `^ws-[0-9a-f-]{36}$`
unfoldable pub statement_id_pattern : String → Bool
statement_id_pattern s = matched (do
  a ← lit b'w' s
  b ← lit b's' a
  c ← lit b'-' b
  run (λ c. is_hex c || (code c == b'-')) 36 c)

-- `^[0-9a-f]{8}-[0-9a-f]{4}-[0-9a-f]{4}-[0-9a-f]{4}-[0-9a-f]{12}$`
unfoldable pub uuid_pattern : String → Bool
uuid_pattern s = matched (do
  a ← run is_hex 8 s
  b ← lit b'-' a
  c ← run is_hex 4 b
  d ← lit b'-' c
  e ← run is_hex 4 d
  f ← lit b'-' e
  g ← run is_hex 4 f
  h ← lit b'-' g
  run is_hex 12 h)

-- `^\d{4}-\d{2}-\d{2}T\d{2}:\d{2}:\d{2}Z$`
unfoldable pub timestamp_pattern : Platform → String → Bool
timestamp_pattern P s = matched (do
  a ← run P.is_decimal 4 s
  b ← lit b'-' a
  c ← run P.is_decimal 2 b
  d ← lit b'-' c
  e ← run P.is_decimal 2 d
  f ← lit b'T' e
  g ← run P.is_decimal 2 f
  h ← lit b':' g
  i ← run P.is_decimal 2 h
  j ← lit b':' i
  k ← run P.is_decimal 2 j
  lit b'Z' k)

-- `not s.strip()` is false: some character is not white space.
abbrev pub has_text : Platform → String → Bool
has_text P String.[] = false
has_text P (String.◌∷◌ c s) = if P.is_space c then has_text P s else true
