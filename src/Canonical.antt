-- ===== src/Canonical.antt =====
-- canonical.py: `json.dumps` with sorted keys, compact separators, ASCII output and no NaN. The
-- bytes are written in front of those that follow, `emit v rest`.
pub mod Escape
pub mod Number
pub mod Shape
pub mod Injective
pub mod Document
pub mod Order
mod Tests
use specora_verify.Base.{
  ◌≡◌, refl, ℕ, zero, suc, ◌+◌, ◌-◌, ◌/◌, ◌%◌, ◌==◌, ltb, leb, ℤ, pos, negsuc, Char, code, String,
  codes, str_eq, str_le, Bool, true, false, ◌&&◌, ◌||◌, not, Option, none, some, if◌then◌else◌,
  List, [], ◌∷◌, ◌++◌,
}
use specora_verify.Json.{
  Value, null, bool, int, float, str, arr, obj, Items, nil, cons, Fields, end, field,
}

hex_digit : ℕ → ℕ
hex_digit d = if ltb d 10 then d + 48 else d + 87

-- `\uXXXX` for one UTF-16 unit, in front of `rest`
escape_unit : ℕ → List ℕ → List ℕ
unfolding hex_digit
escape_unit n rest =
    b'\\'
    ∷ b'u'
    ∷ hex_digit (n / 4096 % 16)
    ∷ hex_digit (n / 256 % 16)
    ∷ hex_digit (n / 16 % 16)
    ∷ hex_digit (n % 16)
    ∷ rest

-- the letter of a two-character escape
short_escape : ℕ → Option ℕ
short_escape c =
    if c == 34
    then some 34
    else if c == 92
    then some 92
    else if c == 10
    then some b'n'
    else if c == 13
    then some b'r'
    else if c == 9
    then some b't'
    else if c == 8
    then some b'b'
    else if c == 12
    then some b'f'
    else none

-- a character other than these; those above U+FFFF become a surrogate pair
escape_other : ℕ → List ℕ → List ℕ
unfolding escape_unit
escape_other c rest =
    if leb 32 c && leb c 126
    then c ∷ rest
    else if ltb c 65536
    then escape_unit c rest
    else escape_unit (55296 + (c - 65536) / 1024) (escape_unit (56320 + (c - 65536) % 1024) rest)

escape_char : ℕ → List ℕ → List ℕ
unfolding short_escape escape_other
escape_char c rest = elim (short_escape c) [
  | some e ↦ b'\\' ∷ e ∷ rest
  | none ↦ escape_other c rest
]

-- the characters of a text and the closing quote
pub emit_chars : String → List ℕ → List ℕ
unfolding escape_char
emit_chars String.[] rest = 34 ∷ rest
emit_chars (String.◌∷◌ c s) rest = escape_char (code c) (emit_chars s rest)

-- decimal digits, the last one first; the fuel bounds their number
decimal_loop : ℕ → ℕ → List ℕ → List ℕ
decimal_loop zero n rest = rest
decimal_loop (suc f) n rest =
    let more = decimal_loop f (n / 10) ((n % 10 + 48) ∷ rest) in
    if ltb n 10 then (n + 48) ∷ rest else more

pub emit_int : ℤ → List ℕ → List ℕ
unfolding decimal_loop
emit_int (pos n) rest = decimal_loop (suc n) n rest
emit_int (negsuc n) rest = b'-' ∷ decimal_loop (suc (suc n)) (suc n) rest

unfoldable mutual
  unfolding emit_chars emit_int

  pub emit : Value → List ℕ → List ℕ
  emit null rest = codes "null" ++ rest
  emit (bool true) rest = codes "true" ++ rest
  emit (bool false) rest = codes "false" ++ rest
  emit (int n) rest = emit_int n rest
  emit (float r) rest = codes r ++ rest
  emit (str s) rest = 34 ∷ emit_chars s rest
  emit (arr xs) rest = b'[' ∷ emit_items xs rest
  emit (obj fs) rest = b'{' ∷ emit_fields fs rest

  pub emit_items : Items → List ℕ → List ℕ
  emit_items nil rest = b']' ∷ rest
  emit_items (cons v vs) rest = emit v (emit_more_items vs rest)

  pub emit_more_items : Items → List ℕ → List ℕ
  emit_more_items nil rest = b']' ∷ rest
  emit_more_items (cons v vs) rest = b',' ∷ emit v (emit_more_items vs rest)

  pub emit_fields : Fields → List ℕ → List ℕ
  emit_fields end rest = b'}' ∷ rest
  emit_fields (field k v fs) rest = 34 ∷ emit_chars k (b':' ∷ emit v (emit_more_fields fs rest))

  pub emit_more_fields : Fields → List ℕ → List ℕ
  emit_more_fields end rest = b'}' ∷ rest
  emit_more_fields (field k v fs) rest =
      b',' ∷ 34 ∷ emit_chars k (b':' ∷ emit v (emit_more_fields fs rest))

-- `sorted(d.items())`, keys being distinct
unfoldable pub insert_field : String → Value → Fields → Fields
unfolding str_le
insert_field k v end = field k v end
insert_field k v (field j w fs) =
    if str_le k j then field k v (field j w fs) else field j w (insert_field k v fs)

-- the document with the keys of every object in order
unfoldable mutual
  unfolding insert_field

  pub sort_keys : Value → Value
  sort_keys (arr xs) = arr (sort_keys_items xs)
  sort_keys (obj fs) = obj (sort_keys_fields fs)
  sort_keys null = null
  sort_keys (bool b) = bool b
  sort_keys (int n) = int n
  sort_keys (float r) = float r
  sort_keys (str s) = str s

  pub sort_keys_items : Items → Items
  sort_keys_items nil = nil
  sort_keys_items (cons v vs) = cons (sort_keys v) (sort_keys_items vs)

  pub sort_keys_fields : Fields → Fields
  sort_keys_fields end = end
  sort_keys_fields (field k v fs) = insert_field k (sort_keys v) (sort_keys_fields fs)

abbrev pub finite_float : String → Bool
finite_float r = not (str_eq r "nan" || str_eq r "inf" || str_eq r "-inf")

-- whether `allow_nan=False` lets the document pass
unfoldable mutual
  pub all_finite : Value → Bool
  all_finite null = true
  all_finite (bool b) = true
  all_finite (int n) = true
  all_finite (float r) = finite_float r
  all_finite (str s) = true
  all_finite (arr xs) = all_finite_items xs
  all_finite (obj fs) = all_finite_fields fs

  pub all_finite_items : Items → Bool
  all_finite_items nil = true
  all_finite_items (cons v vs) = all_finite v && all_finite_items vs

  pub all_finite_fields : Fields → Bool
  all_finite_fields end = true
  all_finite_fields (field k v fs) = all_finite v && all_finite_fields fs

-- `none` is the `ValueError` for a float that is not finite
unfoldable pub canonical_json_bytes : Value → Option (List ℕ)
canonical_json_bytes v = if all_finite v then some (emit (sort_keys v) []) else none
