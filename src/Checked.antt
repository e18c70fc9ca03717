-- ===== src/Checked.antt =====
-- Reading a field of a JSON object with its checks, as the parsers of revocation.py and
-- validators/witness.py do.
use specora_verify.Base.{
  ◌≡◌, ap, eq_iff, ℤ, pos, leb_ℤ, String, str_eq, str_mem, str_truthy, [], ◌∷◌, Bool, true, false,
  not, ◌&&◌, ◌||◌, Option, none, some, List, if◌then◌else◌,
}
use specora_verify.Errors.{Result, ok, err, verification, type_error, ◌>>=◌}
use specora_verify.Json.{
  Value, null, bool, int, float, str, arr, obj, Items, nil, cons, Fields, end, field, get, has_key,
}

-- `if key not in data: raise ...`, then `data[key]`
abbrev pub required : {E : Type 0} → String → Fields → E → Result E Value
required key fs e = elim (get key fs) [ none ↦ err (verification e) | some v ↦ ok v ]

-- `isinstance(v, str)` and a test
abbrev pub text_where : {E : Type 0} → (String → Bool) → Value → E → Result E String
text_where p (str s) e = if p s then ok s else err (verification e)
text_where p v e = err (verification e)

-- `isinstance(v, int) and v >= 1`, which holds of `True` as well; this is the number that it equals
abbrev pub positive_int : {E : Type 0} → Value → E → Result E ℤ
positive_int (int n) e = if leb_ℤ (pos 1) n then ok n else err (verification e)
positive_int (bool true) e = ok (pos 1)
positive_int v e = err (verification e)

-- `v in names` for a set of texts: a list or a dict has no hash.
abbrev pub member_of : {E : Type 0} → List String → Value → E → Result E String
member_of names (str s) e = if str_mem s names then ok s else err (verification e)
member_of names (arr vs) e = err type_error
member_of names (obj fs) e = err type_error
member_of names v e = err (verification e)

-- A field that may be absent or `None`, and is checked otherwise.
abbrev pub optional_text :
    {E : Type 0} → (String → Bool) → Option Value → (Value → E) → Result E (Option String)
optional_text p none e = ok none
optional_text p (some null) e = ok none
optional_text p (some v) e = do t ← text_where p v (e v); ok (some t)

-- `d.get(key)`, `null` where the key is missing
abbrev pub or_null : Option Value → Value
or_null none = null
or_null (some v) = v

abbrev pub items_in : {E : Type 0} → Value → E → Result E Items
items_in (arr vs) e = ok vs
items_in v e = err (verification e)

-- The array that a field holds; empty where there is none.
abbrev pub array_of : Option Value → Items
array_of (some (arr vs)) = vs
array_of v = nil

-- The required names that are no keys.
abbrev pub missing_from : Fields → List String → List String
missing_from fs [] = []
missing_from fs (k ∷ ks) = if has_key k fs then missing_from fs ks else k ∷ missing_from fs ks

-- `d.get(key)`, `null` where the key is missing
abbrev pub at : String → Fields → Value
at key fs = or_null (get key fs)

abbrev pub is_str : String → Value → Bool
is_str t (str s) = str_eq s t
is_str t v = false

-- The truth value of what `json.loads` returns.
abbrev pub truthy : Value → Bool
truthy null = false
truthy (bool b) = b
truthy (int n) = not (leb_ℤ n (pos 0) && leb_ℤ (pos 0) n)
truthy (float r) = not (str_eq r "0.0" || str_eq r "-0.0")
truthy (str s) = str_truthy s
truthy (arr nil) = false
truthy (arr (cons v vs)) = true
truthy (obj end) = false
truthy (obj (field k v fs)) = true

abbrev pub text_of : Value → Option String
text_of (str s) = some s
text_of v = none

pub is_str-eq : (t : String) (v : Value) → is_str t v ≡ true → v ≡ str t
is_str-eq t (str s) h = ap str ((eq_iff s t).0 h)
is_str-eq t v h = absurd (cc)
