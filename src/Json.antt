-- ===== src/Json.antt =====
-- JSON documents as Python holds them after `json.loads`: the values that canonical.py serialises
-- and the validators read. A float is known by its `repr`, as `json.dumps` prints it ("nan", "inf"
-- and "-inf" included). Texts are sequences of Unicode scalar values: a lone surrogate, which
-- Python's `str` may hold, is outside the model.
use specora_verify.Base.{
  ℤ, String, Bool, true, false, Option, none, some, if◌then◌else◌, str_eq, List, [], ◌∷◌,
}

mutual
  -- A dict in insertion order.
  pub data Fields : Type 0 where
    field : String → Value → Fields → Fields
    end : Fields

  pub data Value : Type 0 where
    obj : Fields → Value
    arr : Items → Value
    str : String → Value
    int : ℤ → Value
    float : String → Value
    bool : Bool → Value
    null : Value

  pub data Items : Type 0 where
    cons : Value → Items → Items
    nil : Items

-- `d.get(k)`, with `none` for a missing key.
abbrev pub get : String → Fields → Option Value
get k end = none
get k (field j v fs) = if str_eq j k then some v else get k fs

-- `k in d`
abbrev pub has_key : String → Fields → Bool
has_key k end = false
has_key k (field j v fs) = if str_eq j k then true else has_key k fs

-- `{k: v for k, v in d.items() if k != key}`
abbrev pub drop_key : String → Fields → Fields
drop_key key end = end
drop_key key (field k v fs) =
    let rest = drop_key key fs in if str_eq k key then rest else field k v rest

-- A list of strings or of values as a JSON array.
abbrev pub items_of : List Value → Items
items_of [] = nil
items_of (v ∷ vs) = cons v (items_of vs)

abbrev pub to_list : Items → List Value
to_list nil = []
to_list (cons v vs) = v ∷ to_list vs
