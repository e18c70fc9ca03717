-- ===== src/Manifest/Floats.antt =====
-- The floats that `_check_no_floats` in validators/manifest.py finds.
use specora_verify.Base.{
  ◌≡◌, refl, ◌↔◌, ℕ, suc, String, true, false, List, ◌∷◌, is_nil, is_nil-append, and_false,
}
use specora_verify.Json.{
  Value, null, bool, int, float, str, arr, obj, Items, nil, cons, Fields, end, field,
}
use specora_verify.Manifest.Fields.{
  Step, key, index, check_no_floats, floats_in, floats_among, floats_at,
}

-- A float is reached through dicts, and through lists whose elements are floats or dicts.
mutual
  pub data FloatIn (r : String) : Fields → Type 0 where
    value : {k : String} {fs : Fields} → FloatIn r (field k (float r) fs)
    in_dict : {k : String} {gs fs : Fields} → FloatIn r gs → FloatIn r (field k (obj gs) fs)
    in_list :
        {k : String} {vs : Items} {fs : Fields} → FloatAmong r vs → FloatIn r (field k (arr vs) fs)
    later : {k : String} {v : Value} {fs : Fields} → FloatIn r fs → FloatIn r (field k v fs)

  pub data FloatAmong (r : String) : Items → Type 0 where
    element : {vs : Items} → FloatAmong r (cons (float r) vs)
    in_element : {gs : Fields} {vs : Items} → FloatIn r gs → FloatAmong r (cons (obj gs) vs)
    further : {v : Value} {vs : Items} → FloatAmong r vs → FloatAmong r (cons v vs)

mutual
  unfolding check_no_floats

  found_in :
      (path : List Step) {r : String} {fs : Fields}
      → FloatIn r fs
      → is_nil (check_no_floats path fs) ≡ false
  found_in path (value {k} {fs}) = refl
  found_in path (in_dict {k} {gs} {fs} m) = rw (
    is_nil-append (check_no_floats (key k ∷ path) gs) (check_no_floats path fs),
    found_in (key k ∷ path) m,
  )
  found_in path (in_list {k} {vs} {fs} m) = rw (
    is_nil-append (floats_among (key k ∷ path) 0 vs) (check_no_floats path fs),
    found_among (key k ∷ path) 0 m,
  )
  found_in path (later {k} {v} {fs} m) =
      rw (is_nil-append (floats_in (key k ∷ path) v) (check_no_floats path fs), found_in path m)
        (and_false (is_nil (floats_in (key k ∷ path) v)))

  found_among :
      (path : List Step) (i : ℕ) {r : String} {vs : Items}
      → FloatAmong r vs
      → is_nil (floats_among path i vs) ≡ false
  found_among path i (element {vs}) = refl
  found_among path i (in_element {gs} {vs} m) = rw (
    is_nil-append (check_no_floats (index i ∷ path) gs) (floats_among path (suc i) vs),
    found_in (index i ∷ path) m,
  )
  found_among path i (further {v} {vs} m) =
      rw
        (
          is_nil-append (floats_at (index i ∷ path) v) (floats_among path (suc i) vs),
          found_among path (suc i) m,
        )
        (and_false (is_nil (floats_at (index i ∷ path) v)))

mutual
  unfolding check_no_floats

  none_in :
      (path : List Step) (fs : Fields)
      → ((r : String) → ¬ FloatIn r fs)
      → is_nil (check_no_floats path fs) ≡ true
  none_in path end free = refl
  none_in path (field k v fs) free = rw (
    is_nil-append (floats_in (key k ∷ path) v) (check_no_floats path fs),
    none_at (key k ∷ path) k v fs free,
    none_in path fs (λ r m. free r (later m)),
  )

  none_at :
      (path : List Step) (k : String) (v : Value) (fs : Fields)
      → ((r : String) → ¬ FloatIn r (field k v fs))
      → is_nil (floats_in path v) ≡ true
  none_at path k (float r) fs free = absurd (free r value)
  none_at path k (obj gs) fs free = none_in path gs (λ r m. free r (in_dict m))
  none_at path k (arr vs) fs free = none_among path 0 vs (λ r m. free r (in_list m))
  none_at path k null fs free = refl
  none_at path k (bool b) fs free = refl
  none_at path k (int n) fs free = refl
  none_at path k (str s) fs free = refl

  none_among :
      (path : List Step) (i : ℕ) (vs : Items)
      → ((r : String) → ¬ FloatAmong r vs)
      → is_nil (floats_among path i vs) ≡ true
  none_among path i nil free = refl
  none_among path i (cons v vs) free = rw (
    is_nil-append (floats_at (index i ∷ path) v) (floats_among path (suc i) vs),
    none_element (index i ∷ path) v vs free,
    none_among path (suc i) vs (λ r m. free r (further m)),
  )

  none_element :
      (path : List Step) (v : Value) (vs : Items)
      → ((r : String) → ¬ FloatAmong r (cons v vs))
      → is_nil (floats_at path v) ≡ true
  none_element path (float r) vs free = absurd (free r element)
  none_element path (obj gs) vs free = none_in path gs (λ r m. free r (in_element m))
  none_element path (arr ws) vs free = refl
  none_element path null vs free = refl
  none_element path (bool b) vs free = refl
  none_element path (int n) vs free = refl
  none_element path (str s) vs free = refl

-- No float is reached, exactly if none is found.
pub check_no_floats_iff :
    (path : List Step) (fs : Fields)
    → (is_nil (check_no_floats path fs) ≡ true) ↔ (¬ ((r : String) × FloatIn r fs))
check_no_floats_iff path fs =
    (λ h (r, m). cc (h, found_in path m), λ free. none_in path fs (λ r m. free (r, m)))
