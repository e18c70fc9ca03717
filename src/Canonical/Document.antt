-- ===== src/Canonical/Document.antt =====
-- Canonical bytes determine the document, up to the order of the keys in its objects.
use specora_verify.Base.{
  ◌≡◌, ℕ, String, true, some, List, [], arith, Bool-cases, inl, inr, &&-eq-true, str_le,
}
use specora_verify.Json.{
  Value, null, bool, int, float, str, arr, obj, Items, nil, cons, Fields, end, field,
}
use specora_verify.Canonical.{
  emit, insert_field, sort_keys, sort_keys_items, sort_keys_fields, finite_float, all_finite,
  all_finite_items, all_finite_fields, canonical_json_bytes,
}
use specora_verify.Canonical.Shape.{IsFloatText, WellFormed, WellFormedItems, WellFormedFields}
use specora_verify.Canonical.Injective.{inject}

-- Python's `repr` of a finite float has the form of `IsFloatText`; it holds of every document that
-- `json.loads` returns.
abbrev mutual
  pub IsPython : Value → Type 0
  IsPython null = Unit
  IsPython (bool b) = Unit
  IsPython (int n) = Unit
  IsPython (float r) = finite_float r ≡ true → IsFloatText r
  IsPython (str s) = Unit
  IsPython (arr xs) = IsPythonItems xs
  IsPython (obj fs) = IsPythonFields fs

  pub IsPythonItems : Items → Type 0
  IsPythonItems nil = Unit
  IsPythonItems (cons v vs) = IsPython v × IsPythonItems vs

  pub IsPythonFields : Fields → Type 0
  IsPythonFields end = Unit
  IsPythonFields (field k v fs) = IsPython v × IsPythonFields fs

insert_field-WellFormed :
    (k : String) (v : Value) (fs : Fields)
    → WellFormed v
    → WellFormedFields fs
    → WellFormedFields (insert_field k v fs)
unfolding insert_field
insert_field-WellFormed k v end wv wf = (wv, tt)
insert_field-WellFormed k v (field j w fs) wv wf = elim (Bool-cases (str_le k j)) [
  | inl p ↦ rw p (wv, wf)
  | inr p ↦ rw p (wf.0, insert_field-WellFormed k v fs wv wf.1)
]

mutual
  unfolding all_finite sort_keys

  sorted_WellFormed : (v : Value) → IsPython v → all_finite v ≡ true → WellFormed (sort_keys v)
  sorted_WellFormed null p h = tt
  sorted_WellFormed (bool b) p h = tt
  sorted_WellFormed (int n) p h = tt
  sorted_WellFormed (float r) p h = p h
  sorted_WellFormed (str s) p h = tt
  sorted_WellFormed (arr xs) p h = sorted_items xs p h
  sorted_WellFormed (obj fs) p h = sorted_fields fs p h

  sorted_items :
      (xs : Items)
      → IsPythonItems xs
      → all_finite_items xs ≡ true
      → WellFormedItems (sort_keys_items xs)
  sorted_items nil p h = tt
  sorted_items (cons v vs) p h =
      let k = &&-eq-true (all_finite v) (all_finite_items vs) h in
      (sorted_WellFormed v p.0 k.0, sorted_items vs p.1 k.1)

  sorted_fields :
      (fs : Fields)
      → IsPythonFields fs
      → all_finite_fields fs ≡ true
      → WellFormedFields (sort_keys_fields fs)
  sorted_fields end p h = tt
  sorted_fields (field j v fs) p h =
      let k = &&-eq-true (all_finite v) (all_finite_fields fs) h in
      insert_field-WellFormed j (sort_keys v) (sort_keys_fields fs) (sorted_WellFormed v p.0 k.0)
        (sorted_fields fs p.1 k.1)

-- If both documents have canonical bytes and these are equal, the documents are equal up to the
-- order of the keys in their objects.
pub canonical_json_bytes-injective :
    (v w : Value) (b : List ℕ)
    → IsPython v
    → IsPython w
    → canonical_json_bytes v ≡ some b
    → canonical_json_bytes w ≡ some b
    → sort_keys v ≡ sort_keys w
unfolding canonical_json_bytes
canonical_json_bytes-injective v w b pv pw hv hw =
    let fv : all_finite v ≡ true = ground arith in
    let fw : all_finite w ≡ true = ground arith in
    let e : emit (sort_keys v) [] ≡ emit (sort_keys w) [] = ground arith in
    (inject (sort_keys v) (sort_keys w) [] [] (sorted_WellFormed v pv fv)
      (sorted_WellFormed w pw fw) tt tt e).0
