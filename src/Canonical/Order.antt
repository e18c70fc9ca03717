-- ===== src/Canonical/Order.antt =====
-- What the sorting of keys does: the order in which a dict was filled leaves no trace in its
-- canonical bytes.
use specora_verify.Base.{
  ◌≡◌, ◌≢◌, refl, ap, ◌∙◌, String, ◌&&◌, arith, str_le_total, str_le_trans, str_le_antisymm,
}
use specora_verify.Json.{Value, obj, Fields, end, field}
use specora_verify.Canonical.{
  insert_field, sort_keys, sort_keys_fields, all_finite, all_finite_fields, canonical_json_bytes,
}

insert_field_comm :
    (j k : String) (v w : Value) (fs : Fields)
    → j ≢ k
    → insert_field j v (insert_field k w fs) ≡ insert_field k w (insert_field j v fs)
unfolding insert_field
insert_field_comm j k v w end ne =
    ground (arith, str_le_total j k, str_le_total k j, str_le_antisymm j k)
insert_field_comm j k v w (field i x fs) ne = ground (
  arith,
  insert_field_comm j k v w fs ne,
  str_le_total j k,
  str_le_total k j,
  str_le_antisymm j k,
  str_le_trans j k i,
  str_le_trans k j i,
  str_le_total i j,
  str_le_total i k,
)

-- The same items in another order: swaps of neighbours with distinct keys.
pub data Reordered : Fields → Fields → Type 0 where
  same : (fs : Fields) → Reordered fs fs
  keep :
      {fs gs : Fields} (k : String) (v : Value)
      → Reordered fs gs
      → Reordered (field k v fs) (field k v gs)
  swap :
      (j k : String) (v w : Value) (fs : Fields)
      → j ≢ k
      → Reordered (field j v (field k w fs)) (field k w (field j v fs))
  trans : {fs gs hs : Fields} → Reordered fs gs → Reordered gs hs → Reordered fs hs

sort_keys-Reordered : {fs gs : Fields} → Reordered fs gs → sort_keys_fields fs ≡ sort_keys_fields gs
unfolding sort_keys
sort_keys-Reordered (same fs) = refl
sort_keys-Reordered (keep k v r) = ap (insert_field k (sort_keys v)) (sort_keys-Reordered r)
sort_keys-Reordered (swap j k v w fs ne) =
    insert_field_comm j k (sort_keys v) (sort_keys w) (sort_keys_fields fs) ne
sort_keys-Reordered (trans r s) = sort_keys-Reordered r ∙ sort_keys-Reordered s

all_finite-Reordered :
    {fs gs : Fields} → Reordered fs gs → all_finite_fields fs ≡ all_finite_fields gs
unfolding all_finite
all_finite-Reordered (same fs) = refl
all_finite-Reordered (keep k v r) = ap (λ b. all_finite v && b) (all_finite-Reordered r)
all_finite-Reordered (swap j k v w fs ne) = ground arith
all_finite-Reordered (trans r s) = all_finite-Reordered r ∙ all_finite-Reordered s

-- Two objects with the same items, whatever the order in which their keys were inserted, have the
-- same canonical bytes, or both raise.
pub canonical_json_bytes-Reordered :
    {fs gs : Fields}
    → Reordered fs gs
    → canonical_json_bytes (obj fs) ≡ canonical_json_bytes (obj gs)
unfolding canonical_json_bytes all_finite sort_keys
canonical_json_bytes-Reordered r = rw (sort_keys-Reordered r, all_finite-Reordered r)
