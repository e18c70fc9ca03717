-- ===== src/Canonical/Injective.antt =====
-- `emit` can be read back in one way only, whatever follows.
use specora_verify.Base.{
  ◌≡◌, refl, sym, ap, ◌∙◌, ℕ, ℤ, String, codes, true, false, List, ◌++◌, all, arith,
}
use specora_verify.Json.{
  Value, null, bool, int, float, str, arr, obj, Items, nil, cons, Fields, end, field,
}
use specora_verify.Canonical.{
  emit_int, emit, emit_items, emit_more_items, emit_fields, emit_more_fields,
}
use specora_verify.Canonical.Escape.{cons-injective, emit_chars-injective}
use specora_verify.Canonical.Number.{
  is_int_byte, is_number_byte, Follows, int_text, emit_int-eq, int_text_bytes, int_text-injective,
  span-injective, int_bytes_are_number_bytes,
}
use specora_verify.Canonical.Shape.{
  IsFloatText, WellFormed, WellFormedItems, WellFormedFields, kind_of, kind_of-emit,
  codes-injective, items_follow, fields_follow, not_closing,
}

number_bytes : (n : ℤ) → all is_number_byte (int_text n) ≡ true
number_bytes n = int_bytes_are_number_bytes (int_text n) (int_text_bytes n)

int-injective :
    (m n : ℤ) {r s : List ℕ}
    → Follows r
    → Follows s
    → emit_int m r ≡ emit_int n s
    → (m ≡ n) × (r ≡ s)
int-injective m n {r} {s} fr fs h =
    let k =
      span-injective (int_text m) (int_text n) r s (number_bytes m) (number_bytes n) fr fs
        (sym (emit_int-eq m r) ∙ h ∙ emit_int-eq n s) in
    (int_text-injective m n k.0, k.1)

int_is_not_float :
    (n : ℤ) (t : String) (r s : List ℕ)
    → IsFloatText t
    → Follows r
    → Follows s
    → ¬ (emit_int n r ≡ codes t ++ s)
int_is_not_float n t r s w fr fs h =
    let k =
      span-injective (int_text n) (codes t) r s (number_bytes n) w.0 fr fs
        (sym (emit_int-eq n r) ∙ h) in
    cc (int_text_bytes n, ap (all is_int_byte) k.0, w.1)

mutual
  unfolding emit

  pub inject :
      (v w : Value) (r s : List ℕ)
      → WellFormed v
      → WellFormed w
      → Follows r
      → Follows s
      → emit v r ≡ emit w s
      → (v ≡ w) × (r ≡ s)
  inject null null r s wv ww fr fs h =
      (refl, (cons-injective (cons-injective (cons-injective (cons-injective h).1).1).1).1)
  inject (bool true) (bool true) r s wv ww fr fs h =
      (refl, (cons-injective (cons-injective (cons-injective (cons-injective h).1).1).1).1)
  inject (bool false) (bool false) r s wv ww fr fs h = (
    refl,
    (cons-injective
        (cons-injective (cons-injective (cons-injective (cons-injective h).1).1).1).1).1,
  )
  inject (int m) (int n) r s wv ww fr fs h = let k = int-injective m n fr fs h in (ap int k.0, k.1)
  inject (int m) (float t) r s wv ww fr fs h = absurd (int_is_not_float m t r s ww fr fs h)
  inject (float t) (int n) r s wv ww fr fs h = absurd (int_is_not_float n t s r wv fs fr (sym h))
  inject (float t) (float u) r s wv ww fr fs h =
      let k = span-injective (codes t) (codes u) r s wv.0 ww.0 fr fs h in
      (ap float (codes-injective t u k.0), k.1)
  inject (str t) (str u) r s wv ww fr fs h =
      let k = emit_chars-injective t u (cons-injective h).1 in (ap str k.0, k.1)
  inject (arr xs) (arr ys) r s wv ww fr fs h =
      let k = inject_items xs ys r s wv ww (cons-injective h).1 in (ap arr k.0, k.1)
  inject (obj xs) (obj ys) r s wv ww fr fs h =
      let k = inject_fields xs ys r s wv ww (cons-injective h).1 in (ap obj k.0, k.1)
  inject v w r s wv ww fr fs h =
      absurd (ground (arith, sym (kind_of-emit v r wv) ∙ ap kind_of h ∙ kind_of-emit w s ww))

  inject_items :
      (xs ys : Items) (r s : List ℕ)
      → WellFormedItems xs
      → WellFormedItems ys
      → emit_items xs r ≡ emit_items ys s
      → (xs ≡ ys) × (r ≡ s)
  inject_items nil nil r s wx wy h = (refl, (cons-injective h).1)
  inject_items nil (cons w ws) r s wx wy h =
      absurd (not_closing w (emit_more_items ws s) wy.0 (sym (ap kind_of h)))
  inject_items (cons v vs) nil r s wx wy h =
      absurd (not_closing v (emit_more_items vs r) wx.0 (ap kind_of h))
  inject_items (cons v vs) (cons w ws) r s wx wy h =
      let k =
        inject v w (emit_more_items vs r) (emit_more_items ws s) wx.0 wy.0 (items_follow vs r)
          (items_follow ws s) h in
      let l = inject_more_items vs ws r s wx.1 wy.1 k.1 in ((λ i. cons (k.0 i) (l.0 i)), l.1)

  inject_more_items :
      (xs ys : Items) (r s : List ℕ)
      → WellFormedItems xs
      → WellFormedItems ys
      → emit_more_items xs r ≡ emit_more_items ys s
      → (xs ≡ ys) × (r ≡ s)
  inject_more_items nil nil r s wx wy h = (refl, (cons-injective h).1)
  inject_more_items nil (cons w ws) r s wx wy h = absurd (omega (arith, (cons-injective h).0))
  inject_more_items (cons v vs) nil r s wx wy h = absurd (omega (arith, (cons-injective h).0))
  inject_more_items (cons v vs) (cons w ws) r s wx wy h =
      let k =
        inject v w (emit_more_items vs r) (emit_more_items ws s) wx.0 wy.0 (items_follow vs r)
          (items_follow ws s) (cons-injective h).1 in
      let l = inject_more_items vs ws r s wx.1 wy.1 k.1 in ((λ i. cons (k.0 i) (l.0 i)), l.1)

  inject_fields :
      (xs ys : Fields) (r s : List ℕ)
      → WellFormedFields xs
      → WellFormedFields ys
      → emit_fields xs r ≡ emit_fields ys s
      → (xs ≡ ys) × (r ≡ s)
  inject_fields end end r s wx wy h = (refl, (cons-injective h).1)
  inject_fields end (field k w ws) r s wx wy h = absurd (omega (arith, (cons-injective h).0))
  inject_fields (field k v vs) end r s wx wy h = absurd (omega (arith, (cons-injective h).0))
  inject_fields (field j v vs) (field k w ws) r s wx wy h =
      let a = emit_chars-injective j k (cons-injective h).1 in
      let b =
        inject v w (emit_more_fields vs r) (emit_more_fields ws s) wx.0 wy.0 (fields_follow vs r)
          (fields_follow ws s) (cons-injective a.1).1 in
      let c = inject_more_fields vs ws r s wx.1 wy.1 b.1 in
      ((λ i. field (a.0 i) (b.0 i) (c.0 i)), c.1)

  inject_more_fields :
      (xs ys : Fields) (r s : List ℕ)
      → WellFormedFields xs
      → WellFormedFields ys
      → emit_more_fields xs r ≡ emit_more_fields ys s
      → (xs ≡ ys) × (r ≡ s)
  inject_more_fields end end r s wx wy h = (refl, (cons-injective h).1)
  inject_more_fields end (field k w ws) r s wx wy h = absurd (omega (arith, (cons-injective h).0))
  inject_more_fields (field k v vs) end r s wx wy h = absurd (omega (arith, (cons-injective h).0))
  inject_more_fields (field j v vs) (field k w ws) r s wx wy h =
      let a = emit_chars-injective j k (cons-injective (cons-injective h).1).1 in
      let b =
        inject v w (emit_more_fields vs r) (emit_more_fields ws s) wx.0 wy.0 (fields_follow vs r)
          (fields_follow ws s) (cons-injective a.1).1 in
      let c = inject_more_fields vs ws r s wx.1 wy.1 b.1 in
      ((λ i. field (a.0 i) (b.0 i) (c.0 i)), c.1)
