-- ===== src/Chain/Report.antt =====
-- What the result of `verify_chain` reports: counts, errors and the entries' own verdicts.
use specora_verify.Base.{
  ◌≡◌, refl, ℕ, suc, ◌≤◌, pos, String, Bool, true, false, ◌&&◌, Option, none, List, [], ◌∷◌, ◌++◌,
  is_nil, length, arith, eq_refl, ap, ◌∙◌,
}
use specora_verify.Errors.{ok}
use specora_verify.Platform.{Platform}
use specora_verify.Canonical.{canonical_json_bytes, all_finite}
use specora_verify.Chain.Schema.{schema_entry_at}
use specora_verify.Chain.Entry.{
  Entry, ChainResult, ChainError, EntryVerification, genesis_previous_hash, hash_errors,
  check_entry_signature, signing_key,
}
use specora_verify.Chain.Verify.{
  check_entry, walk, sort_entries, verify_chain, count_valid, collect_errors, insert_entry,
}
use specora_verify.Chain.Log.{Body, IsAcceptable, entry_at, body_hash}
use specora_verify.Chain.Accept.{check_entry_total}
use specora_verify.Chain.Sound.{walk_total}

is_nil-append : (xs ys : List ChainError) → is_nil (xs ++ ys) ≡ (is_nil xs && is_nil ys)
is_nil-append [] ys = refl
is_nil-append (x ∷ xs) ys = refl

length-insert_entry : (e : Entry) (es : List Entry) → length (insert_entry e es) ≡ suc (length es)
unfolding insert_entry
length-insert_entry e [] = refl
length-insert_entry e (f ∷ fs) = ground (arith, length-insert_entry e fs)

length-sort_entries : (es : List Entry) → length (sort_entries es) ≡ length es
unfolding sort_entries
length-sort_entries [] = refl
length-sort_entries (e ∷ es) =
    length-insert_entry e (sort_entries es) ∙ ap suc (length-sort_entries es)

module _ (P : Platform) (key : Option String) where
  check_entry-report :
      (i : ℕ) (ph : Option String) (e : Entry) (o : Bool × EntryVerification)
      → check_entry P key i ph e ≡ ok o
      → (is_nil o.1.errors ≡ o.0) × (o.0 ≡ true → o.1.valid ≡ true)
  unfolding check_entry
  check_entry-report i ph e o h = ground arith

  walk-report :
      (i : ℕ) (ph : Option String) (es : List Entry) (o : Bool × List EntryVerification)
      → walk P key i ph es ≡ ok o
      → (is_nil (collect_errors o.1) ≡ o.0)
        × (count_valid o.1 ≤ length es)
        × (o.0 ≡ true → count_valid o.1 ≡ length es)
  unfolding walk
  walk-report i ph [] o h = ground arith
  walk-report i ph (e ∷ es) o h =
      let (p, first) = check_entry_total P key i ph e in
      let (q, rest) = walk_total P key (suc i) e.entry_hash es in
      ground (
        arith,
        first,
        rest,
        check_entry-report i ph e p first,
        walk-report (suc i) e.entry_hash es q rest,
        is_nil-append p.1.errors (collect_errors q.1),
      )

-- For a chain that is not empty: it is valid exactly if no error is listed, at most as many entries
-- are counted as verified as there are, and all of them if the chain is valid.
pub verify_chain-report :
    (P : Platform) (e : Entry) (es : List Entry) (public_key : Option String)
    (verify_signatures : Bool) {r : ChainResult}
    → verify_chain P (e ∷ es) public_key verify_signatures ≡ ok r
    → (is_nil r.errors ≡ r.valid)
      × (r.total_entries ≡ length (e ∷ es))
      × (r.verified_count ≤ r.total_entries)
      × (r.valid ≡ true → r.verified_count ≡ r.total_entries)
unfolding verify_chain
verify_chain-report P e es public_key verify_signatures h =
    let key = signing_key verify_signatures public_key in
    let sorted = sort_entries (e ∷ es) in
    let (o, walked) = walk_total P key 0 none sorted in
    ground (arith, walked, walk-report P key 0 none sorted o walked, length-sort_entries (e ∷ es))

-- An entry that an honest writer made for a later position, given alone without a key: the chain is
-- not valid, and yet its one entry is reported valid and counted as verified.
pub verify_chain-counts_gap :
    (P : Platform) (i : ℕ) (b : Body) {r : ChainResult}
    → IsAcceptable P none (body_hash P (suc i) genesis_previous_hash b) b
    → verify_chain P (entry_at P (suc i) genesis_previous_hash b ∷ []) none true ≡ ok r
    → (r.valid ≡ false) × (r.verified_count ≡ r.total_entries)
unfolding verify_chain walk sort_entries check_entry hash_errors canonical_json_bytes all_finite
    check_entry_signature
verify_chain-counts_gap P i b a h =
    let e = entry_at P (suc i) genesis_previous_hash b in
    ground (
      arith,
      schema_entry_at P none (suc i) genesis_previous_hash b (pos (suc i)) refl a,
      eq_refl genesis_previous_hash,
      eq_refl (body_hash P (suc i) genesis_previous_hash b),
    )
