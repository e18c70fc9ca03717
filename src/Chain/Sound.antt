-- ===== src/Chain/Sound.antt =====
-- `verify_chain` never raises, and says valid exactly of a log in the sense of Chain/Log.
use specora_verify.Base.{
  ◌≡◌, refl, sym, ap, ap₂, ◌∙◌, ◌↔◌, ℕ, suc, String, str_len, Bool, true, ◌&&◌, Option, none, some,
  List, [], ◌∷◌, arith, &&-eq-true,
}
use specora_verify.Errors.{ok}
use specora_verify.Platform.{Platform}
use specora_verify.Chain.Entry.{
  Entry, ChainResult, EntryVerification, genesis_previous_hash, signing_key,
}
use specora_verify.Chain.Verify.{walk, sort_entries, verify_chain, chain_result, empty_result}
use specora_verify.Chain.Log.{Body, AllAcceptable, IsLog, entry_at, body_hash, build}
use specora_verify.Chain.Accept.{
  Carries, check_entry_sound, check_entry_complete, check_entry_total,
}

module _ (P : Platform) (key : Option String) where
  pub walk_total :
      (i : ℕ) (ph : Option String) (es : List Entry)
      → (o : Bool × List EntryVerification) × (walk P key i ph es ≡ ok o)
  unfolding walk
  walk_total i ph [] = (_, refl)
  walk_total i ph (e ∷ es) =
      let (o, first) = check_entry_total P key i ph e in
      let (os, rest) = walk_total (suc i) e.entry_hash es in
      ((o.0 && os.0, o.1 ∷ os.1), ground (arith, first, rest))

  -- A walk is kept valid if its first round is and the others are.
  walk_kept :
      (i : ℕ) (ph : Option String) (e : Entry) (es : List Entry) (o : Bool × List EntryVerification)
      → walk P key i ph (e ∷ es) ≡ ok o
      → o.0 ≡ ((check_entry_total P key i ph e).0.0 && (walk_total (suc i) e.entry_hash es).0.0)
  unfolding walk
  walk_kept i ph e es o h =
      let (p, first) = check_entry_total P key i ph e in
      let (q, rest) = walk_total (suc i) e.entry_hash es in ground (arith, first, rest)

  -- What the walk keeps valid was appended entry by entry.
  walk_sound :
      (i : ℕ) (ph : Option String) (prev : String) (es : List Entry) {rs : List EntryVerification}
      → Carries i ph prev
      → walk P key i ph es ≡ ok (true, rs)
      → (bs : List Body) × (es ≡ build P i prev bs) × AllAcceptable P key i prev bs
  unfolding walk
  walk_sound i ph prev [] c h = ([], refl, tt)
  walk_sound i ph prev (e ∷ es) {rs} c h =
      let (o, first) = check_entry_total P key i ph e in
      let (os, rest) = walk_total (suc i) e.entry_hash es in
      let kept = &&-eq-true o.0 os.0 (sym (walk_kept i ph e es (true, rs) h)) in
      let (b, same, fine) =
        check_entry_sound P key i ph prev e c (first ∙ ap (λ x. ok (x, o.1)) kept.0) in
      let carried : Carries (suc i) e.entry_hash (body_hash P i prev b) =
        (ap (λ (x : Entry). x.entry_hash) same, fine.full_hash) in
      let (bs, all_same, all_fine) =
        walk_sound (suc i) e.entry_hash (body_hash P i prev b) es carried
          (rest ∙ ap (λ x. ok (x, os.1)) kept.1) in
      (b ∷ bs, (λ j. same j ∷ all_same j), (fine, all_fine))

  walk_complete :
      (i : ℕ) (ph : Option String) (prev : String) (bs : List Body)
      (o : Bool × List EntryVerification)
      → Carries i ph prev
      → str_len prev ≡ 64
      → AllAcceptable P key i prev bs
      → walk P key i ph (build P i prev bs) ≡ ok o
      → o.0 ≡ true
  unfolding walk
  walk_complete i ph prev [] o c l a h = ground arith
  walk_complete i ph prev (b ∷ bs) o c l (fine, all_fine) h =
      let e = entry_at P i prev b in
      let hash = body_hash P i prev b in
      let (p, first) = check_entry_total P key i ph e in
      let (q, rest) = walk_total (suc i) (some hash) (build P (suc i) hash bs) in
      walk_kept i ph e (build P (suc i) hash bs) o h
      ∙ ap₂ ◌&&◌ (check_entry_complete P key i ph prev b p c l fine first) (
          walk_complete (suc i) (some hash) hash bs q (refl, fine.full_hash) fine.full_hash all_fine
            rest)

-- Whatever the entries, the check returns a result: no entry makes it raise.
pub verify_chain_total :
    (P : Platform) (es : List Entry) (public_key : Option String) (verify_signatures : Bool)
    → (r : ChainResult) × (verify_chain P es public_key verify_signatures ≡ ok r)
unfolding verify_chain
verify_chain_total P [] public_key verify_signatures = (empty_result, refl)
verify_chain_total P (e ∷ es) public_key verify_signatures =
    let sorted = sort_entries (e ∷ es) in
    let (o, h) = walk_total P (signing_key verify_signatures public_key) 0 none sorted in
    (chain_result sorted o, rw h)

pub sort_entries-nil : sort_entries [] ≡ []
unfolding sort_entries
sort_entries-nil = refl

-- The result is valid exactly if the entries, sorted by index, are what an honest writer appends
-- from the genesis entry on: positions without a gap, each entry with the hash of its payload and
-- linked to the one before, known types, full hashes, and signatures that pass where a key is given.
pub verify_chain-valid_iff :
    (P : Platform) (es : List Entry) (public_key : Option String) (verify_signatures : Bool)
    {r : ChainResult}
    → verify_chain P es public_key verify_signatures ≡ ok r
    → (r.valid ≡ true) ↔ IsLog P (signing_key verify_signatures public_key) (sort_entries es)
unfolding verify_chain
verify_chain-valid_iff P [] public_key verify_signatures {r} h =
    (λ v. ([], sort_entries-nil, tt), λ _. ground arith)
verify_chain-valid_iff P (e ∷ es) public_key verify_signatures {r} h =
    let key = signing_key verify_signatures public_key in
    let sorted = sort_entries (e ∷ es) in
    let (o, walked) = walk_total P key 0 none sorted in
    let valid : r.valid ≡ o.0 = ground arith in
    (
      λ v.
          walk_sound P key 0 none genesis_previous_hash sorted refl
            (walked ∙ ap (λ x. ok (x, o.1)) (sym valid ∙ v)),
      λ (bs, same, fine).
          valid
          ∙ walk_complete P key 0 none genesis_previous_hash bs o refl refl fine
              (ap (walk P key 0 none) (sym same) ∙ walked),
    )
