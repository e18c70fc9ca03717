-- ===== src/Chain/Documented.antt =====
-- What `verify_chain` of validators/chain.py does with a log whose documented fields have their types.
use mathlib.Core.List.{Permᴰ}
use specora_verify.Base.{
  ◌≡◌, refl, sym, ap, subst, ◌∙◌, ◌↔◌, ℕ, suc, String, Bool, true, Option, List, [], ◌∷◌, map,
  arith,
}
use specora_verify.Errors.{ok}
use specora_verify.Platform.{Platform}
use specora_verify.Json.{Fields}
use specora_verify.Chain.Entry.{Entry, ChainResult, signing_key, genesis_previous_hash}
use specora_verify.Chain.Verify.{insert_entry, sort_entries, verify_chain}
use specora_verify.Chain.Dict.{Dynamic}
use specora_verify.Chain.Dicts.{verify_dicts}
use specora_verify.Chain.Documents.{AllShow, verify_dicts-eq}
use specora_verify.Chain.Log.{Body, AllAcceptable, IsLog, entry_at, body_hash, build}
use specora_verify.Chain.Order.{build-Distinct, sort_entries-eq, sort_entries-Permᴰ}
use specora_verify.Chain.Sound.{verify_chain_total, verify_chain-valid_iff}
use specora_verify.Chain.Content.{Distinguishes}
use specora_verify.Chain.Tamper.{unsigned, entry_bytes, last_hash-fixes_chain}

-- The entries are those of a log from the genesis entry on, in any order.
abbrev pub IsShuffledLog : Platform → Option String → List Entry → Type 0
IsShuffledLog P key es =
    (bs : List Body) × Permᴰ (build P 0 genesis_previous_hash bs) es
    × AllAcceptable P key 0 genesis_previous_hash bs

-- A log is in the order of its positions.
sort_entries-build :
    (P : Platform) (i : ℕ) (p : String) (bs : List Body)
    → sort_entries (build P i p bs) ≡ build P i p bs
unfolding sort_entries insert_entry
sort_entries-build P i p [] = refl
sort_entries-build P i p (b ∷ bs) =
    ap (insert_entry (entry_at P i p b)) (sort_entries-build P (suc i) (body_hash P i p b) bs)
    ∙ in_front bs
  where
    in_front :
        (cs : List Body)
        → insert_entry (entry_at P i p b) (build P (suc i) (body_hash P i p b) cs)
          ≡ entry_at P i p b ∷ build P (suc i) (body_hash P i p b) cs
    in_front [] = refl
    in_front (c ∷ cs) = ground arith

IsLog-IsShuffledLog :
    (P : Platform) (key : Option String) (es : List Entry)
    → IsLog P key (sort_entries es) ↔ IsShuffledLog P key es
IsLog-IsShuffledLog P key es = (
  λ (bs, same, fine). (bs, subst (λ fs. Permᴰ fs es) same (sort_entries-Permᴰ es), fine),
  λ (bs, perm, fine). (
    bs,
    sym (sort_entries-eq perm (build-Distinct P 0 genesis_previous_hash bs))
        ∙ sort_entries-build P 0 genesis_previous_hash bs,
    fine,
  ),
)

module _ (P : Platform) (D : Dynamic) (ds : List Fields) (es : List Entry) (key : Option String)
    (signed : Bool) where
  as_entries :
      {r : ChainResult}
      → AllShow ds es
      → verify_dicts P D ds key signed ≡ ok r
      → verify_chain P es key signed ≡ ok r
  as_entries w h = sym (verify_dicts-eq P D ds es key signed w) ∙ h

-- Of a log in which every documented field has its documented type or is missing (`es` shows
-- these fields of `ds`; an index is an integer, all else is text), the result is valid exactly if
-- the entries are, in some order, what an honest writer appends from the genesis entry on:
-- positions without a gap, each entry with the hash of its payload and linked to the one before,
-- known types, hashes of 64 characters, and signatures that pass where a key is given.
pub verify_dicts-valid_iff :
    (P : Platform) (D : Dynamic) (ds : List Fields) (es : List Entry) (key : Option String)
    (signed : Bool) {r : ChainResult}
    → AllShow ds es
    → verify_dicts P D ds key signed ≡ ok r
    → (r.valid ≡ true) ↔ IsShuffledLog P (signing_key signed key) es
verify_dicts-valid_iff P D ds es key signed w h =
    let valid = verify_chain-valid_iff P es key signed (as_entries P D ds es key signed w h) in
    let shuffled = IsLog-IsShuffledLog P (signing_key signed key) es in
    (λ v. shuffled.0 (valid.0 v), λ s. valid.1 (shuffled.1 s))

-- On a log in which every documented field has its documented type or is missing, the check
-- returns a result: nothing raises.
pub verify_dicts_total :
    (P : Platform) (D : Dynamic) (ds : List Fields) (es : List Entry) (key : Option String)
    (signed : Bool)
    → AllShow ds es
    → (r : ChainResult) × (verify_dicts P D ds key signed ≡ ok r)
verify_dicts_total P D ds es key signed w =
    let (r, run) = verify_chain_total P es key signed in
    (r, verify_dicts-eq P D ds es key signed w ∙ run)

-- Of two logs in which every documented field has its documented type or is missing, if both are
-- found valid and end in the same hash, the documented fields of their entries are the same, in
-- the order of their index, but for the signatures, which the hashes do not cover; provided that
-- SHA-256 tells apart the payloads of these entries that differ. Nothing is said of further fields
-- that an entry may have.
pub verify_dicts-fixes_chain :
    (P : Platform) (D : Dynamic) (ds ds' : List Fields) (es fs : List Entry)
    (key key' : Option String) (signed signed' : Bool) {r s : ChainResult}
    → AllShow ds es
    → AllShow ds' fs
    → Distinguishes P (map entry_bytes (sort_entries es)) (map entry_bytes (sort_entries fs))
    → verify_dicts P D ds key signed ≡ ok r
    → verify_dicts P D ds' key' signed' ≡ ok s
    → r.valid ≡ true
    → s.valid ≡ true
    → r.last_entry_hash ≡ s.last_entry_hash
    → map unsigned (sort_entries es) ≡ map unsigned (sort_entries fs)
verify_dicts-fixes_chain P D ds ds' es fs key key' signed signed' we wf tells hr hs =
    last_hash-fixes_chain P es fs key key' signed signed' tells
      (as_entries P D ds es key signed we hr) (as_entries P D ds' fs key' signed' wf hs)
