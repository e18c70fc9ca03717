-- ===== src/Chain/Documents.antt =====
-- `verify_chain` of validators/chain.py, over a log of dicts whose documented fields have their types.
use specora_verify.Base.{
  ◌≡◌, refl, ap, inl, inr, ℕ, suc, ℤ, pos, negsuc, leb_ℤ, ltb_ℤ, String, Bool, not, Option, none,
  some, List, [], ◌∷◌, length, Bool-cases, arith,
}
use specora_verify.Errors.{ok}
use specora_verify.Platform.{Platform}
use specora_verify.Json.{int, Fields}
use specora_verify.Chain.Entry.{Entry, EntryVerification, or_else, signing_key}
use specora_verify.Chain.Verify.{
  as_text, insert_entry, sort_entries, walk, first_entry, last_entry, hash_of, index_of,
  chain_result, verify_chain,
}
use specora_verify.Chain.Dict.{Dynamic}
use specora_verify.Chain.Dicts.{
  value_less, sort_key, insert_dict, sort_dicts, walk_dicts, first_dict, last_dict, field_of,
  dicts_result, verify_dicts,
}
use specora_verify.Chain.Typed.{Shows, >>=-same, or_else-as_int, check_dict-eq}

-- The dicts show the entries, one by one.
abbrev pub AllShow : List Fields → List Entry → Type 0
AllShow [] [] = Unit {0}
AllShow (d ∷ ds) (e ∷ es) = Shows d e × AllShow ds es
AllShow ds es = ⊥

sort_key-eq : (d : Fields) (e : Entry) → Shows d e → sort_key d ≡ int (or_else (pos 0) e.index)
sort_key-eq d e w = rw (w.index_shown) (or_else-as_int (pos 0) e.index)

value_less-eq :
    (D : Dynamic) (a b : Fields) (e f : Entry)
    → Shows a e
    → Shows b f
    → value_less D (sort_key b) (sort_key a)
      ≡ ok (not (leb_ℤ (or_else (pos 0) e.index) (or_else (pos 0) f.index)))
value_less-eq D a b e f wa wb =
    rw (sort_key-eq a e wa, sort_key-eq b f wb)
      (ap (λ x. ok x) (not_less (or_else (pos 0) f.index) (or_else (pos 0) e.index)))
  where
    not_less : (m n : ℤ) → ltb_ℤ m n ≡ not (leb_ℤ n m)
    not_less m n = ground arith

insert_shown :
    (D : Dynamic) (a : Fields) (e : Entry) (bs : List Fields) (fs : List Entry)
    → Shows a e
    → AllShow bs fs
    → (cs : List Fields) × (insert_dict D a bs ≡ ok cs) × AllShow cs (insert_entry e fs)
unfolding insert_dict insert_entry
insert_shown D a e [] [] w ws = (a ∷ [], refl, (w, tt))
insert_shown D a e [] (f ∷ fs) w ws = absurd ws
insert_shown D a e (b ∷ bs) [] w ws = absurd ws
insert_shown D a e (b ∷ bs) (f ∷ fs) w (wb, ws) =
    let less = value_less-eq D a b e f w wb in
    elim (Bool-cases (leb_ℤ (or_else (pos 0) e.index) (or_else (pos 0) f.index))) [
      | inl before ↦ rw (less, before) (a ∷ b ∷ bs, refl, (w, (wb, ws)))
      | inr behind ↦
          let (cs, run, shown) = insert_shown D a e bs fs w ws in
          rw (less, behind) (b ∷ cs, rw (run) refl, (wb, shown))
    ]

sort_shown :
    (D : Dynamic) (ds : List Fields) (es : List Entry)
    → AllShow ds es
    → (cs : List Fields) × (sort_dicts D ds ≡ ok cs) × AllShow cs (sort_entries es)
unfolding sort_dicts sort_entries
sort_shown D [] [] w = ([], refl, tt)
sort_shown D [] (e ∷ es) w = absurd w
sort_shown D (d ∷ ds) [] w = absurd w
sort_shown D (d ∷ ds) (e ∷ es) (w, ws) =
    let (rest, run, shown) = sort_shown D ds es ws in
    let (cs, inserted, all) = insert_shown D d e rest (sort_entries es) w shown in
    (cs, rw (run) inserted, all)

walk_dicts-eq :
    (P : Platform) (D : Dynamic) (key : Option String) (i : ℕ) (previous : Option String)
    (ds : List Fields) (es : List Entry)
    → AllShow ds es
    → walk_dicts P D key i (as_text previous) ds ≡ walk P key i previous es
unfolding walk_dicts walk
walk_dicts-eq P D key i previous [] [] w = refl
walk_dicts-eq P D key i previous [] (e ∷ es) w = absurd w
walk_dicts-eq P D key i previous (d ∷ ds) [] w = absurd w
walk_dicts-eq P D key i previous (d ∷ ds) (e ∷ es) (w, ws) =
    rw
      (
        check_dict-eq P D key i previous d e w,
        w.hash_shown,
        walk_dicts-eq P D key (suc i) e.entry_hash ds es ws,
      )
      refl

length-shown : (ds : List Fields) (es : List Entry) → AllShow ds es → length ds ≡ length es
length-shown [] [] w = refl
length-shown [] (e ∷ es) w = absurd w
length-shown (d ∷ ds) [] w = absurd w
length-shown (d ∷ ds) (e ∷ es) (w, ws) = ap suc (length-shown ds es ws)

-- An entry that there may be.
abbrev SomeShows : Option Fields → Option Entry → Type 0
SomeShows none none = Unit {0}
SomeShows (some d) (some e) = Shows d e
SomeShows d e = ⊥

first_shown :
    (ds : List Fields) (es : List Entry)
    → AllShow ds es
    → SomeShows (first_dict ds) (first_entry es)
first_shown [] [] w = tt
first_shown [] (e ∷ es) w = absurd w
first_shown (d ∷ ds) [] w = absurd w
first_shown (d ∷ ds) (e ∷ es) (w, ws) = w

last_shown :
    (ds : List Fields) (es : List Entry) → AllShow ds es → SomeShows (last_dict ds) (last_entry es)
last_shown [] [] w = tt
last_shown [] (e ∷ es) w = absurd w
last_shown (d ∷ ds) [] w = absurd w
last_shown (d ∷ []) (e ∷ []) (w, ws) = w
last_shown (d ∷ []) (e ∷ f ∷ fs) (w, ws) = absurd ws
last_shown (d ∷ c ∷ ds) (e ∷ []) (w, ws) = absurd ws
last_shown (d ∷ c ∷ ds) (e ∷ f ∷ fs) (w, ws) = last_shown (c ∷ ds) (f ∷ fs) ws

index_shown_of :
    (n : ℤ) (d : Option Fields) (e : Option Entry)
    → SomeShows d e
    → or_else (int n) (field_of "index" d) ≡ int (index_of n e)
index_shown_of n none none w = refl
index_shown_of n none (some e) w = absurd w
index_shown_of n (some d) none w = absurd w
index_shown_of n (some d) (some e) w = rw (w.index_shown) (or_else-as_int n e.index)

hash_shown_of :
    (d : Option Fields) (e : Option Entry)
    → SomeShows d e
    → field_of "entry_hash" d ≡ as_text (hash_of e)
hash_shown_of none none w = refl
hash_shown_of none (some e) w = absurd w
hash_shown_of (some d) none w = absurd w
hash_shown_of (some d) (some e) w = w.hash_shown

dicts_result-eq :
    (ds : List Fields) (es : List Entry) (o : Bool × List EntryVerification)
    → AllShow ds es
    → dicts_result ds o ≡ chain_result es o
dicts_result-eq ds es (valid, rs) w =
    let first = first_shown ds es w in
    let last = last_shown ds es w in
    rw
      (
        length-shown ds es w,
        index_shown_of (pos 0) (first_dict ds) (first_entry es) first,
        index_shown_of (negsuc 0) (last_dict ds) (last_entry es) last,
        hash_shown_of (first_dict ds) (first_entry es) first,
        hash_shown_of (last_dict ds) (last_entry es) last,
      )
      refl

pub verify_dicts-eq :
    (P : Platform) (D : Dynamic) (ds : List Fields) (es : List Entry) (key : Option String)
    (signed : Bool)
    → AllShow ds es
    → verify_dicts P D ds key signed ≡ verify_chain P es key signed
unfolding verify_dicts verify_chain
verify_dicts-eq P D [] [] key signed w = refl
verify_dicts-eq P D [] (e ∷ es) key signed w = absurd w
verify_dicts-eq P D (d ∷ ds) [] key signed w = absurd w
verify_dicts-eq P D (d ∷ ds) (e ∷ es) key signed w =
    let sorted = sort_entries (e ∷ es) in
    let (cs, run, shown) = sort_shown D (d ∷ ds) (e ∷ es) w in
    rw (run) (
      rw (walk_dicts-eq P D (signing_key signed key) 0 none cs sorted shown) (
        >>=-same (walk P (signing_key signed key) 0 none sorted) _ _
          (λ o. ap (λ r. ok r) (dicts_result-eq cs sorted o shown))))
