-- ===== src/Chain/Order.antt =====
-- The order in which the entries are given does not matter to a valid chain.
use mathlib.Core.List.Perm
use text.Mathlib.TextEquality.{IsScalar-prop}
use mathlib.Core.List.Permᴰ
use mathlib.Core.Logic.{∥∥₁_elim}
use mathlib.Core.List.{Perm, Permᴰ}
use specora_verify.Base.{
  ◌≡◌, ◌≢◌, refl, sym, ap₂, subst, subst₂, ◌∙◌, ℕ, suc, ◌<◌, ℤ, pos, leb_ℤ, String, Bool, true,
  Option, List, [], ◌∷◌, All, arith, Bool-cases, inl, inr,
}
use specora_verify.Chain.Entry.{Entry, ChainResult, or_else, genesis_previous_hash}
use specora_verify.Chain.Verify.{insert_entry, sort_entries, verify_chain}
use specora_verify.Platform.{Platform}
use specora_verify.Errors.{ok}
use specora_verify.Chain.Log.{Body, body_hash, build, IsLog}
use specora_verify.Chain.Sound.{verify_chain-valid_iff}

abbrev key_of : Entry → ℤ
key_of e = or_else (pos 0) e.index

-- Two neighbours in the wrong order can be inserted either way if their keys differ.
insert_entry_comm :
    (e f : Entry) (gs : List Entry)
    → key_of e ≢ key_of f
    → insert_entry e (insert_entry f gs) ≡ insert_entry f (insert_entry e gs)
unfolding insert_entry
insert_entry_comm e f [] ne = ground arith
insert_entry_comm e f (g ∷ gs) ne = ground (arith, insert_entry_comm e f gs ne)

entries_set : IsSet (List Entry)
entries_set = hlevel IsScalar-prop

-- No two entries of a list have the same index.
abbrev Distinct : List Entry → Type 0
Distinct [] = Unit
Distinct (e ∷ es) = All (λ f. key_of e ≢ key_of f) es × Distinct es

All-Permᴰ : (Q : Entry → Type 0) {es fs : List Entry} → Permᴰ es fs → All Q es → All Q fs
All-Permᴰ Q Permᴰ.nil a = tt
All-Permᴰ Q (Permᴰ.cons e p) (x, a) = (subst Q e x, All-Permᴰ Q p a)
All-Permᴰ Q (Permᴰ.swap e f) (x, (y, a)) = (subst Q f y, (subst Q e x, a))
All-Permᴰ Q (Permᴰ.trans p q) a = All-Permᴰ Q q (All-Permᴰ Q p a)

abbrev Apart : Entry → Entry → Type 0
Apart e f = key_of e ≢ key_of f

Distinct-Permᴰ : {es fs : List Entry} → Permᴰ es fs → Distinct es → Distinct fs
Distinct-Permᴰ Permᴰ.nil d = tt
Distinct-Permᴰ {fs = fs} (Permᴰ.cons {l₂ = l₂} e p) (a, d) =
    (subst (λ x. All (Apart x) l₂) e (All-Permᴰ _ p a), Distinct-Permᴰ p d)
Distinct-Permᴰ (Permᴰ.swap {l = l} e f) ((ne, a), (b, d)) = (
  (subst₂ Apart f e (λ h. ne (sym h)), subst (λ x. All (Apart x) l) f b),
  (subst (λ x. All (Apart x) l) e a, d),
)
Distinct-Permᴰ (Permᴰ.trans p q) d = Distinct-Permᴰ q (Distinct-Permᴰ p d)

pub sort_entries-eq :
    {es fs : List Entry} → Permᴰ es fs → Distinct es → sort_entries es ≡ sort_entries fs
unfolding sort_entries
sort_entries-eq Permᴰ.nil d = refl
sort_entries-eq (Permᴰ.cons e p) (a, d) = ap₂ insert_entry e (sort_entries-eq p d)
sort_entries-eq (Permᴰ.swap {a = x} {b = y} {l = l} e f) ((ne, a), (b, d)) =
    insert_entry_comm x y (sort_entries l) ne
    ∙ (λ i. insert_entry (f i) (insert_entry (e i) (sort_entries l)))
sort_entries-eq (Permᴰ.trans p q) d = sort_entries-eq p d ∙ sort_entries-eq q (Distinct-Permᴰ p d)

insert_entry-Permᴰ : (e : Entry) (es : List Entry) → Permᴰ (insert_entry e es) (e ∷ es)
unfolding insert_entry
insert_entry-Permᴰ e [] = Permᴰ.refl (e ∷ [])
insert_entry-Permᴰ e (f ∷ fs) = elim (Bool-cases (leb_ℤ (key_of e) (key_of f))) [
  | inl p ↦ rw p (Permᴰ.refl (e ∷ f ∷ fs))
  | inr p ↦ rw p (Permᴰ.trans (Permᴰ.cons refl (insert_entry-Permᴰ e fs)) (Permᴰ.swap refl refl))
]

-- Sorting keeps the entries.
pub sort_entries-Permᴰ : (es : List Entry) → Permᴰ (sort_entries es) es
unfolding sort_entries
sort_entries-Permᴰ [] = Permᴰ.nil
sort_entries-Permᴰ (e ∷ es) =
    Permᴰ.trans (insert_entry-Permᴰ e (sort_entries es)) (Permᴰ.cons refl (sort_entries-Permᴰ es))

-- In a log the positions are distinct.
build-above :
    (P : Platform) (i j : ℕ) (p : String) (bs : List Body)
    → j < i
    → All (λ f. pos j ≢ key_of f) (build P i p bs)
build-above P i j p [] h = tt
build-above P i j p (b ∷ bs) h =
    (λ e. absurd (ground arith), build-above P (suc i) j (body_hash P i p b) bs (omega arith))

pub build-Distinct :
    (P : Platform) (i : ℕ) (p : String) (bs : List Body) → Distinct (build P i p bs)
build-Distinct P i p [] = tt
build-Distinct P i p (b ∷ bs) = (
  build-above P (suc i) i (body_hash P i p b) bs (omega arith),
  build-Distinct P (suc i) (body_hash P i p b) bs,
)

-- A list of entries that makes a log is sorted in the same way in every order.
IsLog-sort_entries :
    {P : Platform} {key : Option String} {es fs : List Entry}
    → Perm es fs
    → IsLog P key (sort_entries es)
    → sort_entries es ≡ sort_entries fs
IsLog-sort_entries {P} {key} {es} {fs} p (bs, same, _) =
    let distinct : Distinct es =
      Distinct-Permᴰ (sort_entries-Permᴰ es)
        (subst Distinct (sym same) (build-Distinct P 0 genesis_previous_hash bs)) in
    ∥∥₁_elim p (entries_set (sort_entries es) (sort_entries fs)) (λ q. sort_entries-eq q distinct)

-- A valid verdict, with all that the result reports, is the same in whatever order the entries of
-- the log are given.
pub verify_chain-Perm :
    (P : Platform) (es fs : List Entry) (public_key : Option String) (verify_signatures : Bool)
    {r : ChainResult}
    → Perm es fs
    → verify_chain P es public_key verify_signatures ≡ ok r
    → r.valid ≡ true
    → verify_chain P fs public_key verify_signatures ≡ ok r
unfolding verify_chain
verify_chain-Perm P [] [] k v p h valid = h
verify_chain-Perm P [] (f ∷ fs) k v p h valid = absurd (cc (Perm.nil-eq p))
verify_chain-Perm P (e ∷ es) [] k v p h valid = absurd (cc (Perm.eq-nil p))
verify_chain-Perm P (e ∷ es) (f ∷ fs) k v p h valid =
    let same = IsLog-sort_entries p ((verify_chain-valid_iff P (e ∷ es) k v h).0 valid) in
    rw (← same) h
