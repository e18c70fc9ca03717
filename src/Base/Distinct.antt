-- ===== src/Base/Distinct.antt =====
-- Lists whose elements are told apart by a text that is never empty.
use Prim.Native.String.{String}
use mathlib.Core.Path.{◌≡◌, ap}
use mathlib.Core.Logic.{inl, inr}
use mathlib.Core.Bool.{Bool, true, false, ◌||◌, ◌&&◌}
use mathlib.Core.Option.{Option, none, some}
use mathlib.Core.List.{List, [], ◌∷◌}
use native.Mathlib.Omega.{arith}
use specora_verify.Base.Tests.{Bool-cases, if◌then◌else◌}
use specora_verify.Base.Lists.{All}
use specora_verify.Base.Strings.{str_eq, str_mem, str_truthy, eq_iff, eq_refl}

pub All-both {ℓ κ ρ} :
    {A : Type ℓ} {S : A → Type κ} {Q R : A → Type ρ} (es : List A)
    → All S es
    → All Q es
    → ((d : A) → S d → Q d → R d)
    → All R es
All-both [] a b g = tt
All-both (e ∷ es) a b g = (g e a.0 b.0, All-both es a.1 b.1 g)

or_true : (b : Bool) → (b || true) ≡ true
or_true b = ground arith

pub and_false : (b : Bool) → (b && false) ≡ false
and_false b = ground arith

-- The texts that `field_of` reads are new, `seen` being those of earlier elements.
abbrev pub Fresh {ℓ} : {A : Type ℓ} → (A → String) → List String → List A → Type 0
Fresh field_of seen [] = Unit {0}
Fresh field_of seen (e ∷ es) =
    (str_mem (field_of e) seen ≡ false)
    × (str_truthy (field_of e) ≡ true)
    × Fresh field_of (field_of e ∷ seen) es

pub Fresh-apart {ℓ} :
    {A : Type ℓ} (field_of : A → String) (x : String) (seen : List String) (es : List A)
    → str_mem x seen ≡ true
    → Fresh field_of seen es
    → All (λ d. str_eq x (field_of d) ≡ false) es
Fresh-apart field_of x seen [] m f = tt
Fresh-apart field_of x seen (e ∷ es) m f =
    let apart : str_eq x (field_of e) ≡ false = elim (Bool-cases (str_eq x (field_of e))) [
      | inl same ↦ absurd (cc (ap (λ y. str_mem y seen) ((eq_iff x (field_of e)).0 same), f.0, m))
      | inr other ↦ other
    ] in
    (
      apart,
      Fresh-apart field_of x (field_of e ∷ seen) es (rw (m) (or_true (str_eq x (field_of e)))) f.2,
    )

-- `for e in es: if e.field == x: return e`, then `return None`
abbrev pub find_by {ℓ} : {A : Type ℓ} → (A → String) → String → List A → Option A
find_by field_of x [] = none
find_by field_of x (e ∷ es) = if str_eq (field_of e) x then some e else find_by field_of x es

pub find_by-Fresh {ℓ} :
    {A : Type ℓ} (field_of : A → String) (seen : List String) (es : List A)
    → Fresh field_of seen es
    → All (λ e. find_by field_of (field_of e) es ≡ some e) es
find_by-Fresh field_of seen [] f = tt
find_by-Fresh field_of seen (e ∷ es) f =
    let x = field_of e in
    (
      rw (eq_refl x),
      All-both es (Fresh-apart field_of x (x ∷ seen) es (rw (eq_refl x)) f.2)
          (find_by-Fresh field_of (x ∷ seen) es f.2) (λ d apart found. rw (apart) found),
    )
