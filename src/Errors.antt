-- ===== src/Errors.antt =====
-- errors.py: a computation that may raise returns a `Result`. `type_error`, `value_error`,
-- `key_error` and `attribute_error` are Python's own exceptions, `library_error` is one of a library
-- that the code does not handle; `verification` is `VerificationError`, its code and message being `E`.
use specora_verify.Base.{◌≡◌, refl, ap, Bool, true, false, Option, none, some, if◌then◌else◌}

pub data Raised (E : Type 0) : Type 0 where
  verification : E → Raised E
  type_error : Raised E
  value_error : Raised E
  key_error : Raised E
  attribute_error : Raised E
  library_error : Raised E

pub data Result (E : Type 0) (A : Type 0) : Type 0 where
  ok : A → Result E A
  err : Raised E → Result E A

-- What is raised skips the rest.
infixl 5 ◌>>=◌
abbrev pub ◌>>=◌ : {E A B : Type 0} → Result E A → (A → Result E B) → Result E B
err raised >>= next = err raised
ok value >>= next = next value

-- `if not test: raise VerificationError(...)`
abbrev pub require : {E : Type 0} → Bool → E → Result E (Unit {0})
require passed message = if passed then ok tt else err (verification message)

infixl 5 ◌>>◌
abbrev pub ◌>>◌ : {E B : Type 0} → Result E (Unit {0}) → Result E B → Result E B
check >> rest = check >>= λ u. rest

-- Inversion of a `do` block that ends in `ok`.
pub >>=-eq-ok :
    {E A B : Type 0} (action : Result E A) (next : A → Result E B) {final : B}
    → (action >>= next) ≡ ok final
    → (value : A) × (action ≡ ok value) × (next value ≡ ok final)
>>=-eq-ok (err raised) next h = absurd (cc)
>>=-eq-ok (ok value) next h = (value, refl, h)

pub require-eq-ok : {E : Type 0} (b : Bool) (e : E) {u : Unit {0}} → require b e ≡ ok u → b ≡ true
require-eq-ok false e h = absurd (cc)
require-eq-ok true e h = refl

pub ok-injective : {E A : Type 0} (a b : A) → ◌≡◌ {A = Result E A} (ok a) (ok b) → a ≡ b
ok-injective a b h = cc

-- `d[key]`
abbrev pub fetch : {E A : Type 0} → Option A → Result E A
fetch none = err key_error
fetch (some a) = ok a

-- A serialisation that met a float which is not finite.
abbrev pub encoded : {E A : Type 0} → Option A → Result E A
encoded none = err value_error
encoded (some a) = ok a

pub encoded-eq-ok :
    {E A : Type 0} (v : Option A) {a : A} → ◌≡◌ {A = Result E A} (encoded v) (ok a) → v ≡ some a
encoded-eq-ok (some b) {a} h = ap some (ok-injective b a h)
encoded-eq-ok none h = absurd (cc)
