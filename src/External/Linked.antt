-- ===== src/External/Linked.antt =====
-- The chains that `verify_external_anchor_chain` in validators/external_anchor.py finds valid.
use specora_verify.Base.{
  ◌≡◌, refl, ap, inl, inr, ℕ, ◌==◌, ==_iff, String, eq_iff, utf8, Bool, true, false, ◌&&◌, Option,
  none, some, List, [], ◌∷◌, length, is_nil, All, Bool-cases, Option-cases, if◌then◌else◌, arith,
  pos, ◌⊎◌,
}
use specora_verify.Errors.{ok, Result}
use specora_verify.Platform.{Platform}
use specora_verify.External.Chain.{index_less, index_key}
use specora_verify.Json.{Value, str, obj, Fields, get, has_key, int, field, end, bool, float}
use specora_verify.Checked.{at, is_str, is_str-eq}
use specora_verify.Hash.{compute_manifest_hash}
use specora_verify.Stp.Body.{get_or}
use specora_verify.Stp.Simulate.{value_eq}
use specora_verify.External.Anchor.{
  AnchorError, required_fields, missing_errors, check_texts, check_signature, compare_hash,
}

-- The key under which signatures are looked at.
abbrev pub key_used : Platform → Option (List ℕ) → Bool → Option (List ℕ)
key_used P key verify = if verify && P.crypto_available then key else none

-- The signature is over the text of the hash.
abbrev pub IsSigned : Platform → Option (List ℕ) → Fields → Type 0
IsSigned P none fs = Unit
IsSigned P (some key) fs =
    (signature : String) × (hash : String) × (bytes : List ℕ) × (at "anchor_signature" fs
      ≡ str signature)
    × (at "anchor_hash" fs ≡ str hash)
    × (P.b64decode signature ≡ some bytes)
    × (length key ≡ 32)
    × (P.verifies key bytes (utf8 hash) ≡ true)

-- The document that an anchor is to be hashed as.
abbrev pub hashed_document : Fields → Value
hashed_document fs = obj (
    field "schema_version" (at "schema_version" fs) (
      field "timestamp" (at "timestamp" fs) (
        field "chain_head_index" (at "chain_head_index" fs) (
          field "chain_head_hash" (at "chain_head_hash" fs) (
            field "chain_head_signature" (at "chain_head_signature" fs) (
              field "chain_head_key_id" (at "chain_head_key_id" fs) (
                field "previous_external_anchor_hash" (at "previous_external_anchor_hash" fs)
                  end)))))))

-- The value is the number 1; `same_number` compares the integer with `true` or a float.
abbrev pub IsOne : Platform → Value → Type 0
IsOne P v =
    (v ≡ int (pos 1))
    ⊎ (((b : Bool) × (v ≡ bool b) × (P.same_number (bool b) (int (pos 1)) ≡ true))
        ⊎ ((r : String) × (v ≡ float r) × (P.same_number (float r) (int (pos 1)) ≡ true)))

-- An anchor with the given hash.
pub record IsAnchor (P : Platform) (key : Option (List ℕ)) (verify : Bool) (fs : Fields)
    (hash : String) : Type 0 where
  pub complete : All (λ f. has_key f fs ≡ true) required_fields
  pub known_version : IsOne P (at "schema_version" fs)
  pub stated : at "anchor_hash" fs ≡ str hash
  pub hashed : compute_manifest_hash P (hashed_document fs) ≡ some hash
  pub signed : IsSigned P (key_used P key verify) fs

-- The given anchors in the order of their indices: of two neighbours the second is not below the
-- first, or the first is below the second.
abbrev pub InOrder : (Value → Value → Result AnchorError Bool) → List Fields → Type 0
InOrder less [] = Unit {0}
InOrder less (a ∷ []) = Unit {0}
InOrder less (a ∷ b ∷ rest) =
    (◌≡◌ {A = Result AnchorError Bool} (index_less less (index_key b) (index_key a)) (ok false)
      ⊎ ◌≡◌ {A = Result AnchorError Bool} (index_less less (index_key a) (index_key b)) (ok true))
    × InOrder less (b ∷ rest)

-- Each anchor has the hash of the one before.
abbrev pub IsLinked : Platform → Option (List ℕ) → Bool → String → List Fields → Type 0
IsLinked P key verify expected [] = Unit
IsLinked P key verify expected (fs ∷ rest) =
    (hash : String) × IsAnchor P key verify fs hash
    × (at "previous_external_anchor_hash" fs ≡ str expected)
    × IsLinked P key verify hash rest

pub missing_sound :
    (fs : Fields) (names : List String)
    → is_nil (missing_errors fs names) ≡ true
    → All (λ f. has_key f fs ≡ true) names
missing_sound fs [] h = tt
missing_sound fs (n ∷ ns) h = (ground (arith, h), missing_sound fs ns (ground (arith, h)))

texts_sound :
    (P : Platform) (key : List ℕ) (signature hash : Value)
    → (check_texts P key signature hash).passed ≡ true
    → (s : String) × (t : String) × (bytes : List ℕ) × (signature ≡ str s)
      × (hash ≡ str t)
      × (P.b64decode s ≡ some bytes)
      × (P.verifies key bytes (utf8 t) ≡ true)
texts_sound P key (str s) (str t) h = elim (Option-cases (P.b64decode s)) [
  | inl e ↦ absurd (ground (arith, e, h))
  | inr (bytes, e) ↦ (s, t, bytes, refl, refl, e, ground (arith, e, h))
]
texts_sound P key signature hash h = absurd (cc)

pub signature_sound :
    (P : Platform) (key : Option (List ℕ)) (verify : Bool) (fs : Fields)
    → (check_signature P key verify fs).passed ≡ true
    → IsSigned P (key_used P key verify) fs
unfolding check_signature
signature_sound P key false fs h = tt
signature_sound P none true fs h = elim (Bool-cases P.crypto_available) [
  | inl on ↦ rw (on) tt
  | inr off ↦ rw (off) tt
]
signature_sound P (some key) true fs h = elim (Bool-cases P.crypto_available) [
  | inr off ↦ rw (off) tt
  | inl on ↦
      let full : (length key == 32) ≡ true = ground (arith, on, h) in
      let (s, t, bytes, hs, ht, decoded, verifies) =
        texts_sound P key (at "anchor_signature" fs) (at "anchor_hash" fs)
          (ground (arith, on, full, h)) in
      rw (on) (s, t, bytes, hs, ht, decoded, (==_iff (length key) 32).0 full, verifies)
]

pub compare_sound :
    (computed : String) (v : Value) {es : List AnchorError}
    → compare_hash computed v ≡ ok es
    → is_nil es ≡ true
    → v ≡ str computed
compare_sound computed v h n = elim (Bool-cases (is_str computed v)) [
  | inl same ↦ is_str-eq computed v same
  | inr other ↦ absurd (ground (arith, other, h, n))
]

pub value_eq-str : (P : Platform) (v : Value) (s : String) → value_eq P v (str s) ≡ true → v ≡ str s
unfolding value_eq
value_eq-str P (str t) s h = ap (λ u. str u) ((eq_iff t s).0 h)
value_eq-str P v s h = absurd (cc)

pub get_or-at :
    (name : String) (fs : Fields) (t : String)
    → at name fs ≡ str t
    → (d : Value) → get_or name d fs ≡ str t
get_or-at name fs t h d = elim (Option-cases (get name fs)) [
  | inl e ↦ absurd (ground (arith, e, h))
  | inr (v, e) ↦ ground (arith, e, h)
]
