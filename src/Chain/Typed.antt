-- ===== src/Chain/Typed.antt =====
-- The check of one dict of validators/chain.py, where its documented fields have their types, is the
-- check of the entry that it shows.
use specora_verify.Base.{
  ◌≡◌, refl, ℕ, zero, suc, ℤ, pos, String, Bool, true, false, Option, none, some, [], ◌∷◌,
  if◌then◌else◌, arith,
}
use specora_verify.Errors.{Result, ok, err, ◌>>=◌, fetch}
use specora_verify.Platform.{Platform}
use specora_verify.Json.{Value, int, str, Fields, get}
use specora_verify.Signature.{SignatureError}
use specora_verify.Stp.Simulate.{value_eq}
use specora_verify.Chain.Entry.{
  Entry, ChainError, or_else, is_some, validate_entry_schema, hash_length, artifact_type_error,
  build_canonical_payload, compute_entry_hash, hash_errors, link_errors, index_errors,
  check_entry_signature, check_signature, signature_errors, is_text, hash_mismatch,
}
use specora_verify.Chain.Verify.{as_text, check_entry}
use specora_verify.Chain.Dict.{
  Dynamic, dict_payload, dict_hash, length_errors, type_errors, dict_schema, gap_errors, dict_link,
  dict_hash_errors, dict_signature, check_dict, failed_signature, compare_stored,
}

-- A number as a JSON value.
abbrev pub as_int : Option ℤ → Option Value
as_int none = none
as_int (some n) = some (int n)

-- The dict shows the entry: each documented field is missing, or has its type. Other fields may be
-- there.
pub record Shows (fs : Fields) (e : Entry) : Type 0 where
  pub index_shown : get "index" fs ≡ as_int e.index
  pub artifact_type_shown : get "artifact_type" fs ≡ as_text e.artifact_type
  pub artifact_sha256_shown : get "artifact_sha256" fs ≡ as_text e.artifact_sha256
  pub previous_shown : get "previous_entry_hash" fs ≡ as_text e.previous_entry_hash
  pub hash_shown : get "entry_hash" fs ≡ as_text e.entry_hash
  pub signature_shown : get "signature_b64" fs ≡ as_text e.signature_b64
  pub key_id_shown : get "public_key_id" fs ≡ as_text e.public_key_id
  pub created_at_shown : get "created_at" fs ≡ as_text e.created_at

pub or_else-as_int : (d : ℤ) (o : Option ℤ) → or_else (int d) (as_int o) ≡ int (or_else d o)
or_else-as_int d none = refl
or_else-as_int d (some n) = refl

or_else-as_text : (d : String) (o : Option String) → or_else (str d) (as_text o) ≡ str (or_else d o)
or_else-as_text d none = refl
or_else-as_text d (some s) = refl

is_some-as_text : (o : Option String) → is_some (as_text o) ≡ is_some o
is_some-as_text none = refl
is_some-as_text (some s) = refl

is_some-as_int : (o : Option ℤ) → is_some (as_int o) ≡ is_some o
is_some-as_int none = refl
is_some-as_int (some n) = refl

length_errors-as_text :
    (i : ℤ) (name : String) (o : Option String)
    → length_errors (int i) name (as_text o) ≡ ok (hash_length i name o)
length_errors-as_text i name none = refl
length_errors-as_text i name (some s) = refl

type_errors-as_text :
    (i : ℤ) (o : Option String) → type_errors (int i) (as_text o) ≡ ok (artifact_type_error i o)
type_errors-as_text i none = refl
type_errors-as_text i (some s) = refl

dict_schema-eq :
    (fs : Fields) (e : Entry) (i : ℤ)
    → Shows fs e
    → dict_schema fs (int i) ≡ ok (validate_entry_schema e i)
unfolding dict_schema validate_entry_schema
dict_schema-eq fs e i w =
    rw
      (
        w.index_shown,
        w.artifact_type_shown,
        w.artifact_sha256_shown,
        w.previous_shown,
        w.hash_shown,
        w.signature_shown,
        w.key_id_shown,
        w.created_at_shown,
        is_some-as_int e.index,
        is_some-as_text e.artifact_type,
        is_some-as_text e.artifact_sha256,
        is_some-as_text e.previous_entry_hash,
        is_some-as_text e.entry_hash,
        is_some-as_text e.signature_b64,
        is_some-as_text e.public_key_id,
        is_some-as_text e.created_at,
        length_errors-as_text i "entry_hash" e.entry_hash,
        length_errors-as_text i "previous_entry_hash" e.previous_entry_hash,
        length_errors-as_text i "artifact_sha256" e.artifact_sha256,
        type_errors-as_text i e.artifact_type,
      )
      refl

gap_errors-eq : (P : Platform) (i : ℕ) (n : ℤ) → gap_errors P i (int n) ≡ index_errors i n
unfolding value_eq
gap_errors-eq P i n = refl

link_of_texts :
    (P : Platform) (i : ℕ) (n : ℤ) (previous link : Option String)
    → dict_link P i (int n) (as_text previous) (as_text link) ≡ ok (link_errors i n previous link)
unfolding dict_link value_eq
link_of_texts P zero n previous none = refl
link_of_texts P zero n previous (some l) = refl
link_of_texts P (suc i) n none link = refl
link_of_texts P (suc i) n (some h) none = ground arith
link_of_texts P (suc i) n (some h) (some l) = ground arith

-- A step that reads a field of the dict, and one that reads it from the entry.
fetch-as_text :
    {B : Type 0} (o : Option String) (f : Value → Result ChainError B)
    (g : String → Result ChainError B)
    → ((s : String) → f (str s) ≡ g s)
    → (fetch (as_text o) >>= f) ≡ (fetch o >>= g)
fetch-as_text none f g same = refl
fetch-as_text (some s) f g same = same s

fetch-as_int :
    {B : Type 0} (o : Option ℤ) (f : Value → Result ChainError B) (g : ℤ → Result ChainError B)
    → ((n : ℤ) → f (int n) ≡ g n)
    → (fetch (as_int o) >>= f) ≡ (fetch o >>= g)
fetch-as_int none f g same = refl
fetch-as_int (some n) f g same = same n

dict_payload-eq :
    (D : Dynamic) (fs : Fields) (e : Entry)
    → Shows fs e
    → dict_payload D fs ≡ build_canonical_payload e
unfolding dict_payload build_canonical_payload
dict_payload-eq D fs e w =
    rw
      (
        w.index_shown, w.artifact_type_shown, w.artifact_sha256_shown, w.previous_shown,
        w.key_id_shown, w.created_at_shown,
      )
      (fetch-as_int e.index _ _ (λ n. fetch-as_text e.artifact_type _ _ (λ t.
        fetch-as_text e.artifact_sha256 _ _ (λ d. fetch-as_text e.previous_entry_hash _ _ (λ p.
          fetch-as_text e.public_key_id _ _ (λ k. fetch-as_text e.created_at _ _ (λ c. refl)))))))

dict_hash-eq :
    (P : Platform) (D : Dynamic) (fs : Fields) (e : Entry)
    → Shows fs e
    → dict_hash P D fs ≡ compute_entry_hash P e
unfolding dict_hash compute_entry_hash
dict_hash-eq P D fs e w = rw (dict_payload-eq D fs e w) refl

stored_text :
    (i : ℤ) (computed : String) (o : Option String)
    → compare_stored (int i) computed (as_text o)
      ≡ ok (
          if is_text computed o
          then []
          else hash_mismatch (int i) computed (str (or_else "" o)) ∷ [])
stored_text i computed none = refl
stored_text i computed (some s) = ground arith

pub >>=-same :
    {A B : Type 0} (m : Result ChainError A) (f g : A → Result ChainError B)
    → ((a : A) → f a ≡ g a)
    → (m >>= f) ≡ (m >>= g)
>>=-same (ok a) f g same = same a
>>=-same (err e) f g same = refl

dict_hash_errors-eq :
    (P : Platform) (D : Dynamic) (fs : Fields) (e : Entry) (i : ℤ)
    → Shows fs e
    → dict_hash_errors P D fs (int i) ≡ hash_errors P e i
unfolding dict_hash_errors hash_errors
dict_hash_errors-eq P D fs e i w =
    rw (dict_hash-eq P D fs e w, w.hash_shown)
      (>>=-same (compute_entry_hash P e) _ _ (λ c. stored_text i c e.entry_hash))

failed_signature-eq :
    (i : ℤ) (o : Bool × Option SignatureError) → failed_signature (int i) o ≡ signature_errors i o
failed_signature-eq i (true, e) = refl
failed_signature-eq i (false, e) = refl

dict_signature-eq :
    (P : Platform) (key : Option String) (fs : Fields) (e : Entry) (i : ℤ)
    → Shows fs e
    → dict_signature P key fs (int i) ≡ check_entry_signature P key e i
unfolding dict_signature check_entry_signature
dict_signature-eq P none fs e i w = refl
dict_signature-eq P (some key) fs e i w =
    rw
      (
        w.hash_shown,
        w.signature_shown,
        or_else-as_text "" e.entry_hash,
        or_else-as_text "" e.signature_b64,
      )
      (failed_signature-eq i
        (check_signature P (or_else "" e.entry_hash) (or_else "" e.signature_b64) key))

-- The round over the dict is the round over the entry.
pub check_dict-eq :
    (P : Platform) (D : Dynamic) (key : Option String) (i : ℕ) (previous : Option String)
    (fs : Fields) (e : Entry)
    → Shows fs e
    → check_dict P D key i (as_text previous) fs ≡ check_entry P key i previous e
unfolding check_dict check_entry
check_dict-eq P D key i previous fs e w =
    let n = or_else (pos i) e.index in
    rw
      (
        w.index_shown,
        or_else-as_int (pos i) e.index,
        dict_schema-eq fs e n w,
        w.previous_shown,
        link_of_texts P i n previous e.previous_entry_hash,
        gap_errors-eq P i n,
        dict_hash_errors-eq P D fs e n w,
        dict_signature-eq P key fs e n w,
        w.hash_shown,
        or_else-as_text "" e.entry_hash,
      )
      refl
