-- ===== src/Revocation/Read.antt =====
-- The documents that `parse_revocation_list` in revocation.py reads its lists from.
use specora_verify.Base.{
  ◌≡◌, refl, ◌⊎◌, ℤ, ℕ, suc, pos, String, true, Option, none, some, List, [], ◌∷◌, arith,
}
use specora_verify.Errors.{ok, >>=-eq-ok, ◌>>=◌}
use specora_verify.Platform.{Platform}
use specora_verify.Checked.{at}
use specora_verify.Json.{Value, null, bool, int, str, arr, obj, Items, nil, cons, Fields, get}
use specora_verify.Revocation.List.{KeyEntry, RevocationList}
use specora_verify.Revocation.Parse.{parse_key, parse_keys, parse_revocation_list}
use specora_verify.Revocation.Sound.{IsValidList, parsed_keys, parse_revocation_list-IsValidList}

-- The version that a document states: `true` counts as 1.
abbrev pub IsVersion : ℤ → Value → Type 0
IsVersion n v = (v ≡ int n) ⊎ ((v ≡ bool true) × (n ≡ pos 1))

-- An optional time that a document states.
abbrev pub IsOptional : Option String → Value → Type 0
IsOptional none v = v ≡ null
IsOptional (some t) v = v ≡ str t

-- The object that an entry of the list was read from.
pub record IsRead (v : Value) (e : KeyEntry) : Type 0 where
  pub fields : Fields
  pub is_object : v ≡ obj fields
  pub key_id_read : get "derived_key_id" fields ≡ some (str e.derived_key_id)
  pub fingerprint_read : get "fingerprint_sha256" fields ≡ some (str e.fingerprint_sha256)
  pub status_read : get "status" fields ≡ some (str e.status)
  pub reason_read : at "status_reason" fields ≡ e.status_reason
  pub effective_read : IsOptional e.effective_at (at "effective_at" fields)

abbrev pub AllRead : Items → List KeyEntry → Type 0
AllRead nil [] = Unit {0}
AllRead (cons v vs) (e ∷ es) = IsRead v e × AllRead vs es
AllRead vs es = ⊥

-- The document that a list was read from.
pub record IsDocument (fs : Fields) (l : RevocationList) : Type 0 where
  pub version_read : IsVersion l.version (at "version" fs)
  pub generated_read : get "generated_at" fs ≡ some (str l.generated_at)
  pub authority_read : get "authority" fs ≡ some (str l.authority)
  pub entries : Items
  pub keys_read : get "keys" fs ≡ some (arr entries)
  pub all_read : AllRead entries l.keys

parse_key-IsRead :
    (P : Platform) (i : ℕ) (v : Value) {e : KeyEntry} → parse_key P i v ≡ ok e → IsRead v e
unfolding parse_key
parse_key-IsRead P i (obj fs) {e} h = record {
  fields = fs;
  is_object = refl;
  key_id_read = ground arith;
  fingerprint_read = ground arith;
  status_read = ground arith;
  reason_read = ground arith;
  effective_read = ground arith;
}
parse_key-IsRead P i v h = absurd (cc)

parse_keys-AllRead :
    (P : Platform) (i : ℕ) (vs : Items) {es : List KeyEntry}
    → parse_keys P i vs ≡ ok es
    → AllRead vs es
unfolding parse_keys
parse_keys-AllRead P i nil h = ground arith
parse_keys-AllRead P i (cons v vs) h =
    let (e, he, k) =
      >>=-eq-ok (parse_key P i v) (λ e. do es ← parse_keys P (suc i) vs; ok (e ∷ es)) h in
    let (es, hes, m) = >>=-eq-ok (parse_keys P (suc i) vs) (λ es. ok (e ∷ es)) k in
    ground (arith, parse_key-IsRead P i v he, parse_keys-AllRead P (suc i) vs hes)

items_read :
    (P : Platform) (fs : Fields) {l : RevocationList}
    → parse_revocation_list P fs ≡ ok l
    → (vs : Items) × (get "keys" fs ≡ some (arr vs))
unfolding parse_revocation_list
items_read P fs h = ground arith

-- The list that the parser makes of a document holds what the document states: its version (`true`
-- counts as 1), time and authority, and for each object of its array of keys an entry with the
-- texts of that object. It is well formed: the version is at least 1, the times have the form of a
-- UTC timestamp, as Python's regular expressions see it, the authority is not blank, and each key
-- has an identifier that is derived from its fingerprint and one of the three statuses.
pub parse_revocation_list-IsDocument :
    (P : Platform) (fs : Fields) {l : RevocationList}
    → parse_revocation_list P fs ≡ ok l
    → IsDocument fs l × IsValidList P l
unfolding parse_revocation_list
parse_revocation_list-IsDocument P fs {l} h =
    let (vs, there) = items_read P fs h in
    let keys : parse_keys P 0 vs ≡ ok l.keys = ground (arith, there, parsed_keys P fs h) in
    (
      record {
        version_read = ground arith;
        generated_read = ground arith;
        authority_read = ground arith;
        entries = vs;
        keys_read = there;
        all_read = parse_keys-AllRead P 0 vs keys;
      },
      parse_revocation_list-IsValidList P fs h,
    )
