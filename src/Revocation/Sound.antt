-- ===== src/Revocation/Sound.antt =====
-- The lists that `parse_revocation_list` in revocation.py makes, and that they can be written and read again.
use specora_verify.Base.{
  ◌≡◌, refl, ℕ, suc, pos, leb_ℤ, String, str_mem, str_eq, true, Option, none, some, List, [], ◌∷◌,
  arith, All, eq_iff,
}
use specora_verify.Errors.{ok, >>=-eq-ok, ◌>>=◌}
use specora_verify.Platform.{Platform}
use specora_verify.Checked.{array_of}
use specora_verify.Json.{Value, null, int, str, arr, obj, Items, nil, cons, Fields, end, field, get}
use specora_verify.Pattern.{hex64_pattern, key_id_pattern, timestamp_pattern, has_text}
use specora_verify.Hash.{derive_key_id}
use specora_verify.Revocation.List.{KeyEntry, RevocationList}
use specora_verify.Revocation.Parse.{
  parse_key, parse_keys, parse_revocation_list, valid_key_statuses,
}

-- An optional timestamp.
abbrev pub IsTime : Platform → Option String → Type 0
IsTime P none = Unit {0}
IsTime P (some t) = timestamp_pattern P t ≡ true

-- The format of the module's documentation, for one key and for the list.
pub record IsValidKey (P : Platform) (e : KeyEntry) : Type 0 where
  pub key_id_form : key_id_pattern b's' e.derived_key_id ≡ true
  pub fingerprint_form : hex64_pattern e.fingerprint_sha256 ≡ true
  pub derived : e.derived_key_id ≡ derive_key_id "spk-" e.fingerprint_sha256
  pub known_status : str_mem e.status valid_key_statuses ≡ true
  pub effective_form : IsTime P e.effective_at

pub record IsValidList (P : Platform) (l : RevocationList) : Type 0 where
  pub version_form : leb_ℤ (pos 1) l.version ≡ true
  pub generated_form : timestamp_pattern P l.generated_at ≡ true
  pub authority_form : has_text P l.authority ≡ true
  pub keys_form : All (IsValidKey P) l.keys

parse_key-derived :
    (P : Platform) (i : ℕ) (v : Value) {e : KeyEntry}
    → parse_key P i v ≡ ok e
    → str_eq e.derived_key_id (derive_key_id "spk-" e.fingerprint_sha256) ≡ true
unfolding parse_key
parse_key-derived P i v h = ground arith

parse_key-IsValidKey :
    (P : Platform) (i : ℕ) (v : Value) {e : KeyEntry} → parse_key P i v ≡ ok e → IsValidKey P e
unfolding parse_key
parse_key-IsValidKey P i v {e} h = record {
  key_id_form = ground arith;
  fingerprint_form = ground arith;
  derived =
      (eq_iff e.derived_key_id (derive_key_id "spk-" e.fingerprint_sha256)).0
        (parse_key-derived P i v h);
  known_status = ground arith;
  effective_form = ground arith;
}

parse_keys-IsValidKey :
    (P : Platform) (i : ℕ) (vs : Items) {es : List KeyEntry}
    → parse_keys P i vs ≡ ok es
    → All (IsValidKey P) es
unfolding parse_keys
parse_keys-IsValidKey P i nil h = ground arith
parse_keys-IsValidKey P i (cons v vs) h =
    let (e, he, k) =
      >>=-eq-ok (parse_key P i v) (λ e. do es ← parse_keys P (suc i) vs; ok (e ∷ es)) h in
    let (es, hes, m) = >>=-eq-ok (parse_keys P (suc i) vs) (λ es. ok (e ∷ es)) k in
    ground (arith, parse_key-IsValidKey P i v he, parse_keys-IsValidKey P (suc i) vs hes)

pub parsed_keys :
    (P : Platform) (fs : Fields) {l : RevocationList}
    → parse_revocation_list P fs ≡ ok l
    → parse_keys P 0 (array_of (get "keys" fs)) ≡ ok l.keys
unfolding parse_revocation_list
parsed_keys P fs h = ground arith

-- The list that the parser makes is well formed.
pub parse_revocation_list-IsValidList :
    (P : Platform) (fs : Fields) {l : RevocationList}
    → parse_revocation_list P fs ≡ ok l
    → IsValidList P l
unfolding parse_revocation_list
parse_revocation_list-IsValidList P fs h = record {
  version_form = ground arith;
  generated_form = ground arith;
  authority_form = ground arith;
  keys_form = parse_keys-IsValidKey P 0 (array_of (get "keys" fs)) (parsed_keys P fs h);
}

abbrev time_to_json : Option String → Value
time_to_json none = null
time_to_json (some t) = str t

-- The document of a list, as the module's documentation shows it.
abbrev pub key_to_json : KeyEntry → Value
key_to_json e = obj (
    field "derived_key_id" (str e.derived_key_id) (
      field "fingerprint_sha256" (str e.fingerprint_sha256) (
        field "status" (str e.status) (
          field "status_reason" e.status_reason
            (field "effective_at" (time_to_json e.effective_at) end)))))

abbrev keys_to_json : List KeyEntry → Items
keys_to_json [] = nil
keys_to_json (e ∷ es) = cons (key_to_json e) (keys_to_json es)

abbrev pub list_to_json : RevocationList → Fields
list_to_json l = field "version" (int l.version) (
    field "generated_at" (str l.generated_at)
      (field "authority" (str l.authority) (field "keys" (arr (keys_to_json l.keys)) end)))

derives :
    {P : Platform} (e : KeyEntry)
    → IsValidKey P e
    → str_eq e.derived_key_id (derive_key_id "spk-" e.fingerprint_sha256) ≡ true
derives e w = (eq_iff e.derived_key_id (derive_key_id "spk-" e.fingerprint_sha256)).1 w.derived

parse_key-to_json :
    (P : Platform) (i : ℕ) (e : KeyEntry) → IsValidKey P e → parse_key P i (key_to_json e) ≡ ok e
unfolding parse_key
parse_key-to_json P i e w =
    ground (arith, w.key_id_form, w.fingerprint_form, w.known_status, w.effective_form, derives e w)

parse_keys-to_json :
    (P : Platform) (i : ℕ) (es : List KeyEntry)
    → All (IsValidKey P) es
    → parse_keys P i (keys_to_json es) ≡ ok es
unfolding parse_keys
parse_keys-to_json P i [] w = refl
parse_keys-to_json P i (e ∷ es) w =
    rw (parse_key-to_json P i e w.0, parse_keys-to_json P (suc i) es w.1)

-- Every well-formed list, written in the documented format, is parsed to itself.
pub parse_revocation_list-to_json :
    (P : Platform) (l : RevocationList)
    → IsValidList P l
    → parse_revocation_list P (list_to_json l) ≡ ok l
unfolding parse_revocation_list
parse_revocation_list-to_json P l w = ground (
  arith,
  w.version_form,
  w.generated_form,
  w.authority_form,
  parse_keys-to_json P 0 l.keys w.keys_form,
)
