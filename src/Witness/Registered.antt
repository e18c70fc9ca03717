-- ===== src/Witness/Registered.antt =====
-- What `parse_witness_registry` in validators/witness.py establishes.
use specora_verify.Base.{
  ◌≡◌, refl, ℕ, suc, String, str_eq, str_mem, str_truthy, eq_iff, eq_refl, true, false, ◌&&◌,
  Option, none, some, List, [], ◌∷◌, length, All, arith, Fresh, Fresh-apart, All-both, and_false,
  subst,
}
use specora_verify.Errors.{Result, ok, err, >>=-eq-ok, ◌>>=◌, ok-injective}
use specora_verify.Platform.{Platform}
use specora_verify.Checked.{array_of}
use specora_verify.Json.{Value, obj, Items, nil, cons, Fields, get}
use specora_verify.Pattern.{key_id_pattern, has_text}
use specora_verify.Witness.Entry.{
  WitnessEntry, WitnessRegistry, matches, find_witness, lookup, derive_witness_key_id,
}
use specora_verify.Witness.Parse.{
  decode_key, fresh_org_id, fresh_key_id, witness_data, WitnessData, parse_fields, RegistryError,
  parse_witness, parse_witnesses, parse_witness_registry,
}

fresh_org_id-eq-ok :
    (P : Platform) (i : ℕ) (seen : List String) (v : Value) {org : String}
    → fresh_org_id P i seen v ≡ ok org
    → (str_mem org seen ≡ false) × (has_text P org ≡ true)
unfolding fresh_org_id
fresh_org_id-eq-ok P i seen v h = ground (arith, h)

fresh_key_id-eq-ok :
    (P : Platform) (i : ℕ) (seen : List String) (bytes : List ℕ) (v : Value) {key : String}
    → fresh_key_id P i seen bytes v ≡ ok key
    → (str_mem key seen ≡ false)
      × (key_id_pattern b'w' key ≡ true)
      × (str_eq key (derive_witness_key_id P bytes) ≡ true)
unfolding fresh_key_id
fresh_key_id-eq-ok P i seen bytes v h = ground (arith, h)

-- A witness as the registry's format wants it: its key decodes to 32 bytes, and its identifier is
-- derived from them.
pub record IsRegistered (P : Platform) (e : WitnessEntry) : Type 0 where
  pub named : has_text P e.witness_org_id ≡ true
  pub key_id_form : key_id_pattern b'w' e.public_key_id ≡ true
  pub bytes : List ℕ
  pub decoded : P.b64decode e.public_key ≡ some bytes
  pub full_key : length bytes ≡ 32
  pub derived : e.public_key_id ≡ derive_witness_key_id P bytes

bytes_of : Result RegistryError (List ℕ) → List ℕ
bytes_of (ok bytes) = bytes
bytes_of (err e) = []

decode_key-eq-ok :
    (P : Platform) (i : ℕ) (key : String) (bytes : List ℕ)
    → decode_key P i key ≡ ok bytes
    → (P.b64decode key ≡ some bytes) × (length bytes ≡ 32)
unfolding decode_key
decode_key-eq-ok P i key bytes h = ground (arith, h)

module _ (P : Platform) (i : ℕ) (orgs keys : List String) (fs : Fields) (d : WitnessData)
    {e : WitnessEntry} (h : parse_fields P i orgs keys fs d ≡ ok e) where
  org_read : fresh_org_id P i orgs d.org_data ≡ ok e.witness_org_id
  unfolding parse_fields
  org_read = ground (arith, h)

  key_read : decode_key P i e.public_key ≡ ok (bytes_of (decode_key P i e.public_key))
  unfolding parse_fields bytes_of
  key_read = ground (arith, h)

  key_id_read :
      fresh_key_id P i keys (bytes_of (decode_key P i e.public_key)) d.id_data ≡ ok e.public_key_id
  unfolding parse_fields bytes_of
  key_id_read = ground (arith, h)

  fields_IsRegistered :
      (str_mem e.witness_org_id orgs ≡ false)
      × (str_mem e.public_key_id keys ≡ false)
      × IsRegistered P e
  fields_IsRegistered =
      let bytes = bytes_of (decode_key P i e.public_key) in
      let (new_org, org_text) = fresh_org_id-eq-ok P i orgs d.org_data org_read in
      let (new_key, form, same) = fresh_key_id-eq-ok P i keys bytes d.id_data key_id_read in
      let (decoded, full) = decode_key-eq-ok P i e.public_key bytes key_read in
      (
        new_org,
        new_key,
        record {
          named = org_text;
          key_id_form = form;
          bytes = bytes;
          decoded = decoded;
          full_key = full;
          derived = (eq_iff e.public_key_id (derive_witness_key_id P bytes)).0 same;
        },
      )

pub has_text-truthy : (P : Platform) (s : String) → has_text P s ≡ true → str_truthy s ≡ true
has_text-truthy P String.[] h = absurd (cc)
has_text-truthy P (String.◌∷◌ c s) h = refl

pub key_id_pattern-truthy : (s : String) → key_id_pattern b'w' s ≡ true → str_truthy s ≡ true
key_id_pattern-truthy String.[] h = unfold key_id_pattern in absurd (cc)
key_id_pattern-truthy (String.◌∷◌ c s) h = refl

parse_witness-IsRegistered :
    (P : Platform) (i : ℕ) (orgs keys : List String) (v : Value) {e : WitnessEntry}
    → parse_witness P i orgs keys v ≡ ok e
    → (str_mem e.witness_org_id orgs ≡ false)
      × (str_mem e.public_key_id keys ≡ false)
      × IsRegistered P e
unfolding parse_witness
parse_witness-IsRegistered P i orgs keys (obj fs) h =
    let (d, read, checked) = >>=-eq-ok (witness_data i fs) (parse_fields P i orgs keys fs) h in
    fields_IsRegistered P i orgs keys fs d checked
parse_witness-IsRegistered P i orgs keys v h = absurd (ground (arith, h))

abbrev IsFreshList : Platform → List String → List String → List WitnessEntry → Type 0
IsFreshList P orgs keys es =
    Fresh (λ e. e.witness_org_id) orgs es
    × Fresh (λ e. e.public_key_id) keys es
    × All (IsRegistered P) es

parse_witnesses-Fresh :
    (P : Platform) (i : ℕ) (orgs keys : List String) (vs : Items) {es : List WitnessEntry}
    → parse_witnesses P i orgs keys vs ≡ ok es
    → IsFreshList P orgs keys es
unfolding parse_witnesses
parse_witnesses-Fresh P i orgs keys nil {es} h =
    subst (IsFreshList P orgs keys) (ok-injective [] es h) (tt, tt, tt)
parse_witnesses-Fresh P i orgs keys (cons v vs) {es} h =
    let (e, he, h1) =
      >>=-eq-ok (parse_witness P i orgs keys v)
        (λ e. do
          es ← parse_witnesses P (suc i) (e.witness_org_id ∷ orgs) (e.public_key_id ∷ keys) vs
          ok (e ∷ es))
        h in
    let (rest, hr, h2) =
      >>=-eq-ok (parse_witnesses P (suc i) (e.witness_org_id ∷ orgs) (e.public_key_id ∷ keys) vs)
        (λ es. ok (e ∷ es)) h1 in
    let (new_org, new_key, w) = parse_witness-IsRegistered P i orgs keys v he in
    let (orgs_rest, keys_rest, all_rest) =
      parse_witnesses-Fresh P (suc i) (e.witness_org_id ∷ orgs) (e.public_key_id ∷ keys) vs hr in
    subst (IsFreshList P orgs keys) (ok-injective (e ∷ rest) es h2) (
      (new_org, has_text-truthy P e.witness_org_id w.named, orgs_rest),
      (new_key, key_id_pattern-truthy e.public_key_id w.key_id_form, keys_rest),
      (w, all_rest),
    )

-- A search that matches entries by one of their fields finds each of them by its own value.
module _ (field_of : WitnessEntry → String) (org_of key_of : String → Option String)
    (matches_by : (x : String) (e : WitnessEntry)
      → matches (org_of x) (key_of x) e ≡ str_truthy x && str_eq (field_of e) x) where
  all_found :
      (seen : List String) (es : List WitnessEntry)
      → Fresh field_of seen es
      → All (λ e. find_witness (org_of (field_of e)) (key_of (field_of e)) es ≡ some e) es
  unfolding find_witness
  all_found seen [] f = tt
  all_found seen (e ∷ es) f = (
    rw (matches_by (field_of e) e, f.1, eq_refl (field_of e)),
    All-both es
        (Fresh-apart field_of (field_of e) (field_of e ∷ seen) es (rw (eq_refl (field_of e))) f.2)
        (all_found (field_of e ∷ seen) es f.2)
        (λ d apart found.
          rw (matches_by (field_of d) e, apart, and_false (str_truthy (field_of d))) found),
  )

by_org :
    (x : String) (e : WitnessEntry)
    → matches (some x) none e ≡ str_truthy x && str_eq e.witness_org_id x
unfolding matches
by_org x e = ground arith

by_key :
    (x : String) (e : WitnessEntry)
    → matches none (some x) e ≡ str_truthy x && str_eq e.public_key_id x
unfolding matches
by_key x e = ground arith

parsed_witnesses :
    (P : Platform) (fs : Fields) {r : WitnessRegistry}
    → parse_witness_registry P fs ≡ ok r
    → parse_witnesses P 0 [] [] (array_of (get "witnesses" fs)) ≡ ok r.witnesses
unfolding parse_witness_registry
parsed_witnesses P fs h = ground (arith, h)

-- In a registry that the parser accepts every witness is well formed, its key being 32 bytes of
-- which its identifier is derived; and each witness is found both by its organisation alone and by
-- its key's identifier alone, so that no two witnesses share either.
pub parse_witness_registry-IsRegistered :
    (P : Platform) (fs : Fields) {r : WitnessRegistry}
    → parse_witness_registry P fs ≡ ok r
    → All (IsRegistered P) r.witnesses
      × All (λ e. lookup r (some e.witness_org_id) none ≡ some e) r.witnesses
      × All (λ e. lookup r none (some e.public_key_id) ≡ some e) r.witnesses
unfolding lookup
parse_witness_registry-IsRegistered P fs {r} h =
    let (orgs, keys, formed) =
      parse_witnesses-Fresh P 0 [] [] (array_of (get "witnesses" fs)) (parsed_witnesses P fs h) in
    (
      formed,
      all_found (λ e. e.witness_org_id) (λ x. some x) (λ x. none) by_org [] r.witnesses orgs,
      all_found (λ e. e.public_key_id) (λ x. none) (λ x. some x) by_key [] r.witnesses keys,
    )
