-- ===== src/Registry/Registered.antt =====
-- What `parse_registry_snapshot` in validators/registry.py establishes.
use specora_verify.Base.{
  ◌≡◌, ℕ, suc, String, str_mem, eq_iff, true, not, some, List, [], ◌∷◌, length, All, arith, Fresh,
  find_by-Fresh, subst,
}
use specora_verify.Errors.{Result, ok, err, >>=-eq-ok, ◌>>=◌, ◌>>◌, ok-injective, require}
use specora_verify.Platform.{Platform}
use specora_verify.Json.{Value, obj, Items, nil, cons, Fields}
use specora_verify.Pattern.{key_id_pattern, has_text}
use specora_verify.Checked.{at, array_of}
use specora_verify.Witness.Entry.{derive_witness_key_id}
use specora_verify.Witness.Registered.{has_text-truthy, key_id_pattern-truthy}
use specora_verify.Registry.Snapshot.{
  RegistryKey, RegistryWitness, RegistrySnapshot, find_key, get_witness,
}
use specora_verify.Registry.Witnesses.{
  SnapshotError, KeyData, WitnessData, decode_key, read_key_data, check_derived, parse_key_fields,
  parse_key, parse_keys, read_witness_data, parse_witness_fields, parse_witness, parse_witnesses,
  duplicate_key_id, duplicate_org_id,
}
use specora_verify.Registry.Parse.{parse_registry_snapshot}

-- A key as the format wants it: it decodes to 32 bytes, and its identifier is derived from them.
pub record IsDerivedKey (P : Platform) (k : RegistryKey) : Type 0 where
  pub form : key_id_pattern b'w' k.public_key_id ≡ true
  pub bytes : List ℕ
  pub decoded : P.b64decode k.public_key ≡ some bytes
  pub full_key : length bytes ≡ 32
  pub derived : k.public_key_id ≡ derive_witness_key_id P bytes

bytes_of : Result SnapshotError (List ℕ) → List ℕ
bytes_of (ok bytes) = bytes
bytes_of (err e) = []

decode_key-eq-ok :
    (P : Platform) (i j : ℕ) (key : String) (bytes : List ℕ)
    → decode_key P i j key ≡ ok bytes
    → (P.b64decode key ≡ some bytes) × (length bytes ≡ 32)
unfolding decode_key
decode_key-eq-ok P i j key bytes h = ground (arith, h)

check_derived-eq-ok :
    (P : Platform) (i j : ℕ) (key_id : String) (bytes : List ℕ)
    → check_derived P i j key_id bytes ≡ ok tt
    → key_id ≡ derive_witness_key_id P bytes
unfolding check_derived
check_derived-eq-ok P i j key_id bytes h =
    (eq_iff key_id (derive_witness_key_id P bytes)).0 (ground (arith, h))

module _ (P : Platform) (i j : ℕ) (fs : Fields) (d : KeyData) {k : RegistryKey}
    (h : parse_key_fields P i j fs d ≡ ok k) where
  form_read : key_id_pattern b'w' k.public_key_id ≡ true
  unfolding parse_key_fields
  form_read = ground (arith, h)

  bytes_read : decode_key P i j k.public_key ≡ ok (bytes_of (decode_key P i j k.public_key))
  unfolding parse_key_fields bytes_of
  bytes_read = ground (arith, h)

  derived_read :
      check_derived P i j k.public_key_id (bytes_of (decode_key P i j k.public_key)) ≡ ok tt
  unfolding parse_key_fields bytes_of
  derived_read = ground (arith, h)

  key_fields-IsDerivedKey : IsDerivedKey P k
  key_fields-IsDerivedKey =
      let bytes = bytes_of (decode_key P i j k.public_key) in
      let (decoded, full) = decode_key-eq-ok P i j k.public_key bytes bytes_read in
      record {
        form = form_read;
        bytes = bytes;
        decoded = decoded;
        full_key = full;
        derived = check_derived-eq-ok P i j k.public_key_id bytes derived_read;
      }

parse_key-IsDerivedKey :
    (P : Platform) (i j : ℕ) (v : Value) {k : RegistryKey}
    → parse_key P i j v ≡ ok k
    → IsDerivedKey P k
unfolding parse_key
parse_key-IsDerivedKey P i j (obj fs) h =
    let (d, read, checked) = >>=-eq-ok (read_key_data i j fs) (parse_key_fields P i j fs) h in
    key_fields-IsDerivedKey P i j fs d checked
parse_key-IsDerivedKey P i j v h = absurd (ground (arith, h))

abbrev IsKeyList : Platform → List String → List RegistryKey → Type 0
IsKeyList P seen ks = Fresh (λ k. k.public_key_id) seen ks × All (IsDerivedKey P) ks

parse_keys-Fresh :
    (P : Platform) (i j : ℕ) (seen : List String) (vs : Items) {ks : List RegistryKey}
    → parse_keys P i j seen vs ≡ ok ks
    → IsKeyList P seen ks
unfolding parse_keys
parse_keys-Fresh P i j seen nil {ks} h = subst (IsKeyList P seen) (ok-injective [] ks h) (tt, tt)
parse_keys-Fresh P i j seen (cons v vs) {ks} h =
    let (k, hk, h1) =
      >>=-eq-ok (parse_key P i j v)
        (λ k. do
          require (not (str_mem k.public_key_id seen)) (duplicate_key_id i j k.public_key_id)
          ks ← parse_keys P i (suc j) (k.public_key_id ∷ seen) vs
          ok (k ∷ ks))
        h in
    let (u, new, h2) =
      >>=-eq-ok
        (require (not (str_mem k.public_key_id seen)) (duplicate_key_id i j k.public_key_id))
        (λ u. do ks ← parse_keys P i (suc j) (k.public_key_id ∷ seen) vs; ok (k ∷ ks)) h1 in
    let (rest, hr, h3) =
      >>=-eq-ok (parse_keys P i (suc j) (k.public_key_id ∷ seen) vs) (λ ks. ok (k ∷ ks)) h2 in
    let formed = parse_key-IsDerivedKey P i j v hk in
    let (fresh, all_formed) = parse_keys-Fresh P i (suc j) (k.public_key_id ∷ seen) vs hr in
    subst (IsKeyList P seen) (ok-injective (k ∷ rest) ks h3) (
      (ground (arith, new), key_id_pattern-truthy k.public_key_id formed.form, fresh),
      (formed, all_formed),
    )

-- A witness whose keys are derived, and found by their identifiers.
pub record IsWitness (P : Platform) (w : RegistryWitness) : Type 0 where
  pub named : has_text P w.witness_org_id ≡ true
  pub keys_derived : All (IsDerivedKey P) w.keys
  pub keys_found : All (λ k. find_key k.public_key_id w.keys ≡ some k) w.keys

module _ (P : Platform) (i : ℕ) (d : WitnessData) {w : RegistryWitness}
    (h : parse_witness_fields P i d ≡ ok w) where
  name_read : has_text P w.witness_org_id ≡ true
  unfolding parse_witness_fields
  name_read = ground (arith, h)

  keys_read : parse_keys P i 0 [] (array_of (some d.keys_data)) ≡ ok w.keys
  unfolding parse_witness_fields
  keys_read = ground (arith, h)

parse_witness-IsWitness :
    (P : Platform) (i : ℕ) (v : Value) {w : RegistryWitness}
    → parse_witness P i v ≡ ok w
    → IsWitness P w
unfolding parse_witness
parse_witness-IsWitness P i (obj fs) {w} h =
    let (d, read, checked) = >>=-eq-ok (read_witness_data i fs) (parse_witness_fields P i) h in
    let (fresh, derived) =
      parse_keys-Fresh P i 0 [] (array_of (some d.keys_data)) (keys_read P i d checked) in
    record {
      named = name_read P i d checked;
      keys_derived = derived;
      keys_found = find_by-Fresh (λ k. k.public_key_id) [] w.keys fresh;
    }
parse_witness-IsWitness P i v h = absurd (ground (arith, h))

abbrev IsWitnessList : Platform → List String → List RegistryWitness → Type 0
IsWitnessList P seen ws = Fresh (λ w. w.witness_org_id) seen ws × All (IsWitness P) ws

parse_witnesses-Fresh :
    (P : Platform) (i : ℕ) (seen : List String) (vs : Items) {ws : List RegistryWitness}
    → parse_witnesses P i seen vs ≡ ok ws
    → IsWitnessList P seen ws
unfolding parse_witnesses
parse_witnesses-Fresh P i seen nil {ws} h =
    subst (IsWitnessList P seen) (ok-injective [] ws h) (tt, tt)
parse_witnesses-Fresh P i seen (cons v vs) {ws} h =
    let (w, hw, h1) =
      >>=-eq-ok (parse_witness P i v)
        (λ w. do
          require (not (str_mem w.witness_org_id seen)) (duplicate_org_id i w.witness_org_id)
          ws ← parse_witnesses P (suc i) (w.witness_org_id ∷ seen) vs
          ok (w ∷ ws))
        h in
    let (u, new, h2) =
      >>=-eq-ok
        (require (not (str_mem w.witness_org_id seen)) (duplicate_org_id i w.witness_org_id))
        (λ u. do ws ← parse_witnesses P (suc i) (w.witness_org_id ∷ seen) vs; ok (w ∷ ws)) h1 in
    let (rest, hr, h3) =
      >>=-eq-ok (parse_witnesses P (suc i) (w.witness_org_id ∷ seen) vs) (λ ws. ok (w ∷ ws)) h2 in
    let formed = parse_witness-IsWitness P i v hw in
    let (fresh, all_formed) = parse_witnesses-Fresh P (suc i) (w.witness_org_id ∷ seen) vs hr in
    subst (IsWitnessList P seen) (ok-injective (w ∷ rest) ws h3) (
      (ground (arith, new), has_text-truthy P w.witness_org_id formed.named, fresh),
      (formed, all_formed),
    )

parsed_snapshot :
    (P : Platform) (fs : Fields) {s : RegistrySnapshot}
    → parse_registry_snapshot P fs ≡ ok s
    → parse_witnesses P 0 [] (array_of (some (at "witnesses" fs))) ≡ ok s.witnesses
unfolding parse_registry_snapshot
parsed_snapshot P fs h = ground (arith, h)

-- In a snapshot that the parser accepts, every key of every witness decodes to 32 bytes of which
-- its identifier is derived, every key is found among those of its witness by its identifier, and
-- every witness is found by its organisation.
pub parse_registry_snapshot-IsWitness :
    (P : Platform) (fs : Fields) {s : RegistrySnapshot}
    → parse_registry_snapshot P fs ≡ ok s
    → All (IsWitness P) s.witnesses × All (λ w. get_witness s w.witness_org_id ≡ some w) s.witnesses
unfolding get_witness
parse_registry_snapshot-IsWitness P fs {s} h =
    let (fresh, formed) =
      parse_witnesses-Fresh P 0 [] (array_of (some (at "witnesses" fs))) (parsed_snapshot P fs h) in
    (formed, find_by-Fresh (λ w. w.witness_org_id) [] s.witnesses fresh)
