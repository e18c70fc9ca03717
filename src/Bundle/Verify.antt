-- ===== src/Bundle/Verify.antt =====
-- `_verify_artifact` and `verify_bundle` in validators/bundle.py.
use specora_verify.Base.{
  ℕ, suc, pos, eq_ℤ, String, str_mem, Bool, true, false, not, ◌&&◌, Option, none, some, List, [],
  ◌∷◌, ◌++◌, length, is_nil, if◌then◌else◌,
}
use specora_verify.Errors.{
  Result, ok, err, type_error, value_error, attribute_error, library_error, encoded, ◌>>=◌,
  key_error,
}
use specora_verify.Platform.{Platform}
use specora_verify.Json.{
  Value, null, bool, int, float, str, arr, obj, Items, nil, cons, Fields, end, field, get,
}
use specora_verify.Checked.{at, is_str, truthy}
use specora_verify.Hash.{sha256_hex, compute_manifest_hash}
use specora_verify.Bundle.Archive.{
  Member, content, no_such_member, damaged, JsonText, parsed, malformed, undecodable, Archive,
  BundleFile, missing, bad_zip, opened,
}

pub data ArtifactError : Type 0 where
  not_in_bundle : Value → ArtifactError
  hash_mismatch : String → Value → ArtifactError
  size_mismatch : ℕ → Value → ArtifactError

pub record ArtifactVerification : Type 0 where
  pub name : Value
  pub declared_hash : Value
  pub computed_hash : String
  pub size_bytes : ℕ
  pub valid : Bool
  pub errors : List ArtifactError

pub data BundleError : Type 0 where
  bundle_missing invalid_zip manifest_missing manifest_malformed : BundleError
  artifact_failed : Value → List ArtifactError → BundleError

-- `d.get(key, default)`
abbrev pub get_or : String → Value → Fields → Value
get_or key default fs = elim (get key fs) [ none ↦ default | some v ↦ v ]

-- `zf.open(name)` for a name that need not be a text: a list or a dict has no hash.
abbrev pub open_member : Archive → Value → Result BundleError Member
open_member z (str name) = ok (z.read name)
open_member z (arr vs) = err type_error
open_member z (obj fs) = err type_error
open_member z v = ok no_such_member

-- `actual_size == declared_size`
abbrev pub is_size : Platform → ℕ → Value → Bool
is_size P n (int m) = eq_ℤ (pos n) m
is_size P n (float r) = P.same_number (int (pos n)) (float r)
is_size P n (bool b) = P.same_number (int (pos n)) (bool b)
is_size P n v = false

abbrev pub content_errors : Platform → Value → Value → List ℕ → List ArtifactError
content_errors P declared_hash declared_size bytes =
    let computed = sha256_hex P bytes in
    let size = length bytes in
    (if is_str computed declared_hash then [] else hash_mismatch computed declared_hash ∷ [])
    ++ (if truthy declared_size && not (is_size P size declared_size)
        then size_mismatch size declared_size ∷ []
        else [])

abbrev pub check_member :
    Platform → Value → Value → Value → Member → Result BundleError ArtifactVerification
check_member P name declared_hash declared_size (content bytes) =
    let errors = content_errors P declared_hash declared_size bytes in
    ok record {
      name = name;
      declared_hash = declared_hash;
      computed_hash = sha256_hex P bytes;
      size_bytes = length bytes;
      valid = is_nil errors;
      errors = errors;
    }
check_member P name declared_hash declared_size no_such_member = ok record {
  name = name;
  declared_hash = declared_hash;
  computed_hash = "";
  size_bytes = 0;
  valid = false;
  errors = not_in_bundle name ∷ [];
}
check_member P name declared_hash declared_size damaged = err library_error

unfoldable pub verify_artifact :
    Platform → Archive → Value → Result BundleError ArtifactVerification
verify_artifact P z (obj fs) = do
  let name = get_or "name" (str "") fs
  m ← open_member z name
  check_member P name (get_or "sha256" (str "") fs) (get_or "size_bytes" (int (pos 0)) fs) m
verify_artifact P z v = err attribute_error

pub record BundleResult : Type 0 where
  pub valid : Bool
  pub manifest_valid : Bool
  pub manifest_hash : Option String
  pub schema_version : Value
  pub artifacts_verified : ℕ
  pub artifacts_failed : ℕ
  pub artifacts : List ArtifactVerification
  pub errors : List BundleError

abbrev pub rejected : BundleError → BundleResult
rejected e = record {
  valid = false;
  manifest_valid = false;
  manifest_hash = none;
  schema_version = null;
  artifacts_verified = 0;
  artifacts_failed = 0;
  artifacts = [];
  errors = e ∷ [];
}

-- The result in front of the loop.
abbrev pub of_manifest : Fields → String → BundleResult
of_manifest fs hash = record {
  valid = true;
  manifest_valid = true;
  manifest_hash = some hash;
  schema_version = at "schema_version" fs;
  artifacts_verified = 0;
  artifacts_failed = 0;
  artifacts = [];
  errors = [];
}

-- One turn of the loop, in front of those that give `rest`.
abbrev pub add_artifact : ArtifactVerification → BundleResult → BundleResult
add_artifact a rest = record rest {
  valid = a.valid && rest.valid;
  artifacts_verified = if a.valid then suc rest.artifacts_verified else rest.artifacts_verified;
  artifacts_failed = if a.valid then rest.artifacts_failed else suc rest.artifacts_failed;
  artifacts = a ∷ rest.artifacts;
  errors = (if a.valid then [] else artifact_failed a.name a.errors ∷ []) ++ rest.errors;
}

unfoldable pub verify_artifacts :
    Platform → Archive → BundleResult → Items → Result BundleError BundleResult
verify_artifacts P z start nil = ok start
verify_artifacts P z start (cons v vs) = do
  a ← verify_artifact P z v
  rest ← verify_artifacts P z start vs
  ok (add_artifact a rest)

-- What `for artifact in artifacts` goes through: of a dict its keys and of a text its characters,
-- which have no `get`.
abbrev pub iterated : Value → Result BundleError Items
iterated (arr vs) = ok vs
iterated (obj end) = ok nil
iterated (obj (field k v fs)) = err attribute_error
iterated (str String.[]) = ok nil
iterated (str (String.◌∷◌ c s)) = err attribute_error
iterated v = err type_error

unfoldable pub check_manifest : Platform → Archive → Value → Result BundleError BundleResult
check_manifest P z (obj fs) = do
  hash ← encoded (compute_manifest_hash P (obj fs))
  vs ← iterated (get_or "artifacts" (arr nil) fs)
  verify_artifacts P z (of_manifest fs hash) vs
check_manifest P z v = err attribute_error

abbrev pub check_json : Platform → Archive → JsonText → Result BundleError BundleResult
check_json P z (parsed v) = check_manifest P z v
check_json P z malformed = ok (rejected manifest_malformed)
check_json P z undecodable = err value_error

abbrev pub check_text :
    Platform → (List ℕ → JsonText) → Archive → Member → Result BundleError BundleResult
check_text P loads z (content bytes) = check_json P z (loads bytes)
check_text P loads z no_such_member = err key_error
check_text P loads z damaged = err library_error

-- `loads` reads bytes as JSON.
unfoldable pub verify_bundle :
    Platform → (List ℕ → JsonText) → BundleFile → Result BundleError BundleResult
verify_bundle P loads missing = ok (rejected bundle_missing)
verify_bundle P loads bad_zip = ok (rejected invalid_zip)
verify_bundle P loads (opened z) =
    if str_mem "manifest.json" z.names
    then check_text P loads z (z.read "manifest.json")
    else ok (rejected manifest_missing)
