-- ===== src/Bundle/Archive.antt =====
-- What Python's zipfile and json say of a bundle: all of it comes from outside the repository.
use specora_verify.Base.{ℕ, String, List}
use specora_verify.Json.{Value}

-- What `zf.open(name).read()` gives: the bytes, a `KeyError`, or an error of a damaged member.
pub data Member : Type 0 where
  content : List ℕ → Member
  no_such_member damaged : Member

-- What `json.loads(data.decode("utf-8"))` gives.
pub data JsonText : Type 0 where
  parsed : Value → JsonText
  malformed undecodable : JsonText

pub record Archive : Type 0 where
  pub names : List String
  pub read : String → Member

pub data BundleFile : Type 0 where
  missing bad_zip : BundleFile
  opened : Archive → BundleFile
