-- ===== src/Chain/Schema.antt =====
-- What the schema check of an entry establishes, and that an honest entry passes it.
use specora_verify.Base.{
  ◌≡◌, inl, inr, ℕ, ℤ, String, str_mem, str_len, true, Option, some, is_nil, arith, Option-cases,
}
use specora_verify.Platform.{Platform}
use specora_verify.Chain.Entry.{Entry, validate_entry_schema, valid_types}
use specora_verify.Chain.Log.{Body, IsAcceptable, entry_at, body_hash}

-- What an entry that passes the schema check holds.
pub record Complete (e : Entry) : Type 0 where
  pub body : Body
  pub index : ℤ
  pub previous : String
  pub hash : String
  pub index_eq : e.index ≡ some index
  pub artifact_type_eq : e.artifact_type ≡ some body.artifact_type
  pub artifact_sha256_eq : e.artifact_sha256 ≡ some body.artifact_sha256
  pub previous_eq : e.previous_entry_hash ≡ some previous
  pub hash_eq : e.entry_hash ≡ some hash
  pub signature_eq : e.signature_b64 ≡ some body.signature_b64
  pub key_id_eq : e.public_key_id ≡ some body.public_key_id
  pub created_at_eq : e.created_at ≡ some body.created_at
  pub known_type : str_mem body.artifact_type valid_types ≡ true
  pub full_content : str_len body.artifact_sha256 ≡ 64
  pub full_previous : str_len previous ≡ 64
  pub full_hash : str_len hash ≡ 64

module _ (e : Entry) (i : ℤ) (h : is_nil (validate_entry_schema e i) ≡ true) where
  has_index : (n : ℤ) × (e.index ≡ some n)
  unfolding validate_entry_schema
  has_index = elim (Option-cases e.index) [
    | inl absent ↦ absurd (ground arith)
    | inr present ↦ present
  ]

  has_artifact_type : (t : String) × (e.artifact_type ≡ some t) × (str_mem t valid_types ≡ true)
  unfolding validate_entry_schema
  has_artifact_type = ground arith

  has_artifact_sha256 : (d : String) × (e.artifact_sha256 ≡ some d) × (str_len d ≡ 64)
  unfolding validate_entry_schema
  has_artifact_sha256 = ground arith

  has_previous : (d : String) × (e.previous_entry_hash ≡ some d) × (str_len d ≡ 64)
  unfolding validate_entry_schema
  has_previous = ground arith

  has_hash : (d : String) × (e.entry_hash ≡ some d) × (str_len d ≡ 64)
  unfolding validate_entry_schema
  has_hash = ground arith

  has_signature : (t : String) × (e.signature_b64 ≡ some t)
  unfolding validate_entry_schema
  has_signature = ground arith

  has_key_id : (t : String) × (e.public_key_id ≡ some t)
  unfolding validate_entry_schema
  has_key_id = ground arith

  has_created_at : (t : String) × (e.created_at ≡ some t)
  unfolding validate_entry_schema
  has_created_at = ground arith

  pub schema-Complete : Complete e
  schema-Complete = record {
    body = record {
      artifact_type = has_artifact_type.0;
      artifact_sha256 = has_artifact_sha256.0;
      public_key_id = has_key_id.0;
      created_at = has_created_at.0;
      signature_b64 = has_signature.0;
    };
    index = has_index.0;
    previous = has_previous.0;
    hash = has_hash.0;
    index_eq = has_index.1;
    artifact_type_eq = has_artifact_type.1;
    artifact_sha256_eq = has_artifact_sha256.1;
    previous_eq = has_previous.1;
    hash_eq = has_hash.1;
    signature_eq = has_signature.1;
    key_id_eq = has_key_id.1;
    created_at_eq = has_created_at.1;
    known_type = has_artifact_type.2;
    full_content = has_artifact_sha256.2;
    full_previous = has_previous.2;
    full_hash = has_hash.2;
  }

-- An entry with all its fields.
abbrev pub full_entry : ℤ → String → String → Body → Entry
full_entry n p h b = record {
  index = some n;
  artifact_type = some b.artifact_type;
  artifact_sha256 = some b.artifact_sha256;
  previous_entry_hash = some p;
  entry_hash = some h;
  signature_b64 = some b.signature_b64;
  public_key_id = some b.public_key_id;
  created_at = some b.created_at;
}

pub Complete-eq : {e : Entry} (c : Complete e) → e ≡ full_entry c.index c.previous c.hash c.body
Complete-eq c = λ j. record {
  index = c.index_eq j;
  artifact_type = c.artifact_type_eq j;
  artifact_sha256 = c.artifact_sha256_eq j;
  previous_entry_hash = c.previous_eq j;
  entry_hash = c.hash_eq j;
  signature_b64 = c.signature_eq j;
  public_key_id = c.key_id_eq j;
  created_at = c.created_at_eq j;
}

-- The entry of an honest writer passes the schema check.
pub schema_entry_at :
    (P : Platform) (key : Option String) (i : ℕ) (prev : String) (b : Body) (n : ℤ)
    → str_len prev ≡ 64
    → IsAcceptable P key (body_hash P i prev b) b
    → is_nil (validate_entry_schema (entry_at P i prev b) n) ≡ true
unfolding validate_entry_schema
schema_entry_at P key i prev b n lp a = ground (arith, a.known_type, a.full_content, a.full_hash)
