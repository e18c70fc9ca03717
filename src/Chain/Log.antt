-- ===== src/Chain/Log.antt =====
-- The specification of a transparency log: what an honest writer appends. An entry is made from
-- its body, its position and the hash of the entry before it.
use specora_verify.Base.{
  ◌≡◌, ℕ, suc, pos, String, str_mem, str_len, true, Option, none, some, List, [], ◌∷◌,
}
use specora_verify.Canonical.{emit, sort_keys}
use specora_verify.Chain.Entry.{
  Entry, payload_of, valid_types, genesis_previous_hash, check_signature,
}
use specora_verify.Platform.{Platform}

pub record Body : Type 0 where
  pub artifact_type : String
  pub artifact_sha256 : String
  pub public_key_id : String
  pub created_at : String
  pub signature_b64 : String

-- The bytes that are hashed, and their hash.
abbrev pub payload_bytes : ℕ → String → Body → List ℕ
payload_bytes i prev b =
    emit
      (sort_keys
        (payload_of (pos i) b.artifact_type b.artifact_sha256 prev b.public_key_id b.created_at))
      []

abbrev pub body_hash : Platform → ℕ → String → Body → String
body_hash P i prev b = P.hexdigest (payload_bytes i prev b)

abbrev pub entry_at : Platform → ℕ → String → Body → Entry
entry_at P i prev b = record {
  index = some (pos i);
  artifact_type = some b.artifact_type;
  artifact_sha256 = some b.artifact_sha256;
  previous_entry_hash = some prev;
  entry_hash = some (body_hash P i prev b);
  signature_b64 = some b.signature_b64;
  public_key_id = some b.public_key_id;
  created_at = some b.created_at;
}

-- The log that is written from a position and a hash on.
abbrev pub build : Platform → ℕ → String → List Body → List Entry
build P i prev [] = []
build P i prev (b ∷ bs) = entry_at P i prev b ∷ build P (suc i) (body_hash P i prev b) bs

-- The signature of an entry passes, where a key is given and the crypto package is there.
abbrev pub IsSigned : Platform → Option String → String → String → Type 0
IsSigned P none hash signature = Unit
IsSigned P (some key) hash signature = (check_signature P hash signature key).0 ≡ true

pub record IsAcceptable (P : Platform) (key : Option String) (hash : String) (b : Body)
    : Type 0 where
  pub known_type : str_mem b.artifact_type valid_types ≡ true
  pub full_content : str_len b.artifact_sha256 ≡ 64
  pub full_hash : str_len hash ≡ 64
  pub signed : IsSigned P key hash b.signature_b64

abbrev pub AllAcceptable : Platform → Option String → ℕ → String → List Body → Type 0
AllAcceptable P key i prev [] = Unit
AllAcceptable P key i prev (b ∷ bs) =
    IsAcceptable P key (body_hash P i prev b) b
    × AllAcceptable P key (suc i) (body_hash P i prev b) bs

-- The entries are a log from the genesis entry on.
abbrev pub IsLog : Platform → Option String → List Entry → Type 0
IsLog P key es =
    (bs : List Body) × (es ≡ build P 0 genesis_previous_hash bs)
    × AllAcceptable P key 0 genesis_previous_hash bs
