-- ===== src/Chain/Content.antt =====
-- What the hash of an entry covers, and that the hash of a chain fixes it, read from its end.
use specora_verify.Base.{
  ◌≡◌, refl, ap, ℕ, suc, ◌<◌, String, none, some, List, [], ◌∷◌, length, All, map, arith, pos_part,
}
use specora_verify.Json.{Value, int, str, obj, get}
use specora_verify.Canonical.{sort_keys}
use specora_verify.Canonical.Injective.{inject}
use specora_verify.Platform.{Platform}
use specora_verify.Chain.Entry.{genesis_previous_hash}
use specora_verify.Chain.Log.{Body, body_hash, payload_bytes}

-- The content of an entry that its hash covers; the signature is not among it.
pub record Content : Type 0 where
  pub artifact_type : String
  pub artifact_sha256 : String
  pub public_key_id : String
  pub created_at : String

abbrev pub content : Body → Content
content b = record {
  artifact_type = b.artifact_type;
  artifact_sha256 = b.artifact_sha256;
  public_key_id = b.public_key_id;
  created_at = b.created_at;
}

text_of : Value → String
text_of (str s) = s
text_of _ = ""

text_at : String → Value → String
unfolding text_of
text_at k (obj fs) = elim (get k fs) [ none ↦ "" | some v ↦ text_of v ]
text_at k _ = ""

number_of : Value → ℕ
number_of (int n) = pos_part n
number_of _ = 0

number_at : String → Value → ℕ
unfolding number_of
number_at k (obj fs) = elim (get k fs) [ none ↦ 0 | some v ↦ number_of v ]
number_at k _ = 0

-- The bytes of a payload determine its position, its link and its content.
payload_bytes-injective :
    (i j : ℕ) (p q : String) (b c : Body)
    → payload_bytes i p b ≡ payload_bytes j q c
    → (i ≡ j) × (p ≡ q) × (content b ≡ content c)
unfolding sort_keys text_at number_at
payload_bytes-injective i j p q b c h =
    let same = (inject _ _ [] [] (omega arith) (omega arith) tt tt h).0 in
    (
      ap (number_at "index") same,
      ap (text_at "previous_entry_hash") same,
      λ k. record {
        artifact_type = ap (text_at "artifact_type") same k;
        artifact_sha256 = ap (text_at "artifact_sha256") same k;
        public_key_id = ap (text_at "public_key_id") same k;
        created_at = ap (text_at "created_at") same k;
      },
    )

-- The chain read from its end: the hash behind a list of bodies, the newest first, and the bytes
-- that were hashed.
module _ (P : Platform) where
  abbrev pub chain_hash : List Body → String
  chain_hash [] = genesis_previous_hash
  chain_hash (b ∷ older) = body_hash P (length older) (chain_hash older) b

  abbrev pub chain_bytes : List Body → List (List ℕ)
  chain_bytes [] = []
  chain_bytes (b ∷ older) = payload_bytes (length older) (chain_hash older) b ∷ chain_bytes older

-- SHA-256 tells the byte strings of the two lists apart.
abbrev pub Distinguishes : Platform → List (List ℕ) → List (List ℕ) → Type 0
Distinguishes P xs ys = All (λ x. All (λ y. P.hexdigest x ≡ P.hexdigest y → x ≡ y) ys) xs

Distinguishes-tail :
    (P : Platform) (xs : List (List ℕ)) (y : List ℕ) (ys : List (List ℕ))
    → Distinguishes P xs (y ∷ ys)
    → Distinguishes P xs ys
Distinguishes-tail P [] y ys d = tt
Distinguishes-tail P (x ∷ xs) y ys d = (d.0.1, Distinguishes-tail P xs y ys d.1)

-- Chains of one length with one hash have one content.
chain_hash-injective :
    (P : Platform) (bs cs : List Body)
    → Distinguishes P (chain_bytes P bs) (chain_bytes P cs)
    → length bs ≡ length cs
    → chain_hash P bs ≡ chain_hash P cs
    → map content bs ≡ map content cs
chain_hash-injective P [] [] d l h = refl
chain_hash-injective P [] (c ∷ cs) d l h = absurd (omega arith)
chain_hash-injective P (b ∷ bs) [] d l h = absurd (omega arith)
chain_hash-injective P (b ∷ bs) (c ∷ cs) d l h =
    let same =
      payload_bytes-injective (length bs) (length cs) (chain_hash P bs) (chain_hash P cs) b c
        (d.0.0 h) in
    let rest =
      chain_hash-injective P bs cs
        (Distinguishes-tail P (chain_bytes P bs) _ (chain_bytes P cs) d.1) same.0 same.1 in
    λ k. same.2 k ∷ rest k

-- Without the length: the position is among the hashed bytes.
pub chain_hash_fixes :
    (P : Platform) (bs cs : List Body)
    → 0 < length bs
    → 0 < length cs
    → Distinguishes P (chain_bytes P bs) (chain_bytes P cs)
    → chain_hash P bs ≡ chain_hash P cs
    → map content bs ≡ map content cs
chain_hash_fixes P [] cs lb lc d h = absurd (omega arith)
chain_hash_fixes P (b ∷ bs) [] lb lc d h = absurd (omega arith)
chain_hash_fixes P (b ∷ bs) (c ∷ cs) lb lc d h =
    let same =
      payload_bytes-injective (length bs) (length cs) (chain_hash P bs) (chain_hash P cs) b c
        (d.0.0 h) in
    chain_hash-injective P (b ∷ bs) (c ∷ cs) d (ap suc same.0) h
