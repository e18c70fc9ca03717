-- ===== src/Chain/Tamper.antt =====
-- Tamper evidence: the last hash of a valid chain fixes every entry in it, but for the signatures.
use specora_verify.Base.{
  ◌≡◌, refl, sym, ap, subst₂, ◌∙◌, ℕ, ◌+◌, suc, pos, String, true, Bool, Option, none, some, List,
  [], ◌∷◌, length, All, map, arith,
}
use specora_verify.Errors.{Result, ok, err}
use specora_verify.Json.{Value}
use specora_verify.Canonical.{emit, sort_keys, canonical_json_bytes, all_finite}
use specora_verify.Platform.{Platform}
use specora_verify.Chain.Entry.{
  Entry, ChainError, ChainResult, genesis_previous_hash, signing_key, or_else, payload_of,
  build_canonical_payload,
}
use specora_verify.Chain.Verify.{sort_entries, verify_chain, last_entry, hash_of, as_text}
use specora_verify.Chain.Log.{Body, entry_at, body_hash, build}
use specora_verify.Chain.Sound.{walk_total, sort_entries-nil, verify_chain-valid_iff}
use specora_verify.Canonical.Escape.{cons-injective}
use specora_verify.Chain.Content.{
  Content, content, chain_hash, chain_bytes, Distinguishes, chain_hash_fixes,
}

-- The bytes that the entry's hash is taken of.
abbrev payload_written : Result ChainError Value → List ℕ
payload_written (ok v) = elim (canonical_json_bytes v) [ none ↦ [] | some bytes ↦ bytes ]
payload_written (err e) = []

unfoldable pub entry_bytes : Entry → List ℕ
unfolding build_canonical_payload canonical_json_bytes all_finite
entry_bytes e = payload_written (build_canonical_payload e)

-- An entry without its signature.
abbrev pub unsigned : Entry → Entry
unsigned e = record e { signature_b64 = none }

module _ {A : Type 0} where
  abbrev reverse_onto : List A → List A → List A
  reverse_onto [] acc = acc
  reverse_onto (x ∷ xs) acc = reverse_onto xs (x ∷ acc)

  length-reverse_onto : (xs acc : List A) → length (reverse_onto xs acc) ≡ length xs + length acc
  length-reverse_onto [] acc = omega arith
  length-reverse_onto (x ∷ xs) acc = omega (arith, length-reverse_onto xs (x ∷ acc))

  reverse_onto-injective :
      (xs ys acc bcc : List A)
      → length xs ≡ length ys
      → reverse_onto xs acc ≡ reverse_onto ys bcc
      → (xs ≡ ys) × (acc ≡ bcc)
  reverse_onto-injective [] [] acc bcc l h = (refl, h)
  reverse_onto-injective [] (y ∷ ys) acc bcc l h = absurd (omega arith)
  reverse_onto-injective (x ∷ xs) [] acc bcc l h = absurd (omega arith)
  reverse_onto-injective (x ∷ xs) (y ∷ ys) acc bcc l h =
      let k = reverse_onto-injective xs ys (x ∷ acc) (y ∷ bcc) (omega arith) h in
      let e = cons-injective k.1 in ((λ i. e.0 i ∷ k.0 i), e.1)

module _ {A B : Type 0} (f : A → B) where
  map-reverse_onto :
      (xs acc : List A) → map f (reverse_onto xs acc) ≡ reverse_onto (map f xs) (map f acc)
  map-reverse_onto [] acc = refl
  map-reverse_onto (x ∷ xs) acc = map-reverse_onto xs (x ∷ acc)

module _ (P : Platform) where
  last_hash :
      (older : List Body) (b : Body) (bs : List Body)
      → hash_of (last_entry (build P (length older) (chain_hash P older) (b ∷ bs)))
        ≡ some (chain_hash P (reverse_onto (b ∷ bs) older))
  last_hash older b [] = refl
  last_hash older b (c ∷ bs) = last_hash (b ∷ older) c bs

  All-bytes :
      (Q : List ℕ → Type 0) (older bs : List Body)
      → All Q (map entry_bytes (build P (length older) (chain_hash P older) bs))
      → All Q (chain_bytes P older)
      → All Q (chain_bytes P (reverse_onto bs older))
  unfolding entry_bytes
  All-bytes Q older [] a c = c
  All-bytes Q older (b ∷ bs) a c = All-bytes Q (b ∷ older) bs a.1 (a.0, c)

  All-both :
      (xs : List (List ℕ)) (cs : List Body)
      → Distinguishes P xs (map entry_bytes (build P 0 genesis_previous_hash cs))
      → Distinguishes P xs (chain_bytes P (reverse_onto cs []))
  All-both [] cs d = tt
  All-both (x ∷ xs) cs d =
      (All-bytes (λ y. P.hexdigest x ≡ P.hexdigest y → x ≡ y) [] cs d.0 tt, All-both xs cs d.1)

  content_hash : ℕ → String → Content → String
  content_hash i p c = P.hexdigest (
      emit
        (sort_keys
          (payload_of (pos i) c.artifact_type c.artifact_sha256 p c.public_key_id c.created_at))
        [])

  content_entry : ℕ → String → Content → Entry
  content_entry i p c = record {
    index = some (pos i);
    artifact_type = some c.artifact_type;
    artifact_sha256 = some c.artifact_sha256;
    previous_entry_hash = some p;
    entry_hash = some (content_hash i p c);
    signature_b64 = none;
    public_key_id = some c.public_key_id;
    created_at = some c.created_at;
  }

  -- The content determines the entries, but for their signatures.
  unsigned-build :
      (i : ℕ) (p : String) (bs cs : List Body)
      → map content bs ≡ map content cs
      → map unsigned (build P i p bs) ≡ map unsigned (build P i p cs)
  unfolding content_hash content_entry
  unsigned-build i p [] [] h = refl
  unsigned-build i p [] (c ∷ cs) h = absurd (cc)
  unsigned-build i p (b ∷ bs) [] h = absurd (cc)
  unsigned-build i p (b ∷ bs) (c ∷ cs) h =
      let k = cons-injective h in
      let hash = ap (content_hash i p) k.0 in
      let first : unsigned (entry_at P i p b) ≡ unsigned (entry_at P i p c) =
        ap (content_entry i p) k.0 in
      let rest =
        unsigned-build (suc i) (body_hash P i p b) bs cs k.1
        ∙ ap (λ x. map unsigned (build P (suc i) x cs)) hash in
      λ m. first m ∷ rest m

last_hash_eq :
    (P : Platform) (es : List Entry) (key : Option String) (signed : Bool) {r : ChainResult}
    → verify_chain P es key signed ≡ ok r
    → r.last_entry_hash ≡ as_text (hash_of (last_entry (sort_entries es)))
unfolding verify_chain
last_hash_eq P [] key signed h = rw sort_entries-nil (ground arith)
last_hash_eq P (e ∷ es) key signed h =
    let (o, walked) = walk_total P (signing_key signed key) 0 none (sort_entries (e ∷ es)) in
    ground (arith, walked)

as_text-injective : (a b : Option String) → as_text a ≡ as_text b → a ≡ b
as_text-injective none none h = refl
as_text-injective none (some t) h = absurd (cc)
as_text-injective (some s) none h = absurd (cc)
as_text-injective (some s) (some t) h = cc

same_logs :
    (P : Platform) (bs cs : List Body)
    → Distinguishes P
        (map entry_bytes (build P 0 genesis_previous_hash bs))
        (map entry_bytes (build P 0 genesis_previous_hash cs))
    → hash_of (last_entry (build P 0 genesis_previous_hash bs))
      ≡ hash_of (last_entry (build P 0 genesis_previous_hash cs))
    → map unsigned (build P 0 genesis_previous_hash bs)
      ≡ map unsigned (build P 0 genesis_previous_hash cs)
same_logs P [] [] d h = refl
same_logs P [] (c ∷ cs) d h = absurd (cc (h ∙ last_hash P [] c cs))
same_logs P (b ∷ bs) [] d h = absurd (cc (sym h ∙ last_hash P [] b bs))
same_logs P (b ∷ bs) (c ∷ cs) d h =
    let hash : chain_hash P (reverse_onto (b ∷ bs) []) ≡ chain_hash P (reverse_onto (c ∷ cs) []) =
      ap (or_else "") (sym (last_hash P [] b bs) ∙ h ∙ last_hash P [] c cs) in
    let tells : Distinguishes P (chain_bytes P (reverse_onto (b ∷ bs) []))
        (chain_bytes P (reverse_onto (c ∷ cs) [])) =
      All-bytes P
        (λ x.
          All (λ y. P.hexdigest x ≡ P.hexdigest y → x ≡ y)
            (chain_bytes P (reverse_onto (c ∷ cs) [])))
        [] (b ∷ bs)
        (All-both P (map entry_bytes (build P 0 genesis_previous_hash (b ∷ bs))) (c ∷ cs) d) tt in
    let same =
      sym (map-reverse_onto content (b ∷ bs) [])
      ∙ chain_hash_fixes P (reverse_onto (b ∷ bs) []) (reverse_onto (c ∷ cs) [])
          (omega (arith, length-reverse_onto (b ∷ bs) []))
          (omega (arith, length-reverse_onto (c ∷ cs) [])) tells hash
      ∙ map-reverse_onto content (c ∷ cs) [] in
    let lengths =
      sym (length-reverse_onto (map content (b ∷ bs)) [])
      ∙ ap length same
      ∙ length-reverse_onto (map content (c ∷ cs)) [] in
    unsigned-build P 0 genesis_previous_hash (b ∷ bs) (c ∷ cs)
      (reverse_onto-injective (map content (b ∷ bs)) (map content (c ∷ cs)) [] []
        (omega (arith, lengths)) same).0

-- Two entry lists that the check finds valid and that end in the same hash hold the same entries, in
-- order of their index, but for the signatures, which the hashes do not cover; provided that SHA-256
-- tells apart the payloads of these entries that differ.
pub last_hash-fixes_chain :
    (P : Platform) (es fs : List Entry) (key key' : Option String) (signed signed' : Bool)
    {r s : ChainResult}
    → Distinguishes P (map entry_bytes (sort_entries es)) (map entry_bytes (sort_entries fs))
    → verify_chain P es key signed ≡ ok r
    → verify_chain P fs key' signed' ≡ ok s
    → r.valid ≡ true
    → s.valid ≡ true
    → r.last_entry_hash ≡ s.last_entry_hash
    → map unsigned (sort_entries es) ≡ map unsigned (sort_entries fs)
last_hash-fixes_chain P es fs key key' signed signed' {r} {s} d hr hs vr vs same =
    let (bs, eb, _) = (verify_chain-valid_iff P es key signed hr).0 vr in
    let (cs, ec, _) = (verify_chain-valid_iff P fs key' signed' hs).0 vs in
    let last =
      sym (ap (λ x. hash_of (last_entry x)) eb)
      ∙ as_text-injective (hash_of (last_entry (sort_entries es)))
          (hash_of (last_entry (sort_entries fs)))
          (sym (last_hash_eq P es key signed hr) ∙ same ∙ last_hash_eq P fs key' signed' hs)
      ∙ ap (λ x. hash_of (last_entry x)) ec in
    ap (map unsigned) eb
    ∙ same_logs P bs cs
        (subst₂ (λ x y. Distinguishes P (map entry_bytes x) (map entry_bytes y)) eb ec d) last
    ∙ ap (map unsigned) (sym ec)
