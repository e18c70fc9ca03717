-- ===== src/Chain/Accept.antt =====
-- One round of the loop accepts exactly the entry that an honest writer would have appended there.
use specora_verify.Base.{
  ◌≡◌, refl, sym, ap, ◌∙◌, inl, inr, ℕ, zero, suc, ℤ, pos, eq_ℤ, eq_ℤ_iff, String, str_eq, str_len,
  str_truthy, eq_iff, eq_refl, Bool, true, false, Option, none, some, List, [], is_nil, arith,
  subst, if◌then◌else◌, Bool-cases,
}
use specora_verify.Errors.{Result, ok, ◌>>=◌}
use specora_verify.Canonical.{canonical_json_bytes, emit, sort_keys, all_finite}
use specora_verify.Platform.{Platform}
use specora_verify.Signature.{SignatureError}
use specora_verify.Chain.Entry.{
  Entry, ChainError, EntryVerification, validate_entry_schema, genesis_previous_hash, link_errors,
  payload_of, hash_errors, check_entry_signature, check_signature, signature_errors, or_else,
}
use specora_verify.Chain.Log.{Body, IsAcceptable, IsSigned, entry_at, body_hash}
use specora_verify.Chain.Verify.{check_entry}
use specora_verify.Chain.Schema.{
  Complete, schema-Complete, full_entry, Complete-eq, schema_entry_at,
}

-- The previous hash that the loop carries is the one that the entry must link to.
abbrev pub Carries : ℕ → Option String → String → Type 0
Carries zero previous_hash prev = prev ≡ genesis_previous_hash
Carries (suc i) previous_hash prev = (previous_hash ≡ some prev) × (str_len prev ≡ 64)

long_is_truthy : (s : String) → str_len s ≡ 64 → str_truthy s ≡ true
long_is_truthy String.[] h = absurd (omega arith)
long_is_truthy (String.◌∷◌ c s) h = refl

-- No link error: the entry links to the previous hash.
pub link_sound :
    (i : ℕ) (index : ℤ) (previous_hash : Option String) (prev link : String)
    → Carries i previous_hash prev
    → is_nil (link_errors i index previous_hash (some link)) ≡ true
    → link ≡ prev
link_sound zero index ph prev link c h = ground (arith, eq_iff link genesis_previous_hash)
link_sound (suc i) index (some p) prev link c h =
    ground (arith, eq_iff link p, long_is_truthy prev c.1)
link_sound (suc i) index none prev link c h = absurd (cc (c.0))

pub link_complete :
    (i : ℕ) (index : ℤ) (previous_hash : Option String) (prev : String)
    → Carries i previous_hash prev
    → is_nil (link_errors i index previous_hash (some prev)) ≡ true
link_complete zero index ph prev c = ground (arith, eq_iff prev genesis_previous_hash)
link_complete (suc i) index (some p) prev c = ground (arith, eq_iff prev p)
link_complete (suc i) index none prev c = refl

signed_sound :
    (P : Platform) (key : Option String) (n : ℤ) (p h : String) (b : Body)
    → is_nil (check_entry_signature P key (full_entry n p h b) n) ≡ true
    → IsSigned P key h b.signature_b64
unfolding check_entry_signature
signed_sound P none n p h b k = tt
signed_sound P (some x) n p h b k = signed x (check_signature P h b.signature_b64 x) k
  where
    signed :
        (x : String) (o : Bool × Option SignatureError)
        → is_nil (signature_errors n o) ≡ true
        → o.0 ≡ true
    signed x (true, e) k = refl
    signed x (false, e) k = absurd (cc)

signed_complete :
    (P : Platform) (key : Option String) (n : ℤ) (p h : String) (b : Body)
    → IsSigned P key h b.signature_b64
    → is_nil (check_entry_signature P key (full_entry n p h b) n) ≡ true
unfolding check_entry_signature
signed_complete P none n p h b k = refl
signed_complete P (some x) n p h b k = signed x (check_signature P h b.signature_b64 x) k
  where
    signed :
        (x : String) (o : Bool × Option SignatureError)
        → o.0 ≡ true
        → is_nil (signature_errors n o) ≡ true
    signed x (true, e) k = refl
    signed x (false, e) k = absurd (cc)

map_total :
    {E A B : Type 0} (m : Result E A) (f : A → B) {a : A}
    → m ≡ ok a
    → (b : B) × ((m >>= λ x. ok (f x)) ≡ ok b)
map_total m f {a} h = (f a, ap (λ y. y >>= λ x. ok (f x)) h)

module _ (P : Platform) (key : Option String) (i : ℕ) (ph : Option String) where
  -- A kept `result.valid` means that the schema check passed.
  kept_schema :
      (e : Entry) {r : EntryVerification}
      → check_entry P key i ph e ≡ ok (true, r)
      → is_nil (validate_entry_schema e (or_else (pos i) e.index)) ≡ true
  unfolding check_entry
  kept_schema e h = ground arith

  -- and for a complete entry, that each of the other checks passed.
  kept_checks :
      (n : ℤ) (p h : String) (b : Body) {r : EntryVerification}
      → check_entry P key i ph (full_entry n p h b) ≡ ok (true, r)
      → (eq_ℤ n (pos i) ≡ true)
        × (is_nil (link_errors i n ph (some p)) ≡ true)
        × (str_eq h (
              P.hexdigest (
                emit
                  (sort_keys
                    (payload_of n b.artifact_type b.artifact_sha256 p b.public_key_id b.created_at))
                  []))
            ≡ true)
        × (is_nil (check_entry_signature P key (full_entry n p h b) n) ≡ true)
  unfolding check_entry hash_errors canonical_json_bytes all_finite
  kept_checks n p h b k = let s = kept_schema (full_entry n p h b) k in ground arith

  -- The round accepts only the entry that an honest writer appends here.
  pub check_entry_sound :
      (prev : String) (e : Entry) {r : EntryVerification}
      → Carries i ph prev
      → check_entry P key i ph e ≡ ok (true, r)
      → (b : Body) × (e ≡ entry_at P i prev b) × IsAcceptable P key (body_hash P i prev b) b
  check_entry_sound prev e c h =
      let s = schema-Complete e (or_else (pos i) e.index) (kept_schema e h) in
      let same = Complete-eq s in
      let k =
        kept_checks s.index s.previous s.hash s.body (ap (check_entry P key i ph) (sym same) ∙ h) in
      let at : s.index ≡ pos i = (eq_ℤ_iff s.index (pos i)).0 k.0 in
      let back : s.previous ≡ prev = link_sound i s.index ph prev s.previous c k.1 in
      let hash : s.hash ≡ body_hash P i prev s.body =
        (eq_iff s.hash _).0 k.2
        ∙ ap
            (λ (n : ℤ). P.hexdigest (
              emit
                (sort_keys (
                  payload_of n s.body.artifact_type s.body.artifact_sha256 s.previous
                    s.body.public_key_id s.body.created_at))
                []))
            at
        ∙ ap (λ (p : String). body_hash P i p s.body) back in
      (
        s.body,
        same
            ∙ ap (λ (n : ℤ). full_entry n s.previous s.hash s.body) at
            ∙ ap (λ (p : String). full_entry (pos i) p s.hash s.body) back
            ∙ ap (λ (x : String). full_entry (pos i) prev x s.body) hash,
        record {
          known_type = s.known_type;
          full_content = s.full_content;
          full_hash = subst (λ x. str_len x ≡ 64) hash s.full_hash;
          signed =
              subst (λ x. IsSigned P key x s.body.signature_b64) hash
                (signed_sound P key s.index s.previous s.hash s.body k.3);
        },
      )

  hash_errors_total :
      (e : Entry) (n : ℤ) → Complete e → (hs : List ChainError) × (hash_errors P e n ≡ ok hs)
  unfolding hash_errors canonical_json_bytes all_finite
  hash_errors_total e n c = (_, ap (λ y. hash_errors P y n) (Complete-eq c))

  -- No entry makes a round raise: the hash is computed only where the schema check has passed.
  pub check_entry_total :
      (e : Entry) → (o : Bool × EntryVerification) × (check_entry P key i ph e ≡ ok o)
  unfolding check_entry
  check_entry_total e =
      let n = or_else (pos i) e.index in
      let s = is_nil (validate_entry_schema e n) in
      let hashes : (hs : List ChainError) × ((if s then hash_errors P e n else ok []) ≡ ok hs) =
        elim (Bool-cases s) [
          | inl passed ↦
              let (hs, same) = hash_errors_total e n (schema-Complete e n passed) in
              (hs, rw passed same)
          | inr failed ↦ ([], rw failed)
        ] in
      map_total (if s then hash_errors P e n else ok []) _ hashes.1

  -- and accepts that entry.
  pub check_entry_complete :
      (prev : String) (b : Body) (o : Bool × EntryVerification)
      → Carries i ph prev
      → str_len prev ≡ 64
      → IsAcceptable P key (body_hash P i prev b) b
      → check_entry P key i ph (entry_at P i prev b) ≡ ok o
      → o.0 ≡ true
  unfolding check_entry hash_errors canonical_json_bytes all_finite
  check_entry_complete prev b o c lp a h = ground (
    arith,
    schema_entry_at P key i prev b (pos i) lp a,
    link_complete i (pos i) ph prev c,
    eq_refl (body_hash P i prev b),
    signed_complete P key (pos i) prev (body_hash P i prev b) b a.signed,
  )
