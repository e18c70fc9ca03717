-- ===== src/Identity/Sound.antt =====
-- The certificates that `validate_agent_identity_certificate` in agent_identity.py finds valid.
use specora_verify.Base.{
  ◌≡◌, refl, sym, ap, ◌∙◌, inl, inr, ℕ, ℤ, ◌==◌, String, Bool, true, some, List, length,
  Option-cases, arith, ==_iff, if◌then◌else◌,
}
use specora_verify.Errors.{Result, ok, encoded, encoded-eq-ok, >>=-eq-ok, ok-injective, ◌>>=◌}
use specora_verify.Platform.{Platform}
use specora_verify.Json.{Value, str, obj, Fields, drop_key}
use specora_verify.Checked.{at, is_str, is_str-eq}
use specora_verify.Canonical.{canonical_json_bytes}
use specora_verify.Identity.Certificate.{
  Clock, Reason, IdentityResult, cert_format_version, public_key_fingerprint, parse_rfc3339,
  verify_ed25519, window_result, check_window, check_signed, check_issuer,
  validate_agent_identity_certificate, check_signature, refused, bad_signature,
}
use specora_verify.Identity.Certified.{
  IsSigned, IsCertified, principal_sound, parse_sound, window_sound,
}

verify_sound :
    (P : Platform) (T : Clock) (issuer : String) (message signature : List ℕ)
    → verify_ed25519 P T issuer message signature ≡ ok true
    → (key : List ℕ) × (T.fromhex issuer ≡ some key)
      × (P.crypto_available ≡ true)
      × (length key ≡ 32)
      × (P.verifies key signature message ≡ true)
unfolding verify_ed25519
verify_sound P T issuer message signature h =
    let library : P.crypto_available ≡ true = ground (arith, h) in
    elim (Option-cases (T.fromhex issuer)) [
      | inl e ↦ absurd (ground (arith, h, library, e))
      | inr (key, e) ↦
          let full : (length key == 32) ≡ true = ground (arith, h, library, e) in
          (key, e, library, (==_iff (length key) 32).0 full, ground (arith, h, library, e, full))
    ]

abbrev Accepts : Result Reason IdentityResult → Type 0
Accepts run = (r : IdentityResult) × (run ≡ ok r) × (r.valid ≡ true)

signed_sound :
    (P : Platform) (T : Clock) (issuer : String) (now : ℤ) (fs : Fields) (fingerprint text : String)
    → Accepts (check_signed P T issuer now fs fingerprint text)
    → (message : List ℕ) × (signature : List ℕ) × (canonical_json_bytes
          (obj (drop_key "signature" fs))
        ≡ some message)
      × (P.b64decode text ≡ some signature)
      × (verify_ed25519 P T issuer message signature ≡ ok true)
      × Accepts (check_window T now fs fingerprint)
unfolding check_signed
signed_sound P T issuer now fs fingerprint text (r, h, valid) =
    let finish : Bool → Result Reason IdentityResult = λ verified.
      if verified then check_window T now fs fingerprint else ok (refused bad_signature) in
    let (message, hm, h1) =
      >>=-eq-ok (encoded (canonical_json_bytes (obj (drop_key "signature" fs))))
        (λ message. do
          signature ← encoded (P.b64decode text)
          verified ← verify_ed25519 P T issuer message signature
          finish verified)
        h in
    let (signature, hs, h2) =
      >>=-eq-ok (encoded (P.b64decode text))
        (λ signature. do verified ← verify_ed25519 P T issuer message signature; finish verified)
        h1 in
    let (verified, hv, h3) = >>=-eq-ok (verify_ed25519 P T issuer message signature) finish h2 in
    let yes : verified ≡ true = ground (arith, h3, valid) in
    (
      message,
      signature,
      encoded-eq-ok (canonical_json_bytes (obj (drop_key "signature" fs))) hm,
      encoded-eq-ok (P.b64decode text) hs,
      hv ∙ ap (λ b. ok b) yes,
      (r, ground (arith, h3, yes), valid),
    )

module _ (P : Platform) (T : Clock) (issuer : String) (now : ℤ) (fs : Fields) where
  issuer_sound :
      (fingerprint : String) (v : Value)
      → at "signature" fs ≡ v
      → public_key_fingerprint P T issuer ≡ ok fingerprint
      → at "issuer_key_fingerprint" fs ≡ str fingerprint
      → Accepts (check_signature P T issuer now fs fingerprint v)
      → IsSigned P T issuer fs × Accepts (check_window T now fs fingerprint)
  unfolding public_key_fingerprint
  issuer_sound fingerprint (str text) e hf same run =
      let (message, signature, canonical, decoded, verified, window) =
        signed_sound P T issuer now fs fingerprint text run in
      let (key, read, library, full, verifies) =
        verify_sound P T issuer message signature verified in
      let stated : P.hexdigest key ≡ fingerprint = ground (arith, hf, read) in
      (
        record {
          key = key;
          text = text;
          message = message;
          signature = signature;
          library = library;
          key_read = read;
          key_length = full;
          fingerprint = same ∙ ap (λ t. str t) (sym stated);
          signature_text = e;
          signature_read = decoded;
          canonical = canonical;
          verifies = verifies;
        },
        window,
      )
  issuer_sound fingerprint v e hf same (r, h, valid) = absurd (ground (arith, h, valid))

  certified :
      (fingerprint : String)
      → at "format" fs ≡ str cert_format_version
      → IsSigned P T issuer fs
      → Accepts (check_window T now fs fingerprint)
      → IsCertified P T issuer now (obj fs)
  unfolding check_window
  certified fingerprint known signed (r, h, valid) =
      let (from, hf, h1) =
        >>=-eq-ok (parse_rfc3339 T (at "issued_at" fs))
          (λ from. do
            to ← parse_rfc3339 T (at "not_after" fs)
            ok (window_result now fs fingerprint from to))
          h in
      let (to, ht, h2) =
        >>=-eq-ok (parse_rfc3339 T (at "not_after" fs))
          (λ to. ok (window_result now fs fingerprint from to)) h1 in
      let result = ok-injective (window_result now fs fingerprint from to) r h2 in
      let (i, e, from_some, to_some, started, going, rest) =
        window_sound now fs fingerprint from to (ap (λ r. r.valid) result ∙ valid) in
      let (id, key, principal) = principal_sound fs fingerprint (at "principal" fs) refl rest in
      record {
        fields = fs;
        issued_at = i;
        not_after = e;
        id = id;
        principal_key = key;
        is_dict = refl;
        known_format = known;
        signed = signed;
        from_time = parse_sound T (at "issued_at" fs) i (hf ∙ ap (λ o. ok o) from_some);
        to_time = parse_sound T (at "not_after" fs) e (ht ∙ ap (λ o. ok o) to_some);
        started = started;
        not_over = going;
        principal = principal;
      }

-- A certificate is found valid only if the five checks hold: its format is known, the fingerprint
-- it states is that of the issuer's key, this key verifies its signature over the canonical bytes
-- of all of it but the signature, the time lies in its validity window, whose ends have an offset,
-- and its principal has a name and a key of 64 lowercase hexadecimal digits.
pub validate_agent_identity_certificate-IsCertified :
    (P : Platform) (T : Clock) (issuer : String) (now : ℤ) (certificate : Value)
    {r : IdentityResult}
    → validate_agent_identity_certificate P T issuer now certificate ≡ ok r
    → r.valid ≡ true
    → IsCertified P T issuer now certificate
unfolding validate_agent_identity_certificate check_issuer
validate_agent_identity_certificate-IsCertified P T issuer now (obj fs) {r} h valid =
    let known : is_str cert_format_version (at "format" fs) ≡ true = ground (arith, h, valid) in
    let run : (public_key_fingerprint P T issuer >>= check_issuer P T issuer now fs) ≡ ok r =
      ground (arith, known, h) in
    let (fingerprint, hf, h1) =
      >>=-eq-ok (public_key_fingerprint P T issuer) (check_issuer P T issuer now fs) run in
    let same : is_str fingerprint (at "issuer_key_fingerprint" fs) ≡ true =
      ground (arith, h1, valid) in
    let (signed, window) =
      issuer_sound P T issuer now fs fingerprint (at "signature" fs) refl hf
        (is_str-eq fingerprint (at "issuer_key_fingerprint" fs) same)
        (r, ground (arith, same, h1), valid) in
    certified P T issuer now fs fingerprint (is_str-eq cert_format_version (at "format" fs) known)
      signed window
validate_agent_identity_certificate-IsCertified P T issuer now v h valid =
    absurd (ground (arith, h, valid))
