-- ===== src/Signature/Sound.antt =====
-- What an accepted signature in signature.py has passed.
use specora_verify.Base.{
  ◌≡◌, refl, ℕ, String, str_len, str_all, utf8, true, Option, none, some, List, length, arith,
  subst, ap, ◌∙◌,
}
use specora_verify.Errors.{Result, ok, err}
use specora_verify.Pattern.{is_hex}
use specora_verify.Platform.{Platform}
use specora_verify.Hash.{compute_key_fingerprint}
use specora_verify.Signature.{
  KeyFormat, SignatureError, SignatureResult, with_key, load_public_key, verify_decoded,
  verify_signature,
}

-- The key and the signature's bytes behind an accepted result.
pub record IsVerified (P : Platform) (hash : String) (loaded : Result SignatureError (List ℕ))
    (decoded : Option (List ℕ)) (r : SignatureResult) : Type 0 where
  pub key : List ℕ
  pub signature : List ℕ
  pub key_loaded : loaded ≡ ok key
  pub is_decoded : decoded ≡ some signature
  pub full_signature : length signature ≡ 64
  pub verified : P.verifies key signature (utf8 hash) ≡ true
  pub fingerprint : r.key_fingerprint ≡ some (compute_key_fingerprint P key)

with_key-IsVerified :
    (P : Platform) (hash : String) (decoded : Option (List ℕ))
    (loaded : Result SignatureError (List ℕ))
    → (with_key P hash decoded loaded).valid ≡ true
    → IsVerified P hash loaded decoded (with_key P hash decoded loaded)
with_key-IsVerified P hash (some signature) (ok key) h = record {
  key = key;
  signature = signature;
  key_loaded = refl;
  is_decoded = refl;
  full_signature = ground (arith, h);
  verified = ground (arith, h);
  fingerprint = ground (arith, h);
}
with_key-IsVerified P hash none (ok key) h = absurd (ground (arith, h))
with_key-IsVerified P hash decoded (err e) h = absurd (ground (arith, h))

decoded-valid :
    (P : Platform) (hash key : String) (decoded : Option (List ℕ)) (format : KeyFormat)
    {r : SignatureResult}
    → verify_decoded P hash decoded key format ≡ ok r
    → r.valid ≡ true
    → (str_len hash ≡ 64)
      × (str_all is_hex hash ≡ true)
      × (with_key P hash decoded (load_public_key P key format) ≡ r)
unfolding verify_decoded
decoded-valid P hash key decoded format h valid = ground (arith, h, valid)

-- A signature is accepted only for a hash of 64 hexadecimal digits, under a key that loads in the
-- given format, if it decodes to 64 bytes that the key verifies over the text of the hash; the
-- fingerprint reported is that of this key.
pub verify_signature-IsVerified :
    (P : Platform) (hash signature_b64 key : String) (format : KeyFormat) {r : SignatureResult}
    → verify_signature P hash signature_b64 key format ≡ ok r
    → r.valid ≡ true
    → (str_len hash ≡ 64)
      × (str_all is_hex hash ≡ true)
      × IsVerified P hash (load_public_key P key format) (P.b64decode signature_b64) r
unfolding verify_signature
verify_signature-IsVerified P hash signature_b64 key format {r} h valid =
    let decoded = P.b64decode signature_b64 in
    let loaded = load_public_key P key format in
    let (full, hex, same) = decoded-valid P hash key decoded format h valid in
    (
      full,
      hex,
      subst (IsVerified P hash loaded decoded) same
          (with_key-IsVerified P hash decoded loaded (ap (λ r. r.valid) same ∙ valid)),
    )
