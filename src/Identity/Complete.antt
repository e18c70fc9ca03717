-- ===== src/Identity/Complete.antt =====
-- Every certificate that passes the five checks of agent_identity.py is found valid.
use specora_verify.Base.{◌≡◌, refl, ◌↔◌, ℤ, String, eq_refl, str_len, true, some, length, ==_iff}
use specora_verify.Errors.{ok}
use specora_verify.Platform.{Platform}
use specora_verify.Json.{Value, Fields}
use specora_verify.Checked.{at}
use specora_verify.Identity.Certificate.{
  Clock, IdentityResult, cert_format_version, public_key_fingerprint, parse_rfc3339, verify_ed25519,
  accepted, principal_result, check_window, check_signed, check_issuer,
  validate_agent_identity_certificate,
}
use specora_verify.Identity.Certified.{IsInstant, IsSigned, HasPrincipal, IsCertified}
use specora_verify.Identity.Sound.{validate_agent_identity_certificate-IsCertified}

principal_complete :
    (fs : Fields) (fingerprint id key : String)
    → HasPrincipal fs id key
    → principal_result fs fingerprint (at "principal" fs) ≡ accepted fs fingerprint id key
unfolding principal_result
principal_complete fs fingerprint id key w =
    rw (
      w.is_dict,
      w.id_text,
      w.named,
      w.key_text,
      (==_iff (str_len key) 64).1 w.key_digits,
      w.key_hex,
    )

time_complete : (T : Clock) (v : Value) (t : ℤ) → IsInstant T v t → parse_rfc3339 T v ≡ ok (some t)
unfolding parse_rfc3339
time_complete T v t w = rw (w.is_text, w.at_instant)

signed_complete :
    (P : Platform) (T : Clock) (issuer : String) (now : ℤ) (fs : Fields)
    (s : IsSigned P T issuer fs)
    → check_signed P T issuer now fs (P.hexdigest s.key) s.text
      ≡ check_window T now fs (P.hexdigest s.key)
unfolding check_signed verify_ed25519
signed_complete P T issuer now fs s = rw (
  s.canonical,
  s.signature_read,
  s.library,
  s.key_read,
  (==_iff (length s.key) 32).1 s.key_length,
  s.verifies,
)

module _ (P : Platform) (T : Clock) (issuer : String) (now : ℤ) (certificate : Value)
    (w : IsCertified P T issuer now certificate) where
  outcome : IdentityResult
  outcome = accepted w.fields (P.hexdigest w.signed.key) w.id w.principal_key

  window_complete : check_window T now w.fields (P.hexdigest w.signed.key) ≡ ok outcome
  unfolding check_window outcome
  window_complete = rw (
    time_complete T (at "issued_at" w.fields) w.issued_at w.from_time,
    time_complete T (at "not_after" w.fields) w.not_after w.to_time,
    w.started,
    w.not_over,
    principal_complete w.fields (P.hexdigest w.signed.key) w.id w.principal_key w.principal,
  )

  run_complete : validate_agent_identity_certificate P T issuer now certificate ≡ ok outcome
  unfolding validate_agent_identity_certificate check_issuer public_key_fingerprint outcome
  run_complete =
      rw
        (
          w.is_dict,
          w.known_format,
          eq_refl cert_format_version,
          w.signed.key_read,
          w.signed.fingerprint,
          eq_refl (P.hexdigest w.signed.key),
          w.signed.signature_text,
          signed_complete P T issuer now w.fields w.signed,
        )
        window_complete

-- A certificate is found valid exactly if the five checks hold: its format is known, the
-- fingerprint it states is that of the issuer's key, this key verifies its signature over the
-- canonical bytes of all of it but the signature, the time lies in its validity window, whose ends
-- have an offset, and its principal has a name and a key of 64 lowercase hexadecimal digits.
pub validate_agent_identity_certificate-valid_iff :
    (P : Platform) (T : Clock) (issuer : String) (now : ℤ) (certificate : Value)
    → ((r : IdentityResult) × (validate_agent_identity_certificate P T issuer now certificate
          ≡ ok r)
        × (r.valid ≡ true))
      ↔ IsCertified P T issuer now certificate
unfolding outcome
validate_agent_identity_certificate-valid_iff P T issuer now certificate = (
  λ (r, h, valid).
      validate_agent_identity_certificate-IsCertified P T issuer now certificate {r = r} h valid,
  λ w. (outcome P T issuer now certificate w, run_complete P T issuer now certificate w, refl),
)
