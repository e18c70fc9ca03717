-- ===== src/Identity/Certified.antt =====
-- The certificates that `validate_agent_identity_certificate` in agent_identity.py finds valid.
use specora_verify.Base.{
  ◌≡◌, refl, ℕ, ℤ, ltb_ℤ, leb_ℤ, String, str_len, str_all, str_truthy, true, false, Option, some,
  List, length, arith, ==_iff,
}
use specora_verify.Errors.{ok}
use specora_verify.Platform.{Platform}
use specora_verify.Json.{Value, str, obj, Fields, drop_key}
use specora_verify.Checked.{at}
use specora_verify.Pattern.{is_hex}
use specora_verify.Canonical.{canonical_json_bytes}
use specora_verify.Identity.Certificate.{
  Clock, instant, cert_format_version, utc_text, parse_rfc3339, principal_result, window_result,
  principal_key_result, principal_id_result,
}

-- A time with an offset, at this instant.
pub record IsInstant (T : Clock) (v : Value) (t : ℤ) : Type 0 where
  pub text : String
  pub is_text : v ≡ str text
  pub at_instant : T.fromisoformat (utc_text text) ≡ instant t

-- The certificate is signed by the issuer's key over all of it but the signature.
pub record IsSigned (P : Platform) (T : Clock) (issuer : String) (fs : Fields) : Type 0 where
  pub key : List ℕ
  pub text : String
  pub message : List ℕ
  pub signature : List ℕ
  pub library : P.crypto_available ≡ true
  pub key_read : T.fromhex issuer ≡ some key
  pub key_length : length key ≡ 32
  pub fingerprint : at "issuer_key_fingerprint" fs ≡ str (P.hexdigest key)
  pub signature_text : at "signature" fs ≡ str text
  pub signature_read : P.b64decode text ≡ some signature
  pub canonical : canonical_json_bytes (obj (drop_key "signature" fs)) ≡ some message
  pub verifies : P.verifies key signature message ≡ true

-- The principal: a name that is not empty, and a key of 64 lowercase hexadecimal digits.
pub record HasPrincipal (fs : Fields) (id key : String) : Type 0 where
  pub principal : Fields
  pub is_dict : at "principal" fs ≡ obj principal
  pub id_text : at "id" principal ≡ str id
  pub named : str_truthy id ≡ true
  pub key_text : at "public_key" principal ≡ str key
  pub key_digits : str_len key ≡ 64
  pub key_hex : str_all is_hex key ≡ true

-- The five checks.
pub record IsCertified (P : Platform) (T : Clock) (issuer : String) (now : ℤ) (certificate : Value)
    : Type 0 where
  pub fields : Fields
  pub issued_at : ℤ
  pub not_after : ℤ
  pub id : String
  pub principal_key : String
  pub is_dict : certificate ≡ obj fields
  pub known_format : at "format" fields ≡ str cert_format_version
  pub signed : IsSigned P T issuer fields
  pub from_time : IsInstant T (at "issued_at" fields) issued_at
  pub to_time : IsInstant T (at "not_after" fields) not_after
  pub started : ltb_ℤ now issued_at ≡ false
  pub not_over : leb_ℤ not_after now ≡ false
  pub principal : HasPrincipal fields id principal_key

key_sound :
    (fs : Fields) (fingerprint id : String) (v : Value)
    → (principal_key_result fs fingerprint id v).valid ≡ true
    → (key : String) × (v ≡ str key) × (str_len key ≡ 64) × (str_all is_hex key ≡ true)
key_sound fs fingerprint id (str key) h =
    (key, refl, (==_iff (str_len key) 64).0 (ground (arith, h)), ground (arith, h))
key_sound fs fingerprint id v h = absurd (cc)

id_sound :
    (fs : Fields) (fingerprint : String) (v key : Value)
    → (principal_id_result fs fingerprint v key).valid ≡ true
    → (id : String) × (v ≡ str id)
      × (str_truthy id ≡ true)
      × ((principal_key_result fs fingerprint id key).valid ≡ true)
id_sound fs fingerprint (str id) key h =
    let named : str_truthy id ≡ true = ground (arith, h) in
    (id, refl, named, ground (arith, h, named))
id_sound fs fingerprint v key h = absurd (cc)

pub principal_sound :
    (fs : Fields) (fingerprint : String) (v : Value)
    → at "principal" fs ≡ v
    → (principal_result fs fingerprint v).valid ≡ true
    → (id : String) × (key : String) × HasPrincipal fs id key
unfolding principal_result
principal_sound fs fingerprint (obj ps) e h =
    let (id, id_text, named, h1) = id_sound fs fingerprint (at "id" ps) (at "public_key" ps) h in
    let (key, key_text, digits, hex) = key_sound fs fingerprint id (at "public_key" ps) h1 in
    (
      id,
      key,
      record {
        principal = ps;
        is_dict = e;
        id_text = id_text;
        named = named;
        key_text = key_text;
        key_digits = digits;
        key_hex = hex;
      },
    )
principal_sound fs fingerprint v e h = absurd (cc)

pub parse_sound :
    (T : Clock) (v : Value) (t : ℤ) → parse_rfc3339 T v ≡ ok (some t) → IsInstant T v t
unfolding parse_rfc3339
parse_sound T (str s) t h = record { text = s; is_text = refl; at_instant = ground (arith, h) }
parse_sound T v t h = absurd (ground (arith, h))

pub window_sound :
    (now : ℤ) (fs : Fields) (fingerprint : String) (from to : Option ℤ)
    → (window_result now fs fingerprint from to).valid ≡ true
    → (issued_at : ℤ) × (not_after : ℤ) × (from ≡ some issued_at)
      × (to ≡ some not_after)
      × (ltb_ℤ now issued_at ≡ false)
      × (leb_ℤ not_after now ≡ false)
      × ((principal_result fs fingerprint (at "principal" fs)).valid ≡ true)
window_sound now fs fingerprint (some i) (some e) h =
    let started : ltb_ℤ now i ≡ false = ground (arith, h) in
    let going : leb_ℤ e now ≡ false = ground (arith, h, started) in
    (i, e, refl, refl, started, going, ground (arith, h, started, going))
window_sound now fs fingerprint from to h = absurd (ground (arith, h))
