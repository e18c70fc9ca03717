-- ===== src/Signature/Tests.antt =====
-- A signature on the test platform.
use specora_verify.Base.{◌≡◌, refl, String, str_len, str_all, utf8, true, some, []}
use specora_verify.Errors.{ok}
use specora_verify.Pattern.{is_hex}
use specora_verify.Toy.{toy}
use specora_verify.Hash.{compute_key_fingerprint}
use specora_verify.Signature.{
  base64, SignatureResult, load_public_key, verify_decoded, verify_signature,
}
use specora_verify.Signature.Sound.{IsVerified, verify_signature-IsVerified}

abbrev digest : String
digest = "0123456789abcdef0123456789abcdef0123456789abcdef0123456789abcdef"

abbrev key : String
key = "0123456789abcdef0123456789abcdef"

abbrev accepted : SignatureResult
accepted = record {
  valid = true;
  key_fingerprint = some (compute_key_fingerprint toy (utf8 key));
  errors = [];
}

run_result : verify_signature toy digest digest key base64 ≡ ok accepted
unfolding verify_signature verify_decoded load_public_key utf8
run_result = refl

verify_signature-IsVerified_example :
    (str_len digest ≡ 64)
    × (str_all is_hex digest ≡ true)
    × IsVerified toy digest (load_public_key toy key base64) (toy.b64decode digest) accepted
verify_signature-IsVerified_example =
    verify_signature-IsVerified toy digest digest key base64 {r = accepted} run_result refl
