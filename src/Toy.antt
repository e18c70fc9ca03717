-- ===== src/Toy.antt =====
-- A platform for the tests: a digest of the right form that tells bytes apart by their number,
-- text that stands for its own base64 decoding, and signatures that are the signed bytes.
use specora_verify.Base.{◌%◌, ◌==◌, leb, code, utf8, true, false, ◌&&◌, some, length, if◌then◌else◌}
use specora_verify.Platform.{Platform, bad_pem}

abbrev pub toy : Platform
toy = record {
  hexdigest = λ bytes.
      if length bytes % 2 == 0
      then "aaaaaaaaaaaaaaaaaaaaaaaaaaaaaaaaaaaaaaaaaaaaaaaaaaaaaaaaaaaaaaaa"
      else "bbbbbbbbbbbbbbbbbbbbbbbbbbbbbbbbbbbbbbbbbbbbbbbbbbbbbbbbbbbbbbbb";
  crypto_available = true;
  load_pem = λ _. bad_pem;
  verifies = λ _ s _. length s == 64;
  b64decode = λ s. some (utf8 s);
  b64decode_bytes = λ b. some b;
  is_decimal = λ c. leb 48 (code c) && leb (code c) 57;
  is_space = λ c. code c == 32;
  same_number = λ _ _. false;
}
