-- ===== src/Stp/Sound.antt =====
-- The messages that `validate_stp_message` in validators/stp.py finds valid.
use specora_verify.Base.{
  ◌≡◌, refl, ap, subst, ◌∙◌, ◌⊎◌, inl, inr, String, str_mem, str_truthy, eq_iff, Bool, true, false,
  Option, none, some, List, [], ◌∷◌, ◌++◌, is_nil, is_nil-append, All, Bool-cases, if◌then◌else◌,
  arith,
}
use specora_verify.Errors.{Result, ok, encoded, encoded-eq-ok, >>=-eq-ok, ok-injective, ◌>>=◌}
use specora_verify.Platform.{Platform}
use specora_verify.Json.{Value, str, obj, Fields, end, has_key}
use specora_verify.Checked.{at, is_str-eq}
use specora_verify.Hash.{compute_manifest_hash}
use specora_verify.Stp.Contracts.{
  stp_protocol_version, stp_message_types, stp_response_types, stp_required_fields,
  stp_payload_required_fields, stp_result_required_fields,
}
use specora_verify.Stp.Body.{
  MessageError, entry_of, contains, absent_from, Notes, get_or, missing_payload_field,
  missing_result_field, validate_payload_values,
}
use specora_verify.Stp.Holds.{Holds, contains-Holds}
use specora_verify.Stp.Message.{
  is_request, is_response, requested_seal, VerifyResult, Request, expected_type_errors,
  known_type_errors, version_notes, missing_fields_errors, of_entry, envelope_errors, names_for,
  payload_notes, result_notes, body_notes, Seal, seal_of, seal_against, message_result,
  validate_stp_message,
}

-- What a message holds, and the fields that this must have, by its type.
abbrev pub body_of : String → Fields → Value
body_of t fs = if is_request t then get_or "payload" (obj end) fs else get_or "result" (obj end) fs

abbrev pub body_fields : String → List String
body_fields t =
    if is_request t
    then names_for t stp_payload_required_fields
    else names_for t stp_result_required_fields

-- The seal, where one is asked for and expected, is the hash of the message.
abbrev pub IsSealed : Platform → Request → Fields → Type 0
IsSealed P q fs =
    (q.check_seal ≡ false)
    ⊎ ((computed : String) × (compute_manifest_hash P (obj fs) ≡ some computed)
        × ((q.expected_seal ≡ none)
            ⊎ ((e : String) × (q.expected_seal ≡ some e)
                × ((str_truthy e ≡ false) ⊎ (computed ≡ e)))))

-- A message of type `t`, as the caller asks for it.
pub record IsMessage (P : Platform) (q : Request) (fs : Fields) (t : String) : Type 0 where
  pub known : str_mem t (stp_message_types ++ stp_response_types) ≡ true
  pub as_asked :
      (q.message_type ≡ none)
      ⊎ ((e : String) × (q.message_type ≡ some e) × ((str_truthy e ≡ false) ⊎ (t ≡ e)))
  pub version : (q.strict ≡ false) ⊎ (at "protocol_version" fs ≡ str stp_protocol_version)
  pub envelope : All (λ f. has_key f fs ≡ true) (names_for t stp_required_fields)
  pub body : All (λ f. Holds f (body_of t fs)) (body_fields t)
  pub sealed : IsSealed P q fs

is_nil-parts :
    {A : Type 0} (a b c d e f : List A)
    → is_nil (a ++ (b ++ (c ++ (d ++ (e ++ f))))) ≡ true
    → (is_nil a ≡ true)
      × (is_nil b ≡ true)
      × (is_nil c ≡ true)
      × (is_nil d ≡ true)
      × (is_nil e ≡ true)
      × (is_nil f ≡ true)
is_nil-parts a b c d e f h = ground (
  arith,
  h,
  is_nil-append a (b ++ (c ++ (d ++ (e ++ f)))),
  is_nil-append b (c ++ (d ++ (e ++ f))),
  is_nil-append c (d ++ (e ++ f)),
  is_nil-append d (e ++ f),
  is_nil-append e f,
)

asked_sound :
    (o : Option String) (t : String)
    → is_nil (expected_type_errors o (str t)) ≡ true
    → (o ≡ none) ⊎ ((e : String) × (o ≡ some e) × ((str_truthy e ≡ false) ⊎ (t ≡ e)))
asked_sound none t h = inl refl
asked_sound (some e) t h = elim (Bool-cases (str_truthy e)) [
  | inl given ↦ inr (e, refl, inr ((eq_iff t e).0 (ground (arith, given, h))))
  | inr empty ↦ inr (e, refl, inl empty)
]

version_sound :
    (strict : Bool) (v : Value)
    → is_nil (version_notes strict v).errors ≡ true
    → (strict ≡ false) ⊎ (v ≡ str stp_protocol_version)
version_sound strict v h = elim (Bool-cases strict) [
  | inl s ↦ inr (is_str-eq stp_protocol_version v (ground (arith, s, h)))
  | inr s ↦ inl s
]

fields_sound :
    (fs : Fields) (names : List String)
    → is_nil (missing_fields_errors fs names) ≡ true
    → All (λ f. has_key f fs ≡ true) names
fields_sound fs [] h = tt
fields_sound fs (n ∷ ns) h = (ground (arith, h), fields_sound fs ns (ground (arith, h)))

absent_sound :
    (e : String → MessageError) (v : Value) (names : List String) {es : List MessageError}
    → absent_from e v names ≡ ok es
    → is_nil es ≡ true
    → All (λ f. Holds f v) names
unfolding absent_from
absent_sound e v [] h n = tt
absent_sound e v (name ∷ names) {es} h n =
    let (here, hh, h1) =
      >>=-eq-ok (contains name v)
        (λ here. do rest ← absent_from e v names; ok (if here then rest else e name ∷ rest)) h in
    let (rest, hr, h2) =
      >>=-eq-ok (absent_from e v names) (λ rest. ok (if here then rest else e name ∷ rest)) h1 in
    let same = ap (λ l. is_nil l) (ok-injective (if here then rest else e name ∷ rest) es h2) ∙ n in
    let yes : here ≡ true = ground (arith, same) in
    (
      contains-Holds name v (hh ∙ ap (λ b. ok b) yes),
      absent_sound e v names hr (ground (arith, same, yes)),
    )

against_sound :
    (computed : String) (o : Option String)
    → is_nil (seal_against computed o).errors ≡ true
    → (o ≡ none) ⊎ ((e : String) × (o ≡ some e) × ((str_truthy e ≡ false) ⊎ (computed ≡ e)))
against_sound computed none h = inl refl
against_sound computed (some e) h = elim (Bool-cases (str_truthy e)) [
  | inl given ↦ inr (e, refl, inr ((eq_iff computed e).0 (ground (arith, given, h))))
  | inr empty ↦ inr (e, refl, inl empty)
]

kind_sound :
    (t : String)
    → str_truthy t ≡ true
    → is_nil (known_type_errors (str t)) ≡ true
    → str_mem t (stp_message_types ++ stp_response_types) ≡ true
kind_sound t given h = ground (arith, given, h)

seal_sound :
    (P : Platform) (q : Request) (fs : Fields) {s : Seal}
    → seal_of P q fs ≡ ok s
    → is_nil s.errors ≡ true
    → IsSealed P q fs
unfolding seal_of requested_seal
seal_sound P q fs {s} h n = elim (Bool-cases q.check_seal) [
  | inr off ↦ inl off
  | inl on ↦
      let run : requested_seal P q.expected_seal fs ≡ ok s = ground (arith, on, h) in
      let (computed, hc, same) =
        >>=-eq-ok (encoded (compute_manifest_hash P (obj fs)))
          (λ c. ok (seal_against c q.expected_seal)) run in
      let seal = ok-injective (seal_against computed q.expected_seal) s same in
      inr (
        computed,
        encoded-eq-ok (compute_manifest_hash P (obj fs)) hc,
        against_sound computed q.expected_seal (ap (λ s. is_nil s.errors) seal ∙ n),
      )
]

entry_sound :
    (fs : Fields) (entry : Option (List String))
    → is_nil (of_entry fs entry) ≡ true
    → All (λ f. has_key f fs ≡ true) (elim entry [ none ↦ [] | some names ↦ names ])
entry_sound fs none h = tt
entry_sound fs (some names) h = fields_sound fs names h

envelope_sound :
    (fs : Fields) (t : String) {es : List MessageError}
    → str_truthy t ≡ true
    → envelope_errors fs (str t) ≡ ok es
    → is_nil es ≡ true
    → All (λ f. has_key f fs ≡ true) (names_for t stp_required_fields)
envelope_sound fs t {es} given h n =
    let run : ◌≡◌ {A = Result MessageError (List MessageError)}
        (ok (of_entry fs (entry_of t stp_required_fields))) (ok es) =
      ground (arith, given, h) in
    let same = ok-injective (of_entry fs (entry_of t stp_required_fields)) es run in
    entry_sound fs (entry_of t stp_required_fields) (ap (λ l. is_nil l) same ∙ n)

payload_sound :
    (t : String) (v : Value) {notes : Notes}
    → payload_notes t v ≡ ok notes
    → is_nil notes.errors ≡ true
    → All (λ f. Holds f v) (names_for t stp_payload_required_fields)
payload_sound t v {notes} h n =
    let names = names_for t stp_payload_required_fields in
    let both : List MessageError → Notes → Notes =
      λ missing given. record { errors = missing ++ given.errors; warnings = given.warnings } in
    let (missing, hm, h1) =
      >>=-eq-ok (absent_from missing_payload_field v names)
        (λ missing. do given ← validate_payload_values t v; ok (both missing given)) h in
    let (given, hg, h2) =
      >>=-eq-ok (validate_payload_values t v) (λ given. ok (both missing given)) h1 in
    let same = ap (λ x. is_nil x.errors) (ok-injective (both missing given) notes h2) ∙ n in
    absent_sound missing_payload_field v names hm
      (ground (arith, is_nil-append missing given.errors, same))

result_sound :
    (t : String) (v : Value) {notes : Notes}
    → result_notes t v ≡ ok notes
    → is_nil notes.errors ≡ true
    → All (λ f. Holds f v) (names_for t stp_result_required_fields)
result_sound t v {notes} h n =
    let names = names_for t stp_result_required_fields in
    let only : List MessageError → Notes = λ missing. record { errors = missing; warnings = [] } in
    let (missing, hm, h1) =
      >>=-eq-ok (absent_from missing_result_field v names) (λ missing. ok (only missing)) h in
    absent_sound missing_result_field v names hm
      (ap (λ x. is_nil x.errors) (ok-injective (only missing) notes h1) ∙ n)

other_kind :
    (t : String)
    → str_mem t (stp_message_types ++ stp_response_types) ≡ true
    → is_request t ≡ false
    → is_response t ≡ true
unfolding is_request is_response
other_kind t known other = ground (arith, known, other)

body_sound :
    (fs : Fields) (t : String) {notes : Notes}
    → str_mem t (stp_message_types ++ stp_response_types) ≡ true
    → body_notes fs (str t) ≡ ok notes
    → is_nil notes.errors ≡ true
    → All (λ f. Holds f (body_of t fs)) (body_fields t)
unfolding body_notes
body_sound fs t {notes} known h n = elim (Bool-cases (is_request t)) [
  | inl request ↦
      let run : payload_notes t (get_or "payload" (obj end) fs) ≡ ok notes =
        ground (arith, request, h) in
      rw (request) (payload_sound t (get_or "payload" (obj end) fs) run n)
  | inr other ↦
      let run : result_notes t (get_or "result" (obj end) fs) ≡ ok notes =
        ground (arith, other, other_kind t known other, h) in
      rw (other) (result_sound t (get_or "result" (obj end) fs) run n)
]

-- A valid message that names its type has one of the eight known types, the type asked for, in
-- strict mode the version of the protocol, all fields that its type requires in its envelope, and
-- the seal that is expected where one is checked; and its payload or result holds all names that
-- its type requires of it: as keys if it is an object, but as elements if it is an array, and as
-- parts of the text if it is a text.
pub validate_stp_message-IsMessage :
    (P : Platform) (q : Request) (fs : Fields) (t : String) {r : VerifyResult}
    → at "message_type" fs ≡ str t
    → str_truthy t ≡ true
    → validate_stp_message P q fs ≡ ok r
    → r.valid ≡ true
    → IsMessage P q fs t
unfolding validate_stp_message
validate_stp_message-IsMessage P q fs t {r} typed given h valid =
    let v = at "message_type" fs in
    let (envelope, he, h1) =
      >>=-eq-ok (envelope_errors fs v)
        (λ envelope. do
          body ← body_notes fs v
          seal ← seal_of P q fs
          ok (message_result q fs envelope body seal))
        h in
    let (body, hb, h2) =
      >>=-eq-ok (body_notes fs v)
        (λ body. do seal ← seal_of P q fs; ok (message_result q fs envelope body seal)) h1 in
    let (seal, hs, h3) =
      >>=-eq-ok (seal_of P q fs) (λ seal. ok (message_result q fs envelope body seal)) h2 in
    let result = ok-injective (message_result q fs envelope body seal) r h3 in
    let version = version_notes q.strict (at "protocol_version" fs) in
    let (asked, kind, v_fine, e_fine, b_fine, s_fine) =
      is_nil-parts (expected_type_errors q.message_type v) (known_type_errors v) version.errors
        envelope body.errors seal.errors (ap (λ r. r.valid) result ∙ valid) in
    let known : str_mem t (stp_message_types ++ stp_response_types) ≡ true =
      kind_sound t given (subst (λ w. is_nil (known_type_errors w) ≡ true) typed kind) in
    record {
      known = known;
      as_asked =
          asked_sound q.message_type t
            (subst (λ w. is_nil (expected_type_errors q.message_type w) ≡ true) typed asked);
      version = version_sound q.strict (at "protocol_version" fs) v_fine;
      envelope =
          envelope_sound fs t {es = envelope} given
            (subst (λ w. envelope_errors fs w ≡ ok envelope) typed he) e_fine;
      body =
          body_sound fs t {notes = body} known (subst (λ w. body_notes fs w ≡ ok body) typed hb)
            b_fine;
      sealed = seal_sound P q fs {s = seal} hs s_fine;
    }
