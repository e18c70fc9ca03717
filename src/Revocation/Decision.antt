-- ===== src/Revocation/Decision.antt =====
-- What `RevocationList.lookup` and `check_key_trust` in revocation.py decide.
use specora_verify.Base.{
  ◌≡◌, refl, ◌↔◌, ◌⊎◌, inl, inr, String, str_eq, Bool, true, false, Option, none, some, List, [],
  ◌∷◌, ◌++◌, arith, All, eq_iff, Bool-cases, subst, any, not, ◌≢◌,
}
use specora_verify.Errors.{ok}
use specora_verify.Chain.Entry.{is_some}
use specora_verify.Platform.{Platform}
use specora_verify.Json.{Fields}
use specora_verify.Revocation.List.{
  KeyEntry, RevocationList, matches, find_key, lookup, get_status, status_of,
}
use specora_verify.Revocation.Trust.{check_key_trust, decide}
use specora_verify.Revocation.Parse.{parse_revocation_list}
use specora_verify.Revocation.Sound.{IsValidKey, parse_revocation_list-IsValidList}

-- `e` is the first entry that matches.
pub record IsFirst (key_id fingerprint : Option String) (es : List KeyEntry) (e : KeyEntry)
    : Type 0 where
  pub before : List KeyEntry
  pub after : List KeyEntry
  pub split : es ≡ before ++ (e ∷ after)
  pub passed : All (λ d. matches key_id fingerprint d ≡ false) before
  pub found : matches key_id fingerprint e ≡ true

find_key-append :
    (k f : Option String) (before after : List KeyEntry) (e : KeyEntry)
    → All (λ d. matches k f d ≡ false) before
    → matches k f e ≡ true
    → find_key k f (before ++ (e ∷ after)) ≡ some e
unfolding find_key
find_key-append k f [] after e p h = rw h
find_key-append k f (d ∷ ds) after e p h = rw (p.0, find_key-append k f ds after e p.1 h)

IsFirst-cons :
    {k f : Option String} {es : List KeyEntry} {e : KeyEntry} (d : KeyEntry)
    → matches k f d ≡ false
    → IsFirst k f es e
    → IsFirst k f (d ∷ es) e
IsFirst-cons d h w = record {
  before = d ∷ w.before;
  after = w.after;
  split = ground (arith, w.split);
  passed = (h, w.passed);
  found = w.found;
}

find_key-IsFirst :
    (k f : Option String) (es : List KeyEntry) {e : KeyEntry}
    → find_key k f es ≡ some e
    → IsFirst k f es e
unfolding find_key
find_key-IsFirst k f [] h = absurd (cc)
find_key-IsFirst k f (d ∷ ds) {e} h = elim (Bool-cases (matches k f d)) [
  | inl m ↦
      let same : d ≡ e = ground (arith, m, h) in
      record { before = []; after = ds; split = rw same; passed = tt; found = rw (← same) m }
  | inr m ↦ IsFirst-cons d m (find_key-IsFirst k f ds (ground (arith, m, h)))
]

-- The lookup finds an entry exactly when it is the first one that one of the identifiers names.
pub lookup-eq-some_iff :
    (l : RevocationList) (k f : Option String) (e : KeyEntry)
    → (lookup l k f ≡ some e) ↔ IsFirst k f l.keys e
unfolding lookup
lookup-eq-some_iff l k f e = (
  find_key-IsFirst k f l.keys,
  λ w. rw (w.split, find_key-append k f w.before w.after e w.passed w.found),
)

str_eq-refute : (s t u : String) → str_eq s t ≡ true → str_eq t u ≡ false → str_eq s u ≡ false
str_eq-refute s t u h k = rw ((eq_iff s t).0 h) k

str_eq_neg : (s t : String) → (str_eq s t ≡ false) ↔ (s ≢ t)
str_eq_neg s t = (
  λ h e. absurd (cc ((eq_iff s t).1 e)),
  λ n. elim (Bool-cases (str_eq s t)) [ inl y ↦ absurd (n ((eq_iff s t).0 y)) | inr y ↦ y ],
)

decide-trusted_iff :
    (req : Bool) (o : Option KeyEntry)
    → ((decide req o).trusted ≡ true) ↔ (
        (str_eq (status_of o) "active" ≡ true)
        ⊎ ((req ≡ false) × (str_eq (status_of o) "revoked" ≡ false)))
unfolding decide
decide-trusted_iff req o =
    let s = status_of o in
    let active : str_eq s "active" ≡ true → str_eq s "revoked" ≡ false =
      λ h. str_eq-refute s "active" "revoked" h refl in
    let retired : str_eq s "retired" ≡ true → str_eq s "revoked" ≡ false =
      λ h. str_eq-refute s "retired" "revoked" h refl in
    (λ h. ground (arith, active, retired, h), λ h. ground (arith, active, retired, h))

decide-trusted-report :
    (req : Bool) (o : Option KeyEntry) → is_some (decide req o).error ≡ not (decide req o).trusted
unfolding decide
decide-trusted-report req o = ground arith

-- With a list, a key is trusted exactly when its status in the list is active, or when trust is
-- not required and its status is not revoked; and an error is reported exactly when the key is
-- not trusted.
pub check_key_trust-trusted_iff :
    (l : RevocationList) (k f : Option String) (req : Bool)
    → (((check_key_trust (some l) k f req).trusted ≡ true)
        ↔ ((get_status l k f ≡ "active") ⊎ ((req ≡ false) × (get_status l k f ≢ "revoked"))))
      × (is_some (check_key_trust (some l) k f req).error
          ≡ not (check_key_trust (some l) k f req).trusted)
unfolding check_key_trust get_status
check_key_trust-trusted_iff l k f req =
    let o = lookup l k f in
    let s = status_of o in
    (
      (
        λ h. elim ((decide-trusted_iff req o).0 h) [
          | inl a ↦ inl ((eq_iff s "active").0 a)
          | inr p ↦ inr (p.0, (str_eq_neg s "revoked").0 p.1)
        ],
        λ h. (decide-trusted_iff req o).1 (elim h [
          | inl a ↦ inl ((eq_iff s "active").1 a)
          | inr p ↦ inr (p.0, (str_eq_neg s "revoked").1 p.1)
        ]),
      ),
      decide-trusted-report req o,
    )

find_key-All :
    {R : KeyEntry → Type 0} (k f : Option String) (es : List KeyEntry)
    → All (λ e. matches k f e ≡ true → R e) es
    → any (matches k f) es ≡ true
    → (e : KeyEntry) × (find_key k f es ≡ some e) × R e
unfolding find_key
find_key-All k f [] a h = absurd (cc)
find_key-All k f (d ∷ ds) a h = elim (Bool-cases (matches k f d)) [
  | inl m ↦ (d, rw m, a.0 m)
  | inr m ↦
      let (e, found, r) = find_key-All k f ds a.1 (ground (arith, h, m)) in (e, rw (m, found), r)
]

-- A list in which every entry that names the key is revoked, and some entry does, never makes the
-- key trusted, whatever the flag.
pub check_key_trust-revoked :
    (l : RevocationList) (k f : Option String) (req : Bool)
    → All (λ e. matches k f e ≡ true → e.status ≡ "revoked") l.keys
    → any (matches k f) l.keys ≡ true
    → (check_key_trust (some l) k f req).trusted ≡ false
unfolding check_key_trust decide lookup
check_key_trust-revoked l k f req all_revoked named =
    let (e, found, revoked) =
      find_key-All {R = λ e. e.status ≡ "revoked"} k f l.keys all_revoked named in
    rw (found, revoked)

All-middle :
    (Q : KeyEntry → Type 0) (before after : List KeyEntry) (e : KeyEntry)
    → All Q (before ++ (e ∷ after))
    → Q e
All-middle Q [] after e a = a.0
All-middle Q (d ∷ ds) after e a = All-middle Q ds after e a.1

IsFirst-All :
    (Q : KeyEntry → Type 0) {k f : Option String} {es : List KeyEntry} {e : KeyEntry}
    → IsFirst k f es e
    → All Q es
    → Q e
IsFirst-All Q {e = e} w a = All-middle Q w.before w.after e (subst (λ es. All Q es) w.split a)

active-entry :
    (o : Option KeyEntry)
    → status_of o ≡ "active"
    → (e : KeyEntry) × (o ≡ some e) × (e.status ≡ "active")
active-entry none h = absurd ((str_eq_neg "unknown" "active").0 refl h)
active-entry (some e) h = (e, refl, h)

-- A key that is trusted under `--require-trusted-key`, by a list that the parser accepted, is
-- named by an entry of the list, the first one that names it; that entry is well formed, its
-- identifier being derived from its fingerprint, and its status is active.
pub check_key_trust-parsed :
    (P : Platform) (fs : Fields) {l : RevocationList} (k f : Option String)
    → parse_revocation_list P fs ≡ ok l
    → (check_key_trust (some l) k f true).trusted ≡ true
    → (e : KeyEntry) × IsFirst k f l.keys e × IsValidKey P e × (e.status ≡ "active")
unfolding get_status
check_key_trust-parsed P fs {l} k f parsed trusted =
    elim ((check_key_trust-trusted_iff l k f true).0.0 trusted) [
      | inl active ↦
          let (e, found, s) = active-entry (lookup l k f) active in
          let first = (lookup-eq-some_iff l k f e).0 found in
          (
            e,
            first,
            IsFirst-All (IsValidKey P) first
                (parse_revocation_list-IsValidList P fs parsed).keys_form,
            s,
          )
      | inr p ↦ absurd (cc (p.0))
    ]
