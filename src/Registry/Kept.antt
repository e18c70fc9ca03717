-- ===== src/Registry/Kept.antt =====
-- What a clean `enforce_revocation_monotonicity` in validators/registry.py means: no revocation of a
-- witness, or of a key of a witness, is taken back.
use specora_verify.Base.{
  ◌≡◌, refl, ◌↔◌, inl, inr, String, str_eq, eq_iff, true, false, some, List, [], ◌∷◌, ◌++◌, All,
  Option-cases, Bool-cases, if◌then◌else◌, arith, subst,
}
use specora_verify.Registry.Snapshot.{RegistryKey, RegistryWitness, RegistrySnapshot}
use specora_verify.Registry.Revoked.{
  witness_reactivated, key_reactivated, last_witness, last_key, taken_back, key_violations,
  witness_violations, enforce_revocation_monotonicity,
}

-- A revoked status stays revoked.
abbrev pub Stays : String → String → Type 0
Stays before now = before ≡ "revoked" → now ≡ "revoked"

-- The key that the snapshot before lists under the same identifier, for the same witness: if it is
-- revoked, so is this one.
abbrev pub KeyKept : List RegistryKey → RegistryKey → Type 0
KeyKept previous k =
    (p : RegistryKey) → last_key k.public_key_id previous ≡ some p → Stays p.status k.status

-- The same for the witness of the same organisation, and its keys.
abbrev pub WitnessKept : List RegistryWitness → RegistryWitness → Type 0
WitnessKept previous w =
    (p : RegistryWitness)
    → last_witness w.witness_org_id previous ≡ some p
    → Stays p.status w.status × All (KeyKept p.keys) w.keys

taken_back_sound : (before now : String) → taken_back before now ≡ false → Stays before now
taken_back_sound before now h r =
    let was : str_eq before "revoked" ≡ true = (eq_iff before "revoked").1 r in
    (eq_iff now "revoked").0 (ground (arith, was, h))

taken_back_complete : (before now : String) → Stays before now → taken_back before now ≡ false
taken_back_complete before now h = elim (Bool-cases (str_eq before "revoked")) [
  | inl was ↦
      let still = (eq_iff now "revoked").1 (h ((eq_iff before "revoked").0 was)) in
      ground (arith, was, still)
  | inr other ↦ ground (arith, other)
]

append-nil : {A : Type 0} (xs ys : List A) → xs ++ ys ≡ [] → (xs ≡ []) × (ys ≡ [])
append-nil [] ys h = (refl, h)
append-nil (x ∷ xs) ys h = absurd (cc)

keys_sound :
    (previous ks : List RegistryKey) → key_violations previous ks ≡ [] → All (KeyKept previous) ks
unfolding key_violations
keys_sound previous [] h = tt
keys_sound previous (k ∷ ks) h = elim (Option-cases (last_key k.public_key_id previous)) [
  | inl e ↦ (λ p f. absurd (ground (arith, e, f)), keys_sound previous ks (ground (arith, e, h)))
  | inr (q, e) ↦
      let own =
        if taken_back q.status k.status
        then key_reactivated k.public_key_id k.status ∷ []
        else [] in
      let (first, rest) = append-nil own (key_violations previous ks) (ground (arith, e, h)) in
      let fine = taken_back_sound q.status k.status (ground (arith, first)) in
      (
        λ p f. let same : q ≡ p = cc (e, f) in subst (λ x. Stays x.status k.status) same fine,
        keys_sound previous ks rest,
      )
]

keys_complete :
    (previous ks : List RegistryKey) → All (KeyKept previous) ks → key_violations previous ks ≡ []
unfolding key_violations
keys_complete previous [] h = refl
keys_complete previous (k ∷ ks) (kept, rest) =
    elim (Option-cases (last_key k.public_key_id previous)) [
      | inl e ↦ ground (arith, e, keys_complete previous ks rest)
      | inr (q, e) ↦
          let fine = taken_back_complete q.status k.status (kept q e) in
          ground (arith, e, fine, keys_complete previous ks rest)
    ]

witnesses_sound :
    (previous ws : List RegistryWitness)
    → witness_violations previous ws ≡ []
    → All (WitnessKept previous) ws
unfolding witness_violations
witnesses_sound previous [] h = tt
witnesses_sound previous (w ∷ ws) h = elim (Option-cases (last_witness w.witness_org_id previous)) [
  | inl e ↦
      (λ p f. absurd (ground (arith, e, f)), witnesses_sound previous ws (ground (arith, e, h)))
  | inr (q, e) ↦
      let own =
        if taken_back q.status w.status
        then witness_reactivated w.witness_org_id w.status ∷ []
        else [] in
      let (first, others) =
        append-nil own (key_violations q.keys w.keys ++ witness_violations previous ws)
          (ground (arith, e, h)) in
      let (keys, rest) =
        append-nil (key_violations q.keys w.keys) (witness_violations previous ws) others in
      let fine = taken_back_sound q.status w.status (ground (arith, first)) in
      (
        λ p f.
            let same : q ≡ p = cc (e, f) in
            subst (λ x. Stays x.status w.status × All (KeyKept x.keys) w.keys) same
              (fine, keys_sound q.keys w.keys keys),
        witnesses_sound previous ws rest,
      )
]

witnesses_complete :
    (previous ws : List RegistryWitness)
    → All (WitnessKept previous) ws
    → witness_violations previous ws ≡ []
unfolding witness_violations
witnesses_complete previous [] h = refl
witnesses_complete previous (w ∷ ws) (kept, rest) =
    elim (Option-cases (last_witness w.witness_org_id previous)) [
      | inl e ↦ ground (arith, e, witnesses_complete previous ws rest)
      | inr (q, e) ↦
          let (status, keys) = kept q e in
          let fine = taken_back_complete q.status w.status status in
          ground
            (arith, e, fine, keys_complete q.keys w.keys keys, witnesses_complete previous ws rest)
    ]

-- The check finds nothing exactly if no revocation is taken back.
pub enforce_revocation_monotonicity-nil_iff :
    (p s : RegistrySnapshot)
    → (enforce_revocation_monotonicity (some p) s ≡ []) ↔ All (WitnessKept p.witnesses) s.witnesses
unfolding enforce_revocation_monotonicity
enforce_revocation_monotonicity-nil_iff p s =
    (witnesses_sound p.witnesses s.witnesses, witnesses_complete p.witnesses s.witnesses)
