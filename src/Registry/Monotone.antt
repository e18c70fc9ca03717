-- ===== src/Registry/Monotone.antt =====
-- Revocations along a chain of snapshots of validators/registry.py.
use specora_verify.Base.{
  ◌≡◌, refl, ap, sym, ◌⊎◌, if◌then◌else◌, ◌∙◌, String, str_eq, eq_iff, true, false, Option, none,
  some, List, [], ◌∷◌, ◌++◌, All, arith, Option-cases, inl, inr,
}
use specora_verify.Chain.Entry.{is_some}
use specora_verify.Registry.Snapshot.{RegistryWitness, RegistrySnapshot}
use specora_verify.Registry.Revoked.{
  Violation, witness_reactivated, last_witness, taken_back, key_violations, witness_violations,
  enforce_revocation_monotonicity,
}

-- The status under which a snapshot lists an organisation.
abbrev pub status_in : String → RegistrySnapshot → Option String
status_in org s = elim (last_witness org s.witnesses) [ none ↦ none | some w ↦ some w.status ]

append-nil : {A : Type 0} (xs ys : List A) → xs ++ ys ≡ [] → (xs ≡ []) × (ys ≡ [])
append-nil [] ys h = (refl, h)
append-nil (x ∷ xs) ys h = absurd (cc)

-- The violations of the first witness, and those of the others.
abbrev own_violations : RegistryWitness → RegistryWitness → List Violation
own_violations p w =
    if taken_back p.status w.status then witness_reactivated w.witness_org_id w.status ∷ [] else []

tail_clean :
    (ps : List RegistryWitness) (v : RegistryWitness) (vs : List RegistryWitness)
    → witness_violations ps (v ∷ vs) ≡ []
    → witness_violations ps vs ≡ []
unfolding witness_violations
tail_clean ps v vs h = elim (Option-cases (last_witness v.witness_org_id ps)) [
  | inl e ↦ ground (arith, e, h)
  | inr (p, e) ↦
      let more = key_violations p.keys v.keys ++ witness_violations ps vs in
      let rest = append-nil (own_violations p v) more (ground (arith, e, h)) in
      (append-nil (key_violations p.keys v.keys) (witness_violations ps vs) rest.1).1
]

head_clean :
    (ps : List RegistryWitness) (p v : RegistryWitness) (vs : List RegistryWitness)
    → last_witness v.witness_org_id ps ≡ some p
    → witness_violations ps (v ∷ vs) ≡ []
    → taken_back p.status v.status ≡ false
unfolding witness_violations
head_clean ps p v vs e h =
    let more = key_violations p.keys v.keys ++ witness_violations ps vs in
    let own = append-nil (own_violations p v) more (ground (arith, e, h)) in ground (arith, own.0)

still_revoked :
    (before now : String) → taken_back before now ≡ false → before ≡ "revoked" → now ≡ "revoked"
still_revoked before now h r =
    let was : str_eq before "revoked" ≡ true = (eq_iff before "revoked").1 r in
    (eq_iff now "revoked").0 (ground (arith, was, h))

last_witness-tail :
    (org : String) (v w : RegistryWitness) (vs : List RegistryWitness)
    → last_witness org (v ∷ vs) ≡ some w
    → (last_witness org vs ≡ some w) ⊎ ((str_eq v.witness_org_id org ≡ true) × (v ≡ w))
last_witness-tail org v w vs h = elim (Option-cases (last_witness org vs)) [
  | inr (u, e) ↦ inl (ground (arith, e, h))
  | inl e ↦ inr (ground (arith, e, h))
]

witness_kept :
    (ps ws : List RegistryWitness) (org : String) (p w : RegistryWitness)
    → witness_violations ps ws ≡ []
    → last_witness org ps ≡ some p
    → p.status ≡ "revoked"
    → last_witness org ws ≡ some w
    → w.status ≡ "revoked"
witness_kept ps [] org p w h hp r hw = absurd (cc)
witness_kept ps (v ∷ vs) org p w h hp r hw = elim (last_witness-tail org v w vs hw) [
  | inl later ↦ witness_kept ps vs org p w (tail_clean ps v vs h) hp r later
  | inr (same, is_w) ↦
      let found = ap (λ o. last_witness o ps) ((eq_iff v.witness_org_id org).0 same) ∙ hp in
      ap (λ x. x.status) (sym is_w)
      ∙ still_revoked p.status v.status (head_clean ps p v vs found h) r
]

-- Consecutive snapshots without a violation.
abbrev pub AllMonotone : RegistrySnapshot → List RegistrySnapshot → Type 0
AllMonotone previous [] = Unit {0}
AllMonotone previous (s ∷ rest) =
    (enforce_revocation_monotonicity (some previous) s ≡ []) × AllMonotone s rest

snapshot_kept :
    (org : String) (p s : RegistrySnapshot)
    → enforce_revocation_monotonicity (some p) s ≡ []
    → status_in org p ≡ some "revoked"
    → is_some (status_in org s) ≡ true
    → status_in org s ≡ some "revoked"
unfolding enforce_revocation_monotonicity
snapshot_kept org p s h revoked listed = elim (Option-cases (last_witness org p.witnesses)) [
  | inl e ↦ absurd (ground (arith, e, revoked))
  | inr (pw, e) ↦ elim (Option-cases (last_witness org s.witnesses)) [
    | inl f ↦ absurd (ground (arith, f, listed))
    | inr (w, f) ↦
        let kept =
          witness_kept p.witnesses s.witnesses org pw w h e (ground (arith, e, revoked)) f in
        ground (arith, f, kept)
  ]
]

-- Along snapshots of which each passes the check against the one before, an organisation that the
-- first lists as revoked is revoked in all of them, if all of them list it.
pub enforce_revocation_monotonicity-revoked :
    (org : String) (p : RegistrySnapshot) (rest : List RegistrySnapshot)
    → AllMonotone p rest
    → status_in org p ≡ some "revoked"
    → All (λ s. is_some (status_in org s) ≡ true) rest
    → All (λ s. status_in org s ≡ some "revoked") rest
enforce_revocation_monotonicity-revoked org p [] m revoked listed = tt
enforce_revocation_monotonicity-revoked org p (s ∷ rest) m revoked listed =
    let kept = snapshot_kept org p s m.0 revoked listed.0 in
    (kept, enforce_revocation_monotonicity-revoked org s rest m.1 kept listed.1)
