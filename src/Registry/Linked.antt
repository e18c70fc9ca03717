-- ===== src/Registry/Linked.antt =====
-- The chains of snapshots that `verify_registry_chain` in validators/registry.py passes.
use specora_verify.Base.{
  ◌≡◌, refl, ap, ◌∙◌, ℤ, leb_ℤ, eq_iff, Bool, true, false, ◌&&◌, Option, none, some, List, [], ◌∷◌,
  All, ◌++◌, map, is_nil, arith,
}
use specora_verify.Errors.{ok, >>=-eq-ok, ok-injective, ◌>>=◌}
use specora_verify.Platform.{Platform}
use specora_verify.Registry.Snapshot.{RegistrySnapshot, snapshot_to_dict, genesis_hash}
use specora_verify.Registry.Kept.{WitnessKept, enforce_revocation_monotonicity-nil_iff}
use specora_verify.Registry.Revoked.{enforce_revocation_monotonicity}
use specora_verify.Registry.Validate.{
  Options, ValidationResult, validate_registry_snapshot, validate_parsed,
}
use specora_verify.Registry.Chain.{Walk, taken_back_status, link_errors, walk, put_result}
use specora_verify.Registry.Sealed.{IsSealed, validate_parsed-IsSealed, IsSealed-validate_parsed}

-- The place of a snapshot behind `previous`: the genesis marker of the first one; else the hash of
-- the one before, a larger version, and no revocation taken back.
abbrev pub IsLinked : Option RegistrySnapshot → RegistrySnapshot → Type 0
IsLinked none s = s.previous_registry_hash ≡ genesis_hash
IsLinked (some p) s =
    (s.previous_registry_hash ≡ p.registry_hash)
    × (leb_ℤ s.registry_version p.registry_version ≡ false)
    × All (WitnessKept p.witnesses) s.witnesses

abbrev pub IsChain : Platform → Options → Option RegistrySnapshot → List RegistrySnapshot → Type 0
IsChain P o previous [] = Unit {0}
IsChain P o previous (s ∷ rest) =
    IsSealed P o (snapshot_to_dict s) s × IsLinked previous s × IsChain P o (some s) rest

clean : Option RegistrySnapshot → RegistrySnapshot → Bool
clean previous s =
    is_nil (link_errors previous s) && is_nil (enforce_revocation_monotonicity previous s)

is_nil-eq : {A : Type 0} (xs : List A) → is_nil xs ≡ true → xs ≡ []
is_nil-eq [] h = refl
is_nil-eq (x ∷ xs) h = absurd (cc)

link_sound :
    (previous : Option RegistrySnapshot) (s : RegistrySnapshot)
    → is_nil (link_errors previous s) ≡ true
    → is_nil (enforce_revocation_monotonicity previous s) ≡ true
    → IsLinked previous s
unfolding link_errors
link_sound none s h v = (eq_iff s.previous_registry_hash genesis_hash).0 (ground (arith, h))
link_sound (some p) s h v = (
  (eq_iff s.previous_registry_hash p.registry_hash).0 (ground (arith, h)),
  ground (arith, h),
  (enforce_revocation_monotonicity-nil_iff p s).0
      (is_nil-eq (enforce_revocation_monotonicity (some p) s) v),
)

link_complete :
    (previous : Option RegistrySnapshot) (s : RegistrySnapshot)
    → IsLinked previous s
    → (link_errors previous s ≡ []) × (enforce_revocation_monotonicity previous s ≡ [])
unfolding link_errors enforce_revocation_monotonicity
link_complete none s w = (ground (arith, (eq_iff s.previous_registry_hash genesis_hash).1 w), refl)
link_complete (some p) s w = (
  ground (arith, w.1, (eq_iff s.previous_registry_hash p.registry_hash).1 w.0),
  (enforce_revocation_monotonicity-nil_iff p s).1 w.2,
)

pub walk_sound :
    (P : Platform) (o : Options) (previous : Option RegistrySnapshot)
    (results : List (ℤ × ValidationResult)) (ss : List RegistrySnapshot) {w : Walk}
    → walk P o previous results ss ≡ ok w
    → w.chain_valid ≡ true
    → IsChain P o previous ss
unfolding walk validate_registry_snapshot
walk_sound P o previous results [] h v = tt
walk_sound P o previous results (s ∷ rest) {w} h v =
    let link = link_errors previous s in
    let violations = enforce_revocation_monotonicity previous s in
    let later = put_result s.registry_version in
    let gathered : ValidationResult → Walk → Walk = λ r t. record {
      chain_valid = r.valid && is_nil link && is_nil violations && t.chain_valid;
      violations = violations ++ t.violations;
      results = t.results;
      errors = link ++ (map taken_back_status violations ++ t.errors);
    } in
    let (r, hr, h1) =
      >>=-eq-ok (validate_parsed P o s (snapshot_to_dict s))
        (λ r. do t ← walk P o (some s) (later r results) rest; ok (gathered r t)) h in
    let (t, ht, h2) =
      >>=-eq-ok (walk P o (some s) (later r results) rest) (λ t. ok (gathered r t)) h1 in
    let same = ap (λ w. w.chain_valid) (ok-injective (gathered r t) w h2) ∙ v in
    (
      validate_parsed-IsSealed P o s (snapshot_to_dict s) hr (ground (arith, same)),
      link_sound previous s (ground (arith, same)) (ground (arith, same)),
      walk_sound P o (some s) (later r results) rest ht (ground (arith, same)),
    )

pub walk_complete :
    (P : Platform) (o : Options) (previous : Option RegistrySnapshot)
    (results : List (ℤ × ValidationResult)) (ss : List RegistrySnapshot)
    → IsChain P o previous ss
    → (w : Walk) × (walk P o previous results ss ≡ ok w) × (w.chain_valid ≡ true) × (w.errors ≡ [])
unfolding walk validate_registry_snapshot
walk_complete P o previous results [] c = (
  record { chain_valid = true; violations = []; results = results; errors = [] },
  refl,
  refl,
  refl,
)
walk_complete P o previous results (s ∷ rest) c =
    let (r, hr, valid) = IsSealed-validate_parsed P o s (snapshot_to_dict s) c.0 in
    let (link, kept) = link_complete previous s c.1 in
    let (t, ht, tv, te) =
      walk_complete P o (some s) (put_result s.registry_version r results) rest c.2 in
    let final : Walk = record {
      chain_valid =
          r.valid
          && is_nil (link_errors previous s)
          && is_nil (enforce_revocation_monotonicity previous s)
          && t.chain_valid;
      violations = enforce_revocation_monotonicity previous s ++ t.violations;
      results = t.results;
      errors =
          link_errors previous s
          ++ (map taken_back_status (enforce_revocation_monotonicity previous s) ++ t.errors);
    } in
    (final, rw (hr, ht), ground (arith, valid, link, kept, tv), rw (link, kept, te))
