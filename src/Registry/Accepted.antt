-- ===== src/Registry/Accepted.antt =====
-- When `verify_registry_chain` in validators/registry.py passes, and what follows for revocations.
use mathlib.Core.List.{Permᴰ}
use specora_verify.Base.{
  ◌≡◌, refl, ap, ◌∙◌, sym, subst, ◌↔◌, String, true, false, Option, none, some, List, [], ◌∷◌, ◌++◌,
  is_nil, All, arith,
}
use specora_verify.Errors.{ok, >>=-eq-ok, ok-injective}
use specora_verify.Platform.{Platform}
use specora_verify.Chain.Entry.{is_some}
use specora_verify.Registry.Snapshot.{RegistrySnapshot}
use specora_verify.Registry.Monotone.{
  AllMonotone, status_in, enforce_revocation_monotonicity-revoked,
}
use specora_verify.Registry.Validate.{Options, Input}
use specora_verify.Registry.Chain.{
  ChainResult, Parsed, all_read, unread, Walk, pass, parse_all, sort_snapshots, walk, chain_result,
  verify_parsed, verify_registry_chain,
}
use specora_verify.Registry.Kept.{enforce_revocation_monotonicity-nil_iff}
use specora_verify.Registry.Sorted.{sort_snapshots-Permᴰ}
use specora_verify.Registry.Linked.{IsChain, walk_sound, walk_complete}

-- The snapshots are read, there is one, and put in an order, the one of their versions, they are a
-- chain, in which the versions increase.
pub record IsAccepted (P : Platform) (o : Options) (xs : List Input) : Type 0 where
  pub snapshots : List RegistrySnapshot
  pub read : parse_all P 0 xs ≡ ok (all_read snapshots)
  pub some_given : is_nil xs ≡ false
  pub sorted : List RegistrySnapshot
  pub in_order : sorted ≡ sort_snapshots snapshots
  pub same_snapshots : Permᴰ sorted snapshots
  pub chain : IsChain P o none sorted

pass-valid :
    (ss : List RegistrySnapshot) (w : Walk)
    → (chain_result ss w).status ≡ pass
    → w.chain_valid ≡ true
pass-valid ss w h = ground (arith, h)

valid-pass :
    (ss : List RegistrySnapshot) (w : Walk)
    → w.chain_valid ≡ true
    → w.errors ≡ []
    → (chain_result ss w).status ≡ pass
valid-pass ss w v e = ground (arith, v, e)

parsed_sound :
    (P : Platform) (o : Options) (p : Parsed) {c : ChainResult}
    → verify_parsed P o p ≡ ok c
    → c.status ≡ pass
    → (ss : List RegistrySnapshot) × (p ≡ all_read ss) × IsChain P o none (sort_snapshots ss)
parsed_sound P o (unread i e) h s = absurd (ground (arith, h, s))
parsed_sound P o (all_read ss) {c} h s =
    let sorted = sort_snapshots ss in
    let (w, hw, same) = >>=-eq-ok (walk P o none [] sorted) (λ w. ok (chain_result sorted w)) h in
    let result = ok-injective (chain_result sorted w) c same in
    (
      ss,
      refl,
      walk_sound P o none [] sorted hw (pass-valid sorted w (ap (λ c. c.status) result ∙ s)),
    )

-- The verdict is `pass` exactly if at least one snapshot is given, all of them are read, and all of
-- them, put in the order of their versions, are a chain: each hashes to its stated hash and its
-- signature passes where it is looked at, the first has the genesis marker, and each other one has
-- the hash of the one before, a larger version, and takes no revocation of the one before back: an
-- organisation that was revoked is still revoked where it is listed, and so is each of its keys
-- where the same organisation lists it.
pub verify_registry_chain-pass_iff :
    (P : Platform) (o : Options) (xs : List Input)
    → ((c : ChainResult) × (verify_registry_chain P o xs ≡ ok c) × (c.status ≡ pass))
      ↔ IsAccepted P o xs
unfolding verify_registry_chain
verify_registry_chain-pass_iff P o [] =
    (λ (c, h, s). absurd (ground (arith, h, s)), λ w. absurd (cc (w.some_given)))
verify_registry_chain-pass_iff P o (x ∷ xs) = (
  λ (c, h, s).
      let (p, hp, h1) = >>=-eq-ok (parse_all P 0 (x ∷ xs)) (verify_parsed P o) h in
      let (ss, e, chain) = parsed_sound P o p h1 s in
      record {
        snapshots = ss;
        read = hp ∙ ap ok e;
        some_given = refl;
        sorted = sort_snapshots ss;
        in_order = refl;
        same_snapshots = sort_snapshots-Permᴰ ss;
        chain = chain;
      },
  λ w.
      let sorted = sort_snapshots w.snapshots in
      let (t, ht, v, e) =
        walk_complete P o none [] sorted (subst (IsChain P o none) w.in_order w.chain) in
      (chain_result sorted t, rw (w.read, ht), valid-pass sorted t v e),
)

all_read_injective : (ss ts : List RegistrySnapshot) → all_read ss ≡ all_read ts → ss ≡ ts
all_read_injective ss ts h = cc

IsChain-AllMonotone :
    (P : Platform) (o : Options) (s : RegistrySnapshot) (rest : List RegistrySnapshot)
    → IsChain P o (some s) rest
    → AllMonotone s rest
IsChain-AllMonotone P o s [] c = tt
IsChain-AllMonotone P o s (t ∷ rest) c =
    ((enforce_revocation_monotonicity-nil_iff s t).1 c.1.2, IsChain-AllMonotone P o t rest c.2)

IsChain-after :
    (P : Platform) (o : Options) (previous : Option RegistrySnapshot)
    (before : List RegistrySnapshot) (s : RegistrySnapshot) (after : List RegistrySnapshot)
    → IsChain P o previous (before ++ (s ∷ after))
    → IsChain P o (some s) after
IsChain-after P o previous [] s after c = c.2
IsChain-after P o previous (b ∷ before) s after c = IsChain-after P o (some b) before s after c.2

-- In a chain that passes, an organisation that a snapshot lists as revoked is revoked in all later
-- snapshots, if all of these list it; `ss` are the snapshots read, which are put in the order of
-- their versions.
pub verify_registry_chain-revoked :
    (P : Platform) (o : Options) (xs : List Input) (ss : List RegistrySnapshot) {c : ChainResult}
    → parse_all P 0 xs ≡ ok (all_read ss)
    → verify_registry_chain P o xs ≡ ok c
    → c.status ≡ pass
    → (org : String) (before : List RegistrySnapshot) (s : RegistrySnapshot)
      (after : List RegistrySnapshot)
    → sort_snapshots ss ≡ before ++ (s ∷ after)
    → status_in org s ≡ some "revoked"
    → All (λ t. is_some (status_in org t) ≡ true) after
    → All (λ t. status_in org t ≡ some "revoked") after
verify_registry_chain-revoked P o xs ss {c} read h pass_status org before s after split revoked
      listed =
    let w = (verify_registry_chain-pass_iff P o xs).0 (c, h, pass_status) in
    let same =
      all_read_injective w.snapshots ss
        (ok-injective (all_read w.snapshots) (all_read ss) (sym w.read ∙ read)) in
    let chain =
      subst (λ ts. IsChain P o none (sort_snapshots ts)) same
        (subst (IsChain P o none) w.in_order w.chain) in
    enforce_revocation_monotonicity-revoked org s after
      (IsChain-AllMonotone P o s after
        (IsChain-after P o none before s after (subst (IsChain P o none) split chain)))
      revoked listed
