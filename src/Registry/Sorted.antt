-- ===== src/Registry/Sorted.antt =====
-- Sorting the snapshots of validators/registry.py by version keeps all of them.
use mathlib.Core.List.Permᴰ
use mathlib.Core.List.{Permᴰ}
use specora_verify.Base.{refl, inl, inr, leb_ℤ, List, [], ◌∷◌, Bool-cases}
use specora_verify.Registry.Snapshot.{RegistrySnapshot}
use specora_verify.Registry.Chain.{insert_snapshot, sort_snapshots}

insert_snapshot-Permᴰ :
    (s : RegistrySnapshot) (ts : List RegistrySnapshot) → Permᴰ (insert_snapshot s ts) (s ∷ ts)
unfolding insert_snapshot
insert_snapshot-Permᴰ s [] = Permᴰ.refl (s ∷ [])
insert_snapshot-Permᴰ s (t ∷ ts) = elim (Bool-cases (leb_ℤ s.registry_version t.registry_version)) [
  | inl p ↦ rw p (Permᴰ.refl (s ∷ t ∷ ts))
  | inr p ↦ rw p (Permᴰ.trans (Permᴰ.cons refl (insert_snapshot-Permᴰ s ts)) (Permᴰ.swap refl refl))
]

pub sort_snapshots-Permᴰ : (ss : List RegistrySnapshot) → Permᴰ (sort_snapshots ss) ss
unfolding sort_snapshots
sort_snapshots-Permᴰ [] = Permᴰ.nil
sort_snapshots-Permᴰ (s ∷ ss) =
    Permᴰ.trans (insert_snapshot-Permᴰ s (sort_snapshots ss))
      (Permᴰ.cons refl (sort_snapshots-Permᴰ ss))
