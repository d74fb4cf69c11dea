-- ===== src/Shard/Sorted.antt =====
-- `analyze` of shardkv1/shardcfg/shardcfg.go: the sorted list of the groups.
use mit_6_824_distributed_sy.Prelude.{
  ℕ, ◌≤◌, ◌≡◌, sym, subst, String, true, Option, none, some, List, [], ◌∷◌, ◌==◌, ==_iff, arith,
  leb, lookup, nat_key, Bool-cases, ◌⊎◌, inl, inr,
}
use mit_6_824_distributed_sy.Shard.Config.{count, has_group, insert_sorted, sorted_gids}
use mit_6_824_distributed_sy.Shard.Assigned.{has_group-cons}
use mit_6_824_distributed_sy.Shard.Extremes.{In, Between}
use mit_6_824_distributed_sy.Shard.Potential.{Distinct}

-- A Go map has each key once.
abbrev pub UniqueKeys : List (ℕ × List String) → Type 0
UniqueKeys [] = Unit {0}
UniqueKeys ((g, ss) ∷ groups) = (lookup g groups ≡ none) × UniqueKeys groups

insert_sorted-In : (x g : ℕ) (gs : List ℕ) → In x (insert_sorted g gs) → (x ≡ g) ⊎ In x gs
unfolding insert_sorted
insert_sorted-In x g [] i = i
insert_sorted-In x g (y ∷ ys) i = elim (Bool-cases (leb g y)) [
  | inl before ↦ rw before at i
  | inr after ↦ elim (rw after at i) [
    | inl e ↦ inr (inl e)
    | inr j ↦ elim (insert_sorted-In x g ys j) [ inl e ↦ inl e | inr k ↦ inr (inr k) ]
  ]
]

In-insert_sorted : (x g : ℕ) (gs : List ℕ) → (x ≡ g) ⊎ In x gs → In x (insert_sorted g gs)
unfolding insert_sorted
In-insert_sorted x g [] i = i
In-insert_sorted x g (y ∷ ys) i = elim (Bool-cases (leb g y)) [
  | inl before ↦ rw before i
  | inr after ↦ rw after (elim i [
    | inl e ↦ inr (In-insert_sorted x g ys (inl e))
    | inr j ↦ elim j [ inl e ↦ inl e | inr k ↦ inr (In-insert_sorted x g ys (inr k)) ]
  ])
]

insert_sorted-Distinct :
    (g : ℕ) (gs : List ℕ) → ¬ (In g gs) → Distinct gs → Distinct (insert_sorted g gs)
unfolding insert_sorted
insert_sorted-Distinct g [] ni d = (λ i. i, tt)
insert_sorted-Distinct g (y ∷ ys) ni d = elim (Bool-cases (leb g y)) [
  | inl before ↦ rw before (ni, d)
  | inr after ↦ rw after (
    λ i. elim (insert_sorted-In y g ys i) [ inl e ↦ ni (inl (sym e)) | inr j ↦ d.0 j ],
    insert_sorted-Distinct g ys (λ i. ni (inr i)) d.1,
  )
]

pub sorted_gids-has_group :
    (groups : List (ℕ × List String)) (x : ℕ)
    → In x (sorted_gids groups)
    → has_group groups (some x) ≡ true
unfolding sorted_gids has_group lookup
sorted_gids-has_group [] x i = absurd i
sorted_gids-has_group ((g, ss) ∷ groups) x i = elim (insert_sorted-In x g (sorted_gids groups) i) [
  | inl e ↦ ground (arith, e, nat_key.beq_iff g x)
  | inr j ↦ has_group-cons g ss groups (some x) (sorted_gids-has_group groups x j)
]

pub has_group-sorted_gids :
    (groups : List (ℕ × List String)) (x : ℕ)
    → has_group groups (some x) ≡ true
    → In x (sorted_gids groups)
unfolding sorted_gids has_group lookup
has_group-sorted_gids [] x h = absurd (ground (arith, h))
has_group-sorted_gids ((g, ss) ∷ groups) x h = elim (Bool-cases (g == x)) [
  | inl same ↦ In-insert_sorted x g (sorted_gids groups) (inl (sym ((==_iff g x).0 same)))
  | inr other ↦
      In-insert_sorted x g (sorted_gids groups)
        (inr (has_group-sorted_gids groups x (ground (arith, h, other))))
]

pub sorted_gids-Distinct :
    (groups : List (ℕ × List String)) → UniqueKeys groups → Distinct (sorted_gids groups)
unfolding sorted_gids has_group
sorted_gids-Distinct [] u = tt
sorted_gids-Distinct ((g, ss) ∷ groups) u =
    insert_sorted-Distinct g (sorted_gids groups)
      (λ i. ground (arith, u.0, sorted_gids-has_group groups g i)) (sorted_gids-Distinct groups u.1)

pub Between-In :
    (shards : List (Option ℕ)) (low high : ℕ) (gs : List ℕ) (g : ℕ)
    → Between shards low high gs
    → In g gs
    → (low ≤ count g shards) × (count g shards ≤ high)
Between-In shards low high [] g b i = absurd i
Between-In shards low high (x ∷ xs) g b (inl e) =
    subst (λ y. (low ≤ count y shards) × (count y shards ≤ high)) (sym e) (b.0, b.1)
Between-In shards low high (x ∷ xs) g b (inr i) = Between-In shards low high xs g b.2 i
