-- ===== src/Shard/Assigned.antt =====
-- `Rebalance` of shardkv1/shardcfg/shardcfg.go, its first loop.
use mit_6_824_distributed_sy.Prelude.{
  append-snoc, append_nil, sym, ℕ, suc, ◌+◌, ◌≤◌, ◌<◌, ◌≡◌, ◌≢◌, refl, sym, ◌∙◌, ap, subst, String,
  true, Option, none, some, List, [], ◌∷◌, ◌++◌, arith, lookup, nat_key, length, length-append, leb,
  Bool-cases, inl, inr,
}
use mit_6_824_distributed_sy.Shard.Config.{
  ShardConfig, Analysis, count, visit, visit_all, insert_sorted, sorted_gids, analyze, least,
  has_group, assign,
}

-- Shard by shard: the second list has a group everywhere, and keeps every one that the first has.
abbrev pub Fills : List (ℕ × List String) → List (Option ℕ) → List (Option ℕ) → Type 0
Fills groups [] [] = Unit {0}
Fills groups (s ∷ ss) (r ∷ rs) =
    (has_group groups r ≡ true) × (has_group groups s ≡ true → r ≡ s) × Fills groups ss rs
Fills groups _ _ = ⊥

-- Every shard has a group of the list.
abbrev pub AllAssigned : List (ℕ × List String) → List (Option ℕ) → Type 0
AllAssigned groups [] = Unit {0}
AllAssigned groups (s ∷ shards) = (has_group groups s ≡ true) × AllAssigned groups shards

pub Fills-AllAssigned :
    (groups : List (ℕ × List String)) (ss rs : List (Option ℕ))
    → Fills groups ss rs
    → AllAssigned groups rs × (length rs ≡ length ss)
Fills-AllAssigned groups [] [] f = (tt, refl)
Fills-AllAssigned groups [] (r ∷ rs) f = absurd f
Fills-AllAssigned groups (s ∷ ss) [] f = absurd f
Fills-AllAssigned groups (s ∷ ss) (r ∷ rs) f =
    let (all, same) = Fills-AllAssigned groups ss rs f.2 in ((f.0, all), ap suc same)

-- Every number of the list is a group's.
abbrev AllGroups : List (ℕ × List String) → List ℕ → Type 0
AllGroups groups [] = Unit {0}
AllGroups groups (g ∷ gs) = (has_group groups (some g) ≡ true) × AllGroups groups gs

pub count-length : (g : ℕ) (shards : List (Option ℕ)) → count g shards ≤ length shards
unfolding count
count-length g [] = omega arith
count-length g (s ∷ shards) = ground (arith, count-length g shards)

insert_sorted-AllGroups :
    (groups : List (ℕ × List String)) (g : ℕ) (gs : List ℕ)
    → has_group groups (some g) ≡ true
    → AllGroups groups gs
    → AllGroups groups (insert_sorted g gs)
unfolding insert_sorted
insert_sorted-AllGroups groups g [] h all = (h, tt)
insert_sorted-AllGroups groups g (x ∷ xs) h all = elim (Bool-cases (leb g x)) [
  | inl before ↦ rw before (h, (all.0, all.1))
  | inr after ↦ rw after (all.0, insert_sorted-AllGroups groups g xs h all.1)
]

-- A group more in the list.
pub has_group-cons :
    (g : ℕ) (ss : List String) (groups : List (ℕ × List String)) (s : Option ℕ)
    → has_group groups s ≡ true
    → has_group ((g, ss) ∷ groups) s ≡ true
unfolding has_group lookup
has_group-cons g ss groups none h = h
has_group-cons g ss groups (some x) h = ground (arith, h)

cons-AllGroups :
    (g : ℕ) (ss : List String) (groups : List (ℕ × List String)) (gs : List ℕ)
    → AllGroups groups gs
    → AllGroups ((g, ss) ∷ groups) gs
cons-AllGroups g ss groups [] all = tt
cons-AllGroups g ss groups (x ∷ xs) all =
    (has_group-cons g ss groups (some x) all.0, cons-AllGroups g ss groups xs all.1)

sorted_gids-AllGroups : (groups : List (ℕ × List String)) → AllGroups groups (sorted_gids groups)
unfolding sorted_gids has_group lookup
sorted_gids-AllGroups [] = tt
sorted_gids-AllGroups ((g, ss) ∷ groups) =
    insert_sorted-AllGroups ((g, ss) ∷ groups) g (sorted_gids groups)
      (ground (arith, nat_key.beq_iff g g))
      (cons-AllGroups g ss groups (sorted_gids groups) (sorted_gids-AllGroups groups))

insert_sorted-ne_nil : (g : ℕ) (gs : List ℕ) → insert_sorted g gs ≢ []
unfolding insert_sorted
insert_sorted-ne_nil g [] e = cc
insert_sorted-ne_nil g (x ∷ xs) e = ground (arith, e)

-- The group that `analyze` has found so far, once it has one.
visit_all-lg :
    (groups : List (ℕ × List String)) (shards : List (Option ℕ)) (a : Analysis) (gs : List ℕ)
    → AllGroups groups gs
    → has_group groups a.lg ≡ true
    → has_group groups (visit_all shards a gs).lg ≡ true
unfolding visit_all
visit_all-lg groups shards a [] all h = h
visit_all-lg groups shards a (g ∷ gs) all h =
    visit_all-lg groups shards (visit a g (count g shards)) gs all.1 (ground (arith, h, all.0))

start-lg :
    (groups : List (ℕ × List String)) (shards : List (Option ℕ)) (gs : List ℕ)
    → gs ≢ []
    → length shards < 257
    → AllGroups groups gs
    → has_group groups
        (visit_all shards (record { mg = none; mn = none; lg = none; ln = 257 }) gs).lg
      ≡ true
unfolding visit_all
start-lg groups shards [] ne h all = absurd (ne refl)
start-lg groups shards (g ∷ gs) ne h all =
    visit_all-lg groups shards _ gs all.1 (ground (arith, h, all.0, count-length g shards))

pub sorted_gids-ne_nil : (groups : List (ℕ × List String)) → groups ≢ [] → sorted_gids groups ≢ []
unfolding sorted_gids
sorted_gids-ne_nil [] ne e = ne refl
sorted_gids-ne_nil ((g, ss) ∷ groups) ne e = insert_sorted-ne_nil g (sorted_gids groups) e

least-has_group :
    (cfg : ShardConfig)
    → cfg.groups ≢ []
    → length cfg.shards < 257
    → has_group cfg.groups (least cfg) ≡ true
unfolding least analyze
least-has_group cfg ne h =
    start-lg cfg.groups cfg.shards (sorted_gids cfg.groups) (sorted_gids-ne_nil cfg.groups ne) h
      (sorted_gids-AllGroups cfg.groups)

assign-Fills :
    (cfg : ShardConfig) (before more : List (Option ℕ))
    → cfg.groups ≢ []
    → length before + length more < 257
    → (rs : List (Option ℕ)) × (assign cfg before more ≡ before ++ rs) × Fills cfg.groups more rs
unfolding assign
assign-Fills cfg before [] ne h = ([], sym (append_nil before), tt)
assign-Fills cfg before (g ∷ more) ne h = elim (Bool-cases (has_group cfg.groups g)) [
  | inl kept ↦
      let (rs, e, f) =
        assign-Fills cfg (before ++ g ∷ []) more ne
          (omega (arith, h, length-append before (g ∷ []))) in
      (g ∷ rs, rw kept (e ∙ append-snoc before rs g), (kept, λ _. refl, f))
  | inr loose ↦
      let l = least (record cfg { shards = before ++ g ∷ more }) in
      let good =
        least-has_group (record cfg { shards = before ++ g ∷ more }) ne
          (omega (arith, h, length-append before (g ∷ more))) in
      let (rs, e, f) =
        assign-Fills cfg (before ++ l ∷ []) more ne
          (omega (arith, h, length-append before (l ∷ []))) in
      (l ∷ rs, rw loose (e ∙ append-snoc before rs l), (good, λ k. ground (arith, k, loose), f))
]

-- With at least one group and no more than 256 shards, the first loop of `Rebalance` gives every
-- shard a group of the configuration, and leaves those alone that have one.
pub rebalance-Fills :
    (cfg : ShardConfig)
    → cfg.groups ≢ []
    → length cfg.shards < 257
    → Fills cfg.groups cfg.shards (assign cfg [] cfg.shards)
rebalance-Fills cfg ne h =
    let (rs, e, f) = assign-Fills cfg [] cfg.shards ne (omega (arith, h)) in
    subst (λ r. Fills cfg.groups cfg.shards r) (sym e) f
