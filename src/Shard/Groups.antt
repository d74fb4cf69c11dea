-- ===== src/Shard/Groups.antt =====
-- `Join` and `Leave` of shardkv1/shardcfg/shardcfg.go: the groups that a configuration then has.
use mit_6_824_distributed_sy.Prelude.{
  ℕ, ◌+◌, ◌≡◌, ◌≢◌, refl, String, Bool, true, false, ◌||◌, Option, none, some, List, [], ◌∷◌,
  if◌then◌else◌, ◌==◌, arith, lookup, insert, delete, nat_key, lookup-insert, lookup-delete,
  Bool-cases, inl, inr,
}
use mit_6_824_distributed_sy.Shard.Config.{
  ShardConfig, has_group, join_loop, leave_loop, Loop, fatal, refused, finished, conclude, join,
  leave, shares_server, is_empty,
}

abbrev pub has_gid : ℕ → List ℕ → Bool
has_gid g [] = false
has_gid g (h ∷ hs) = (h == g) || has_gid g hs

no_group :
    (groups : List (ℕ × List String)) (g : ℕ)
    → has_group groups (some g) ≡ false
    → lookup g groups ≡ none
unfolding has_group
no_group groups g h = ground (arith, h)

some_group :
    (groups : List (ℕ × List String)) (g : ℕ)
    → has_group groups (some g) ≡ true
    → lookup g groups ≢ none
unfolding has_group
some_group groups g h e = ground (arith, h, e)

abbrev Leaves : List (ℕ × List String) → List ℕ → Loop → Type 0
Leaves groups gids fatal = ⊥
Leaves groups gids (refused groups') = (g : ℕ) × (has_gid g gids ≡ true) × (lookup g groups' ≡ none)
Leaves groups gids (finished groups') =
    (g : ℕ) → lookup g groups' ≡ (if has_gid g gids then none else lookup g groups)

first-Leaves :
    (groups : List (ℕ × List String)) (gid : ℕ) (more : List ℕ) (l : Loop)
    → Leaves (delete gid groups) more l
    → Leaves groups (gid ∷ more) l
first-Leaves groups gid more fatal h = h
first-Leaves groups gid more (refused groups') (g, e, missing) = (g, ground (arith, e), missing)
first-Leaves groups gid more (finished groups') h =
    λ g. ground (arith, h g, lookup-delete gid g groups)

leave_loop-Leaves :
    (groups : List (ℕ × List String)) (gids : List ℕ) → Leaves groups gids (leave_loop groups gids)
unfolding leave_loop
leave_loop-Leaves groups [] = λ g. refl
leave_loop-Leaves groups (gid ∷ more) = elim (Bool-cases (has_group groups (some gid))) [
  | inl there ↦ rw there (
      first-Leaves groups gid more (leave_loop (delete gid groups) more)
        (leave_loop-Leaves (delete gid groups) more))
  | inr missing ↦ rw missing (gid, ground arith, no_group groups gid missing)
]

-- How `Leave` ends: `log.Fatalf` for an empty list; true with exactly the given groups gone and the
-- number raised; or false with the number as it was and some given group not among the groups,
-- which others of the given ones may have left all the same.
pub data LeaveEnds (cfg : ShardConfig) (gids : List ℕ) : Option (ShardConfig × Bool) → Type 0 where
  leave_fatal : gids ≡ [] → LeaveEnds cfg gids none
  left :
      (cfg' : ShardConfig)
      → gids ≢ []
      → cfg'.num ≡ cfg.num + 1
      → cfg'.shards ≡ cfg.shards
      → ((g : ℕ) → lookup g cfg'.groups ≡ (if has_gid g gids then none else lookup g cfg.groups))
      → LeaveEnds cfg gids (some (cfg', true))
  leave_refused :
      (cfg' : ShardConfig) (g : ℕ)
      → cfg'.num ≡ cfg.num
      → cfg'.shards ≡ cfg.shards
      → has_gid g gids ≡ true
      → lookup g cfg'.groups ≡ none
      → LeaveEnds cfg gids (some (cfg', false))

leave_ends :
    (cfg : ShardConfig) (gids : List ℕ) (l : Loop)
    → Leaves cfg.groups gids l
    → LeaveEnds cfg gids (conclude cfg (if is_empty gids then false else true) l)
unfolding conclude
leave_ends cfg gids fatal h = absurd h
leave_ends cfg gids (refused groups) (g, e, missing) =
    leave_refused (record cfg { groups = groups }) g refl refl e missing
leave_ends cfg [] (finished groups) h = leave_fatal refl
leave_ends cfg (gid ∷ more) (finished groups) h =
    left (record cfg { groups = groups; num = cfg.num + 1 }) (λ e. cc) refl refl h

pub leave-LeaveEnds : (cfg : ShardConfig) (gids : List ℕ) → LeaveEnds cfg gids (leave cfg gids)
unfolding leave
leave-LeaveEnds cfg gids =
    leave_ends cfg gids (leave_loop cfg.groups gids) (leave_loop-Leaves cfg.groups gids)

-- The new groups over the old ones.
abbrev pub joined : List (ℕ × List String) → List (ℕ × List String) → ℕ → Option (List String)
joined groups servers g = elim (lookup g servers) [ none ↦ lookup g groups | some ss ↦ some ss ]

abbrev Joins : List (ℕ × List String) → List (ℕ × List String) → Loop → Type 0
Joins groups servers fatal = Unit {0}
Joins groups servers (refused groups') =
    (g : ℕ) × (lookup g servers ≢ none) × (lookup g groups' ≢ none)
Joins groups servers (finished groups') =
    ((g : ℕ) → lookup g groups' ≡ joined groups servers g)
    × ((g : ℕ) → lookup g servers ≢ none → lookup g groups ≡ none)

first-Joins :
    (groups : List (ℕ × List String)) (gid : ℕ) (ss : List String) (more : List (ℕ × List String))
    (l : Loop)
    → lookup gid groups ≡ none
    → Joins (insert gid ss groups) more l
    → Joins groups ((gid, ss) ∷ more) l
unfolding lookup
first-Joins groups gid ss more fatal fresh h = h
first-Joins groups gid ss more (refused groups') fresh (g, a, b) = (g, λ e. ground (arith, e, a), b)
first-Joins groups gid ss more (finished groups') fresh (f, n) = (
  λ g. ground (arith, f g, n g, lookup-insert gid g ss groups),
  λ g h. ground (arith, h, n g, fresh, lookup-insert gid g ss groups),
)

join_loop-Joins :
    (groups servers : List (ℕ × List String)) → Joins groups servers (join_loop groups servers)
unfolding join_loop lookup
join_loop-Joins groups [] = (λ g. refl, λ g h. absurd (h refl))
join_loop-Joins groups ((gid, ss) ∷ more) = elim (Bool-cases (has_group groups (some gid))) [
  | inl there ↦
      rw there (gid, (λ e. ground (arith, e, nat_key.beq_iff gid gid)), some_group groups gid there)
  | inr missing ↦ elim (Bool-cases (shares_server groups ss)) [
    | inl clash ↦ rw (missing, clash) tt
    | inr apart ↦
        rw (missing, apart)
          (first-Joins groups gid ss more (join_loop (insert gid ss groups) more)
            (no_group groups gid missing) (join_loop-Joins (insert gid ss groups) more))
  ]
]

-- How `Join` ends, unless it ends with `log.Fatalf`.
pub data JoinEnds (cfg : ShardConfig) (servers : List (ℕ × List String))
    : Option (ShardConfig × Bool) → Type 0 where
  join_fatal : JoinEnds cfg servers none
  joins :
      (cfg' : ShardConfig)
      → servers ≢ []
      → cfg'.num ≡ cfg.num + 1
      → cfg'.shards ≡ cfg.shards
      → ((g : ℕ) → lookup g cfg'.groups ≡ joined cfg.groups servers g)
      → ((g : ℕ) → lookup g servers ≢ none → lookup g cfg.groups ≡ none)
      → JoinEnds cfg servers (some (cfg', true))
  join_refused :
      (cfg' : ShardConfig) (g : ℕ)
      → cfg'.num ≡ cfg.num
      → cfg'.shards ≡ cfg.shards
      → lookup g servers ≢ none
      → lookup g cfg'.groups ≢ none
      → JoinEnds cfg servers (some (cfg', false))

join_ends :
    (cfg : ShardConfig) (servers : List (ℕ × List String)) (l : Loop)
    → Joins cfg.groups servers l
    → JoinEnds cfg servers (conclude cfg (if is_empty servers then false else true) l)
unfolding conclude
join_ends cfg servers fatal h = join_fatal
join_ends cfg servers (refused groups) (g, a, b) =
    join_refused (record cfg { groups = groups }) g refl refl a b
join_ends cfg [] (finished groups) h = join_fatal
join_ends cfg (s ∷ servers) (finished groups) (f, n) =
    joins (record cfg { groups = groups; num = cfg.num + 1 }) (λ e. cc) refl refl f n

pub join-JoinEnds :
    (cfg : ShardConfig) (servers : List (ℕ × List String)) → JoinEnds cfg servers (join cfg servers)
unfolding join
join-JoinEnds cfg servers =
    join_ends cfg servers (join_loop cfg.groups servers) (join_loop-Joins cfg.groups servers)
