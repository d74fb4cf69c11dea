-- ===== src/Shard/Config.antt =====
-- shardkv1/shardcfg/shardcfg.go: `ShardConfig` and its operations. A group identifier is a number,
-- and `none` is the -1 of `analyze`; a shard without a group has the identifier 0. A Go map is an
-- association list, and the order of a loop over one is the list's.
use mit_6_824_distributed_sy.Prelude.{
  ℕ, zero, suc, ◌+◌, String, Bool, true, false, ◌||◌, Option, none, some, List, [], ◌∷◌, ◌++◌,
  if◌then◌else◌, ltb, leb, ◌==◌, lookup, insert, delete, nat_key, string_key, get_elem?, replicate,
}

pub record ShardConfig : Type 0 where
  pub num : ℕ
  pub shards : List (Option ℕ)
  pub groups : List (ℕ × List String)

-- `NShards`
abbrev pub n_shards : ℕ
n_shards = 12

-- `MakeShardConfig`
unfoldable pub make_shard_config : ShardConfig
make_shard_config = record { num = 0; shards = replicate n_shards (some 0); groups = [] }

abbrev pub is_gid : Option ℕ → ℕ → Bool
is_gid none g = false
is_gid (some h) g = h == g

-- `counts[g]`
unfoldable pub count : ℕ → List (Option ℕ) → ℕ
count g [] = 0
count g (s ∷ shards) = (if is_gid s g then 1 else 0) + count g shards

-- The results of `analyze`; `none` is -1.
pub record Analysis : Type 0 where
  pub mg : Option ℕ
  pub mn : Option ℕ
  pub lg : Option ℕ
  pub ln : ℕ

abbrev pub above : ℕ → Option ℕ → Bool
above n none = true
above n (some m) = ltb m n

-- One round of the loop of `analyze`, for the group `g` with `n` shards.
abbrev pub visit : Analysis → ℕ → ℕ → Analysis
visit a g n =
    let a' = if ltb n a.ln then record a { ln = n; lg = some g } else a in
    if above n a'.mn then record a' { mn = some n; mg = some g } else a'

unfoldable pub visit_all : List (Option ℕ) → Analysis → List ℕ → Analysis
visit_all shards a [] = a
visit_all shards a (g ∷ gs) = visit_all shards (visit a g (count g shards)) gs

-- `slices.Sort`
unfoldable pub insert_sorted : ℕ → List ℕ → List ℕ
insert_sorted g [] = g ∷ []
insert_sorted g (h ∷ hs) = if leb g h then g ∷ h ∷ hs else h ∷ insert_sorted g hs

unfoldable pub sorted_gids : List (ℕ × List String) → List ℕ
sorted_gids [] = []
sorted_gids ((g, servers) ∷ groups) = insert_sorted g (sorted_gids groups)

-- `analyze`
unfoldable pub analyze : ShardConfig → Analysis
analyze cfg =
    visit_all cfg.shards (record { mg = none; mn = none; lg = none; ln = 257 })
      (sorted_gids cfg.groups)

-- `least`
unfoldable pub least : ShardConfig → Option ℕ
least cfg = (analyze cfg).lg

-- `_, ok := c.Groups[g]`
unfoldable pub has_group : List (ℕ × List String) → Option ℕ → Bool
has_group groups none = false
has_group groups (some g) = elim (lookup g groups) [ none ↦ false | some servers ↦ true ]

-- The loop of `Rebalance` that assigns the unassigned shards: `before` are the shards done.
unfoldable pub assign : ShardConfig → List (Option ℕ) → List (Option ℕ) → List (Option ℕ)
assign cfg before [] = before
assign cfg before (g ∷ more) =
    let here =
      if has_group cfg.groups g then g else least (record cfg { shards = before ++ g ∷ more }) in
    assign cfg (before ++ here ∷ []) more

abbrev pub same_gid : Option ℕ → Option ℕ → Bool
same_gid none none = true
same_gid none (some h) = false
same_gid (some g) h = is_gid h g

-- Moves one shard of the group `mg` to `lg`.
unfoldable pub move_one : Option ℕ → Option ℕ → List (Option ℕ) → List (Option ℕ)
move_one mg lg [] = []
move_one mg lg (g ∷ shards) =
    let rest = move_one mg lg shards in if same_gid g mg then lg ∷ shards else g ∷ rest

-- `mn < ln+2`
abbrev pub is_balanced : Analysis → Bool
is_balanced a = elim a.mn [ none ↦ true | some n ↦ ltb n (a.ln + 2) ]

-- The second loop of `Rebalance`, on fuel.
unfoldable pub balance : ShardConfig → ℕ → List (Option ℕ) → Option (List (Option ℕ))
balance cfg zero shards =
    if is_balanced (analyze (record cfg { shards = shards })) then some shards else none
balance cfg (suc fuel) shards =
    let a = analyze (record cfg { shards = shards }) in
    let rest = balance cfg fuel (move_one a.mg a.lg shards) in
    if is_balanced a then some shards else rest

abbrev with_shards : ShardConfig → Option (List (Option ℕ)) → Option ShardConfig
with_shards cfg none = none
with_shards cfg (some shards) = some (record cfg { shards = shards })

abbrev unassigned : List (Option ℕ) → List (Option ℕ)
unassigned [] = []
unassigned (s ∷ shards) = some 0 ∷ unassigned shards

-- `Rebalance`, on fuel.
unfoldable pub rebalance : ShardConfig → ℕ → Option ShardConfig
rebalance cfg fuel = elim cfg.groups [
  | [] ↦ some (record cfg { shards = unassigned cfg.shards })
  | g ∷ groups ↦ with_shards cfg (balance cfg fuel (assign cfg [] cfg.shards))
]

-- Whether two lists of servers have one in common.
abbrev pub has_server : String → List String → Bool
has_server s [] = false
has_server s (t ∷ ts) = string_key.beq t s || has_server s ts

abbrev pub overlap : List String → List String → Bool
overlap [] servers = false
overlap (s ∷ ss) servers = has_server s servers || overlap ss servers

unfoldable pub shares_server : List (ℕ × List String) → List String → Bool
shares_server [] servers = false
shares_server ((g, ss) ∷ groups) servers = overlap ss servers || shares_server groups servers

-- How the loops of `Join` and `Leave` end: a `log.Fatalf`, a return of false, or the end.
pub data Loop : Type 0 where
  fatal : Loop
  refused finished : (groups : List (ℕ × List String)) → Loop

unfoldable pub join_loop : List (ℕ × List String) → List (ℕ × List String) → Loop
join_loop groups [] = finished groups
join_loop groups ((gid, servers) ∷ more) =
    let rest = join_loop (insert gid servers groups) more in
    if has_group groups (some gid)
    then refused groups
    else if shares_server groups servers
    then fatal
    else rest

unfoldable pub leave_loop : List (ℕ × List String) → List ℕ → Loop
leave_loop groups [] = finished groups
leave_loop groups (gid ∷ more) =
    let rest = leave_loop (delete gid groups) more in
    if has_group groups (some gid) then rest else refused groups

-- The end of both; `none` is a `log.Fatalf`, also where nothing has changed.
unfoldable pub conclude : ShardConfig → Bool → Loop → Option (ShardConfig × Bool)
conclude cfg changed fatal = none
conclude cfg changed (refused groups) = some (record cfg { groups = groups }, false)
conclude cfg false (finished groups) = none
conclude cfg true (finished groups) = some (record cfg { groups = groups; num = cfg.num + 1 }, true)

abbrev pub is_empty : {A : Type 0} → List A → Bool
is_empty [] = true
is_empty (x ∷ xs) = false

-- `Join`
unfoldable pub join : ShardConfig → List (ℕ × List String) → Option (ShardConfig × Bool)
unfolding conclude
join cfg servers =
    conclude cfg (if is_empty servers then false else true) (join_loop cfg.groups servers)

-- `Leave`
unfoldable pub leave : ShardConfig → List ℕ → Option (ShardConfig × Bool)
unfolding conclude
leave cfg gids = conclude cfg (if is_empty gids then false else true) (leave_loop cfg.groups gids)

abbrev with_true : Option ShardConfig → Option (ShardConfig × Bool)
with_true none = none
with_true (some cfg) = some (cfg, true)

abbrev then_rebalance : ℕ → Option (ShardConfig × Bool) → Option (ShardConfig × Bool)
then_rebalance fuel none = none
then_rebalance fuel (some (cfg, false)) = some (cfg, false)
then_rebalance fuel (some (cfg, true)) = with_true (rebalance cfg fuel)

-- `JoinBalance`
unfoldable pub join_balance : ShardConfig → List (ℕ × List String) → ℕ → Option (ShardConfig × Bool)
join_balance cfg servers fuel = then_rebalance fuel (join cfg servers)

-- `LeaveBalance`
unfoldable pub leave_balance : ShardConfig → List ℕ → ℕ → Option (ShardConfig × Bool)
leave_balance cfg gids fuel = then_rebalance fuel (leave cfg gids)

-- `GidServers`; an index out of range panics.
unfoldable pub gid_servers : ShardConfig → ℕ → Option (Option ℕ × List String × Bool)
gid_servers cfg sh = elim (get_elem? cfg.shards sh) [
  | none ↦ none
  | some none ↦ some (none, [], false)
  | some (some g) ↦ elim (lookup g cfg.groups) [
    | none ↦ some (some g, [], false)
    | some servers ↦ some (some g, servers, true)
  ]
]

-- `IsMember`
unfoldable pub is_member : ShardConfig → ℕ → Bool
is_member cfg gid = go cfg.shards
  where
    go : List (Option ℕ) → Bool
    go [] = false
    go (s ∷ more) = is_gid s gid || go more
