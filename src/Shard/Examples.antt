-- ===== src/Shard/Examples.antt =====
-- The theorems about shardkv1/shardcfg/shardcfg.go at a configuration of two groups.
use mit_6_824_distributed_sy.Prelude.{
  ℕ, ◌≡◌, refl, Option, some, [], ◌∷◌, List, String, arith, length, lookup,
}
use mit_6_824_distributed_sy.Shard.Config.{
  ShardConfig, join, leave, assign, rebalance, balance, has_group, analyze, visit_all, count,
  sorted_gids, insert_sorted, move_one,
}
use mit_6_824_distributed_sy.Shard.Groups.{JoinEnds, join-JoinEnds, LeaveEnds, leave-LeaveEnds}
use mit_6_824_distributed_sy.Shard.Balance.{Balanced, rebalance-Balanced}
use mit_6_824_distributed_sy.Shard.Assigned.{Fills, rebalance-Fills}

-- Shards 0 and 2 of three have no group.
abbrev two : ShardConfig
two = record {
  num = 4;
  shards = some 0 ∷ some 7 ∷ some 5 ∷ [];
  groups = (7, "a" ∷ []) ∷ (6, "b" ∷ []) ∷ [];
}

abbrev new_group : List (ℕ × List String)
new_group = (8, "c" ∷ []) ∷ []

join-JoinEnds_example : JoinEnds two new_group (join two new_group)
join-JoinEnds_example = join-JoinEnds two new_group

leave-LeaveEnds_example : LeaveEnds two (7 ∷ []) (leave two (7 ∷ []))
leave-LeaveEnds_example = leave-LeaveEnds two (7 ∷ [])

rebalance-Fills_example :
    Fills two.groups (some 0 ∷ some 7 ∷ some 5 ∷ []) (assign two [] two.shards)
rebalance-Fills_example = rebalance-Fills two (λ e. ground (arith, e)) (omega arith)

-- Three shards of one group, after a second group has joined.
abbrev lopsided : ShardConfig
lopsided = record {
  num = 4;
  shards = some 7 ∷ some 7 ∷ some 7 ∷ [];
  groups = (7, "a" ∷ []) ∷ (6, "b" ∷ []) ∷ [];
}

rebalance-Balanced_example :
    (shards' : List (Option ℕ)) × (rebalance lopsided 3
      ≡ some (record lopsided { shards = shards' }))
    × (length shards' ≡ 3)
    × Balanced lopsided.groups shards'
unfolding lookup assign has_group sorted_gids insert_sorted count
rebalance-Balanced_example =
    rebalance-Balanced lopsided 3 (λ e. ground (arith, e)) (refl, (refl, tt)) (omega arith)
      (omega arith)

rebalance_run :
    rebalance lopsided 3 ≡ some (record lopsided { shards = some 6 ∷ some 7 ∷ some 7 ∷ [] })
unfolding rebalance balance assign has_group lookup analyze visit_all count sorted_gids
    insert_sorted move_one
rebalance_run = refl
