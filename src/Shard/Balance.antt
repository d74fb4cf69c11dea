-- ===== src/Shard/Balance.antt =====
-- `Rebalance` of shardkv1/shardcfg/shardcfg.go.
use mit_6_824_distributed_sy.Shard.Sorted.{
  sorted_gids-Distinct, Between-In, UniqueKeys, sorted_gids-has_group, has_group-sorted_gids,
}
use mit_6_824_distributed_sy.Prelude.{
  ℕ, zero, suc, ◌+◌, ◌≤◌, ◌<◌, ◌≡◌, ◌≢◌, refl, ◌∙◌, ap, String, true, false, Option, some, List, [],
  ◌∷◌, arith, length, nat_key, Bool-cases, inl, inr,
}
use mit_6_824_distributed_sy.Shard.Config.{
  ShardConfig, Analysis, same_gid, count, analyze, has_group, sorted_gids, assign, move_one,
  is_balanced, balance, rebalance,
}
use mit_6_824_distributed_sy.Shard.Assigned.{AllAssigned, Fills-AllAssigned, rebalance-Fills}
use mit_6_824_distributed_sy.Shard.Extremes.{analyze-Extremes}
use mit_6_824_distributed_sy.Shard.Potential.{potential, move_one-Moves, move-potential}

move_one-AllAssigned :
    (groups : List (ℕ × List String)) (mg lg : Option ℕ) (shards : List (Option ℕ))
    → has_group groups lg ≡ true
    → AllAssigned groups shards
    → AllAssigned groups (move_one mg lg shards) × (length (move_one mg lg shards) ≡ length shards)
unfolding move_one
move_one-AllAssigned groups mg lg [] h all = (tt, refl)
move_one-AllAssigned groups mg lg (s ∷ shards) h all =
    let ih = move_one-AllAssigned groups mg lg shards h all.1 in
    elim (Bool-cases (same_gid s mg)) [
      | inl here ↦ rw here ((h, all.1), refl)
      | inr later ↦ rw later ((all.0, ih.0), ap suc ih.1)
    ]

-- Every shard has a group, and no group has two shards more than another.
pub record Balanced (groups : List (ℕ × List String)) (shards : List (Option ℕ)) : Type 0 where
  pub assigned : AllAssigned groups shards
  pub even :
      (g h : ℕ)
      → has_group groups (some g) ≡ true
      → has_group groups (some h) ≡ true
      → count g shards ≤ count h shards + 1

module _ (cfg : ShardConfig) (ne : cfg.groups ≢ []) where
  abbrev with_these : List (Option ℕ) → ShardConfig
  with_these shards = record cfg { shards = shards }

  -- Where the loop stops, the shards are spread evenly.
  stop-even :
      (shards : List (Option ℕ)) (g h : ℕ)
      → length shards < 257
      → is_balanced (analyze (with_these shards)) ≡ true
      → has_group cfg.groups (some g) ≡ true
      → has_group cfg.groups (some h) ≡ true
      → count g shards ≤ count h shards + 1
  stop-even shards g h small stop ig ih =
      let (low, high, x) = analyze-Extremes (with_these shards) ne small in
      let gids = sorted_gids cfg.groups in
      let bg =
        Between-In shards (count x.l shards) (count x.h shards) gids g x.between
          (has_group-sorted_gids cfg.groups g ig) in
      let bh =
        Between-In shards (count x.l shards) (count x.h shards) gids h x.between
          (has_group-sorted_gids cfg.groups h ih) in
      let close : count x.h shards < count x.l shards + 2 =
        ground (arith, stop, x.high_named.mn, x.low_named.ln) in
      omega (arith, bg, bh, close)

  -- Where it does not, it moves a shard, and lowers the potential.
  record Step (shards : List (Option ℕ)) (a : Analysis) : Type 0 where
    target : has_group cfg.groups a.lg ≡ true
    lowers :
        potential (sorted_gids cfg.groups) (move_one a.mg a.lg shards)
        < potential (sorted_gids cfg.groups) shards

  move-Step :
      (shards : List (Option ℕ))
      → UniqueKeys cfg.groups
      → length shards < 257
      → is_balanced (analyze (with_these shards)) ≡ false
      → Step shards (analyze (with_these shards))
  move-Step shards u small more =
      let (low, high, x) = analyze-Extremes (with_these shards) ne small in
      let gids = sorted_gids cfg.groups in
      let gap : count x.l shards + 2 ≤ count x.h shards =
        ground (arith, more, x.high_named.mn, x.low_named.ln) in
      let apart : x.h ≢ x.l = λ e. omega (arith, gap, ap (λ y. count y shards) e) in
      let moves = move_one-Moves shards x.h x.l apart (omega (arith, gap)) in
      record {
        target = rw x.low_named.lg (sorted_gids-has_group cfg.groups x.l x.low_named.l_in);
        lowers =
            rw (x.low_named.lg, x.high_named.mg)
              (move-potential gids shards (move_one (some x.h) (some x.l) shards) x.h x.l moves
                apart x.high_named.h_in x.low_named.l_in (sorted_gids-Distinct cfg.groups u) gap);
      }

  balance-Balanced :
      (fuel : ℕ) (shards : List (Option ℕ))
      → UniqueKeys cfg.groups
      → AllAssigned cfg.groups shards
      → length shards < 257
      → potential (sorted_gids cfg.groups) shards ≤ fuel
      → (shards' : List (Option ℕ)) × (balance cfg fuel shards ≡ some shards')
        × (length shards' ≡ length shards)
        × Balanced cfg.groups shards'
  unfolding balance
  balance-Balanced zero shards u all small enough =
      elim (Bool-cases (is_balanced (analyze (with_these shards)))) [
        | inl stop ↦ (
          shards,
          rw stop refl,
          refl,
          record { assigned = all; even = λ g h. stop-even shards g h small stop },
        )
        | inr more ↦ absurd (omega (arith, enough, (move-Step shards u small more).lowers))
      ]
  balance-Balanced (suc fuel) shards u all small enough =
      elim (Bool-cases (is_balanced (analyze (with_these shards)))) [
        | inl stop ↦ (
          shards,
          rw stop refl,
          refl,
          record { assigned = all; even = λ g h. stop-even shards g h small stop },
        )
        | inr more ↦
            let a = analyze (with_these shards) in
            let step = move-Step shards u small more in
            let kept = move_one-AllAssigned cfg.groups a.mg a.lg shards step.target all in
            let (shards', e, same, b) =
              balance-Balanced fuel (move_one a.mg a.lg shards) u kept.0
                (omega (arith, kept.1, small)) (omega (arith, step.lowers, enough)) in
            (shards', rw more e, same ∙ kept.1, b)
      ]

-- With groups, each once, and at most 256 shards, `Rebalance` ends: with fuel for the potential of
-- the shards after its first loop, or more, it changes the shards alone, as many as there were;
-- every shard then has a group of the configuration, and no group has two shards more than another.
pub rebalance-Balanced :
    (cfg : ShardConfig) (fuel : ℕ)
    → cfg.groups ≢ []
    → UniqueKeys cfg.groups
    → length cfg.shards < 257
    → potential (sorted_gids cfg.groups) (assign cfg [] cfg.shards) ≤ fuel
    → (shards' : List (Option ℕ)) × (rebalance cfg fuel ≡ some (record cfg { shards = shards' }))
      × (length shards' ≡ length cfg.shards)
      × Balanced cfg.groups shards'
unfolding rebalance
rebalance-Balanced cfg fuel ne u small enough =
    let shards0 = assign cfg [] cfg.shards in
    let (all, same) =
      Fills-AllAssigned cfg.groups cfg.shards shards0 (rebalance-Fills cfg ne small) in
    let (shards', e, length', b) =
      balance-Balanced cfg ne fuel shards0 u all (omega (arith, same, small)) enough in
    (shards', ground (arith, ne, e), length' ∙ same, b)
