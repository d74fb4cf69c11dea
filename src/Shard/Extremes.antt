-- ===== src/Shard/Extremes.antt =====
-- `analyze` of shardkv1/shardcfg/shardcfg.go: the groups with the most and with the fewest shards.
use mit_6_824_distributed_sy.Prelude.{
  ℕ, ◌≤◌, ◌<◌, ◌≡◌, ◌≢◌, refl, true, Option, none, some, List, [], ◌∷◌, arith, length, ltb,
  Bool-cases, ◌⊎◌, inl, inr,
}
use mit_6_824_distributed_sy.Shard.Config.{
  ShardConfig, Analysis, count, visit, visit_all, sorted_gids, analyze,
}
use mit_6_824_distributed_sy.Shard.Assigned.{count-length, sorted_gids-ne_nil}

abbrev pub In : ℕ → List ℕ → Type 0
In g [] = ⊥
In g (h ∷ hs) = (g ≡ h) ⊎ In g hs

-- Every group of the list has between `low` and `high` shards.
abbrev pub Between : List (Option ℕ) → ℕ → ℕ → List ℕ → Type 0
Between shards low high [] = Unit {0}
Between shards low high (g ∷ gs) =
    (low ≤ count g shards) × (count g shards ≤ high) × Between shards low high gs

-- The analysis names a group of the list `all` as the one with the fewest shards, with their number.
pub record Low (shards : List (Option ℕ)) (all : List ℕ) (a : Analysis) (l : ℕ) : Type 0 where
  pub lg : a.lg ≡ some l
  pub ln : a.ln ≡ count l shards
  pub l_in : In l all

-- The same of the one with the most.
pub record High (shards : List (Option ℕ)) (all : List ℕ) (a : Analysis) (h : ℕ) : Type 0 where
  pub mg : a.mg ≡ some h
  pub mn : a.mn ≡ some (count h shards)
  pub h_in : In h all

abbrev AllIn : List ℕ → List ℕ → Type 0
AllIn all [] = Unit {0}
AllIn all (g ∷ gs) = In g all × AllIn all gs

module _ (shards : List (Option ℕ)) (all : List ℕ) where
  visit-Low :
      (a : Analysis) (l g : ℕ)
      → Low shards all a l
      → In g all
      → (l' : ℕ) × Low shards all (visit a g (count g shards)) l'
        × (count l' shards ≤ count l shards)
        × (count l' shards ≤ count g shards)
  visit-Low a l g n i = elim (Bool-cases (ltb (count g shards) a.ln)) [
    | inl fewer ↦ (
      g,
      record { lg = ground (arith, fewer); ln = ground (arith, fewer); l_in = i },
      ground (arith, fewer, n.ln),
      omega arith,
    )
    | inr not_fewer ↦ (
      l,
      record {
        lg = ground (arith, not_fewer, n.lg);
        ln = ground (arith, not_fewer, n.ln);
        l_in = n.l_in;
      },
      omega arith,
      ground (arith, not_fewer, n.ln),
    )
  ]

  visit-High :
      (a : Analysis) (h g : ℕ)
      → High shards all a h
      → In g all
      → (h' : ℕ) × High shards all (visit a g (count g shards)) h'
        × (count h shards ≤ count h' shards)
        × (count g shards ≤ count h' shards)
  visit-High a h g n i = elim (Bool-cases (ltb (count h shards) (count g shards))) [
    | inl more ↦ (
      g,
      record { mg = ground (arith, more, n.mn); mn = ground (arith, more, n.mn); h_in = i },
      ground (arith, more),
      omega arith,
    )
    | inr not_more ↦ (
      h,
      record {
        mg = ground (arith, not_more, n.mg, n.mn);
        mn = ground (arith, not_more, n.mn);
        h_in = n.h_in;
      },
      omega arith,
      ground (arith, not_more),
    )
  ]

  -- After the groups `gs`, the two that are named bound theirs, and those named before.
  pub record Extremes (gs : List ℕ) (low high : ℕ) (a : Analysis) : Type 0 where
    pub l : ℕ
    pub h : ℕ
    pub low_named : Low shards all a l
    pub high_named : High shards all a h
    pub below : count l shards ≤ low
    pub beyond : high ≤ count h shards
    pub between : Between shards (count l shards) (count h shards) gs

  visit_all-Extremes :
      (a : Analysis) (l h : ℕ) (gs : List ℕ)
      → Low shards all a l
      → High shards all a h
      → AllIn all gs
      → Extremes gs (count l shards) (count h shards) (visit_all shards a gs)
  unfolding visit_all
  visit_all-Extremes a l h [] lo hi i = record {
    l = l;
    h = h;
    low_named = lo;
    high_named = hi;
    below = omega arith;
    beyond = omega arith;
    between = tt;
  }
  visit_all-Extremes a l h (g ∷ gs) lo hi i =
      let (l', lo', b1, b2) = visit-Low a l g lo i.0 in
      let (h', hi', c1, c2) = visit-High a h g hi i.0 in
      let x = visit_all-Extremes (visit a g (count g shards)) l' h' gs lo' hi' i.1 in
      record {
        l = x.l;
        h = x.h;
        low_named = x.low_named;
        high_named = x.high_named;
        below = omega (arith, x.below, b1);
        beyond = omega (arith, x.beyond, c1);
        between = (omega (arith, x.below, b2), omega (arith, x.beyond, c2), x.between);
      }

grow-AllIn : (g : ℕ) (all gs : List ℕ) → AllIn all gs → AllIn (g ∷ all) gs
grow-AllIn g all [] i = tt
grow-AllIn g all (x ∷ xs) i = (inr i.0, grow-AllIn g all xs i.1)

self-AllIn : (gs : List ℕ) → AllIn gs gs
self-AllIn [] = tt
self-AllIn (g ∷ gs) = (inl refl, grow-AllIn g gs gs (self-AllIn gs))

abbrev start : Analysis
start = record { mg = none; mn = none; lg = none; ln = 257 }

start-Extremes :
    (shards : List (Option ℕ)) (gs : List ℕ)
    → gs ≢ []
    → length shards < 257
    → (low : ℕ) × (high : ℕ) × Extremes shards gs gs low high (visit_all shards start gs)
unfolding visit_all
start-Extremes shards [] ne small = absurd (ne refl)
start-Extremes shards (g ∷ gs) ne small =
    let n = count g shards in
    let few : ltb n 257 ≡ true = ground (arith, small, count-length g shards) in
    let first = visit start g n in
    let lo : Low shards (g ∷ gs) first g = record {
      lg = ground (arith, few);
      ln = ground (arith, few);
      l_in = inl refl;
    } in
    let hi : High shards (g ∷ gs) first g = record {
      mg = ground (arith, few);
      mn = ground (arith, few);
      h_in = inl refl;
    } in
    let x = visit_all-Extremes shards (g ∷ gs) first g g gs lo hi (self-AllIn (g ∷ gs)).1 in
    (
      n,
      n,
      record {
        l = x.l;
        h = x.h;
        low_named = x.low_named;
        high_named = x.high_named;
        below = x.below;
        beyond = x.beyond;
        between = (x.below, x.beyond, x.between);
      },
    )

-- For a configuration with groups and at most 256 shards.
pub analyze-Extremes :
    (cfg : ShardConfig)
    → cfg.groups ≢ []
    → length cfg.shards < 257
    → (low : ℕ) × (high : ℕ) × Extremes cfg.shards
        (sorted_gids cfg.groups)
        (sorted_gids cfg.groups)
        low
        high
        (analyze cfg)
unfolding analyze
analyze-Extremes cfg ne small =
    start-Extremes cfg.shards (sorted_gids cfg.groups) (sorted_gids-ne_nil cfg.groups ne) small
