-- ===== src/Shard/Potential.antt =====
-- How the second loop of `Rebalance`, shardkv1/shardcfg/shardcfg.go, comes to an end: a number that
-- every move of a shard lowers.
use mit_6_824_distributed_sy.Prelude.{
  ℕ, zero, suc, ◌+◌, ◌≤◌, ◌<◌, ◌≡◌, ◌≢◌, refl, sym, ap, subst, ◌==◌, ==_iff, Option, some, List, [],
  ◌∷◌, if◌then◌else◌, arith, Bool-cases, inl, inr, ℕ_discrete, nat_key,
}
use mit_6_824_distributed_sy.Shard.Config.{same_gid, count, move_one}
use mit_6_824_distributed_sy.Shard.Extremes.{In}

-- 0 + 1 + ... + (n - 1)
abbrev pub triangle : ℕ → ℕ
triangle zero = 0
triangle (suc n) = triangle n + n

abbrev pub sum_of : (ℕ → ℕ) → List ℕ → ℕ
sum_of f [] = 0
sum_of f (g ∷ gs) = f g + sum_of f gs

-- The potential of an assignment of shards to the groups `gs`.
abbrev pub potential : List ℕ → List (Option ℕ) → ℕ
potential gs shards = sum_of (λ g. triangle (count g shards)) gs

abbrev pub Distinct : List ℕ → Type 0
Distinct [] = Unit {0}
Distinct (g ∷ gs) = (¬ (In g gs)) × Distinct gs

-- Two functions that agree but for one argument.
module _ (f f' : ℕ → ℕ) (h : ℕ) (agree : (g : ℕ) → g ≢ h → f' g ≡ f g) where
  sum_away : (gs : List ℕ) → ¬ (In h gs) → sum_of f' gs ≡ sum_of f gs
  sum_away [] nh = refl
  sum_away (g ∷ gs) nh =
      let here = agree g (λ e. nh (inl (sym e))) in
      let ih = sum_away gs (λ i. nh (inr i)) in omega (arith, here, ih)

  sum_one : (gs : List ℕ) → In h gs → Distinct gs → sum_of f' gs + f h ≡ sum_of f gs + f' h
  sum_one [] i d = absurd i
  sum_one (g ∷ gs) (inl e) d =
      let away = sum_away gs (λ i. d.0 (subst (λ x. In x gs) e i)) in
      omega (arith, ap f e, ap f' e, away)
  sum_one (g ∷ gs) (inr i) d =
      let here = agree g (λ e. d.0 (subst (λ x. In x gs) (sym e) i)) in
      let ih = sum_one gs i d.1 in omega (arith, here, ih)

-- What a move from `h` to `l` does to the counts.
pub record Moves (shards shards' : List (Option ℕ)) (h l : ℕ) : Type 0 where
  pub taken : count h shards' + 1 ≡ count h shards
  pub given : count l shards' ≡ count l shards + 1
  pub others : (g : ℕ) → g ≢ h → g ≢ l → count g shards' ≡ count g shards

pub move_one-Moves :
    (shards : List (Option ℕ)) (h l : ℕ)
    → h ≢ l
    → 0 < count h shards
    → Moves shards (move_one (some h) (some l) shards) h l
unfolding move_one count
move_one-Moves [] h l ne some_left = absurd (omega (arith, some_left))
move_one-Moves (s ∷ shards) h l ne some_left = elim (Bool-cases (same_gid s (some h))) [
  | inl mine ↦ rw mine (record {
    taken = ground (arith, mine, ne);
    given = ground (arith, mine, ne);
    others = λ g a b. ground (arith, mine, a, b);
  })
  | inr other ↦
      let ih = move_one-Moves shards h l ne (ground (arith, other, some_left)) in
      rw other (record {
        taken = omega (arith, ih.taken);
        given = omega (arith, ih.given);
        others = λ g a b. omega (arith, ih.others g a b);
      })
]

triangle-next : (m n : ℕ) → m + 1 ≡ n → triangle n ≡ triangle m + m
triangle-next m n e = let next : suc m ≡ n = omega (arith, e) in ap triangle (sym next)

-- A move from a group to one with at least two shards fewer lowers the potential.
pub move-potential :
    (gs : List ℕ) (shards shards' : List (Option ℕ)) (h l : ℕ)
    → Moves shards shards' h l
    → h ≢ l
    → In h gs
    → In l gs
    → Distinct gs
    → count l shards + 2 ≤ count h shards
    → potential gs shards' < potential gs shards
move-potential gs shards shards' h l m ne ih il d gap =
    let f : ℕ → ℕ = λ g. triangle (count g shards) in
    let f' : ℕ → ℕ = λ g. triangle (count g shards') in
    let between : ℕ → ℕ = λ g. if g == h then f' g else f g in
    let first = sum_one f between h (λ g a. ground (arith, a)) gs ih d in
    let second =
      sum_one between f' l
        (λ g a. elim (ℕ_discrete g h) [
          | yes e ↦ ground (arith, e)
          | no n ↦ ground (arith, n, ap triangle (m.others g n a))
        ])
        gs il d in
    let at_h : between h ≡ f' h = ground (arith, (==_iff h h).1 refl) in
    let at_l : between l ≡ f l = ground (arith, ne) in
    let less : f h ≡ f' h + count h shards' =
      triangle-next (count h shards') (count h shards) m.taken in
    let more : f' l ≡ f l + count l shards =
      triangle-next (count l shards) (count l shards') (sym m.given) in
    omega (arith, first, second, at_h, at_l, less, more, m.taken, gap)
