-- ===== src/Raft/Cluster/Counting.antt =====
-- Counting the peers of a cluster, and majorities.
use mit_6_824_distributed_sy.Prelude.{
  ℕ, zero, suc, ◌+◌, ◌/◌, ◌≤◌, ◌<◌, ◌≡◌, Bool, true, false, inl, inr, arith, if◌then◌else◌,
  Bool-cases, ℕ_discrete, subst,
}

-- How many of the first `n` peers pass the test.
pub count : ℕ → (ℕ → Bool) → ℕ
count zero f = 0
count (suc n) f = count n f + (if f n then 1 else 0)

pub count-le : (n : ℕ) (f : ℕ → Bool) → count n f ≤ n
unfolding count
count-le zero f = omega arith
count-le (suc n) f = ground (arith, count-le n f)

-- A test that passes where another does counts at least as many.
pub count_mono :
    (n : ℕ) (f g : ℕ → Bool) → ((p : ℕ) → f p ≡ true → g p ≡ true) → count n f ≤ count n g
unfolding count
count_mono zero f g h = omega arith
count_mono (suc n) f g h = ground (arith, count_mono n f g h, h n)

-- One more, if it passes at a peer where the other fails.
pub count-lt :
    (n : ℕ) (f g : ℕ → Bool) (q : ℕ)
    → ((p : ℕ) → f p ≡ true → g p ≡ true)
    → q < n
    → f q ≡ false
    → g q ≡ true
    → count n f + 1 ≤ count n g
unfolding count
count-lt zero f g q h lt a b = elim lt [ ]
count-lt (suc n) f g q h lt a b = elim (ℕ_discrete q n) [
  | yes here ↦ rw (← here) (ground (arith, count_mono n f g h, a, b))
  | no below ↦ ground (arith, count-lt n f g q h (omega arith) a b, h n)
]

-- A test that passes somewhere counts at least one.
pub count-pos : (n : ℕ) (f : ℕ → Bool) (q : ℕ) → q < n → f q ≡ true → 1 ≤ count n f
unfolding count
count-pos zero f q lt a = elim lt [ ]
count-pos (suc n) f q lt a = elim (ℕ_discrete q n) [
  | yes here ↦ ground (arith, subst (λ k. f k ≡ true) here a)
  | no below ↦ ground (arith, count-pos n f q (omega arith) a)
]

-- Two tests that together count more than all the peers both pass somewhere.
count-meet :
    (n : ℕ) (f g : ℕ → Bool) → n < count n f + count n g → (p : ℕ) × (f p ≡ true) × (g p ≡ true)
unfolding count
count-meet zero f g h = absurd (omega arith)
count-meet (suc n) f g h = elim (Bool-cases (f n)) [
  | inl a ↦ elim (Bool-cases (g n)) [
    | inl b ↦ (n, a, b)
    | inr b ↦ count-meet n f g (ground (arith, a, b))
  ]
  | inr a ↦ count-meet n f g (ground (arith, a))
]

-- Two majorities share a peer.
pub majorities_meet :
    (n : ℕ) (f g : ℕ → Bool)
    → n / 2 < count n f
    → n / 2 < count n g
    → (p : ℕ) × (f p ≡ true) × (g p ≡ true)
majorities_meet n f g a b = count-meet n f g (omega arith)
