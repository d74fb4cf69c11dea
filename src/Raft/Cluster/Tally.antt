-- ===== src/Raft/Cluster/Tally.antt =====
-- The counts of votes in a cluster of raft1/raft.go against the votes on record.
use mit_6_824_distributed_sy.Prelude.{
  ℕ, ◌+◌, ◌≤◌, ◌<◌, ◌≡◌, ◌≢◌, Bool, true, false, ◌&&◌, ◌||◌, Option, none, some, ◌==◌, arith,
}
use mit_6_824_distributed_sy.Raft.Cluster.Counting.{count, count_mono, count-lt, count-pos}
use mit_6_824_distributed_sy.Raft.Cluster.System.{Call, counted}
use mit_6_824_distributed_sy.Raft.Cluster.Ballots.{Grows}

abbrev pub Ballots : Type 0
Ballots = ℕ → ℕ → Option ℕ

abbrev pub Calls : Type 0
Calls = ℕ → ℕ → ℕ → Call

abbrev pub is_for : Option ℕ → ℕ → Bool
is_for none i = false
is_for (some c) i = c == i

abbrev pub is_counted : Call → Bool
is_counted counted = true
is_counted _ = false

-- Peer `p` has voted for `i` in term `t`.
abbrev pub supports : Ballots → ℕ → ℕ → ℕ → Bool
supports ballots i t p = is_for (ballots p t) i

-- It has, and `i` has counted that vote: its own, or that of a goroutine.
abbrev pub backs : Ballots → Calls → ℕ → ℕ → ℕ → Bool
backs ballots calls i t p = supports ballots i t p && (p == i || is_counted (calls i t p))

supports-Grows :
    (ballots ballots' : Ballots)
    → Grows ballots ballots'
    → (i t p : ℕ) → supports ballots i t p ≡ true
    → supports ballots' i t p ≡ true
supports-Grows ballots ballots' g i t p h = ground (arith, g p t i, h)

pub count-supports :
    (n : ℕ) (ballots ballots' : Ballots)
    → Grows ballots ballots'
    → (i t : ℕ) → count n (supports ballots i t) ≤ count n (supports ballots' i t)
count-supports n ballots ballots' g i t =
    count_mono n (supports ballots i t) (supports ballots' i t)
      (supports-Grows ballots ballots' g i t)

-- What a candidate counted is on record.
pub backs-le-supports :
    (n : ℕ) (ballots : Ballots) (calls : Calls) (i t : ℕ)
    → count n (backs ballots calls i t) ≤ count n (supports ballots i t)
backs-le-supports n ballots calls i t =
    count_mono n (backs ballots calls i t) (supports ballots i t) (λ p h. ground (arith, h))

module _ (n : ℕ) (ballots ballots' : Ballots) (calls calls' : Calls)
    (g : Grows ballots ballots') where
  backs-grows :
      (i t p : ℕ)
      → (is_counted (calls i t p) ≡ true → is_counted (calls' i t p) ≡ true)
      → backs ballots calls i t p ≡ true
      → backs ballots' calls' i t p ≡ true
  backs-grows i t p stays h = ground (arith, supports-Grows ballots ballots' g i t p, stays, h)

  -- Where no counted goroutine is forgotten, the backing of a candidate does not shrink.
  pub count-backs :
      (i t : ℕ)
      → ((p : ℕ) → is_counted (calls i t p) ≡ true → is_counted (calls' i t p) ≡ true)
      → count n (backs ballots calls i t) ≤ count n (backs ballots' calls' i t)
  count-backs i t stays =
      count_mono n (backs ballots calls i t) (backs ballots' calls' i t)
        (λ p h. backs-grows i t p (stays p) h)

  -- One more goroutine counted is one more backer.
  pub count-backs_one :
      (i t p : ℕ)
      → ((q : ℕ) → is_counted (calls i t q) ≡ true → is_counted (calls' i t q) ≡ true)
      → p < n
      → p ≢ i
      → ballots p t ≡ some i
      → is_counted (calls i t p) ≡ false
      → calls' i t p ≡ counted
      → count n (backs ballots calls i t) + 1 ≤ count n (backs ballots' calls' i t)
  count-backs_one i t p stays lt ne vote before after =
      count-lt n (backs ballots calls i t) (backs ballots' calls' i t) p
        (λ q h. backs-grows i t q (stays q) h) lt (ground (arith, before))
        (ground (arith, g p t i vote, after))

-- A new candidate's own vote backs it.
pub count-backs_self :
    (n : ℕ) (ballots : Ballots) (calls : Calls) (i t : ℕ)
    → i < n
    → ballots i t ≡ some i
    → 1 ≤ count n (backs ballots calls i t)
count-backs_self n ballots calls i t lt own =
    count-pos n (backs ballots calls i t) i lt (ground (arith, own))
