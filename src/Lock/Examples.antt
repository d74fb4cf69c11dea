-- ===== src/Lock/Examples.antt =====
-- A run in which one client takes the lock of kvsrv1/lock/lock.go, and the theorem there.
use mit_6_824_distributed_sy.Prelude.{ℕ, zero, suc, ◌+◌, ◌≡◌, refl, ap, String, arith, lookup}
use mit_6_824_distributed_sy.Kv.Server.{make_kv_server, get, put}
use mit_6_824_distributed_sy.Kv.Clerk.{answer}
use mit_6_824_distributed_sy.Lock.Client.{acquire, look, claim_done, after_get, after_claim}
use mit_6_824_distributed_sy.Lock.System.{System, client, Reach, start, next}
use mit_6_824_distributed_sy.Lock.MutualExclusion.{IsIdentity, mutual_exclusion}

-- Names of different lengths.
name : ℕ → String
name zero = "a"
name (suc i) = String.◌∷◌ "a" (name i)

size : String → ℕ
size String.[] = 0
size (String.◌∷◌ c s) = suc (size s)

size-name : (i : ℕ) → size (name i) ≡ i + 1
unfolding size name
size-name zero = refl
size-name (suc i) = omega (arith, size-name i)

names : IsIdentity name
unfolding size
names = record {
  named = λ i e. absurd (omega (arith, ap size e, size-name i));
  distinct = λ i j e. omega (arith, ap size e, size-name i, size-name j);
}

record Run (n : ℕ) : Type 0 where
  last : System
  reach : Reach "l" name n last

abbrev one_holder : Run 3
unfolding after_get get lookup make_kv_server
one_holder = record {
  last = _;
  reach = next (next (next start (client 0 acquire)) (client 0 look)) (client 0 claim_done);
}

mutual_exclusion_example : ◌≡◌ {A = ℕ} 0 0
unfolding make_kv_server lookup get put after_get after_claim answer
mutual_exclusion_example =
    mutual_exclusion "l" name names (omega arith) one_holder.reach 0 0 refl refl
