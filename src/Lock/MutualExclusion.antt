-- ===== src/Lock/MutualExclusion.antt =====
-- The holders of the lock of kvsrv1/lock/lock.go, in any interleaving of its clients.
use mit_6_824_distributed_sy.Prelude.{
  ℕ, suc, ◌+◌, ◌≤◌, ◌<◌, ◌^◌, ◌≡◌, ◌≢◌, String, ◌==◌, arith, lookup, string_key, inl, inr, sym, ◌∙◌,
  Bool-cases, ==_iff,
}
use mit_6_824_distributed_sy.Kv.Server.{KvServer, make_kv_server, put}
use mit_6_824_distributed_sy.Kv.Versions.{version_at, lookup-put}
use mit_6_824_distributed_sy.Lock.Client.{
  Pc, idle, acquiring, claiming, checking, held, releasing, freeing,
}
use mit_6_824_distributed_sy.Lock.System.{System, update, Step, client, other, Reach, start, next}
use mit_6_824_distributed_sy.Lock.Ownership.{value_at, FitsAt, Moves, Move-Fits}

-- The identifiers that clients draw: none is empty, and no two are the same.
pub record IsIdentity (id : ℕ → String) : Type 0 where
  pub named : (i : ℕ) → id i ≢ ""
  pub distinct : (i j : ℕ) → id i ≡ id j → i ≡ j

module _ (k : String) (id : ℕ → String) (ids : IsIdentity id) where
  record Inv (n : ℕ) (s : System) : Type 0 where
    counted : version_at s.server k ≤ n
    fits : (i : ℕ) → FitsAt k (id i) s.server (s.pc i)

  -- A step of client `i` leaves what the others rely on.
  Moves-Fits :
      (kv kv' : KvServer) (i j : ℕ) (p : Pc)
      → j ≢ i
      → Moves k (id i) kv kv'
      → FitsAt k (id j) kv p
      → FitsAt k (id j) kv' p
  Moves-Fits kv kv' i j p ne (inl same) f = rw same f
  Moves-Fits kv kv' i j idle ne (inr m) f = tt
  Moves-Fits kv kv' i j acquiring ne (inr m) f = tt
  Moves-Fits kv kv' i j (claiming ver first) ne (inr m) f =
      (omega (arith, m.0, f.0), λ e. absurd (omega (arith, m.0, f.0, e)))
  Moves-Fits kv kv' i j checking ne (inr m) f = tt
  Moves-Fits kv kv' i j held ne (inr (raised, inl free)) f = absurd (ids.named j (sym f ∙ free))
  Moves-Fits kv kv' i j held ne (inr (raised, inr mine)) f =
      absurd (ne (ids.distinct j i (sym f ∙ mine)))
  Moves-Fits kv kv' i j releasing ne (inr m) f = tt
  Moves-Fits kv kv' i j (freeing ver first) ne (inr m) f =
      (omega (arith, m.0, f.0), λ e. absurd (omega (arith, m.0, f.0, e)))

  Moves-counted :
      (kv kv' : KvServer) {n : ℕ} (i : ℕ)
      → Moves k (id i) kv kv'
      → version_at kv k ≤ n
      → version_at kv' k ≤ suc n
  Moves-counted kv kv' i (inl same) c = rw same (omega arith)
  Moves-counted kv kv' i (inr m) c = omega (arith, m.0)

  -- The family of positions after client `i` has moved, at any client `j`.
  update-Fits :
      (kv kv' : KvServer) (pc : ℕ → Pc) (i : ℕ) (p : Pc)
      → ((j : ℕ) → FitsAt k (id j) kv (pc j))
      → Moves k (id i) kv kv'
      → FitsAt k (id i) kv' p
      → (j : ℕ) → FitsAt k (id j) kv' (update pc i p j)
  update-Fits kv kv' pc i p all m mine j = elim (Bool-cases (i == j)) [
    | inl same ↦ rw (same, ← (==_iff i j).0 same) mine
    | inr apart ↦ rw apart (Moves-Fits kv kv' i j (pc j) (λ e. ground arith) m (all j))
  ]

  Step-Inv : {n : ℕ} {s t : System} → n + 1 < 2 ^ 64 → Inv n s → Step k id s t → Inv (suc n) t
  Step-Inv {s = s} b inv (client i {kv} {p} mv) =
      let (mine, m) = Move-Fits k (id i) mv (omega (arith, inv.counted)) (inv.fits i) in
      record {
        counted = Moves-counted s.server kv i m inv.counted;
        fits = update-Fits s.server kv s.pc i p inv.fits m mine;
      }
  Step-Inv {s = s} b inv (other args ne) =
      let same : lookup k (put s.server args).0.store ≡ lookup k s.server.store =
        ground (arith, lookup-put s.server args k, string_key.beq_iff args.key k) in
      record { counted = rw same (omega (arith, inv.counted)); fits = λ i. rw same (inv.fits i) }

  Reach-Inv : {n : ℕ} {s : System} → n < 2 ^ 64 → Reach k id n s → Inv n s
  unfolding make_kv_server lookup
  Reach-Inv b start = record { counted = omega arith; fits = λ i. tt }
  Reach-Inv b (next r st) = Step-Inv (omega arith) (Reach-Inv (omega arith) r) st

  -- In every interleaving of fewer than 2^64 steps, with any loss of messages, two clients that
  -- both hold the lock are one client, if the clients' identifiers are distinct and not empty.
  pub mutual_exclusion :
      {n : ℕ} {s : System}
      → n < 2 ^ 64
      → Reach k id n s
      → (i j : ℕ) → s.pc i ≡ held
      → s.pc j ≡ held
      → i ≡ j
  mutual_exclusion {s = s} b r i j hi hj = ids.distinct i j (sym (of i hi) ∙ of j hj)
    where
      of : (i : ℕ) → s.pc i ≡ held → value_at s.server k ≡ id i
      of i h = rw h at ((Reach-Inv b r).fits i)
