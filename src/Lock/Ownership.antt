-- ===== src/Lock/Ownership.antt =====
-- The position of one client of kvsrv1/lock/lock.go against the stored entry of the lock, step by
-- step.
use mit_6_824_distributed_sy.Prelude.{
  ℕ, ◌+◌, ◌≤◌, ◌<◌, ◌^◌, ◌≡◌, refl, String, Bool, true, false, arith, lookup, string_key, ◌⊎◌, inl,
  inr, sym,
}
use mit_6_824_distributed_sy.Rpc.{PutArgs, Err, is_ok}
use mit_6_824_distributed_sy.Kv.Server.{KvServer, get, put}
use mit_6_824_distributed_sy.Kv.Versions.{value_of, version_at, lookup-put, put_answers}
use mit_6_824_distributed_sy.Kv.Clerk.{answer}
use mit_6_824_distributed_sy.Lock.Client.{
  Pc, claiming, held, freeing, Move, acquire, look, claim_lost, claim_unheard, claim_done, check,
  release, look_again, free_lost, free_unheard, free_done, claim, free, after_get, after_claim,
  after_check, after_release_get, after_free,
}

-- What a client's position says about the value and the version stored under the lock's key.
abbrev pub Fits : String → String → ℕ → Pc → Type 0
Fits me val ver held = val ≡ me
Fits me val ver (claiming v _) = (v ≤ ver) × (v ≡ ver → val ≡ "")
Fits me val ver (freeing v _) = (v ≤ ver) × (v ≡ ver → val ≡ me)
Fits me val ver _ = Unit {0}

abbrev pub value_at : KvServer → String → String
value_at kv k = value_of (lookup k kv.store)

-- A put to the lock's key either leaves that entry alone, or takes it to the next version.
abbrev Changes : KvServer → KvServer → String → Type 0
Changes kv kv' k =
    (lookup k kv'.store ≡ lookup k kv.store) ⊎ (version_at kv' k ≡ version_at kv k + 1)

record Wrote (kv : KvServer) (args : PutArgs) : Type 0 where
  matched : version_at kv args.key ≡ args.ver
  raised : version_at (put kv args).0 args.key ≡ version_at kv args.key + 1
  stored : value_at (put kv args).0 args.key ≡ args.value
  answered : (put kv args).1.err ≡ Err.ok

record Kept (kv : KvServer) (args : PutArgs) : Type 0 where
  same : lookup args.key (put kv args).0.store ≡ lookup args.key kv.store
  refused : is_ok (put kv args).1.err ≡ false

put-cases :
    (kv : KvServer) (args : PutArgs)
    → version_at kv args.key + 1 < 2 ^ 64
    → Kept kv args ⊎ Wrote kv args
put-cases kv args b = ground (
  arith,
  lookup-put kv args args.key,
  (string_key.beq_iff args.key args.key).1 refl,
  (put_answers kv args).0.0,
)

module _ (k me : String) where
  -- The entry that a get by the lock's client has read.
  after_get-Fits :
      (kv : KvServer)
      → Fits me (value_at kv k) (version_at kv k) (after_get k me (get kv (record { key = k })))
  unfolding after_get get
  after_get-Fits kv = ground (arith, string_key.beq_iff (value_at kv k) "")

  after_check-Fits :
      (kv : KvServer)
      → Fits me (value_at kv k) (version_at kv k) (after_check k me (get kv (record { key = k })))
  unfolding after_check get
  after_check-Fits kv = ground (arith, string_key.beq_iff (value_at kv k) me)

  after_release_get-Fits :
      (kv : KvServer)
      → Fits me
          (value_at kv k)
          (version_at kv k)
          (after_release_get k me (get kv (record { key = k })))
  unfolding after_release_get get
  after_release_get-Fits kv = ground (arith, string_key.beq_iff (value_at kv k) me)

  -- A put of this client's, at version `ver`, with `val` the value that it has read there.
  module _ (kv : KvServer) (args : PutArgs) (val : String) where
    -- What the put does, for a client that found `val` under the version it names.
    record Effect : Type 0 where
      change :
          (lookup args.key (put kv args).0.store ≡ lookup args.key kv.store)
          ⊎ ((version_at (put kv args).0 args.key ≡ version_at kv args.key + 1)
              × (value_at kv args.key ≡ val))
      stays :
          (args.ver ≤ version_at (put kv args).0 args.key)
          × (args.ver ≡ version_at (put kv args).0 args.key
              → value_at (put kv args).0 args.key ≡ val)
      success : is_ok (put kv args).1.err ≡ true → value_at (put kv args).0 args.key ≡ args.value

    put-Effect :
        version_at kv args.key + 1 < 2 ^ 64
        → args.ver ≤ version_at kv args.key
        → (args.ver ≡ version_at kv args.key → value_at kv args.key ≡ val)
        → Effect
    put-Effect b le read = elim (put-cases kv args b) [
      | inl kept ↦ record {
        change = inl kept.same;
        stays = rw kept.same (le, read);
        success = λ e. ground (arith, kept.refused, e);
      }
      | inr wrote ↦ record {
        change = inr (wrote.raised, read (sym wrote.matched));
        stays = (
          omega (arith, wrote.raised, wrote.matched),
          λ e. absurd (omega (arith, wrote.raised, wrote.matched, e)),
        );
        success = λ _. wrote.stored;
      }
    ]

  abbrev pub FitsAt : KvServer → Pc → Type 0
  FitsAt kv p = Fits me (value_at kv k) (version_at kv k) p

  -- What a step of this client does to the lock's entry.
  abbrev pub Moves : KvServer → KvServer → Type 0
  Moves kv kv' =
      (lookup k kv'.store ≡ lookup k kv.store)
      ⊎ ((version_at kv' k ≡ version_at kv k + 1) × ((value_at kv k ≡ "") ⊎ (value_at kv k ≡ me)))

  after_claim-Fits :
      (kv : KvServer) (first : Bool) (e : Err)
      → (is_ok e ≡ true → value_at kv k ≡ me)
      → FitsAt kv (after_claim k me (answer first e))
  unfolding after_claim answer
  after_claim-Fits kv true Err.ok h = h refl
  after_claim-Fits kv false Err.ok h = h refl
  after_claim-Fits kv true Err.version h = tt
  after_claim-Fits kv false Err.version h = tt
  after_claim-Fits kv first Err.maybe h = tt
  after_claim-Fits kv first Err.no_key h = tt
  after_claim-Fits kv first Err.wrong_leader h = tt
  after_claim-Fits kv first Err.wrong_group h = tt
  after_claim-Fits kv first Err.other h = tt

  after_free-Fits : (kv : KvServer) (e : Err) → FitsAt kv (after_free k me e)
  unfolding after_free
  after_free-Fits kv e = ground arith

  Effect-claims :
      {kv : KvServer} {args : PutArgs} → args.key ≡ k → Effect kv args "" → Moves kv (put kv args).0
  Effect-claims {kv} {args} e f = ground (arith, f.change)

  Effect-frees :
      {kv : KvServer} {args : PutArgs} → args.key ≡ k → Effect kv args me → Moves kv (put kv args).0
  Effect-frees {kv} {args} e f = ground (arith, f.change)

  pub Move-Fits :
      {kv kv' : KvServer} {p p' : Pc}
      → Move k me kv p kv' p'
      → version_at kv k + 1 < 2 ^ 64
      → FitsAt kv p
      → FitsAt kv' p' × Moves kv kv'
  Move-Fits acquire b f = (tt, inl refl)
  Move-Fits {kv} look b f = (after_get-Fits kv, inl refl)
  Move-Fits claim_lost b f = (f, inl refl)
  Move-Fits {kv} (claim_unheard {ver} {first}) b f =
      let eff = put-Effect kv (claim k me ver) "" b f.0 f.1 in (eff.stays, Effect-claims refl eff)
  Move-Fits {kv} (claim_done {ver} {first}) b f =
      let eff = put-Effect kv (claim k me ver) "" b f.0 f.1 in
      (
        after_claim-Fits (put kv (claim k me ver)).0 first (put kv (claim k me ver)).1.err
            eff.success,
        Effect-claims refl eff,
      )
  Move-Fits {kv} check b f = (after_check-Fits kv, inl refl)
  Move-Fits release b f = (tt, inl refl)
  Move-Fits {kv} look_again b f = (after_release_get-Fits kv, inl refl)
  Move-Fits free_lost b f = (f, inl refl)
  Move-Fits {kv} (free_unheard {ver} {first}) b f =
      let eff = put-Effect kv (free k me ver) me b f.0 f.1 in (eff.stays, Effect-frees refl eff)
  Move-Fits {kv} (free_done {ver} {first}) b f =
      let eff = put-Effect kv (free k me ver) me b f.0 f.1 in
      (
        after_free-Fits (put kv (free k me ver)).0 (answer first (put kv (free k me ver)).1.err),
        Effect-frees refl eff,
      )
