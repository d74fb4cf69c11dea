-- ===== src/Kv/Clerk/History.antt =====
-- Versions over a history of puts at the server of kvsrv1/server.go.
use mit_6_824_distributed_sy.Prelude.{
  ◌+◌, ◌≤◌, ◌<◌, ◌^◌, ◌≡◌, String, List, [], ◌∷◌, if◌then◌else◌, arith, length, string_key,
}
use mit_6_824_distributed_sy.Rpc.{u64, PutArgs, is_ok}
use mit_6_824_distributed_sy.Kv.Server.{KvServer, put}
use mit_6_824_distributed_sy.Kv.Versions.{version_at, lookup-put, same_key, put_answers}

-- Puts in the order in which the server executes them.
unfoldable pub run_puts : KvServer → List PutArgs → KvServer
run_puts kv [] = kv
run_puts kv (args ∷ more) = run_puts (put kv args).0 more

pub version_at-put :
    (kv : KvServer) (args : PutArgs) (k : String)
    → version_at (put kv args).0 k ≡ (
        if is_ok (put kv args).1.err
        then (if same_key args.key k then u64 (args.ver + 1) else version_at kv k)
        else version_at kv k)
version_at-put kv args k = ground (arith, lookup-put kv args k)

-- One put raises the version of a key by one at most, and lowers none before the counter wraps.
pub put-version-grows :
    (kv : KvServer) (args : PutArgs) (k : String)
    → version_at kv k + 1 < 2 ^ 64
    → (version_at kv k ≤ version_at (put kv args).0 k)
      × (version_at (put kv args).0 k ≤ version_at kv k + 1)
put-version-grows kv args k h =
    ground
      (arith, version_at-put kv args k, (put_answers kv args).0.0, string_key.beq_iff args.key k)

pub run_puts-version-grows :
    (kv : KvServer) (ops : List PutArgs) (k : String)
    → version_at kv k + length ops < 2 ^ 64
    → (version_at kv k ≤ version_at (run_puts kv ops) k)
      × (version_at (run_puts kv ops) k ≤ version_at kv k + length ops)
unfolding run_puts
run_puts-version-grows kv [] k h = omega arith
run_puts-version-grows kv (args ∷ more) k h =
    let one = put-version-grows kv args k (omega arith) in
    let rest = run_puts-version-grows (put kv args).0 more k (omega arith) in omega arith
