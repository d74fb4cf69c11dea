-- ===== src/Kv/Failover/Once.antt =====
-- What a put of kvraft1/client.go promises, whatever becomes of its attempts.
use mit_6_824_distributed_sy.Prelude.{
  ℕ, ◌+◌, ◌%◌, ◌≤◌, ◌<◌, ◌^◌, ◌≡◌, ◌≢◌, refl, Bool, true, false, none, some, List, [], ◌∷◌, arith,
  String, if◌then◌else◌, length, string_key, ◌⊎◌,
}
use mit_6_824_distributed_sy.Rpc.{PutArgs, Err}
use mit_6_824_distributed_sy.Kv.Server.{KvServer, put}
use mit_6_824_distributed_sy.Kv.StateMachine.{put_args}
use mit_6_824_distributed_sy.Kv.Replicated.{serve, do_op-serve}
use mit_6_824_distributed_sy.Kv.Versions.{version_at}
use mit_6_824_distributed_sy.Kv.Clerk.{answer}
use mit_6_824_distributed_sy.Kv.Clerk.History.{put-version-grows}
use mit_6_824_distributed_sy.Kv.Clerk.AtMostOnce.{stale_put, done_put}
use mit_6_824_distributed_sy.Kv.Failover.{
  Clerk, Execution, other, late, Attempt, unheard, answered, commit_put, run_executions, Outcome,
  put_loop, clerk_put,
}

-- The replicated store and the single server execute a put alike.
pub commit_put-put :
    (kv : KvServer) (args : PutArgs) → commit_put kv args ≡ ((put kv args).0, (put kv args).1.err)
unfolding commit_put serve
commit_put-put kv args = rw (do_op-serve kv (put_args args)) refl

-- What one execution does to the version of a key, and when it succeeds.
record Executes (kv kv' : KvServer) (args : PutArgs) (err : Err) : Type 0 where
  grows :
      (k : String)
      → version_at kv k + 1 < 2 ^ 64
      → (version_at kv k ≤ version_at kv' k) × (version_at kv' k ≤ version_at kv k + 1)
  stale : args.ver < version_at kv args.key → err ≡ Err.version
  passes : version_at kv args.key + 1 < 2 ^ 64 → err ≡ Err.ok → args.ver < version_at kv' args.key

commit_put-Executes :
    (kv : KvServer) (args : PutArgs)
    → Executes kv (commit_put kv args).0 args (commit_put kv args).1
commit_put-Executes kv args = rw (commit_put-put kv args) (record {
  grows = λ k h. put-version-grows kv args k h;
  stale = λ h. (stale_put kv args h).0;
  passes = λ h e. omega (arith, done_put kv args h e);
})

-- Between two attempts: the version does not fall, and at most one of the clerk's own requests
-- succeeds, which raises the version past the one that it names.
record Passes (kv kv' : KvServer) (args : PutArgs) (sent : Bool) (n bound : ℕ) : Type 0 where
  low : version_at kv args.key ≤ version_at kv' args.key
  high : version_at kv' args.key ≤ version_at kv args.key + bound
  once : n ≤ 1
  stale : args.ver < version_at kv args.key → n ≡ 0
  passed : n ≡ 1 → args.ver < version_at kv' args.key
  unsent : sent ≡ false → n ≡ 0

run_executions-Passes :
    (kv : KvServer) (args : PutArgs) (sent : Bool) (es : List Execution)
    → version_at kv args.key + length es < 2 ^ 64
    → Passes kv
        (run_executions kv args sent es).0
        args
        sent
        (run_executions kv args sent es).1
        (length es)
unfolding run_executions
run_executions-Passes kv args sent [] b = ground arith
run_executions-Passes kv args sent (other args' ∷ more) b =
    let x = commit_put-Executes kv args' in
    let g = x.grows args.key (omega arith) in
    let ih = run_executions-Passes (commit_put kv args').0 args sent more (omega arith) in
    ground (arith, g, ih)
run_executions-Passes kv args false (late ∷ more) b =
    let ih = run_executions-Passes kv args false more (omega arith) in ground (arith, ih)
run_executions-Passes kv args true (late ∷ more) b =
    let x = commit_put-Executes kv args in
    let g = x.grows args.key (omega arith) in
    let ih = run_executions-Passes (commit_put kv args).0 args true more (omega arith) in
    ground (arith, g, x.stale, x.passes (omega arith), ih)

abbrev pub work : List (Attempt Execution) → ℕ
work [] = 0
work (unheard before ∷ rest) = length before + work rest
work (answered before after ∷ rest) = length before + 1 + length after + work rest

-- What the answer says about the executions up to the moment when the clerk returns.
pub record Promise (o : Outcome) : Type 0 where
  pub at_most_once : o.performed ≤ 1
  pub ok_performed : o.result ≡ some Err.ok → o.performed ≡ 1
  pub version_not_performed : o.result ≡ some Err.version → o.performed ≡ 0
  pub no_key_at_answer : o.result ≡ some Err.no_key → o.at_answer ≡ 0
  pub no_key_at_once : o.result ≡ some Err.no_key → length o.asked ≡ 1 → o.performed ≡ 0

-- The same with what holds once the version has passed the one named.
record Keeps (kv : KvServer) (args : PutArgs) (first : Bool) (o : Outcome) : Type 0 where
  at_most_once : o.performed ≤ 1
  ok_performed : o.result ≡ some Err.ok → o.performed ≡ 1
  version_not_performed : o.result ≡ some Err.version → o.performed ≡ 0
  version_first : o.result ≡ some Err.version → first ≡ true
  no_key_at_answer : o.result ≡ some Err.no_key → o.at_answer ≡ 0
  no_key_first : o.result ≡ some Err.no_key → first ≡ true → length o.asked ≡ 1 → o.performed ≡ 0
  asks : o.result ≢ none → 1 ≤ length o.asked
  nothing_more : args.ver < version_at kv args.key → o.performed ≡ 0
  maybe_only :
      args.ver < version_at kv args.key
      → first ≡ false
      → (o.result ≡ none) ⊎ (o.result ≡ some Err.maybe)

put_loop-Keeps :
    (ck : Clerk) (leader : ℕ) (kv : KvServer) (args : PutArgs) (first : Bool)
    (attempts : List (Attempt Execution))
    → version_at kv args.key + work attempts < 2 ^ 64
    → Keeps kv args first (put_loop ck leader kv args first attempts)
unfolding put_loop answer
put_loop-Keeps ck leader kv args first [] b = ground arith
put_loop-Keeps ck leader kv args first (unheard before ∷ rest) b =
    let p = run_executions-Passes kv args (if first then false else true) before (omega arith) in
    let kv' = (run_executions kv args (if first then false else true) before).0 in
    let ih =
      put_loop-Keeps ck ((leader + 1) % ck.servers) kv' args false rest (omega (arith, p.high)) in
    ground (arith, p, ih)
put_loop-Keeps ck leader kv args first (answered before after ∷ rest) b =
    let p = run_executions-Passes kv args (if first then false else true) before (omega arith) in
    let kv' = (run_executions kv args (if first then false else true) before).0 in
    let x = commit_put-Executes kv' args in
    let g = x.grows args.key (omega (arith, p.high)) in
    let q =
      run_executions-Passes (commit_put kv' args).0 args (if first then false else true) after
        (omega (arith, p.high, g)) in
    ground (arith, p, x.stale, x.passes (omega (arith, p.high)), g, q)

-- Whatever becomes of its requests, executed at once, later than the clerk goes on, or never, and
-- whatever other clients put, as long as the version counter does not wrap: up to the moment when
-- a clerk's put returns, at most one of its requests has changed the store; one has if it returns
-- OK, and none has if it returns ErrVersion. If it returns ErrNoKey, none had when the request that
-- was answered had been executed, and none has when the put returns if it called only one server.
pub failover-Promise :
    (ck : Clerk) (kv : KvServer) (args : PutArgs) (attempts : List (Attempt Execution))
    → version_at kv args.key + work attempts < 2 ^ 64
    → Promise (clerk_put ck kv args attempts)
unfolding clerk_put
failover-Promise ck kv args attempts b =
    let k = put_loop-Keeps ck ck.leader kv args true attempts b in
    record {
      at_most_once = k.at_most_once;
      ok_performed = k.ok_performed;
      version_not_performed = k.version_not_performed;
      no_key_at_answer = k.no_key_at_answer;
      no_key_at_once = λ e one. k.no_key_first e refl one;
    }
