-- ===== src/Kv/Failover/Rotation.antt =====
-- Which servers the clerk of kvraft1/client.go calls, when it returns, and what a get returns.
use mit_6_824_distributed_sy.Prelude.{
  ℕ, ◌+◌, ◌%◌, ◌<◌, ◌≡◌, ◌≢◌, ◌↔◌, refl, Bool, true, false, Option, none, some, List, [], ◌∷◌, ◌++◌,
  ◌∙◌, ap, sym, arith, if◌then◌else◌,
}
use native.Mathlib.Nat.{mod-lt}
use mit_6_824_distributed_sy.Rpc.{PutArgs, GetArgs}
use mit_6_824_distributed_sy.Kv.Server.{KvServer, get, put}
use mit_6_824_distributed_sy.Kv.StateMachine.{get_args}
use mit_6_824_distributed_sy.Kv.Replicated.{serve, do_op-serve}
use mit_6_824_distributed_sy.Kv.Clerk.History.{run_puts}
use mit_6_824_distributed_sy.Kv.Clerk.AtMostOnce.{run_puts-append}
use mit_6_824_distributed_sy.Kv.Failover.Once.{commit_put-put}
use mit_6_824_distributed_sy.Kv.Failover.{
  Clerk, Execution, Attempt, unheard, answered, run_executions, run_commits, Outcome, put_loop,
  get_loop, reply_of, clerk_put, clerk_get,
}

-- Every index is that of a server.
abbrev pub InRange : ℕ → List ℕ → Type 0
InRange n [] = Unit {0}
InRange n (i ∷ is) = (i < n) × InRange n is

abbrev pub has_answer : {E : Type 0} → List (Attempt E) → Bool
has_answer [] = false
has_answer (unheard before ∷ rest) = has_answer rest
has_answer (answered before after ∷ rest) = true

-- The last server that was called.
abbrev or_first : ℕ → Option ℕ → Option ℕ
or_first i none = some i
or_first i (some j) = some j

abbrev pub last_asked : List ℕ → Option ℕ
last_asked [] = none
last_asked (i ∷ is) = or_first i (last_asked is)

-- The calls of a run of `Put`.
pub record Calls (ck : Clerk) (attempts : List (Attempt Execution)) (o : Outcome) : Type 0 where
  pub in_range : InRange ck.servers o.asked
  pub same_servers : o.clerk.servers ≡ ck.servers
  pub returns : o.result ≢ none ↔ has_answer attempts ≡ true
  pub remembers : o.result ≢ none → last_asked o.asked ≡ some o.clerk.leader

put_loop-Calls :
    (ck : Clerk) (leader : ℕ) (kv : KvServer) (args : PutArgs) (first : Bool)
    (attempts : List (Attempt Execution))
    → leader < ck.servers
    → Calls ck attempts (put_loop ck leader kv args first attempts)
unfolding put_loop
put_loop-Calls ck leader kv args first [] l = record {
  in_range = tt;
  same_servers = refl;
  returns = (λ h. absurd (h refl), λ h. cc);
  remembers = λ h. absurd (h refl);
}
put_loop-Calls ck leader kv args first (unheard before ∷ rest) l =
    let kv' = (run_executions kv args (if first then false else true) before).0 in
    let ih =
      put_loop-Calls ck ((leader + 1) % ck.servers) kv' args false rest
        (mod-lt (leader + 1) (omega arith)) in
    record {
      in_range = (l, ih.in_range);
      same_servers = ih.same_servers;
      returns = ih.returns;
      remembers = λ h. rw (ih.remembers h) refl;
    }
put_loop-Calls ck leader kv args first (answered before after ∷ rest) l = record {
  in_range = (l, tt);
  same_servers = refl;
  returns = (λ _. refl, λ _ h. cc);
  remembers = λ _. refl;
}

pub clerk_put-Calls :
    (ck : Clerk) (kv : KvServer) (args : PutArgs) (attempts : List (Attempt Execution))
    → ck.leader < ck.servers
    → Calls ck attempts (clerk_put ck kv args attempts)
unfolding clerk_put
clerk_put-Calls ck kv args attempts l = put_loop-Calls ck ck.leader kv args true attempts l

-- The puts that are executed until a run of `Get` is answered, and until it returns.
abbrev pub until_answer : List (Attempt PutArgs) → List PutArgs
until_answer [] = []
until_answer (unheard before ∷ rest) = before ++ until_answer rest
until_answer (answered before after ∷ rest) = before

abbrev pub until_return : List (Attempt PutArgs) → List PutArgs
until_return [] = []
until_return (unheard before ∷ rest) = before ++ until_return rest
until_return (answered before after ∷ rest) = before ++ after

-- The replicas execute puts as the single server does.
run_commits-run_puts : (kv : KvServer) (ops : List PutArgs) → run_commits kv ops ≡ run_puts kv ops
unfolding run_commits run_puts
run_commits-run_puts kv [] = refl
run_commits-run_puts kv (args ∷ more) =
    ap (λ c. run_commits c.0 more) (commit_put-put kv args)
    ∙ run_commits-run_puts (put kv args).0 more

-- The puts of a run before its next attempts, and after them.
run_commits-append :
    (kv : KvServer) (before more : List PutArgs)
    → run_puts (run_commits kv before) more ≡ run_puts kv (before ++ more)
run_commits-append kv before more =
    ap (λ s. run_puts s more) (run_commits-run_puts kv before)
    ∙ sym (run_puts-append kv before more)

get_loop-reads :
    (ck : Clerk) (leader : ℕ) (kv : KvServer) (args : GetArgs) (attempts : List (Attempt PutArgs))
    → ((get_loop ck leader kv args attempts).1 ≡ run_puts kv (until_return attempts))
      × ((get_loop ck leader kv args attempts).2 ≡ (
          if has_answer attempts
          then some (get (run_puts kv (until_answer attempts)) args)
          else none))
unfolding get_loop run_puts serve
get_loop-reads ck leader kv args [] = (refl, refl)
get_loop-reads ck leader kv args (unheard before ∷ rest) =
    let kv' = run_commits kv before in
    let ih = get_loop-reads ck ((leader + 1) % ck.servers) kv' args rest in
    (
      ih.0 ∙ run_commits-append kv before (until_return rest),
      ih.1
          ∙ ap (λ s. if has_answer rest then some (get s args) else none)
              (run_commits-append kv before (until_answer rest)),
    )
get_loop-reads ck leader kv args (answered before after ∷ rest) =
    let kv' = run_commits kv before in
    (
      run_commits-run_puts kv' after ∙ run_commits-append kv before after,
      ap (λ c. some (reply_of c.1)) (do_op-serve kv' (get_args args))
          ∙ ap (λ s. some (get s args)) (run_commits-run_puts kv before),
    )

-- A clerk's get returns exactly if one of its calls is answered, whatever is lost and whoever leads.
-- Then its reply is the one that the single server of kvsrv1 gives after exactly the puts that have
-- been executed before the request that was answered; and the get itself changes nothing: the store
-- is the one that the single server makes of the puts executed until the get returns.
pub clerk_get-reads :
    (ck : Clerk) (kv : KvServer) (args : GetArgs) (attempts : List (Attempt PutArgs))
    → ((clerk_get ck kv args attempts).1 ≡ run_puts kv (until_return attempts))
      × ((clerk_get ck kv args attempts).2 ≡ (
          if has_answer attempts
          then some (get (run_puts kv (until_answer attempts)) args)
          else none))
unfolding clerk_get
clerk_get-reads ck kv args attempts = get_loop-reads ck ck.leader kv args attempts
