-- ===== src/Kv/Failover.antt =====
-- kvraft1/client.go: the clerk of the replicated service, which goes from server to server.
-- A run is the list of its attempts. A call that fails or is answered with ErrWrongLeader may all
-- the same have put its request into a log, to be executed at any later time, or never.
pub mod Once
pub mod Rotation
use mit_6_824_distributed_sy.Prelude.{
  ℕ, ◌+◌, ◌%◌, Bool, true, false, Option, none, some, List, [], ◌∷◌, if◌then◌else◌, length,
}
use mit_6_824_distributed_sy.Rpc.{PutArgs, GetArgs, GetReply, Err, is_ok, empty_get}
use mit_6_824_distributed_sy.Kv.Server.{KvServer}
use mit_6_824_distributed_sy.Kv.StateMachine.{
  Response, get_reply, put_reply, nothing, get_args, put_args, do_op,
}
use mit_6_824_distributed_sy.Kv.Clerk.{answer}

-- `Clerk`: the number of its servers, and the one that answered last.
pub record Clerk : Type 0 where
  pub servers : ℕ
  pub leader : ℕ

-- What the replicated state machine executes: another client's put, or a request of this clerk
-- that an earlier attempt left in a log.
pub data Execution : Type 0 where
  other : (args : PutArgs) → Execution
  late : Execution

-- An attempt, with what is executed before it; for one that is answered, that is up to its own
-- request, and what is executed after its own request until the clerk's call returns: the server
-- that waits for the result looks for it now and then, and its reply has to travel.
pub data Attempt (E : Type 0) : Type 0 where
  unheard : (before : List E) → Attempt E
  answered : (before after : List E) → Attempt E

abbrev err_of : Response → Err
err_of (put_reply r) = r.err
err_of _ = Err.other

-- The execution of a committed put.
unfoldable pub commit_put : KvServer → PutArgs → KvServer × Err
commit_put kv args =
    let (store, res) = do_op kv.store (put_args args) in (record { store = store }, err_of res)

abbrev pub count_ok : Err → ℕ
count_ok err = if is_ok err then 1 else 0

-- The executions in their order, and how many of the clerk's own changed the store. Nothing of it
-- is in a log unless it has sent something.
unfoldable pub run_executions : KvServer → PutArgs → Bool → List Execution → KvServer × ℕ
run_executions kv args sent [] = (kv, 0)
run_executions kv args sent (other args' ∷ more) =
    run_executions (commit_put kv args').0 args sent more
run_executions kv args false (late ∷ more) = run_executions kv args false more
run_executions kv args true (late ∷ more) =
    let (kv', err) = commit_put kv args in
    let (kv'', n) = run_executions kv' args true more in (kv'', count_ok err + n)

-- How a run of `Put` ended: the clerk, the replicated store, how many of its requests changed it,
-- the servers that it called, and what it returned, if it has returned. `at_answer` is how many of
-- its requests had changed the store once the one that was answered had been executed.
pub record Outcome : Type 0 where
  pub clerk : Clerk
  pub server : KvServer
  pub performed : ℕ
  pub at_answer : ℕ
  pub asked : List ℕ
  pub result : Option Err

-- The loop of `Clerk.Put`, at the server `leader`.
unfoldable pub put_loop : Clerk → ℕ → KvServer → PutArgs → Bool → List (Attempt Execution) → Outcome
put_loop ck leader kv args first [] = record {
  clerk = ck;
  server = kv;
  performed = 0;
  at_answer = 0;
  asked = [];
  result = none;
}
put_loop ck leader kv args first (unheard before ∷ rest) =
    let (kv', n) = run_executions kv args (if first then false else true) before in
    let later = put_loop ck ((leader + 1) % ck.servers) kv' args false rest in
    record later {
      performed = n + later.performed;
      at_answer = n + later.at_answer;
      asked = leader ∷ later.asked;
    }
put_loop ck leader kv args first (answered before after ∷ rest) =
    let (kv', n) = run_executions kv args (if first then false else true) before in
    let (kv'', err) = commit_put kv' args in
    let (kv3, m) = run_executions kv'' args (if first then false else true) after in
    record {
      clerk = record ck { leader = leader };
      server = kv3;
      performed = n + count_ok err + m;
      at_answer = n + count_ok err;
      asked = leader ∷ [];
      result = some (answer first err);
    }

-- `Clerk.Put`
unfoldable pub clerk_put : Clerk → KvServer → PutArgs → List (Attempt Execution) → Outcome
clerk_put ck kv args attempts = put_loop ck ck.leader kv args true attempts

abbrev pub reply_of : Response → GetReply
reply_of (get_reply r) = r
reply_of _ = empty_get

unfoldable pub run_commits : KvServer → List PutArgs → KvServer
run_commits kv [] = kv
run_commits kv (args ∷ more) = run_commits (commit_put kv args).0 more

-- The loop of `Clerk.Get`, at the server `leader`: the clerk, the replicated store and the reply
-- with which it returns. Its own requests change nothing whenever they are executed.
unfoldable pub get_loop :
    Clerk → ℕ → KvServer → GetArgs → List (Attempt PutArgs) → Clerk × KvServer × Option GetReply
get_loop ck leader kv args [] = (ck, kv, none)
get_loop ck leader kv args (unheard before ∷ rest) =
    get_loop ck ((leader + 1) % ck.servers) (run_commits kv before) args rest
get_loop ck leader kv args (answered before after ∷ rest) =
    let kv' = run_commits kv before in
    (
      record ck { leader = leader },
      run_commits kv' after,
      some (reply_of (do_op kv'.store (get_args args)).1),
    )

-- `Clerk.Get`
unfoldable pub clerk_get :
    Clerk → KvServer → GetArgs → List (Attempt PutArgs) → Clerk × KvServer × Option GetReply
clerk_get ck kv args attempts = get_loop ck ck.leader kv args attempts
