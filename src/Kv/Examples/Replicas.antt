-- ===== src/Kv/Examples/Replicas.antt =====
-- The theorems about kvraft1/server.go at a concrete replica.
use mit_6_824_distributed_sy.Prelude.{
  ◌≡◌, refl, none, some, [], ◌∷◌, lookup, insert, arith, List, true,
}
use mit_6_824_distributed_sy.Rpc.{PutArgs, PutReply, GetArgs, Err}
use mit_6_824_distributed_sy.Raft.State.{command_msg}
use mit_6_824_distributed_sy.Kv.Server.{Store, KvServer, get}
use mit_6_824_distributed_sy.Kv.Clerk.{answer}
use mit_6_824_distributed_sy.Kv.Clerk.History.{run_puts}
use mit_6_824_distributed_sy.Kv.Failover.{
  Clerk, Execution, other, late, Attempt, unheard, answered, commit_put, run_executions, put_loop,
  clerk_put, clerk_get,
}
use mit_6_824_distributed_sy.Kv.Failover.Once.{Promise, failover-Promise}
use mit_6_824_distributed_sy.Kv.Failover.Rotation.{Calls, clerk_put-Calls, clerk_get-reads}
use mit_6_824_distributed_sy.Kv.StateMachine.{
  Request, put_args, put_reply, do_op, snapshot, restore, service, op_or_panic, handle_put,
}
use mit_6_824_distributed_sy.Kv.Restore.{run_ops, restore-run_ops}
use mit_6_824_distributed_sy.Kv.Handlers.{by_put, handler-Executed}
use mit_6_824_distributed_sy.Rsm.Layer.{
  Op, Notification, submitted, applies, run, step, make_rsm, register, poll, hear, apply_msg,
  execute, notify,
}
use mit_6_824_distributed_sy.Rsm.Answers.{Executed}
use mit_6_824_distributed_sy.Kv.Examples.Gob.{gob}

abbrev taken : Store
taken = ("x", record { val = "1"; ver = 3 }) ∷ []

restore-run_ops_example :
    (store' : Store) × (restore gob [] (snapshot gob taken) ≡ some store')
    × ((reqs : List Request) → run_ops store' reqs ≡ run_ops taken reqs)
restore-run_ops_example = restore-run_ops gob [] taken

abbrev put_x : Op (service gob)
put_x = submitted (service gob) 9 5 (put_args (record { key = "x"; value = "2"; ver = 3 }))

abbrev ok_reply : PutReply
ok_reply = record { err = Err.ok }

abbrev heard : Notification (service gob)
heard = record { id = 9; term = 5; result = put_reply ok_reply }

handler-Executed_example : Executed (service gob) ((2, put_x, put_reply ok_reply) ∷ []) 2 heard
unfolding run step make_rsm register poll hear apply_msg execute notify lookup insert op_or_panic
    do_op handle_put
handler-Executed_example =
    handler-Executed gob (some taken) none [] [] (applies (command_msg (some put_x) 2) 0 ∷ []) 2 5 9
      (5, true) refl (by_put ok_reply refl (λ e. cc))

-- The second server answers nothing, the third one that it does not lead; then the request to the
-- second is executed after all, and the first server answers.
abbrev clerk : Clerk
clerk = record { servers = 3; leader = 1 }

abbrev kv : KvServer
kv = record { store = taken }

abbrev attempts : List (Attempt Execution)
attempts = unheard [] ∷ unheard [] ∷ answered (late ∷ []) [] ∷ []

abbrev args_x : PutArgs
args_x = record { key = "x"; value = "2"; ver = 3 }

failover_run :
    ((clerk_put clerk kv args_x attempts).performed ≡ 1)
    × ((clerk_put clerk kv args_x attempts).result ≡ some Err.maybe)
    × ((clerk_put clerk kv args_x attempts).asked ≡ 1 ∷ 2 ∷ 0 ∷ [])
unfolding clerk_put put_loop run_executions commit_put do_op lookup insert answer
failover_run = (refl, refl, refl)

failover-Promise_example : Promise (clerk_put clerk kv args_x attempts)
unfolding lookup
failover-Promise_example = failover-Promise clerk kv args_x attempts (omega arith)

-- The key is missing when the resent request is executed; another client then creates it, and the
-- first request is executed before the answer arrives.
abbrev missed : List (Attempt Execution)
missed =
    unheard [] ∷ answered [] (other (record { key = "y"; value = "1"; ver = 0 }) ∷ late ∷ []) ∷ []

no_key_run :
    ((clerk_put clerk kv (record { key = "y"; value = "2"; ver = 1 }) missed).result
      ≡ some Err.no_key)
    × ((clerk_put clerk kv (record { key = "y"; value = "2"; ver = 1 }) missed).at_answer ≡ 0)
    × ((clerk_put clerk kv (record { key = "y"; value = "2"; ver = 1 }) missed).performed ≡ 1)
unfolding clerk_put put_loop run_executions commit_put do_op lookup insert answer
no_key_run = (refl, refl, refl)

clerk_put-Calls_example : Calls clerk attempts (clerk_put clerk kv args_x attempts)
clerk_put-Calls_example = clerk_put-Calls clerk kv args_x attempts (omega arith)

abbrev args_y : PutArgs
args_y = record { key = "x"; value = "3"; ver = 4 }

abbrev get_x : GetArgs
get_x = record { key = "x" }

abbrev reads : List (Attempt PutArgs)
reads = unheard [] ∷ answered (args_x ∷ []) (args_y ∷ []) ∷ []

clerk_get-reads_example :
    ((clerk_get clerk kv get_x reads).1 ≡ run_puts kv (args_x ∷ args_y ∷ []))
    × ((clerk_get clerk kv get_x reads).2 ≡ some (get (run_puts kv (args_x ∷ [])) get_x))
clerk_get-reads_example = clerk_get-reads clerk kv get_x reads
