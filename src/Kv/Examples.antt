-- ===== src/Kv/Examples.antt =====
-- The theorems about kvsrv1 and kvraft1 at concrete stores, and runs of the handlers.
mod Gob
mod Replicas
use mit_6_824_distributed_sy.Prelude.{
  ℕ, ◌≡◌, ◌≢◌, ◌↔◌, ◌⊎◌, refl, none, some, [], ◌∷◌, lookup, insert, string_key, arith, List, true,
  false,
}
use mit_6_824_distributed_sy.Rpc.{PutArgs, GetArgs, Err}
use mit_6_824_distributed_sy.Kv.Server.{KvServer, ValueVersion, get, put, make_kv_server}
use mit_6_824_distributed_sy.Kv.StateMachine.{do_op, put_args}
use mit_6_824_distributed_sy.Kv.Versions.{put_answers, lookup-put, after_put, version_at}
use mit_6_824_distributed_sy.Kv.Replicated.{serve, do_op-serve}
use mit_6_824_distributed_sy.Kv.Checker.{
  step, puts, gets, view_at, of_put, of_get, step-put, step-get,
}
use mit_6_824_distributed_sy.Kv.Clerk.{
  Attempt, lost_request, lost_reply, delivered, clerk_put, clerk_get, work,
}
use mit_6_824_distributed_sy.Kv.Clerk.History.{run_puts}
use mit_6_824_distributed_sy.Kv.Clerk.AtMostOnce.{
  Promise, clerk_put-Promise, clerk-returns, has_delivery, seen_by_get, clerk_get-linearizes,
}

abbrev store_x : KvServer
store_x = record { store = ("x", record { val = "1"; ver = 3 }) ∷ [] }

abbrev put_x : PutArgs
put_x = record { key = "x"; value = "2"; ver = 3 }

abbrev get_x : GetArgs
get_x = record { key = "x" }

-- The first request is lost on its way, the reply to the second is lost, and another client's put
-- comes before the third.
abbrev rough : List Attempt
rough =
    lost_request []
    ∷ lost_reply []
    ∷ delivered (record { key = "x"; value = "9"; ver = 4 } ∷ [])
    ∷ []

put_run : (put store_x put_x).1.err ≡ Err.ok
unfolding put lookup
put_run = refl

put_missing_run : (put make_kv_server put_x).1.err ≡ Err.no_key
unfolding put lookup make_kv_server
put_missing_run = refl

clerk_maybe_run : (clerk_put store_x put_x true rough).result ≡ some Err.maybe
unfolding clerk_put put lookup insert run_puts
clerk_maybe_run = refl

put_answers_example :
    ((put store_x put_x).1.err ≡ Err.ok ↔ version_at store_x "x" ≡ 3)
    × ((put store_x put_x).1.err ≡ Err.no_key
        ↔ (lookup "x" store_x.store ≡ none) × (◌≢◌ {A = ℕ} 3 0))
    × ((put store_x put_x).1.err ≡ Err.version
        ↔ (item : ValueVersion) × (lookup "x" store_x.store ≡ some item) × (item.ver ≢ 3))
put_answers_example = put_answers store_x put_x

lookup-put_example : lookup "y" (put store_x put_x).0.store ≡ after_put store_x put_x "y"
lookup-put_example = lookup-put store_x put_x "y"

do_op-serve_example :
    do_op store_x.store (put_args put_x)
    ≡ ((serve store_x (put_args put_x)).0.store, (serve store_x (put_args put_x)).1)
do_op-serve_example = do_op-serve store_x (put_args put_x)

step-get_example :
    step (view_at store_x "x") gets (of_get (get store_x get_x)) ≡ (true, view_at store_x "x")
step-get_example = step-get store_x get_x

step-put_example :
    step (view_at make_kv_server "x") (puts "2" 3) (of_put (put make_kv_server put_x).1)
    ≡ (false, view_at (put make_kv_server put_x).0 "x")
unfolding put make_kv_server lookup
step-put_example = step-put make_kv_server put_x

clerk_put-Promise_example :
    Promise (clerk_put store_x put_x true rough).replies (clerk_put store_x put_x true rough).result
unfolding lookup work
clerk_put-Promise_example = clerk_put-Promise store_x put_x rough (omega arith)

clerk-returns_example :
    ((clerk_put store_x put_x true rough).result ≢ none ↔ has_delivery rough ≡ true)
    × ((clerk_get store_x get_x rough).1 ≢ none ↔ has_delivery rough ≡ true)
clerk-returns_example = clerk-returns store_x put_x get_x true rough

clerk_get-linearizes_example :
    ((clerk_get store_x get_x rough).0 ≡ run_puts store_x (seen_by_get rough))
    × (((clerk_get store_x get_x rough).1 ≡ none)
        ⊎ ((clerk_get store_x get_x rough).1 ≡ some (get (clerk_get store_x get_x rough).0 get_x)))
clerk_get-linearizes_example = clerk_get-linearizes store_x get_x rough
