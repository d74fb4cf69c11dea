-- ===== src/Kv/Clerk.antt =====
-- kvsrv1/client.go: the clerk's retry loops over a network that loses requests and replies.
-- A run is given by the list of its attempts: what the network does with each one, and the puts of
-- other clients that the server executes before it. `Call` returns false for an attempt that
-- loses its request or its reply.
pub mod History
pub mod AtMostOnce
use mit_6_824_distributed_sy.Prelude.{
  ℕ, ◌+◌, Bool, true, false, Option, none, some, List, [], ◌∷◌, if◌then◌else◌, suc, length,
}
use mit_6_824_distributed_sy.Rpc.{PutArgs, PutReply, GetArgs, GetReply, Err, is_ok, is_version}
use mit_6_824_distributed_sy.Kv.Server.{KvServer, get, put}
use History.{run_puts}

pub data Attempt : Type 0 where
  lost_request lost_reply delivered : (before : List PutArgs) → Attempt

-- How a run ended: the server, what it answered to each of the clerk's requests that reached it,
-- and what the clerk returned, or `none` while it still retries.
pub record Outcome : Type 0 where
  pub server : KvServer
  pub replies : List Err
  pub result : Option Err

-- The error that `Put` returns for a reply's error.
unfoldable pub answer : Bool → Err → Err
answer first err = if is_version err then (if first then Err.version else Err.maybe) else err

-- One round of the loop of `Clerk.Put`, `rest` being the rounds after it.
unfoldable pub clerk_put : KvServer → PutArgs → Bool → List Attempt → Outcome
unfolding answer
clerk_put kv args first [] = record { server = kv; replies = []; result = none }
clerk_put kv args first (lost_request before ∷ rest) =
    clerk_put (run_puts kv before) args false rest
clerk_put kv args first (lost_reply before ∷ rest) =
    let (kv', reply) = put (run_puts kv before) args in
    let later = clerk_put kv' args false rest in
    record later { replies = reply.err ∷ later.replies }
clerk_put kv args first (delivered before ∷ rest) =
    let (kv', reply) = put (run_puts kv before) args in
    record { server = kv'; replies = reply.err ∷ []; result = some (answer first reply.err) }

-- `Clerk.Get`
unfoldable pub clerk_get : KvServer → GetArgs → List Attempt → KvServer × Option GetReply
clerk_get kv args [] = (kv, none)
clerk_get kv args (lost_request before ∷ rest) = clerk_get (run_puts kv before) args rest
clerk_get kv args (lost_reply before ∷ rest) = clerk_get (run_puts kv before) args rest
clerk_get kv args (delivered before ∷ rest) =
    let kv' = run_puts kv before in (kv', some (get kv' args))

-- The number of requests that changed the store.
pub performed : List Err → ℕ
performed [] = 0
performed (e ∷ es) = (if is_ok e then 1 else 0) + performed es

-- An upper bound on the puts that a run makes the server execute.
unfoldable pub work : List Attempt → ℕ
work [] = 0
work (lost_request before ∷ rest) = length before + work rest
work (lost_reply before ∷ rest) = suc (length before + work rest)
work (delivered before ∷ rest) = suc (length before + work rest)
