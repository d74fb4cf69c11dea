-- ===== src/Kv/Replicated.antt =====
-- The replicated server of kvraft1/server.go against the single server of kvsrv1/server.go.
use mit_6_824_distributed_sy.Prelude.{◌≡◌, refl, string_key, arith}
use mit_6_824_distributed_sy.Kv.Server.{KvServer, get, put}
use mit_6_824_distributed_sy.Kv.StateMachine.{
  Request, get_args, put_args, unknown, Response, get_reply, put_reply, nothing, do_op,
}

-- The handlers of kvsrv1, called by the kind of the request.
unfoldable pub serve : KvServer → Request → KvServer × Response
serve kv (get_args args) = (kv, get_reply (get kv args))
serve kv (put_args args) = let (kv', r) = put kv args in (kv', put_reply r)
serve kv unknown = (kv, nothing)

-- Applying a committed request to the replicated store changes the store and answers exactly as
-- the handlers of the single server do, for every store and every request.
pub do_op-serve :
    (kv : KvServer) (req : Request)
    → do_op kv.store req ≡ ((serve kv req).0.store, (serve kv req).1)
unfolding do_op serve put get
do_op-serve kv (get_args args) = ground arith
do_op-serve kv (put_args args) = ground arith
do_op-serve kv unknown = refl
