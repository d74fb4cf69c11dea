-- ===== src/Kv/StateMachine.antt =====
-- kvraft1/server.go: `DoOp`, the state machine that the replicated log drives, with `Snapshot`,
-- `Restore`, and the RPC handlers over `Submit`.
use mit_6_824_distributed_sy.Prelude.{
  ℕ, ◌+◌, ◌≡◌, ◌≢◌, Option, none, some, List, [], ◌∷◌, String, if◌then◌else◌, ◌==◌, lookup, insert,
  string_key, not,
}
use mit_6_824_distributed_sy.Rpc.{
  u64, PutArgs, PutReply, GetArgs, GetReply, Err, empty_get, empty_put,
}
use mit_6_824_distributed_sy.Kv.Server.{Store}
use mit_6_824_distributed_sy.Rsm.Layer.{StateMachine}

-- The argument of `DoOp`, an `any`: the two request types it knows, or anything else.
pub data Request : Type 0 where
  get_args : GetArgs → Request
  put_args : PutArgs → Request
  unknown : Request

-- What `DoOp` returns: a reply of the request's kind, or `nil`.
pub data Response : Type 0 where
  get_reply : GetReply → Response
  put_reply : PutReply → Response
  nothing : Response

do_get : Store → GetArgs → GetReply
do_get store args = elim (lookup args.key store) [
  | none ↦ record empty_get { err = Err.no_key }
  | some item ↦ record empty_get { value = item.val; ver = item.ver; err = Err.ok }
]

do_put : Store → PutArgs → Store × PutReply
do_put store args = elim (lookup args.key store) [
  | none ↦
      if args.ver == 0
      then (
        insert args.key (record { val = args.value; ver = 1 }) store,
        record empty_put { err = Err.ok },
      )
      else (store, record empty_put { err = Err.no_key })
  | some item ↦
      if not (item.ver == args.ver) then (store, record empty_put { err = Err.version }) else (
        insert args.key (record { val = args.value; ver = u64 (item.ver + 1) }) store,
        record empty_put { err = Err.ok },
      )
]

-- `KVServer.DoOp`: the new store and the result.
unfoldable pub do_op : Store → Request → Store × Response
unfolding do_get do_put
do_op store (get_args args) = (store, get_reply (do_get store args))
do_op store (put_args args) = let (s, r) = do_put store args in (s, put_reply r)
do_op store unknown = (store, nothing)

-- labgob on the store. A map has no order, so what is decoded agrees key by key.
pub record StoreCodec : Type 0 where
  pub encode : Store → List ℕ
  pub decode : List ℕ → Option Store
  pub decode_encode :
      (s : Store)
      → (s' : Store) × (decode (encode s) ≡ some s') × ((k : String) → lookup k s' ≡ lookup k s)
  pub encode_nonempty : (s : Store) → encode s ≢ []

module _ (gob : StoreCodec) where
  -- `KVServer.Snapshot`
  abbrev pub snapshot : Store → List ℕ
  snapshot store = gob.encode store

  -- `KVServer.Restore`; data that does not decode is a panic.
  unfoldable pub restore : Store → List ℕ → Option Store
  restore store [] = some store
  restore store (b ∷ bytes) = gob.decode (b ∷ bytes)

  unfoldable pub op_or_panic : Option Store → Request → Option Store × Response
  op_or_panic none req = (none, nothing)
  op_or_panic (some store) req = let (s, r) = do_op store req in (some s, r)

  unfoldable pub snapshot_or_panic : Option Store → List ℕ
  snapshot_or_panic none = []
  snapshot_or_panic (some store) = snapshot store

  unfoldable pub restore_or_panic : Option Store → List ℕ → Option Store
  unfolding restore
  restore_or_panic none bytes = none
  restore_or_panic (some store) bytes = restore store bytes

  -- The server as the state machine of its replicated log; `none` once it has panicked.
  abbrev pub service : StateMachine
  service = record {
    State = Option Store;
    Request = Request;
    Response = Response;
    do_op = op_or_panic;
    snapshot = snapshot_or_panic;
    restore = restore_or_panic;
  }

-- `KVServer.Get` once `Submit` has returned; a result of another kind panics.
unfoldable pub handle_get : Err × Option Response → Option GetReply
handle_get (Err.ok, some (get_reply reply)) = some reply
handle_get (Err.ok, _) = none
handle_get (err, _) = some (record empty_get { err = err })

-- `KVServer.Put` once `Submit` has returned; a result of another kind panics.
unfoldable pub handle_put : Err × Option Response → Option PutReply
handle_put (Err.ok, some (put_reply reply)) = some reply
handle_put (Err.ok, _) = none
handle_put (err, _) = some (record empty_put { err = err })
