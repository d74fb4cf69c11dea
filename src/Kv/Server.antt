-- ===== src/Kv/Server.antt =====
-- kvsrv1/server.go: the state of `KVServer` and its handlers `Get` and `Put`.
-- The mutex makes each handler one step, so a handler is a function of the store.
use mit_6_824_distributed_sy.Prelude.{
  ℕ, ◌+◌, String, Option, none, some, List, [], if◌then◌else◌, ◌==◌, lookup, insert, string_key,
  not,
}
use mit_6_824_distributed_sy.Rpc.{u64, PutArgs, PutReply, GetArgs, GetReply, Err, empty_get}

-- `valueVersion`
pub record ValueVersion : Type 0 where
  pub val : String
  pub ver : ℕ

-- `map[string]valueVersion`
abbrev pub Store : Type 0
Store = List (String × ValueVersion)

-- `KVServer`, without its mutex.
pub record KvServer : Type 0 where
  pub store : Store

-- `MakeKVServer`
unfoldable pub make_kv_server : KvServer
make_kv_server = record { store = [] }

found : Option ValueVersion → GetReply
found none = record empty_get { err = Err.no_key }
found (some item) = record { value = item.val; ver = item.ver; err = Err.ok }

-- `KVServer.Get`
unfoldable pub get : KvServer → GetArgs → GetReply
unfolding found
get kv args = found (lookup args.key kv.store)

-- The body of `Put` after the map access.
put_item : KvServer → PutArgs → Option ValueVersion → KvServer × PutReply
put_item kv args none =
    if args.ver == 0
    then (
      record kv { store = insert args.key (record { val = args.value; ver = 1 }) kv.store },
      record { err = Err.ok },
    )
    else (kv, record { err = Err.no_key })
put_item kv args (some item) =
    if not (item.ver == args.ver) then (kv, record { err = Err.version }) else (
      record kv {
        store = insert args.key (record { val = args.value; ver = u64 (item.ver + 1) }) kv.store;
      },
      record { err = Err.ok },
    )

-- `KVServer.Put`
unfoldable pub put : KvServer → PutArgs → KvServer × PutReply
unfolding put_item
put kv args = put_item kv args (lookup args.key kv.store)
