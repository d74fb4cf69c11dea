-- ===== src/Lock/System.antt =====
-- Any number of clients of one lock, interleaved, and other clients that use other keys.
use mit_6_824_distributed_sy.Prelude.{ℕ, suc, String, ◌≢◌, if◌then◌else◌, ◌==◌}
use mit_6_824_distributed_sy.Rpc.{PutArgs}
use mit_6_824_distributed_sy.Kv.Server.{KvServer, make_kv_server, put}
use mit_6_824_distributed_sy.Lock.Client.{Pc, Move}

pub record System : Type 0 where
  pub server : KvServer
  pub pc : ℕ → Pc

abbrev pub update : (ℕ → Pc) → ℕ → Pc → ℕ → Pc
update f i p j = if i == j then p else f j

module _ (lock_key : String) (id : ℕ → String) where
  pub data Step (s : System) : System → Type 0 where
    client :
        (i : ℕ) {kv : KvServer} {p : Pc}
        → Move lock_key (id i) s.server (s.pc i) kv p
        → Step s (record { server = kv; pc = update s.pc i p })
    other :
        (args : PutArgs)
        → args.key ≢ lock_key
        → Step s (record s { server = (put s.server args).0 })

  -- Reachable in so many steps from a new server on which no client has started.
  pub data Reach : ℕ → System → Type 0 where
    start : Reach 0 (record { server = make_kv_server; pc = λ _. Pc.idle })
    next : {n : ℕ} {s t : System} → Reach n s → Step s t → Reach (suc n) t
