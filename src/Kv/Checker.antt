-- ===== src/Kv/Checker.antt =====
-- models1/kv.go: `KvModel`, the one-key model that the linearizability checker runs, and the
-- server's handlers measured against it.
use mit_6_824_distributed_sy.Prelude.{
  ℕ, ◌+◌, ◌≡◌, refl, String, Bool, true, false, ◌||◌, Option, if◌then◌else◌, ◌==◌, lookup,
  string_key, arith, not,
}
use mit_6_824_distributed_sy.Rpc.{
  u64, PutArgs, PutReply, GetArgs, GetReply, Err, is_ok, is_version, is_maybe, is_no_key,
}
use mit_6_824_distributed_sy.Kv.Server.{KvServer, ValueVersion, get, put}
use mit_6_824_distributed_sy.Kv.Versions.{version_of, value_of, lookup-put}

-- `KvInput` without its key: `Op` 0 and 1, and any other operation code.
pub data KvInput : Type 0 where
  gets : KvInput
  puts : (value : String) → (ver : ℕ) → KvInput
  invalid : KvInput

pub record KvOutput : Type 0 where
  pub value : String
  pub ver : ℕ
  pub err : Err

pub record KvState : Type 0 where
  pub value : String
  pub ver : ℕ

-- `KvModel.Init`
pub init : KvState
init = record { value = ""; ver = 0 }

-- `KvModel.Step`. The state that goes with a refused operation code is not used by the checker.
pub step : KvState → KvInput → KvOutput → Bool × KvState
step st gets out = (string_key.beq out.value st.value, st)
step st (puts value ver) out =
    if st.ver == ver
    then (is_ok out.err || is_maybe out.err, record { value = value; ver = u64 (st.ver + 1) })
    else (is_version out.err || is_maybe out.err, st)
step st invalid out = (false, st)

-- What the model keeps of a server: the value and the version of one key.
abbrev pub view : Option ValueVersion → KvState
view item = record { value = value_of item; ver = version_of item }

abbrev pub of_get : GetReply → KvOutput
of_get r = record { value = r.value; ver = r.ver; err = r.err }

-- A put's reply carries an error alone.
abbrev pub of_put : PutReply → KvOutput
of_put r = record { value = ""; ver = 0; err = r.err }

abbrev pub view_at : KvServer → String → KvState
view_at kv k = view (lookup k kv.store)

-- The model starts where a server with no entry for the key starts, and accepts every get.
pub step-get :
    (kv : KvServer) (args : GetArgs)
    → step (view_at kv args.key) gets (of_get (get kv args)) ≡ (true, view_at kv args.key)
unfolding step get
step-get kv args =
    ground (arith, string_key.beq_iff (get kv args).value (value_of (lookup args.key kv.store)))

-- A put moves the model's state of its key to the server's new one on every branch, and the model
-- accepts the server's answer on every branch but one: it refuses ErrNoKey.
pub step-put :
    (kv : KvServer) (args : PutArgs)
    → step (view_at kv args.key) (puts args.value args.ver) (of_put (put kv args).1)
      ≡ (not (is_no_key (put kv args).1.err), view_at (put kv args).0 args.key)
unfolding step put
step-put kv args =
    ground (arith, lookup-put kv args args.key, (string_key.beq_iff args.key args.key).1 refl)
