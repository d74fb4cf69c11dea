-- ===== src/Lock/Client.antt =====
-- One client of the lock, `Acquire` and `Release` of kvsrv1/lock/lock.go, an RPC at a time. The
-- loops of the clerk, kvsrv1/client.go, are part of it: an attempt may lose its request or its
-- reply.
use mit_6_824_distributed_sy.Prelude.{ℕ, Bool, true, false, String, if◌then◌else◌, string_key, ◌&&◌}
use mit_6_824_distributed_sy.Rpc.{PutArgs, GetReply, Err, is_ok, is_no_key, is_maybe}
use mit_6_824_distributed_sy.Kv.Server.{KvServer, get, put}
use mit_6_824_distributed_sy.Kv.Clerk.{answer}

-- Where a client stands, with the local variables that are live there.
pub data Pc : Type 0 where
  -- outside `Acquire` and `Release`, without the lock
  idle : Pc
  -- before the first `Get` of a round of `Acquire`
  acquiring : Pc
  -- in the `Put` of `Acquire`: the version it names, and `first` of the clerk
  claiming : (ver : ℕ) → (first : Bool) → Pc
  -- before the second `Get`, which follows ErrMaybe
  checking : Pc
  -- `Acquire` has returned
  held : Pc
  -- before the `Get` of a round of `Release`
  releasing : Pc
  -- in the `Put` of `Release`
  freeing : (ver : ℕ) → (first : Bool) → Pc

module _ (lock_key my_id : String) where
  abbrev pub get_lock : KvServer → GetReply
  get_lock kv = get kv (record { key = lock_key })

  -- `val == ""` and the like.
  abbrev pub reads : GetReply → String → Bool
  reads r v = is_ok r.err && string_key.beq r.value v

  -- `Acquire` after its first `Get`.
  unfoldable pub after_get : GetReply → Pc
  after_get r =
      if is_no_key r.err
      then claiming 0 true
      else if reads r ""
      then claiming r.ver true
      else acquiring

  -- `Acquire` after its `Put` returned.
  unfoldable pub after_claim : Err → Pc
  after_claim e = if is_ok e then held else if is_maybe e then checking else acquiring

  -- `Acquire` after its second `Get`.
  unfoldable pub after_check : GetReply → Pc
  after_check r = if reads r my_id then held else acquiring

  -- `Release` after its `Get`.
  unfoldable pub after_release_get : GetReply → Pc
  after_release_get r = if reads r my_id then freeing r.ver true else idle

  -- `Release` after its `Put` returned.
  unfoldable pub after_free : Err → Pc
  after_free e = if is_ok e then idle else releasing

  abbrev pub claim : ℕ → PutArgs
  claim ver = record { key = lock_key; value = my_id; ver = ver }

  abbrev pub free : ℕ → PutArgs
  free ver = record { key = lock_key; value = ""; ver = ver }

  -- What the client does next, with the server as the step finds and leaves it. A get whose
  -- request or reply is lost has no effect, and is no step.
  pub data Move (kv : KvServer) : Pc → KvServer → Pc → Type 0 where
    acquire : Move kv idle kv acquiring
    look : Move kv acquiring kv (after_get (get_lock kv))
    claim_lost : {ver : ℕ} {first : Bool} → Move kv (claiming ver first) kv (claiming ver false)
    claim_unheard :
        {ver : ℕ} {first : Bool}
        → Move kv (claiming ver first) (put kv (claim ver)).0 (claiming ver false)
    claim_done :
        {ver : ℕ} {first : Bool}
        → Move kv
            (claiming ver first)
            (put kv (claim ver)).0
            (after_claim (answer first (put kv (claim ver)).1.err))
    check : Move kv checking kv (after_check (get_lock kv))
    release : Move kv held kv releasing
    look_again : Move kv releasing kv (after_release_get (get_lock kv))
    free_lost : {ver : ℕ} {first : Bool} → Move kv (freeing ver first) kv (freeing ver false)
    free_unheard :
        {ver : ℕ} {first : Bool}
        → Move kv (freeing ver first) (put kv (free ver)).0 (freeing ver false)
    free_done :
        {ver : ℕ} {first : Bool}
        → Move kv
            (freeing ver first)
            (put kv (free ver)).0
            (after_free (answer first (put kv (free ver)).1.err))
