-- ===== src/Kv/Handlers.antt =====
-- The handlers of kvraft1/server.go over the layer of kvraft1/rsm/rsm.go.
use mit_6_824_distributed_sy.Prelude.{ℕ, ◌≡◌, ◌≢◌, Bool, Option, some, List, arith}
use mit_6_824_distributed_sy.Rpc.{Err, PutReply, GetReply}
use mit_6_824_distributed_sy.Kv.Server.{Store}
use mit_6_824_distributed_sy.Kv.StateMachine.{
  Response, get_reply, put_reply, StoreCodec, service, handle_get, handle_put,
}
use mit_6_824_distributed_sy.Rsm.Layer.{
  Event, run, make_rsm, register, poll, hear, Channel, Waiter, empty, holds, closed,
}
use mit_6_824_distributed_sy.Rsm.Answers.{Executed, poll-Executed}

-- A handler, given the result `r` of `Submit`, answers its client with the response `res`, which is
-- not that it asks the wrong leader.
pub data Answers (r : Err × Option Response) : Response → Type 0 where
  by_get :
      (reply : GetReply)
      → handle_get r ≡ some reply
      → reply.err ≢ Err.wrong_leader
      → Answers r (get_reply reply)
  by_put :
      (reply : PutReply)
      → handle_put r ≡ some reply
      → reply.err ≢ Err.wrong_leader
      → Answers r (put_reply reply)

-- Such an answer is a result that `Submit` gave.
hear-Answers :
    (gob : StoreCodec) (w : Waiter (service gob)) (ch : Channel (service gob)) (raft : ℕ × Bool)
    {r : Err × Option Response} {res : Response}
    → hear (service gob) w ch raft ≡ some r
    → Answers r res
    → hear (service gob) w ch raft ≡ some (Err.ok, some res)
unfolding hear handle_get handle_put
hear-Answers gob w closed raft e (by_get reply h ne) = absurd (ground (arith, e, h, ne))
hear-Answers gob w (holds n) raft e (by_get reply h ne) = ground (arith, e, h, ne)
hear-Answers gob w empty raft e (by_get reply h ne) = absurd (ground (arith, e, h, ne))
hear-Answers gob w closed raft e (by_put reply h ne) = absurd (ground (arith, e, h, ne))
hear-Answers gob w (holds n) raft e (by_put reply h ne) = ground (arith, e, h, ne)
hear-Answers gob w empty raft e (by_put reply h ne) = absurd (ground (arith, e, h, ne))

-- Whatever happens at a replicated server before and after a request registers, when its handler
-- `Get` or `Put` answers anything but ErrWrongLeader, an operation with the request's identifier
-- and start term was executed at its index, and the answer is the reply that the execution gave.
pub handler-Executed :
    (gob : StoreCodec) (sm : Option Store) (max : Option ℕ) (bytes : List ℕ)
    (before after : List (Event (service gob))) (index term id : ℕ) (raft : ℕ × Bool)
    {r : Err × Option Response} {res : Response}
    → let (rsm, w) =
        register
          (service gob)
          (run (service gob) (make_rsm (service gob) sm max bytes) before)
          index
          term
          id in
      poll (service gob) (run (service gob) rsm after) w raft ≡ some r
      → Answers r res
      → Executed
          (service gob)
          (run (service gob) rsm after).applied
          index
          (record { id = id; term = term; result = res })
unfolding poll
handler-Executed gob sm max bytes before after index term id raft {r} {res} e a =
    let (rsm, w) =
      register (service gob) (run (service gob) (make_rsm (service gob) sm max bytes) before) index
        term id in
    poll-Executed (service gob) sm max bytes before after index term id raft
      (hear-Answers gob w ((run (service gob) rsm after).channels w.channel) raft e a)
