-- ===== src/Net/Calls.antt =====
-- labrpc/labrpc.go: calls on their way through the network. `ClientEnd.Call`, the goroutines of
-- `MakeNetwork` and `processReq`, and the goroutine that runs the handler are steps of one system,
-- in any order with each other and with changes of the network.
use mit_6_824_distributed_sy.Prelude.{
  ℕ, ◌≡◌, Bool, true, Option, some, List, [], ◌∷◌, if◌then◌else◌, ◌==◌, Key, get_elem?, set, length,
  ◌+◌, ◌++◌,
}
use mit_6_824_distributed_sy.Net.Service.{Server, dispatch}
use mit_6_824_distributed_sy.Net.Network.{
  Network, ReqMsg, EndInfo, Begun, no_server, dropped, runs, Ended, fails, replies, take_request,
  begin_request, end_request, is_server_dead, make_end, delete_end, add_server, delete_server,
  connect, enable, set_reliable, set_long_delays, set_long_reordering, cleanup,
}

-- Where a call stands.
pub data CallState (K : Type 0) : Type 0 where
  unsent : CallState K
  sent : (req : ReqMsg K) → CallState K
  -- `processReq` waits for the handler, which has not run yet,
  waiting : (req : ReqMsg K) → (server_name : K) → (server : ℕ) → (info : EndInfo K) → CallState K
  -- or has returned.
  returned :
      (req : ReqMsg K)
      → (server_name : K) → (server : ℕ) → (info : EndInfo K) → (reply : List ℕ) → CallState K
  -- The call has failed, but the handler may still run.
  left : (req : ReqMsg K) → (server : ℕ) → CallState K
  failed : CallState K
  answered : (reply : List ℕ) → CallState K

-- The changes of a network.
pub data Change (K : Type 0) : Type 0 where
  makes_end deletes_end deletes_server : (name : K) → Change K
  adds_server : (name : K) → (server : ℕ) → Change K
  connects : (end_name server_name : K) → Change K
  enables : (end_name : K) → (on : Bool) → Change K
  sets_reliable sets_long_delays sets_long_reordering : (on : Bool) → Change K
  closes : Change K

-- The servers by their addresses, the state that the handlers share, and the calls. `ran` lists what
-- the handler of a call has returned, once for each time that it ran: no code reads it.
pub record Wire (K S : Type 0) : Type 0 where
  pub net : Network K
  pub heap : List (Server S)
  pub state : S
  pub calls : ℕ → CallState K
  pub ran : ℕ → List (List ℕ)

abbrev pub update {ℓ} : {A : Type ℓ} → (ℕ → A) → ℕ → A → ℕ → A
update f i a j = if i == j then a else f j

module _ {K : Type 0} where
  -- Where a call stands once `processReq` has begun with it.
  abbrev pub after_begin : ReqMsg K → Begun K → CallState K
  after_begin req (no_server _) = failed
  after_begin req (dropped _) = failed
  after_begin req (runs _ server_name server info) = waiting req server_name server info

  abbrev pub after_end : Ended → CallState K
  after_end fails = failed
  after_end (replies _ reply) = answered reply

  -- The bytes of an answer count when it is delivered.
  abbrev pub count_reply : Network K → Ended → Network K
  count_reply rn fails = rn
  count_reply rn (replies _ reply) = record rn { bytes = rn.bytes + length reply }

module _ {K : Type 0} ⦃key : Key K⦄ where
  abbrev pub change : Network K → Change K → Option (Network K)
  change rn (makes_end name) = make_end rn name
  change rn (deletes_end name) = delete_end rn name
  change rn (deletes_server name) = some (delete_server rn name)
  change rn (adds_server name server) = some (add_server rn name server)
  change rn (connects end_name server_name) = some (connect rn end_name server_name)
  change rn (enables end_name on) = some (enable rn end_name on)
  change rn (sets_reliable on) = some (set_reliable rn on)
  change rn (sets_long_delays on) = some (set_long_delays rn on)
  change rn (sets_long_reordering on) = some (set_long_reordering rn on)
  change rn closes = some (cleanup rn)

  module _ {S : Type 0} where
    pub data Step (w : Wire K S) : Wire K S → Type 0 where
      -- `Call` hands its request to the network,
      sends :
          (k : ℕ) (req : ReqMsg K)
          → w.calls k ≡ unsent
          → Step w (record w { net = take_request w.net req; calls = update w.calls k (sent req) })
      -- or finds it destroyed.
      refuses :
          (k : ℕ)
          → w.calls k ≡ unsent
          → w.net.closed ≡ true
          → Step w (record w { calls = update w.calls k failed })
      begins :
          (k wait loss : ℕ) {req : ReqMsg K}
          → w.calls k ≡ sent req
          → Step w (record w {
            calls = update w.calls k (after_begin req (begin_request w.net req wait loss));
          })
      -- The handler runs while the call waits for it,
      executes :
          (k : ℕ) {req : ReqMsg K} {server_name : K} {server : ℕ} {info : EndInfo K}
          {rs rs' : Server S} {state : S} {reply : List ℕ}
          → w.calls k ≡ waiting req server_name server info
          → get_elem? w.heap server ≡ some rs
          → dispatch rs req.svc_meth req.args w.state ≡ some (rs', state, reply)
          → Step w (record w {
            heap = set w.heap server rs';
            state = state;
            calls = update w.calls k (returned req server_name server info reply);
            ran = update w.ran k (reply ∷ w.ran k);
          })
      -- or when it has given up on it.
      executes_late :
          (k : ℕ) {req : ReqMsg K} {server : ℕ} {rs rs' : Server S} {state : S} {reply : List ℕ}
          → w.calls k ≡ left req server
          → get_elem? w.heap server ≡ some rs
          → dispatch rs req.svc_meth req.args w.state ≡ some (rs', state, reply)
          → Step w (record w {
            heap = set w.heap server rs';
            state = state;
            calls = update w.calls k failed;
            ran = update w.ran k (reply ∷ w.ran k);
          })
      -- A look at the server, one every 100 ms, finds it dead.
      gives_up :
          (k : ℕ) {req : ReqMsg K} {server_name : K} {server : ℕ} {info : EndInfo K}
          → w.calls k ≡ waiting req server_name server info
          → is_server_dead w.net req.end_name server_name server ≡ true
          → Step w (record w { calls = update w.calls k (left req server) })
      ends :
          (k loss late a b : ℕ) {req : ReqMsg K} {server_name : K} {server : ℕ} {info : EndInfo K}
          {reply : List ℕ} {e : Ended}
          → w.calls k ≡ returned req server_name server info reply
          → end_request w.net req.end_name server_name server info reply loss late a b ≡ e
          → Step w (record w { net = count_reply w.net e; calls = update w.calls k (after_end e) })
      changes :
          (c : Change K) {rn : Network K}
          → change w.net c ≡ some rn
          → Step w (record w { net = rn })
      -- A new server, at the next address.
      makes_server : (rs : Server S) → Step w (record w { heap = w.heap ++ rs ∷ [] })

    -- All that a network can come to, on which no call has been made.
    pub data Reach : Wire K S → Type 0 where
      start :
          (rn : Network K) (heap : List (Server S)) (state : S)
          → Reach
              (record { net = rn; heap = heap; state = state; calls = λ _. unsent; ran = λ _. [] })
      then_by : {v w : Wire K S} → Reach v → Step v w → Reach w
