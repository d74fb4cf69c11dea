-- ===== src/Rsm/Layer.antt =====
-- kvraft1/rsm/rsm.go: `RSM` over any service and any Raft. What Raft answers to `GetState`, `Start`
-- and `PersistBytes` is an argument of the steps that ask it.
use mit_6_824_distributed_sy.Prelude.{
  ℕ, ◌+◌, Bool, false, ◌||◌, not, Option, none, some, List, [], ◌∷◌, if◌then◌else◌, leb, ◌==◌,
  lookup, insert, delete, nat_key,
}
use mit_6_824_distributed_sy.Rpc.{Err}
use mit_6_824_distributed_sy.Raft.State.{ApplyMsg, command_msg, snapshot_msg}

-- `StateMachine`: the state of the service, and its three methods.
pub record StateMachine : Type 1 where
  pub State : Type 0
  pub Request : Type 0
  pub Response : Type 0
  pub do_op : State → Request → State × Response
  pub snapshot : State → List ℕ
  pub restore : State → List ℕ → State

module _ (service : StateMachine) where
  open service use {State, Request, Response, do_op, snapshot, restore}

  pub record Op : Type 0 where
    pub id : ℕ
    pub term : ℕ
    pub command : Request

  pub record Notification : Type 0 where
    pub id : ℕ
    pub term : ℕ
    pub result : Response

  -- A channel with room for one notification.
  pub data Channel : Type 0 where
    empty : Channel
    holds : Notification → Channel
    closed : Channel

  -- `RSM`. Channels are made in order and named by numbers; `pending_ops` maps an index to one.
  -- `applied` lists what has been executed, the newest first; no code reads it.
  pub record Rsm : Type 0 where
    pub sm : State
    pub max_raft_state : Option ℕ
    pub pending_ops : List (ℕ × ℕ)
    pub channels : ℕ → Channel
    pub next_channel : ℕ
    pub applied : List (ℕ × Op × Response)

  -- `ch <- notification`
  abbrev pub send : (ℕ → Channel) → ℕ → Channel → ℕ → Channel
  send channels c v d = if c == d then v else channels d

  -- `applyReader` once it has executed an operation: it notifies the channel that waits for the
  -- index, if there is one.
  unfoldable pub notify : Rsm → ℕ → Notification → Option ℕ → Rsm
  notify rsm index n none = rsm
  notify rsm index n (some c) = record rsm {
    pending_ops = delete index rsm.pending_ops;
    channels = send rsm.channels c (holds n);
  }

  -- Executes an operation and notifies.
  unfoldable pub execute : Rsm → ℕ → Op → Rsm
  unfolding notify
  execute rsm index op =
      let (sm', res) = do_op rsm.sm op.command in
      notify (record rsm { sm = sm'; applied = (index, op, res) ∷ rsm.applied }) index
        (record { id = op.id; term = op.term; result = res }) (lookup index rsm.pending_ops)

  abbrev pub needs_snapshot : Option ℕ → ℕ → Bool
  needs_snapshot none bytes = false
  needs_snapshot (some max) bytes = leb max bytes

  -- `applyReader` for one message, with the answer of `PersistBytes`: the new state, and the call
  -- of Raft's `Snapshot` that follows, if any. A command that is no `Op` is skipped.
  unfoldable pub apply_msg : Rsm → ApplyMsg Op → ℕ → Rsm × Option (ℕ × List ℕ)
  unfolding execute
  apply_msg rsm (command_msg none index) bytes = (rsm, none)
  apply_msg rsm (command_msg (some op) index) bytes =
      let rsm' = execute rsm index op in
      (
        rsm',
        if needs_snapshot rsm.max_raft_state bytes then some (index, snapshot rsm'.sm) else none,
      )
  apply_msg rsm (snapshot_msg data_bytes term index) bytes =
      (record rsm { sm = restore rsm.sm data_bytes }, none)

  abbrev pub close_all : List (ℕ × ℕ) → (ℕ → Channel) → ℕ → Channel
  close_all [] channels d = channels d
  close_all ((i, c) ∷ more) channels d = close_all more (send channels c closed) d

  -- The end of `applyReader`, when `applyCh` is closed.
  unfoldable pub shut_down : Rsm → Rsm
  shut_down rsm = record rsm { pending_ops = []; channels = close_all rsm.pending_ops rsm.channels }

  -- A call of `Submit` that waits: what its loop reads.
  pub record Waiter : Type 0 where
    pub index : ℕ
    pub start_term : ℕ
    pub id : ℕ
    pub channel : ℕ

  -- The operation that `Submit` hands to `Start`: its term is the one that `GetState` gave. `Start`
  -- keeps a copy of it, so the assignment of `op.Term` afterwards changes nothing.
  abbrev pub submitted : ℕ → ℕ → Request → Op
  submitted id term request = record { id = id; term = term; command = request }

  -- `Submit` after `Start` has returned an index and a term: it registers a new channel.
  unfoldable pub register : Rsm → ℕ → ℕ → ℕ → Rsm × Waiter
  register rsm index start_term id = (
    record rsm {
      pending_ops = insert index rsm.next_channel rsm.pending_ops;
      channels = send rsm.channels rsm.next_channel empty;
      next_channel = rsm.next_channel + 1;
    },
    record { index = index; start_term = start_term; id = id; channel = rsm.next_channel },
  )

  -- What a round of the loop of `Submit` sees on its channel; `none` while it goes on waiting.
  unfoldable pub hear : Waiter → Channel → ℕ × Bool → Option (Err × Option Response)
  hear w closed raft = some (Err.wrong_leader, none)
  hear w (holds n) raft =
      if not (n.term == w.start_term) || not (n.id == w.id)
      then some (Err.wrong_leader, none)
      else some (Err.ok, some n.result)
  hear w empty (term, is_leader) =
      if not is_leader || not (term == w.start_term) then some (Err.wrong_leader, none) else none

  -- A round of the loop of `Submit`, with what `GetState` answers if it is asked.
  unfoldable pub poll : Rsm → Waiter → ℕ × Bool → Option (Err × Option Response)
  unfolding hear
  poll rsm w raft = hear w (rsm.channels w.channel) raft

  -- The deferred part of `Submit`.
  unfoldable pub finish : Rsm → Waiter → Rsm
  finish rsm w = record rsm { pending_ops = delete w.index rsm.pending_ops }

  -- What can happen at the layer.
  pub data Event : Type 0 where
    applies : (msg : ApplyMsg Op) → (bytes : ℕ) → Event
    registers : (index start_term id : ℕ) → Event
    returns : (w : Waiter) → Event
    closes : Event

  unfoldable pub step : Rsm → Event → Rsm
  step rsm (applies msg bytes) = (apply_msg rsm msg bytes).0
  step rsm (registers index start_term id) = (register rsm index start_term id).0
  step rsm (returns w) = finish rsm w
  step rsm closes = shut_down rsm

  unfoldable pub run : Rsm → List Event → Rsm
  run rsm [] = rsm
  run rsm (e ∷ es) = run (step rsm e) es

  abbrev restored : State → List ℕ → State
  restored sm [] = sm
  restored sm bytes = restore sm bytes

  -- `MakeRSM`, with the snapshot that the persister holds.
  unfoldable pub make_rsm : State → Option ℕ → List ℕ → Rsm
  make_rsm sm max_raft_state bytes = record {
    sm = restored sm bytes;
    max_raft_state = max_raft_state;
    pending_ops = [];
    channels = λ _. empty;
    next_channel = 0;
    applied = [];
  }
