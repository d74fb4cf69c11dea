-- ===== src/Rsm/Waiting.antt =====
-- `Submit` of kvraft1/rsm/rsm.go from the moment it registers.
use mit_6_824_distributed_sy.Prelude.{
  ℕ, ◌≡◌, ◌≢◌, refl, Bool, true, Option, none, some, List, [], ◌∷◌, arith, if◌then◌else◌, ◌==◌,
  ==_iff, lookup, nat_key, lookup-insert_self,
}
use mit_6_824_distributed_sy.Rpc.{Err}
use mit_6_824_distributed_sy.Raft.State.{command_msg, snapshot_msg}
use mit_6_824_distributed_sy.Rsm.Layer.{
  StateMachine, empty, Rsm, notify, execute, apply_msg, submitted, register, hear, poll, finish,
  Event, applies, registers, returns, closes, step, run, make_rsm,
}
use mit_6_824_distributed_sy.Rsm.Answers.{
  make_rsm-Made, step-Made, Waits, register-Waits, step-Waits,
}

module _ (service : StateMachine) where
  open service use {State, Request, Response, do_op}

  -- A call of `Submit` whose operation is applied as soon as it has registered: the operation is
  -- executed, and the call answers OK with its result if `GetState` and `Start` gave it the same
  -- term; if the term changed between the two, it answers that the leader is the wrong one.
  pub poll-submitted :
      (rsm : Rsm service) (index get_term start_term id bytes : ℕ) (req : Request) (raft : ℕ × Bool)
      → let (registered, w) = register service rsm index start_term id in
        let msg = command_msg (some (submitted service id get_term req)) index in
        let rsm' = (apply_msg service registered msg bytes).0 in
        (rsm'.sm ≡ (do_op rsm.sm req).0)
        × (poll service rsm' w raft
            ≡ some (
                if get_term == start_term
                then (Err.ok, some (do_op rsm.sm req).1)
                else (Err.wrong_leader, none)))
  unfolding poll hear register apply_msg execute notify
  poll-submitted rsm index get_term start_term id bytes req raft =
      let found = lookup-insert_self index rsm.next_channel rsm.pending_ops in
      (
        rw found refl,
        rw found (ground (arith, ==_iff rsm.next_channel rsm.next_channel, ==_iff id id)),
      )

  -- Neither a command at the index nor the end of the messages is among the events.
  abbrev pub Silent : ℕ → List (Event service) → Type 0
  Silent index [] = Unit {0}
  Silent index (applies (command_msg c i) bytes ∷ es) = (i ≢ index) × Silent index es
  Silent index (applies (snapshot_msg data_bytes term i) bytes ∷ es) = Silent index es
  Silent index (registers i start_term id ∷ es) = Silent index es
  Silent index (returns w ∷ es) = Silent index es
  Silent index (closes ∷ es) = ⊥

  module _ (index c : ℕ) where
    run-empty :
        (rsm : Rsm service) (es : List (Event service))
        → Waits service index c rsm
        → rsm.channels c ≡ empty
        → Silent index es
        → (run service rsm es).channels c ≡ empty
    unfolding run step apply_msg register finish execute notify
    run-empty rsm [] w e s = e
    run-empty rsm (applies (command_msg none i) bytes ∷ es) w e s = run-empty _ es w e s.1
    run-empty rsm (applies (command_msg (some op) i) bytes ∷ es) w e s =
        run-empty (execute service rsm i op) es
          (step-Waits service index c rsm (applies (command_msg (some op) i) bytes) w)
          (untouched (lookup i rsm.pending_ops) refl) s.1
      where
        untouched :
            (o : Option ℕ)
            → lookup i rsm.pending_ops ≡ o
            → (execute service rsm i op).channels c ≡ empty
        untouched none h = rw h e
        untouched (some d) h = rw h (ground (arith, e, s.0, w.only i, h))
    run-empty rsm (applies (snapshot_msg data_bytes term i) bytes ∷ es) w e s =
        run-empty _ es
          (step-Waits service index c rsm (applies (snapshot_msg data_bytes term i) bytes) w) e s
    run-empty rsm (registers i start_term id ∷ es) w e s =
        run-empty _ es (step-Waits service index c rsm (registers i start_term id) w)
          (ground (arith, e, w.made)) s
    run-empty rsm (returns v ∷ es) w e s =
        run-empty _ es (step-Waits service index c rsm (returns v) w) e s
    run-empty rsm (closes ∷ es) w e s = absurd s

  -- A call of `Submit` whose operation was applied before it registered hears nothing: whatever
  -- else happens after it has registered, while no other message comes for its index, the server
  -- is not shut down, and Raft goes on answering that it leads in the call's term, the call waits.
  pub poll-missed :
      (sm : State) (max : Option ℕ) (snap : List ℕ) (before : List (Event service))
      (index term id bytes : ℕ) (req : Request) (after : List (Event service))
      → Silent index after
      → let rsm = run service (make_rsm service sm max snap) before in
        let msg = command_msg (some (submitted service id term req)) index in
        let (registered, w) = register service (apply_msg service rsm msg bytes).0 index term id in
        poll service (run service registered after) w (term, true) ≡ none
  unfolding poll hear register apply_msg step
  poll-missed sm max snap before index term id bytes req after s =
      let rsm = run service (make_rsm service sm max snap) before in
      let msg = command_msg (some (submitted service id term req)) index in
      let applied = (apply_msg service rsm msg bytes).0 in
      let made =
        step-Made service rsm (applies msg bytes) (make_rsm-Made service sm max snap before) in
      let (registered, w) = register service applied index term id in
      let quiet =
        run-empty index w.channel registered after
          (register-Waits service applied index term id made)
          (ground (arith, ==_iff w.channel w.channel)) s in
      rw quiet (ground (arith, ==_iff term term))
