-- ===== src/Rsm/Answers.antt =====
-- What `Submit` of kvraft1/rsm/rsm.go answers, against the operations that were executed.
use mit_6_824_distributed_sy.Prelude.{
  ℕ, ◌<◌, ◌≡◌, ◌∙◌, ap, Bool, ◌⊎◌, inl, inr, Option, none, some, List, [], ◌∷◌, arith, ◌==◌, ==_iff,
  lookup, nat_key, lookup-insert, lookup-delete, Bool-cases, Option-cases,
}
use mit_6_824_distributed_sy.Rpc.{Err}
use mit_6_824_distributed_sy.Raft.State.{command_msg, snapshot_msg}
use mit_6_824_distributed_sy.Rsm.Layer.{
  StateMachine, Op, Notification, Channel, empty, holds, closed, Rsm, send, notify, execute,
  apply_msg, close_all, shut_down, Waiter, register, hear, poll, finish, Event, applies, registers,
  returns, closes, step, run, make_rsm,
}

module _ (service : StateMachine) where
  open service use {State, Request, Response, do_op}

  -- The list of executed operations has one at the index that the notification reports.
  abbrev pub Executed : List (ℕ × Op service × Response) → ℕ → Notification service → Type 0
  Executed [] index n = ⊥
  Executed ((i, op, res) ∷ more) index n =
      ((i ≡ index) × (op.id ≡ n.id) × (op.term ≡ n.term) × (res ≡ n.result)) ⊎ Executed more index n

  -- Channels that wait have been made.
  abbrev pub Made : Rsm service → Type 0
  Made rsm = (i c : ℕ) → lookup i rsm.pending_ops ≡ some c → c < rsm.next_channel

  -- The channel `c` waits for the index `index` alone.
  pub record Waits (index c : ℕ) (rsm : Rsm service) : Type 0 where
    pub made : c < rsm.next_channel
    pub only : (i : ℕ) → lookup i rsm.pending_ops ≡ some c → i ≡ index
    pub told : (n : Notification service) → rsm.channels c ≡ holds n → Executed rsm.applied index n

  execute-Made :
      (rsm : Rsm service) (index : ℕ) (op : Op service)
      → Made rsm
      → Made (execute service rsm index op)
  unfolding execute notify
  execute-Made rsm index op m i c h = elim (Option-cases (lookup index rsm.pending_ops)) [
    | inl free ↦ ground (arith, free, h, m i c)
    | inr (d, found) ↦ ground (arith, found, h, m i c, lookup-delete index i rsm.pending_ops)
  ]

  pub step-Made : (rsm : Rsm service) (e : Event service) → Made rsm → Made (step service rsm e)
  unfolding step apply_msg register finish shut_down lookup
  step-Made rsm (applies (command_msg none index) bytes) m i c h = m i c h
  step-Made rsm (applies (command_msg (some op) index) bytes) m i c h =
      execute-Made rsm index op m i c h
  step-Made rsm (applies (snapshot_msg data_bytes term index) bytes) m i c h = m i c h
  step-Made rsm (registers index start_term id) m i c h =
      ground (arith, h, m i c, lookup-insert index i rsm.next_channel rsm.pending_ops)
  step-Made rsm (returns w) m i c h =
      ground (arith, h, m i c, lookup-delete w.index i rsm.pending_ops)
  step-Made rsm closes m i c h = ground (arith, h)

  run-Made : (rsm : Rsm service) (es : List (Event service)) → Made rsm → Made (run service rsm es)
  unfolding run
  run-Made rsm [] m = m
  run-Made rsm (e ∷ es) m = run-Made (step service rsm e) es (step-Made rsm e m)

  pub make_rsm-Made :
      (sm : State) (max : Option ℕ) (bytes : List ℕ) (es : List (Event service))
      → Made (run service (make_rsm service sm max bytes) es)
  unfolding make_rsm lookup
  make_rsm-Made sm max bytes es =
      run-Made (make_rsm service sm max bytes) es (λ i c h. ground (arith, h))

  module _ (index c : ℕ) where
    execute-Waits :
        (rsm : Rsm service) (i : ℕ) (op : Op service)
        → Waits index c rsm
        → Waits index c (execute service rsm i op)
    unfolding execute notify
    execute-Waits rsm i op w = elim (Option-cases (lookup i rsm.pending_ops)) [
      | inl free ↦ rw free (record { made = w.made; only = w.only; told = λ n h. inr (w.told n h) })
      | inr (d, found) ↦ rw found (record {
        made = w.made;
        only = λ j h. w.only j (ground (arith, h, lookup-delete i j rsm.pending_ops));
        told = λ n h. elim (Bool-cases (d == c)) [
          | inl mine ↦
              let e : i ≡ index = w.only i (found ∙ ap some ((==_iff d c).0 mine)) in
              let same : _ ≡ n = ground (arith, rw mine at h) in
              inl (e, ap (λ m. m.id) same, ap (λ m. m.term) same, ap (λ m. m.result) same)
          | inr other ↦ inr (w.told n (rw other at h))
        ];
      })
    ]

    close_all-holds :
        (ps : List (ℕ × ℕ)) (channels : ℕ → Channel service) (n : Notification service)
        → close_all service ps channels c ≡ holds n
        → channels c ≡ holds n
    close_all-holds [] channels n h = h
    close_all-holds ((i, d) ∷ ps) channels n h =
        let before = close_all-holds ps (send service channels d closed) n h in
        ground (arith, before)

    pub step-Waits :
        (rsm : Rsm service) (e : Event service)
        → Waits index c rsm
        → Waits index c (step service rsm e)
    unfolding step apply_msg register finish shut_down lookup
    step-Waits rsm (applies (command_msg none i) bytes) w = w
    step-Waits rsm (applies (command_msg (some op) i) bytes) w = execute-Waits rsm i op w
    step-Waits rsm (applies (snapshot_msg data_bytes term i) bytes) w = record {
      made = w.made;
      only = w.only;
      told = w.told;
    }
    step-Waits rsm (registers i start_term id) w = record {
      made = omega (arith, w.made);
      only = λ j h.
          ground (arith, h, w.only j, w.made, lookup-insert i j rsm.next_channel rsm.pending_ops);
      told = λ n h. w.told n (ground (arith, h, w.made));
    }
    step-Waits rsm (returns v) w = record {
      made = w.made;
      only = λ j h. w.only j (ground (arith, h, lookup-delete v.index j rsm.pending_ops));
      told = w.told;
    }
    step-Waits rsm closes w = record {
      made = w.made;
      only = λ j h. ground (arith, h);
      told = λ n h. w.told n (close_all-holds rsm.pending_ops rsm.channels n h);
    }

    run-Waits :
        (rsm : Rsm service) (es : List (Event service))
        → Waits index c rsm
        → Waits index c (run service rsm es)
    unfolding run
    run-Waits rsm [] w = w
    run-Waits rsm (e ∷ es) w = run-Waits (step service rsm e) es (step-Waits rsm e w)

  pub register-Waits :
      (rsm : Rsm service) (index term id : ℕ)
      → Made rsm
      → Waits index rsm.next_channel (register service rsm index term id).0
  unfolding register
  register-Waits rsm index term id m = record {
    made = omega arith;
    only = λ j h.
        ground
          (arith, h, m j rsm.next_channel, lookup-insert index j rsm.next_channel rsm.pending_ops);
    told = λ n h. ground (arith, h, ==_iff rsm.next_channel rsm.next_channel);
  }

  hear-holds :
      (w : Waiter service) (ch : Channel service) (raft : ℕ × Bool) {res : Response}
      → hear service w ch raft ≡ some (Err.ok, some res)
      → ch ≡ holds (record { id = w.id; term = w.start_term; result = res })
  unfolding hear
  hear-holds w closed raft e = ground (arith, e)
  hear-holds w (holds n) raft e = ground (arith, e)
  hear-holds w empty (term, is_leader) e = ground (arith, e)

  -- However calls of `Submit`, applied messages and a shutdown interleave before and after a call
  -- registers for an index, when that call answers OK with a result, then an operation with the
  -- call's identifier and start term was executed at that index with just this result.
  pub poll-Executed :
      (sm : State) (max : Option ℕ) (bytes : List ℕ) (before after : List (Event service))
      (index term id : ℕ) (raft : ℕ × Bool) {res : Response}
      → let (rsm, w) =
          register service (run service (make_rsm service sm max bytes) before) index term id in
        poll service (run service rsm after) w raft ≡ some (Err.ok, some res)
        → Executed
            (run service rsm after).applied
            index
            (record { id = id; term = term; result = res })
  unfolding poll register
  poll-Executed sm max bytes before after index term id raft {res} e =
      let rsm0 = run service (make_rsm service sm max bytes) before in
      let made = make_rsm-Made sm max bytes before in
      let (rsm, w) = register service rsm0 index term id in
      let waits = run-Waits index w.channel rsm after (register-Waits rsm0 index term id made) in
      waits.told (record { id = id; term = term; result = res })
        (hear-holds w ((run service rsm after).channels w.channel) raft e)
