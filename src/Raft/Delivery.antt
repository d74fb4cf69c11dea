-- ===== src/Raft/Delivery.antt =====
-- `applierLoop` of raft1/raft.go: what one round delivers to the service.
use mit_6_824_distributed_sy.Prelude.{
  ℕ, zero, suc, ◌+◌, ◌-◌, ◌≤◌, ◌<◌, ◌≡◌, refl, ap, false, some, List, [], ◌∷◌, arith, leb,
  Bool-cases, length, get_elem?, inl, inr,
}
use mit_6_824_distributed_sy.Raft.State.{
  Raft, LogEntry, ApplyMsg, command_msg, entry_at, last_log_index,
}
use mit_6_824_distributed_sy.Raft.Apply.{collect, apply_round}
use mit_6_824_distributed_sy.Raft.Append.Runs.{entry_at_in}

module _ {C : Type 0} where
  -- The messages are the entries behind the index `applied`, in order, each with its index.
  abbrev pub Delivers : Raft C → ℕ → List (ApplyMsg C) → Type 0
  Delivers rf applied msgs =
      (i : ℕ)
      → i < length msgs
      → (e : LogEntry C) × (entry_at rf (applied + 1 + i) ≡ some e)
        × (get_elem? msgs i ≡ some (command_msg e.command (applied + 1 + i)))

  cons-Delivers :
      (rf : Raft C) (applied : ℕ) (e : LogEntry C) (msgs : List (ApplyMsg C))
      → entry_at rf (applied + 1) ≡ some e
      → Delivers rf (applied + 1) msgs
      → Delivers rf applied (command_msg e.command (applied + 1) ∷ msgs)
  cons-Delivers rf applied e msgs here rest zero h =
      let same : applied + 1 + 0 ≡ applied + 1 = omega arith in rw same (e, here, refl)
  cons-Delivers rf applied e msgs here rest (suc i) h =
      let same : applied + 1 + suc i ≡ applied + 1 + 1 + i = omega arith in
      rw same (rest i (omega arith))

  collect-Delivers :
      (rf : Raft C) (applied n : ℕ)
      → 0 < length rf.log
      → rf.last_included_index ≤ applied
      → applied + n ≤ last_log_index rf
      → (msgs : List (ApplyMsg C)) × (collect rf applied n ≡ some msgs)
        × (length msgs ≡ n)
        × Delivers rf applied msgs
  unfolding collect
  collect-Delivers rf applied zero s low high = ([], refl, refl, λ i h. elim h [ ])
  collect-Delivers rf applied (suc n) s low high =
      let (e, here) = entry_at_in rf (applied + 1) s (omega arith) (omega arith) in
      let (msgs, q, size, all) =
        collect-Delivers rf (applied + 1) n s (omega arith) (omega arith) in
      (
        command_msg e.command (applied + 1) ∷ msgs,
        rw (here, q),
        ap suc size,
        cons-Delivers rf applied e msgs here all,
      )

  -- A live peer whose counters are in order, from its snapshot to the end of its log, delivers in
  -- one round exactly the commands of the entries behind `lastApplied` up to `commitIndex`, in
  -- order and each with its index, and `lastApplied` is then `commitIndex`.
  pub apply_round-Delivers :
      (rf : Raft C)
      → rf.dead ≡ false
      → 0 < length rf.log
      → rf.last_included_index ≤ rf.last_applied
      → rf.last_applied ≤ rf.commit_index
      → rf.commit_index ≤ last_log_index rf
      → (rf' : Raft C) × (msgs : List (ApplyMsg C)) × (apply_round rf ≡ some (rf', msgs))
        × (rf'.last_applied ≡ rf.commit_index)
        × (length msgs ≡ rf.commit_index - rf.last_applied)
        × Delivers rf rf.last_applied msgs
  unfolding apply_round
  apply_round-Delivers rf live s a b c = elim (Bool-cases (leb rf.commit_index rf.last_applied)) [
    | inl done ↦
        (rf, [], rw (live, done), ground (arith, done), ground (arith, done), λ i h. elim h [ ])
    | inr more ↦
        let (msgs, q, size, all) =
          collect-Delivers rf rf.last_applied (rf.commit_index - rf.last_applied) s a
            (omega arith) in
        (
          record rf { last_applied = rf.commit_index },
          msgs,
          ground (arith, live, more, q),
          refl,
          size,
          all,
        )
  ]
