-- ===== src/Raft/Apply.antt =====
-- raft1/raft.go: `applierLoop`, the goroutine that sends committed entries to the service.
use mit_6_824_distributed_sy.Prelude.{
  ℕ, zero, suc, ◌+◌, ◌-◌, ◌||◌, Option, some, List, [], ◌∷◌, if◌then◌else◌, leb,
}
use mit_6_824_distributed_sy.Raft.State.{Raft, ApplyMsg, command_msg, entry_at, ◌>>=◌}

module _ {C : Type 0} where
  -- The loop that collects messages, with `n` entries left up to `commitIndex`.
  unfoldable pub collect : Raft C → ℕ → ℕ → Option (List (ApplyMsg C))
  collect rf last_applied zero = some []
  collect rf last_applied (suc n) = do
    e ← entry_at rf (last_applied + 1)
    rest ← collect rf (last_applied + 1) n
    some (command_msg e.command (last_applied + 1) ∷ rest)

  -- One round of the loop: the new state, and the messages that are then sent in order. There is
  -- nothing to do while the peer is dead or has applied all that is committed.
  unfoldable pub apply_round : Raft C → Option (Raft C × List (ApplyMsg C))
  unfolding collect
  apply_round rf = if rf.dead || leb rf.commit_index rf.last_applied then some (rf, []) else (do
    msgs ← collect rf rf.last_applied (rf.commit_index - rf.last_applied)
    some (record rf { last_applied = rf.commit_index }, msgs))
