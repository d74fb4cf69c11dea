-- ===== src/Raft/State.antt =====
-- The state of raft1/raft.go and its index arithmetic. Terms and indices are natural numbers that
-- do not overflow an int; -1 in `votedFor` and `ConflictTerm` is `none`. A handler that reads a
-- slice out of range panics: it returns `none`.
use mit_6_824_distributed_sy.Prelude.{
  ℕ, ◌+◌, ◌-◌, Bool, true, false, Option, none, some, List, if◌then◌else◌, ltb, length, get_elem?,
}

pub data Role : Type 0 where
  follower candidate leader : Role

abbrev pub is_leader : Role → Bool
is_leader Role.leader = true
is_leader _ = false

abbrev pub is_candidate : Role → Bool
is_candidate Role.candidate = true
is_candidate _ = false

-- `LogEntry`, over the type of commands. The entry at the front of a log carries no command.
pub record LogEntry (C : Type 0) : Type 0 where
  pub command : Option C
  pub term : ℕ

abbrev pub sentinel : {C : Type 0} → ℕ → LogEntry C
sentinel t = record { command = none; term = t }

-- `tester.Persister`
pub record Persister : Type 0 where
  pub raftstate : List ℕ
  pub snapshot : List ℕ

-- `Persister.Save`. The copies that `Save` and the readers make are those of values.
abbrev pub save : Persister → List ℕ → List ℕ → Persister
save ps raftstate snapshot = record { raftstate = raftstate; snapshot = snapshot }

-- The state of a peer. `peers` is their number; times are in milliseconds.
pub record Raft (C : Type 0) : Type 0 where
  pub persister : Persister
  pub peers : ℕ
  pub me : ℕ
  pub dead : Bool
  pub current_term : ℕ
  pub voted_for : Option ℕ
  pub log : List (LogEntry C)
  pub last_included_index : ℕ
  pub last_included_term : ℕ
  pub commit_index : ℕ
  pub last_applied : ℕ
  pub next_index : List ℕ
  pub match_index : List ℕ
  pub role : Role
  pub last_heartbeat : ℕ

-- `raftapi.ApplyMsg`
pub data ApplyMsg (C : Type 0) : Type 0 where
  command_msg : (command : Option C) → (index : ℕ) → ApplyMsg C
  snapshot_msg : (snapshot : List ℕ) → (term : ℕ) → (index : ℕ) → ApplyMsg C

-- Reads that may panic are chained by `do` blocks.
infixl 5 ◌>>=◌
abbrev pub ◌>>=◌ {ℓ κ} : {A : Type ℓ} {B : Type κ} → Option A → (A → Option B) → Option B
none >>= f = none
some a >>= f = f a

module _ {C : Type 0} where
  -- `getRelativeIndex`, where its argument is not below `lastIncludedIndex`.
  abbrev pub get_relative_index : Raft C → ℕ → ℕ
  get_relative_index rf absolute = absolute - rf.last_included_index

  -- `getAbsoluteIndex`
  abbrev pub get_absolute_index : Raft C → ℕ → ℕ
  get_absolute_index rf relative = relative + rf.last_included_index

  -- `lastLogIndex`, of a log that has its sentinel.
  abbrev pub last_log_index : Raft C → ℕ
  last_log_index rf = length rf.log - 1 + rf.last_included_index

  -- `rf.log[rf.getRelativeIndex(absolute)]`; a negative index panics too.
  unfoldable pub entry_at : Raft C → ℕ → Option (LogEntry C)
  entry_at rf absolute =
      if ltb absolute rf.last_included_index
      then none
      else get_elem? rf.log (get_relative_index rf absolute)

  -- `lastLogTerm`
  unfoldable pub last_log_term : Raft C → Option ℕ
  last_log_term rf = do last ← get_elem? rf.log (length rf.log - 1); some last.term

  -- `GetState`
  unfoldable pub get_state : Raft C → ℕ × Bool
  get_state rf = (rf.current_term, is_leader rf.role)

  -- `Kill`
  unfoldable pub kill : Raft C → Raft C
  kill rf = record rf { dead = true }
