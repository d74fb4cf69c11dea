-- ===== src/Raft/Append/Entries.antt =====
-- The entries of a peer of raft1/raft.go by their absolute indices, and what a success of
-- `AppendEntries` makes of them.
use Prim.Native.Nat.{min, max}
use mit_6_824_distributed_sy.Prelude.{
  ℕ, ◌+◌, ◌-◌, ◌≤◌, ◌<◌, ◌≡◌, Option, none, some, arith, length, get_elem?,
}
use mit_6_824_distributed_sy.Raft.State.{Raft, LogEntry, entry_at, last_log_index}
use mit_6_824_distributed_sy.Raft.Persist.{Codec, step_down}
use mit_6_824_distributed_sy.Raft.Append.{AppendEntriesArgs, enter_term}
use mit_6_824_distributed_sy.Raft.Append.Store.{term_of}
use mit_6_824_distributed_sy.Raft.Append.Written.{Written}

-- What `enter_term` leaves alone.
pub record Entered {C : Type 0} (rf rf' : Raft C) (term : ℕ) : Type 0 where
  pub same_log : rf'.log ≡ rf.log
  pub same_base : rf'.last_included_index ≡ rf.last_included_index
  pub same_commit : rf'.commit_index ≡ rf.commit_index
  pub in_term : rf.current_term ≤ term → rf'.current_term ≡ term

pub enter_term-Entered :
    {C : Type 0} (gob : Codec C) (rf : Raft C) (term now : ℕ)
    → Entered rf (enter_term gob rf term now) term
unfolding enter_term step_down
enter_term-Entered gob rf term now = ground arith

module _ {C : Type 0} where
  -- The term of the entry at an absolute index.
  abbrev pub term_in : Raft C → ℕ → Option ℕ
  term_in rf index = term_of (entry_at rf index)

  -- Every entry of the call below the index `c` has the term of the peer's entry there.
  abbrev pub NoConflictBelow : ℕ → Raft C → AppendEntriesArgs C → Type 0
  NoConflictBelow c rf args =
      (i : ℕ) (e : LogEntry C)
      → get_elem? args.entries i ≡ some e
      → args.prev_log_index + 1 + i < c
      → term_in rf (args.prev_log_index + 1 + i) ≡ some e.term

  pub record Accepted (rf rf' : Raft C) (args : AppendEntriesArgs C) : Type 0 where
    -- The logs match at the entry before the new ones.
    pub matched : term_in rf args.prev_log_index ≡ some args.prev_log_term
    -- The log, to the entry: unchanged, or cut off at the first new entry that it does not agree
    -- with, and the new entries from there on appended.
    pub written :
        Written rf.log (args.prev_log_index + 1 - rf.last_included_index) args.entries rf'.log
    -- Every new entry, or one of its term, stands at its index.
    pub appended :
        (i : ℕ) (e : LogEntry C)
        → get_elem? args.entries i ≡ some e
        → term_in rf' (args.prev_log_index + 1 + i) ≡ some e.term
    -- Nothing below the first conflict has changed.
    pub kept :
        (c : ℕ)
        → c ≤ last_log_index rf + 1
        → NoConflictBelow c rf args
        → (j : ℕ) → j < c
        → entry_at rf' j ≡ entry_at rf j
    pub long : args.prev_log_index + length args.entries ≤ last_log_index rf'
    pub committed :
        rf'.commit_index
        ≡ max rf.commit_index (min args.leader_commit (args.prev_log_index + length args.entries))
    pub same_base : rf'.last_included_index ≡ rf.last_included_index

  pub entry_at-ge :
      (rf : Raft C) (j : ℕ)
      → rf.last_included_index ≤ j
      → entry_at rf j ≡ get_elem? rf.log (j - rf.last_included_index)
  unfolding entry_at
  entry_at-ge rf j h = ground arith

  pub entry_at-lt : (rf : Raft C) (j : ℕ) → j < rf.last_included_index → entry_at rf j ≡ none
  unfolding entry_at
  entry_at-lt rf j h = ground arith

  pub entry_at-same :
      (rf rf' : Raft C) (j : ℕ)
      → rf'.log ≡ rf.log
      → rf'.last_included_index ≡ rf.last_included_index
      → entry_at rf' j ≡ entry_at rf j
  unfolding entry_at
  entry_at-same rf rf' j l b = rw (l, b)
