-- ===== src/Raft/Leader.antt =====
-- raft1/raft.go: what a leader does: `Start`, `broadcastAppendEntries`, `sendHeartbeats`,
-- `sendAppendEntriesToPeer` in its two parts, and `updateCommitIndex`.
use mit_6_824_distributed_sy.Prelude.{
  ℕ, zero, suc, ◌+◌, ◌-◌, ◌/◌, true, false, ◌&&◌, ◌||◌, not, Option, none, some, List, [], ◌∷◌,
  ◌++◌, if◌then◌else◌, ltb, leb, ◌==◌, length, get_elem?, set, drop,
}
use mit_6_824_distributed_sy.Raft.State.{
  LogEntry, Raft, is_leader, last_log_index, get_relative_index, get_absolute_index, entry_at,
  ◌>>=◌,
}
use mit_6_824_distributed_sy.Raft.Persist.{Codec, persist, step_down}
use mit_6_824_distributed_sy.Raft.Append.{AppendEntriesArgs, AppendEntriesReply}
use mit_6_824_distributed_sy.Raft.Compaction.{InstallSnapshotArgs, InstallSnapshotReply}

-- What `sendAppendEntriesToPeer` sends, if anything.
pub data Outgoing (C : Type 0) : Type 0 where
  nothing : Outgoing C
  install : InstallSnapshotArgs → Outgoing C
  append : AppendEntriesArgs C → Outgoing C

-- The peers from `p` on, `n` of them, but for `me`.
abbrev pub others : ℕ → ℕ → ℕ → List ℕ
others me zero p = []
others me (suc n) p = let rest = others me n (p + 1) in if p == me then rest else p ∷ rest

-- How many of the peers from `p` on, other than `me`, are known to hold the log up to `n`.
abbrev pub count_matching : ℕ → ℕ → ℕ → List ℕ → ℕ
count_matching me n p [] = 0
count_matching me n p (m ∷ ms) =
    (if not (p == me) && leb n m then 1 else 0) + count_matching me n (p + 1) ms

module _ {C : Type 0} where
  -- The peers that `broadcastAppendEntries`, and each round of `sendHeartbeats`, starts a goroutine
  -- for, and the term that these are given.
  unfoldable pub broadcast : Raft C → ℕ × List ℕ
  broadcast rf = (rf.current_term, if is_leader rf.role then others rf.me rf.peers 0 else [])

  -- `sendAppendEntriesToPeer` up to its call.
  unfoldable pub make_append : Raft C → ℕ → ℕ → Option (Outgoing C)
  make_append rf peer term =
      if not (is_leader rf.role) || not (rf.current_term == term) then some nothing else (do
        next ← get_elem? rf.next_index peer
        if leb next rf.last_included_index
            then some (
                install (record {
                  term = term;
                  leader_id = rf.me;
                  last_included_index = rf.last_included_index;
                  last_included_term = rf.last_included_term;
                  bytes = rf.persister.snapshot;
                }))
            else (do
              prev ← entry_at rf (next - 1)
              some (
                  append (record {
                    term = term;
                    leader_id = rf.me;
                    prev_log_index = next - 1;
                    prev_log_term = prev.term;
                    entries = drop (get_relative_index rf next) rf.log;
                    leader_commit = rf.commit_index;
                  }))))

  -- The loop of `updateCommitIndex`, from `N` down: the new commit index.
  unfoldable pub find_commit : Raft C → ℕ → Option ℕ
  find_commit rf zero = some rf.commit_index
  find_commit rf (suc i) = elim (ltb rf.commit_index (suc i)) [
    | false ↦ some rf.commit_index
    | true ↦ elim (entry_at rf (suc i)) [
      | none ↦ none
      | some e ↦ elim (e.term == rf.current_term) [
        | false ↦ some rf.commit_index
        | true ↦ elim (ltb (rf.peers / 2) (1 + count_matching rf.me (suc i) 0 rf.match_index)) [
          | true ↦ some (suc i)
          | false ↦ find_commit rf i
        ]
      ]
    ]
  ]

  -- `updateCommitIndex`
  unfoldable pub update_commit_index : Raft C → Option (Raft C)
  update_commit_index rf = do
    n ← find_commit rf (last_log_index rf)
    some (record rf { commit_index = n })

  -- The loop over the leader's log, from the relative index `i` down to 1, for the last entry of a
  -- term: its relative index.
  unfoldable pub last_of_term : List (LogEntry C) → ℕ → ℕ → Option ℕ
  last_of_term log term zero = none
  last_of_term log term (suc i) = elim (get_elem? log (suc i)) [
    | none ↦ last_of_term log term i
    | some e ↦ elim (e.term == term) [ true ↦ some (suc i) | false ↦ last_of_term log term i ]
  ]

  -- Where the leader backs up to after a rejection.
  unfoldable pub back_up : Raft C → AppendEntriesReply → ℕ
  back_up rf reply = elim reply.conflict_term [
    | none ↦ reply.conflict_index
    | some term ↦ elim (last_of_term rf.log term (length rf.log - 1)) [
      | none ↦ reply.conflict_index
      | some i ↦ get_absolute_index rf i + 1
    ]
  ]

module _ {C : Type 0} (gob : Codec C) where
  -- `Start`; `none` in the result is (-1, -1, false).
  unfoldable pub start : Raft C → Option C → Raft C × Option (ℕ × ℕ)
  start rf command =
      if not (is_leader rf.role)
      then (rf, none)
      else (let rf' = persist gob (record rf {
        log = rf.log ++ record { command = command; term = rf.current_term } ∷ [];
      }) in
          (rf', some (last_log_index rf', rf'.current_term)))

  -- `sendAppendEntriesToPeer` once its call of `AppendEntries` has returned true.
  unfoldable pub handle_append_reply :
      Raft C → ℕ → ℕ → AppendEntriesArgs C → AppendEntriesReply → Option (Raft C)
  unfolding back_up update_commit_index
  handle_append_reply rf peer term args reply =
      if not (is_leader rf.role) || not (rf.current_term == term)
      then some rf
      else if ltb rf.current_term reply.term
      then some (step_down gob rf reply.term)
      else if reply.success
      then (let matched = args.prev_log_index + length args.entries in
          update_commit_index (record rf {
            match_index = set rf.match_index peer matched;
            next_index = set rf.next_index peer (matched + 1);
          }))
      else some (record rf { next_index = set rf.next_index peer (back_up rf reply) })

  -- `sendAppendEntriesToPeer` once its call of `InstallSnapshot` has returned true.
  unfoldable pub handle_install_reply :
      Raft C → ℕ → ℕ → InstallSnapshotArgs → InstallSnapshotReply → Option (Raft C)
  handle_install_reply rf peer term args reply =
      if not (is_leader rf.role) || not (rf.current_term == term)
      then some rf
      else if ltb rf.current_term reply.term
      then some (step_down gob rf reply.term)
      else (do
        m ← get_elem? rf.match_index peer
        some (
            let m' = if ltb m args.last_included_index then args.last_included_index else m in
            record rf {
              match_index = set rf.match_index peer m';
              next_index = set rf.next_index peer (m' + 1);
            }))
