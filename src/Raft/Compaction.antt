-- ===== src/Raft/Compaction.antt =====
-- raft1/raft.go: `Snapshot` and the handler `InstallSnapshot`.
use mit_6_824_distributed_sy.Prelude.{
  ℕ, suc, Bool, false, ◌&&◌, Option, none, some, List, [], ◌∷◌, if◌then◌else◌, ltb, leb, ◌==◌,
  length, get_elem?, drop,
}
use mit_6_824_distributed_sy.Raft.State.{
  LogEntry, sentinel, Raft, save, ApplyMsg, snapshot_msg, get_relative_index, entry_at, ◌>>=◌,
}
use mit_6_824_distributed_sy.Raft.Persist.{Codec, persistent}
use mit_6_824_distributed_sy.Raft.Append.{enter_term}

pub record InstallSnapshotArgs : Type 0 where
  pub term : ℕ
  pub leader_id : ℕ
  pub last_included_index : ℕ
  pub last_included_term : ℕ
  pub bytes : List ℕ

pub record InstallSnapshotReply : Type 0 where
  pub term : ℕ

-- `if x < index { x = index }`
abbrev pub raise_to : ℕ → ℕ → ℕ
raise_to index x = if ltb x index then index else x

module _ {C : Type 0} where
  -- `newLog`: a sentinel and the entries behind the relative index.
  abbrev pub trimmed : List (LogEntry C) → ℕ → ℕ → List (LogEntry C)
  trimmed log rel term = sentinel term ∷ drop (suc rel) log

  abbrev pub has_term : Option (LogEntry C) → ℕ → Bool
  has_term none term = false
  has_term (some e) term = e.term == term

  -- `newLog` of `InstallSnapshot`: the rest of the log is kept if it has the snapshot's last entry.
  unfoldable pub log_after_install : Raft C → InstallSnapshotArgs → List (LogEntry C)
  log_after_install rf args =
      let rel = get_relative_index rf args.last_included_index in
      if ltb 0 rel
        && ltb rel (length rf.log)
        && has_term (get_elem? rf.log rel) args.last_included_term
      then trimmed rf.log rel args.last_included_term
      else sentinel args.last_included_term ∷ []

module _ {C : Type 0} (gob : Codec C) where
  -- The end that `Snapshot` and `InstallSnapshot` share: the log is replaced, both counters are
  -- raised, and the state is saved with the snapshot.
  unfoldable pub compact : Raft C → List (LogEntry C) → ℕ → ℕ → List ℕ → Raft C
  compact rf log index term snapshot =
      let rf' = record rf {
        log = log;
        last_included_index = index;
        last_included_term = term;
        commit_index = raise_to index rf.commit_index;
        last_applied = raise_to index rf.last_applied;
      } in
      record rf' { persister = save rf'.persister (gob.encode (persistent rf')) snapshot }

  -- `Snapshot`
  unfoldable pub take_snapshot : Raft C → ℕ → List ℕ → Option (Raft C)
  unfolding compact
  take_snapshot rf index snapshot = if leb index rf.last_included_index then some rf else (do
    e ← entry_at rf index
    some (compact rf (trimmed rf.log (get_relative_index rf index) e.term) index e.term snapshot))

  -- `InstallSnapshot`, with the message that its goroutine sends on `applyCh`. The reply's term is
  -- the one from before the call.
  unfoldable pub install_snapshot :
      Raft C → InstallSnapshotArgs → ℕ → Raft C × InstallSnapshotReply × Option (ApplyMsg C)
  unfolding enter_term log_after_install compact
  install_snapshot rf args now =
      let reply : InstallSnapshotReply = record { term = rf.current_term } in
      if ltb args.term rf.current_term
      then (rf, reply, none)
      else (let rf' = enter_term gob rf args.term now in
          if leb args.last_included_index rf'.last_included_index then (rf', reply, none) else (
            compact rf' (log_after_install rf' args) args.last_included_index
                args.last_included_term args.bytes,
            reply,
            some (snapshot_msg args.bytes args.last_included_term args.last_included_index),
          ))
