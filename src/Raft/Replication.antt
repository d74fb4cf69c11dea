-- ===== src/Raft/Replication.antt =====
-- A leader of raft1/raft.go and one follower: what `sendAppendEntriesToPeer` sends.
use mit_6_824_distributed_sy.Prelude.{
  ℕ, ◌+◌, ◌-◌, ◌≤◌, ◌<◌, ◌≡◌, refl, sym, ◌∙◌, ap, some, arith, leb, Bool-cases, length, get_elem?,
  inl, inr, drop, length-drop, get_elem?-drop,
}
use mit_6_824_distributed_sy.Raft.State.{
  Raft, Role, LogEntry, entry_at, last_log_index, get_relative_index,
}
use mit_6_824_distributed_sy.Raft.Append.{AppendEntriesArgs}
use mit_6_824_distributed_sy.Raft.Append.Store.{term_of}
use mit_6_824_distributed_sy.Raft.Append.Entries.{term_in, entry_at-ge}
use mit_6_824_distributed_sy.Raft.Append.Runs.{entry_at_in}
use mit_6_824_distributed_sy.Raft.Compaction.{InstallSnapshotArgs}
use mit_6_824_distributed_sy.Raft.Leader.{Outgoing, install, append, make_append}

module _ {C : Type 0} where
  -- A call that carries the leader's log from `next` to its end.
  pub record Carries (rf : Raft C) (next : ℕ) (args : AppendEntriesArgs C) : Type 0 where
    pub in_term : args.term ≡ rf.current_term
    pub from_me : args.leader_id ≡ rf.me
    pub prev : args.prev_log_index + 1 ≡ next
    pub prev_term : term_in rf args.prev_log_index ≡ some args.prev_log_term
    pub all : args.prev_log_index + length args.entries ≡ last_log_index rf
    pub same : (i : ℕ) → get_elem? args.entries i ≡ entry_at rf (next + i)
    pub commit : args.leader_commit ≡ rf.commit_index

  -- What a leader sends to a peer whose next index is `next`.
  pub data Sends (rf : Raft C) (next : ℕ) : Outgoing C → Type 0 where
    sends_snapshot :
        (args : InstallSnapshotArgs)
        → next ≤ rf.last_included_index
        → args.term ≡ rf.current_term
        → args.last_included_index ≡ rf.last_included_index
        → args.last_included_term ≡ rf.last_included_term
        → args.bytes ≡ rf.persister.snapshot
        → Sends rf next (install args)
    sends_entries :
        (args : AppendEntriesArgs C)
        → rf.last_included_index < next
        → Carries rf next args
        → Sends rf next (append args)

  module _ (rf : Raft C) (next : ℕ) (s : 0 < length rf.log) (ahead : rf.last_included_index < next)
      (inside : next ≤ last_log_index rf + 1) where
    abbrev call : ℕ → AppendEntriesArgs C
    call prev_term = record {
      term = rf.current_term;
      leader_id = rf.me;
      prev_log_index = next - 1;
      prev_log_term = prev_term;
      entries = drop (get_relative_index rf next) rf.log;
      leader_commit = rf.commit_index;
    }

    call-Carries :
        (e : LogEntry C) → entry_at rf (next - 1) ≡ some e → Carries rf next (call e.term)
    call-Carries e here = record {
      in_term = refl;
      from_me = refl;
      prev = omega arith;
      prev_term = ap term_of here;
      all = omega (arith, length-drop (get_relative_index rf next) rf.log);
      same = λ i.
          let place : get_relative_index rf next + i ≡ next + i - rf.last_included_index =
            omega arith in
          get_elem?-drop (get_relative_index rf next) rf.log i
          ∙ ap (get_elem? rf.log) place
          ∙ sym (entry_at-ge rf (next + i) (omega arith));
      commit = refl;
    }

  abbrev snapshot_call : Raft C → InstallSnapshotArgs
  snapshot_call rf = record {
    term = rf.current_term;
    leader_id = rf.me;
    last_included_index = rf.last_included_index;
    last_included_term = rf.last_included_term;
    bytes = rf.persister.snapshot;
  }

  -- A leader in the term of the call, whose next index for a peer is not beyond the end of its log,
  -- always has something to send: its snapshot, where the next entry is compacted away, and else
  -- the whole of its log from the next index on, with the index and the term of the entry before.
  pub make_append-Sends :
      (rf : Raft C) (peer next : ℕ)
      → rf.role ≡ Role.leader
      → 0 < length rf.log
      → get_elem? rf.next_index peer ≡ some next
      → next ≤ last_log_index rf + 1
      → (out : Outgoing C) × (make_append rf peer rf.current_term ≡ some out) × Sends rf next out
  unfolding make_append
  make_append-Sends rf peer next lead s at inside =
      elim (Bool-cases (leb next rf.last_included_index)) [
        | inl compacted ↦ (
          install (snapshot_call rf),
          ground (arith, lead, at, compacted),
          sends_snapshot (snapshot_call rf) (ground (arith, compacted)) refl refl refl refl,
        )
        | inr ahead ↦
            let lt : rf.last_included_index < next = ground (arith, ahead) in
            let (e, here) = entry_at_in rf (next - 1) s (omega arith) (omega arith) in
            (
              append (call rf next s lt inside e.term),
              ground (arith, lead, at, ahead, here),
              sends_entries _ lt (call-Carries rf next s lt inside e here),
            )
      ]
