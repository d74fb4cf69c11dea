-- ===== src/Raft/Saves.antt =====
-- raft1/raft.go: what each handler saves.
use mit_6_824_distributed_sy.Prelude.{
  Bool-cases, ltb, if◌then◌else◌, ◌+◌, ◌-◌, ℕ, ◌≡◌, refl, sym, ◌∙◌, ap, Bool, true, false, Option,
  some, List, [], ◌∷◌, ◌⊎◌, inl, inr, arith,
}
use mit_6_824_distributed_sy.Raft.State.{Raft, LogEntry, ApplyMsg}
use mit_6_824_distributed_sy.Raft.Persist.{Codec, persistent, persist, step_down}
use mit_6_824_distributed_sy.Raft.Election.{
  RequestVoteArgs, RequestVoteReply, request_vote, handle_vote_reply, start_election, tick,
}
use mit_6_824_distributed_sy.Raft.Append.{
  AppendEntriesArgs, AppendEntriesReply, append_entries, enter_term, match_log, accept,
  store_entries, store_entry, empty_reply,
}
use mit_6_824_distributed_sy.Raft.Compaction.{
  InstallSnapshotArgs, InstallSnapshotReply, install_snapshot, take_snapshot,
}
use mit_6_824_distributed_sy.Raft.Leader.{start, handle_append_reply, handle_install_reply}
use mit_6_824_distributed_sy.Raft.Apply.{apply_round}

module _ {C : Type 0} (gob : Codec C) where
  -- A step either leaves the persistent state and its saved form alone, or saves it.
  abbrev pub Saves : Raft C → Raft C → Type 0
  Saves rf rf' =
      ((rf'.persister.raftstate ≡ rf.persister.raftstate) × (persistent rf' ≡ persistent rf))
      ⊎ (rf'.persister.raftstate ≡ gob.encode (persistent rf'))

  pub request_vote-Saves :
      (rf rf' : Raft C) (args : RequestVoteArgs) (now : ℕ) (reply : RequestVoteReply)
      → request_vote gob rf args now ≡ some (rf', reply)
      → Saves rf rf'
  unfolding request_vote persist step_down
  request_vote-Saves rf rf' args now reply e = ground arith

  pub tick-Saves :
      (rf rf' : Raft C) (now timeout : ℕ) (sent : Option RequestVoteArgs)
      → tick gob rf now timeout ≡ some (rf', sent)
      → Saves rf rf'
  unfolding tick start_election persist
  tick-Saves rf rf' now timeout sent e = ground arith

  pub vote_reply-Saves :
      (rf : Raft C) (term votes : ℕ) (reply : RequestVoteReply) (now : ℕ)
      → Saves rf (handle_vote_reply gob rf term votes reply now).0
  unfolding handle_vote_reply step_down
  vote_reply-Saves rf term votes reply now = ground arith

  pub append_reply-Saves :
      (rf rf' : Raft C) (peer term : ℕ) (args : AppendEntriesArgs C) (reply : AppendEntriesReply)
      → handle_append_reply gob rf peer term args reply ≡ some rf'
      → Saves rf rf'
  unfolding handle_append_reply step_down
  append_reply-Saves rf rf' peer term args reply e = ground arith

  pub install_reply-Saves :
      (rf rf' : Raft C) (peer term : ℕ) (args : InstallSnapshotArgs) (reply : InstallSnapshotReply)
      → handle_install_reply gob rf peer term args reply ≡ some rf'
      → Saves rf rf'
  unfolding handle_install_reply step_down
  install_reply-Saves rf rf' peer term args reply e = ground arith

  pub start-Saves : (rf : Raft C) (command : Option C) → Saves rf (start gob rf command).0
  unfolding start persist
  start-Saves rf command = ground arith

  pub take_snapshot-Saves :
      (rf rf' : Raft C) (index : ℕ) (bytes : List ℕ)
      → take_snapshot gob rf index bytes ≡ some rf'
      → Saves rf rf'
  unfolding take_snapshot
  take_snapshot-Saves rf rf' index bytes e = ground arith

  pub install_snapshot-Saves :
      (rf : Raft C) (args : InstallSnapshotArgs) (now : ℕ)
      → Saves rf (install_snapshot gob rf args now).0
  unfolding install_snapshot step_down
  install_snapshot-Saves rf args now = ground arith

  pub apply_round-Saves :
      (rf rf' : Raft C) {msgs : List (ApplyMsg C)}
      → apply_round rf ≡ some (rf', msgs)
      → Saves rf rf'
  unfolding apply_round
  apply_round-Saves rf rf' e = ground arith

  -- The flag of the loop over the new entries is off only if the log is as it was.
  store_entries-same :
      (log : List (LogEntry C)) (rel : ℕ) (entries : List (LogEntry C)) (has_new : Bool)
      → (store_entries log rel entries has_new).1 ≡ false
      → ((store_entries log rel entries has_new).0 ≡ log) × (has_new ≡ false)
  unfolding store_entries store_entry
  store_entries-same log rel [] has_new e = (refl, e)
  store_entries-same log rel (entry ∷ entries) has_new e = ground (
    arith,
    store_entries-same (store_entry log rel entry).0 (rel + 1) entries
        (if (store_entry log rel entry).1 then true else has_new),
  )

  accept-Saves : (rf : Raft C) (args : AppendEntriesArgs C) → Saves rf (accept gob rf args)
  unfolding accept persist
  accept-Saves rf args = ground (
    arith,
    store_entries-same rf.log (args.prev_log_index + 1 - rf.last_included_index) args.entries false,
  )

  match_log-Saves :
      (rf rf' : Raft C) (args : AppendEntriesArgs C) (reply reply' : AppendEntriesReply)
      → match_log gob rf args reply ≡ some (rf', reply')
      → Saves rf rf'
  unfolding match_log
  match_log-Saves rf rf' args reply reply' e = ground (arith, accept-Saves rf args)

  enter_term-Saves : (rf : Raft C) (term now : ℕ) → Saves rf (enter_term gob rf term now)
  unfolding enter_term step_down
  enter_term-Saves rf term now = ground arith

  Saves-trans : (a b c : Raft C) → Saves a b → Saves b c → Saves a c
  Saves-trans a b c (inl p) (inl q) = inl (q.0 ∙ p.0, q.1 ∙ p.1)
  Saves-trans a b c (inr p) (inl q) = inr (q.0 ∙ p ∙ ap gob.encode (sym q.1))
  Saves-trans a b c p (inr q) = inr q

  pub append_entries-Saves :
      (rf rf' : Raft C) (args : AppendEntriesArgs C) (now : ℕ) (reply : AppendEntriesReply)
      → append_entries gob rf args now ≡ some (rf', reply)
      → Saves rf rf'
  unfolding append_entries
  append_entries-Saves rf rf' args now reply e = elim (Bool-cases (ltb args.term rf.current_term)) [
    | inl old ↦ inl (ground (arith, old, e))
    | inr new ↦
        let rf1 = enter_term gob rf args.term now in
        Saves-trans rf rf1 rf' (enter_term-Saves rf args.term now) (
          match_log-Saves rf1 rf' args (record empty_reply { term = rf1.current_term }) reply
            (rw new at e))
  ]
