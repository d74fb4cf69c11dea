-- ===== src/Raft/Append.antt =====
-- raft1/raft.go: the handler `AppendEntries`.
pub mod Store
pub mod Written
pub mod Entries
pub mod Success
pub mod Runs
pub mod Conflict
use mit_6_824_distributed_sy.Prelude.{
  ℕ, zero, suc, ◌+◌, Bool, true, false, Option, none, some, List, [], ◌∷◌, ◌++◌, if◌then◌else◌, ltb,
  ◌==◌, length, get_elem?, take,
}
use mit_6_824_distributed_sy.Raft.State.{
  Role, LogEntry, Raft, is_candidate, last_log_index, get_relative_index, entry_at, ◌>>=◌,
}
use mit_6_824_distributed_sy.Raft.Persist.{Codec, persist, step_down}

pub record AppendEntriesArgs (C : Type 0) : Type 0 where
  pub term : ℕ
  pub leader_id : ℕ
  pub prev_log_index : ℕ
  pub prev_log_term : ℕ
  pub entries : List (LogEntry C)
  pub leader_commit : ℕ

pub record AppendEntriesReply : Type 0 where
  pub term : ℕ
  pub success : Bool
  pub conflict_term : Option ℕ
  pub conflict_index : ℕ

-- The zero value of the reply.
abbrev pub empty_reply : AppendEntriesReply
empty_reply = record { term = 0; success = false; conflict_term = some 0; conflict_index = 0 }

-- Rule 5
unfoldable pub advance_commit : ℕ → ℕ → ℕ → ℕ
advance_commit commit leader_commit last_new =
    if ltb commit leader_commit
    then (let new_commit = if ltb last_new leader_commit then last_new else leader_commit in
        if ltb commit new_commit then new_commit else commit)
    else commit

module _ {C : Type 0} where
  -- The loop that looks for the first index of the conflicting term, from `firstIndex` down.
  unfoldable pub first_of_term : Raft C → ℕ → ℕ → Option ℕ
  first_of_term rf term zero = some zero
  first_of_term rf term (suc i) = elim (ltb rf.last_included_index (suc i)) [
    | false ↦ some (suc i)
    | true ↦ elim (entry_at rf i) [
      | none ↦ none
      | some e ↦ elim (e.term == term) [ true ↦ first_of_term rf term i | false ↦ some (suc i) ]
    ]
  ]

  -- One entry of Rules 3 and 4, to go to the relative index `rel`: the new log, and whether the
  -- entry is new.
  unfoldable pub store_entry : List (LogEntry C) → ℕ → LogEntry C → List (LogEntry C) × Bool
  store_entry log rel entry = elim (get_elem? log rel) [
    | none ↦ (log ++ entry ∷ [], true)
    | some old ↦ if old.term == entry.term then (log, false) else (take rel log ++ entry ∷ [], true)
  ]

  -- The loop of Rules 3 and 4.
  unfoldable pub store_entries :
      List (LogEntry C) → ℕ → List (LogEntry C) → Bool → List (LogEntry C) × Bool
  store_entries log rel [] has_new = (log, has_new)
  store_entries log rel (entry ∷ entries) has_new =
      let (log', new) = store_entry log rel entry in
      store_entries log' (rel + 1) entries (if new then true else has_new)

module _ {C : Type 0} (gob : Codec C) where
  -- Rules 3 to 5.
  unfoldable pub accept : Raft C → AppendEntriesArgs C → Raft C
  accept rf args =
      let (log', has_new) =
        store_entries rf.log (get_relative_index rf (args.prev_log_index + 1)) args.entries false in
      let rf1 = record rf { log = log' } in
      let rf2 = if has_new then persist gob rf1 else rf1 in
      record rf2 {
        commit_index =
            advance_commit rf2.commit_index args.leader_commit
              (args.prev_log_index + length args.entries);
      }

  -- Rule 2, and the reset of the timer.
  unfoldable pub enter_term : Raft C → ℕ → ℕ → Raft C
  enter_term rf term now =
      record (if ltb rf.current_term term
        then step_down gob rf term
        else if is_candidate rf.role
        then record rf { role = Role.follower }
        else rf) { last_heartbeat = now }

  -- The handler after Rule 2. `reply` has its term.
  unfoldable pub match_log :
      Raft C → AppendEntriesArgs C → AppendEntriesReply → Option (Raft C × AppendEntriesReply)
  match_log rf args reply =
      if ltb args.prev_log_index rf.last_included_index
      then some (
        rf,
        record reply {
          success = false;
          conflict_index = rf.last_included_index + 1;
          conflict_term = none;
        },
      )
      else if ltb (last_log_index rf) args.prev_log_index
      then some (
        rf,
        record reply {
          success = false;
          conflict_index = last_log_index rf + 1;
          conflict_term = none;
        },
      )
      else (do
        prev ← entry_at rf args.prev_log_index
        if prev.term == args.prev_log_term
            then some (accept rf args, record reply { success = true })
            else (do
              first ← first_of_term rf prev.term args.prev_log_index
              some (
                rf,
                record reply {
                  success = false;
                  conflict_term = some prev.term;
                  conflict_index = first;
                },
              )))

  -- `AppendEntries`
  unfoldable pub append_entries :
      Raft C → AppendEntriesArgs C → ℕ → Option (Raft C × AppendEntriesReply)
  unfolding enter_term match_log
  append_entries rf args now =
      if ltb args.term rf.current_term
      then some (rf, record empty_reply { term = rf.current_term; success = false })
      else (let rf' = enter_term rf args.term now in
          match_log rf' args (record empty_reply { term = rf'.current_term }))
