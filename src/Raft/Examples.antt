-- ===== src/Raft/Examples.antt =====
-- The theorems about raft1/raft.go at concrete peers, and runs of its handlers.
pub mod Gob
mod Leading
mod Matching
use mit_6_824_distributed_sy.Prelude.{
  ℕ, ◌≡◌, ◌≢◌, ◌⊎◌, ◌≤◌, ◌<◌, ◌+◌, inl, inr, refl, none, some, [], ◌∷◌, List, true, false, arith,
  length,
}
use mit_6_824_distributed_sy.Raft.State.{Raft, LogEntry, Role, Persister, sentinel, entry_at}
use mit_6_824_distributed_sy.Raft.Persist.{make_raft, persist, step_down, stored, read_persist}
use mit_6_824_distributed_sy.Raft.Election.{RequestVoteArgs, request_vote, start_election, tick}
use mit_6_824_distributed_sy.Raft.Append.{
  AppendEntriesArgs, AppendEntriesReply, append_entries, accept, enter_term, match_log, store_entry,
  store_entries, first_of_term, advance_commit,
}
use mit_6_824_distributed_sy.Raft.Append.Success.{append_entries-success}
use mit_6_824_distributed_sy.Raft.Append.Entries.{Accepted}
use mit_6_824_distributed_sy.Raft.Append.Conflict.{Answer, IsStale, append_entries-answers}
use mit_6_824_distributed_sy.Raft.Peer.{
  Event, vote_request, append_request, submits, ticks, run, restart, step,
}
use mit_6_824_distributed_sy.Raft.Durability.{Recovered, crash_recovery}
use mit_6_824_distributed_sy.Raft.Election.{handle_vote_reply}
use mit_6_824_distributed_sy.Raft.Cluster.System.{
  System, Reach, begin, next, elects, handles, hears,
}
use mit_6_824_distributed_sy.Raft.Cluster.Elections.{one_leader_per_term}
use Gob.{gob, encode, decode, encode_log, decode_log}

abbrev entry : ℕ → ℕ → LogEntry ℕ
entry t c = record { command = some c; term = t }

-- A follower of term 2 with entries of the terms 1, 1 and 2.
abbrev peer : Raft ℕ
peer = record {
  persister = record { raftstate = []; snapshot = [] };
  peers = 3;
  me = 1;
  dead = false;
  current_term = 2;
  voted_for = none;
  log = sentinel 0 ∷ entry 1 10 ∷ entry 1 11 ∷ entry 2 12 ∷ [];
  last_included_index = 0;
  last_included_term = 0;
  commit_index = 1;
  last_applied = 1;
  next_index = 0 ∷ 0 ∷ 0 ∷ [];
  match_index = 0 ∷ 0 ∷ 0 ∷ [];
  role = Role.follower;
  last_heartbeat = 0;
}

-- A leader of term 3 replaces the last entry.
abbrev replace_last : AppendEntriesArgs ℕ
replace_last = record {
  term = 3;
  leader_id = 0;
  prev_log_index = 2;
  prev_log_term = 1;
  entries = entry 3 20 ∷ entry 3 21 ∷ [];
  leader_commit = 3;
}

append_entries-success_example :
    Accepted peer (accept gob (enter_term gob peer 3 5) replace_last) replace_last
    × (peer.current_term ≤ 3)
    × (◌≡◌ {A = ℕ} 3 3)
unfolding append_entries accept enter_term match_log entry_at persist store_entries store_entry
    step_down
append_entries-success_example =
    append_entries-success gob peer replace_last 5 (omega arith) refl refl

append_entries-answers_example :
    (rf' : Raft ℕ) × (reply : AppendEntriesReply) × (append_entries gob peer replace_last 5
      ≡ some (rf', reply))
    × (IsStale peer rf' replace_last reply
        ⊎ ((reply.term ≡ 3) × Answer (enter_term gob peer 3 5) rf' replace_last reply))
append_entries-answers_example = append_entries-answers gob peer replace_last 5 (omega arith)

abbrev blank : Persister
blank = record { raftstate = []; snapshot = [] }

abbrev ask : RequestVoteArgs
ask = record { term = 4; candidate_id = 2; last_log_index = 7; last_log_term = 3 }

-- A peer is asked for its vote, crashes, and times out as a candidate of its own.
abbrev history : List (Event ℕ ⊎ ℕ)
history = inl (vote_request ask 5) ∷ inr 6 ∷ inl (ticks 900 300) ∷ []

abbrev voter : (rf : Raft ℕ) × (run gob (make_raft gob 3 1 blank 0) history ≡ some rf)
unfolding run step request_vote tick start_election restart make_raft read_persist encode decode
    decode_log encode_log step_down persist
voter = (_, refl)

crash_recovery_example : Recovered gob voter.0 (restart gob voter.0 1000)
crash_recovery_example = crash_recovery gob 3 1 blank 0 1000 history voter.1

-- Peer 0 of three starts an election, peer 1 votes for it, and the reply makes it the leader.
record ClusterRun (n : ℕ) : Type 1 where
  last : System ℕ
  reach : Reach gob n last

abbrev one_leader : ClusterRun 3
unfolding tick start_election request_vote handle_vote_reply make_raft read_persist persist
    step_down
one_leader = record {
  last = _;
  reach =
      next
        (next (next begin (elects 0 900 300 (omega arith) refl))
          (handles 0 1 1 910 (omega arith) refl refl))
        (hears 0 1 1 920 (omega arith) refl refl);
}

one_leader_per_term_example : ◌≡◌ {A = ℕ} 0 0
unfolding tick start_election request_vote handle_vote_reply make_raft read_persist persist
    step_down
one_leader_per_term_example = one_leader_per_term gob 3 one_leader.reach 0 0 refl refl refl
