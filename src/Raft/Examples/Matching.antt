-- ===== src/Raft/Examples/Matching.antt =====
-- A cluster of three peers of raft1/raft.go, in which a command goes from a leader to a follower.
use mit_6_824_distributed_sy.Prelude.{ℕ, ◌≡◌, refl, some, [], ◌∷◌, arith}
use mit_6_824_distributed_sy.Raft.State.{LogEntry, entry_at}
use mit_6_824_distributed_sy.Raft.Persist.{make_raft, persist, step_down, read_persist}
use mit_6_824_distributed_sy.Raft.Election.{request_vote, start_election, tick, handle_vote_reply}
use mit_6_824_distributed_sy.Raft.Append.{
  append_entries, accept, enter_term, match_log, store_entry, store_entries, advance_commit,
}
use mit_6_824_distributed_sy.Raft.Leader.{start, make_append}
use mit_6_824_distributed_sy.Raft.Peer.{append_request, submits, step}
use mit_6_824_distributed_sy.Raft.Cluster.System.{elects, handles, hears, happens}
use mit_6_824_distributed_sy.Raft.Cluster.Packets.{Network, NetReach, starts, then_by, goes, sends}
use mit_6_824_distributed_sy.Raft.Cluster.Matching.{log_matching}
use mit_6_824_distributed_sy.Raft.Examples.Gob.{gob}

record NetRun (n : ℕ) : Type 1 where
  last : Network ℕ
  reach : NetReach gob n last

abbrev command : LogEntry ℕ
command = record { command = some 7; term = 1 }

-- Peer 0 is elected by peer 1, takes a command, and sends it to peer 1, which stores it.
abbrev replicated : NetRun 3
unfolding tick start_election request_vote handle_vote_reply make_raft read_persist persist
    step_down step start make_append append_entries accept enter_term match_log store_entries
    store_entry entry_at advance_commit
replicated = record {
  last = _;
  reach =
      then_by
        (then_by
          (then_by
            (then_by
              (then_by (then_by starts (goes (elects 0 900 300 (omega arith) refl) tt))
                (goes (handles 0 1 1 910 (omega arith) refl refl) tt))
              (goes (hears 0 1 1 920 (omega arith) refl refl) tt))
            (goes (happens 0 (submits (some 7)) (omega arith) tt refl) tt))
          (sends 0 1 1 (omega arith) refl))
        (goes
          (happens 1
            (append_request
              (record {
                term = 1;
                leader_id = 0;
                prev_log_index = 0;
                prev_log_term = 0;
                entries = command ∷ [];
                leader_commit = 0;
              })
              930)
            (omega arith) tt refl)
          (0, refl));
}

log_matching_example :
    entry_at (replicated.last.system.peer 0) 1 ≡ entry_at (replicated.last.system.peer 1) 1
unfolding tick start_election request_vote handle_vote_reply make_raft read_persist persist
    step_down step start make_append append_entries accept enter_term match_log store_entries
    store_entry entry_at advance_commit
log_matching_example =
    log_matching gob 3 replicated.reach 0 1 1 command command refl refl refl 1 (omega arith)
      (omega arith) (omega arith)
