-- ===== src/Raft/Examples/Leading.antt =====
-- The theorems about a leader of raft1/raft.go, about snapshots and about delivery, at one peer.
use mit_6_824_distributed_sy.Prelude.{
  ℕ, ◌≡◌, ◌⊎◌, ◌≤◌, ◌<◌, refl, some, [], ◌∷◌, List, false, arith, length,
}
use mit_6_824_distributed_sy.Raft.State.{Raft, LogEntry, ApplyMsg, Role, sentinel}
use mit_6_824_distributed_sy.Raft.Leader.{Outgoing, make_append, update_commit_index}
use mit_6_824_distributed_sy.Raft.Apply.{apply_round}
use mit_6_824_distributed_sy.Raft.Commit.{Commits, update_commit_index-Commits}
use mit_6_824_distributed_sy.Raft.Compaction.{InstallSnapshotArgs, take_snapshot, install_snapshot}
use mit_6_824_distributed_sy.Raft.Snapshots.{Trims, Advances, take_snapshot-Trims}
use mit_6_824_distributed_sy.Raft.Snapshots.Install.{Ends, install_snapshot-Ends}
use mit_6_824_distributed_sy.Raft.Delivery.{Delivers, apply_round-Delivers}
use mit_6_824_distributed_sy.Raft.Replication.{Sends, make_append-Sends}
use mit_6_824_distributed_sy.Raft.Examples.Gob.{gob}

abbrev entry : ℕ → ℕ → LogEntry ℕ
entry t c = record { command = some c; term = t }

-- A leader of term 2 that has compacted its log up to index 4, and knows that peer 0 has all of it.
abbrev leader : Raft ℕ
leader = record {
  persister = record { raftstate = []; snapshot = 40 ∷ [] };
  peers = 3;
  me = 1;
  dead = false;
  current_term = 2;
  voted_for = some 1;
  log = sentinel 1 ∷ entry 1 10 ∷ entry 2 11 ∷ entry 2 12 ∷ [];
  last_included_index = 4;
  last_included_term = 1;
  commit_index = 5;
  last_applied = 4;
  next_index = 8 ∷ 8 ∷ 6 ∷ [];
  match_index = 7 ∷ 0 ∷ 5 ∷ [];
  role = Role.leader;
  last_heartbeat = 0;
}

update_commit_index-Commits_example :
    (new : ℕ) × (update_commit_index leader ≡ some (record leader { commit_index = new }))
    × Commits leader 7 new
update_commit_index-Commits_example = update_commit_index-Commits leader (omega arith) (omega arith)

take_snapshot-Trims_example :
    (rf' : Raft ℕ) × (take_snapshot gob leader 5 (50 ∷ []) ≡ some rf')
    × (((5 ≤ 4) × (rf' ≡ leader))
        ⊎ ((4 < 5) × Trims leader rf' 5 × Advances leader rf' 5 (50 ∷ [])))
take_snapshot-Trims_example = take_snapshot-Trims gob leader 5 (50 ∷ []) (omega arith) (omega arith)

-- From a later leader, whose snapshot ends at an entry that the log holds.
abbrev newer : InstallSnapshotArgs
newer = record {
  term = 3;
  leader_id = 0;
  last_included_index = 6;
  last_included_term = 2;
  bytes = 60 ∷ [];
}

install_snapshot-Ends_example :
    let (rf', reply, msg) = install_snapshot gob leader newer 8 in
    (reply.term ≡ 2) × Ends gob leader rf' newer 8 msg
install_snapshot-Ends_example = install_snapshot-Ends gob leader newer 8 (omega arith)

apply_round-Delivers_example :
    (rf' : Raft ℕ) × (msgs : List (ApplyMsg ℕ)) × (apply_round leader ≡ some (rf', msgs))
    × (rf'.last_applied ≡ 5)
    × (length msgs ≡ 1)
    × Delivers leader 4 msgs
apply_round-Delivers_example =
    apply_round-Delivers leader refl (omega arith) (omega arith) (omega arith) (omega arith)

make_append-Sends_example :
    (out : Outgoing ℕ) × (make_append leader 2 2 ≡ some out) × Sends leader 6 out
make_append-Sends_example = make_append-Sends leader 2 6 refl (omega arith) refl (omega arith)
