-- ===== src/Raft/Cluster/Reigns.antt =====
-- The invariant of the logs of a cluster of raft1/raft.go, and one step of a peer.
use mit_6_824_distributed_sy.Prelude.{ℕ, ◌/◌, ◌≤◌, ◌<◌, ◌≡◌, ◌≢◌, Option, some, ◌⊎◌}
use mit_6_824_distributed_sy.Raft.State.{Raft, Role, LogEntry}
use mit_6_824_distributed_sy.Raft.Leader.{Outgoing}
use mit_6_824_distributed_sy.Raft.Books.{Book, Chain, Exact, LogOk, SameLog}
use mit_6_824_distributed_sy.Raft.Books.Handlers.{LogMove, Stands}
use mit_6_824_distributed_sy.Raft.Cluster.Counting.{count}
use mit_6_824_distributed_sy.Raft.Cluster.Ballots.{Grows}
use mit_6_824_distributed_sy.Raft.Cluster.Tally.{Ballots, supports}
use mit_6_824_distributed_sy.Raft.Cluster.Packets.{Network, OnWire}
use mit_6_824_distributed_sy.Raft.Cluster.Sending.{PacketOk}

-- More than half of the `n` peers have voted for `i` in term `t`.
abbrev pub Elected : ℕ → Ballots → ℕ → ℕ → Type 0
Elected n ballots i t = n / 2 < count n (supports ballots i t)

module _ {C : Type 0} (n : ℕ) where
  pub record PeerMatch (book : Book C) (owner : ℕ → Option ℕ) (i : ℕ) (rf : Raft C) : Type 0 where
    pub log : LogOk book rf
    pub stood : rf.role ≡ Role.candidate → 0 < rf.current_term
    pub leads :
        rf.role ≡ Role.leader → (owner rf.current_term ≡ some i) × Exact book rf.current_term rf

  -- What holds of the leaders that terms have had.
  pub record Reigns (peer : ℕ → Raft C) (ballots : Ballots) (book : Book C) (owner : ℕ → Option ℕ)
      : Type 0 where
    pub owned :
        (t k : ℕ) (e : LogEntry C) → book t k ≡ some e → (t ≡ 0) ⊎ ((c : ℕ) × (owner t ≡ some c))
    pub elected : (t c : ℕ) → owner t ≡ some c → Elected n ballots c t
    pub past : (t c : ℕ) → owner t ≡ some c → t ≤ (peer c).current_term
    -- no peer is a candidate again in a term that it led
    pub over :
        (t c : ℕ) → owner t ≡ some c → (peer c).role ≡ Role.candidate → t < (peer c).current_term

  -- What holds of a cluster with its calls.
  pub record MatchInv (c : Network C) : Type 0 where
    pub chain : Chain c.book
    pub peers : (j : ℕ) → PeerMatch c.book c.owner j (c.system.peer j)
    pub reigns : Reigns c.system.peer c.system.ballots c.book c.owner
    pub packets : (p : ℕ) (out : Outgoing C) → OnWire c.sent p out → PacketOk c.book c.owner p out

  -- A step of peer `i` from `rf` to `rf'`.
  pub record Advance (peer peer' : ℕ → Raft C) (ballots ballots' : Ballots) (book : Book C) (i : ℕ)
      : Type 0 where
    pub others : (j : ℕ) → i ≢ j → peer' j ≡ peer j
    pub ballots_grow : Grows ballots ballots'
    pub log : LogMove book (peer i) (peer' i)
    pub stands : Stands (peer i) (peer' i)
    pub term_grows : (peer i).current_term ≤ (peer' i).current_term
    pub rule :
        (peer' i).role ≡ Role.leader
        → (((peer i).role ≡ Role.leader)
            ⊎ (((peer i).role ≡ Role.candidate) × SameLog (peer i) (peer' i)))
          × ((peer' i).current_term ≡ (peer i).current_term)
    pub elected : (peer' i).role ≡ Role.leader → Elected n ballots' i (peer' i).current_term
