-- ===== src/Raft/Cluster/Invariant.antt =====
-- The invariant of a cluster of raft1/raft.go: of each peer, given the votes on record, and of the
-- goroutines of the elections.
use mit_6_824_distributed_sy.Prelude.{
  ℕ, ◌/◌, ◌≤◌, ◌<◌, ◌≡◌, ◌≢◌, sym, ◌∙◌, subst, true, some, ◌==◌, arith, ==_iff, Bool-cases, ◌⊎◌,
  inl, inr,
}
use mit_6_824_distributed_sy.Raft.State.{Raft, Role}
use mit_6_824_distributed_sy.Raft.Persist.{Codec}
use mit_6_824_distributed_sy.Raft.Election.{RequestVoteArgs, RequestVoteReply}
use mit_6_824_distributed_sy.Raft.Durability.{IsDurable}
use mit_6_824_distributed_sy.Raft.Votes.{Evolves}
use mit_6_824_distributed_sy.Raft.Cluster.Counting.{count}
use mit_6_824_distributed_sy.Raft.Cluster.System.{System, gone, asked, answered, update, note}
use mit_6_824_distributed_sy.Raft.Cluster.Ballots.{
  Grows, OnRecord, note-OnRecord, note-Grows, note-others,
}
use mit_6_824_distributed_sy.Raft.Cluster.Tally.{Ballots, Calls, supports, backs, count-supports}

module _ {C : Type 0} (gob : Codec C) (n : ℕ) where
  -- What holds of peer `i`, given the votes on record.
  pub record PeerInv (ballots : Ballots) (i : ℕ) (rf : Raft C) : Type 0 where
    pub mine : rf.me ≡ i
    pub sized : rf.peers ≡ n
    pub durable : IsDurable gob rf
    pub on : OnRecord ballots i rf
    pub leads : rf.role ≡ Role.leader → n / 2 < count n (supports ballots i rf.current_term)

  -- What holds of the goroutines of the elections.
  pub record CallInv (ballots : Ballots) (calls : Calls) (votes : ℕ → ℕ → ℕ) : Type 0 where
    pub asks :
        (i t p : ℕ) (args : RequestVoteArgs)
        → calls i t p ≡ asked args
        → (args.candidate_id ≡ i) × (args.term ≡ t)
    pub answers :
        (i t p : ℕ) (reply : RequestVoteReply)
        → calls i t p ≡ answered reply
        → reply.vote_granted ≡ true
        → ballots p t ≡ some i
    pub apart : (i t p : ℕ) → calls i t p ≢ gone → (p < n) × (p ≢ i)
    pub backed : (i t : ℕ) → votes i t ≤ count n (backs ballots calls i t)

  pub record Inv (s : System C) : Type 0 where
    pub peers : (i : ℕ) → PeerInv s.ballots i (s.peer i)
    pub calls : CallInv s.ballots s.calls s.votes

  -- A step of peer `i`, for a leader that was one or has its majority on record.
  module _ (ballots : Ballots) (i : ℕ) (rf rf' : Raft C) (inv : PeerInv ballots i rf)
      (ev : Evolves rf rf') where
    abbrev ballots' : Ballots
    ballots' = note ballots i rf'

    pub grows : Grows ballots ballots'
    grows = note-Grows ballots i rf rf' inv.on ev

    other-PeerInv :
        (j : ℕ) (other : Raft C) → i ≢ j → PeerInv ballots j other → PeerInv ballots' j other
    other-PeerInv j other ne o = record {
      mine = o.mine;
      sized = o.sized;
      durable = o.durable;
      on = note-others ballots i rf rf' inv.on ev j other ne o.on;
      leads = λ l.
          omega (arith, o.leads l, count-supports n ballots ballots' grows j other.current_term);
    }

    pub moved-PeerInv :
        IsDurable gob rf'
        → (rf'.role ≡ Role.leader
            → ((rf.role ≡ Role.leader) × (rf'.current_term ≡ rf.current_term))
              ⊎ (n / 2 < count n (supports ballots' i rf'.current_term)))
        → PeerInv ballots' i rf'
    moved-PeerInv d lead = record {
      mine = ev.same_me ∙ inv.mine;
      sized = ev.same_peers ∙ inv.sized;
      durable = d;
      on = note-OnRecord ballots i rf rf' inv.on ev;
      leads = λ l. elim (lead l) [
        | inl (old, same) ↦
            subst (λ t. n / 2 < count n (supports ballots' i t)) (sym same)
              (omega
                (arith, inv.leads old, count-supports n ballots ballots' grows i rf.current_term))
        | inr majority ↦ majority
      ];
    }

    pub moved-peers :
        (peer : ℕ → Raft C)
        → ((j : ℕ) → PeerInv ballots j (peer j))
        → PeerInv ballots' i rf'
        → (j : ℕ) → PeerInv ballots' j (update peer i rf' j)
    moved-peers peer all mine j = elim (Bool-cases (i == j)) [
      | inl same ↦ rw (same, ← (==_iff i j).0 same) mine
      | inr apart ↦ rw apart (other-PeerInv j (peer j) (λ e. ground (arith, e, apart)) (all j))
    ]
