-- ===== src/Raft/Votes.antt =====
-- Term, vote and role of one peer of raft1/raft.go from one of its states to the next.
pub mod Ballot
pub mod Handlers
use mit_6_824_distributed_sy.Prelude.{
  ℕ, ◌+◌, ◌/◌, ◌≤◌, ◌<◌, ◌≡◌, refl, true, Option, none, some, List, ◌⊎◌, inl, inr, arith, ltb,
  Bool-cases, subst, sym, ◌∙◌, some-inj,
}
use mit_6_824_distributed_sy.Raft.State.{Raft, Role, kill, ApplyMsg}
use mit_6_824_distributed_sy.Raft.Persist.{Codec, persist, step_down}
use mit_6_824_distributed_sy.Raft.Election.{
  RequestVoteArgs, RequestVoteReply, request_vote, handle_vote_reply, start_election, tick,
}
use mit_6_824_distributed_sy.Raft.Append.{
  AppendEntriesArgs, AppendEntriesReply, append_entries, enter_term, match_log, accept, empty_reply,
}
use mit_6_824_distributed_sy.Raft.Compaction.{
  InstallSnapshotArgs, InstallSnapshotReply, install_snapshot, take_snapshot,
}
use mit_6_824_distributed_sy.Raft.Leader.{start, handle_append_reply, handle_install_reply}
use mit_6_824_distributed_sy.Raft.Apply.{apply_round}
use mit_6_824_distributed_sy.Raft.Peer.{
  Event, vote_request, append_request, install_request, vote_reply, append_reply, install_reply,
  submits, snapshots, ticks, applies, kills, step, state_of-eq, IsNoVoteReply,
}

module _ {C : Type 0} where
  -- A step keeps the peer's number and the size of the cluster, never lowers its term, and within
  -- a term never takes back or changes its vote.
  pub record Evolves (rf rf' : Raft C) : Type 0 where
    pub same_me : rf'.me ≡ rf.me
    pub same_peers : rf'.peers ≡ rf.peers
    pub term_grows : rf.current_term ≤ rf'.current_term
    pub vote_stays :
        (c : ℕ)
        → rf'.current_term ≡ rf.current_term
        → rf.voted_for ≡ some c
        → rf'.voted_for ≡ some c

  -- A step that makes no leader.
  abbrev pub NoNewLeader : Raft C → Raft C → Type 0
  NoNewLeader rf rf' =
      rf'.role ≡ Role.leader → (rf.role ≡ Role.leader) × (rf'.current_term ≡ rf.current_term)

  abbrev pub Quiet : Raft C → Raft C → Type 0
  Quiet rf rf' = Evolves rf rf' × NoNewLeader rf rf'

  pub Quiet-trans : {a b c : Raft C} → Quiet a b → Quiet b c → Quiet a c
  Quiet-trans p q = (
    record {
      same_me = ground (arith, p.0.same_me, q.0.same_me);
      same_peers = ground (arith, p.0.same_peers, q.0.same_peers);
      term_grows = omega (arith, p.0.term_grows, q.0.term_grows);
      vote_stays = λ v e h.
          q.0.vote_stays v (omega (arith, p.0.term_grows, q.0.term_grows, e))
            (p.0.vote_stays v (omega (arith, p.0.term_grows, q.0.term_grows, e)) h);
    },
    λ l. let (lb, tb) = q.1 l in let (la, ta) = p.1 lb in (la, tb ∙ ta),
  )

  -- A step that leaves number, term, vote and role alone.
  pub record Same (rf rf' : Raft C) : Type 0 where
    pub me : rf'.me ≡ rf.me
    pub peers : rf'.peers ≡ rf.peers
    pub term : rf'.current_term ≡ rf.current_term
    pub vote : rf'.voted_for ≡ rf.voted_for
    pub role : rf'.role ≡ rf.role

  pub Same-Quiet : (rf rf' : Raft C) → Same rf rf' → Quiet rf rf'
  Same-Quiet rf rf' s = (
    record {
      same_me = s.me;
      same_peers = s.peers;
      term_grows = omega (arith, s.term);
      vote_stays = λ c t v. s.vote ∙ v;
    },
    λ l. (sym s.role ∙ l, s.term),
  )
