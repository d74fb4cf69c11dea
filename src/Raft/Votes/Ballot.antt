-- ===== src/Raft/Votes/Ballot.antt =====
-- The election of raft1/raft.go at one peer: `RequestVote`, `ticker` and the vote replies.
use mit_6_824_distributed_sy.Prelude.{ℕ, ◌+◌, ◌/◌, ◌<◌, ◌≡◌, true, Option, some, ◌⊎◌, arith}
use mit_6_824_distributed_sy.Raft.State.{Raft, Role}
use mit_6_824_distributed_sy.Raft.Persist.{Codec, persist, step_down}
use mit_6_824_distributed_sy.Raft.Election.{
  RequestVoteArgs, RequestVoteReply, request_vote, handle_vote_reply, start_election, tick,
}
use mit_6_824_distributed_sy.Raft.Votes.{Evolves, Quiet}

module _ {C : Type 0} (gob : Codec C) where
  -- `RequestVote` grants a vote only by voting for the candidate, in the candidate's term.
  pub request_vote-grants :
      (rf rf' : Raft C) (args : RequestVoteArgs) (now : ℕ) (reply : RequestVoteReply)
      → request_vote gob rf args now ≡ some (rf', reply)
      → reply.vote_granted ≡ true
      → (rf'.voted_for ≡ some args.candidate_id) × (rf'.current_term ≡ args.term)
  unfolding request_vote persist step_down
  request_vote-grants rf rf' args now reply e g = ground arith

  pub request_vote-Quiet :
      (rf rf' : Raft C) (args : RequestVoteArgs) (now : ℕ) (reply : RequestVoteReply)
      → request_vote gob rf args now ≡ some (rf', reply)
      → Quiet rf rf'
  unfolding request_vote persist step_down
  request_vote-Quiet rf rf' args now reply e = (
    record {
      same_me = ground arith;
      same_peers = ground arith;
      term_grows = ground arith;
      vote_stays = λ c t v. ground arith;
    },
    λ l. ground arith,
  )

  pub tick-Quiet :
      (rf rf' : Raft C) (now timeout : ℕ) (sent : Option RequestVoteArgs)
      → tick gob rf now timeout ≡ some (rf', sent)
      → Quiet rf rf'
  unfolding tick start_election persist
  tick-Quiet rf rf' now timeout sent e = (
    record {
      same_me = ground arith;
      same_peers = ground arith;
      term_grows = ground arith;
      vote_stays = λ c t v. ground arith;
    },
    λ l. ground arith,
  )

  -- What `ticker` and `startElection` do to term and vote.
  pub tick-election :
      (rf rf' : Raft C) (now timeout : ℕ) (args : RequestVoteArgs)
      → tick gob rf now timeout ≡ some (rf', some args)
      → (args.candidate_id ≡ rf.me)
        × (args.term ≡ rf'.current_term)
        × (rf'.current_term ≡ rf.current_term + 1)
        × (rf'.voted_for ≡ some rf.me)
  unfolding tick start_election persist
  tick-election rf rf' now timeout args e = ground arith

  -- The reply handler counts granted votes of its own election only, and makes a leader only of a
  -- candidate of that election with more than half of the votes.
  pub record Counts (rf rf' : Raft C) (term votes votes' : ℕ) (reply : RequestVoteReply)
      : Type 0 where
    pub evolves : Evolves rf rf'
    pub count : (votes' ≡ votes) ⊎ ((votes' ≡ votes + 1) × (reply.vote_granted ≡ true))
    pub leads :
        rf'.role ≡ Role.leader
        → ((rf.role ≡ Role.leader) × (rf'.current_term ≡ rf.current_term))
          ⊎ ((rf'.current_term ≡ term) × (votes' ≡ votes + 1) × (rf.peers / 2 < votes'))

  pub vote_reply-Counts :
      (rf : Raft C) (term votes : ℕ) (reply : RequestVoteReply) (now : ℕ)
      → let (rf', votes') = handle_vote_reply gob rf term votes reply now in
        Counts rf rf' term votes votes' reply
  unfolding handle_vote_reply step_down
  vote_reply-Counts rf term votes reply now = record {
    evolves = record {
      same_me = ground arith;
      same_peers = ground arith;
      term_grows = ground arith;
      vote_stays = λ c t v. ground arith;
    };
    count = ground arith;
    leads = λ l. ground arith;
  }
