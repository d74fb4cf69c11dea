-- ===== src/Raft/Election.antt =====
-- raft1/raft.go: `RequestVote`, `ticker` and `startElection` with its reply handler.
use mit_6_824_distributed_sy.Prelude.{
  ℕ, ◌+◌, ◌-◌, ◌/◌, Bool, true, false, ◌&&◌, ◌||◌, not, Option, none, some, if◌then◌else◌, ltb, leb,
  ◌==◌, replicate,
}
use mit_6_824_distributed_sy.Raft.State.{
  Role, Raft, is_leader, is_candidate, last_log_index, last_log_term, ◌>>=◌,
}
use mit_6_824_distributed_sy.Raft.Persist.{Codec, persist, step_down}

pub record RequestVoteArgs : Type 0 where
  pub term : ℕ
  pub candidate_id : ℕ
  pub last_log_index : ℕ
  pub last_log_term : ℕ

pub record RequestVoteReply : Type 0 where
  pub term : ℕ
  pub vote_granted : Bool

-- `rf.votedFor == -1 || rf.votedFor == args.CandidateId`
abbrev pub may_vote : Option ℕ → ℕ → Bool
may_vote none candidate = true
may_vote (some v) candidate = v == candidate

module _ {C : Type 0} where
  -- `logUpToDate`
  unfoldable pub log_up_to_date : Raft C → RequestVoteArgs → ℕ → Bool
  log_up_to_date rf args last_term =
      if ltb last_term args.last_log_term
      then true
      else args.last_log_term == last_term && leb (last_log_index rf) args.last_log_index

  -- What a candidate becomes when its votes are a majority.
  become_leader : Raft C → ℕ → Raft C
  become_leader rf now = record rf {
    role = Role.leader;
    last_heartbeat = now;
    next_index = replicate rf.peers (last_log_index rf + 1);
    match_index = replicate rf.peers 0;
  }

module _ {C : Type 0} (gob : Codec C) where
  -- Rule 2 of the handlers.
  observe_term : Raft C → ℕ → Raft C
  observe_term rf term = if ltb rf.current_term term then step_down gob rf term else rf

  vote : Raft C → RequestVoteArgs → ℕ → ℕ → Raft C × RequestVoteReply
  unfolding log_up_to_date
  vote rf args last_term now =
      if may_vote rf.voted_for args.candidate_id && log_up_to_date rf args last_term
      then (
        record (persist gob (record rf { voted_for = some args.candidate_id })) {
          last_heartbeat = now;
        },
        record { term = rf.current_term; vote_granted = true },
      )
      else (rf, record { term = rf.current_term; vote_granted = false })

  -- `RequestVote`
  unfoldable pub request_vote : Raft C → RequestVoteArgs → ℕ → Option (Raft C × RequestVoteReply)
  unfolding observe_term vote last_log_term
  request_vote rf args now =
      if ltb args.term rf.current_term
      then some (rf, record { term = rf.current_term; vote_granted = false })
      else (do
        let rf' = observe_term rf args.term
        last_term ← last_log_term rf'
        some (vote rf' args last_term now))

  -- `startElection` up to its goroutines, which all send the one request. The election's count of
  -- votes starts at 1.
  unfoldable pub start_election : Raft C → ℕ → Option (Raft C × RequestVoteArgs)
  unfolding last_log_term
  start_election rf now = do
    let rf' =
        record (persist gob (record rf {
          role = Role.candidate;
          current_term = rf.current_term + 1;
          voted_for = some rf.me;
        })) { last_heartbeat = now }
    last_term ← last_log_term rf'
    some (
      rf',
      record {
        term = rf'.current_term;
        candidate_id = rf'.me;
        last_log_index = last_log_index rf';
        last_log_term = last_term;
      },
    )

  -- The goroutine of `startElection` for the election of `term`, once its call has returned true.
  -- `votes` is shared by the goroutines of one election.
  unfoldable pub handle_vote_reply : Raft C → ℕ → ℕ → RequestVoteReply → ℕ → Raft C × ℕ
  unfolding become_leader
  handle_vote_reply rf term votes reply now =
      if not (is_candidate rf.role) || not (rf.current_term == term)
      then (rf, votes)
      else if ltb rf.current_term reply.term
      then (step_down gob rf reply.term, votes)
      else if reply.vote_granted
      then (if ltb (rf.peers / 2) (votes + 1) && is_candidate rf.role
          then (become_leader rf now, votes + 1)
          else (rf, votes + 1))
      else (rf, votes)

  -- One round of `ticker`, with the timeout that it draws.
  unfoldable pub tick : Raft C → ℕ → ℕ → Option (Raft C × Option RequestVoteArgs)
  tick rf now timeout =
      if not (is_leader rf.role) && ltb timeout (now - rf.last_heartbeat)
      then (do (rf', args) ← start_election rf now; some (rf', some args))
      else some (rf, none)
