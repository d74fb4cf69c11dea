-- ===== src/Raft/Cluster/System.antt =====
-- The cluster as a step relation. Elections are modelled to the message: `startElection` starts
-- one goroutine for each other peer, and each makes one call of `RequestVote`. All other events of
-- a peer may happen at any time with any arguments, which covers every other message.
use mit_6_824_distributed_sy.Prelude.{
  ℕ, ◌<◌, ◌≡◌, ◌≢◌, ◌&&◌, Option, none, some, [], if◌then◌else◌, ◌==◌, ltb, not,
}
use mit_6_824_distributed_sy.Raft.State.{Raft}
use mit_6_824_distributed_sy.Raft.Persist.{Codec, make_raft}
use mit_6_824_distributed_sy.Raft.Election.{
  RequestVoteArgs, RequestVoteReply, request_vote, handle_vote_reply, tick,
}
use mit_6_824_distributed_sy.Raft.Peer.{Event, IsNoVoteReply, step, restart}

-- A goroutine of `startElection`.
pub data Call : Type 0 where
  -- not running, or lost, or its reply did not count
  gone : Call
  asked : (args : RequestVoteArgs) → Call
  answered : (reply : RequestVoteReply) → Call
  -- its reply was counted as a vote
  counted : Call

-- `calls i t p` is the goroutine that peer `i` started for peer `p` in its election of term `t`,
-- and `votes i t` the count that these goroutines share. `ballots p t` is the peer that `p` last
-- voted for in term `t`: no code reads it.
pub record System (C : Type 0) : Type 0 where
  pub peer : ℕ → Raft C
  pub calls : ℕ → ℕ → ℕ → Call
  pub votes : ℕ → ℕ → ℕ
  pub ballots : ℕ → ℕ → Option ℕ

abbrev pub update {ℓ} : {A : Type ℓ} → (ℕ → A) → ℕ → A → ℕ → A
update f i a j = if i == j then a else f j

abbrev pub update₂ {ℓ} : {A : Type ℓ} → (ℕ → ℕ → A) → ℕ → ℕ → A → ℕ → ℕ → A
update₂ f i t a j u = if i == j && t == u then a else f j u

abbrev pub update₃ : (ℕ → ℕ → ℕ → Call) → ℕ → ℕ → ℕ → Call → ℕ → ℕ → ℕ → Call
update₃ f i t p a j u q = if (i == j && t == u) && p == q then a else f j u q

-- A vote that is there stays; where the peer has none in its term, its entry is left alone.
abbrev pub or_else : Option ℕ → Option ℕ → Option ℕ
or_else none b = b
or_else (some c) b = some c

-- Takes down the vote that a peer has in its term.
abbrev pub note : {C : Type 0} → (ℕ → ℕ → Option ℕ) → ℕ → Raft C → ℕ → ℕ → Option ℕ
note ballots p rf q t =
    if p == q && rf.current_term == t then or_else rf.voted_for (ballots q t) else ballots q t

-- A peer goes on to another state.
abbrev pub move : {C : Type 0} → System C → ℕ → Raft C → System C
move s p rf = record s { peer = update s.peer p rf; ballots = note s.ballots p rf }

-- The goroutines of a new election, one for each of the `n` peers but the candidate.
abbrev pub call_all : (ℕ → ℕ → ℕ → Call) → ℕ → ℕ → ℕ → RequestVoteArgs → ℕ → ℕ → ℕ → Call
call_all calls n i t args j u q =
    if i == j && t == u then (if ltb q n && not (q == i) then asked args else gone) else calls j u q

-- A crash ends the goroutines of a peer, and its counts go with them.
abbrev pub drop_calls : (ℕ → ℕ → ℕ → Call) → ℕ → ℕ → ℕ → ℕ → Call
drop_calls calls i j u q = if i == j then gone else calls j u q

abbrev pub drop_votes : (ℕ → ℕ → ℕ) → ℕ → ℕ → ℕ → ℕ
drop_votes votes i j u = if i == j then 0 else votes j u

module _ {C : Type 0} (gob : Codec C) (n : ℕ) where
  pub data Step (s : System C) : System C → Type 0 where
    -- `ticker` of peer `i` starts an election.
    elects :
        (i now timeout : ℕ) {rf : Raft C} {args : RequestVoteArgs}
        → i < n
        → tick gob (s.peer i) now timeout ≡ some (rf, some args)
        → Step s (record (move s i rf) {
          calls = call_all s.calls n i args.term args;
          votes = update₂ s.votes i args.term 1;
        })
    -- The request of a goroutine reaches its peer, which answers.
    handles :
        (i t p now : ℕ) {args : RequestVoteArgs} {rf : Raft C} {reply : RequestVoteReply}
        → p < n
        → s.calls i t p ≡ asked args
        → request_vote gob (s.peer p) args now ≡ some (rf, reply)
        → Step s (record (move s p rf) { calls = update₃ s.calls i t p (answered reply) })
    -- A request or a reply is lost.
    loses :
        (i t p : ℕ)
        → s.calls i t p ≢ counted
        → Step s (record s { calls = update₃ s.calls i t p gone })
    -- A goroutine of peer `i` has its reply, which counts or does not.
    hears :
        (i t p now : ℕ) {reply : RequestVoteReply} {rf : Raft C} {votes : ℕ}
        → i < n
        → s.calls i t p ≡ answered reply
        → handle_vote_reply gob (s.peer i) t (s.votes i t) reply now ≡ (rf, votes)
        → Step s (record (move s i rf) {
          calls = update₃ s.calls i t p (if votes == s.votes i t then gone else counted);
          votes = update₂ s.votes i t votes;
        })
    -- Anything else that can happen at a peer.
    happens :
        (i : ℕ) (event : Event C) {rf : Raft C}
        → i < n
        → IsNoVoteReply event
        → step gob (s.peer i) event ≡ some rf
        → Step s (move s i rf)
    -- A peer crashes and starts again.
    crashes :
        (i now : ℕ)
        → i < n
        → Step s (record (move s i (restart gob (s.peer i) now)) {
          calls = drop_calls s.calls i;
          votes = drop_votes s.votes i;
        })

  abbrev pub boot : ℕ → Raft C
  boot i = make_raft gob n i (record { raftstate = []; snapshot = [] }) 0

  -- All states that a cluster with empty persisters can come to.
  pub data Reach : System C → Type 0 where
    begin :
        Reach
          (record { peer = boot; calls = λ _ _ _. gone; votes = λ _ _. 0; ballots = λ _ _. none })
    next : {s t : System C} → Reach s → Step s t → Reach t
