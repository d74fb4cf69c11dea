-- ===== src/Raft/Cluster/Requests.antt =====
-- Steps of a cluster of raft1/raft.go that start an election or answer a request for a vote.
use mit_6_824_distributed_sy.Prelude.{ℕ, ◌<◌, ◌≡◌, refl, sym, ◌∙◌, ap, some, arith, inl}
use mit_6_824_distributed_sy.Raft.State.{Raft}
use mit_6_824_distributed_sy.Raft.Persist.{Codec, make_raft, persistent, Persistent}
use mit_6_824_distributed_sy.Raft.Election.{RequestVoteArgs, RequestVoteReply, request_vote, tick}
use mit_6_824_distributed_sy.Raft.Peer.{restart}
use mit_6_824_distributed_sy.Raft.Durability.{IsDurable, Saves-IsDurable, restart-persistent}
use mit_6_824_distributed_sy.Raft.Saves.{request_vote-Saves, tick-Saves}
use mit_6_824_distributed_sy.Raft.Votes.{Evolves, Quiet}
use mit_6_824_distributed_sy.Raft.Votes.Ballot.{
  request_vote-grants, request_vote-Quiet, tick-Quiet, tick-election,
}
use mit_6_824_distributed_sy.Raft.Cluster.System.{
  System, asked, answered, call_all, update, update₂, update₃, note, move,
}
use mit_6_824_distributed_sy.Raft.Cluster.Ballots.{Grows, note-OnRecord}
use mit_6_824_distributed_sy.Raft.Cluster.Invariant.{
  PeerInv, Inv, grows, moved-PeerInv, moved-peers,
}
use mit_6_824_distributed_sy.Raft.Cluster.Goroutines.{elects-CallInv, handles-CallInv}
use mit_6_824_distributed_sy.Raft.Cluster.Tally.{Ballots}

module _ {C : Type 0} (gob : Codec C) (n : ℕ) where
  -- A restart of a peer whose persister is up to date changes neither its term nor its vote.
  pub restart-Quiet : (rf : Raft C) (now : ℕ) → IsDurable gob rf → Quiet rf (restart gob rf now)
  unfolding restart make_raft
  restart-Quiet rf now d =
      let same : persistent (restart gob rf now) ≡ persistent rf =
        restart-persistent gob rf now ∙ d in
      let term = ap (λ (p : Persistent C). p.current_term) same in
      let vote = ap (λ (p : Persistent C). p.voted_for) same in
      (
        record {
          same_me = refl;
          same_peers = refl;
          term_grows = omega (arith, term);
          vote_stays = λ c t v. vote ∙ v;
        },
        λ l. cc,
      )

  -- A peer moves on by a step that makes no leader.
  Quiet-PeerInv :
      (ballots : Ballots) (i : ℕ) (rf rf' : Raft C)
      → PeerInv gob n ballots i rf
      → Quiet rf rf'
      → IsDurable gob rf'
      → PeerInv gob n (note ballots i rf') i rf'
  Quiet-PeerInv ballots i rf rf' inv q d =
      moved-PeerInv gob n ballots i rf rf' inv q.0 d (λ l. inl (q.1 l))

  pub Quiet-peers :
      (s : System C) (i : ℕ) (rf : Raft C)
      → Inv gob n s
      → Quiet (s.peer i) rf
      → IsDurable gob rf
      → (j : ℕ) → PeerInv gob n (note s.ballots i rf) j (update s.peer i rf j)
  Quiet-peers s i rf inv q d =
      moved-peers gob n s.ballots i (s.peer i) rf (inv.peers i) q.0 s.peer inv.peers
        (Quiet-PeerInv s.ballots i (s.peer i) rf (inv.peers i) q d)

  -- What is on record after a peer has moved on.
  pub quiet-Grows :
      (s : System C) (i : ℕ) (rf : Raft C)
      → Inv gob n s
      → Evolves (s.peer i) rf
      → Grows s.ballots (note s.ballots i rf)
  quiet-Grows s i rf inv ev = grows gob n s.ballots i (s.peer i) rf (inv.peers i) ev

  own_vote :
      (s : System C) (i : ℕ) (rf : Raft C)
      → Inv gob n s
      → Evolves (s.peer i) rf
      → note s.ballots i rf i rf.current_term ≡ rf.voted_for
  own_vote s i rf inv ev = (note-OnRecord s.ballots i (s.peer i) rf (inv.peers i).on ev).recorded

  pub elects-Inv :
      (s : System C) (i now timeout : ℕ) (rf : Raft C) (args : RequestVoteArgs)
      → i < n
      → tick gob (s.peer i) now timeout ≡ some (rf, some args)
      → Inv gob n s
      → Inv gob n (record (move s i rf) {
        calls = call_all s.calls n i args.term args;
        votes = update₂ s.votes i args.term 1;
      })
  elects-Inv s i now timeout rf args lt e inv =
      let q = tick-Quiet gob (s.peer i) rf now timeout (some args) e in
      let d =
        Saves-IsDurable gob (s.peer i) rf (tick-Saves gob (s.peer i) rf now timeout (some args) e)
          (inv.peers i).durable in
      let (cand, term, up, vote) = tick-election gob (s.peer i) rf now timeout args e in
      let me = (inv.peers i).mine in
      record {
        peers = Quiet-peers s i rf inv q d;
        calls =
            elects-CallInv gob n s.ballots (note s.ballots i rf) s.calls s.votes
              (quiet-Grows s i rf inv q.0) inv.calls i args lt (cand ∙ me)
              (ap (note s.ballots i rf i) term ∙ own_vote s i rf inv q.0 ∙ vote ∙ ap some me);
      }

  pub handles-Inv :
      (s : System C) (i t p now : ℕ) (args : RequestVoteArgs) (rf : Raft C)
      (reply : RequestVoteReply)
      → s.calls i t p ≡ asked args
      → request_vote gob (s.peer p) args now ≡ some (rf, reply)
      → Inv gob n s
      → Inv gob n (record (move s p rf) { calls = update₃ s.calls i t p (answered reply) })
  handles-Inv s i t p now args rf reply was e inv =
      let q = request_vote-Quiet gob (s.peer p) rf args now reply e in
      let d =
        Saves-IsDurable gob (s.peer p) rf (request_vote-Saves gob (s.peer p) rf args now reply e)
          (inv.peers p).durable in
      let (cand, term) = inv.calls.asks i t p args was in
      record {
        peers = Quiet-peers s p rf inv q d;
        calls =
            handles-CallInv gob n s.ballots (note s.ballots p rf) s.calls s.votes
              (quiet-Grows s p rf inv q.0) inv.calls i t p args reply was
              λ granted.
                let (v, u) = request_vote-grants gob (s.peer p) rf args now reply e granted in
                ap (note s.ballots p rf p) (sym (u ∙ term))
                ∙ own_vote s p rf inv q.0
                ∙ v
                ∙ ap some cand;
      }
