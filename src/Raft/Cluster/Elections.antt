-- ===== src/Raft/Cluster/Elections.antt =====
-- A term of a cluster of raft1/raft.go has one leader at most.
use mit_6_824_distributed_sy.Raft.Cluster.Requests.{
  handles-Inv, Quiet-peers, elects-Inv, restart-Quiet, quiet-Grows,
}
use mit_6_824_distributed_sy.Prelude.{
  ℕ, ◌+◌, ◌/◌, ◌≤◌, ◌<◌, ◌≡◌, refl, sym, subst, true, false, none, if◌then◌else◌, ◌==◌, arith, ◌⊎◌,
  inl, inr,
}
use mit_6_824_distributed_sy.Raft.State.{Raft, Role}
use mit_6_824_distributed_sy.Raft.Persist.{Codec, make_raft}
use mit_6_824_distributed_sy.Raft.Election.{RequestVoteReply, handle_vote_reply}
use mit_6_824_distributed_sy.Raft.Peer.{restart}
use mit_6_824_distributed_sy.Raft.Durability.{
  IsDurable, Saves-IsDurable, step-Saves, restart-IsDurable,
}
use mit_6_824_distributed_sy.Raft.Saves.{vote_reply-Saves}
use mit_6_824_distributed_sy.Raft.Votes.Ballot.{Counts, vote_reply-Counts}
use mit_6_824_distributed_sy.Raft.Votes.Handlers.{step-Quiet}
use mit_6_824_distributed_sy.Raft.Cluster.Counting.{count, majorities_meet}
use mit_6_824_distributed_sy.Raft.Cluster.System.{
  System, gone, answered, counted, update₂, update₃, note, move, Step, elects, handles, loses,
  hears, happens, crashes, Reach, begin, next, boot,
}
use mit_6_824_distributed_sy.Raft.Cluster.Ballots.{Grows}
use mit_6_824_distributed_sy.Raft.Cluster.Invariant.{
  PeerInv, CallInv, Inv, moved-PeerInv, moved-peers,
}
use mit_6_824_distributed_sy.Raft.Cluster.Goroutines.{
  same-CallInv, ends-CallInv, counts-CallInv, crashes-CallInv, fewer-CallInv,
}
use mit_6_824_distributed_sy.Raft.Cluster.Tally.{Ballots, Calls, supports, backs, backs-le-supports}

module _ {C : Type 0} (gob : Codec C) (n : ℕ) where
  counted_reply :
      (s : System C) (i t now : ℕ) (reply : RequestVoteReply) (rf : Raft C) (votes : ℕ)
      → handle_vote_reply gob (s.peer i) t (s.votes i t) reply now ≡ (rf, votes)
      → Counts gob (s.peer i) rf t (s.votes i t) votes reply
  counted_reply s i t now reply rf votes e =
      subst (λ (r : Raft C × ℕ). Counts gob (s.peer i) r.0 t (s.votes i t) r.1 reply) e
        (vote_reply-Counts gob (s.peer i) t (s.votes i t) reply now)

  -- The goroutine whose reply has been dealt with, and the count.
  hears-CallInv :
      (ballots ballots' : Ballots) (calls : Calls) (counts : ℕ → ℕ → ℕ)
      → Grows ballots ballots'
      → CallInv gob n ballots calls counts
      → (i t p : ℕ) (reply : RequestVoteReply) (votes : ℕ) → calls i t p ≡ answered reply
      → (votes ≡ counts i t) ⊎ ((votes ≡ counts i t + 1) × (reply.vote_granted ≡ true))
      → CallInv gob n ballots'
          (update₃ calls i t p (if votes == counts i t then gone else counted))
          (update₂ counts i t votes)
  hears-CallInv ballots ballots' calls counts g inv i t p reply votes was (inl same) =
      let test : (votes == counts i t) ≡ true = ground (arith, same) in
      rw test (
        fewer-CallInv gob n ballots' (update₃ calls i t p gone) counts (update₂ counts i t votes)
          (ends-CallInv gob n ballots ballots' calls counts g inv i t p (λ e. cc))
          (λ j u. ground (arith, same)))
  hears-CallInv ballots ballots' calls counts g inv i t p reply votes was (inr (one, granted)) =
      let test : (votes == counts i t) ≡ false = ground (arith, one) in
      rw test (
        fewer-CallInv gob n ballots' (update₃ calls i t p counted)
          (update₂ counts i t (counts i t + 1)) (update₂ counts i t votes)
          (counts-CallInv gob n ballots ballots' calls counts g inv i t p reply was granted)
          (λ j u. ground (arith, one)))

  hears-Inv :
      (s : System C) (i t p now : ℕ) (reply : RequestVoteReply) (rf : Raft C) (votes : ℕ)
      → s.calls i t p ≡ answered reply
      → handle_vote_reply gob (s.peer i) t (s.votes i t) reply now ≡ (rf, votes)
      → Inv gob n s
      → Inv gob n (record (move s i rf) {
        calls = update₃ s.calls i t p (if votes == s.votes i t then gone else counted);
        votes = update₂ s.votes i t votes;
      })
  hears-Inv s i t p now reply rf votes was e inv =
      let c = counted_reply s i t now reply rf votes e in
      let ballots' : Ballots = note s.ballots i rf in
      let d : IsDurable gob rf =
        subst (λ (r : Raft C × ℕ). IsDurable gob r.0) e
          (Saves-IsDurable gob (s.peer i)
            (handle_vote_reply gob (s.peer i) t (s.votes i t) reply now).0
            (vote_reply-Saves gob (s.peer i) t (s.votes i t) reply now) (inv.peers i).durable) in
      let calls' : Calls = update₃ s.calls i t p (if votes == s.votes i t then gone else counted) in
      let done : CallInv gob n ballots' calls' (update₂ s.votes i t votes) =
        hears-CallInv s.ballots ballots' s.calls s.votes (quiet-Grows gob n s i rf inv c.evolves)
          inv.calls i t p reply votes was c.count in
      let tally : votes ≤ count n (backs ballots' calls' i t) = ground (arith, done.backed i t) in
      let mine : PeerInv gob n ballots' i rf =
        moved-PeerInv gob n s.ballots i (s.peer i) rf (inv.peers i) c.evolves d λ l.
          elim (c.leads l) [
            | inl old ↦ inl old
            | inr (term, one, majority) ↦ inr (
                subst (λ u. n / 2 < count n (supports ballots' i u)) (sym term)
                  (omega (
                    arith,
                    tally,
                    backs-le-supports n ballots' calls' i t,
                    majority,
                    (inv.peers i).sized,
                  )))
          ] in
      record {
        peers =
            moved-peers gob n s.ballots i (s.peer i) rf (inv.peers i) c.evolves s.peer inv.peers
              mine;
        calls = done;
      }

  Step-Inv : {s s' : System C} → Step gob n s s' → Inv gob n s → Inv gob n s'
  Step-Inv {s} (elects i now timeout {rf} {args} lt e) inv =
      elects-Inv gob n s i now timeout rf args lt e inv
  Step-Inv {s} (handles i t p now {args} {rf} {reply} lt was e) inv =
      handles-Inv gob n s i t p now args rf reply was e inv
  Step-Inv {s} (loses i t p was) inv = record {
    peers = inv.peers;
    calls =
        ends-CallInv gob n s.ballots s.ballots s.calls s.votes (λ q t c h. h) inv.calls i t p was;
  }
  Step-Inv {s} (hears i t p now {reply} {rf} {votes} lt was e) inv =
      hears-Inv s i t p now reply rf votes was e inv
  Step-Inv {s} (happens i event {rf} lt other e) inv =
      let q = step-Quiet gob (s.peer i) rf event other e in
      record {
        peers = Quiet-peers gob n s i rf inv q (
            Saves-IsDurable gob (s.peer i) rf (step-Saves gob (s.peer i) rf event e)
              (inv.peers i).durable);
        calls =
            same-CallInv gob n s.ballots (note s.ballots i rf) s.calls s.votes
              (quiet-Grows gob n s i rf inv q.0) inv.calls;
      }
  Step-Inv {s} (crashes i now lt) inv =
      let rf = restart gob (s.peer i) now in
      let q = restart-Quiet gob n (s.peer i) now (inv.peers i).durable in
      record {
        peers = Quiet-peers gob n s i rf inv q (restart-IsDurable gob (s.peer i) now);
        calls =
            crashes-CallInv gob n s.ballots (note s.ballots i rf) s.calls s.votes
              (quiet-Grows gob n s i rf inv q.0) inv.calls i;
      }

  begin-PeerInv : (i : ℕ) → PeerInv gob n (λ _ _. none) i (boot gob n i)
  unfolding make_raft
  begin-PeerInv i = record {
    mine = refl;
    sized = refl;
    durable = refl;
    on = record { recorded = refl; unborn = λ t h. refl };
    leads = λ l. cc;
  }

  pub Reach-Inv : {s : System C} → Reach gob n s → Inv gob n s
  Reach-Inv begin = record {
    peers = begin-PeerInv;
    calls = record {
      asks = λ i t p args e. cc;
      answers = λ i t p reply e granted. cc;
      apart = λ i t p ne. absurd (ne refl);
      backed = λ i t. omega arith;
    };
  }
  Reach-Inv (next r st) = Step-Inv st (Reach-Inv r)

  -- Election safety: in every state that a cluster comes to, through any loss and delay of
  -- messages, any events at the peers, crashes and restarts, two peers that are leaders in the same
  -- term are one peer.
  pub one_leader_per_term :
      {s : System C}
      → Reach gob n s
      → (i j : ℕ) → (s.peer i).role ≡ Role.leader
      → (s.peer j).role ≡ Role.leader
      → (s.peer i).current_term ≡ (s.peer j).current_term
      → i ≡ j
  one_leader_per_term {s} r i j li lj e =
      let inv = Reach-Inv r in
      let ti = (s.peer i).current_term in
      let mj : n / 2 < count n (supports s.ballots j ti) =
        subst (λ t. n / 2 < count n (supports s.ballots j t)) (sym e) ((inv.peers j).leads lj) in
      let (p, vi, vj) =
        majorities_meet n (supports s.ballots i ti) (supports s.ballots j ti)
          ((inv.peers i).leads li) mj in
      ground (arith, vi, vj)
