-- ===== src/Raft/Cluster/Advances.antt =====
-- Each step of a cluster of raft1/raft.go as an advance of one peer's log.
use mit_6_824_distributed_sy.Prelude.{
  ℕ, ◌≤◌, ◌≡◌, refl, sym, ◌∙◌, ap, subst, some, ◌⊎◌, inl, inr, arith, some-inj,
}
use mit_6_824_distributed_sy.Raft.State.{Raft, Role}
use mit_6_824_distributed_sy.Raft.Persist.{Codec, make_raft, persistent, Persistent}
use mit_6_824_distributed_sy.Raft.Election.{RequestVoteReply, handle_vote_reply}
use mit_6_824_distributed_sy.Raft.Leader.{install, append}
use mit_6_824_distributed_sy.Raft.Peer.{
  Event, vote_request, append_request, install_request, vote_reply, append_reply, install_reply,
  submits, snapshots, ticks, applies, kills, restart,
}
use mit_6_824_distributed_sy.Raft.Durability.{IsDurable, restart-persistent}
use mit_6_824_distributed_sy.Raft.Votes.{Quiet, Evolves}
use mit_6_824_distributed_sy.Raft.Votes.Ballot.{request_vote-Quiet, tick-Quiet, vote_reply-Counts}
use mit_6_824_distributed_sy.Raft.Votes.Handlers.{step-Quiet}
use mit_6_824_distributed_sy.Raft.Books.{Book, SameLog, SameLog-refl}
use mit_6_824_distributed_sy.Raft.Books.Handlers.{LogMove, keeps, Stands}
use mit_6_824_distributed_sy.Raft.Books.Steps.{
  MessageOk, Moves, request_vote-Moves, tick-Moves, vote_reply-Moves, step-LogMove, step-Stands,
}
use mit_6_824_distributed_sy.Raft.Cluster.System.{
  System, Step, elects, handles, loses, hears, happens, crashes, update, note,
}
use mit_6_824_distributed_sy.Raft.Cluster.Ballots.{note-Grows}
use mit_6_824_distributed_sy.Raft.Cluster.Invariant.{Inv}
use mit_6_824_distributed_sy.Raft.Cluster.Requests.{restart-Quiet}
use mit_6_824_distributed_sy.Raft.Cluster.Packets.{Network, Carried, actor, Allowed}
use mit_6_824_distributed_sy.Raft.Cluster.Reigns.{MatchInv, Elected, Advance}

module _ {C : Type 0} (gob : Codec C) (n : ℕ) where
  -- A step of peer `i` to `rf` that moves it on in the cluster's record.
  module _ (s : System C) (inv : Inv gob n s) (book : Book C) (i : ℕ) (rf : Raft C)
      (ev : Evolves (s.peer i) rf) where
    here : update s.peer i rf i ≡ rf
    here = ground arith

    moved-Advance :
        LogMove book (s.peer i) rf
        → Stands (s.peer i) rf
        → (rf.role ≡ Role.leader
            → (((s.peer i).role ≡ Role.leader)
                ⊎ (((s.peer i).role ≡ Role.candidate) × SameLog (s.peer i) rf))
              × (rf.current_term ≡ (s.peer i).current_term))
        → ((update s.peer i rf i).role ≡ Role.leader
            → Elected n (note s.ballots i rf) i (update s.peer i rf i).current_term)
        → Advance n s.peer (update s.peer i rf) s.ballots (note s.ballots i rf) book i
    moved-Advance log stands rule elected = record {
      others = λ j ne. ground (arith, ne);
      ballots_grow = note-Grows s.ballots i (s.peer i) rf (inv.peers i).on ev;
      log = subst (LogMove book (s.peer i)) (sym here) log;
      stands = subst (Stands (s.peer i)) (sym here) stands;
      term_grows =
          subst (λ (r : Raft C). (s.peer i).current_term ≤ r.current_term) (sym here) ev.term_grows;
      rule =
          subst
            (λ (r : Raft C).
              r.role ≡ Role.leader
              → (((s.peer i).role ≡ Role.leader)
                  ⊎ (((s.peer i).role ≡ Role.candidate) × SameLog (s.peer i) r))
                × (r.current_term ≡ (s.peer i).current_term))
            (sym here) rule;
      elected = elected;
    }

  restart-Moves : (rf : Raft C) (now : ℕ) → IsDurable gob rf → Moves rf (restart gob rf now)
  unfolding restart make_raft
  restart-Moves rf now d =
      let same : persistent (restart gob rf now) ≡ persistent rf =
        restart-persistent gob rf now ∙ d in
      (
        record {
          log = ap (λ (p : Persistent C). p.log) same;
          base = ap (λ (p : Persistent C). p.last_included_index) same;
          term = ap (λ (p : Persistent C). p.last_included_term) same;
        },
        λ c. cc,
      )

  -- A call that is delivered tells what the book says.
  Carried-MessageOk :
      (c : Network C) (i : ℕ) (event : Event C)
      → MatchInv n c
      → Carried c.sent i event
      → MessageOk c.book (c.system.peer i) event
  Carried-MessageOk c i (append_request args now) inv on =
      let (own, other, ok) = inv.packets i (append args) on in
      (
        ok,
        λ lead term.
            other (some-inj (sym ((inv.peers i).leads lead).0 ∙ ap c.owner (sym term) ∙ own)),
      )
  Carried-MessageOk c i (install_request args now) inv on =
      let (own, other, ok) = inv.packets i (install args) on in
      (
        ok,
        λ lead term.
            other (some-inj (sym ((inv.peers i).leads lead).0 ∙ ap c.owner (sym term) ∙ own)),
      )
  Carried-MessageOk c i (vote_request _ _) inv on = tt
  Carried-MessageOk c i (vote_reply _ _ _ _) inv on = tt
  Carried-MessageOk c i (append_reply _ _ _ _) inv on = tt
  Carried-MessageOk c i (install_reply _ _ _ _) inv on = tt
  Carried-MessageOk c i (submits _) inv on = tt
  Carried-MessageOk c i (snapshots _ _) inv on = tt
  Carried-MessageOk c i (ticks _ _) inv on = tt
  Carried-MessageOk c i applies inv on = tt
  Carried-MessageOk c i kills inv on = tt

  -- A step that makes no leader.
  Quiet-Advance :
      (s : System C) (inv : Inv gob n s) (book : Book C) (i : ℕ) (rf : Raft C)
      → Quiet (s.peer i) rf
      → LogMove book (s.peer i) rf
      → Stands (s.peer i) rf
      → ((update s.peer i rf i).role ≡ Role.leader
          → Elected n (note s.ballots i rf) i (update s.peer i rf i).current_term)
      → Advance n s.peer (update s.peer i rf) s.ballots (note s.ballots i rf) book i
  Quiet-Advance s inv book i rf q log stands elected =
      moved-Advance s inv book i rf q.0 log stands (λ l. (inl (q.1 l).0, (q.1 l).1)) elected

  abbrev pub Advances : (c : Network C) → {s : System C} → Step gob n c.system s → Type 0
  Advances c {s} st =
      Advance n c.system.peer s.peer c.system.ballots s.ballots c.book (actor gob n st)

  hears-Advance :
      (s : System C) (inv : Inv gob n s) (book : Book C) (i t now : ℕ) (votes : ℕ) (rf : Raft C)
      (v : ℕ) (reply : RequestVoteReply)
      → handle_vote_reply gob (s.peer i) t votes reply now ≡ (rf, v)
      → ((update s.peer i rf i).role ≡ Role.leader
          → Elected n (note s.ballots i rf) i (update s.peer i rf i).current_term)
      → Advance n s.peer (update s.peer i rf) s.ballots (note s.ballots i rf) book i
  hears-Advance s inv book i t now votes rf v reply e elected =
      let ((log, stands), lead) = vote_reply-Moves gob (s.peer i) t votes reply now in
      let same : (handle_vote_reply gob (s.peer i) t votes reply now).0 ≡ rf =
        ap (λ (r : Raft C × ℕ). r.0) e in
      let log' : SameLog (s.peer i) rf = subst (SameLog (s.peer i)) same log in
      let ev : Evolves (s.peer i) rf =
        subst (Evolves (s.peer i)) same
          (vote_reply-Counts gob (s.peer i) t votes reply now).evolves in
      moved-Advance s inv book i rf ev (keeps log') (subst (Stands (s.peer i)) same stands)
        (λ l.
          let (from, term) = lead (ap (λ (r : Raft C). r.role) same ∙ l) in
          (
            elim from [ inl led ↦ inl led | inr cand ↦ inr (cand, log') ],
            subst (λ (r : Raft C). r.current_term ≡ (s.peer i).current_term) same term,
          ))
        elected

  pub Step-Advance :
      (c : Network C) {s : System C} (st : Step gob n c.system s)
      → Inv gob n c.system
      → Inv gob n s
      → MatchInv n c
      → Allowed gob n c.sent st
      → Advances c st
  Step-Advance c (elects i now timeout {rf} {args} lt e) inv inv' m ok =
      let q = tick-Quiet gob (c.system.peer i) rf now timeout (some args) e in
      let (log, stands) = tick-Moves gob (c.system.peer i) rf now timeout (some args) e in
      Quiet-Advance c.system inv c.book i rf q (keeps log) stands (inv'.peers i).leads
  Step-Advance c (handles i t p now {args} {rf} {reply} lt was e) inv inv' m ok =
      let q = request_vote-Quiet gob (c.system.peer p) rf args now reply e in
      let (log, stands) = request_vote-Moves gob (c.system.peer p) rf args now reply e in
      Quiet-Advance c.system inv c.book p rf q (keeps log) stands (inv'.peers p).leads
  Step-Advance c (loses i t p was) inv inv' m ok = record {
    others = λ j ne. refl;
    ballots_grow = λ q t c h. h;
    log = keeps (SameLog-refl (c.system.peer i));
    stands = λ cand. inl (cand, refl);
    term_grows = omega arith;
    rule = λ lead. (inl lead, refl);
    elected = (inv'.peers i).leads;
  }
  Step-Advance c (hears i t p now {reply} {rf} {votes} lt was e) inv inv' m ok =
      hears-Advance c.system inv c.book i t now (c.system.votes i t) rf votes reply e
        (inv'.peers i).leads
  Step-Advance c (happens i event {rf} lt other e) inv inv' m ok =
      Quiet-Advance c.system inv c.book i rf (step-Quiet gob (c.system.peer i) rf event other e)
        (step-LogMove gob c.book (c.system.peer i) rf event m.chain (m.peers i).log
          (Carried-MessageOk c i event m ok) other e)
        (step-Stands gob (c.system.peer i) rf event other e) (inv'.peers i).leads
  Step-Advance c (crashes i now lt) inv inv' m ok =
      let d = (inv.peers i).durable in
      let (log, stands) = restart-Moves (c.system.peer i) now d in
      Quiet-Advance c.system inv c.book i (restart gob (c.system.peer i) now)
        (restart-Quiet gob n (c.system.peer i) now d) (keeps log) stands (inv'.peers i).leads
