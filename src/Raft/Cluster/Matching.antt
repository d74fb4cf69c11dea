-- ===== src/Raft/Cluster/Matching.antt =====
-- The logs of the peers of a cluster of raft1/raft.go: they match.
use mit_6_824_distributed_sy.Prelude.{
  ℕ, zero, suc, ◌≤◌, ◌<◌, ◌≡◌, ◌≢◌, refl, sym, ◌∙◌, ap, subst, some, none, inl, ◌∷◌, arith,
  some-inj, get_elem?,
}
use mit_6_824_distributed_sy.Raft.State.{LogEntry, entry_at}
use mit_6_824_distributed_sy.Raft.Persist.{Codec, make_raft}
use mit_6_824_distributed_sy.Raft.Leader.{Outgoing, make_append}
use mit_6_824_distributed_sy.Raft.Books.{Chain}
use mit_6_824_distributed_sy.Raft.Books.Writing.{written}
use mit_6_824_distributed_sy.Raft.Books.Compacting.{entry_at-inside}
use mit_6_824_distributed_sy.Raft.Cluster.System.{System, Step, boot, next}
use mit_6_824_distributed_sy.Raft.Cluster.Invariant.{Inv}
use mit_6_824_distributed_sy.Raft.Cluster.Elections.{Reach-Inv}
use mit_6_824_distributed_sy.Raft.Cluster.Packets.{
  Network, first_book, actor, goes, sends, NetReach, starts, then_by, NetReach-Reach, ruled,
}
use mit_6_824_distributed_sy.Raft.Cluster.Advances.{Advances, Step-Advance}
use mit_6_824_distributed_sy.Raft.Cluster.Sending.{PacketOk, make_append-PacketOk}
use mit_6_824_distributed_sy.Raft.Cluster.Succession.{
  next-Chain, next-PeerMatch, next-Reigns, next-PacketOk,
}
use mit_6_824_distributed_sy.Raft.Cluster.Reigns.{MatchInv, PeerMatch}

module _ {C : Type 0} (gob : Codec C) (n : ℕ) where
  boot-PeerMatch : (i : ℕ) → PeerMatch n (first_book {C = C}) (λ _. none) i (boot gob n i)
  unfolding make_raft entry_at
  boot-PeerMatch i = record {
    log = record {
      size = omega arith;
      base_term = refl;
      place = refl;
      chained = λ k e lt here. absurd (omega (arith, (entry_at-inside (boot gob n i) k e here).1));
    };
    stood = λ cand. cc;
    leads = λ lead. cc;
  }

  first-Chain : Chain (first_book {C = C})
  first-Chain t k e h j le =
      let zero_term : t ≡ 0 = ground (arith, h) in
      let own : e.term ≡ 0 = ground (arith, h) in rw (zero_term, own) refl

  next_MatchInv :
      (c : Network C) {s : System C} (st : Step gob n c.system s)
      → Advances gob n c st
      → MatchInv n c
      → MatchInv n (record c {
        system = s;
        book = written c.book (s.peer (actor gob n st));
        owner = ruled c.owner (actor gob n st) (s.peer (actor gob n st));
      })
  next_MatchInv c {s} st adv m =
      let i = actor gob n st in
      record {
        chain =
            next-Chain n c.system.peer s.peer c.system.ballots s.ballots c.book c.owner i adv
              m.chain m.peers m.reigns;
        peers =
            next-PeerMatch n c.system.peer s.peer c.system.ballots s.ballots c.book c.owner i adv
              m.chain m.peers m.reigns;
        reigns =
            next-Reigns n c.system.peer s.peer c.system.ballots s.ballots c.book c.owner i adv
              m.chain m.peers m.reigns;
        packets =
            next-PacketOk n c.system.peer s.peer c.system.ballots s.ballots c.book c.owner i adv
              m.chain m.peers m.reigns c.sent m.packets;
      }

  sent_MatchInv :
      (c : Network C) (i p term : ℕ) (out : Outgoing C)
      → p ≢ i
      → make_append (c.system.peer i) p term ≡ some out
      → MatchInv n c
      → Inv gob n c.system
      → MatchInv n (record c { sent = (p, out) ∷ c.sent })
  sent_MatchInv c i p term out ne e m inv =
      let me = (inv.peers i).mine in
      let new : PacketOk c.book c.owner p out =
        make_append-PacketOk c.book c.owner (c.system.peer i) (m.peers i).log
          (λ lead. (
            ((m.peers i).leads lead).0 ∙ ap some (sym me),
            (((m.peers i).leads lead).1.0, ((m.peers i).leads lead).1.1),
          ))
          p term out (λ q. ne (q ∙ me)) e in
      record {
        chain = m.chain;
        peers = m.peers;
        reigns = m.reigns;
        packets = λ q o (k, on). packet q o k on new;
      }
    where
      packet :
          (q : ℕ) (o : Outgoing C) (k : ℕ)
          → get_elem? ((p, out) ∷ c.sent) k ≡ some (q, o)
          → PacketOk c.book c.owner p out
          → PacketOk c.book c.owner q o
      packet q o zero on new =
          subst (λ (x : ℕ × Outgoing C). PacketOk c.book c.owner x.0 x.1) (some-inj on) new
      packet q o (suc k) on new = m.packets q o (k, on)

  -- The invariant holds wherever the cluster comes to.
  pub NetReach-MatchInv : {c : Network C} → NetReach gob n c → MatchInv n c
  NetReach-MatchInv starts = record {
    chain = first-Chain;
    peers = boot-PeerMatch;
    reigns = record {
      owned = λ t k e h. inl (ground (arith, h));
      elected = λ t c own. cc;
      past = λ t c own. cc;
      over = λ t c own cand. cc;
    };
    packets = λ p out on. cc;
  }
  NetReach-MatchInv (then_by {c} r (goes st ok)) =
      let m = NetReach-MatchInv r in
      let inv' = Reach-Inv gob n (next (NetReach-Reach gob n r) st) in
      let adv = Step-Advance gob n c st (Reach-Inv gob n (NetReach-Reach gob n r)) inv' m ok in
      next_MatchInv c st adv m
  NetReach-MatchInv (then_by {c} r (sends i p term {out} ne e)) =
      let m = NetReach-MatchInv r in
      sent_MatchInv c i p term out ne e m (Reach-Inv gob n (NetReach-Reach gob n r))

  -- Log matching: in every state that a cluster comes to, through any loss, delay and repetition of
  -- calls, elections, crashes, restarts, snapshots and their installation, two peers that have, at
  -- an index behind the snapshots of both, entries of the same term, have the same entries from
  -- there down to the later of their snapshots.
  pub log_matching :
      {c : Network C}
      → NetReach gob n c
      → (i j k : ℕ) (x y : LogEntry C) → entry_at (c.system.peer i) k ≡ some x
      → entry_at (c.system.peer j) k ≡ some y
      → x.term ≡ y.term
      → (m : ℕ) → (c.system.peer i).last_included_index < m
      → (c.system.peer j).last_included_index < m
      → m ≤ k
      → entry_at (c.system.peer i) m ≡ entry_at (c.system.peer j) m
  log_matching {c} r i j k x y hx hy same m bi bj le =
      let inv = NetReach-MatchInv r in
      let fi = (inv.peers i).log.chained k x (omega arith) hx in
      let fj = (inv.peers j).log.chained k y (omega arith) hy in
      fi.1 m bi le ∙ ap (λ t. c.book t m) same ∙ sym (fj.1 m bj le)
