-- ===== src/Raft/Cluster/Succession.antt =====
-- One step of a peer in a cluster of raft1/raft.go, against the book and the terms' leaders.
use mit_6_824_distributed_sy.Prelude.{
  ℕ, ◌≤◌, ◌<◌, ◌≡◌, ◌≢◌, refl, sym, ◌∙◌, ap, subst, ◌&&◌, Option, some, ◌⊎◌, inl, inr, List, arith,
  ◌==◌, Bool-cases, ℕ_discrete,
}
use mit_6_824_distributed_sy.Raft.State.{Raft, Role, LogEntry, is_leader}
use mit_6_824_distributed_sy.Raft.Leader.{Outgoing}
use mit_6_824_distributed_sy.Raft.Append.Store.{term_of}
use mit_6_824_distributed_sy.Raft.Books.{Book, Chain, Extends-LogOk}
use mit_6_824_distributed_sy.Raft.Books.Writing.{written, Written}
use mit_6_824_distributed_sy.Raft.Books.Moving.{moved-Written}
use mit_6_824_distributed_sy.Raft.Cluster.Counting.{majorities_meet}
use mit_6_824_distributed_sy.Raft.Cluster.Tally.{Ballots, supports, count-supports}
use mit_6_824_distributed_sy.Raft.Cluster.Packets.{ruled, OnWire}
use mit_6_824_distributed_sy.Raft.Cluster.Sending.{PacketOk, Extends-PacketOk}
use mit_6_824_distributed_sy.Raft.Cluster.Reigns.{Elected, PeerMatch, Reigns, Advance}

module _ {C : Type 0} (n : ℕ) where
  module _ (peer peer' : ℕ → Raft C) (ballots ballots' : Ballots) (book : Book C)
      (owner : ℕ → Option ℕ) (i : ℕ) (adv : Advance n peer peer' ballots ballots' book i)
      (chain : Chain book) (all : (j : ℕ) → PeerMatch n book owner j (peer j))
      (reigns : Reigns n peer ballots book owner) where
    abbrev rf : Raft C
    rf = peer i

    abbrev rf' : Raft C
    rf' = peer' i

    abbrev book' : Book C
    book' = written book rf'

    abbrev owner' : ℕ → Option ℕ
    owner' = ruled owner i rf'

    -- The leader of a term is the one with the votes of more than half of the peers.
    one_reign : (t c d : ℕ) → Elected n ballots c t → Elected n ballots' d t → c ≡ d
    one_reign t c d a b =
        let (p, vc, vd) =
          majorities_meet n (supports ballots' c t) (supports ballots' d t)
            (omega (arith, a, count-supports n ballots ballots' adv.ballots_grow c t)) b in
        ground (arith, vc, vd)

    owner_one : (t c : ℕ) → owner t ≡ some c → rf'.role ≡ Role.leader → rf'.current_term ≡ t → c ≡ i
    owner_one t c own lead term =
        one_reign t c i (reigns.elected t c own)
          (subst (λ u. Elected n ballots' i u) term (adv.elected lead))

    -- A candidate's term has had no leader yet.
    blank :
        rf.role ≡ Role.candidate
        → rf'.current_term ≡ rf.current_term
        → rf'.role ≡ Role.leader
        → (k : ℕ) (e : LogEntry C) → book rf'.current_term k ≢ some e
    blank cand same lead k e h = elim (reigns.owned rf'.current_term k e h) [
      | inl zero ↦ absurd (omega (arith, (all i).stood cand, same, zero))
      | inr (c, own) ↦
          let mine = owner_one rf'.current_term c own lead refl in
          let own' : owner rf'.current_term ≡ some i = own ∙ ap some mine in
          absurd (omega (arith, reigns.over rf'.current_term i own' cand, same))
    ]

    abbrev result : Written book rf'
    result = moved-Written book rf rf' chain (all i).log adv.log λ lead.
        let (from, same) = adv.rule lead in
        elim from [
          | inl led ↦ inl (same, ((all i).leads led).1)
          | inr (cand, log) ↦ inr (log, blank cand same lead)
        ]

    pub next-Chain : Chain book'
    next-Chain = result.chain

    pub owner_stays : (t c : ℕ) → owner t ≡ some c → owner' t ≡ some c
    owner_stays t c own = elim (Bool-cases (is_leader rf'.role && (rf'.current_term == t))) [
      | inl here ↦
          rw here (ap some (sym (owner_one t c own (ground (arith, here)) (ground (arith, here)))))
      | inr there ↦ rw there own
    ]

    -- The page of another leader's term is as it was.
    other_page :
        (j : ℕ)
        → i ≢ j
        → (peer j).role ≡ Role.leader
        → (k : ℕ) → book' (peer j).current_term k ≡ book (peer j).current_term k
    other_page j ne lead k =
        let t = (peer j).current_term in
        elim (Bool-cases (is_leader rf'.role && (rf'.current_term == t))) [
          | inl here ↦ absurd (
              ne (
                sym (
                  owner_one t j ((all j).leads lead).0 (ground (arith, here))
                    (ground (arith, here)))))
          | inr there ↦ ground (arith, there)
        ]

    other-PeerMatch : (j : ℕ) → i ≢ j → PeerMatch n book' owner' j (peer j)
    other-PeerMatch j ne = record {
      log = Extends-LogOk book book' (peer j) result.extends (all j).log;
      stood = (all j).stood;
      leads = λ lead.
          let (own, (same, entries)) = (all j).leads lead in
          let page = other_page j ne lead in
          (
            owner_stays (peer j).current_term j own,
            (
              ap term_of (page (peer j).last_included_index) ∙ same,
              λ k a. entries k a ∙ sym (page k),
            ),
          );
    }

    own-PeerMatch : PeerMatch n book' owner' i rf'
    own-PeerMatch = record {
      log = result.log;
      stood = λ cand. elim (adv.stands cand) [
        | inl (was, same) ↦ omega (arith, (all i).stood was, same)
        | inr up ↦ omega arith
      ];
      leads = λ lead. (ground (arith, lead), result.leads lead);
    }

    pub next-PeerMatch : (j : ℕ) → PeerMatch n book' owner' j (peer' j)
    next-PeerMatch j = elim (ℕ_discrete i j) [
      | yes here ↦ subst (λ k. PeerMatch n book' owner' k (peer' k)) here own-PeerMatch
      | no there ↦
          subst (PeerMatch n book' owner' j) (sym (adv.others j there)) (other-PeerMatch j there)
    ]

    -- A leader on record is one from before or the peer that has moved.
    owner_new :
        (t c : ℕ)
        → owner' t ≡ some c
        → (owner t ≡ some c) ⊎ ((c ≡ i) × (rf'.role ≡ Role.leader) × (rf'.current_term ≡ t))
    owner_new t c own = ground arith

    next_past : (t c : ℕ) → owner t ≡ some c → t ≤ (peer' c).current_term
    next_past t c own = elim (ℕ_discrete i c) [
      | yes here ↦
          subst (λ d. t ≤ (peer' d).current_term) here
            (omega (arith, reigns.past t i (own ∙ ap some (sym here)), adv.term_grows))
      | no there ↦ rw (adv.others c there) (reigns.past t c own)
    ]

    next_over :
        (t c : ℕ) → owner t ≡ some c → (peer' c).role ≡ Role.candidate → t < (peer' c).current_term
    next_over t c own cand = elim (ℕ_discrete i c) [
      | yes here ↦
          let own' : owner t ≡ some i = own ∙ ap some (sym here) in
          let cand' : rf'.role ≡ Role.candidate =
            subst (λ d. (peer' d).role ≡ Role.candidate) (sym here) cand in
          subst (λ d. t < (peer' d).current_term) here
            (elim (adv.stands cand') [
              | inl (was, same) ↦ omega (arith, reigns.over t i own' was, same)
              | inr up ↦ omega (arith, reigns.past t i own')
            ])
      | no there ↦
          let same = adv.others c there in
          subst (λ (r : Raft C). t < r.current_term) (sym same)
            (reigns.over t c own (subst (λ (r : Raft C). r.role ≡ Role.candidate) same cand))
    ]

    pub next-Reigns : Reigns n peer' ballots' book' owner'
    next-Reigns = record {
      owned = λ t k e h. elim (Bool-cases (is_leader rf'.role && (rf'.current_term == t))) [
        | inl here ↦ inr (i, rw here)
        | inr there ↦ elim (reigns.owned t k e (ground (arith, h, there))) [
          | inl zero ↦ inl zero
          | inr (c, own) ↦ inr (c, owner_stays t c own)
        ]
      ];
      elected = λ t c own. elim (owner_new t c own) [
        | inl old ↦
            omega (
              arith,
              reigns.elected t c old,
              count-supports n ballots ballots' adv.ballots_grow c t,
            )
        | inr (mine, lead, term) ↦
            rw mine (subst (λ u. Elected n ballots' i u) term (adv.elected lead))
      ];
      past = λ t c own. elim (owner_new t c own) [
        | inl old ↦ next_past t c old
        | inr (mine, lead, term) ↦ rw mine (omega arith)
      ];
      over = λ t c own cand. elim (owner_new t c own) [
        | inl old ↦ next_over t c old cand
        | inr (mine, lead, term) ↦
            let cand' : rf'.role ≡ Role.candidate = rw mine at cand in absurd (cc (cand', lead))
      ];
    }

    pub next-PacketOk :
        (sent : List (ℕ × Outgoing C))
        → ((p : ℕ) (out : Outgoing C) → OnWire sent p out → PacketOk book owner p out)
        → (p : ℕ) (out : Outgoing C) → OnWire sent p out
        → PacketOk book' owner' p out
    next-PacketOk sent ok p out on =
        Extends-PacketOk book book' owner owner' result.extends owner_stays p out (ok p out on)
