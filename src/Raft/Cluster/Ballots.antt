-- ===== src/Raft/Cluster/Ballots.antt =====
-- The votes of a cluster of raft1/raft.go, and the record of them that the cluster keeps.
use mit_6_824_distributed_sy.Prelude.{
  ℕ, ◌<◌, ◌≡◌, ◌≢◌, sym, ◌∙◌, Option, none, some, ◌==◌, ◌⊎◌, inl, inr, arith, Bool-cases, ==_iff,
  Option-cases,
}
use mit_6_824_distributed_sy.Raft.State.{Raft}
use mit_6_824_distributed_sy.Raft.Votes.{Evolves}
use mit_6_824_distributed_sy.Raft.Cluster.System.{note}

-- What is on record stays.
abbrev pub Grows : (ℕ → ℕ → Option ℕ) → (ℕ → ℕ → Option ℕ) → Type 0
Grows ballots ballots' = (q t c : ℕ) → ballots q t ≡ some c → ballots' q t ≡ some c

module _ {C : Type 0} where
  -- The record of one peer's votes: its vote in its term, and none in a later term.
  pub record OnRecord (ballots : ℕ → ℕ → Option ℕ) (p : ℕ) (rf : Raft C) : Type 0 where
    pub recorded : ballots p rf.current_term ≡ rf.voted_for
    pub unborn : (t : ℕ) → rf.current_term < t → ballots p t ≡ none

  module _ (ballots : ℕ → ℕ → Option ℕ) (p : ℕ) (rf rf' : Raft C) (on : OnRecord ballots p rf)
      (ev : Evolves rf rf') where
    -- What the record says of the new term, before the step is taken down.
    new_term : (ballots p rf'.current_term ≡ none) ⊎ (ballots p rf'.current_term ≡ rf'.voted_for)
    new_term = elim (Bool-cases (rf.current_term == rf'.current_term)) [
      | inl same ↦
          let e = (==_iff rf.current_term rf'.current_term).0 same in
          elim (Option-cases rf.voted_for) [
            | inl none_yet ↦ inl (rw (← e) (on.recorded ∙ none_yet))
            | inr (c, v) ↦ inr (rw (← e) (on.recorded ∙ v) ∙ sym (ev.vote_stays c (sym e) v))
          ]
      | inr moved ↦ inl (on.unborn rf'.current_term (ground (arith, ev.term_grows, moved)))
    ]

    pub note-OnRecord : OnRecord (note ballots p rf') p rf'
    note-OnRecord = record {
      recorded = ground (arith, new_term);
      unborn = λ t h. ground (arith, on.unborn t (omega (arith, ev.term_grows)));
    }

    pub note-Grows : Grows ballots (note ballots p rf')
    note-Grows q t c h = ground (arith, new_term, h)

    pub note-others :
        (q : ℕ) (other : Raft C)
        → p ≢ q
        → OnRecord ballots q other
        → OnRecord (note ballots p rf') q other
    note-others q other ne o = record {
      recorded = ground (arith, o.recorded);
      unborn = λ t h. ground (arith, o.unborn t h);
    }
