-- ===== src/Raft/Commit.antt =====
-- `updateCommitIndex` of raft1/raft.go: what a leader commits.
use mit_6_824_distributed_sy.Prelude.{
  ℕ, zero, suc, ◌+◌, ◌/◌, ◌≤◌, ◌<◌, ◌≡◌, refl, ◌∙◌, ap, Option, some, ◌⊎◌, inl, inr, arith, ltb,
  Bool-cases, ltb→lt, ltb→ge, ◌==◌, ==_iff, length, ℕ_discrete,
}
use mit_6_824_distributed_sy.Raft.State.{Raft, last_log_index}
use mit_6_824_distributed_sy.Raft.Leader.{find_commit, count_matching, update_commit_index}
use mit_6_824_distributed_sy.Raft.Append.Store.{term_of}
use mit_6_824_distributed_sy.Raft.Append.Entries.{term_in}
use mit_6_824_distributed_sy.Raft.Append.Runs.{entry_at_in}

module _ {C : Type 0} where
  -- More than half of the peers, the leader among them, are known to hold the log up to `n`.
  abbrev pub HasMajority : Raft C → ℕ → Type 0
  HasMajority rf n = rf.peers / 2 < 1 + count_matching rf.me n 0 rf.match_index

  -- Every entry from `n` to `last` is of the leader's own term.
  abbrev pub OwnTerm : Raft C → ℕ → ℕ → Type 0
  OwnTerm rf n last = (k : ℕ) → n ≤ k → k ≤ last → term_in rf k ≡ some rf.current_term

  -- What the new commit index `new` is, looking down from `last`.
  pub record Commits (rf : Raft C) (last new : ℕ) : Type 0 where
    pub grows : rf.commit_index ≤ new
    pub justified :
        (new ≡ rf.commit_index)
        ⊎ ((rf.commit_index < new)
            × (new ≤ last)
            × (term_in rf new ≡ some rf.current_term)
            × HasMajority rf new)
    pub largest : (m : ℕ) → new < m → m ≤ last → OwnTerm rf m last → ¬ (HasMajority rf m)

  module _ (rf : Raft C) (s : 0 < length rf.log)
      (base : rf.last_included_index ≤ rf.commit_index) where
    find_commit-Commits :
        (i : ℕ)
        → i ≤ last_log_index rf
        → (new : ℕ) × (find_commit rf i ≡ some new) × Commits rf i new
    unfolding find_commit
    find_commit-Commits zero h = (
      rf.commit_index,
      refl,
      record { grows = omega arith; justified = inl refl; largest = λ m a b own maj. omega arith },
    )
    find_commit-Commits (suc i) h = elim (Bool-cases (ltb rf.commit_index (suc i))) [
      | inr done ↦ (
        rf.commit_index,
        rw (done, find_commit),
        record {
          grows = omega arith;
          justified = inl refl;
          largest = λ m a b own maj. omega (arith, ltb→ge rf.commit_index (suc i) done);
        },
      )
      | inl more ↦
          let above = ltb→lt rf.commit_index (suc i) more in
          let (e, here) = entry_at_in rf (suc i) s (omega arith) h in
          elim (Bool-cases (e.term == rf.current_term)) [
            | inr old ↦ (
              rf.commit_index,
              rw (more, here, old, find_commit),
              record {
                grows = omega arith;
                justified = inl refl;
                largest = λ m a b own maj.
                    ground
                      (arith, own (suc i) b (omega arith), ap {B = Option ℕ} term_of here, old);
              },
            )
            | inl own_term ↦
                elim (Bool-cases
                  (ltb (rf.peers / 2) (1 + count_matching rf.me (suc i) 0 rf.match_index))) [
                    | inl majority ↦ (
                      suc i,
                      rw (more, here, own_term, majority, find_commit),
                      record {
                        grows = omega arith;
                        justified = inr (
                          above,
                          omega arith,
                          ap term_of here ∙ ap some ((==_iff e.term rf.current_term).0 own_term),
                          ltb→lt (rf.peers / 2) (1 + count_matching rf.me (suc i) 0 rf.match_index)
                              majority,
                        );
                        largest = λ m a b own maj. omega arith;
                      },
                    )
                    | inr few ↦
                        let (new, q, c) = find_commit-Commits i (omega arith) in
                        (
                          new,
                          rw (more, here, own_term, few, find_commit) q,
                          record {
                            grows = c.grows;
                            justified = elim c.justified [
                              | inl same ↦ inl same
                              | inr (p, q, t, maj) ↦ inr (p, omega arith, t, maj)
                            ];
                            largest = λ m a b own maj. elim (ℕ_discrete m (suc i)) [
                              | yes top ↦ absurd (ground (arith, few, top, maj))
                              | no lower ↦
                                  c.largest m a (omega arith) (λ k x y. own k x (omega arith)) maj
                            ];
                          },
                        )
                  ]
          ]
    ]

  pub update_commit_index-Commits :
      (rf : Raft C)
      → 0 < length rf.log
      → rf.last_included_index ≤ rf.commit_index
      → (new : ℕ) × (update_commit_index rf ≡ some (record rf { commit_index = new }))
        × Commits rf (last_log_index rf) new
  unfolding update_commit_index
  update_commit_index-Commits rf s base =
      let (new, q, c) = find_commit-Commits rf s base (last_log_index rf) (omega arith) in
      (new, rw q, c)
