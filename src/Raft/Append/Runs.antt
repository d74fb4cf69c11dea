-- ===== src/Raft/Append/Runs.antt =====
-- `AppendEntries` of raft1/raft.go: the run of entries of one term that a refusal names.
use mit_6_824_distributed_sy.Prelude.{
  ℕ, zero, suc, ◌-◌, ◌≤◌, ◌<◌, ◌≡◌, ◌≢◌, refl, ◌∙◌, ap, subst, some, ◌⊎◌, inl, inr, arith, ltb,
  Bool-cases, length, get_elem?_lt, ltb→ge, ltb→lt, ge→ltb, ◌==◌, ==_iff, ℕ_discrete,
}
use mit_6_824_distributed_sy.Raft.State.{Raft, LogEntry, entry_at, last_log_index}
use mit_6_824_distributed_sy.Raft.Append.{first_of_term}
use mit_6_824_distributed_sy.Raft.Append.Store.{term_of}
use mit_6_824_distributed_sy.Raft.Append.Entries.{term_in}

module _ {C : Type 0} where
  -- An index of the log, the sentinel's included, has an entry.
  pub entry_at_in :
      (rf : Raft C) (j : ℕ)
      → 0 < length rf.log
      → rf.last_included_index ≤ j
      → j ≤ last_log_index rf
      → (e : LogEntry C) × (entry_at rf j ≡ some e)
  unfolding entry_at
  entry_at_in rf j s low high =
      let (e, q) = get_elem?_lt rf.log (j - rf.last_included_index) (omega arith) in
      (e, rw (ge→ltb j rf.last_included_index low) q)

  -- `first` is the first index of the run of entries of a term that ends at `last`, as far as the
  -- log reaches back.
  pub record RunOfTerm (rf : Raft C) (term first last : ℕ) : Type 0 where
    pub low : rf.last_included_index ≤ first
    pub high : first ≤ last
    pub all_of_term : (j : ℕ) → first ≤ j → j ≤ last → term_in rf j ≡ some term
    pub is_first : (rf.last_included_index ≡ first) ⊎ (term_in rf (first - 1) ≢ some term)

  pub first_of_term-RunOfTerm :
      (rf : Raft C) (term i : ℕ)
      → 0 < length rf.log
      → rf.last_included_index ≤ i
      → i ≤ last_log_index rf
      → term_in rf i ≡ some term
      → (first : ℕ) × (first_of_term rf term i ≡ some first) × RunOfTerm rf term first i
  unfolding first_of_term
  first_of_term-RunOfTerm rf term zero s low high t = (
    zero,
    refl,
    record {
      low = low;
      high = omega arith;
      all_of_term = λ j a b. subst (λ k. term_in rf k ≡ some term) (omega arith) t;
      is_first = inl (omega arith);
    },
  )
  first_of_term-RunOfTerm rf term (suc i) s low high t =
      elim (Bool-cases (ltb rf.last_included_index (suc i))) [
        | inl inside ↦
            let below = ltb→lt rf.last_included_index (suc i) inside in
            let (e, here) = entry_at_in rf i s (omega arith) (omega arith) in
            elim (Bool-cases (e.term == term)) [
              | inl same ↦
                  let t' : term_in rf i ≡ some term =
                    ap term_of here ∙ ap some ((==_iff e.term term).0 same) in
                  let (first, q, run) =
                    first_of_term-RunOfTerm rf term i s (omega arith) (omega arith) t' in
                  (
                    first,
                    rw (inside, here, same, first_of_term) q,
                    record {
                      low = run.low;
                      high = omega (arith, run.high);
                      all_of_term = λ j a b. elim (ℕ_discrete j (suc i)) [
                        | yes last ↦ rw last t
                        | no before ↦ run.all_of_term j a (omega arith)
                      ];
                      is_first = run.is_first;
                    },
                  )
              | inr other ↦ (
                suc i,
                rw (inside, here, other, first_of_term) refl,
                record {
                  low = low;
                  high = omega arith;
                  all_of_term = λ j a b. subst (λ k. term_in rf k ≡ some term) (omega arith) t;
                  is_first = inr (λ q. ground (arith, q, ap term_of here, other, sub-suc i));
                },
              )
            ]
        | inr outside ↦ (
          suc i,
          rw (outside, first_of_term) refl,
          record {
            low = low;
            high = omega arith;
            all_of_term = λ j a b. subst (λ k. term_in rf k ≡ some term) (omega arith) t;
            is_first = inl (omega (arith, ltb→ge rf.last_included_index (suc i) outside));
          },
        )
      ]
    where
      sub-suc : (n : ℕ) → suc n - 1 ≡ n
      sub-suc n = omega arith
