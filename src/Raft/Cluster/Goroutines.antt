-- ===== src/Raft/Cluster/Goroutines.antt =====
-- The goroutines of the elections of a cluster of raft1/raft.go, across its steps.
use mit_6_824_distributed_sy.Prelude.{
  ℕ, ◌+◌, ◌≤◌, ◌<◌, ◌≡◌, ◌≢◌, true, ◌&&◌, some, ◌==◌, ltb, not, arith, Bool-cases, inl, inr,
}
use mit_6_824_distributed_sy.Raft.Persist.{Codec}
use mit_6_824_distributed_sy.Raft.Election.{RequestVoteArgs, RequestVoteReply}
use mit_6_824_distributed_sy.Raft.Cluster.System.{
  gone, asked, answered, counted, call_all, update₂, update₃, drop_calls, drop_votes,
}
use mit_6_824_distributed_sy.Raft.Cluster.Ballots.{Grows}
use mit_6_824_distributed_sy.Raft.Cluster.Invariant.{CallInv}
use mit_6_824_distributed_sy.Raft.Cluster.Tally.{
  Ballots, Calls, is_counted, count-backs, count-backs_one, count-backs_self,
}

module _ {C : Type 0} (gob : Codec C) (n : ℕ) where
  -- The goroutines, where the record of votes has grown.
  module _ (ballots ballots' : Ballots) (calls : Calls) (votes : ℕ → ℕ → ℕ)
      (g : Grows ballots ballots') (inv : CallInv gob n ballots calls votes) where
    pub same-CallInv : CallInv gob n ballots' calls votes
    same-CallInv = record {
      asks = inv.asks;
      answers = λ i t p reply e granted. g p t i (inv.answers i t p reply e granted);
      apart = inv.apart;
      backed = λ i t.
          omega
            (arith, inv.backed i t, count-backs n ballots ballots' calls calls g i t (λ p h. h));
    }

    pub elects-CallInv :
        (i : ℕ) (args : RequestVoteArgs)
        → i < n
        → args.candidate_id ≡ i
        → ballots' i args.term ≡ some i
        → CallInv gob n ballots' (call_all calls n i args.term args) (update₂ votes i args.term 1)
    elects-CallInv i args lt cand own = record {
      asks = λ j u q a e. ground (arith, inv.asks j u q a, e, cand);
      answers =
          λ j u q reply e granted. ground (arith, inv.answers j u q reply, g q u j, e, granted);
      apart = λ j u q ne. elim (Bool-cases (i == j && args.term == u)) [
        | inl new ↦ elim (Bool-cases (ltb q n && not (q == i))) [
          | inl other ↦ ground (arith, new, other)
          | inr none_there ↦ absurd (ne (rw (new, none_there)))
        ]
        | inr old ↦ inv.apart j u q (λ e. ne (rw old e))
      ];
      backed = λ j u. elim (Bool-cases (i == j && args.term == u)) [
        | inl new ↦
            let same : (i ≡ j) × (args.term ≡ u) = ground (arith, new) in
            rw (new, ← same.0, ← same.1)
              (count-backs_self n ballots' (call_all calls n i args.term args) i args.term lt own)
        | inr old ↦ rw old (
            omega (
              arith,
              inv.backed j u,
              count-backs n ballots ballots' calls (call_all calls n i args.term args) g j u
                  (λ p h. rw old h),
            ))
      ];
    }

    pub handles-CallInv :
        (i t p : ℕ) (args : RequestVoteArgs) (reply : RequestVoteReply)
        → calls i t p ≡ asked args
        → (reply.vote_granted ≡ true → ballots' p t ≡ some i)
        → CallInv gob n ballots' (update₃ calls i t p (answered reply)) votes
    handles-CallInv i t p args reply was vote = record {
      asks = λ j u q a e. ground (arith, inv.asks j u q a, e);
      answers = λ j u q r e granted. ground (arith, inv.answers j u q r, g q u j, e, granted, vote);
      apart = λ j u q ne. elim (Bool-cases ((i == j && t == u) && p == q)) [
        | inl here ↦
            let same : (i ≡ j) × (t ≡ u) × (p ≡ q) = ground (arith, here) in
            rw (← same.0, ← same.2) (inv.apart i t p (λ e. cc))
        | inr there ↦ inv.apart j u q (λ e. ne (rw there e))
      ];
      backed = λ j u. omega (
        arith,
        inv.backed j u,
        count-backs n ballots ballots' calls (update₃ calls i t p (answered reply)) g j u
            (λ q h. ground (arith, was, h)),
      );
    }

    pub ends-CallInv :
        (i t p : ℕ)
        → calls i t p ≢ counted
        → CallInv gob n ballots' (update₃ calls i t p gone) votes
    ends-CallInv i t p was = record {
      asks = λ j u q a e. ground (arith, inv.asks j u q a, e);
      answers = λ j u q r e granted. ground (arith, inv.answers j u q r, g q u j, e, granted);
      apart = λ j u q ne. elim (Bool-cases ((i == j && t == u) && p == q)) [
        | inl here ↦ absurd (ne (rw here))
        | inr there ↦ inv.apart j u q (λ e. ne (rw there e))
      ];
      backed = λ j u. omega (
        arith,
        inv.backed j u,
        count-backs n ballots ballots' calls (update₃ calls i t p gone) g j u
            (λ q h. ground (arith, was, h)),
      );
    }

    pub counts-CallInv :
        (i t p : ℕ) (reply : RequestVoteReply)
        → calls i t p ≡ answered reply
        → reply.vote_granted ≡ true
        → CallInv gob n ballots' (update₃ calls i t p counted) (update₂ votes i t (votes i t + 1))
    counts-CallInv i t p reply was granted =
        let after : Calls = update₃ calls i t p counted in
        let place : (p < n) × (p ≢ i) = inv.apart i t p (λ e. cc) in
        let stays : (j u q : ℕ)
            → is_counted (calls j u q) ≡ true
            → is_counted (after j u q) ≡ true =
          λ j u q h. ground (arith, h) in
        record {
          asks = λ j u q a e. ground (arith, inv.asks j u q a, e);
          answers = λ j u q r e granted. ground (arith, inv.answers j u q r, g q u j, e, granted);
          apart = λ j u q ne. elim (Bool-cases ((i == j && t == u) && p == q)) [
            | inl here ↦
                let same : (i ≡ j) × (t ≡ u) × (p ≡ q) = ground (arith, here) in
                rw (← same.0, ← same.2) place
            | inr there ↦ inv.apart j u q (λ e. ne (rw there e))
          ];
          backed = λ j u. elim (Bool-cases (i == j && t == u)) [
            | inl here ↦
                let same : (i ≡ j) × (t ≡ u) = ground (arith, here) in
                rw (here, ← same.0, ← same.1)
                  (omega (
                    arith,
                    inv.backed i t,
                    count-backs_one n ballots ballots' calls after g i t p (stays i t) place.0
                        place.1 (inv.answers i t p reply was granted) (ground (arith, was))
                        (ground arith),
                  ))
            | inr there ↦ rw there (
                omega (
                  arith,
                  inv.backed j u,
                  count-backs n ballots ballots' calls after g j u (stays j u),
                ))
          ];
        }

    pub crashes-CallInv : (i : ℕ) → CallInv gob n ballots' (drop_calls calls i) (drop_votes votes i)
    crashes-CallInv i = record {
      asks = λ j u q a e. ground (arith, inv.asks j u q a, e);
      answers = λ j u q r e granted. ground (arith, inv.answers j u q r, g q u j, e, granted);
      apart = λ j u q ne. elim (Bool-cases (i == j)) [
        | inl here ↦ absurd (ne (rw here))
        | inr there ↦ inv.apart j u q (λ e. ne (rw there e))
      ];
      backed = λ j u. elim (Bool-cases (i == j)) [
        | inl here ↦ rw here (omega arith)
        | inr there ↦ rw there (
            omega (
              arith,
              inv.backed j u,
              count-backs n ballots ballots' calls (drop_calls calls i) g j u (λ q h. rw there h),
            ))
      ];
    }

  pub fewer-CallInv :
      (ballots : Ballots) (calls : Calls) (votes votes' : ℕ → ℕ → ℕ)
      → CallInv gob n ballots calls votes
      → ((i t : ℕ) → votes' i t ≤ votes i t)
      → CallInv gob n ballots calls votes'
  fewer-CallInv ballots calls votes votes' inv le = record {
    asks = inv.asks;
    answers = inv.answers;
    apart = inv.apart;
    backed = λ i t. omega (arith, le i t, inv.backed i t);
  }
