-- ===== src/Harness/Checks.antt =====
-- The checks of raft1/test.go. A server that is connected is a term and whether it says that it is
-- the leader; a failed check is `none`.
use mit_6_824_distributed_sy.Prelude.{
  ℕ, suc, ◌+◌, Bool, true, false, ◌&&◌, not, Option, none, some, List, [], ◌∷◌, ◌++◌, if◌then◌else◌,
  ltb, ◌==◌, Key, lookup, insert, nat_key,
}
use mit_6_824_distributed_sy.Harness.Applier.{RfServer, Test, logs_at}

-- What a connected server answers to `GetState`; none for one that is not connected.
abbrev pub States : Type 0
States = List (Option (ℕ × Bool))

abbrev pub members : Option (List ℕ) → List ℕ
members none = []
members (some xs) = xs

-- The loop of `checkOneLeader` over the servers, from `i` on: who leads in which term.
unfoldable pub leaders_of : States → ℕ → List (ℕ × List ℕ) → List (ℕ × List ℕ)
leaders_of [] i leaders = leaders
leaders_of (none ∷ states) i leaders = leaders_of states (suc i) leaders
leaders_of (some (term, lead) ∷ states) i leaders =
    leaders_of states (suc i)
      (if lead then insert term (members (lookup term leaders) ++ i ∷ []) leaders else leaders)

-- The loop over the terms: the last one with a leader, with its first leader.
unfoldable pub last_leader : List (ℕ × List ℕ) → Option (ℕ × ℕ) → Option (Option (ℕ × ℕ))
last_leader [] last = some last
last_leader ((term, []) ∷ leaders) last = last_leader leaders last
last_leader ((term, i ∷ []) ∷ leaders) none = last_leader leaders (some (term, i))
last_leader ((term, i ∷ []) ∷ leaders) (some (u, j)) =
    last_leader leaders (if ltb u term then some (term, i) else some (u, j))
last_leader ((term, _ ∷ _ ∷ _) ∷ leaders) last = none

-- One round of `checkOneLeader`: the term and the leader that it finds, if there is one.
unfoldable pub check_one_leader : States → Option (Option (ℕ × ℕ))
unfolding leaders_of last_leader
check_one_leader states = last_leader (leaders_of states 0 []) none

-- `checkTerms`
unfoldable pub check_terms : States → Option ℕ → Option (Option ℕ)
check_terms [] term = some term
check_terms (none ∷ states) term = check_terms states term
check_terms (some (x, _) ∷ states) none = check_terms states (some x)
check_terms (some (x, _) ∷ states) (some term) =
    let rest = check_terms states (some term) in if term == x then rest else none

-- `checkNoLeader`
unfoldable pub check_no_leader : States → Bool
check_no_leader [] = true
check_no_leader (none ∷ states) = check_no_leader states
check_no_leader (some (_, lead) ∷ states) =
    let rest = check_no_leader states in if lead then false else rest

module _ {C : Type 0} ⦃eq : Key (Option C)⦄ where
  -- The loop of `nCommitted`: how many servers have a command at the index, and which.
  unfoldable pub count_committed : List (RfServer C) → ℕ → ℕ → Option C → Option (ℕ × Option C)
  count_committed [] index count cmd = some (count, cmd)
  count_committed (rs ∷ servers) index count cmd = elim (logs_at rs index) [
    | none ↦ count_committed servers index count cmd
    | some v ↦ elim (ltb 0 count && not (eq.beq cmd v)) [
      | true ↦ none
      | false ↦ count_committed servers index (count + 1) v
    ]
  ]

  -- `nCommitted`
  unfoldable pub n_committed : Test C → ℕ → Option (ℕ × Option C)
  unfolding count_committed
  n_committed ts index = count_committed ts.servers index 0 none

  -- `checkNoAgreement`
  unfoldable pub check_no_agreement : Test C → ℕ → Bool
  unfolding n_committed
  check_no_agreement ts index = elim (n_committed ts index) [
    | none ↦ false
    | some (count, _) ↦ not (ltb 0 count)
  ]
