-- ===== src/Harness/Examples.antt =====
-- Two servers under the test service of raft1/server.go.
mod Groups
mod Clients
use mit_6_824_distributed_sy.Prelude.{
  ℕ, ◌≡◌, ◌↔◌, refl, Bool, true, false, Option, none, some, List, [], ◌∷◌, arith, ◌==◌, ==_iff, Key,
  lookup, insert,
}
use mit_6_824_distributed_sy.Raft.State.{ApplyMsg, command_msg}
use mit_6_824_distributed_sy.Harness.Applier.{
  Test, make_test, run_applier, applier, checked, check_logs, any_conflict,
}
use mit_6_824_distributed_sy.Harness.Checks.{n_committed, check_one_leader, leaders_of, last_leader}
use mit_6_824_distributed_sy.Harness.Agreement.{Agree, InOrder, accepted-Agree}

abbrev same_command : Option ℕ → Option ℕ → Bool
same_command none none = true
same_command (some a) (some b) = a == b
same_command _ _ = false

same_command_iff : (a b : Option ℕ) → (same_command a b ≡ true) ↔ (a ≡ b)
same_command_iff none none = (λ _. refl, λ _. refl)
same_command_iff none (some b) = (λ e. cc, λ e. cc)
same_command_iff (some a) none = (λ e. cc, λ e. cc)
same_command_iff (some a) (some b) = ground (arith, ==_iff a b)

instance command_key : Key (Option ℕ)
command_key = record { beq = same_command; beq_iff = same_command_iff }

abbrev messages : List (ℕ × ApplyMsg ℕ)
messages =
    (0, command_msg (some 7) 1) ∷ (1, command_msg (some 7) 1) ∷ (1, command_msg (some 8) 2) ∷ []

abbrev accepted : (ts : Test ℕ) × (run_applier (make_test 2) messages ≡ some ts)
unfolding run_applier applier checked check_logs any_conflict lookup insert command_key
accepted = (_, refl)

accepted-Agree_example :
    Agree accepted.0.servers
    × InOrder accepted.0.servers
    × ((r : ℕ × Option ℕ) × (n_committed accepted.0 1 ≡ some r))
accepted-Agree_example = accepted-Agree 2 messages accepted.0 1 accepted.1

-- Another command at an index that a server has applied ends the test.
disagreement :
    run_applier {C = ℕ}
      (make_test 2)
      ((0, command_msg (some 7) 1) ∷ (1, command_msg (some 9) 1) ∷ [])
    ≡ none
unfolding run_applier applier checked check_logs any_conflict lookup insert command_key
disagreement = refl

two_leaders : check_one_leader (some (4, true) ∷ none ∷ some (4, true) ∷ []) ≡ none
unfolding check_one_leader leaders_of last_leader lookup insert
two_leaders = refl

later_leader :
    check_one_leader (some (3, true) ∷ some (4, true) ∷ some (4, false) ∷ []) ≡ some (some (4, 1))
unfolding check_one_leader leaders_of last_leader lookup insert
later_leader = refl
