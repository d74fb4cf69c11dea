-- ===== src/Rsm/Examples.antt =====
-- The theorems about kvraft1/rsm/rsm.go at a service that adds numbers up.
use mit_6_824_distributed_sy.Prelude.{ℕ, ◌+◌, ◌≡◌, refl, none, some, [], ◌∷◌, true, lookup, insert}
use mit_6_824_distributed_sy.Rpc.{Err}
use mit_6_824_distributed_sy.Raft.State.{command_msg}
use mit_6_824_distributed_sy.Rsm.Layer.{
  StateMachine, Op, Notification, applies, registers, run, step, make_rsm, register, poll, hear,
  apply_msg, execute, notify, submitted,
}
use mit_6_824_distributed_sy.Rsm.Answers.{Executed, poll-Executed}
use mit_6_824_distributed_sy.Rsm.Waiting.{poll-submitted, poll-missed}

-- A request adds a number; the response is the sum before.
abbrev counter : StateMachine
counter = record {
  State = ℕ;
  Request = ℕ;
  Response = ℕ;
  do_op = λ s n. (s + n, s);
  snapshot = λ s. s ∷ [];
  restore = λ s bytes. 0;
}

abbrev add_three : Op counter
add_three = submitted counter 9 5 3

abbrev heard : Notification counter
heard = record { id = 9; term = 5; result = 40 }

-- Another call waits for index 1 while this one waits for index 2 and is told of it.
poll-Executed_example : Executed counter ((2, add_three, 40) ∷ []) 2 heard
unfolding run step make_rsm register poll hear apply_msg execute notify lookup insert
poll-Executed_example =
    poll-Executed counter 40 none [] (registers 1 5 8 ∷ [])
      (applies (command_msg (some add_three) 2) 0 ∷ []) 2 5 9 (5, true) refl

poll-missed_example :
    let rsm = run counter (make_rsm counter 40 none []) [] in
    let (registered, w) =
      register counter (apply_msg counter rsm (command_msg (some add_three) 2) 0).0 2 5 9 in
    poll counter (run counter registered (registers 3 5 11 ∷ [])) w (5, true) ≡ none
poll-missed_example = poll-missed counter 40 none [] [] 2 5 9 0 3 (registers 3 5 11 ∷ []) tt

-- `GetState` answered with term 4, `Start` with term 5.
poll-submitted_example :
    let (registered, w) = register counter (make_rsm counter 40 none []) 2 5 9 in
    let msg = command_msg (some (submitted counter 9 4 3)) 2 in
    let rsm' = (apply_msg counter registered msg 0).0 in
    (rsm'.sm ≡ 43) × (poll counter rsm' w (5, true) ≡ some (Err.wrong_leader, none))
unfolding make_rsm
poll-submitted_example = poll-submitted counter (make_rsm counter 40 none []) 2 4 5 9 0 3 (5, true)
