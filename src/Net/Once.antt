-- ===== src/Net/Once.antt =====
-- labrpc/labrpc.go: a call runs its handler at most once.
use mit_6_824_distributed_sy.Prelude.{
  ℕ, ◌≤◌, ◌≡◌, refl, ap, subst, List, [], ◌∷◌, arith, ◌==◌, ==_iff, Bool-cases, inl, inr, ◌⊎◌, Key,
  length,
}
use mit_6_824_distributed_sy.Net.Network.{
  Network, ReqMsg, EndInfo, Begun, no_server, dropped, runs, Ended, fails, replies, begin_request,
  end_request,
}
use mit_6_824_distributed_sy.Net.Calls.{
  CallState, unsent, sent, waiting, returned, left, failed, answered, Wire, update, after_begin,
  after_end, Step, sends, refuses, begins, executes, executes_late, gives_up, ends, changes,
  makes_server, Reach, start, then_by,
}

module _ {K : Type 0} where
  -- What the handler of a call has returned so far, by where the call stands.
  abbrev pub RanOnce : CallState K → List (List ℕ) → Type 0
  RanOnce unsent ran = ran ≡ []
  RanOnce (sent _) ran = ran ≡ []
  RanOnce (waiting _ _ _ _) ran = ran ≡ []
  RanOnce (returned _ _ _ _ reply) ran = ran ≡ reply ∷ []
  RanOnce (left _ _) ran = ran ≡ []
  RanOnce failed ran = length ran ≤ 1
  RanOnce (answered reply) ran = ran ≡ reply ∷ []

  RanOnce-length : (c : CallState K) (ran : List (List ℕ)) → RanOnce c ran → length ran ≤ 1
  RanOnce-length unsent ran h = omega (arith, ap length h)
  RanOnce-length (sent _) ran h = omega (arith, ap length h)
  RanOnce-length (waiting _ _ _ _) ran h = omega (arith, ap length h)
  RanOnce-length (returned _ _ _ _ _) ran h = omega (arith, ap length h)
  RanOnce-length (left _ _) ran h = omega (arith, ap length h)
  RanOnce-length failed ran h = h
  RanOnce-length (answered _) ran h = omega (arith, ap length h)

  after_begin-RanOnce :
      (req : ReqMsg K) (b : Begun K) (ran : List (List ℕ))
      → ran ≡ []
      → RanOnce (after_begin req b) ran
  after_begin-RanOnce req (no_server _) ran h = omega (arith, ap length h)
  after_begin-RanOnce req (dropped _) ran h = omega (arith, ap length h)
  after_begin-RanOnce req (runs _ _ _ _) ran h = h

  -- A change of one call and of what its handler has returned.
  update-RanOnce :
      (calls : ℕ → CallState K) (ran : ℕ → List (List ℕ)) (k : ℕ) (c : CallState K)
      (r : List (List ℕ))
      → RanOnce c r
      → ((j : ℕ) → RanOnce (calls j) (ran j))
      → (j : ℕ) → RanOnce (update calls k c j) (update ran k r j)
  update-RanOnce calls ran k c r new all j = elim (Bool-cases (k == j)) [
    | inl here ↦ rw here new
    | inr there ↦ rw there (all j)
  ]

  -- A change of one call only.
  call-RanOnce :
      (calls : ℕ → CallState K) (ran : ℕ → List (List ℕ)) (k : ℕ) (c : CallState K)
      → RanOnce c (ran k)
      → ((j : ℕ) → RanOnce (calls j) (ran j))
      → (j : ℕ) → RanOnce (update calls k c j) (ran j)
  call-RanOnce calls ran k c new all j = elim (Bool-cases (k == j)) [
    | inl here ↦ rw (here, ← (==_iff k j).0 here) new
    | inr there ↦ rw there (all j)
  ]

module _ {K : Type 0} ⦃key : Key K⦄ where
  after_end-RanOnce :
      (net : Network K) (end_name server_name : K) (server : ℕ) (info : EndInfo K) (reply : List ℕ)
      (loss late a b : ℕ) (ran : List (List ℕ))
      → ran ≡ reply ∷ []
      → RanOnce {K = K}
          (after_end (end_request net end_name server_name server info reply loss late a b))
          ran
  unfolding end_request
  after_end-RanOnce net end_name server_name server info reply loss late a b ran h =
      go (end_request net end_name server_name server info reply loss late a b) (ground arith)
    where
      go :
          (e : Ended)
          → (e ≡ fails) ⊎ ((d : ℕ) × (e ≡ replies d reply))
          → RanOnce {K = K} (after_end e) ran
      go e (inl q) = rw q (omega (arith, ap length h))
      go e (inr (d, q)) = rw q h

module _ {K S : Type 0} ⦃key : Key K⦄ where
  abbrev AllOnce : Wire K S → Type 0
  AllOnce w = (k : ℕ) → RanOnce (w.calls k) (w.ran k)

  Step-AllOnce : {v w : Wire K S} → Step v w → AllOnce v → AllOnce w
  Step-AllOnce {v} (sends k req was) all =
      call-RanOnce v.calls v.ran k (sent req) (subst (λ c. RanOnce c (v.ran k)) was (all k)) all
  Step-AllOnce {v} (refuses k was closed) all =
      let none_yet : v.ran k ≡ [] = subst (λ c. RanOnce c (v.ran k)) was (all k) in
      call-RanOnce v.calls v.ran k failed (omega (arith, ap length none_yet)) all
  Step-AllOnce {v} (begins k wait loss {req} was) all =
      let none_yet : v.ran k ≡ [] = subst (λ c. RanOnce c (v.ran k)) was (all k) in
      call-RanOnce v.calls v.ran k (after_begin req (begin_request v.net req wait loss))
        (after_begin-RanOnce req (begin_request v.net req wait loss) (v.ran k) none_yet) all
  Step-AllOnce {v} (executes k {req} {server_name} {server} {info} {reply = reply} was at e) all =
      let none_yet : v.ran k ≡ [] = subst (λ c. RanOnce c (v.ran k)) was (all k) in
      update-RanOnce v.calls v.ran k (returned req server_name server info reply) (reply ∷ v.ran k)
        (ap (◌∷◌ reply) none_yet) all
  Step-AllOnce {v} (executes_late k {reply = reply} was at e) all =
      let none_yet : v.ran k ≡ [] = subst (λ c. RanOnce c (v.ran k)) was (all k) in
      update-RanOnce v.calls v.ran k failed (reply ∷ v.ran k) (omega (arith, ap length none_yet))
        all
  Step-AllOnce {v} (gives_up k {req} {server = server} was dead) all =
      call-RanOnce v.calls v.ran k (left req server) (subst (λ c. RanOnce c (v.ran k)) was (all k))
        all
  Step-AllOnce {v} (ends k loss late a b {req} {server_name} {server} {info} {reply} {e} was is)
        all =
      call-RanOnce v.calls v.ran k (after_end e)
        (subst (λ x. RanOnce {K = K} (after_end x) (v.ran k)) is
          (after_end-RanOnce v.net req.end_name server_name server info reply loss late a b
            (v.ran k) (subst (λ c. RanOnce c (v.ran k)) was (all k))))
        all
  Step-AllOnce (changes c e) all = all
  Step-AllOnce (makes_server rs) all = all

  Reach-AllOnce : {w : Wire K S} → Reach w → AllOnce w
  Reach-AllOnce (start rn heap state) k = refl
  Reach-AllOnce (then_by r st) k = Step-AllOnce st (Reach-AllOnce r) k

  -- However calls, handlers and changes of the network are interleaved, the handler of every call has
  -- run once at most, whether or not any call has been answered. It has not run for a call that still
  -- waits for its server or whose server has died before it ran; it has run exactly once, with the
  -- reply that the network holds, for one whose handler has returned; and exactly once, with the
  -- reply that the caller gets, for a call that returns true.
  pub answered_once :
      {w : Wire K S} → Reach w → (k : ℕ) → (length (w.ran k) ≤ 1) × RanOnce (w.calls k) (w.ran k)
  answered_once {w} r k =
      (RanOnce-length (w.calls k) (w.ran k) (Reach-AllOnce r k), Reach-AllOnce r k)
