-- ===== src/Harness/Isolation.antt =====
-- tester1/group.go: a server that is shut down is cut off.
use mit_6_824_distributed_sy.Prelude.{
  ℕ, zero, suc, ◌+◌, ◌%◌, ◌<◌, ◌≡◌, sym, ◌∙◌, ap, false, some, ◌⊎◌, inl, inr, List, [], ◌∷◌, arith,
  if◌then◌else◌, length, get_elem?, Key, lookup, lookup-insert, lookup-insert_self, Option-cases,
  subst, some-inj,
}
use native.Mathlib.Nat.{add-zero}
use mit_6_824_distributed_sy.Net.Network.{
  Network, ReqMsg, EndInfo, no_server, fails, begin_request, end_request, enable, delete_server,
  long_delay,
}
use mit_6_824_distributed_sy.Harness.Group.{
  GroupServer, ServerGroup, range, all_servers, end_to, disconnect_out, disconnect_in,
  disconnect_from, disconnect_all, shutdown_server,
}

get-range : (i n q : ℕ) → q < n → get_elem? (range i n) q ≡ some (i + q)
get-range i zero q h = elim h [ ]
get-range i (suc n) zero h = ap some (sym (add-zero i))
get-range i (suc n) (suc q) h = get-range (suc i) n q (omega arith) ∙ ap some (omega arith)

module _ {K : Type 0} ⦃key : Key K⦄ where
  abbrev Disabled : Network K → K → Type 0
  Disabled rn e = lookup e rn.enabled ≡ some false

  enable-Disabled : (rn : Network K) (x e : K) → Disabled rn e → Disabled (enable rn x false) e
  unfolding enable
  enable-Disabled rn x e h = ground (arith, lookup-insert x e false rn.enabled, h)

  enable-Disabled_self : (rn : Network K) (e : K) → Disabled (enable rn e false) e
  unfolding enable
  enable-Disabled_self rn e = lookup-insert_self e false rn.enabled

  out-Disabled :
      (rn rn' : Network K) (ends : List K) (from : List ℕ)
      → disconnect_out rn ends from ≡ some rn'
      → (e : K) → Disabled rn e
      → Disabled rn' e
  unfolding disconnect_out
  out-Disabled rn rn' ends [] r e h = subst (λ n. Disabled n e) (some-inj r) h
  out-Disabled rn rn' ends (j ∷ from) r e h = elim (Option-cases (get_elem? ends j)) [
    | inl absent ↦ absurd (ground (arith, absent, r))
    | inr (x, at) ↦
        out-Disabled (enable rn x false) rn' ends from (rw (at, disconnect_out) at r) e
          (enable-Disabled rn x e h)
  ]

  out-Disables :
      (rn rn' : Network K) (ends : List K) (from : List ℕ)
      → disconnect_out rn ends from ≡ some rn'
      → (q j : ℕ) (e : K) → get_elem? from q ≡ some j
      → get_elem? ends j ≡ some e
      → Disabled rn' e
  unfolding disconnect_out
  out-Disables rn rn' ends [] r q j e in_from at = cc
  out-Disables rn rn' ends (i ∷ from) r zero j e in_from at =
      let here : get_elem? ends i ≡ some e = ap (get_elem? ends) (some-inj in_from) ∙ at in
      out-Disabled (enable rn e false) rn' ends from (rw (here, disconnect_out) at r) e
        (enable-Disabled_self rn e)
  out-Disables rn rn' ends (i ∷ from) r (suc q) j e in_from at =
      elim (Option-cases (get_elem? ends i)) [
        | inl absent ↦ absurd (ground (arith, absent, r))
        | inr (x, there) ↦
            out-Disables (enable rn x false) rn' ends from (rw (there, disconnect_out) at r) q j e
              in_from at
      ]

  in-Disabled :
      (rn rn' : Network K) (servers : List (GroupServer K)) (i : ℕ) (from : List ℕ)
      → disconnect_in rn servers i from ≡ some rn'
      → (e : K) → Disabled rn e
      → Disabled rn' e
  unfolding disconnect_in
  in-Disabled rn rn' servers i [] r e h = subst (λ n. Disabled n e) (some-inj r) h
  in-Disabled rn rn' servers i (j ∷ from) r e h = elim (Option-cases (end_to servers j i)) [
    | inl absent ↦ absurd (ground (arith, absent, r))
    | inr (x, at) ↦
        in-Disabled (enable rn x false) rn' servers i from (ground (arith, at, r)) e
          (enable-Disabled rn x e h)
  ]

  in-Disables :
      (rn rn' : Network K) (servers : List (GroupServer K)) (i : ℕ) (from : List ℕ)
      → disconnect_in rn servers i from ≡ some rn'
      → (q j : ℕ) (e : K) → get_elem? from q ≡ some j
      → end_to servers j i ≡ some e
      → Disabled rn' e
  unfolding disconnect_in
  in-Disables rn rn' servers i [] r q j e in_from at = cc
  in-Disables rn rn' servers i (k ∷ from) r zero j e in_from at =
      let here : end_to servers k i ≡ some e =
        ap (λ x. end_to servers x i) (some-inj in_from) ∙ at in
      in-Disabled (enable rn e false) rn' servers i from (ground (arith, here, r)) e
        (enable-Disabled_self rn e)
  in-Disables rn rn' servers i (k ∷ from) r (suc q) j e in_from at =
      elim (Option-cases (end_to servers k i)) [
        | inl absent ↦ absurd (ground (arith, absent, r))
        | inr (x, there) ↦
            in-Disables (enable rn x false) rn' servers i from (ground (arith, there, r)) q j e
              in_from at
      ]

  -- The ends between server `i` and the others are disabled.
  disconnect_all-Disables :
      (sg sg' : ServerGroup K) (rn rn' : Network K) (i j : ℕ) (s : GroupServer K) (e : K)
      → disconnect_all sg rn i ≡ some (sg', rn')
      → get_elem? sg.servers i ≡ some s
      → j < length sg.servers
      → (get_elem? s.end_names j ≡ some e) ⊎ (end_to sg.servers j i ≡ some e)
      → Disabled rn' e
  unfolding disconnect_all disconnect_from
  disconnect_all-Disables sg sg' rn rn' i j s e r at inside ends =
      let from = all_servers sg in
      let in_from : get_elem? from j ≡ some j =
        get-range 0 (length sg.servers) j inside ∙ ap some (omega arith) in
      elim (Option-cases (disconnect_out rn s.end_names from)) [
        | inl fatal ↦ absurd (ground (arith, at, fatal, r))
        | inr (rn1, first) ↦ elim (Option-cases (disconnect_in rn1 sg.servers i from)) [
          | inl fatal ↦ absurd (ground (arith, at, first, fatal, r))
          | inr (rn2, second) ↦
              let same : rn2 ≡ rn' = ground (arith, at, first, second, r) in
              subst (λ n. Disabled n e) same
                (elim ends [
                  | inl own ↦
                      in-Disabled rn1 rn2 sg.servers i from second e
                        (out-Disables rn rn1 s.end_names from first j j e in_from own)
                  | inr other ↦ in-Disables rn1 rn2 sg.servers i from second j j e in_from other
                ])
        ]
      ]

  shutdown-Disabled :
      (sg sg' : ServerGroup K) (rn rn' : Network K) (i : ℕ)
      → shutdown_server sg rn i ≡ some (sg', rn')
      → (sg1 : ServerGroup K) × (rn1 : Network K) × (name : K) × (disconnect_all sg rn i
          ≡ some (sg1, rn1))
        × (rn' ≡ delete_server rn1 name)
  unfolding shutdown_server
  shutdown-Disabled sg sg' rn rn' i r = elim (Option-cases (disconnect_all sg rn i)) [
    | inl fatal ↦ absurd (ground (arith, fatal, r))
    | inr ((sg1, rn1), first) ↦ elim (Option-cases (get_elem? sg1.servers i)) [
      | inl absent ↦ absurd (ground (arith, first, absent, r))
      | inr (s, at) ↦ elim (Option-cases (get_elem? sg1.server_names i)) [
        | inl absent ↦ absurd (ground (arith, first, at, absent, r))
        | inr (name, named) ↦ (sg1, rn1, name, first, ground (arith, first, at, named, r))
      ]
    ]
  ]

  pub shutdown-isolates :
      (sg sg' : ServerGroup K) (rn rn' : Network K) (i j : ℕ) (s : GroupServer K) (req : ReqMsg K)
      (server_name : K) (server : ℕ) (info : EndInfo K) (reply : List ℕ) (wait loss late a b : ℕ)
      → shutdown_server sg rn i ≡ some (sg', rn')
      → get_elem? sg.servers i ≡ some s
      → j < length sg.servers
      → (get_elem? s.end_names j ≡ some req.end_name) ⊎ (end_to sg.servers j i ≡ some req.end_name)
      → ((d : ℕ) × (begin_request rn' req wait loss ≡ no_server d))
        × (end_request rn' req.end_name server_name server info reply loss late a b ≡ fails)
  unfolding begin_request end_request delete_server
  shutdown-isolates sg sg' rn rn' i j s req server_name server info reply wait loss late a b r at
        inside ends =
      let (sg1, rn1, name, first, second) = shutdown-Disabled sg sg' rn rn' i r in
      let off : Disabled rn1 req.end_name =
        disconnect_all-Disables sg sg1 rn rn1 i j s req.end_name first at inside ends in
      let off' : Disabled rn' req.end_name = ground (arith, second, off) in
      (
        (if rn'.long_delays then wait % long_delay else wait % 100, ground (arith, off')),
        ground (arith, off'),
      )
