-- ===== src/Harness/Agreement.antt =====
-- raft1/server.go and raft1/test.go: what it means that `checkLogs` has found no error.
use mit_6_824_distributed_sy.Prelude.{
  ℕ, zero, suc, ◌+◌, ◌<◌, ◌≡◌, refl, sym, ◌∙◌, ap, false, ◌&&◌, not, Option, none, some, ◌⊎◌, inl,
  inr, List, [], ◌∷◌, arith, ltb, ◌==◌, ==_iff, Bool-cases, Option-cases, get_elem?, set,
  get_elem?-set_self, get_elem?-set_ne, get_elem?-some, Key, lookup, insert, lookup-insert, nat_key,
  subst, some-inj, ℕ_discrete,
}
use mit_6_824_distributed_sy.Raft.State.{ApplyMsg, command_msg, snapshot_msg}
use mit_6_824_distributed_sy.Harness.Applier.{
  RfServer, Test, make_test, has_previous, any_conflict, checked, applier, run_applier,
}
use mit_6_824_distributed_sy.Harness.Checks.{count_committed, n_committed}

module _ {C : Type 0} where
  -- Server `q` has applied `v` at the index `k`.
  abbrev pub Has : List (RfServer C) → ℕ → ℕ → Option C → Type 0
  Has servers q k v =
      (rs : RfServer C) × (get_elem? servers q ≡ some rs) × (lookup k rs.logs ≡ some v)

  -- No two servers have applied different commands at an index.
  abbrev pub Agree : List (RfServer C) → Type 0
  Agree servers = (p q k : ℕ) (a b : Option C) → Has servers p k a → Has servers q k b → a ≡ b

  -- A server that has applied a command behind the first has applied the one before.
  abbrev pub InOrder : List (RfServer C) → Type 0
  InOrder servers =
      (q k : ℕ) (v : Option C)
      → 0 < k
      → Has servers q (suc k) v
      → (u : Option C) × Has servers q k u

  -- The servers after server `i` has taken down `v` at `index`.
  abbrev logged : List (RfServer C) → ℕ → RfServer C → ℕ → Option C → List (RfServer C)
  logged servers i me index v = set servers i (record me { logs = insert index v me.logs })

  module _ (servers : List (RfServer C)) (i index : ℕ) (v : Option C) (me : RfServer C)
      (at : get_elem? servers i ≡ some me) where
    Has-logged :
        (q k : ℕ) (x : Option C)
        → Has (logged servers i me index v) q k x
        → Has servers q k x ⊎ ((i ≡ q) × (index ≡ k) × (v ≡ x))
    Has-logged q k x (rs, here, has) = elim (ℕ_discrete i q) [
      | yes same ↦
          let new : RfServer C = record me { logs = insert index v me.logs } in
          let is_new : new ≡ rs = some-inj (
            sym (get_elem?-set_self servers i new (get_elem?-some servers i at))
            ∙ ap (get_elem? (set servers i new)) same
            ∙ here) in
          let has' : lookup k (insert index v me.logs) ≡ some x =
            subst (λ (r : RfServer C). lookup k r.logs ≡ some x) (sym is_new) has in
          elim (Bool-cases (index == k)) [
            | inl this ↦ inr (
              same,
              (==_iff index k).0 this,
              ground (arith, lookup-insert index k v me.logs, this, has'),
            )
            | inr other ↦ inl (
              me,
              ap (get_elem? servers) (sym same) ∙ at,
              ground (arith, lookup-insert index k v me.logs, other, has'),
            )
          ]
      | no other ↦ inl (rs, sym (get_elem?-set_ne servers i q _ other) ∙ here, has)
    ]

    -- What was there is still there, or replaced at its index.
    logged-Has :
        (q k : ℕ) (x : Option C)
        → Has servers q k x
        → (u : Option C) × Has (logged servers i me index v) q k u
    logged-Has q k x (rs, here, has) = elim (ℕ_discrete i q) [
      | yes same ↦
          let is_me : me ≡ rs = some-inj (sym at ∙ ap (get_elem? servers) same ∙ here) in
          let old : lookup k me.logs ≡ some x =
            subst (λ (r : RfServer C). lookup k r.logs ≡ some x) (sym is_me) has in
          let new : RfServer C = record me { logs = insert index v me.logs } in
          let there =
            ap (get_elem? (set servers i new)) (sym same)
            ∙ get_elem?-set_self servers i new (get_elem?-some servers i at) in
          elim (Bool-cases (index == k)) [
            | inl this ↦ (v, (new, there, lookup-insert index k v me.logs ∙ rw this refl))
            | inr apart ↦ (x, (new, there, lookup-insert index k v me.logs ∙ rw apart old))
          ]
      | no other ↦ (x, (rs, get_elem?-set_ne servers i q _ other ∙ here, has))
    ]

    logged-Agree :
        Agree servers
        → ((q : ℕ) (old : Option C) → Has servers q index old → old ≡ v)
        → Agree (logged servers i me index v)
    logged-Agree agree none_other p q k a b ha hb = elim (Has-logged p k a ha) [
      | inl oa ↦ elim (Has-logged q k b hb) [
        | inl ob ↦ agree p q k a b oa ob
        | inr (_, at_k, is_b) ↦ none_other p a (subst (λ j. Has servers p j a) (sym at_k) oa) ∙ is_b
      ]
      | inr (_, at_k, is_a) ↦ elim (Has-logged q k b hb) [
        | inl ob ↦ sym (none_other q b (subst (λ j. Has servers q j b) (sym at_k) ob) ∙ is_a)
        | inr (_, _, is_b) ↦ sym is_a ∙ is_b
      ]
    ]

    logged-InOrder :
        InOrder servers
        → ((k : ℕ) → 0 < k → index ≡ suc k → (u : Option C) × Has servers i k u)
        → InOrder (logged servers i me index v)
    logged-InOrder order before q k x pos has = elim (Has-logged q (suc k) x has) [
      | inl old ↦ let (u, was) = order q k x pos old in logged-Has q k u was
      | inr (same, at_k, _) ↦
          let (u, was) = before k pos at_k in
          logged-Has q k u (subst (λ p. Has servers p k u) same was)
    ]

module _ {C : Type 0} ⦃eq : Key (Option C)⦄ where
  any_conflict-none :
      (servers : List (RfServer C)) (index : ℕ) (v : Option C)
      → any_conflict servers index v ≡ false
      → (q : ℕ) (old : Option C) → Has servers q index old
      → old ≡ v
  unfolding any_conflict
  any_conflict-none [] index v e q old (rs, here, has) = cc
  any_conflict-none (me ∷ servers) index v e zero old (rs, here, has) =
      let is_me : me ≡ rs = some-inj here in
      let has' : lookup index me.logs ≡ some old =
        subst (λ (r : RfServer C). lookup index r.logs ≡ some old) (sym is_me) has in
      ground (arith, e, has', eq.beq_iff old v)
  any_conflict-none (me ∷ servers) index v e (suc q) old (rs, here, has) =
      any_conflict-none servers index v (ground (arith, e)) q old (rs, here, has)

  -- What a check that finds no error has found, and done.
  checked-Logged :
      (ts ts' : Test C) (i index : ℕ) (v : Option C)
      → checked ts i index v ≡ some ts'
      → (me : RfServer C) × (get_elem? ts.servers i ≡ some me)
        × (ts'.servers ≡ logged ts.servers i me index v)
        × (any_conflict ts.servers index v ≡ false)
        × ((ltb 1 index && not (has_previous me index)) ≡ false)
  unfolding checked
  checked-Logged ts ts' i index v e = elim (Option-cases (get_elem? ts.servers i)) [
    | inl absent ↦ absurd (ground (arith, absent, e))
    | inr (me, at) ↦ (me, at, ground (arith, at, e), ground (arith, at, e), ground (arith, at, e))
  ]

  previous :
      (me : RfServer C) (k : ℕ)
      → 0 < k
      → (ltb 1 (suc k) && not (has_previous me (suc k))) ≡ false
      → (u : Option C) × (lookup k me.logs ≡ some u)
  previous me k pos e = elim (Option-cases (lookup k me.logs)) [
    | inl absent ↦ absurd (ground (arith, absent, e, pos))
    | inr found ↦ found
  ]

  abbrev pub Sound : Test C → Type 0
  Sound ts = Agree ts.servers × InOrder ts.servers

  applier-Sound :
      (ts ts' : Test C) (i : ℕ) (m : ApplyMsg C) → applier ts i m ≡ some ts' → Sound ts → Sound ts'
  unfolding applier
  applier-Sound ts ts' i (snapshot_msg _ _ _) e sound = subst Sound (some-inj e) sound
  applier-Sound ts ts' i (command_msg v index) e (agree, order) =
      let (me, at, same, clean, prev) = checked-Logged ts ts' i index v e in
      (
        subst Agree (sym same) (
            logged-Agree ts.servers i index v me at agree
              (any_conflict-none ts.servers index v clean)),
        subst InOrder (sym same) (
            logged-InOrder ts.servers i index v me at order (λ k pos at_k.
              let (u, has) =
                previous me k pos
                  (subst (λ j. (ltb 1 j && not (has_previous me j)) ≡ false) at_k prev) in
              (u, (me, at, has)))),
      )

  run_applier-Sound :
      (ts ts' : Test C) (msgs : List (ℕ × ApplyMsg C))
      → run_applier ts msgs ≡ some ts'
      → Sound ts
      → Sound ts'
  unfolding run_applier
  run_applier-Sound ts ts' [] e sound = subst Sound (some-inj e) sound
  run_applier-Sound ts ts' ((i, m) ∷ more) e sound = elim (Option-cases (applier ts i m)) [
    | inl fatal ↦ absurd (ground (arith, fatal, e))
    | inr (ts1, one) ↦
        run_applier-Sound ts1 ts' more (rw (one, run_applier) at e)
          (applier-Sound ts ts1 i m one sound)
  ]

  -- No server of a new test has applied anything.
  make_test-Has : (n q k : ℕ) (v : Option C) → Has (make_test n).servers q k v → ⊥
  unfolding lookup
  make_test-Has zero q k v (rs, here, has) = cc
  make_test-Has (suc n) zero k v (rs, here, has) = ground (arith, here, has)
  make_test-Has (suc n) (suc q) k v has = make_test-Has n q k v has

  Agree-count :
      (servers : List (RfServer C)) (index count : ℕ) (cmd : Option C)
      → Agree servers
      → ((q : ℕ) (v : Option C) → 0 < count → Has servers q index v → cmd ≡ v)
      → (r : ℕ × Option C) × (count_committed servers index count cmd ≡ some r)
  unfolding count_committed
  Agree-count [] index count cmd agree same = ((count, cmd), refl)
  Agree-count (rs ∷ servers) index count cmd agree same =
      let rest : Agree servers = λ p q k a b ha hb. agree (suc p) (suc q) k a b ha hb in
      elim (Option-cases (lookup index rs.logs)) [
        | inl absent ↦
            let (r, e) =
              Agree-count servers index count cmd rest (λ q v pos h. same (suc q) v pos h) in
            (r, rw (absent, count_committed) e)
        | inr (v, found) ↦
            let (r, e) =
              Agree-count servers index (count + 1) v rest
                (λ q u pos h. agree 0 (suc q) index v u (rs, refl, found) h) in
            let fine : (ltb 0 count && not (eq.beq cmd v)) ≡ false =
              elim (Bool-cases (ltb 0 count)) [
                | inl some_yet ↦
                    let e : cmd ≡ v = same 0 v (ground (arith, some_yet)) (rs, refl, found) in
                    ground (arith, some_yet, (eq.beq_iff cmd v).1 e)
                | inr none_yet ↦ ground (arith, none_yet)
              ] in
            (r, rw (found, fine, count_committed) e)
      ]

  -- Where the loops of all servers of a new test have read messages, in any order among the servers,
  -- and found no error, no two servers have applied different commands at an index, each has
  -- applied its commands without a gap, and `nCommitted` finds no disagreement.
  pub accepted-Agree :
      (n : ℕ) (msgs : List (ℕ × ApplyMsg C)) (ts : Test C) (index : ℕ)
      → run_applier (make_test n) msgs ≡ some ts
      → Agree ts.servers
        × InOrder ts.servers
        × ((r : ℕ × Option C) × (n_committed ts index ≡ some r))
  unfolding n_committed
  accepted-Agree n msgs ts index e =
      let (agree, order) = run_applier-Sound (make_test n) ts msgs e (
        λ p q k a b ha hb. absurd (make_test-Has n p k a ha),
        λ q k v pos has. absurd (make_test-Has n q (suc k) v has),
      ) in
      (agree, order, Agree-count ts.servers index 0 none agree (λ q v pos h. absurd (omega arith)))
