-- ===== src/Raft/Books/Moving.antt =====
-- A step of a peer of raft1/raft.go, and the book with the peer's log written into it.
use mit_6_824_distributed_sy.Prelude.{
  ℕ, ◌≤◌, ◌<◌, ◌≡◌, ◌≢◌, refl, sym, some, ◌⊎◌, inl, inr, arith, true, false, Bool-cases, subst,
}
use mit_6_824_distributed_sy.Raft.State.{Raft, Role, LogEntry, entry_at, is_leader}
use mit_6_824_distributed_sy.Raft.Books.{
  Book, Chain, Exact, LogOk, SameLog, SameLog-LogOk, SameLog-Exact, Cuts-LogOk, Cuts-Exact,
}
use mit_6_824_distributed_sy.Raft.Books.Writing.{
  Writes, Written, written, Exact-written, written-Extends, written-Chain, written-Exact,
  written-LogOk,
}
use mit_6_824_distributed_sy.Raft.Books.Handlers.{LogMove, keeps, cuts, takes, adds}
use mit_6_824_distributed_sy.Raft.Books.Adding.{added-Written}

module _ {C : Type 0} where
  -- Of a peer that is no leader nothing is written.
  follower-Written :
      (book : Book C) (rf : Raft C)
      → is_leader rf.role ≡ false
      → Chain book
      → LogOk book rf
      → Written book rf
  follower-Written book rf other ch ok =
      let same : written book rf ≡ book = λ i t j. go t j i in
      subst (λ b. Writes book b rf) (sym same)
        (record {
          chain = ch;
          extends = λ t k e h j le. refl;
          log = ok;
          leads = λ l. absurd (ground (arith, l, other));
        })
    where
      go : (t j : ℕ) → written book rf t j ≡ book t j
      go t j = ground (arith, other)

  -- Of a leader whose log is its page already, nothing new.
  exact-Written :
      (book : Book C) (rf : Raft C)
      → Chain book
      → LogOk book rf
      → Exact book rf.current_term rf
      → Written book rf
  exact-Written book rf ch ok ex =
      subst (λ b. Writes book b rf) (sym (Exact-written book rf ch ex))
        (record { chain = ch; extends = λ t k e h j le. refl; log = ok; leads = λ l. ex })

  -- A new leader writes its log on the empty page of its term.
  crowned-Written :
      (book : Book C) (rf : Raft C)
      → is_leader rf.role ≡ true
      → Chain book
      → LogOk book rf
      → ((k : ℕ) (e : LogEntry C) → book rf.current_term k ≢ some e)
      → Written book rf
  crowned-Written book rf lead ch ok blank =
      let entries =
        λ (k : ℕ) (e : LogEntry C) (lt : rf.last_included_index < k)
            (here : entry_at rf k ≡ some e).
          inr (ok.chained k e lt here) in
      let grows =
        λ (k : ℕ) (e : LogEntry C) (h : book rf.current_term k ≡ some e) (j : ℕ) (le : j ≤ k).
          absurd (blank k e h) in
      record {
        chain = written-Chain book rf lead ch ok.size ok.base_term ok.place entries grows;
        extends = written-Extends book rf lead ch ok.size ok.base_term ok.place entries grows;
        log = written-LogOk book rf lead ch ok.size ok.base_term ok.place entries grows;
        leads = λ l. written-Exact book rf lead ch ok.size ok.base_term ok.place entries grows;
      }

  -- How a peer comes to be a leader, or stays one: as a leader of that term, whose log is its page,
  -- or from a log that it has not changed, in a term whose page is empty.
  abbrev pub Rule : Book C → Raft C → Raft C → Type 0
  Rule book rf rf' =
      ((rf'.current_term ≡ rf.current_term) × Exact book rf.current_term rf)
      ⊎ (SameLog rf rf' × ((k : ℕ) (e : LogEntry C) → book rf'.current_term k ≢ some e))

  leader-Written :
      (book : Book C) (rf rf' : Raft C)
      → Chain book
      → LogOk book rf
      → LogMove book rf rf'
      → rf'.role ≡ Role.leader
      → Rule book rf rf'
      → Written book rf'
  leader-Written book rf rf' ch ok move lead (inr (same, blank)) =
      crowned-Written book rf' (ground (arith, lead)) ch (SameLog-LogOk book rf rf' same ok) blank
  leader-Written book rf rf' ch ok (keeps same) lead (inl (term, ex)) =
      exact-Written book rf' ch (SameLog-LogOk book rf rf' same ok)
        (SameLog-Exact book rf'.current_term rf rf' same (rw term ex))
  leader-Written book rf rf' ch ok (cuts c) lead (inl (term, ex)) =
      exact-Written book rf' ch (Cuts-LogOk book rf rf' c ok)
        (Cuts-Exact book rf'.current_term rf rf' c (rw term ex))
  leader-Written book rf rf' ch ok (takes _ other) lead (inl (term, ex)) = absurd (other lead)
  leader-Written book rf rf' ch ok (adds e own _ _ same_term log base term) lead (inl (_, ex)) =
      added-Written book rf rf' ch ok ex e own (ground (arith, lead)) same_term log base term

  moved-LogOk :
      (book : Book C) (rf rf' : Raft C)
      → LogOk book rf
      → LogMove book rf rf'
      → rf'.role ≢ Role.leader
      → LogOk book rf'
  moved-LogOk book rf rf' ok (keeps same) other = SameLog-LogOk book rf rf' same ok
  moved-LogOk book rf rf' ok (cuts c) other = Cuts-LogOk book rf rf' c ok
  moved-LogOk book rf rf' ok (takes new _) other = new
  moved-LogOk book rf rf' ok (adds _ _ _ lead _ _ _ _) other = absurd (other lead)

  pub moved-Written :
      (book : Book C) (rf rf' : Raft C)
      → Chain book
      → LogOk book rf
      → LogMove book rf rf'
      → (rf'.role ≡ Role.leader → Rule book rf rf')
      → Written book rf'
  moved-Written book rf rf' ch ok move rule = elim (Bool-cases (is_leader rf'.role)) [
    | inl lead ↦
        let l : rf'.role ≡ Role.leader = ground (arith, lead) in
        leader-Written book rf rf' ch ok move l (rule l)
    | inr other ↦
        follower-Written book rf' other ch
          (moved-LogOk book rf rf' ok move (λ l. ground (arith, l, other)))
  ]
