-- ===== src/Raft/Books.antt =====
-- The logs of the peers of raft1/raft.go, held against a book of what leaders had in theirs. No code
-- keeps such a book; it is what the theorems compare the logs with.
pub mod Writing
pub mod Storing
pub mod Handlers
pub mod Taking
pub mod Compacting
pub mod Steps
pub mod Adding
pub mod Moving
use mit_6_824_distributed_sy.Prelude.{
  ℕ, ◌+◌, ◌≤◌, ◌<◌, ◌≡◌, refl, sym, ◌∙◌, ap, Option, some, none, ◌⊎◌, inl, inr, arith, length,
  get_elem?, if◌then◌else◌, leb, ◌==◌, Option-cases, dec_lt, dec_le, some-inj, subst,
}
use mit_6_824_distributed_sy.Raft.State.{Raft, LogEntry, entry_at, last_log_index}
use mit_6_824_distributed_sy.Raft.Append.Store.{term_of}
use mit_6_824_distributed_sy.Raft.Append.Entries.{term_in, entry_at-same}

-- `book t k` is the entry that the leader of term `t` had at the index `k`.
abbrev pub Book : Type 0 → Type 0
Book C = ℕ → ℕ → Option (LogEntry C)

module _ {C : Type 0} where
  -- Up to an entry, the page of a leader is that of the leader that made the entry.
  abbrev pub Chain : Book C → Type 0
  Chain book =
      (t k : ℕ) (e : LogEntry C) → book t k ≡ some e → (j : ℕ) → j ≤ k → book t j ≡ book e.term j

  -- What was on a page up to an entry is still there.
  abbrev pub Extends : Book C → Book C → Type 0
  Extends book book' =
      (t k : ℕ) (e : LogEntry C) → book t k ≡ some e → (j : ℕ) → j ≤ k → book' t j ≡ book t j

  -- The leader of term `t` made the entry that it had at `k`.
  abbrev pub IsPlace : Book C → ℕ → ℕ → Type 0
  IsPlace book t k = term_of (book t k) ≡ some t

  -- The page of term `t` has the term of the peer's snapshot at the snapshot's index.
  abbrev pub SameBase : Book C → ℕ → Raft C → Type 0
  SameBase book t rf = term_of (book t rf.last_included_index) ≡ some rf.last_included_term

  -- The peer's log is the page of term `t`, from the snapshot's index up to the index `n`.
  abbrev pub Follows : Book C → ℕ → Raft C → ℕ → Type 0
  Follows book t rf n =
      SameBase book t rf × ((j : ℕ) → rf.last_included_index < j → j ≤ n → entry_at rf j ≡ book t j)

  -- It is the page to its end.
  abbrev pub Exact : Book C → ℕ → Raft C → Type 0
  Exact book t rf =
      SameBase book t rf × ((j : ℕ) → rf.last_included_index < j → entry_at rf j ≡ book t j)

  -- A log that follows, up to each of its entries, the leader that made the entry.
  pub record LogOk (book : Book C) (rf : Raft C) : Type 0 where
    pub size : 0 < length rf.log
    pub base_term : term_in rf rf.last_included_index ≡ some rf.last_included_term
    pub place : IsPlace book rf.last_included_term rf.last_included_index
    pub chained :
        (k : ℕ) (e : LogEntry C)
        → rf.last_included_index < k
        → entry_at rf k ≡ some e
        → Follows book e.term rf k

  -- A step that leaves the log and its snapshot position alone.
  pub record SameLog (rf rf' : Raft C) : Type 0 where
    pub log : rf'.log ≡ rf.log
    pub base : rf'.last_included_index ≡ rf.last_included_index
    pub term : rf'.last_included_term ≡ rf.last_included_term

  -- A step that moves the snapshot position to a later entry of the log.
  pub record Cuts (rf rf' : Raft C) : Type 0 where
    pub size : 0 < length rf'.log
    pub later : rf.last_included_index < rf'.last_included_index
    pub had : term_in rf rf'.last_included_index ≡ some rf'.last_included_term
    pub has : term_in rf' rf'.last_included_index ≡ some rf'.last_included_term
    pub behind : (j : ℕ) → rf'.last_included_index < j → entry_at rf' j ≡ entry_at rf j

  pub term_of-some :
      (o : Option (LogEntry C)) {t : ℕ}
      → term_of o ≡ some t
      → (e : LogEntry C) × (o ≡ some e) × (e.term ≡ t)
  term_of-some none h = cc
  term_of-some (some e) h = (e, refl, some-inj h)

  pub SameLog-refl : (rf : Raft C) → SameLog rf rf
  SameLog-refl rf = record { log = refl; base = refl; term = refl }

  pub SameLog-trans : {a b c : Raft C} → SameLog a b → SameLog b c → SameLog a c
  SameLog-trans p q = record { log = q.log ∙ p.log; base = q.base ∙ p.base; term = q.term ∙ p.term }

  pub SameLog-LogOk :
      (book : Book C) (rf rf' : Raft C) → SameLog rf rf' → LogOk book rf → LogOk book rf'
  unfolding entry_at
  SameLog-LogOk book rf rf' s ok = record {
    size = omega (arith, ap length s.log, ok.size);
    base_term = rw (s.log, s.base, s.term) ok.base_term;
    place = rw (s.base, s.term) ok.place;
    chained = λ k e lt here.
        let same = λ (j : ℕ). entry_at-same rf rf' j s.log s.base in
        let (base, up_to) = ok.chained k e (omega (arith, s.base)) (sym (same k) ∙ here) in
        (rw (s.base, s.term) base, λ j a b. same j ∙ up_to j (omega (arith, s.base)) b);
  }

  pub SameLog-Exact :
      (book : Book C) (t : ℕ) (rf rf' : Raft C)
      → SameLog rf rf'
      → Exact book t rf
      → Exact book t rf'
  SameLog-Exact book t rf rf' s ex = (
    rw (s.base, s.term) ex.0,
    λ j a. entry_at-same rf rf' j s.log s.base ∙ ex.1 j (omega (arith, s.base)),
  )

  -- Where a log follows a page, so does what is left of it.
  Cuts-Follows :
      (book : Book C) (t n : ℕ) (rf rf' : Raft C)
      → Cuts rf rf'
      → rf'.last_included_index ≤ n
      → Follows book t rf n
      → Follows book t rf' n
  Cuts-Follows book t n rf rf' c le (base, up_to) = (
    ap term_of (sym (up_to rf'.last_included_index c.later le)) ∙ c.had,
    λ j a b. c.behind j a ∙ up_to j (omega (arith, c.later)) b,
  )

  pub Cuts-Exact :
      (book : Book C) (t : ℕ) (rf rf' : Raft C) → Cuts rf rf' → Exact book t rf → Exact book t rf'
  Cuts-Exact book t rf rf' c (base, all) = (
    ap term_of (sym (all rf'.last_included_index c.later)) ∙ c.had,
    λ j a. c.behind j a ∙ all j (omega (arith, c.later)),
  )

  pub Cuts-LogOk : (book : Book C) (rf rf' : Raft C) → Cuts rf rf' → LogOk book rf → LogOk book rf'
  Cuts-LogOk book rf rf' c ok =
      let (e, here, of_term) = term_of-some (entry_at rf rf'.last_included_index) c.had in
      let (base, up_to) = ok.chained rf'.last_included_index e c.later here in
      record {
        size = c.size;
        base_term = c.has;
        place =
            subst (λ t. term_of (book t rf'.last_included_index) ≡ some t) of_term
              (ap term_of (sym (up_to rf'.last_included_index c.later (omega arith)) ∙ here));
        chained = λ k e lt there.
            Cuts-Follows book e.term k rf rf' c (omega arith)
              (ok.chained k e (omega (arith, c.later)) (sym (c.behind k lt) ∙ there));
      }

  pub Extends-term :
      (book book' : Book C)
      → Extends book book'
      → (t k u : ℕ) → term_of (book t k) ≡ some u
      → term_of (book' t k) ≡ some u
  Extends-term book book' ext t k u h =
      let (e, here, _) = term_of-some (book t k) h in
      ap term_of (ext t k e here k (omega arith)) ∙ h

  pub Extends-LogOk :
      (book book' : Book C) (rf : Raft C) → Extends book book' → LogOk book rf → LogOk book' rf
  Extends-LogOk book book' rf ext ok = record {
    size = ok.size;
    base_term = ok.base_term;
    place =
        Extends-term book book' ext rf.last_included_term rf.last_included_index
          rf.last_included_term ok.place;
    chained = λ k e lt here.
        let (base, up_to) = ok.chained k e lt here in
        (
          Extends-term book book' ext e.term rf.last_included_index rf.last_included_term base,
          λ j a b. up_to j a b ∙ sym (ext e.term k e (sym (up_to k lt (omega arith)) ∙ here) j b),
        );
  }

  -- The page of a term, up to an index whose entry has the term `u`, is the page of `u`.
  pub Chain-term :
      (book : Book C)
      → Chain book
      → (t k u : ℕ) → term_of (book t k) ≡ some u
      → (j : ℕ) → j ≤ k
      → book t j ≡ book u j
  Chain-term book ch t k u h j le =
      let (e, here, of_term) = term_of-some (book t k) h in
      ch t k e here j le ∙ ap (λ v. book v j) of_term
