-- ===== src/Raft/Append/Store.antt =====
-- Rules 3 and 4 of `AppendEntries`, raft1/raft.go: what the loop over the new entries does to a log.
use mit_6_824_distributed_sy.Prelude.{
  ℕ, zero, suc, ◌+◌, ◌≤◌, ◌<◌, ◌≡◌, refl, ◌∙◌, ap, Bool, true, Option, none, some, List, [], ◌∷◌,
  ◌++◌, inl, inr, arith, if◌then◌else◌, ◌==◌, ==_iff, Option-cases, Bool-cases, length, get_elem?,
  take, length-append, length-take, get_elem?-append_left, get_elem?-append_right, get_elem?-take,
  get_elem?-some, get_elem?-none, some-inj, subst, dec_lt,
}
use native.Mathlib.Nat.{add-zero}
use mit_6_824_distributed_sy.Raft.State.{LogEntry}
use mit_6_824_distributed_sy.Raft.Append.{store_entry, store_entries}

module _ {C : Type 0} where
  -- The term of the entry at a relative index.
  abbrev pub term_of : Option (LogEntry C) → Option ℕ
  term_of none = none
  term_of (some e) = some e.term

  abbrev pub term_at : List (LogEntry C) → ℕ → Option ℕ
  term_at log i = term_of (get_elem? log i)

  -- The log agrees with an entry that is to go to an index: it has one of that term there.
  abbrev pub Agrees : List (LogEntry C) → ℕ → LogEntry C → Type 0
  Agrees log i e = term_at log i ≡ some e.term

  get-appended :
      (xs : List (LogEntry C)) (e : LogEntry C) (i : ℕ)
      → i ≡ length xs
      → get_elem? (xs ++ e ∷ []) i ≡ some e
  get-appended xs e i h =
      ap (get_elem? (xs ++ e ∷ [])) (omega arith) ∙ get_elem?-append_right xs (e ∷ []) 0

  -- The two ways in which one entry is stored.
  record Stored (log : List (LogEntry C)) (rel : ℕ) (entry : LogEntry C) (log' : List (LogEntry C))
      : Type 0 where
    agrees : Agrees log' rel entry
    long : rel < length log'
    below : (j : ℕ) → j < rel → get_elem? log' j ≡ get_elem? log j
    kept : Agrees log rel entry → log' ≡ log

  store_entry-Stored :
      (log : List (LogEntry C)) (rel : ℕ) (entry : LogEntry C)
      → rel ≤ length log
      → Stored log rel entry (store_entry log rel entry).0
  unfolding store_entry
  store_entry-Stored log rel entry h = elim (Option-cases (get_elem? log rel)) [
    | inl absent ↦
        let end = get_elem?-none log rel absent in
        let here = get-appended log entry rel (omega arith) in
        rw (absent, store_entry)
          (record {
            agrees = ap term_of here;
            long = omega (arith, length-append log (entry ∷ []));
            below = λ j lt. get_elem?-append_left log (entry ∷ []) j (omega arith);
            kept = λ a. cc (a, absent);
          })
    | inr (old, present) ↦ elim (Bool-cases (old.term == entry.term)) [
      | inl same ↦
          rw (present, same, store_entry)
            (record {
              agrees = ap term_of present ∙ ap some ((==_iff old.term entry.term).0 same);
              long = get_elem?-some log rel present;
              below = λ j lt. refl;
              kept = λ a. refl;
            })
      | inr differs ↦
          let lt = get_elem?-some log rel present in
          let size = length-take rel log in
          let here = get-appended (take rel log) entry rel (omega arith) in
          rw (present, differs, store_entry)
            (record {
              agrees = ap term_of here;
              long = omega (arith, length-append (take rel log) (entry ∷ []));
              below = λ j lt.
                  get_elem?-append_left (take rel log) (entry ∷ []) j (omega arith)
                  ∙ get_elem?-take rel log j lt;
              kept = λ a. absurd (ground (arith, a, present, differs));
            })
    ]
  ]

  -- Every new entry below the index `c` agrees with the log.
  abbrev pub AgreesBelow : ℕ → List (LogEntry C) → ℕ → List (LogEntry C) → Type 0
  AgreesBelow c log rel entries =
      (i : ℕ) (e : LogEntry C) → get_elem? entries i ≡ some e → rel + i < c → Agrees log (rel + i) e

  pub record StoredAll (log : List (LogEntry C)) (rel : ℕ) (entries : List (LogEntry C))
      (log' : List (LogEntry C)) : Type 0 where
    pub agrees : (i : ℕ) (e : LogEntry C) → get_elem? entries i ≡ some e → Agrees log' (rel + i) e
    pub long : rel + length entries ≤ length log'
    pub kept :
        (c : ℕ)
        → c ≤ length log
        → AgreesBelow c log rel entries
        → (j : ℕ) → j < c
        → get_elem? log' j ≡ get_elem? log j

  module _ (log : List (LogEntry C)) (rel : ℕ) (entry : LogEntry C)
      (entries log' : List (LogEntry C)) (fits : rel ≤ length log)
      (ih : StoredAll (store_entry log rel entry).0 (rel + 1) entries log') where
    one : Stored log rel entry (store_entry log rel entry).0
    one = store_entry-Stored log rel entry fits

    cons-Agrees :
        (i : ℕ) (e : LogEntry C) → get_elem? (entry ∷ entries) i ≡ some e → Agrees log' (rel + i) e
    cons-Agrees zero e h =
        let first =
          ih.kept (rel + 1) (omega (arith, one.long)) (λ i e h lt. absurd (omega arith)) rel
            (omega arith) in
        rw (add-zero rel)
          (ap term_of first ∙ one.agrees ∙ ap (λ (x : LogEntry C). some x.term) (some-inj h))
    cons-Agrees (suc i) e h = subst (λ k. Agrees log' k e) (omega arith) (ih.agrees i e h)

    cons-kept :
        (c : ℕ)
        → c ≤ length log
        → AgreesBelow c log rel (entry ∷ entries)
        → (j : ℕ) → j < c
        → get_elem? log' j ≡ get_elem? log j
    cons-kept c size ok j lt = elim (dec_lt rel c) [
      | yes inside ↦
          let same =
            one.kept
              (subst (λ k. Agrees log k entry) (omega arith) (ok 0 entry refl (omega arith))) in
          ih.kept c (rw same size)
            (λ i e h lt.
              rw same (subst (λ k. Agrees log k e) (omega arith) (ok (suc i) e h (omega arith))))
            j lt
          ∙ ap (λ (l : List (LogEntry C)). get_elem? l j) same
      | no outside ↦
          ih.kept c (omega (arith, one.long)) (λ i e h lt. absurd (omega arith)) j lt
          ∙ one.below j (omega arith)
    ]

  -- The log that the loop leaves holds every new entry, or one of its term, at its index; and up to
  -- any index below which no new entry conflicts, it is the log from before.
  pub store_entries-StoredAll :
      (log : List (LogEntry C)) (rel : ℕ) (entries : List (LogEntry C)) (has_new : Bool)
      → rel ≤ length log
      → StoredAll log rel entries (store_entries log rel entries has_new).0
  unfolding store_entries
  store_entries-StoredAll log rel [] has_new h = record {
    agrees = λ i e q. cc;
    long = omega arith;
    kept = λ c size ok j lt. refl;
  }
  store_entries-StoredAll log rel (entry ∷ entries) has_new h =
      let (log1, new) = store_entry log rel entry in
      let flag = if new then true else has_new in
      let ih =
        store_entries-StoredAll log1 (rel + 1) entries flag
          (omega (arith, (store_entry-Stored log rel entry h).long)) in
      let log' = (store_entries log1 (rel + 1) entries flag).0 in
      record {
        agrees = cons-Agrees log rel entry entries log' h ih;
        long = omega (arith, ih.long);
        kept = cons-kept log rel entry entries log' h ih;
      }
