-- ===== src/Raft/Append/Written.antt =====
-- Rules 3 and 4 of `AppendEntries`, raft1/raft.go: the exact log that the loop leaves.
use mit_6_824_distributed_sy.Prelude.{
  ℕ, zero, suc, ◌+◌, ◌≤◌, ◌<◌, ◌≡◌, ◌≢◌, refl, sym, ◌∙◌, ap, subst, Bool, true, some, ◌⊎◌, inl, inr,
  List, [], ◌∷◌, ◌++◌, append-snoc, append_nil, arith, if◌then◌else◌, ◌==◌, ==_iff, Option-cases,
  Bool-cases, length, get_elem?, get_elem?-none, get_elem?-some, take, drop, length-append,
  length-take, some-inj,
}
use native.Mathlib.Nat.{add-zero}
use mit_6_824_distributed_sy.Raft.State.{LogEntry}
use mit_6_824_distributed_sy.Raft.Append.{store_entry, store_entries}
use mit_6_824_distributed_sy.Raft.Append.Store.{term_of, term_at, Agrees}

module _ {C : Type 0} where
  -- Every new entry with a number below `n` agrees with the log.
  abbrev pub AgreesFirst : ℕ → List (LogEntry C) → ℕ → List (LogEntry C) → Type 0
  AgreesFirst n log rel entries =
      (i : ℕ) (e : LogEntry C) → i < n → get_elem? entries i ≡ some e → Agrees log (rel + i) e

  -- The new entry with the number `i` is the first that does not agree with the log, which has an
  -- entry of another term or none at its index.
  pub record FirstConflict (i : ℕ) (log : List (LogEntry C)) (rel : ℕ) (entries : List (LogEntry C))
      : Type 0 where
    pub is_new : i < length entries
    pub agrees : AgreesFirst i log rel entries
    pub conflicts :
        (e : LogEntry C) → get_elem? entries i ≡ some e → term_at log (rel + i) ≢ some e.term

  -- The log is the old one if every new entry agrees with it. If not, it is the old one cut off at
  -- the first entry that does not, with this entry and all after it appended.
  abbrev pub Written : List (LogEntry C) → ℕ → List (LogEntry C) → List (LogEntry C) → Type 0
  Written log rel entries log' =
      (AgreesFirst (length entries) log rel entries × (log' ≡ log))
      ⊎ ((i : ℕ) × FirstConflict i log rel entries × (log' ≡ take (rel + i) log ++ drop i entries))

  take_all : (n : ℕ) (log : List (LogEntry C)) → length log ≤ n → take n log ≡ log
  take_all zero [] h = refl
  take_all (suc n) [] h = refl
  take_all zero (e ∷ log) h = absurd (omega (arith, h))
  take_all (suc n) (e ∷ log) h = ap (◌∷◌ e) (take_all n log (omega (arith, h)))

  -- One entry: the log has it, or is cut off at it.
  store_entry-Written :
      (log : List (LogEntry C)) (rel : ℕ) (entry : LogEntry C)
      → rel ≤ length log
      → (Agrees log rel entry × ((store_entry log rel entry).0 ≡ log))
        ⊎ ((term_at log rel ≢ some entry.term)
            × ((store_entry log rel entry).0 ≡ take rel log ++ entry ∷ []))
  unfolding store_entry
  store_entry-Written log rel entry h = elim (Option-cases (get_elem? log rel)) [
    | inl absent ↦ inr (
      λ e. cc (e, absent),
      rw (absent, store_entry)
          (ap (λ l. l ++ entry ∷ []) (sym (take_all rel log (get_elem?-none log rel absent)))),
    )
    | inr (old, present) ↦ elim (Bool-cases (old.term == entry.term)) [
      | inl same ↦ inl (
        ap term_of present ∙ ap some ((==_iff old.term entry.term).0 same),
        rw (present, same, store_entry) refl,
      )
      | inr differs ↦ inr (
        λ e. ground (arith, e, ap term_of present, differs),
        rw (present, differs, store_entry) refl,
      )
    ]
  ]

  store_entry-end :
      (log : List (LogEntry C)) (rel : ℕ) (e : LogEntry C)
      → length log ≡ rel
      → (store_entry log rel e).0 ≡ log ++ e ∷ []
  unfolding store_entry
  store_entry-end log rel e h = elim (Option-cases (get_elem? log rel)) [
    | inl absent ↦ rw (absent, store_entry) refl
    | inr (old, present) ↦ absurd (omega (arith, h, get_elem?-some log rel present))
  ]

  Agrees-inside :
      (log : List (LogEntry C)) (i : ℕ) (e : LogEntry C) → Agrees log i e → i < length log
  Agrees-inside [] i e h = cc
  Agrees-inside (x ∷ log) zero e h = omega arith
  Agrees-inside (x ∷ log) (suc i) e h = omega (arith, Agrees-inside log i e h)

  -- Behind the end of the log, the loop appends.
  store_entries-end :
      (log : List (LogEntry C)) (rel : ℕ) (entries : List (LogEntry C)) (has_new : Bool)
      → length log ≡ rel
      → (store_entries log rel entries has_new).0 ≡ log ++ entries
  unfolding store_entries
  store_entries-end log rel [] has_new h = sym (append_nil log)
  store_entries-end log rel (e ∷ entries) has_new h =
      let stored : (store_entry log rel e).0 ≡ log ++ e ∷ [] = store_entry-end log rel e h in
      let log1 = (store_entry log rel e).0 in
      let flag = if (store_entry log rel e).1 then true else has_new in
      store_entries-end log1 (rel + 1) entries flag
        (omega (arith, ap length stored, length-append log (e ∷ [])))
      ∙ ap (λ l. l ++ entries) stored
      ∙ append-snoc log entries e

  -- The numbers of the entries shift by one behind an entry that agrees.
  cons-AgreesFirst :
      (n : ℕ) (log : List (LogEntry C)) (rel : ℕ) (entry : LogEntry C) (entries : List (LogEntry C))
      → Agrees log rel entry
      → AgreesFirst n log (rel + 1) entries
      → AgreesFirst (suc n) log rel (entry ∷ entries)
  cons-AgreesFirst n log rel entry entries a all zero e lt h = rw (add-zero rel, ← some-inj h) a
  cons-AgreesFirst n log rel entry entries a all (suc i) e lt h =
      subst (λ k. Agrees log k e) (omega arith) (all i e (omega (arith, lt)) h)

  cons-Written :
      (log : List (LogEntry C)) (rel : ℕ) (entry : LogEntry C) (entries log' : List (LogEntry C))
      → Agrees log rel entry
      → Written log (rel + 1) entries log'
      → Written log rel (entry ∷ entries) log'
  cons-Written log rel entry entries log' a (inl (all, same)) =
      inl (cons-AgreesFirst (length entries) log rel entry entries a all, same)
  cons-Written log rel entry entries log' a (inr (i, c, cut)) =
      let shifted : rel + 1 + i ≡ rel + suc i = omega arith in
      inr (
        suc i,
        record {
          is_new = omega (arith, c.is_new);
          agrees = cons-AgreesFirst i log rel entry entries a c.agrees;
          conflicts = λ e h. subst (λ k. term_at log k ≢ some e.term) shifted (c.conflicts e h);
        },
        cut ∙ ap (λ k. take k log ++ drop i entries) shifted,
      )

  pub store_entries-Written :
      (log : List (LogEntry C)) (rel : ℕ) (entries : List (LogEntry C)) (has_new : Bool)
      → rel ≤ length log
      → Written log rel entries (store_entries log rel entries has_new).0
  unfolding store_entries
  store_entries-Written log rel [] has_new h = inl (λ i e lt q. absurd (omega (arith, lt)), refl)
  store_entries-Written log rel (entry ∷ entries) has_new h =
      let log1 = (store_entry log rel entry).0 in
      let flag = if (store_entry log rel entry).1 then true else has_new in
      let log' = (store_entries log1 (rel + 1) entries flag).0 in
      elim (store_entry-Written log rel entry h) [
        | inl (a, same) ↦
            let inside : rel < length log = Agrees-inside log rel entry a in
            cons-Written log rel entry entries log' a (
              subst (λ l. Written l (rel + 1) entries log') same
                (store_entries-Written log1 (rel + 1) entries flag
                  (omega (arith, ap length same, inside))))
        | inr (other, cut) ↦ inr (
          0,
          record {
            is_new = omega arith;
            agrees = λ i e lt q. absurd (omega (arith, lt));
            conflicts = λ e q. rw (add-zero rel, ← some-inj q) other;
          },
          store_entries-end log1 (rel + 1) entries flag (
                omega (
                  arith,
                  ap length cut,
                  length-append (take rel log) (entry ∷ []),
                  length-take rel log,
                  h,
                ))
              ∙ ap (λ l. l ++ entries) cut
              ∙ append-snoc (take rel log) entries entry
              ∙ ap (λ k. take k log ++ entry ∷ entries) (sym (add-zero rel)),
        )
      ]
