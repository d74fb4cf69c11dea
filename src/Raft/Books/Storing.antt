-- ===== src/Raft/Books/Storing.antt =====
-- Rules 3 and 4 of `AppendEntries`, raft1/raft.go, for entries that stand on a page of the book.
use mit_6_824_distributed_sy.Prelude.{
  ℕ, suc, ◌+◌, ◌≤◌, ◌<◌, ◌≡◌, refl, sym, ◌∙◌, ap, Option, some, none, ◌⊎◌, inl, inr, arith, length,
  Bool, true, if◌then◌else◌, ◌==◌, ==_iff, List, [], ◌∷◌, ◌++◌, take, get_elem?, Option-cases,
  Bool-cases, subst, length-append, length-take, get_elem?-append_left, get_elem?-append_right,
  get_elem?-take, get_elem?-none, get_elem?-some, ℕ_discrete,
}
use mit_6_824_distributed_sy.Raft.State.{LogEntry}
use mit_6_824_distributed_sy.Raft.Append.{store_entry, store_entries}

module _ {C : Type 0} where
  -- The log is `f` from the relative index 1 on, up to `n`.
  abbrev pub Tracks : (ℕ → Option (LogEntry C)) → List (LogEntry C) → ℕ → Type 0
  Tracks f log n = (j : ℕ) → 0 < j → j < n → get_elem? log j ≡ f j

  -- It is, to its end, with the old entry at the front.
  pub record Replaced (f : ℕ → Option (LogEntry C)) (old log : List (LogEntry C)) : Type 0 where
    pub size : 0 < length log
    pub front : get_elem? log 0 ≡ get_elem? old 0
    pub tracks : Tracks f log (length log)

  -- An entry of the log of the term of one on the page is that one.
  abbrev pub Meets : (ℕ → Option (LogEntry C)) → List (LogEntry C) → Type 0
  Meets f log =
      (k : ℕ) (e old : LogEntry C)
      → 0 < k
      → f k ≡ some e
      → get_elem? log k ≡ some old
      → old.term ≡ e.term
      → get_elem? log k ≡ f k

  snoc-Replaced :
      (f : ℕ → Option (LogEntry C)) (old xs : List (LogEntry C)) (e : LogEntry C)
      → 0 < length xs
      → get_elem? xs 0 ≡ get_elem? old 0
      → Tracks f xs (length xs)
      → f (length xs) ≡ some e
      → Replaced f old (xs ++ e ∷ [])
  snoc-Replaced f old xs e size front tracks here =
      let long = length-append xs (e ∷ []) in
      record {
        size = omega (arith, long);
        front = get_elem?-append_left xs (e ∷ []) 0 size ∙ front;
        tracks = λ j a b. elim (ℕ_discrete j (length xs)) [
          | yes last ↦
              let right = get_elem?-append_right xs (e ∷ []) 0 in
              rw last (ap (get_elem? (xs ++ e ∷ [])) (omega arith) ∙ right ∙ sym here)
          | no before ↦
              get_elem?-append_left xs (e ∷ []) j (omega (arith, long))
              ∙ tracks j a (omega (arith, long))
        ];
      }

  module _ (f : ℕ → Option (LogEntry C)) (log : List (LogEntry C)) (meets : Meets f log) where
    -- One entry, at a place up to which the log is the page.
    store_entry-Replaced :
        (rel : ℕ) (entry : LogEntry C)
        → 0 < rel
        → rel ≤ length log
        → Tracks f log rel
        → f rel ≡ some entry
        → (((store_entry log rel entry).0 ≡ log) × Tracks f log (rel + 1) × (rel + 1 ≤ length log))
          ⊎ (Replaced f log (store_entry log rel entry).0
              × (length (store_entry log rel entry).0 ≡ rel + 1))
    unfolding store_entry
    store_entry-Replaced rel entry pos fits tracks here = elim (Option-cases (get_elem? log rel)) [
      | inl absent ↦
          let len : length log ≡ rel = omega (arith, get_elem?-none log rel absent) in
          rw (absent, store_entry)
            (inr (
              snoc-Replaced f log log entry (omega arith) refl (λ j a b. tracks j a (omega arith))
                  (ap f len ∙ here),
              omega (arith, length-append log (entry ∷ [])),
            ))
      | inr (old, present) ↦ elim (Bool-cases (old.term == entry.term)) [
        | inl same ↦
            rw (present, same, store_entry)
              (inl (
                refl,
                λ j a b. elim (ℕ_discrete j rel) [
                  | yes e ↦
                      rw e
                        (meets rel entry old pos here present ((==_iff old.term entry.term).0 same))
                  | no ne ↦ tracks j a (omega arith)
                ],
                omega (arith, get_elem?-some log rel present),
              ))
        | inr differs ↦
            let size = length-take rel log in
            let len : length (take rel log) ≡ rel = omega arith in
            rw (present, differs, store_entry)
              (inr (
                snoc-Replaced f log (take rel log) entry (omega arith)
                    (get_elem?-take rel log 0 pos)
                    (λ j a b. get_elem?-take rel log j (omega arith) ∙ tracks j a (omega arith))
                    (ap f len ∙ here),
                omega (arith, length-append (take rel log) (entry ∷ [])),
              ))
      ]
    ]

  -- Entries that go on where the log ends.
  store_entries-end :
      (f : ℕ → Option (LogEntry C)) (old log : List (LogEntry C)) (rel : ℕ)
      (entries : List (LogEntry C)) (has_new : Bool)
      → length log ≡ rel
      → Replaced f old log
      → ((i : ℕ) (e : LogEntry C) → get_elem? entries i ≡ some e → f (rel + i) ≡ some e)
      → Replaced f old (store_entries log rel entries has_new).0
  unfolding store_entries store_entry
  store_entries-end f old log rel [] has_new len r on = r
  store_entries-end f old log rel (entry ∷ entries) has_new len r on =
      let absent : get_elem? log rel ≡ none = past log rel (omega arith) in
      let here : f (length log) ≡ some entry = ap f (omega arith) ∙ on 0 entry refl in
      rw (absent, store_entry, store_entries)
        (store_entries-end f old (log ++ entry ∷ []) (rel + 1) entries true
          (omega (arith, length-append log (entry ∷ [])))
          (snoc-Replaced f old log entry r.size r.front r.tracks here)
          (λ i e h. ap f (omega arith) ∙ on (suc i) e h))
    where
      past : (xs : List (LogEntry C)) (i : ℕ) → length xs ≤ i → get_elem? xs i ≡ none
      past xs i h = elim (Option-cases (get_elem? xs i)) [
        | inl e ↦ e
        | inr (a, e) ↦ absurd (omega (arith, get_elem?-some xs i e))
      ]

  -- The loop leaves the log alone or makes the page of it.
  pub store_entries-Replaced :
      (f : ℕ → Option (LogEntry C)) (log : List (LogEntry C)) (rel : ℕ)
      (entries : List (LogEntry C)) (has_new : Bool)
      → Meets f log
      → 0 < rel
      → rel ≤ length log
      → Tracks f log rel
      → ((i : ℕ) (e : LogEntry C) → get_elem? entries i ≡ some e → f (rel + i) ≡ some e)
      → ((store_entries log rel entries has_new).0 ≡ log)
        ⊎ Replaced f log (store_entries log rel entries has_new).0
  unfolding store_entries
  store_entries-Replaced f log rel [] has_new m pos fits tracks on = inl refl
  store_entries-Replaced f log rel (entry ∷ entries) has_new m pos fits tracks on =
      let flag = if (store_entry log rel entry).1 then true else has_new in
      let log1 = (store_entry log rel entry).0 in
      let here : f rel ≡ some entry = ap f (omega arith) ∙ on 0 entry refl in
      let rest : (i : ℕ) (e : LogEntry C)
          → get_elem? entries i ≡ some e
          → f (rel + 1 + i) ≡ some e =
        λ i e h. ap f (omega arith) ∙ on (suc i) e h in
      elim (store_entry-Replaced f log m rel entry pos fits tracks here) [
        | inl (same, further, fits') ↦
            subst
              (λ l.
                ((store_entries l (rel + 1) entries flag).0 ≡ log)
                ⊎ Replaced f log (store_entries l (rel + 1) entries flag).0)
              (sym same)
              (store_entries-Replaced f log (rel + 1) entries flag m (omega arith) fits' further
                rest)
        | inr (replaced, len) ↦
            inr (store_entries-end f log log1 (rel + 1) entries flag len replaced rest)
      ]
