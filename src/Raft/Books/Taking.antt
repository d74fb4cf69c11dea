-- ===== src/Raft/Books/Taking.antt =====
-- `AppendEntries` of raft1/raft.go against the book.
use mit_6_824_distributed_sy.Prelude.{
  ℕ, ◌+◌, ◌-◌, ◌≤◌, ◌<◌, ◌≡◌, ◌≢◌, sym, ◌∙◌, ap, Option, some, ◌⊎◌, inl, inr, arith, false,
  get_elem?, Bool-cases, ℕ_discrete, get_elem?-some, some-inj,
}
use mit_6_824_distributed_sy.Raft.State.{Raft, Role, LogEntry, entry_at, is_leader}
use mit_6_824_distributed_sy.Raft.Persist.{Codec}
use mit_6_824_distributed_sy.Raft.Append.{
  AppendEntriesArgs, AppendEntriesReply, enter_term, append_entries,
}
use mit_6_824_distributed_sy.Raft.Append.Store.{term_of}
use mit_6_824_distributed_sy.Raft.Append.Entries.{term_in, entry_at-ge}
use mit_6_824_distributed_sy.Raft.Books.{
  Book, Chain, Follows, LogOk, SameLog-LogOk, SameLog-refl, Chain-term, term_of-some,
}
use mit_6_824_distributed_sy.Raft.Books.Storing.{Replaced, Meets, store_entries-Replaced}
use mit_6_824_distributed_sy.Raft.Books.Handlers.{
  AppendOk, LogMove, keeps, takes, Stores, append_entries-Stores, append_entries-leader,
}

module _ {C : Type 0} where
  -- An entry at a relative index.
  relative : (rf : Raft C) (j : ℕ) → get_elem? rf.log j ≡ entry_at rf (rf.last_included_index + j)
  relative rf j =
      let same : j ≡ rf.last_included_index + j - rf.last_included_index = omega arith in
      ap (get_elem? rf.log) same ∙ sym (entry_at-ge rf (rf.last_included_index + j) (omega arith))

  module _ (book : Book C) (ch : Chain book) (rf rf' : Raft C) (ok : LogOk book rf)
      (args : AppendEntriesArgs C) (call : AppendOk book args) (st : Stores rf rf' args) where
    abbrev base : ℕ
    base = rf.last_included_index

    -- Up to the entry before the new ones, the log is the page of the call's term.
    before-Follows : Follows book args.term rf args.prev_log_index
    before-Follows = elim (ℕ_discrete base args.prev_log_index) [
      | yes at ↦
          let term : args.prev_log_term ≡ rf.last_included_term =
            some-inj (sym st.matched ∙ ap (term_in rf) (sym at) ∙ ok.base_term) in
          (
            ap (λ k. term_of (book args.term k)) at ∙ call.prev ∙ ap some term,
            λ j a b. absurd (omega arith),
          )
      | no apart ↦
          let (e, here, of_term) = term_of-some (entry_at rf args.prev_log_index) st.matched in
          let (same, up_to) = ok.chained args.prev_log_index e (omega (arith, st.low)) here in
          let to_page = λ (j : ℕ) (le : j ≤ args.prev_log_index).
            ap (λ t. book t j) of_term
            ∙ sym (
                Chain-term book ch args.term args.prev_log_index args.prev_log_term call.prev j
                  le) in
          (ap term_of (sym (to_page base st.low)) ∙ same, λ j a b. up_to j a b ∙ to_page j b)
    ]

    abbrev relative_page : ℕ → Option (LogEntry C)
    relative_page j = book args.term (base + j)

    page-Meets : Meets relative_page rf.log
    page-Meets k e old pos there here same =
        let held = sym (relative rf k) ∙ here in
        let follows = ok.chained (base + k) old (omega arith) held in
        relative rf k
        ∙ follows.1 (base + k) (omega arith) (omega arith)
        ∙ ap (λ t. book t (base + k)) same
        ∙ sym (ch args.term (base + k) e there (base + k) (omega arith))

    result : (rf'.log ≡ rf.log) ⊎ Replaced relative_page rf.log rf'.log
    result =
        let rel = args.prev_log_index + 1 - base in
        let page_entry = λ (i : ℕ) (e : LogEntry C) (h : get_elem? args.entries i ≡ some e).
          let place : base + (rel + i) ≡ args.prev_log_index + 1 + i = omega (arith, st.low) in
          ap (book args.term) place ∙ call.on_page i e h in
        rw st.log (
          store_entries-Replaced relative_page rf.log rel args.entries false page-Meets
            (omega (arith, st.low)) (omega (arith, st.low, st.high, ok.size))
            (λ j a b.
              relative rf j ∙ before-Follows.1 (base + j) (omega arith) (omega (arith, st.low)))
            page_entry)

    replaced-LogOk : Replaced relative_page rf.log rf'.log → LogOk book rf'
    replaced-LogOk r =
        let read : (j : ℕ) → base ≤ j → entry_at rf' j ≡ get_elem? rf'.log (j - base) = λ j le.
          entry_at-ge rf' j (omega (arith, st.base))
          ∙ ap (λ b. get_elem? rf'.log (j - b)) st.base in
        let from_page : (j k : ℕ) (e : LogEntry C)
            → base < j
            → j ≤ k
            → entry_at rf' k ≡ some e
            → entry_at rf' j ≡ book args.term j =
          λ j k e a b here.
            let inside = get_elem?-some rf'.log (k - base) (sym (read k (omega arith)) ∙ here) in
            let place : base + (j - base) ≡ j = omega arith in
            read j (omega arith)
            ∙ r.tracks (j - base) (omega arith) (omega arith)
            ∙ ap (book args.term) place in
        let first : base - base ≡ 0 = omega arith in
        record {
          size = r.size;
          base_term =
              ap (term_in rf') st.base
              ∙ ap term_of (
                  read base (omega arith)
                  ∙ ap (get_elem? rf'.log) first
                  ∙ r.front
                  ∙ ap (get_elem? rf.log) (sym first)
                  ∙ sym (entry_at-ge rf base (omega arith)))
              ∙ ok.base_term
              ∙ ap some (sym st.term);
          place = rw (st.base, st.term) ok.place;
          chained = λ k e lt here.
              let above : base < k = omega (arith, st.base, lt) in
              let there = sym (from_page k k e above (omega arith) here) ∙ here in
              let own = ch args.term k e there in
              (
                rw (st.base, st.term)
                    (ap term_of (sym (own base (omega arith))) ∙ before-Follows.0),
                λ j a b. from_page j k e (omega (arith, st.base, a)) b here ∙ own j b,
              );
        }

    pub Stores-LogOk : LogOk book rf'
    Stores-LogOk = elim result [
      | inl same ↦
          SameLog-LogOk book rf rf' (record { log = same; base = st.base; term = st.term }) ok
      | inr r ↦ replaced-LogOk r
    ]

module _ {C : Type 0} (gob : Codec C) (book : Book C) (ch : Chain book) where
  -- A step into another log that makes or leaves no leader, but for one that does nothing.
  pub taken :
      (rf rf' : Raft C) → (rf'.role ≡ Role.leader → rf' ≡ rf) → LogOk book rf' → LogMove book rf rf'
  taken rf rf' still ok = elim (Bool-cases (is_leader rf'.role)) [
    | inl lead ↦ let same = still (ground (arith, lead)) in keeps (rw same (SameLog-refl rf))
    | inr follows ↦ takes ok (λ l. ground (arith, l, follows))
  ]

  pub append_entries-LogMove :
      (rf rf' : Raft C) (args : AppendEntriesArgs C) (now : ℕ) (reply : AppendEntriesReply)
      → append_entries gob rf args now ≡ some (rf', reply)
      → LogOk book rf
      → AppendOk book args
      → (rf'.role ≡ Role.leader → rf.role ≡ Role.leader)
      → (rf.role ≡ Role.leader → args.term ≢ rf.current_term)
      → LogMove book rf rf'
  append_entries-LogMove rf rf' args now reply e ok call old other =
      elim (append_entries-Stores gob rf rf' args now reply e) [
        | inl same ↦ keeps same
        | inr (entered, st) ↦
            let rf1 = enter_term gob rf args.term now in
            taken rf rf'
              (λ l. elim (append_entries-leader gob rf rf' args now reply e (old l) l) [
                | inl same ↦ same
                | inr term ↦ absurd (other (old l) term)
              ])
              (Stores-LogOk book ch rf1 rf' (SameLog-LogOk book rf rf1 entered ok) args call st)
      ]
