-- ===== src/Raft/Books/Adding.antt =====
-- `Start` of raft1/raft.go against the book: a leader's log with one more entry.
use mit_6_824_distributed_sy.Prelude.{
  ℕ, ◌+◌, ◌-◌, ◌≤◌, ◌<◌, ◌≡◌, sym, ◌∙◌, ap, some, ◌⊎◌, inl, inr, arith, length, true, [], ◌∷◌, ◌++◌,
  get_elem?, dec_le, subst, some-inj, length-append, get_elem?-append_left, get_elem?-append_right,
}
use mit_6_824_distributed_sy.Raft.State.{Raft, LogEntry, entry_at, last_log_index, is_leader}
use mit_6_824_distributed_sy.Raft.Append.Store.{term_of}
use mit_6_824_distributed_sy.Raft.Append.Entries.{term_in, entry_at-ge}
use mit_6_824_distributed_sy.Raft.Books.{Book, Chain, IsPlace, Follows, Exact, LogOk}
use mit_6_824_distributed_sy.Raft.Books.Writing.{
  Written, page, written-Extends, written-Chain, written-Exact, written-LogOk, page-low, page-high,
  Exact-page,
}
use mit_6_824_distributed_sy.Raft.Books.Compacting.{entry_at-inside}

module _ {C : Type 0} where
  -- A leader writes one more entry.
  module _ (book : Book C) (rf rf' : Raft C) (ch : Chain book) (ok : LogOk book rf)
      (ex : Exact book rf.current_term rf) (e : LogEntry C) (own : e.term ≡ rf.current_term)
      (lead : is_leader rf'.role ≡ true) (same_term : rf'.current_term ≡ rf.current_term)
      (log : rf'.log ≡ rf.log ++ e ∷ []) (base : rf'.last_included_index ≡ rf.last_included_index)
      (term : rf'.last_included_term ≡ rf.last_included_term) where
    long : length rf'.log ≡ length rf.log + 1
    long = ap length log ∙ length-append rf.log (e ∷ [])

    read :
        (j : ℕ)
        → rf.last_included_index ≤ j
        → entry_at rf' j ≡ get_elem? (rf.log ++ e ∷ []) (j - rf.last_included_index)
    read j le =
        entry_at-ge rf' j (omega (arith, base))
        ∙ ap (λ b. get_elem? rf'.log (j - b)) base
        ∙ ap (λ l. get_elem? l (j - rf.last_included_index)) log

    added_before :
        (j : ℕ)
        → rf.last_included_index ≤ j
        → j ≤ last_log_index rf
        → entry_at rf' j ≡ entry_at rf j
    added_before j low high =
        read j low
        ∙ get_elem?-append_left rf.log (e ∷ []) (j - rf.last_included_index)
            (omega (arith, ok.size))
        ∙ sym (entry_at-ge rf j low)

    added_last : entry_at rf' (last_log_index rf + 1) ≡ some e
    added_last =
        read (last_log_index rf + 1) (omega arith)
        ∙ ap (get_elem? (rf.log ++ e ∷ [])) (omega (arith, ok.size))
        ∙ get_elem?-append_right rf.log (e ∷ []) 0

    added_entries :
        (k : ℕ) (x : LogEntry C)
        → rf'.last_included_index < k
        → entry_at rf' k ≡ some x
        → (x.term ≡ rf'.current_term) ⊎ Follows book x.term rf' k
    added_entries k x lt here =
        let inside = (entry_at-inside rf' k x here).1 in
        elim (dec_le k (last_log_index rf)) [
          | yes old ↦
              let was = sym (added_before k (omega (arith, base)) old) ∙ here in
              let (same, up_to) = ok.chained k x (omega (arith, base)) was in
              inr (
                rw (base, term) same,
                λ j a b.
                    added_before j (omega (arith, base)) (omega arith)
                    ∙ up_to j (omega (arith, base)) b,
              )
          | no new ↦
              let last : last_log_index rf + 1 ≡ k = omega (arith, inside, long, base, ok.size) in
              let is_new : e ≡ x = some-inj (sym added_last ∙ ap (entry_at rf') last ∙ here) in
              inl (ap (λ (y : LogEntry C). y.term) (sym is_new) ∙ own ∙ sym same_term)
        ]

    added_grows :
        (k : ℕ) (x : LogEntry C)
        → book rf'.current_term k ≡ some x
        → (j : ℕ) → j ≤ k
        → page book rf' j ≡ book rf'.current_term j
    added_grows k x h j le =
        let there : book rf.current_term k ≡ some x = subst (λ t. book t k ≡ some x) same_term h in
        subst (λ t. page book rf' j ≡ book t j) (sym same_term)
          (elim (dec_le j rf.last_included_index) [
            | yes low ↦
                page-low book rf' j (omega (arith, base))
                ∙ ap (λ t. book t j) term
                ∙ sym (page-low book rf j low)
                ∙ Exact-page book rf ch ex j
            | no high ↦
                let inside = (entry_at-inside rf k x (ex.1 k (omega arith) ∙ there)).1 in
                page-high book rf' j (omega (arith, base))
                ∙ added_before j (omega arith) (omega (arith, inside))
                ∙ ex.1 j (omega arith)
          ])

    added_base : term_in rf' rf'.last_included_index ≡ some rf'.last_included_term
    added_base =
        ap (term_in rf') base
        ∙ ap term_of (added_before rf.last_included_index (omega arith) (omega arith))
        ∙ ok.base_term
        ∙ ap some (sym term)

    added-IsPlace : IsPlace book rf'.last_included_term rf'.last_included_index
    added-IsPlace = rw (base, term) ok.place

    pub added-Written : Written book rf'
    added-Written =
        let size : 0 < length rf'.log = omega (arith, long) in
        record {
          chain =
              written-Chain book rf' lead ch size added_base added-IsPlace added_entries
                added_grows;
          extends =
              written-Extends book rf' lead ch size added_base added-IsPlace added_entries
                added_grows;
          log =
              written-LogOk book rf' lead ch size added_base added-IsPlace added_entries
                added_grows;
          leads = λ l.
              written-Exact book rf' lead ch size added_base added-IsPlace added_entries
                added_grows;
        }
