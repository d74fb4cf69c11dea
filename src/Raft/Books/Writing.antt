-- ===== src/Raft/Books/Writing.antt =====
-- The book of the leaders of raft1/raft.go, where a leader's log is written into it.
use mit_6_824_distributed_sy.Prelude.{
  ℕ, ◌≤◌, ◌<◌, ◌≡◌, ◌≢◌, sym, ◌∙◌, ap, Option, some, ◌⊎◌, inl, inr, arith, length, true, ◌&&◌,
  if◌then◌else◌, leb, ◌==◌, dec_le, subst, ℕ_discrete,
}
use mit_6_824_distributed_sy.Raft.State.{Role, Raft, LogEntry, entry_at, is_leader}
use mit_6_824_distributed_sy.Raft.Append.Store.{term_of}
use mit_6_824_distributed_sy.Raft.Append.Entries.{term_in}
use mit_6_824_distributed_sy.Raft.Books.{
  Book, Chain, Extends, IsPlace, SameBase, Follows, Exact, LogOk, Chain-term, Extends-term,
}

module _ {C : Type 0} where
  -- A peer's log as a page: what it has compacted away is that of its snapshot's term.
  abbrev pub page : Book C → Raft C → ℕ → Option (LogEntry C)
  page book rf j =
      if leb j rf.last_included_index then book rf.last_included_term j else entry_at rf j

  -- The book after a step of a peer: a leader's log is the page of its term.
  abbrev pub written : Book C → Raft C → Book C
  written book rf t j =
      if is_leader rf.role && (rf.current_term == t) then page book rf j else book t j

  -- What holds after a peer's step, of the book with its log written into it.
  pub record Writes (book book' : Book C) (rf : Raft C) : Type 0 where
    pub chain : Chain book'
    pub extends : Extends book book'
    pub log : LogOk book' rf
    pub leads : rf.role ≡ Role.leader → Exact book' rf.current_term rf

  abbrev pub Written : Book C → Raft C → Type 0
  Written book rf = Writes book (written book rf) rf

  pub page-low :
      (book : Book C) (rf : Raft C) (j : ℕ)
      → j ≤ rf.last_included_index
      → page book rf j ≡ book rf.last_included_term j
  page-low book rf j h = ground arith

  pub page-high :
      (book : Book C) (rf : Raft C) (j : ℕ)
      → rf.last_included_index < j
      → page book rf j ≡ entry_at rf j
  page-high book rf j h = ground arith

  -- A log that is its page already writes nothing new.
  pub Exact-page :
      (book : Book C) (rf : Raft C)
      → Chain book
      → Exact book rf.current_term rf
      → (j : ℕ) → page book rf j ≡ book rf.current_term j
  Exact-page book rf ch (base, all) j = elim (dec_le j rf.last_included_index) [
    | yes low ↦
        page-low book rf j low
        ∙ sym (
            Chain-term book ch rf.current_term rf.last_included_index rf.last_included_term base j
              low)
    | no high ↦ page-high book rf j (omega arith) ∙ all j (omega arith)
  ]

  pub Exact-written :
      (book : Book C) (rf : Raft C)
      → Chain book
      → Exact book rf.current_term rf
      → written book rf ≡ book
  Exact-written book rf ch ex = λ i t j. go t j i
    where
      go : (t j : ℕ) → written book rf t j ≡ book t j
      go t j = ground (arith, Exact-page book rf ch ex j)

  module _ (book : Book C) (rf : Raft C) (lead : is_leader rf.role ≡ true) (ch : Chain book)
      (size : 0 < length rf.log)
      (base_term : term_in rf rf.last_included_index ≡ some rf.last_included_term)
      (place : IsPlace book rf.last_included_term rf.last_included_index)
      (entries : (k : ℕ) (e : LogEntry C)
        → rf.last_included_index < k
        → entry_at rf k ≡ some e
        → (e.term ≡ rf.current_term) ⊎ Follows book e.term rf k)
      (grows : (k : ℕ) (e : LogEntry C)
        → book rf.current_term k ≡ some e
        → (j : ℕ) → j ≤ k
        → page book rf j ≡ book rf.current_term j) where
    written_here : (j : ℕ) → written book rf rf.current_term j ≡ page book rf j
    written_here j = ground (arith, lead)

    written_there : (t j : ℕ) → rf.current_term ≢ t → written book rf t j ≡ book t j
    written_there t j ne = ground (arith, ne)

    pub written-Extends : Extends book (written book rf)
    written-Extends t k e h j le = elim (ℕ_discrete rf.current_term t) [
      | yes here ↦
          subst (λ u. written book rf u j ≡ book u j) here
            (written_here j ∙ grows k e (subst (λ u. book u k ≡ some e) (sym here) h) j le)
      | no there ↦ written_there t j there
    ]

    -- Below the snapshot, a page that agrees with it there is that of the snapshot's term.
    below-base :
        (t : ℕ)
        → SameBase book t rf
        → (j : ℕ) → j ≤ rf.last_included_index
        → page book rf j ≡ book t j
    below-base t same j low =
        page-low book rf j low
        ∙ sym (Chain-term book ch t rf.last_included_index rf.last_included_term same j low)

    Follows-page : (t k : ℕ) → Follows book t rf k → (j : ℕ) → j ≤ k → page book rf j ≡ book t j
    Follows-page t k (same, up_to) j le = elim (dec_le j rf.last_included_index) [
      | yes low ↦ below-base t same j low
      | no high ↦ page-high book rf j (omega arith) ∙ up_to j (omega arith) le
    ]

    page-Chain :
        (k : ℕ) (e : LogEntry C)
        → page book rf k ≡ some e
        → (j : ℕ) → j ≤ k
        → page book rf j ≡ written book rf e.term j
    page-Chain k e h j le = elim (dec_le k rf.last_included_index) [
      | yes low ↦
          let old : book rf.last_included_term k ≡ some e = sym (page-low book rf k low) ∙ h in
          let own = ch rf.last_included_term k e old in
          page-low book rf j (omega arith)
          ∙ own j le
          ∙ sym (written-Extends e.term k e (sym (own k (omega arith)) ∙ old) j le)
      | no high ↦
          let here : entry_at rf k ≡ some e = sym (page-high book rf k (omega arith)) ∙ h in
          elim (entries k e (omega arith) here) [
            | inl own ↦ rw own (sym (written_here j))
            | inr follows ↦
                let same = Follows-page e.term k follows in
                same j le ∙ sym (written-Extends e.term k e (sym (same k (omega arith)) ∙ h) j le)
          ]
    ]

    pub written-Chain : Chain (written book rf)
    written-Chain t k e h j le = elim (ℕ_discrete rf.current_term t) [
      | yes here ↦
          subst (λ u. written book rf u j ≡ written book rf e.term j) here
            (written_here j
              ∙ page-Chain k e
                  (sym (written_here k) ∙ subst (λ u. written book rf u k ≡ some e) (sym here) h) j
                  le)
      | no there ↦
          let old : book t k ≡ some e = sym (written_there t k there) ∙ h in
          written_there t j there
          ∙ ch t k e old j le
          ∙ sym (written-Extends e.term k e (sym (ch t k e old k (omega arith)) ∙ old) j le)
    ]

    pub written-Exact : Exact (written book rf) rf.current_term rf
    written-Exact = (
      ap term_of (
            written_here rf.last_included_index
            ∙ page-low book rf rf.last_included_index (omega arith))
          ∙ place,
      λ j a. sym (page-high book rf j a) ∙ sym (written_here j),
    )

    pub written-LogOk : LogOk (written book rf) rf
    written-LogOk = record {
      size = size;
      base_term = base_term;
      place =
          Extends-term book (written book rf) written-Extends rf.last_included_term
            rf.last_included_index rf.last_included_term place;
      chained = λ k e lt here. elim (entries k e lt here) [
        | inl own ↦ rw own (written-Exact.0, λ j a b. written-Exact.1 j a)
        | inr follows ↦
            let same = Follows-page e.term k follows in
            let there : book e.term k ≡ some e =
              sym (same k (omega arith)) ∙ page-high book rf k lt ∙ here in
            (
              Extends-term book (written book rf) written-Extends e.term rf.last_included_index
                  rf.last_included_term follows.0,
              λ j a b. follows.1 j a b ∙ sym (written-Extends e.term k e there j b),
            )
      ];
    }
