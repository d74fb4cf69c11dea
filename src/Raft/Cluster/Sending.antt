-- ===== src/Raft/Cluster/Sending.antt =====
-- What `sendAppendEntriesToPeer` of a leader of raft1/raft.go sends, against the book.
use mit_6_824_distributed_sy.Prelude.{
  ℕ, ◌+◌, ◌-◌, ◌≤◌, ◌≡◌, ◌≢◌, sym, ◌∙◌, ap, subst, Option, some, arith, get_elem?, drop,
  get_elem?-drop, ℕ_discrete,
}
use mit_6_824_distributed_sy.Raft.State.{Raft, Role}
use mit_6_824_distributed_sy.Raft.Append.{AppendEntriesArgs}
use mit_6_824_distributed_sy.Raft.Append.Store.{term_of}
use mit_6_824_distributed_sy.Raft.Append.Entries.{term_in, entry_at-ge}
use mit_6_824_distributed_sy.Raft.Compaction.{InstallSnapshotArgs}
use mit_6_824_distributed_sy.Raft.Leader.{Outgoing, nothing, install, append, make_append}
use mit_6_824_distributed_sy.Raft.Books.{Book, Exact, LogOk, Extends, Extends-term}
use mit_6_824_distributed_sy.Raft.Books.Handlers.{AppendOk, InstallOk}

module _ {C : Type 0} where
  -- A call of the leader of its term, to another peer, that tells no more than the book does.
  abbrev pub PacketOk : Book C → (ℕ → Option ℕ) → ℕ → Outgoing C → Type 0
  PacketOk book owner p nothing = Unit {0}
  PacketOk book owner p (install args) =
      (owner args.term ≡ some args.leader_id) × (p ≢ args.leader_id) × InstallOk book args
  PacketOk book owner p (append args) =
      (owner args.term ≡ some args.leader_id) × (p ≢ args.leader_id) × AppendOk book args

  pub Extends-PacketOk :
      (book book' : Book C) (owner owner' : ℕ → Option ℕ)
      → Extends book book'
      → ((t c : ℕ) → owner t ≡ some c → owner' t ≡ some c)
      → (p : ℕ) (out : Outgoing C) → PacketOk book owner p out
      → PacketOk book' owner' p out
  Extends-PacketOk book book' owner owner' ext stays p nothing ok = ok
  Extends-PacketOk book book' owner owner' ext stays p (install args) (own, other, ok) = (
    stays args.term args.leader_id own,
    other,
    Extends-term book book' ext args.last_included_term args.last_included_index
        args.last_included_term ok,
  )
  Extends-PacketOk book book' owner owner' ext stays p (append args) (own, other, ok) = (
    stays args.term args.leader_id own,
    other,
    record {
      prev = Extends-term book book' ext args.term args.prev_log_index args.prev_log_term ok.prev;
      on_page = λ i e h.
          let there = ok.on_page i e h in
          let k = args.prev_log_index + 1 + i in ext args.term k e there k (omega arith) ∙ there;
    },
  )

  install-facts :
      (rf : Raft C) (p term : ℕ) (args : InstallSnapshotArgs)
      → make_append rf p term ≡ some (install args)
      → (rf.role ≡ Role.leader)
        × (args.term ≡ rf.current_term)
        × (args.leader_id ≡ rf.me)
        × (args.last_included_index ≡ rf.last_included_index)
        × (args.last_included_term ≡ rf.last_included_term)
  unfolding make_append
  install-facts rf p term args e = ground arith

  append-facts :
      (rf : Raft C) (p term : ℕ) (args : AppendEntriesArgs C)
      → make_append rf p term ≡ some (append args)
      → (rf.role ≡ Role.leader)
        × (args.term ≡ rf.current_term)
        × (args.leader_id ≡ rf.me)
        × (rf.last_included_index ≤ args.prev_log_index)
        × (term_in rf args.prev_log_index ≡ some args.prev_log_term)
        × (args.entries ≡ drop (args.prev_log_index + 1 - rf.last_included_index) rf.log)
  unfolding make_append
  append-facts rf p term args e = ground arith

  module _ (book : Book C) (owner : ℕ → Option ℕ) (rf : Raft C) (ok : LogOk book rf)
      (rules : rf.role ≡ Role.leader
        → (owner rf.current_term ≡ some rf.me) × Exact book rf.current_term rf) where
    -- The term of the leader's own entry is on its page.
    leader-term :
        (j t : ℕ)
        → Exact book rf.current_term rf
        → rf.last_included_index ≤ j
        → term_in rf j ≡ some t
        → term_of (book rf.current_term j) ≡ some t
    leader-term j t ex le h = elim (ℕ_discrete rf.last_included_index j) [
      | yes at ↦
          ap (λ k. term_of (book rf.current_term k)) (sym at)
          ∙ ex.0
          ∙ sym ok.base_term
          ∙ ap (term_in rf) at
          ∙ h
      | no apart ↦ ap term_of (sym (ex.1 j (omega arith))) ∙ h
    ]

    pub make_append-PacketOk :
        (p term : ℕ) (out : Outgoing C)
        → p ≢ rf.me
        → make_append rf p term ≡ some out
        → PacketOk book owner p out
    make_append-PacketOk p term nothing ne e = tt
    make_append-PacketOk p term (install args) ne e =
        let (lead, of_term, me, base, base_term) = install-facts rf p term args e in
        (
          ap owner of_term ∙ (rules lead).0 ∙ ap some (sym me),
          λ q. ne (q ∙ me),
          subst (λ t. term_of (book t args.last_included_index) ≡ some t) (sym base_term)
              (ap (λ k. term_of (book rf.last_included_term k)) base ∙ ok.place),
        )
    make_append-PacketOk p term (append args) ne e =
        let (lead, of_term, me, low, prev, entries) = append-facts rf p term args e in
        let (own, ex) = rules lead in
        (
          ap owner of_term ∙ own ∙ ap some (sym me),
          λ q. ne (q ∙ me),
          record {
            prev =
                ap (λ t. term_of (book t args.prev_log_index)) of_term
                ∙ leader-term args.prev_log_index args.prev_log_term ex low prev;
            on_page = λ i x h.
                let k = args.prev_log_index + 1 + i in
                let from = args.prev_log_index + 1 - rf.last_included_index in
                let place : k - rf.last_included_index ≡ from + i = omega arith in
                ap (λ t. book t k) of_term
                ∙ sym (ex.1 k (omega arith))
                ∙ entry_at-ge rf k (omega arith)
                ∙ ap (get_elem? rf.log) place
                ∙ sym (get_elem?-drop from rf.log i)
                ∙ ap (λ l. get_elem? l i) (sym entries)
                ∙ h;
          },
        )
