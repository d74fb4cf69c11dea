-- ===== src/Raft/Books/Handlers.antt =====
-- The handlers of raft1/raft.go against the book: what each does to the log of its peer.
use mit_6_824_distributed_sy.Prelude.{
  ℕ, ◌+◌, ◌-◌, ◌≤◌, ◌<◌, ◌≡◌, ◌≢◌, refl, some, ◌⊎◌, inl, inr, arith, false, [], ◌∷◌, ◌++◌,
  get_elem?, Bool-cases, ltb,
}
use mit_6_824_distributed_sy.Raft.State.{Raft, Role, LogEntry, last_log_index}
use mit_6_824_distributed_sy.Raft.Persist.{Codec, persist, step_down}
use mit_6_824_distributed_sy.Raft.Append.{
  AppendEntriesArgs, AppendEntriesReply, store_entries, accept, enter_term, match_log,
  append_entries, empty_reply,
}
use mit_6_824_distributed_sy.Raft.Append.Store.{term_of}
use mit_6_824_distributed_sy.Raft.Append.Entries.{term_in}
use mit_6_824_distributed_sy.Raft.Compaction.{InstallSnapshotArgs, install_snapshot}
use mit_6_824_distributed_sy.Raft.Books.{Book, IsPlace, LogOk, SameLog, Cuts}

module _ {C : Type 0} where
  -- The entries of a call are on the page of the call's term, and so is the entry before them.
  pub record AppendOk (book : Book C) (args : AppendEntriesArgs C) : Type 0 where
    pub prev : term_of (book args.term args.prev_log_index) ≡ some args.prev_log_term
    pub on_page :
        (i : ℕ) (e : LogEntry C)
        → get_elem? args.entries i ≡ some e
        → book args.term (args.prev_log_index + 1 + i) ≡ some e

  -- The snapshot of a call ends with an entry that the leader of the entry's term made.
  abbrev pub InstallOk : Book C → InstallSnapshotArgs → Type 0
  InstallOk book args = IsPlace book args.last_included_term args.last_included_index

  -- A candidate goes into a new term.
  abbrev pub Stands : Raft C → Raft C → Type 0
  Stands rf rf' =
      rf'.role ≡ Role.candidate
      → ((rf.role ≡ Role.candidate) × (rf'.current_term ≡ rf.current_term))
        ⊎ (rf.current_term < rf'.current_term)

  -- What a step does to the log of a peer.
  pub data LogMove (book : Book C) (rf rf' : Raft C) : Type 0 where
    keeps : SameLog rf rf' → LogMove book rf rf'
    cuts : Cuts rf rf' → LogMove book rf rf'
    -- A peer that is no leader takes another log.
    takes : LogOk book rf' → rf'.role ≢ Role.leader → LogMove book rf rf'
    -- A leader adds an entry of its own.
    adds :
        (e : LogEntry C)
        → e.term ≡ rf.current_term
        → rf.role ≡ Role.leader
        → rf'.role ≡ Role.leader
        → rf'.current_term ≡ rf.current_term
        → rf'.log ≡ rf.log ++ e ∷ []
        → rf'.last_included_index ≡ rf.last_included_index
        → rf'.last_included_term ≡ rf.last_included_term
        → LogMove book rf rf'

  -- What is known of the log after a success of `AppendEntries`.
  pub record Stores (rf rf' : Raft C) (args : AppendEntriesArgs C) : Type 0 where
    pub low : rf.last_included_index ≤ args.prev_log_index
    pub high : args.prev_log_index ≤ last_log_index rf
    pub matched : term_in rf args.prev_log_index ≡ some args.prev_log_term
    pub log :
        rf'.log
        ≡ (store_entries rf.log
            (args.prev_log_index + 1 - rf.last_included_index)
            args.entries
            false).0
    pub base : rf'.last_included_index ≡ rf.last_included_index
    pub term : rf'.last_included_term ≡ rf.last_included_term

module _ {C : Type 0} (gob : Codec C) where
  pub enter_term-SameLog : (rf : Raft C) (term now : ℕ) → SameLog rf (enter_term gob rf term now)
  unfolding enter_term step_down
  enter_term-SameLog rf term now = record {
    log = ground arith;
    base = ground arith;
    term = ground arith;
  }

  accept-SameLog :
      (rf : Raft C) (args : AppendEntriesArgs C)
      → ((accept gob rf args).log
          ≡ (store_entries rf.log
              (args.prev_log_index + 1 - rf.last_included_index)
              args.entries
              false).0)
        × ((accept gob rf args).last_included_index ≡ rf.last_included_index)
        × ((accept gob rf args).last_included_term ≡ rf.last_included_term)
  unfolding accept persist
  accept-SameLog rf args = ground arith

  match_log-Stores :
      (rf rf' : Raft C) (args : AppendEntriesArgs C) (reply reply' : AppendEntriesReply)
      → match_log gob rf args reply ≡ some (rf', reply')
      → (rf' ≡ rf)
        ⊎ ((rf' ≡ accept gob rf args)
            × (rf.last_included_index ≤ args.prev_log_index)
            × (args.prev_log_index ≤ last_log_index rf)
            × (term_in rf args.prev_log_index ≡ some args.prev_log_term))
  unfolding match_log
  match_log-Stores rf rf' args reply reply' e = ground arith

  pub append_entries-Stores :
      (rf rf' : Raft C) (args : AppendEntriesArgs C) (now : ℕ) (reply : AppendEntriesReply)
      → append_entries gob rf args now ≡ some (rf', reply)
      → SameLog rf rf'
        ⊎ (SameLog rf (enter_term gob rf args.term now)
            × Stores (enter_term gob rf args.term now) rf' args)
  unfolding append_entries
  append_entries-Stores rf rf' args now reply e =
      elim (Bool-cases (ltb args.term rf.current_term)) [
        | inl old ↦
            let same : rf' ≡ rf = ground (arith, old, e) in
            inl (rw same (record { log = refl; base = refl; term = refl }))
        | inr new ↦
            let rf1 = enter_term gob rf args.term now in
            let entered = enter_term-SameLog rf args.term now in
            elim (match_log-Stores rf1 rf' args (record empty_reply { term = rf1.current_term })
              reply (rw new at e)) [
                | inl same ↦ inl (rw same entered)
                | inr (same, low, high, matched) ↦
                    let (log, base, term) = accept-SameLog rf1 args in
                    inr (
                      entered,
                      record {
                        low = low;
                        high = high;
                        matched = matched;
                        log = rw same log;
                        base = rw same base;
                        term = rw same term;
                      },
                    )
              ]
      ]

  -- A leader that `AppendEntries` leaves a leader was called in its own term, or has not moved.
  pub append_entries-leader :
      (rf rf' : Raft C) (args : AppendEntriesArgs C) (now : ℕ) (reply : AppendEntriesReply)
      → append_entries gob rf args now ≡ some (rf', reply)
      → rf.role ≡ Role.leader
      → rf'.role ≡ Role.leader
      → (rf' ≡ rf) ⊎ (args.term ≡ rf.current_term)
  unfolding append_entries enter_term match_log accept persist step_down
  append_entries-leader rf rf' args now reply e l l' = ground arith

  pub install_snapshot-leader :
      (rf : Raft C) (args : InstallSnapshotArgs) (now : ℕ)
      → rf.role ≡ Role.leader
      → (install_snapshot gob rf args now).0.role ≡ Role.leader
      → ((install_snapshot gob rf args now).0 ≡ rf) ⊎ (args.term ≡ rf.current_term)
  unfolding install_snapshot step_down
  install_snapshot-leader rf args now l l' = ground arith
