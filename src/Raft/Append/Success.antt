-- ===== src/Raft/Append/Success.antt =====
-- What `AppendEntries` of raft1/raft.go has done when it answers with success.
use mit_6_824_distributed_sy.Raft.Append.Entries.{
  enter_term-Entered, term_in, NoConflictBelow, Accepted, entry_at-ge, entry_at-lt, entry_at-same,
}
use Prim.Native.Nat.{min, max}
use mit_6_824_distributed_sy.Prelude.{
  ℕ, ◌+◌, ◌-◌, ◌≤◌, ◌<◌, ◌≡◌, refl, sym, ◌∙◌, ap, subst, true, false, some, inl, inr, arith, ltb,
  dec_lt, Bool-cases, length, get_elem?, ltb→ge,
}
use mit_6_824_distributed_sy.Raft.State.{Raft, LogEntry, entry_at, last_log_index}
use mit_6_824_distributed_sy.Raft.Persist.{Codec, persist}
use mit_6_824_distributed_sy.Raft.Append.{
  AppendEntriesArgs, AppendEntriesReply, empty_reply, store_entries, advance_commit, accept,
  enter_term, match_log, append_entries,
}
use mit_6_824_distributed_sy.Raft.Append.Written.{Written, store_entries-Written}
use mit_6_824_distributed_sy.Raft.Append.Store.{term_of, Agrees, StoredAll, store_entries-StoredAll}

-- The commit index rises to the leader's, as far as the entries of the call go, and never falls.
advance_commit-max :
    (commit leader_commit last_new : ℕ)
    → advance_commit commit leader_commit last_new ≡ max commit (min leader_commit last_new)
unfolding advance_commit
advance_commit-max commit leader_commit last_new = ground arith

module _ {C : Type 0} (gob : Codec C) (rf : Raft C) (args : AppendEntriesArgs C) where
  abbrev rel : ℕ
  rel = args.prev_log_index + 1 - rf.last_included_index

  accept-log : (accept gob rf args).log ≡ (store_entries rf.log rel args.entries false).0
  unfolding accept persist
  accept-log = ground arith

  accept-base : (accept gob rf args).last_included_index ≡ rf.last_included_index
  unfolding accept persist
  accept-base = ground arith

  accept-commit :
      (accept gob rf args).commit_index
      ≡ max rf.commit_index (min args.leader_commit (args.prev_log_index + length args.entries))
  unfolding accept persist
  accept-commit = ground (
    arith,
    advance_commit-max rf.commit_index args.leader_commit
        (args.prev_log_index + length args.entries),
  )

  module _ (base : rf.last_included_index ≤ args.prev_log_index)
      (short : args.prev_log_index ≤ last_log_index rf) (has_sentinel : 0 < length rf.log) where
    all_stored : StoredAll rf.log rel args.entries (accept gob rf args).log
    all_stored = rw accept-log (store_entries-StoredAll rf.log rel args.entries false (omega arith))

    -- An entry of the new log, at its absolute index.
    accept-entry :
        (j : ℕ)
        → rf.last_included_index ≤ j
        → entry_at (accept gob rf args) j
          ≡ get_elem? (accept gob rf args).log (j - rf.last_included_index)
    accept-entry j h =
        entry_at-ge (accept gob rf args) j (omega (arith, accept-base))
        ∙ ap (λ b. get_elem? (accept gob rf args).log (j - b)) accept-base

    accept-appended :
        (i : ℕ) (e : LogEntry C)
        → get_elem? args.entries i ≡ some e
        → term_in (accept gob rf args) (args.prev_log_index + 1 + i) ≡ some e.term
    accept-appended i e h =
        ap term_of (accept-entry (args.prev_log_index + 1 + i) (omega arith))
        ∙ subst (λ k. Agrees (accept gob rf args).log k e) (omega arith) (all_stored.agrees i e h)

    accept-kept :
        (c : ℕ)
        → c ≤ last_log_index rf + 1
        → NoConflictBelow c rf args
        → (j : ℕ) → j < c
        → entry_at (accept gob rf args) j ≡ entry_at rf j
    accept-kept c size ok j lt = elim (dec_lt j rf.last_included_index) [
      | yes low ↦
          entry_at-lt (accept gob rf args) j (omega (arith, accept-base))
          ∙ sym (entry_at-lt rf j low)
      | no high ↦
          accept-entry j (omega arith)
          ∙ all_stored.kept (c - rf.last_included_index) (omega arith)
              (λ i e h below.
                subst (λ k. Agrees rf.log k e) (omega arith)
                  (ap term_of (sym (entry_at-ge rf (args.prev_log_index + 1 + i) (omega arith)))
                    ∙ ok i e h (omega arith)))
              (j - rf.last_included_index) (omega arith)
          ∙ sym (entry_at-ge rf j (omega arith))
    ]

    accept-Accepted :
        term_in rf args.prev_log_index ≡ some args.prev_log_term
        → Accepted rf (accept gob rf args) args
    accept-Accepted m = record {
      matched = m;
      written = rw accept-log (store_entries-Written rf.log rel args.entries false (omega arith));
      appended = accept-appended;
      kept = accept-kept;
      long = omega (arith, all_stored.long, accept-base);
      committed = accept-commit;
      same_base = accept-base;
    }

  -- A success of the part after Rule 2.
  match_log-success :
      (rf' : Raft C) (reply reply' : AppendEntriesReply)
      → 0 < length rf.log
      → reply.success ≡ false
      → match_log gob rf args reply ≡ some (rf', reply')
      → reply'.success ≡ true
      → (rf' ≡ accept gob rf args)
        × (rf.last_included_index ≤ args.prev_log_index)
        × (args.prev_log_index ≤ last_log_index rf)
        × (term_in rf args.prev_log_index ≡ some args.prev_log_term)
        × (reply'.term ≡ reply.term)
  unfolding match_log
  match_log-success rf' reply reply' s f e ok = ground arith

module _ {C : Type 0} where
  Accepted-from :
      (rf rf1 rf' : Raft C) (args : AppendEntriesArgs C)
      → rf1.log ≡ rf.log
      → rf1.last_included_index ≡ rf.last_included_index
      → rf1.commit_index ≡ rf.commit_index
      → Accepted rf1 rf' args
      → Accepted rf rf' args
  Accepted-from rf rf1 rf' args l b c a =
      let same : (j : ℕ) → entry_at rf1 j ≡ entry_at rf j = λ j. entry_at-same rf rf1 j l b in
      record {
        matched = ap term_of (sym (same args.prev_log_index)) ∙ a.matched;
        written =
            subst
              (λ x.
                Written x (args.prev_log_index + 1 - rf.last_included_index) args.entries rf'.log)
              l
              (subst (λ n. Written rf1.log (args.prev_log_index + 1 - n) args.entries rf'.log) b
                a.written);
        appended = a.appended;
        kept = λ c size ok j lt.
            a.kept c (omega (arith, ap length l, b, size))
              (λ i e h below. ap term_of (same (args.prev_log_index + 1 + i)) ∙ ok i e h below) j lt
            ∙ same j;
        long = a.long;
        committed =
            a.committed
            ∙ ap (λ m. max m (min args.leader_commit (args.prev_log_index + length args.entries)))
                c;
        same_base = a.same_base ∙ b;
      }

module _ {C : Type 0} (gob : Codec C) where
  -- When `AppendEntries` answers with success, the call's term is the peer's, the logs matched at
  -- the entry before the new ones, and the log is the old one if it agrees with every new entry, or
  -- else the old one cut off at the first new entry with which it does not, followed by this entry
  -- and all after it. So every new entry or one of its term stands at its index, and no entry below
  -- the first conflict has changed. The commit index is the larger of the old one and the leader's
  -- as far as the new entries reach.
  pub append_entries-success :
      (rf : Raft C) (args : AppendEntriesArgs C) (now : ℕ) {rf' : Raft C}
      {reply : AppendEntriesReply}
      → 0 < length rf.log
      → append_entries gob rf args now ≡ some (rf', reply)
      → reply.success ≡ true
      → Accepted rf rf' args × (rf.current_term ≤ args.term) × (reply.term ≡ args.term)
  unfolding append_entries
  append_entries-success rf args now {rf'} {reply} s e ok =
      elim (Bool-cases (ltb args.term rf.current_term)) [
        | inl stale ↦ absurd (ground (arith, stale, e, ok))
        | inr current ↦
            let rf1 = enter_term gob rf args.term now in
            let ent = enter_term-Entered gob rf args.term now in
            let r1 : AppendEntriesReply = record empty_reply { term = rf1.current_term } in
            let le = ltb→ge args.term rf.current_term current in
            let m : match_log gob rf1 args r1 ≡ some (rf', reply) = rw current at e in
            let (same, base, short, matched, term) =
              match_log-success gob rf1 args rf' r1 reply (omega (arith, ap length ent.same_log))
                refl m ok in
            (
              Accepted-from rf rf1 rf' args ent.same_log ent.same_base ent.same_commit (
                  rw same (
                    accept-Accepted gob rf1 args base short (omega (arith, ap length ent.same_log))
                      matched)),
              le,
              term ∙ ent.in_term le,
            )
      ]
