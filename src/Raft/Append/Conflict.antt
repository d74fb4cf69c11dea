-- ===== src/Raft/Append/Conflict.antt =====
-- The answers of `AppendEntries`, raft1/raft.go, that are no success.
use mit_6_824_distributed_sy.Raft.Append.Runs.{RunOfTerm, first_of_term-RunOfTerm, entry_at_in}
use mit_6_824_distributed_sy.Prelude.{
  ℕ, ◌+◌, ◌≤◌, ◌<◌, ◌≡◌, ◌≢◌, refl, ◌∙◌, ap, true, false, none, some, ◌⊎◌, inl, inr, arith, ltb,
  Bool-cases, length, ltb→ge, ltb→lt, ge→ltb, ◌==◌, ==_iff,
}
use mit_6_824_distributed_sy.Raft.State.{Raft, LogEntry, entry_at, last_log_index}
use mit_6_824_distributed_sy.Raft.Persist.{Codec}
use mit_6_824_distributed_sy.Raft.Append.{
  AppendEntriesArgs, AppendEntriesReply, empty_reply, accept, enter_term, match_log, append_entries,
}
use mit_6_824_distributed_sy.Raft.Append.Store.{term_of}
use mit_6_824_distributed_sy.Raft.Append.Entries.{term_in, enter_term-Entered}

module _ {C : Type 0} where
  -- The answers of a peer in the call's term, whose log does or does not hold the entry before the
  -- new ones.
  pub data Answer (rf rf' : Raft C) (args : AppendEntriesArgs C) (reply : AppendEntriesReply)
      : Type 0 where
    -- That entry is compacted away: the leader is sent to the first index that is not.
    compacted :
        args.prev_log_index < rf.last_included_index
        → rf' ≡ rf
        → reply.success ≡ false
        → reply.conflict_term ≡ none
        → reply.conflict_index ≡ rf.last_included_index + 1
        → Answer rf rf' args reply
    -- The log ends before it: the leader is sent to the end of the log.
    too_short :
        last_log_index rf < args.prev_log_index
        → rf' ≡ rf
        → reply.success ≡ false
        → reply.conflict_term ≡ none
        → reply.conflict_index ≡ last_log_index rf + 1
        → Answer rf rf' args reply
    -- The entry there has another term: the leader is sent to the start of that term's run.
    conflicting :
        (term : ℕ)
        → term ≢ args.prev_log_term
        → rf' ≡ rf
        → reply.success ≡ false
        → reply.conflict_term ≡ some term
        → RunOfTerm rf term reply.conflict_index args.prev_log_index
        → Answer rf rf' args reply
    -- The entry there has the leader's term.
    matching :
        term_in rf args.prev_log_index ≡ some args.prev_log_term
        → reply.success ≡ true
        → Answer rf rf' args reply

  -- A call of an older term changes nothing and is refused with the peer's term.
  abbrev pub IsStale : Raft C → Raft C → AppendEntriesArgs C → AppendEntriesReply → Type 0
  IsStale rf rf' args reply =
      (args.term < rf.current_term)
      × (rf' ≡ rf)
      × (reply.success ≡ false)
      × (reply.term ≡ rf.current_term)

module _ {C : Type 0} (gob : Codec C) where
  abbrev Answers : Raft C → AppendEntriesArgs C → AppendEntriesReply → Type 0
  Answers rf args reply =
      (rf' : Raft C) × (reply' : AppendEntriesReply) × (match_log gob rf args reply
        ≡ some (rf', reply'))
      × Answer rf rf' args reply'
      × (reply'.term ≡ reply.term)

  match_log-conflict :
      (rf : Raft C) (args : AppendEntriesArgs C) (reply : AppendEntriesReply) (prev : LogEntry C)
      → 0 < length rf.log
      → rf.last_included_index ≤ args.prev_log_index
      → args.prev_log_index ≤ last_log_index rf
      → entry_at rf args.prev_log_index ≡ some prev
      → (prev.term == args.prev_log_term) ≡ false
      → Answers rf args reply
  unfolding match_log
  match_log-conflict rf args reply prev s low high here other =
      let (first, q, run) =
        first_of_term-RunOfTerm rf prev.term args.prev_log_index s low high (ap term_of here) in
      (
        rf,
        record reply { success = false; conflict_term = some prev.term; conflict_index = first },
        rw (
          ge→ltb args.prev_log_index rf.last_included_index low,
          ge→ltb (last_log_index rf) args.prev_log_index high,
          here,
          other,
          q,
        ),
        conflicting prev.term (λ e. ground (arith, e, other)) refl refl refl run,
        refl,
      )

  match_log-Answers :
      (rf : Raft C) (args : AppendEntriesArgs C) (reply : AppendEntriesReply)
      → 0 < length rf.log
      → Answers rf args reply
  unfolding match_log
  match_log-Answers rf args reply s =
      elim (Bool-cases (ltb args.prev_log_index rf.last_included_index)) [
        | inl old ↦ (
          rf,
          _,
          rw old,
          compacted (ltb→lt args.prev_log_index rf.last_included_index old) refl refl refl refl,
          refl,
        )
        | inr low ↦ elim (Bool-cases (ltb (last_log_index rf) args.prev_log_index)) [
          | inl short ↦ (
            rf,
            _,
            rw (low, short),
            too_short (ltb→lt (last_log_index rf) args.prev_log_index short) refl refl refl refl,
            refl,
          )
          | inr high ↦
              let a = ltb→ge args.prev_log_index rf.last_included_index low in
              let b = ltb→ge (last_log_index rf) args.prev_log_index high in
              let (prev, here) = entry_at_in rf args.prev_log_index s a b in
              elim (Bool-cases (prev.term == args.prev_log_term)) [
                | inl same ↦ (
                  accept gob rf args,
                  record reply { success = true },
                  rw (low, high, here, same),
                  matching
                      (ap term_of here ∙ ap some ((==_iff prev.term args.prev_log_term).0 same))
                      refl,
                  refl,
                )
                | inr other ↦ match_log-conflict rf args reply prev s a b here other
              ]
        ]
      ]

  -- A peer with its sentinel answers every `AppendEntries`: a call of an older term is refused and
  -- changes nothing; any other puts the peer in the call's term, and the answer follows from how
  -- its log stands to the entry before the new ones: compacted away, beyond the end, of another
  -- term, in which case the answer names the start of that term's run, or matching.
  pub append_entries-answers :
      (rf : Raft C) (args : AppendEntriesArgs C) (now : ℕ)
      → 0 < length rf.log
      → (rf' : Raft C) × (reply : AppendEntriesReply) × (append_entries gob rf args now
          ≡ some (rf', reply))
        × (IsStale rf rf' args reply
            ⊎ ((reply.term ≡ args.term) × Answer (enter_term gob rf args.term now) rf' args reply))
  unfolding append_entries
  append_entries-answers rf args now s = elim (Bool-cases (ltb args.term rf.current_term)) [
    | inl stale ↦ (
      rf,
      record empty_reply { term = rf.current_term; success = false },
      rw stale,
      inl (ltb→lt args.term rf.current_term stale, refl, refl, refl),
    )
    | inr current ↦
        let rf1 = enter_term gob rf args.term now in
        let ent = enter_term-Entered gob rf args.term now in
        let (rf', reply, e, answer, term) =
          match_log-Answers rf1 args (record empty_reply { term = rf1.current_term })
            (omega (arith, ap length ent.same_log)) in
        (
          rf',
          reply,
          rw current e,
          inr (term ∙ ent.in_term (ltb→ge args.term rf.current_term current), answer),
        )
  ]
