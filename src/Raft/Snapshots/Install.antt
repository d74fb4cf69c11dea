-- ===== src/Raft/Snapshots/Install.antt =====
-- The handler `InstallSnapshot` of raft1/raft.go.
use mit_6_824_distributed_sy.Prelude.{
  ℕ, suc, ◌+◌, ◌-◌, ◌≤◌, ◌<◌, ◌≡◌, ◌≢◌, refl, sym, ◌∙◌, ap, ◌&&◌, Option, none, some, ◌⊎◌, inl, inr,
  List, [], ◌∷◌, arith, ltb, leb, Bool-cases, ltb→ge, ltb→lt, length, get_elem?, drop,
  get_elem?-drop, get_elem?-some,
}
use mit_6_824_distributed_sy.Raft.State.{
  Raft, LogEntry, ApplyMsg, snapshot_msg, entry_at, last_log_index, sentinel, get_relative_index,
}
use mit_6_824_distributed_sy.Raft.Persist.{Codec}
use mit_6_824_distributed_sy.Raft.Compaction.{
  InstallSnapshotArgs, trimmed, compact, log_after_install, install_snapshot, has_term,
}
use mit_6_824_distributed_sy.Raft.Append.{enter_term}
use mit_6_824_distributed_sy.Raft.Append.Store.{term_of}
use mit_6_824_distributed_sy.Raft.Append.Entries.{term_in, entry_at-ge, enter_term-Entered}
use mit_6_824_distributed_sy.Raft.Snapshots.{Advances, compact-Advances}

module _ {C : Type 0} where
  -- The peer after a snapshot has been installed: it stands at the snapshot's last entry; behind
  -- it, the log is as it was if it held that entry, and empty if not.
  pub record Installed (rf rf' : Raft C) (args : InstallSnapshotArgs) : Type 0 where
    pub at_base : rf'.last_included_index ≡ args.last_included_index
    pub at_term : rf'.last_included_term ≡ args.last_included_term
    pub base_term : term_in rf' args.last_included_index ≡ some args.last_included_term
    pub kept :
        term_in rf args.last_included_index ≡ some args.last_included_term
        → (j : ℕ) → args.last_included_index < j
        → entry_at rf' j ≡ entry_at rf j
    pub dropped :
        term_in rf args.last_included_index ≢ some args.last_included_term
        → last_log_index rf' ≡ args.last_included_index
    pub advances : Advances rf rf' args.last_included_index args.bytes

  -- The test of the code is whether the log has the snapshot's last entry behind its sentinel.
  holds_base :
      (rf : Raft C) (args : InstallSnapshotArgs)
      → rf.last_included_index < args.last_included_index
      → ((term_in rf args.last_included_index ≡ some args.last_included_term)
          × (log_after_install rf args
              ≡ trimmed rf.log
                  (get_relative_index rf args.last_included_index)
                  args.last_included_term))
        ⊎ ((term_in rf args.last_included_index ≢ some args.last_included_term)
            × (log_after_install rf args ≡ sentinel args.last_included_term ∷ []))
  unfolding log_after_install entry_at
  holds_base rf args new =
      let rel = get_relative_index rf args.last_included_index in
      elim (Bool-cases (
        ltb 0 rel
        && ltb rel (length rf.log)
        && has_term (get_elem? rf.log rel) args.last_included_term)) [
          | inl held ↦ inl (ground (arith, held), rw held)
          | inr not_held ↦ inr (λ e. ground (arith, e, not_held, in_range rf.log rel), rw not_held)
        ]
    where
      in_range : (log : List (LogEntry C)) (i : ℕ) → (get_elem? log i ≡ none) ⊎ (i < length log)
      in_range log i =
          elim (get_elem? log i)
              as (λ o. get_elem? log i ≡ o → (get_elem? log i ≡ none) ⊎ (i < length log)) [
                | none ↦ λ e. inl e
                | some x ↦ λ e. inr (get_elem?-some log i e)
              ]
            refl

module _ {C : Type 0} (gob : Codec C) where
  module _ (rf : Raft C) (args : InstallSnapshotArgs)
      (new : rf.last_included_index < args.last_included_index) (s : 0 < length rf.log) where
    abbrev base : ℕ
    base = args.last_included_index

    abbrev peer_after : List (LogEntry C) → Raft C
    peer_after log = compact gob rf log base args.last_included_term args.bytes

    first-trimmed :
        (rest : List (LogEntry C))
        → entry_at (peer_after (sentinel args.last_included_term ∷ rest)) base
          ≡ some (sentinel args.last_included_term)
    unfolding compact
    first-trimmed rest =
        let first : base - base ≡ 0 = omega arith in
        entry_at-ge (peer_after (sentinel args.last_included_term ∷ rest)) base (omega arith)
        ∙ ap (get_elem? (sentinel args.last_included_term ∷ rest)) first

    behind-trimmed :
        (j : ℕ)
        → base < j
        → entry_at
            (peer_after (trimmed rf.log (get_relative_index rf base) args.last_included_term))
            j
          ≡ entry_at rf j
    unfolding compact
    behind-trimmed j h =
        let log : List (LogEntry C) =
          trimmed rf.log (get_relative_index rf base) args.last_included_term in
        let start = suc (base - rf.last_included_index) in
        let k = j - base - 1 in
        let shifted : j - base ≡ suc k = omega arith in
        let same : start + k ≡ j - rf.last_included_index = omega arith in
        entry_at-ge (peer_after log) j (omega arith)
        ∙ ap (get_elem? log) shifted
        ∙ get_elem?-drop start rf.log k
        ∙ ap (get_elem? rf.log) same
        ∙ sym (entry_at-ge rf j (omega arith))

    compact-Installed : Installed rf (peer_after (log_after_install rf args)) args
    unfolding compact
    compact-Installed = elim (holds_base rf args new) [
      | inl (held, e) ↦ rw e (record {
        at_base = refl;
        at_term = refl;
        base_term = ap term_of (first-trimmed (drop (suc (get_relative_index rf base)) rf.log));
        kept = λ _. behind-trimmed;
        dropped = λ ne. absurd (ne held);
        advances =
            compact-Advances gob rf
              (trimmed rf.log (get_relative_index rf base) args.last_included_term) base
              args.last_included_term args.bytes;
      })
      | inr (missing, e) ↦ rw e (record {
        at_base = refl;
        at_term = refl;
        base_term = ap term_of (first-trimmed []);
        kept = λ held. absurd (missing held);
        dropped = λ _. omega arith;
        advances =
            compact-Advances gob rf (sentinel args.last_included_term ∷ []) base
              args.last_included_term args.bytes;
      })
    ]

  -- The ways in which the handler ends.
  pub data Ends (rf rf' : Raft C) (args : InstallSnapshotArgs) (now : ℕ) (msg : Option (ApplyMsg C))
      : Type 0 where
    -- a call of an older term
    stale : args.term < rf.current_term → rf' ≡ rf → msg ≡ none → Ends rf rf' args now msg
    -- a snapshot that is not ahead of the peer's own
    known :
        rf.current_term ≤ args.term
        → args.last_included_index ≤ rf.last_included_index
        → rf' ≡ enter_term gob rf args.term now
        → msg ≡ none
        → Ends rf rf' args now msg
    installed :
        rf.current_term ≤ args.term
        → rf.last_included_index < args.last_included_index
        → msg ≡ some (snapshot_msg args.bytes args.last_included_term args.last_included_index)
        → Installed (enter_term gob rf args.term now) rf' args
        → Ends rf rf' args now msg

  -- `InstallSnapshot` answers with the term from before the call, and does one of three things: it
  -- ignores a call of an older term; it only enters the term of a call whose snapshot is not ahead
  -- of its own; or it installs the snapshot. Then it stands at the index
  -- and the term of the snapshot's last entry, keeps every entry behind it if its log held that
  -- entry and no entry if not, raises both counters to it, stores the snapshot, hands it to the
  -- service, and has the term, the vote and the role with which it has entered the call's term.
  pub install_snapshot-Ends :
      (rf : Raft C) (args : InstallSnapshotArgs) (now : ℕ)
      → 0 < length rf.log
      → let (rf', reply, msg) = install_snapshot gob rf args now in
        (reply.term ≡ rf.current_term) × Ends rf rf' args now msg
  unfolding install_snapshot
  install_snapshot-Ends rf args now s = elim (Bool-cases (ltb args.term rf.current_term)) [
    | inl old ↦ rw old (refl, stale (ltb→lt args.term rf.current_term old) refl refl)
    | inr current ↦
        let rf1 = enter_term gob rf args.term now in
        let ent = enter_term-Entered gob rf args.term now in
        let le = ltb→ge args.term rf.current_term current in
        elim (Bool-cases (leb args.last_included_index rf1.last_included_index)) [
          | inl known_one ↦
              rw (current, known_one)
                (refl, known le (ground (arith, known_one, ent.same_base)) refl refl)
          | inr ahead ↦
              let new : rf1.last_included_index < args.last_included_index =
                ground (arith, ahead) in
              rw (current, ahead)
                (
                  refl,
                  installed le (omega (arith, new, ent.same_base)) refl
                      (compact-Installed rf1 args new (omega (arith, ap length ent.same_log))),
                )
        ]
  ]
