-- ===== src/Raft/Snapshots.antt =====
-- `Snapshot` and `InstallSnapshot` of raft1/raft.go: what of the log a compaction keeps.
pub mod Install
use Prim.Native.Nat.{max}
use mit_6_824_distributed_sy.Prelude.{
  ℕ, zero, suc, ◌+◌, ◌-◌, ◌≤◌, ◌<◌, ◌≡◌, ◌≢◌, refl, sym, ◌∙◌, ap, subst, Bool, true, false, ◌&&◌,
  Option, none, some, ◌⊎◌, inl, inr, List, [], ◌∷◌, arith, ltb, leb, Bool-cases, Option-cases,
  ltb→lt, ltb→ge, ge→ltb, lt→ltb, ◌==◌, ==_iff, length, some-inj, ℕ_discrete, get_elem?, drop,
  length-drop, get_elem?-drop, get_elem?-some, dec_le, dec_lt,
}
use mit_6_824_distributed_sy.Raft.State.{
  Raft, Role, LogEntry, ApplyMsg, snapshot_msg, entry_at, last_log_index, sentinel,
  get_relative_index,
}
use mit_6_824_distributed_sy.Raft.Persist.{Codec, step_down}
use mit_6_824_distributed_sy.Raft.Compaction.{
  InstallSnapshotArgs, InstallSnapshotReply, trimmed, compact, take_snapshot, log_after_install,
  install_snapshot, has_term, raise_to,
}
use mit_6_824_distributed_sy.Raft.Append.{enter_term}
use mit_6_824_distributed_sy.Raft.Append.Store.{term_of}
use mit_6_824_distributed_sy.Raft.Append.Entries.{
  term_in, entry_at-ge, Entered, enter_term-Entered, entry_at-same,
}
use mit_6_824_distributed_sy.Raft.Append.Runs.{entry_at_in}

module _ {C : Type 0} where
  -- `rf'` is `rf` compacted up to `base`, with nothing behind it lost.
  pub record Trims (rf rf' : Raft C) (base : ℕ) : Type 0 where
    pub at_base : rf'.last_included_index ≡ base
    pub at_term : some rf'.last_included_term ≡ term_in rf base
    pub base_term : term_in rf' base ≡ term_in rf base
    pub behind : (j : ℕ) → base < j → entry_at rf' j ≡ entry_at rf j
    pub same_last : last_log_index rf' ≡ last_log_index rf

  -- The counters and the stored snapshot after a compaction up to `base`, and what it leaves alone.
  pub record Advances (rf rf' : Raft C) (base : ℕ) (bytes : List ℕ) : Type 0 where
    pub commit : rf'.commit_index ≡ max rf.commit_index base
    pub applied : rf'.last_applied ≡ max rf.last_applied base
    pub snapshot : rf'.persister.snapshot ≡ bytes
    pub same_current : rf'.current_term ≡ rf.current_term
    pub same_vote : rf'.voted_for ≡ rf.voted_for
    pub same_role : rf'.role ≡ rf.role

module _ {C : Type 0} (gob : Codec C) where
  pub compact-Advances :
      (rf : Raft C) (log : List (LogEntry C)) (index term : ℕ) (bytes : List ℕ)
      → Advances rf (compact gob rf log index term bytes) index bytes
  unfolding compact
  compact-Advances rf log index term bytes = ground arith

  module _ (rf : Raft C) (index : ℕ) (e : LogEntry C) (bytes : List ℕ) (s : 0 < length rf.log)
      (new : rf.last_included_index < index) (inside : index ≤ last_log_index rf)
      (here : entry_at rf index ≡ some e) where
    abbrev compacted_log : List (LogEntry C)
    compacted_log = trimmed rf.log (get_relative_index rf index) e.term

    abbrev compacted_peer : Raft C
    compacted_peer = compact gob rf compacted_log index e.term bytes

    abbrev start : ℕ
    start = suc (index - rf.last_included_index)

    -- An index behind the new base reads the same entry.
    behind_base : (j : ℕ) → index < j → entry_at compacted_peer j ≡ entry_at rf j
    unfolding compact
    behind_base j h =
        let k = j - index - 1 in
        let shifted : j - index ≡ suc k = omega arith in
        let same : start + k ≡ j - rf.last_included_index = omega arith in
        entry_at-ge compacted_peer j (omega arith)
        ∙ ap (get_elem? compacted_log) shifted
        ∙ get_elem?-drop start rf.log k
        ∙ ap (get_elem? rf.log) same
        ∙ sym (entry_at-ge rf j (omega arith))

    base_entry : entry_at compacted_peer index ≡ some (sentinel e.term)
    unfolding compact
    base_entry =
        let first : index - index ≡ 0 = omega arith in
        entry_at-ge compacted_peer index (omega arith) ∙ ap (get_elem? compacted_log) first

    compact-Trims : Trims rf compacted_peer index
    unfolding compact
    compact-Trims = record {
      at_base = refl;
      at_term = ap term_of (sym here);
      base_term = ap term_of base_entry ∙ ap term_of (sym here);
      behind = behind_base;
      same_last = omega (arith, length-drop start rf.log);
    }

  -- `Snapshot` at an index of the log: one that is not behind the snapshot position changes
  -- nothing. Any other makes it the new position, recorded with the term of its entry both beside
  -- the log and in the sentinel, keeps every entry behind it and the last index, raises both
  -- counters to it where they were below, stores the service's snapshot, and leaves the term, the
  -- vote and the role alone.
  pub take_snapshot-Trims :
      (rf : Raft C) (index : ℕ) (bytes : List ℕ)
      → 0 < length rf.log
      → index ≤ last_log_index rf
      → (rf' : Raft C) × (take_snapshot gob rf index bytes ≡ some rf')
        × (((index ≤ rf.last_included_index) × (rf' ≡ rf))
            ⊎ ((rf.last_included_index < index) × Trims rf rf' index × Advances rf rf' index bytes))
  unfolding take_snapshot
  take_snapshot-Trims rf index bytes s inside = elim (dec_le index rf.last_included_index) [
    | yes old ↦ (rf, ground (arith, old), inl (old, refl))
    | no later ↦
        let new : rf.last_included_index < index = omega arith in
        let (e, here) = entry_at_in rf index s (omega arith) inside in
        let test : leb index rf.last_included_index ≡ false = ground (arith, new) in
        (
          compacted_peer rf index e bytes s new inside here,
          rw (test, here),
          inr (
            new,
            compact-Trims rf index e bytes s new inside here,
            compact-Advances rf (compacted_log rf index e bytes s new inside here) index e.term
                bytes,
          ),
        )
  ]
