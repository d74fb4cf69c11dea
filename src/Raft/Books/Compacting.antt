-- ===== src/Raft/Books/Compacting.antt =====
-- `Snapshot` and `InstallSnapshot` of raft1/raft.go against the book.
use mit_6_824_distributed_sy.Prelude.{
  ℕ, ◌-◌, ◌≤◌, ◌<◌, ◌≡◌, ◌≢◌, sym, ◌∙◌, ap, some, inl, inr, arith, length, List, Bool-cases, dec_le,
  subst, get_elem?-some, some-inj, Option-cases,
}
use mit_6_824_distributed_sy.Raft.State.{Raft, Role, LogEntry, entry_at, last_log_index}
use mit_6_824_distributed_sy.Raft.Persist.{Codec}
use mit_6_824_distributed_sy.Raft.Append.{enter_term}
use mit_6_824_distributed_sy.Raft.Append.Store.{term_of}
use mit_6_824_distributed_sy.Raft.Append.Entries.{term_in, entry_at-ge}
use mit_6_824_distributed_sy.Raft.Compaction.{
  InstallSnapshotArgs, take_snapshot, install_snapshot, has_term,
}
use mit_6_824_distributed_sy.Raft.Snapshots.{take_snapshot-Trims}
use mit_6_824_distributed_sy.Raft.Snapshots.Install.{
  Installed, stale, known, installed, install_snapshot-Ends,
}
use mit_6_824_distributed_sy.Raft.Books.{
  Book, Chain, IsPlace, LogOk, Cuts, SameLog-LogOk, SameLog-refl, Cuts-LogOk,
}
use mit_6_824_distributed_sy.Raft.Books.Handlers.{
  InstallOk, LogMove, keeps, cuts, install_snapshot-leader, enter_term-SameLog,
}
use mit_6_824_distributed_sy.Raft.Books.Taking.{taken}

module _ {C : Type 0} where
  -- An index with an entry is not beyond the log's end.
  pub entry_at-inside :
      (rf : Raft C) (k : ℕ) (e : LogEntry C)
      → entry_at rf k ≡ some e
      → (rf.last_included_index ≤ k) × (k - rf.last_included_index < length rf.log)
  unfolding entry_at
  entry_at-inside rf k e h =
      let low : rf.last_included_index ≤ k = ground (arith, h) in
      (low, get_elem?-some rf.log (k - rf.last_included_index) (sym (entry_at-ge rf k low) ∙ h))

  -- A snapshot whose last entry the log does not have leaves no other entry.
  bare-LogOk :
      (book : Book C) (rf : Raft C)
      → 0 < length rf.log
      → term_in rf rf.last_included_index ≡ some rf.last_included_term
      → IsPlace book rf.last_included_term rf.last_included_index
      → last_log_index rf ≡ rf.last_included_index
      → LogOk book rf
  bare-LogOk book rf size base_term place last = record {
    size = size;
    base_term = base_term;
    place = place;
    chained = λ k e lt here. absurd (omega (arith, (entry_at-inside rf k e here).1, size, last));
  }

module _ {C : Type 0} (gob : Codec C) where
  take_snapshot-position :
      (rf rf' : Raft C) (index : ℕ) (bytes : List ℕ)
      → take_snapshot gob rf index bytes ≡ some rf'
      → rf.last_included_index < index
      → (0 < length rf'.log)
        × (rf'.last_included_index ≡ index)
        × (term_in rf index ≡ some rf'.last_included_term)
  unfolding take_snapshot
  take_snapshot-position rf rf' index bytes e lt = ground arith

  take_snapshot-known :
      (rf rf' : Raft C) (index : ℕ) (bytes : List ℕ)
      → take_snapshot gob rf index bytes ≡ some rf'
      → index ≤ rf.last_included_index
      → rf' ≡ rf
  unfolding take_snapshot
  take_snapshot-known rf rf' index bytes e le = ground arith

  take_snapshot-Cuts :
      (rf rf' : Raft C) (index : ℕ) (bytes : List ℕ)
      → take_snapshot gob rf index bytes ≡ some rf'
      → 0 < length rf.log
      → rf.last_included_index < index
      → Cuts rf rf'
  take_snapshot-Cuts rf rf' index bytes e s new =
      let (size, at, had) = take_snapshot-position rf rf' index bytes e new in
      let inside : index ≤ last_log_index rf = elim (Option-cases (entry_at rf index)) [
        | inl absent ↦ absurd (cc (had, absent))
        | inr (x, here) ↦ omega (arith, (entry_at-inside rf index x here).1)
      ] in
      let (rf2, e2, result) = take_snapshot-Trims gob rf index bytes s inside in
      let same : rf2 ≡ rf' = some-inj (sym e2 ∙ e) in
      elim result [
        | inl (old, _) ↦ absurd (omega arith)
        | inr (_, trims, _) ↦ record {
          size = size;
          later = omega arith;
          had = subst (λ k. term_in rf k ≡ some rf'.last_included_term) (sym at) had;
          has =
              subst (λ k. term_in rf' k ≡ some rf'.last_included_term) (sym at)
                (subst (λ r. term_in r index ≡ term_in rf index) same trims.base_term ∙ had);
          behind =
              λ j lt. subst (λ r. entry_at r j ≡ entry_at rf j) same (trims.behind j (omega arith));
        }
      ]

  pub take_snapshot-LogMove :
      (book : Book C) (rf rf' : Raft C) (index : ℕ) (bytes : List ℕ)
      → take_snapshot gob rf index bytes ≡ some rf'
      → 0 < length rf.log
      → LogMove book rf rf'
  take_snapshot-LogMove book rf rf' index bytes e s = elim (dec_le index rf.last_included_index) [
    | yes old ↦
        let same = take_snapshot-known rf rf' index bytes e old in keeps (rw same (SameLog-refl rf))
    | no new ↦ cuts (take_snapshot-Cuts rf rf' index bytes e s (omega arith))
  ]

  module _ (book : Book C) (ch : Chain book) (rf : Raft C) (ok : LogOk book rf)
      (args : InstallSnapshotArgs) (now : ℕ) (call : InstallOk book args) where
    abbrev rf' : Raft C
    rf' = (install_snapshot gob rf args now).0

    abbrev rf1 : Raft C
    rf1 = enter_term gob rf args.term now

    install_snapshot-position :
        rf.current_term ≤ args.term
        → rf.last_included_index < args.last_included_index
        → (0 < length rf'.log) × (rf'.last_included_term ≡ args.last_included_term)
    unfolding install_snapshot
    install_snapshot-position le lt = ground (arith, (enter_term-SameLog gob rf args.term now).base)

    Installed-LogOk :
        rf.current_term ≤ args.term
        → rf.last_included_index < args.last_included_index
        → Installed rf1 rf' args
        → LogOk book rf'
    Installed-LogOk le lt inst =
        let (size, term) = install_snapshot-position le lt in
        let entered = enter_term-SameLog gob rf args.term now in
        let has : term_in rf' rf'.last_included_index ≡ some rf'.last_included_term =
          ap (term_in rf') inst.at_base ∙ inst.base_term ∙ ap some (sym term) in
        elim (Bool-cases
          (has_term (entry_at rf1 args.last_included_index) args.last_included_term)) [
            | inl held ↦
                let had : term_in rf1 args.last_included_index ≡ some args.last_included_term =
                  ground (arith, held) in
                Cuts-LogOk book rf1 rf'
                  (record {
                    size = size;
                    later = omega (arith, inst.at_base, entered.base);
                    had = ap (term_in rf1) inst.at_base ∙ had ∙ ap some (sym term);
                    has = has;
                    behind = λ j a. inst.kept had j (omega (arith, inst.at_base));
                  })
                  (SameLog-LogOk book rf rf1 entered ok)
            | inr missing ↦
                let lacks : term_in rf1 args.last_included_index ≢ some args.last_included_term =
                  λ h. ground (arith, h, missing) in
                bare-LogOk book rf' size has
                  (subst (λ k. term_of (book k rf'.last_included_index) ≡ some k) (sym term)
                    (ap (λ k. term_of (book args.last_included_term k)) inst.at_base ∙ call))
                  (inst.dropped lacks ∙ sym inst.at_base)
          ]

    pub install_snapshot-LogMove :
        (rf'.role ≡ Role.leader → rf.role ≡ Role.leader)
        → (rf.role ≡ Role.leader → args.term ≢ rf.current_term)
        → LogMove book rf rf'
    install_snapshot-LogMove old other = elim (install_snapshot-Ends gob rf args now ok.size).1 [
      | stale _ same _ ↦ keeps (rw same (SameLog-refl rf))
      | known _ _ same _ ↦ keeps (rw same (enter_term-SameLog gob rf args.term now))
      | installed le lt _ inst ↦
          taken gob book ch rf rf'
            (λ l. elim (install_snapshot-leader gob rf args now (old l) l) [
              | inl same ↦ same
              | inr term ↦ absurd (other (old l) term)
            ])
            (Installed-LogOk le lt inst)
    ]
