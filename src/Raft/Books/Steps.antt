-- ===== src/Raft/Books/Steps.antt =====
-- All that can happen at a peer of raft1/raft.go, against the book.
use mit_6_824_distributed_sy.Prelude.{
  ℕ, ◌≡◌, ◌≢◌, refl, Option, some, ◌⊎◌, inl, inr, arith, List, Bool-cases, subst, some-inj,
}
use mit_6_824_distributed_sy.Raft.State.{Raft, Role, kill, ApplyMsg, is_leader}
use mit_6_824_distributed_sy.Raft.Persist.{Codec, persist, step_down}
use mit_6_824_distributed_sy.Raft.Election.{
  RequestVoteArgs, RequestVoteReply, request_vote, handle_vote_reply, start_election, tick,
}
use mit_6_824_distributed_sy.Raft.Append.{
  AppendEntriesArgs, AppendEntriesReply, append_entries, enter_term, match_log, accept,
}
use mit_6_824_distributed_sy.Raft.Compaction.{
  InstallSnapshotArgs, InstallSnapshotReply, take_snapshot, install_snapshot,
}
use mit_6_824_distributed_sy.Raft.Leader.{start, handle_append_reply, handle_install_reply}
use mit_6_824_distributed_sy.Raft.Apply.{apply_round}
use mit_6_824_distributed_sy.Raft.Peer.{
  Event, vote_request, append_request, install_request, vote_reply, append_reply, install_reply,
  submits, snapshots, ticks, applies, kills, step, state_of-eq, IsNoVoteReply,
}
use mit_6_824_distributed_sy.Raft.Votes.Handlers.{step-Quiet}
use mit_6_824_distributed_sy.Raft.Books.{Book, Chain, LogOk, SameLog, SameLog-refl}
use mit_6_824_distributed_sy.Raft.Books.Handlers.{AppendOk, InstallOk, LogMove, Stands, keeps, adds}
use mit_6_824_distributed_sy.Raft.Books.Taking.{append_entries-LogMove}
use mit_6_824_distributed_sy.Raft.Books.Compacting.{take_snapshot-LogMove, install_snapshot-LogMove}

module _ {C : Type 0} where
  -- A call that comes from the leader of its term, which is not the peer that it comes to.
  abbrev pub MessageOk : Book C → Raft C → Event C → Type 0
  MessageOk book rf (append_request args now) =
      AppendOk book args × (rf.role ≡ Role.leader → args.term ≢ rf.current_term)
  MessageOk book rf (install_request args now) =
      InstallOk book args × (rf.role ≡ Role.leader → args.term ≢ rf.current_term)
  MessageOk _ _ _ = Unit {0}

  -- What a handler does that leaves the log alone.
  abbrev pub Moves : Raft C → Raft C → Type 0
  Moves rf rf' = SameLog rf rf' × Stands rf rf'

module _ {C : Type 0} (gob : Codec C) where
  pub request_vote-Moves :
      (rf rf' : Raft C) (args : RequestVoteArgs) (now : ℕ) (reply : RequestVoteReply)
      → request_vote gob rf args now ≡ some (rf', reply)
      → Moves rf rf'
  unfolding request_vote persist step_down
  request_vote-Moves rf rf' args now reply e =
      (record { log = ground arith; base = ground arith; term = ground arith }, λ c. ground arith)

  pub tick-Moves :
      (rf rf' : Raft C) (now timeout : ℕ) (sent : Option RequestVoteArgs)
      → tick gob rf now timeout ≡ some (rf', sent)
      → Moves rf rf'
  unfolding tick start_election persist
  tick-Moves rf rf' now timeout sent e =
      (record { log = ground arith; base = ground arith; term = ground arith }, λ c. ground arith)

  -- The reply handler makes a leader only of a candidate, in the candidate's term.
  pub vote_reply-Moves :
      (rf : Raft C) (term votes : ℕ) (reply : RequestVoteReply) (now : ℕ)
      → let rf' = (handle_vote_reply gob rf term votes reply now).0 in
        Moves rf rf'
        × (rf'.role ≡ Role.leader
            → ((rf.role ≡ Role.leader) ⊎ (rf.role ≡ Role.candidate))
              × (rf'.current_term ≡ rf.current_term))
  unfolding handle_vote_reply step_down
  vote_reply-Moves rf term votes reply now = (
    (record { log = ground arith; base = ground arith; term = ground arith }, λ c. ground arith),
    λ l. ground arith,
  )

  append_reply-Moves :
      (rf rf' : Raft C) (peer term : ℕ) (args : AppendEntriesArgs C) (reply : AppendEntriesReply)
      → handle_append_reply gob rf peer term args reply ≡ some rf'
      → Moves rf rf'
  unfolding handle_append_reply step_down
  append_reply-Moves rf rf' peer term args reply e =
      (record { log = ground arith; base = ground arith; term = ground arith }, λ c. ground arith)

  install_reply-Moves :
      (rf rf' : Raft C) (peer term : ℕ) (args : InstallSnapshotArgs) (reply : InstallSnapshotReply)
      → handle_install_reply gob rf peer term args reply ≡ some rf'
      → Moves rf rf'
  unfolding handle_install_reply step_down
  install_reply-Moves rf rf' peer term args reply e =
      (record { log = ground arith; base = ground arith; term = ground arith }, λ c. ground arith)

  apply_round-Moves :
      (rf rf' : Raft C) {msgs : List (ApplyMsg C)}
      → apply_round rf ≡ some (rf', msgs)
      → Moves rf rf'
  unfolding apply_round
  apply_round-Moves rf rf' e =
      (record { log = ground arith; base = ground arith; term = ground arith }, λ c. ground arith)

  append_entries-Stands :
      (rf rf' : Raft C) (args : AppendEntriesArgs C) (now : ℕ) (reply : AppendEntriesReply)
      → append_entries gob rf args now ≡ some (rf', reply)
      → Stands rf rf'
  unfolding append_entries enter_term match_log accept persist step_down
  append_entries-Stands rf rf' args now reply e c = ground arith

  install_snapshot-Stands :
      (rf : Raft C) (args : InstallSnapshotArgs) (now : ℕ)
      → Stands rf (install_snapshot gob rf args now).0
  unfolding install_snapshot step_down
  install_snapshot-Stands rf args now c = ground arith

  take_snapshot-Stands :
      (rf rf' : Raft C) (index : ℕ) (bytes : List ℕ)
      → take_snapshot gob rf index bytes ≡ some rf'
      → Stands rf rf'
  unfolding take_snapshot
  take_snapshot-Stands rf rf' index bytes e c = ground arith

  start-Stands : (rf : Raft C) (command : Option C) → Stands rf (start gob rf command).0
  unfolding start persist
  start-Stands rf command c = ground arith

  -- `Start` adds the command to the log of a leader.
  start-LogMove :
      (book : Book C) (rf : Raft C) (command : Option C) → LogMove book rf (start gob rf command).0
  unfolding start persist
  start-LogMove book rf command = elim (Bool-cases (is_leader rf.role)) [
    | inl lead ↦
        let l : rf.role ≡ Role.leader = ground (arith, lead) in
        rw (lead, start)
          (adds (record { command = command; term = rf.current_term }) refl l l refl refl refl refl)
    | inr other ↦ rw (other, start) (keeps (SameLog-refl rf))
  ]

  pub step-Stands :
      (rf rf' : Raft C) (event : Event C)
      → IsNoVoteReply event
      → step gob rf event ≡ some rf'
      → Stands rf rf'
  unfolding step kill
  step-Stands rf rf' (vote_request args now) h e =
      let (r, q) = state_of-eq (request_vote gob rf args now) e in
      (request_vote-Moves rf rf' args now r q).1
  step-Stands rf rf' (append_request args now) h e =
      let (r, q) = state_of-eq (append_entries gob rf args now) e in
      append_entries-Stands rf rf' args now r q
  step-Stands rf rf' (install_request args now) h e =
      subst (Stands rf) (some-inj e) (install_snapshot-Stands rf args now)
  step-Stands rf rf' (vote_reply term votes reply now) h e = absurd h
  step-Stands rf rf' (append_reply peer term args reply) h e =
      (append_reply-Moves rf rf' peer term args reply e).1
  step-Stands rf rf' (install_reply peer term args reply) h e =
      (install_reply-Moves rf rf' peer term args reply e).1
  step-Stands rf rf' (submits command) h e =
      subst (Stands rf) (some-inj e) (start-Stands rf command)
  step-Stands rf rf' (snapshots index bytes) h e = take_snapshot-Stands rf rf' index bytes e
  step-Stands rf rf' (ticks now timeout) h e =
      let (r, q) = state_of-eq (tick gob rf now timeout) e in (tick-Moves rf rf' now timeout r q).1
  step-Stands rf rf' applies h e =
      let (r, q) = state_of-eq (apply_round rf) e in (apply_round-Moves rf rf' q).1
  step-Stands rf rf' kills h e = subst (Stands rf) (some-inj e) (λ c. inl (c, refl))

  pub step-LogMove :
      (book : Book C) (rf rf' : Raft C) (event : Event C)
      → Chain book
      → LogOk book rf
      → MessageOk book rf event
      → IsNoVoteReply event
      → step gob rf event ≡ some rf'
      → LogMove book rf rf'
  unfolding step kill
  step-LogMove book rf rf' (vote_request args now) ch ok m h e =
      let (r, q) = state_of-eq (request_vote gob rf args now) e in
      keeps (request_vote-Moves rf rf' args now r q).0
  step-LogMove book rf rf' (append_request args now) ch ok m h e =
      let (r, q) = state_of-eq (append_entries gob rf args now) e in
      append_entries-LogMove gob book ch rf rf' args now r q ok m.0
        (λ l. ((step-Quiet gob rf rf' (append_request args now) h e).1 l).0) m.1
  step-LogMove book rf rf' (install_request args now) ch ok m h e =
      subst (LogMove book rf) (some-inj e) (
        install_snapshot-LogMove gob book ch rf ok args now m.0
          (λ l.
            ((step-Quiet gob rf (install_snapshot gob rf args now).0 (install_request args now) h
                refl).1
              l).0)
          m.1)
  step-LogMove book rf rf' (vote_reply term votes reply now) ch ok m h e = absurd h
  step-LogMove book rf rf' (append_reply peer term args reply) ch ok m h e =
      keeps (append_reply-Moves rf rf' peer term args reply e).0
  step-LogMove book rf rf' (install_reply peer term args reply) ch ok m h e =
      keeps (install_reply-Moves rf rf' peer term args reply e).0
  step-LogMove book rf rf' (submits command) ch ok m h e =
      subst (LogMove book rf) (some-inj e) (start-LogMove book rf command)
  step-LogMove book rf rf' (snapshots index bytes) ch ok m h e =
      take_snapshot-LogMove gob book rf rf' index bytes e ok.size
  step-LogMove book rf rf' (ticks now timeout) ch ok m h e =
      let (r, q) = state_of-eq (tick gob rf now timeout) e in
      keeps (tick-Moves rf rf' now timeout r q).0
  step-LogMove book rf rf' applies ch ok m h e =
      let (r, q) = state_of-eq (apply_round rf) e in keeps (apply_round-Moves rf rf' q).0
  step-LogMove book rf rf' kills ch ok m h e =
      subst (LogMove book rf) (some-inj e) (keeps (record { log = refl; base = refl; term = refl }))
