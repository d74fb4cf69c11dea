-- ===== src/Raft/Votes/Handlers.antt =====
-- The other handlers of raft1/raft.go at one peer, and all of them as steps.
use mit_6_824_distributed_sy.Prelude.{
  ℕ, ◌<◌, ◌≡◌, refl, Option, some, List, inl, inr, arith, ltb, Bool-cases, subst, some-inj,
}
use mit_6_824_distributed_sy.Raft.State.{Raft, kill, ApplyMsg}
use mit_6_824_distributed_sy.Raft.Persist.{Codec, persist, step_down}
use mit_6_824_distributed_sy.Raft.Election.{request_vote, tick}
use mit_6_824_distributed_sy.Raft.Append.{
  AppendEntriesArgs, AppendEntriesReply, append_entries, enter_term, match_log, accept, empty_reply,
}
use mit_6_824_distributed_sy.Raft.Compaction.{
  InstallSnapshotArgs, InstallSnapshotReply, install_snapshot, take_snapshot,
}
use mit_6_824_distributed_sy.Raft.Leader.{start, handle_append_reply, handle_install_reply}
use mit_6_824_distributed_sy.Raft.Apply.{apply_round}
use mit_6_824_distributed_sy.Raft.Peer.{
  Event, vote_request, append_request, install_request, vote_reply, append_reply, install_reply,
  submits, snapshots, ticks, applies, kills, step, state_of-eq, IsNoVoteReply,
}
use mit_6_824_distributed_sy.Raft.Votes.{Quiet, Quiet-trans, Same, Same-Quiet}
use mit_6_824_distributed_sy.Raft.Votes.Ballot.{request_vote-Quiet, tick-Quiet}

module _ {C : Type 0} (gob : Codec C) where
  enter_term-Quiet : (rf : Raft C) (term now : ℕ) → Quiet rf (enter_term gob rf term now)
  unfolding enter_term step_down
  enter_term-Quiet rf term now = (
    record {
      same_me = ground arith;
      same_peers = ground arith;
      term_grows = ground arith;
      vote_stays = λ c t v. ground arith;
    },
    λ l. ground arith,
  )

  step_down-Quiet :
      (rf : Raft C) (term : ℕ) → rf.current_term < term → Quiet rf (step_down gob rf term)
  unfolding step_down
  step_down-Quiet rf term h = (
    record {
      same_me = refl;
      same_peers = refl;
      term_grows = omega arith;
      vote_stays = λ c t v. absurd (omega (arith, t));
    },
    λ l. cc,
  )

  accept-Same : (rf : Raft C) (args : AppendEntriesArgs C) → Same rf (accept gob rf args)
  unfolding accept persist
  accept-Same rf args = ground arith

  match_log-Same :
      (rf rf' : Raft C) (args : AppendEntriesArgs C) (reply reply' : AppendEntriesReply)
      → match_log gob rf args reply ≡ some (rf', reply')
      → Same rf rf'
  unfolding match_log
  match_log-Same rf rf' args reply reply' e = ground (arith, accept-Same rf args)

  append_entries-Quiet :
      (rf rf' : Raft C) (args : AppendEntriesArgs C) (now : ℕ) (reply : AppendEntriesReply)
      → append_entries gob rf args now ≡ some (rf', reply)
      → Quiet rf rf'
  unfolding append_entries
  append_entries-Quiet rf rf' args now reply e = elim (Bool-cases (ltb args.term rf.current_term)) [
    | inl old ↦ Same-Quiet rf rf' (ground (arith, old, e))
    | inr new ↦
        let rf1 = enter_term gob rf args.term now in
        Quiet-trans (enter_term-Quiet rf args.term now) (
          Same-Quiet rf1 rf' (
            match_log-Same rf1 rf' args (record empty_reply { term = rf1.current_term }) reply
              (rw new at e)))
  ]

  install_snapshot-Quiet :
      (rf : Raft C) (args : InstallSnapshotArgs) (now : ℕ)
      → Quiet rf (install_snapshot gob rf args now).0
  unfolding install_snapshot step_down
  install_snapshot-Quiet rf args now = (
    record {
      same_me = ground arith;
      same_peers = ground arith;
      term_grows = ground arith;
      vote_stays = λ c t v. ground arith;
    },
    λ l. ground arith,
  )

  append_reply-Quiet :
      (rf rf' : Raft C) (peer term : ℕ) (args : AppendEntriesArgs C) (reply : AppendEntriesReply)
      → handle_append_reply gob rf peer term args reply ≡ some rf'
      → Quiet rf rf'
  unfolding handle_append_reply step_down
  append_reply-Quiet rf rf' peer term args reply e = (
    record {
      same_me = ground arith;
      same_peers = ground arith;
      term_grows = ground arith;
      vote_stays = λ c t v. ground arith;
    },
    λ l. ground arith,
  )

  install_reply-Quiet :
      (rf rf' : Raft C) (peer term : ℕ) (args : InstallSnapshotArgs) (reply : InstallSnapshotReply)
      → handle_install_reply gob rf peer term args reply ≡ some rf'
      → Quiet rf rf'
  unfolding handle_install_reply step_down
  install_reply-Quiet rf rf' peer term args reply e = (
    record {
      same_me = ground arith;
      same_peers = ground arith;
      term_grows = ground arith;
      vote_stays = λ c t v. ground arith;
    },
    λ l. ground arith,
  )

  take_snapshot-Same :
      (rf rf' : Raft C) (index : ℕ) (bytes : List ℕ)
      → take_snapshot gob rf index bytes ≡ some rf'
      → Same rf rf'
  unfolding take_snapshot
  take_snapshot-Same rf rf' index bytes e = ground arith

  start-Same : (rf : Raft C) (command : Option C) → Same rf (start gob rf command).0
  unfolding start persist
  start-Same rf command = ground arith

  apply_round-Same :
      (rf rf' : Raft C) {msgs : List (ApplyMsg C)} → apply_round rf ≡ some (rf', msgs) → Same rf rf'
  unfolding apply_round
  apply_round-Same rf rf' e = ground arith

  pub step-Quiet :
      (rf rf' : Raft C) (event : Event C)
      → IsNoVoteReply event
      → step gob rf event ≡ some rf'
      → Quiet rf rf'
  unfolding step kill
  step-Quiet rf rf' (vote_request args now) h e =
      let (r, q) = state_of-eq (request_vote gob rf args now) e in
      request_vote-Quiet gob rf rf' args now r q
  step-Quiet rf rf' (append_request args now) h e =
      let (r, q) = state_of-eq (append_entries gob rf args now) e in
      append_entries-Quiet rf rf' args now r q
  step-Quiet rf rf' (install_request args now) h e =
      subst (Quiet rf) (some-inj e) (install_snapshot-Quiet rf args now)
  step-Quiet rf rf' (vote_reply term votes reply now) h e = absurd h
  step-Quiet rf rf' (append_reply peer term args reply) h e =
      append_reply-Quiet rf rf' peer term args reply e
  step-Quiet rf rf' (install_reply peer term args reply) h e =
      install_reply-Quiet rf rf' peer term args reply e
  step-Quiet rf rf' (submits command) h e =
      subst (Quiet rf) (some-inj e) (Same-Quiet rf _ (start-Same rf command))
  step-Quiet rf rf' (snapshots index bytes) h e =
      Same-Quiet rf rf' (take_snapshot-Same rf rf' index bytes e)
  step-Quiet rf rf' (ticks now timeout) h e =
      let (r, q) = state_of-eq (tick gob rf now timeout) e in tick-Quiet gob rf rf' now timeout r q
  step-Quiet rf rf' applies h e =
      let (r, q) = state_of-eq (apply_round rf) e in Same-Quiet rf rf' (apply_round-Same rf rf' q)
  step-Quiet rf rf' kills h e = subst (Quiet rf) (some-inj e) (
      Same-Quiet rf (kill rf)
        (record { me = refl; peers = refl; term = refl; vote = refl; role = refl }))
