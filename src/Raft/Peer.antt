-- ===== src/Raft/Peer.antt =====
-- All that can happen at one peer of raft1/raft.go, as one step function.
use mit_6_824_distributed_sy.Prelude.{◌≡◌, ◌⊎◌, inl, inr, ℕ, Option, none, some, List, [], ◌∷◌}
use mit_6_824_distributed_sy.Raft.State.{Raft, kill}
use mit_6_824_distributed_sy.Raft.Persist.{Codec, make_raft}
use mit_6_824_distributed_sy.Raft.Election.{
  RequestVoteArgs, RequestVoteReply, request_vote, handle_vote_reply, tick,
}
use mit_6_824_distributed_sy.Raft.Append.{AppendEntriesArgs, AppendEntriesReply, append_entries}
use mit_6_824_distributed_sy.Raft.Compaction.{
  InstallSnapshotArgs, InstallSnapshotReply, install_snapshot, take_snapshot,
}
use mit_6_824_distributed_sy.Raft.Leader.{start, handle_append_reply, handle_install_reply}
use mit_6_824_distributed_sy.Raft.Apply.{apply_round}

pub data Event (C : Type 0) : Type 0 where
  vote_request : (args : RequestVoteArgs) → (now : ℕ) → Event C
  append_request : (args : AppendEntriesArgs C) → (now : ℕ) → Event C
  install_request : (args : InstallSnapshotArgs) → (now : ℕ) → Event C
  vote_reply : (term votes : ℕ) → (reply : RequestVoteReply) → (now : ℕ) → Event C
  append_reply :
      (peer term : ℕ) → (args : AppendEntriesArgs C) → (reply : AppendEntriesReply) → Event C
  install_reply :
      (peer term : ℕ) → (args : InstallSnapshotArgs) → (reply : InstallSnapshotReply) → Event C
  submits : (command : Option C) → Event C
  snapshots : (index : ℕ) → (bytes : List ℕ) → Event C
  ticks : (now timeout : ℕ) → Event C
  applies : Event C
  kills : Event C

-- The events that are no reply to a request for a vote.
abbrev pub IsNoVoteReply : {C : Type 0} → Event C → Type 0
IsNoVoteReply (vote_reply _ _ _ _) = ⊥
IsNoVoteReply _ = Unit {0}

abbrev pub state_of {ℓ} : {C : Type 0} {A : Type ℓ} → Option (Raft C × A) → Option (Raft C)
state_of none = none
state_of (some (rf, _)) = some rf

module _ {C : Type 0} (gob : Codec C) where
  -- The state after an event; `none` where the handler panics.
  unfoldable pub step : Raft C → Event C → Option (Raft C)
  step rf (vote_request args now) = state_of (request_vote gob rf args now)
  step rf (append_request args now) = state_of (append_entries gob rf args now)
  step rf (install_request args now) = some (install_snapshot gob rf args now).0
  step rf (vote_reply term votes reply now) = some (handle_vote_reply gob rf term votes reply now).0
  step rf (append_reply peer term args reply) = handle_append_reply gob rf peer term args reply
  step rf (install_reply peer term args reply) = handle_install_reply gob rf peer term args reply
  step rf (submits command) = some (start gob rf command).0
  step rf (snapshots index bytes) = take_snapshot gob rf index bytes
  step rf (ticks now timeout) = state_of (tick gob rf now timeout)
  step rf applies = state_of (apply_round rf)
  step rf kills = some (kill rf)

  -- A restart loses all that is not in the persister; `Make` runs with the same number.
  unfoldable pub restart : Raft C → ℕ → Raft C
  restart rf now = make_raft gob rf.peers rf.me rf.persister now

  -- A history: events, and crashes with a restart at a given time.
  unfoldable pub run : Raft C → List (Event C ⊎ ℕ) → Option (Raft C)
  run rf [] = some rf
  run rf (inl event ∷ more) = elim (step rf event) [ none ↦ none | some rf' ↦ run rf' more ]
  run rf (inr now ∷ more) = run (restart rf now) more

pub state_of-eq {ℓ} :
    {C : Type 0} {A : Type ℓ} (o : Option (Raft C × A)) {rf : Raft C}
    → state_of o ≡ some rf
    → (a : A) × (o ≡ some (rf, a))
state_of-eq none e = cc
state_of-eq (some (rf, a)) e = (a, cc)
