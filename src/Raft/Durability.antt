-- ===== src/Raft/Durability.antt =====
-- raft1/raft.go: the persister of a peer against its memory, across its steps and its crashes.
use mit_6_824_distributed_sy.Raft.Saves.{
  install_reply-Saves, Saves, append_entries-Saves, vote_reply-Saves, tick-Saves,
  request_vote-Saves, install_snapshot-Saves, take_snapshot-Saves, apply_round-Saves, start-Saves,
  append_reply-Saves,
}
use mit_6_824_distributed_sy.Prelude.{
  some-inj, subst, ℕ, ◌≡◌, ◌≢◌, refl, ap, some, List, [], ◌∷◌, ◌⊎◌, inl, inr, arith, Option-cases,
}
use mit_6_824_distributed_sy.Raft.State.{Role, Raft, Persister, kill}
use mit_6_824_distributed_sy.Raft.Persist.{Codec, Persistent, persistent, fresh, stored, make_raft}
use mit_6_824_distributed_sy.Raft.Election.{request_vote, tick}
use mit_6_824_distributed_sy.Raft.Append.{append_entries}
use mit_6_824_distributed_sy.Raft.Apply.{apply_round}
use mit_6_824_distributed_sy.Raft.Peer.{
  Event, vote_request, append_request, install_request, vote_reply, append_reply, install_reply,
  submits, snapshots, ticks, applies, kills, step, run, restart, state_of-eq,
}

module _ {C : Type 0} (gob : Codec C) where
  -- What the persister holds reads back as what is in memory.
  abbrev pub IsDurable : Raft C → Type 0
  IsDurable rf = stored gob rf.persister.raftstate fresh ≡ persistent rf

  stored-encode : (p q : Persistent C) → stored gob (gob.encode p) q ≡ p
  unfolding stored
  stored-encode p q = go (gob.encode p) (gob.encode_nonempty p) (gob.decode-encode p)
    where
      go : (bs : List ℕ) → bs ≢ [] → gob.decode bs ≡ some p → stored gob bs q ≡ p
      go [] ne d = absurd (ne refl)
      go (b ∷ bs) ne d = rw (d, stored)

  pub Saves-IsDurable : (rf rf' : Raft C) → Saves gob rf rf' → IsDurable rf → IsDurable rf'
  Saves-IsDurable rf rf' (inl (same, kept)) d = rw (same, kept) d
  Saves-IsDurable rf rf' (inr saved) d = rw saved (stored-encode (persistent rf') fresh)

  pub step-Saves :
      (rf rf' : Raft C) (event : Event C) → step gob rf event ≡ some rf' → Saves gob rf rf'
  unfolding step kill
  step-Saves rf rf' (vote_request args now) e =
      let (r, q) = state_of-eq (request_vote gob rf args now) e in
      request_vote-Saves gob rf rf' args now r q
  step-Saves rf rf' (append_request args now) e =
      let (r, q) = state_of-eq (append_entries gob rf args now) e in
      append_entries-Saves gob rf rf' args now r q
  step-Saves rf rf' (install_request args now) e =
      ground (arith, e, install_snapshot-Saves gob rf args now)
  step-Saves rf rf' (vote_reply term votes reply now) e =
      ground (arith, e, vote_reply-Saves gob rf term votes reply now)
  step-Saves rf rf' (append_reply peer term args reply) e =
      append_reply-Saves gob rf rf' peer term args reply e
  step-Saves rf rf' (install_reply peer term args reply) e =
      install_reply-Saves gob rf rf' peer term args reply e
  step-Saves rf rf' (submits command) e = ground (arith, e, start-Saves gob rf command)
  step-Saves rf rf' (snapshots index bytes) e = take_snapshot-Saves gob rf rf' index bytes e
  step-Saves rf rf' (ticks now timeout) e =
      let (r, q) = state_of-eq (tick gob rf now timeout) e in tick-Saves gob rf rf' now timeout r q
  step-Saves rf rf' applies e =
      let (r, q) = state_of-eq (apply_round rf) e in apply_round-Saves gob rf rf' q
  step-Saves rf rf' kills e = inl (ground arith)

  -- A restart brings back what the persister holds.
  pub restart-persistent :
      (rf : Raft C) (now : ℕ)
      → persistent (restart gob rf now) ≡ stored gob rf.persister.raftstate fresh
  unfolding restart make_raft
  restart-persistent rf now = refl

  pub restart-IsDurable : (rf : Raft C) (now : ℕ) → IsDurable (restart gob rf now)
  unfolding restart make_raft
  restart-IsDurable rf now = refl

  -- What a restart leaves of a peer.
  pub record Recovered (rf rf' : Raft C) : Type 0 where
    pub kept : persistent rf' ≡ persistent rf
    pub same_store : rf'.persister ≡ rf.persister
    pub is_follower : rf'.role ≡ Role.follower
    pub committed : rf'.commit_index ≡ rf.last_included_index
    pub applied : rf'.last_applied ≡ rf.last_included_index

  run-IsDurable :
      (rf rf' : Raft C) (events : List (Event C ⊎ ℕ))
      → IsDurable rf
      → run gob rf events ≡ some rf'
      → IsDurable rf'
  unfolding run
  run-IsDurable rf rf' [] d e = subst IsDurable (some-inj e) d
  run-IsDurable rf rf' (inl event ∷ more) d e = elim (Option-cases (step gob rf event)) [
    | inl panics ↦ absurd (ground (arith, panics, e))
    | inr (rf1, s) ↦
        run-IsDurable rf1 rf' more (Saves-IsDurable rf rf1 (step-Saves rf rf1 event s) d)
          (rw (s, run) at e)
  ]
  run-IsDurable rf rf' (inr now ∷ more) d e =
      run-IsDurable (restart gob rf now) rf' more (restart-IsDurable rf now) e

  -- A peer that starts with an empty persister, or with whatever another run left there, and goes
  -- through any events and crashes, comes out of one more crash with the term, the vote, the log
  -- and the snapshot position that it had, as a follower that has applied up to its snapshot.
  pub crash_recovery :
      (peers me : ℕ) (persister : Persister) (began now : ℕ) (events : List (Event C ⊎ ℕ))
      {rf : Raft C}
      → run gob (make_raft gob peers me persister began) events ≡ some rf
      → Recovered rf (restart gob rf now)
  unfolding restart make_raft
  crash_recovery peers me persister began now events {rf} e =
      let d = run-IsDurable (make_raft gob peers me persister began) rf events refl e in
      record {
        kept = d;
        same_store = refl;
        is_follower = refl;
        committed = ap (λ (p : Persistent C). p.last_included_index) d;
        applied = ap (λ (p : Persistent C). p.last_included_index) d;
      }
