-- ===== src/Raft/Persist.antt =====
-- raft1/raft.go: `persist`, `readPersist` and `Make`. The encoding is gob's, a codec here: what it
-- encodes, it decodes, and an encoding is not empty.
use mit_6_824_distributed_sy.Prelude.{
  ℕ, ◌≡◌, ◌≢◌, false, Option, none, some, List, [], ◌∷◌, replicate,
}
use mit_6_824_distributed_sy.Raft.State.{Role, LogEntry, sentinel, Persister, save, Raft}

-- What `persist` encodes, in its order.
pub record Persistent (C : Type 0) : Type 0 where
  pub current_term : ℕ
  pub voted_for : Option ℕ
  pub log : List (LogEntry C)
  pub last_included_index : ℕ
  pub last_included_term : ℕ

pub record Codec (C : Type 0) : Type 0 where
  pub encode : Persistent C → List ℕ
  pub decode : List ℕ → Option (Persistent C)
  pub decode-encode : (p : Persistent C) → decode (encode p) ≡ some p
  pub encode_nonempty : (p : Persistent C) → encode p ≢ []

module _ {C : Type 0} where
  abbrev pub persistent : Raft C → Persistent C
  persistent rf = record {
    current_term = rf.current_term;
    voted_for = rf.voted_for;
    log = rf.log;
    last_included_index = rf.last_included_index;
    last_included_term = rf.last_included_term;
  }

  abbrev pub restore : Raft C → Persistent C → Raft C
  restore rf p = record rf {
    current_term = p.current_term;
    voted_for = p.voted_for;
    log = p.log;
    last_included_index = p.last_included_index;
    last_included_term = p.last_included_term;
  }

  -- The initial values that `Make` gives before it reads the persisted state.
  abbrev pub fresh : Persistent C
  fresh = record {
    current_term = 0;
    voted_for = none;
    log = sentinel 0 ∷ [];
    last_included_index = 0;
    last_included_term = 0;
  }

module _ {C : Type 0} (gob : Codec C) where
  -- `persist` keeps the snapshot that is stored.
  unfoldable pub persist : Raft C → Raft C
  persist rf = record rf {
    persister = save rf.persister (gob.encode (persistent rf)) rf.persister.snapshot;
  }

  -- What a peer that starts from stored bytes takes for its persistent state.
  unfoldable pub stored : List ℕ → Persistent C → Persistent C
  stored [] p = p
  stored (b ∷ bs) p = elim (gob.decode (b ∷ bs)) [ none ↦ p | some q ↦ q ]

  -- `readPersist`
  unfoldable pub read_persist : Raft C → List ℕ → Raft C
  unfolding stored
  read_persist rf bytes = restore rf (stored bytes (persistent rf))

  blank : ℕ → ℕ → Persister → ℕ → Raft C
  blank peers me persister now =
      restore
        (record {
          persister = persister;
          peers = peers;
          me = me;
          dead = false;
          current_term = 0;
          voted_for = none;
          log = [];
          last_included_index = 0;
          last_included_term = 0;
          commit_index = 0;
          last_applied = 0;
          next_index = replicate peers 0;
          match_index = replicate peers 0;
          role = Role.follower;
          last_heartbeat = now;
        })
        fresh

  -- `Make`, up to the goroutines that it starts.
  unfoldable pub make_raft : ℕ → ℕ → Persister → ℕ → Raft C
  unfolding blank read_persist
  make_raft peers me persister now =
      let rf = read_persist (blank peers me persister now) persister.raftstate in
      record rf { commit_index = rf.last_included_index; last_applied = rf.last_included_index }

  -- The common part of the handlers that meet a higher term.
  unfoldable pub step_down : Raft C → ℕ → Raft C
  unfolding persist
  step_down rf term =
      persist (record rf { current_term = term; role = Role.follower; voted_for = none })
