-- ===== src/Harness/Applier.antt =====
-- raft1/server.go: `rfsrv`, which reads what Raft applies, with `checkLogs` of raft1/test.go. An error
-- ends the program: it is `none`. A command is any value or nil.
use mit_6_824_distributed_sy.Prelude.{
  ℕ, zero, suc, ◌+◌, ◌%◌, Bool, true, false, ◌&&◌, ◌||◌, not, Option, none, some, List, [], ◌∷◌,
  if◌then◌else◌, ltb, ◌==◌, get_elem?, set, replicate, Key, lookup, insert, nat_key,
}
use mit_6_824_distributed_sy.Raft.State.{ApplyMsg, command_msg, snapshot_msg}

abbrev pub snap_shot_interval : ℕ
snap_shot_interval = 10

-- `rfsrv`
pub record RfServer (C : Type 0) : Type 0 where
  pub last_applied : ℕ
  pub logs : List (ℕ × Option C)

-- `Test`
pub record Test (C : Type 0) : Type 0 where
  pub servers : List (RfServer C)
  pub max_index : ℕ

-- The coding of a snapshot: the index of its last command, and the commands up to it.
pub record SnapCodec (C : Type 0) : Type 0 where
  pub encode : ℕ → List (Option C) → List ℕ
  pub decode : List ℕ → Option (ℕ × List (Option C))

abbrev pub is_some {ℓ} : {A : Type ℓ} → Option A → Bool
is_some none = false
is_some (some _) = true

-- `m[k]` of a map to commands: nil for a missing key.
abbrev pub value_or_nil : {C : Type 0} → Option (Option C) → Option C
value_or_nil none = none
value_or_nil (some v) = v

module _ {C : Type 0} where
  abbrev pub new_server : RfServer C
  new_server = record { last_applied = 0; logs = [] }

  -- `makeTest`, without the configuration.
  abbrev pub make_test : ℕ → Test C
  make_test n = record { servers = replicate n new_server; max_index = 0 }

  -- `Logs`
  abbrev pub logs_at : RfServer C → ℕ → Option (Option C)
  logs_at rs i = lookup i rs.logs

  -- `me.logs[m.CommandIndex-1]` with its second result.
  abbrev pub has_previous : RfServer C → ℕ → Bool
  has_previous rs zero = false
  has_previous rs (suc i) = is_some (lookup i rs.logs)

  -- `for j := 0; j < len(xlog); j++ { rs.logs[j] = xlog[j] }`, from `j` on.
  abbrev pub numbered : ℕ → List (Option C) → List (ℕ × Option C)
  numbered j [] = []
  numbered j (v ∷ vs) = (j, v) ∷ numbered (suc j) vs

  -- The commands from the index `j` on, `n` of them.
  abbrev pub gather : RfServer C → ℕ → ℕ → List (Option C)
  gather rs j zero = []
  gather rs j (suc n) = value_or_nil (lookup j rs.logs) ∷ gather rs (suc j) n

  -- The snapshot that `applierSnap` hands to Raft, if it is time for one.
  abbrev pub snapshot_due : SnapCodec C → RfServer C → ℕ → Option (ℕ × List ℕ)
  snapshot_due gob rs index =
      if (index + 1) % snap_shot_interval == 0
      then some (index, gob.encode index (gather rs 0 (index + 1)))
      else none

  -- `ingestSnap`; an index of -1 is `none`.
  unfoldable pub ingest_snap : SnapCodec C → List ℕ → Option ℕ → Option (RfServer C)
  ingest_snap gob snapshot index = elim (gob.decode snapshot) [
    | none ↦ none
    | some (last, xlog) ↦ elim index [
      | none ↦ some (record { last_applied = last; logs = numbered 0 xlog })
      | some i ↦
          if i == last then some (record { last_applied = last; logs = numbered 0 xlog }) else none
    ]
  ]

module _ {C : Type 0} ⦃eq : Key (Option C)⦄ where
  -- `oldok && old != v`
  abbrev pub conflicts : Option (Option C) → Option C → Bool
  conflicts none v = false
  conflicts (some old) v = not (eq.beq old v)

  -- The loop of `checkLogs`: whether some server has committed a different value.
  unfoldable pub any_conflict : List (RfServer C) → ℕ → Option C → Bool
  any_conflict [] index v = false
  any_conflict (rs ∷ servers) index v =
      let rest = any_conflict servers index v in
      if conflicts (logs_at rs index) v then true else rest

  -- `checkLogs`: whether there is an error, and whether the command before is there.
  unfoldable pub check_logs : Test C → ℕ → ℕ → Option C → Option (Bool × Bool × Test C)
  check_logs ts i index v = elim (get_elem? ts.servers i) [
    | none ↦ none
    | some me ↦ some (
      any_conflict ts.servers index v,
      has_previous me index,
      record {
        servers = set ts.servers i (record me { logs = insert index v me.logs });
        max_index = if ltb ts.max_index index then index else ts.max_index;
      },
    )
  ]

  -- What both loops make of `checkLogs`.
  unfoldable pub checked : Test C → ℕ → ℕ → Option C → Option (Test C)
  unfolding check_logs
  checked ts i index v = elim (check_logs ts i index v) [
    | none ↦ none
    | some (err, prevok, ts') ↦ if err || (ltb 1 index && not prevok) then none else some ts'
  ]

  -- `applier`, for one message.
  unfoldable pub applier : Test C → ℕ → ApplyMsg C → Option (Test C)
  unfolding checked
  applier ts i (snapshot_msg _ _ _) = some ts
  applier ts i (command_msg v index) = checked ts i index v

  -- `applierSnap`, for one message, with the snapshot that it takes.
  unfoldable pub applier_snap :
      SnapCodec C → Test C → ℕ → ApplyMsg C → Option (Test C × Option (ℕ × List ℕ))
  unfolding checked ingest_snap
  applier_snap gob ts i (snapshot_msg snapshot _ index) =
      elim (ingest_snap gob snapshot (some index)) [
        | none ↦ none
        | some rs ↦ some (record ts { servers = set ts.servers i rs }, none)
      ]
  applier_snap gob ts i (command_msg v index) = elim (get_elem? ts.servers i) [
    | none ↦ none
    | some me ↦ if not (index == me.last_applied + 1) then none else elim (checked ts i index v) [
      | none ↦ none
      | some ts' ↦ elim (get_elem? ts'.servers i) [
        | none ↦ none
        | some me' ↦ some (
          record ts' { servers = set ts'.servers i (record me' { last_applied = index }) },
          snapshot_due gob me' index,
        )
      ]
    ]
  ]

  -- Messages that the servers' loops get, in the order in which they get them.
  unfoldable pub run_applier : Test C → List (ℕ × ApplyMsg C) → Option (Test C)
  run_applier ts [] = some ts
  run_applier ts ((i, m) ∷ more) = elim (applier ts i m) [
    | none ↦ none
    | some ts' ↦ run_applier ts' more
  ]
