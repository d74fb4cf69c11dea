-- ===== src/MapReduce/Assignment.antt =====
-- Which task `GetTask` of mr/coordinator.go hands out.
use mit_6_824_distributed_sy.Prelude.{
  ℕ, zero, suc, ◌+◌, ◌<◌, some-inj, ◌≡◌, ◌≢◌, refl, sym, ap, subst, Bool, true, false, ◌&&◌, some,
  List, [], ◌∷◌, arith, get_elem?, set, inl, inr, ◌⊎◌, Bool-cases,
}
use mit_6_824_distributed_sy.MapReduce.Coordinator.{
  TaskState, TaskType, TaskInfo, Coordinator, GetTaskReply, Scan, picked, none_idle, keep, scan,
  reduce_scanned, reduce_phase, map_scanned, by_phase, get_task, is_idle, is_completed,
}

-- No task of the list is idle, and not all of them are completed.
abbrev pub NoIdle : List TaskInfo → Type 0
NoIdle [] = Unit {0}
NoIdle (t ∷ ts) = (t.state ≢ TaskState.idle) × NoIdle ts

abbrev pub all_completed : List TaskInfo → Bool
all_completed [] = true
all_completed (t ∷ ts) = is_completed t.state && all_completed ts

-- The task `t` at index `o` of `ts` is idle, none before it is, and in `ts'` it has been started at
-- the time `now`, with nothing else changed.
pub record Picks (ts : List TaskInfo) (now o : ℕ) (t : TaskInfo) (ts' : List TaskInfo)
    : Type 0 where
  pub at : get_elem? ts o ≡ some t
  pub was_idle : t.state ≡ TaskState.idle
  pub is_first : (i : ℕ) (u : TaskInfo) → i < o → get_elem? ts i ≡ some u → u.state ≢ TaskState.idle
  pub started : ts' ≡ set ts o (record t { state = TaskState.in_progress; start_time = now })

abbrev ScanIs : List TaskInfo → ℕ → ℕ → Bool → Scan → Type 0
ScanIs ts i now d (picked k t ts') = (o : ℕ) × (k ≡ i + o) × Picks ts now o t ts'
ScanIs ts i now d (none_idle b) = NoIdle ts × (b ≡ (all_completed ts && d))

keep-ScanIs :
    (t : TaskInfo) (ts : List TaskInfo) (i now : ℕ) (d : Bool) (r : Scan)
    → is_idle t.state ≡ false
    → ScanIs ts (i + 1) now (is_completed t.state && d) r
    → ScanIs (t ∷ ts) i now d (keep t r)
keep-ScanIs t ts i now d (picked k task ts') busy (o, e, p) = (
  suc o,
  omega (arith, e),
  record { at = p.at; was_idle = p.was_idle; is_first = before; started = ap (◌∷◌ t) p.started },
)
  where
    before :
        (j : ℕ) (u : TaskInfo)
        → j < suc o
        → get_elem? (t ∷ ts) j ≡ some u
        → u.state ≢ TaskState.idle
    before zero u lt h = λ free. ground (arith, free, busy, some-inj h)
    before (suc j) u lt h = p.is_first j u (omega (arith, lt)) h
keep-ScanIs t ts i now d (none_idle b) busy (rest, e) =
    ((λ h. ground (arith, h, busy), rest), ground (arith, e))

scan-ScanIs : (ts : List TaskInfo) (i now : ℕ) (d : Bool) → ScanIs ts i now d (scan ts i now d)
unfolding scan
scan-ScanIs [] i now d = (tt, refl)
scan-ScanIs (t ∷ ts) i now d = elim (Bool-cases (is_idle t.state)) [
  | inl free ↦
      rw (free, scan)
        (
          0,
          omega arith,
          record {
            at = refl;
            was_idle = ground (arith, free);
            is_first = λ i u lt h. absurd (omega (arith, lt));
            started = refl;
          },
        )
  | inr busy ↦
      rw (busy, scan)
        (keep-ScanIs t ts i now d (scan ts (i + 1) now (is_completed t.state && d)) busy
          (scan-ScanIs ts (i + 1) now (is_completed t.state && d)))
]

-- Reduce tasks are handed out: the phase is theirs, or it is the map phase with nothing left to do.
abbrev pub PastMaps : Coordinator → Type 0
PastMaps c =
    (c.phase ≡ TaskType.reduce_task)
    ⊎ ((c.phase ≡ TaskType.map_task) × (all_completed c.map_tasks ≡ true))

-- The answers of `GetTask`, with what they do to the coordinator.
pub data Answer (c c' : Coordinator) (now : ℕ) (reply : GetTaskReply) : Type 0 where
  map_given :
      (t : TaskInfo)
      → c.phase ≡ TaskType.map_task
      → reply.type ≡ TaskType.map_task
      → reply.filename ≡ t.filename
      → reply.n_reduce ≡ c.n_reduce
      → reply.n_map ≡ c.n_map
      → Picks c.map_tasks now reply.task_id t c'.map_tasks
      → c' ≡ record c { map_tasks = c'.map_tasks }
      → Answer c c' now reply
  reduce_given :
      (t : TaskInfo)
      → PastMaps c
      → reply.type ≡ TaskType.reduce_task
      → reply.n_reduce ≡ c.n_reduce
      → reply.n_map ≡ c.n_map
      → Picks c.reduce_tasks now reply.task_id t c'.reduce_tasks
      → c' ≡ record c { reduce_tasks = c'.reduce_tasks; phase = TaskType.reduce_task }
      → Answer c c' now reply
  map_wait :
      c.phase ≡ TaskType.map_task
      → reply.type ≡ TaskType.wait_task
      → c' ≡ c
      → NoIdle c.map_tasks
      → all_completed c.map_tasks ≡ false
      → Answer c c' now reply
  reduce_wait :
      reply.type ≡ TaskType.wait_task
      → PastMaps c
      → c' ≡ record c { phase = TaskType.reduce_task }
      → NoIdle c.reduce_tasks
      → all_completed c.reduce_tasks ≡ false
      → Answer c c' now reply
  exit :
      reply.type ≡ TaskType.exit_task
      → c' ≡ record c { phase = TaskType.exit_task }
      → (c.phase ≡ TaskType.exit_task) ⊎ (PastMaps c × (all_completed c.reduce_tasks ≡ true))
      → Answer c c' now reply

-- `GetTask` past its map phase, for a coordinator `c1` that is `c` but for its phase.
module _ (c : Coordinator) (now : ℕ) (ready : PastMaps c) where
  abbrev c1 : Coordinator
  c1 = record c { phase = TaskType.reduce_task }

  abbrev Reduced : Coordinator × GetTaskReply → Type 0
  Reduced (c', reply) = Answer c c' now reply

  reduce_answer : (r : Scan) → ScanIs c.reduce_tasks 0 now true r → Reduced (reduce_scanned c1 r)
  unfolding reduce_scanned
  reduce_answer (picked k t ts) (o, at, p) =
      reduce_given t ready refl refl refl
        (subst (λ i. Picks c.reduce_tasks now i t ts) (omega (arith, at)) p) refl
  reduce_answer (none_idle true) (rest, all) = exit refl refl (inr (ready, ground (arith, all)))
  reduce_answer (none_idle false) (rest, some_left) =
      reduce_wait refl ready refl rest (ground (arith, some_left))

  reduces : Reduced (reduce_phase c1 now)
  unfolding reduce_phase
  reduces = reduce_answer (scan c.reduce_tasks 0 now true) (scan-ScanIs c.reduce_tasks 0 now true)

map-Answer :
    (c : Coordinator) (now : ℕ) (r : Scan)
    → c.phase ≡ TaskType.map_task
    → ScanIs c.map_tasks 0 now true r
    → Answer c (map_scanned c now r).0 now (map_scanned c now r).1
unfolding map_scanned
map-Answer c now (picked k t ts) m (o, at, p) =
    map_given t m refl refl refl refl
      (subst (λ i. Picks c.map_tasks now i t ts) (omega (arith, at)) p) refl
map-Answer c now (none_idle true) m (rest, all) = reduces c now (inr (m, ground (arith, all)))
map-Answer c now (none_idle false) m (rest, some_left) =
    map_wait m refl refl rest (ground (arith, some_left))

-- Unless the phase is the wait task's, `GetTask` does one of these things. It hands out a map task in
-- the map phase, or a reduce task in the reduce phase or with every map task completed: the task is
-- idle and no task before it is, the answer names its index and the counts of tasks, and it is
-- started at the given time, with nothing else changed but, for a reduce task, the phase. It tells a
-- worker to wait if no task of the phase is idle and not all are completed. It tells it to exit in
-- the exit phase or with every task of the phases that were left completed. In these cases nothing
-- but the phase changes, to the one it has come to.
pub get_task-Answer :
    (c : Coordinator) (now : ℕ)
    → c.phase ≢ TaskType.wait_task
    → Answer c (get_task c now).0 now (get_task c now).1
unfolding get_task
get_task-Answer c now w = go c.phase refl
  where
    go : (p : TaskType) → c.phase ≡ p → Answer c (get_task c now).0 now (get_task c now).1
    go TaskType.map_task e =
        subst (λ p. Answer c (by_phase p c now).0 now (by_phase p c now).1) (sym e)
          (map-Answer c now (scan c.map_tasks 0 now true) e (scan-ScanIs c.map_tasks 0 now true))
    go TaskType.reduce_task e =
        subst (λ p. Answer c (by_phase p c now).0 now (by_phase p c now).1) (sym e)
          (subst (λ d. Answer c (reduce_phase d now).0 now (reduce_phase d now).1)
            (λ i. record c { phase = sym e i }) (reduces c now (inl e)))
    go TaskType.wait_task e = absurd (w e)
    go TaskType.exit_task e =
        subst (λ p. Answer c (by_phase p c now).0 now (by_phase p c now).1) (sym e)
          (exit refl (λ i. record c { phase = e i }) (inl e))
