-- ===== src/MapReduce/Phases.antt =====
-- The phases of mr/coordinator.go against the states of its tasks.
use mit_6_824_distributed_sy.Prelude.{
  length-map, ℕ, suc, zero, ◌+◌, ◌≡◌, ◌≢◌, refl, sym, ◌∙◌, ap, subst, String, Bool, true, false,
  ◌&&◌, some, List, [], ◌∷◌, arith, length, get_elem?, set, length-set, length-replicate,
  Option-cases, some-inj, inl, inr,
}
use mit_6_824_distributed_sy.MapReduce.Coordinator.{
  TaskState, TaskType, TaskInfo, Coordinator, FinishedTaskArgs, Scan, picked, none_idle, scan,
  get_task, is_completed, complete, finished_task, expire, check_timeouts, done, make_coordinator,
  Event, gets, finishes, checks, step, run,
}

abbrev pub AllCompleted : List TaskInfo → Type 0
AllCompleted [] = Unit {0}
AllCompleted (t ∷ ts) = (t.state ≡ TaskState.completed) × AllCompleted ts

-- What a scan that reaches the end has seen, and what one that does not has kept.
abbrev ScanFacts : List TaskInfo → Bool → Scan → Type 0
ScanFacts ts d (picked i task tasks) = length tasks ≡ length ts
ScanFacts ts d (none_idle true) = AllCompleted ts × (d ≡ true)
ScanFacts ts d (none_idle false) = Unit {0}

scan_facts : (ts : List TaskInfo) (i now : ℕ) (d : Bool) → ScanFacts ts d (scan ts i now d)
unfolding scan
scan_facts [] i now true = (tt, refl)
scan_facts [] i now false = tt
scan_facts (t ∷ ts) i now d = ground (arith, scan_facts ts (i + 1) now (is_completed t.state && d))

set-AllCompleted :
    (ts : List TaskInfo) (i : ℕ) (t : TaskInfo)
    → t.state ≡ TaskState.completed
    → AllCompleted ts
    → AllCompleted (set ts i t)
set-AllCompleted [] i t e a = tt
set-AllCompleted (x ∷ xs) zero t e a = (e, a.1)
set-AllCompleted (x ∷ xs) (suc i) t e a = (a.0, set-AllCompleted xs i t e a.1)

-- The phase follows the tasks.
pub record Inv (maps reduces : ℕ) (c : Coordinator) : Type 0 where
  pub waits : c.phase ≢ TaskType.wait_task
  pub map_count : length c.map_tasks ≡ maps
  pub reduce_count : length c.reduce_tasks ≡ reduces
  pub maps_done : c.phase ≢ TaskType.map_task → AllCompleted c.map_tasks
  pub reduces_done : c.phase ≡ TaskType.exit_task → AllCompleted c.reduce_tasks

get_task-Inv : {m r : ℕ} (c : Coordinator) (now : ℕ) → Inv m r c → Inv m r (get_task c now).0
unfolding get_task
get_task-Inv c now inv = record {
  waits = λ e. ground (arith, e, inv.waits);
  map_count = ground (arith, inv.map_count, scan_facts c.map_tasks 0 now true);
  reduce_count = ground (arith, inv.reduce_count, scan_facts c.reduce_tasks 0 now true);
  maps_done = λ ne. ground (arith, ne, inv.maps_done, scan_facts c.map_tasks 0 now true);
  reduces_done = λ e. ground (arith, e, inv.reduces_done, scan_facts c.reduce_tasks 0 now true);
}

complete-length :
    (ts ts' : List TaskInfo) (i : ℕ) → complete ts i ≡ some ts' → length ts' ≡ length ts
unfolding complete
complete-length ts ts' i e = elim (Option-cases (get_elem? ts i)) [
  | inl missing ↦ absurd (ground (arith, missing, e))
  | inr (t, found) ↦
      ap length (sym (some-inj (rw (found, complete) at e)))
      ∙ length-set ts i (record t { state = TaskState.completed })
]

complete-AllCompleted :
    (ts ts' : List TaskInfo) (i : ℕ) → complete ts i ≡ some ts' → AllCompleted ts → AllCompleted ts'
unfolding complete
complete-AllCompleted ts ts' i e a = elim (Option-cases (get_elem? ts i)) [
  | inl missing ↦ absurd (ground (arith, missing, e))
  | inr (t, found) ↦
      subst AllCompleted (some-inj (rw (found, complete) at e))
        (set-AllCompleted ts i (record t { state = TaskState.completed }) refl a)
]

-- `FinishedTask` marks a task of the current phase, or does nothing.
pub data Finishes (c c' : Coordinator) (args : FinishedTaskArgs) : Type 0 where
  ignored : c' ≡ c → Finishes c c' args
  map_finished :
      c.phase ≡ TaskType.map_task
      → args.type ≡ TaskType.map_task
      → complete c.map_tasks args.task_id ≡ some c'.map_tasks
      → c'.reduce_tasks ≡ c.reduce_tasks
      → c'.phase ≡ TaskType.map_task
      → Finishes c c' args
  reduce_finished :
      c.phase ≡ TaskType.reduce_task
      → args.type ≡ TaskType.reduce_task
      → complete c.reduce_tasks args.task_id ≡ some c'.reduce_tasks
      → c'.map_tasks ≡ c.map_tasks
      → c'.phase ≡ TaskType.reduce_task
      → Finishes c c' args

pub finished_task-Finishes :
    (c c' : Coordinator) (args : FinishedTaskArgs)
    → finished_task c args ≡ some c'
    → Finishes c c' args
unfolding finished_task
finished_task-Finishes c c' args e = go args.type c.phase refl refl
  where
    go : (a p : TaskType) → args.type ≡ a → c.phase ≡ p → Finishes c c' args
    go TaskType.map_task TaskType.map_task ea ep =
        map_finished ep ea (ground arith) (ground arith) (ground arith)
    go TaskType.reduce_task TaskType.reduce_task ea ep =
        reduce_finished ep ea (ground arith) (ground arith) (ground arith)
    go TaskType.map_task TaskType.reduce_task ea ep = ignored (ground arith)
    go TaskType.map_task TaskType.wait_task ea ep = ignored (ground arith)
    go TaskType.map_task TaskType.exit_task ea ep = ignored (ground arith)
    go TaskType.reduce_task TaskType.map_task ea ep = ignored (ground arith)
    go TaskType.reduce_task TaskType.wait_task ea ep = ignored (ground arith)
    go TaskType.reduce_task TaskType.exit_task ea ep = ignored (ground arith)
    go TaskType.wait_task p ea ep = ignored (ground arith)
    go TaskType.exit_task p ea ep = ignored (ground arith)

finished_task-Inv :
    {m r : ℕ} (c c' : Coordinator) (args : FinishedTaskArgs)
    → Finishes c c' args
    → Inv m r c
    → Inv m r c'
finished_task-Inv {m} {r} c c' args (ignored e) inv = subst (Inv m r) (sym e) inv
finished_task-Inv c c' args (map_finished p a t same q) inv = record {
  waits = λ w. cc;
  map_count = complete-length c.map_tasks c'.map_tasks args.task_id t ∙ inv.map_count;
  reduce_count = ap length same ∙ inv.reduce_count;
  maps_done = λ ne. absurd (ne q);
  reduces_done = λ x. cc;
}
finished_task-Inv c c' args (reduce_finished p a t same q) inv = record {
  waits = λ w. cc;
  map_count = ap length same ∙ inv.map_count;
  reduce_count = complete-length c.reduce_tasks c'.reduce_tasks args.task_id t ∙ inv.reduce_count;
  maps_done = λ ne. subst AllCompleted (sym same) (inv.maps_done (λ z. cc));
  reduces_done = λ x. cc;
}

check_timeouts-Inv :
    {m r : ℕ} (c : Coordinator) (now : ℕ) → Inv m r c → Inv m r (check_timeouts c now)
unfolding check_timeouts
check_timeouts-Inv c now inv = record {
  waits = λ w. ground (arith, w, inv.waits);
  map_count = ground (arith, inv.map_count, length-map (expire now) c.map_tasks);
  reduce_count = ground (arith, inv.reduce_count, length-map (expire now) c.reduce_tasks);
  maps_done = λ ne. ground (arith, ne, inv.maps_done);
  reduces_done = λ e. ground (arith, e, inv.reduces_done);
}

step-Inv : {m r : ℕ} (c c' : Coordinator) (e : Event) → step c e ≡ some c' → Inv m r c → Inv m r c'
unfolding step
step-Inv {m} {r} c c' (gets now) h inv = subst (Inv m r) (some-inj h) (get_task-Inv c now inv)
step-Inv c c' (finishes args) h inv =
    finished_task-Inv c c' args (finished_task-Finishes c c' args h) inv
step-Inv {m} {r} c c' (checks now) h inv =
    subst (Inv m r) (some-inj h) (check_timeouts-Inv c now inv)

run-Inv :
    {m r : ℕ} (c c' : Coordinator) (es : List Event) → run c es ≡ some c' → Inv m r c → Inv m r c'
unfolding run
run-Inv {m} {r} c c' [] h inv = subst (Inv m r) (some-inj h) inv
run-Inv c c' (e ∷ es) h inv = elim (Option-cases (step c e)) [
  | inl panics ↦ absurd (ground (arith, panics, h))
  | inr (c1, s) ↦ run-Inv c1 c' es (rw (s, run) at h) (step-Inv c c1 e s inv)
]

make_coordinator-Inv :
    (files : List String) (n : ℕ) → Inv (length files) n (make_coordinator files n)
unfolding make_coordinator
make_coordinator-Inv files n = record {
  waits = λ w. cc;
  map_count = length-map _ files;
  reduce_count = length-replicate n _;
  maps_done = λ ne. absurd (ne refl);
  reduces_done = λ e. cc;
}

-- However requests, reports and timeout checks follow one another, the coordinator keeps one map
-- task for each file and the given number of reduce tasks; it is out of its map phase only with
-- every map task completed, and it says that the job is done only with every map task and every
-- reduce task completed.
pub run-Inv_of_start :
    (files : List String) (n : ℕ) (events : List Event) {c : Coordinator}
    → run (make_coordinator files n) events ≡ some c
    → Inv (length files) n c
      × (done c ≡ true → AllCompleted c.map_tasks × AllCompleted c.reduce_tasks)
unfolding done
run-Inv_of_start files n events {c} e =
    let inv = run-Inv (make_coordinator files n) c events e (make_coordinator-Inv files n) in
    (
      inv,
      λ d.
          let exit : c.phase ≡ TaskType.exit_task = ground (arith, d) in
          (inv.maps_done (λ m. cc), inv.reduces_done exit),
    )
