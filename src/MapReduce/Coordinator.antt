-- ===== src/MapReduce/Coordinator.antt =====
-- mr/coordinator.go: the state of `Coordinator`, its RPC handlers, and a round of `checkTimeouts`.
-- Times are in nanoseconds; the mutex makes each of these one step.
use mit_6_824_distributed_sy.Prelude.{
  ℕ, ◌+◌, ◌-◌, ◌*◌, ◌^◌, String, Bool, true, false, ◌&&◌, Option, none, some, List, [], ◌∷◌, map,
  if◌then◌else◌, ltb, length, get_elem?, set, replicate,
}

pub data TaskState : Type 0 where
  idle in_progress completed : TaskState

pub data TaskType : Type 0 where
  map_task reduce_task wait_task exit_task : TaskType

pub record TaskInfo : Type 0 where
  pub state : TaskState
  pub start_time : ℕ
  pub filename : String

pub record Coordinator : Type 0 where
  pub n_reduce : ℕ
  pub n_map : ℕ
  pub map_tasks : List TaskInfo
  pub reduce_tasks : List TaskInfo
  pub phase : TaskType

pub record GetTaskReply : Type 0 where
  pub type : TaskType
  pub task_id : ℕ
  pub filename : String
  pub n_reduce : ℕ
  pub n_map : ℕ

pub record FinishedTaskArgs : Type 0 where
  pub type : TaskType
  pub task_id : ℕ

-- The zero value of the reply.
abbrev pub empty_reply : GetTaskReply
empty_reply = record {
  type = TaskType.map_task;
  task_id = 0;
  filename = "";
  n_reduce = 0;
  n_map = 0;
}

abbrev pub is_idle : TaskState → Bool
is_idle TaskState.idle = true
is_idle _ = false

abbrev pub is_completed : TaskState → Bool
is_completed TaskState.completed = true
is_completed _ = false

-- How the loop of `GetTask` over the tasks of a phase ends: at the first idle task, with its number
-- and the tasks in which it is in progress, or at the end, with whether all are completed.
pub data Scan : Type 0 where
  picked : (i : ℕ) → (task : TaskInfo) → (tasks : List TaskInfo) → Scan
  none_idle : (all_done : Bool) → Scan

abbrev pub keep : TaskInfo → Scan → Scan
keep t (picked i task tasks) = picked i task (t ∷ tasks)
keep t (none_idle d) = none_idle d

unfoldable pub scan : List TaskInfo → ℕ → ℕ → Bool → Scan
scan [] i now done = none_idle done
scan (t ∷ ts) i now done =
    let rest = scan ts (i + 1) now (is_completed t.state && done) in
    if is_idle t.state
    then picked i t (record t { state = TaskState.in_progress; start_time = now } ∷ ts)
    else keep t rest

-- `GetTask` in the reduce phase, after its loop.
unfoldable pub reduce_scanned : Coordinator → Scan → Coordinator × GetTaskReply
reduce_scanned c (picked i task tasks) = (
  record c { reduce_tasks = tasks },
  record empty_reply {
    type = TaskType.reduce_task;
    task_id = i;
    n_reduce = c.n_reduce;
    n_map = c.n_map;
  },
)
reduce_scanned c (none_idle true) =
    (record c { phase = TaskType.exit_task }, record empty_reply { type = TaskType.exit_task })
reduce_scanned c (none_idle false) = (c, record empty_reply { type = TaskType.wait_task })

unfoldable pub reduce_phase : Coordinator → ℕ → Coordinator × GetTaskReply
reduce_phase c now = reduce_scanned c (scan c.reduce_tasks 0 now true)

-- `GetTask` in the map phase, after its loop; it falls through to the reduce phase.
unfoldable pub map_scanned : Coordinator → ℕ → Scan → Coordinator × GetTaskReply
map_scanned c now (picked i task tasks) = (
  record c { map_tasks = tasks },
  record {
    type = TaskType.map_task;
    task_id = i;
    filename = task.filename;
    n_reduce = c.n_reduce;
    n_map = c.n_map;
  },
)
map_scanned c now (none_idle true) = reduce_phase (record c { phase = TaskType.reduce_task }) now
map_scanned c now (none_idle false) = (c, record empty_reply { type = TaskType.wait_task })

unfoldable pub map_phase : Coordinator → ℕ → Coordinator × GetTaskReply
map_phase c now = map_scanned c now (scan c.map_tasks 0 now true)

unfoldable pub by_phase : TaskType → Coordinator → ℕ → Coordinator × GetTaskReply
unfolding map_phase reduce_phase map_scanned reduce_scanned
by_phase TaskType.map_task c now = map_phase c now
by_phase TaskType.reduce_task c now = reduce_phase c now
by_phase _ c now = (c, record empty_reply { type = TaskType.exit_task })

-- `GetTask`
unfoldable pub get_task : Coordinator → ℕ → Coordinator × GetTaskReply
unfolding by_phase
get_task c now = by_phase c.phase c now

-- `tasks[i].State = Completed`; an index out of range panics.
unfoldable pub complete : List TaskInfo → ℕ → Option (List TaskInfo)
complete tasks i = elim (get_elem? tasks i) [
  | none ↦ none
  | some t ↦ some (set tasks i (record t { state = TaskState.completed }))
]

abbrev with_map : Coordinator → Option (List TaskInfo) → Option Coordinator
with_map c none = none
with_map c (some tasks) = some (record c { map_tasks = tasks })

abbrev with_reduce : Coordinator → Option (List TaskInfo) → Option Coordinator
with_reduce c none = none
with_reduce c (some tasks) = some (record c { reduce_tasks = tasks })

finish : TaskType → TaskType → Coordinator → ℕ → Option Coordinator
unfolding complete
finish TaskType.map_task TaskType.map_task c i = with_map c (complete c.map_tasks i)
finish TaskType.reduce_task TaskType.reduce_task c i = with_reduce c (complete c.reduce_tasks i)
finish _ _ c i = some c

-- `FinishedTask`
unfoldable pub finished_task : Coordinator → FinishedTaskArgs → Option Coordinator
unfolding finish
finished_task c args = finish args.type c.phase c args.task_id

-- 10 * time.Second
abbrev pub task_timeout : ℕ
task_timeout = 10 * 10 ^ 9

abbrev pub is_running : TaskState → Bool
is_running TaskState.in_progress = true
is_running _ = false

-- `now.Sub(StartTime) > 10 * time.Second`, of a clock that does not run back.
unfoldable pub expire : ℕ → TaskInfo → TaskInfo
expire now t =
    if is_running t.state && ltb task_timeout (now - t.start_time)
    then record t { state = TaskState.idle }
    else t

expire_by_phase : TaskType → Coordinator → ℕ → Coordinator
expire_by_phase TaskType.map_task c now = record c { map_tasks = map (expire now) c.map_tasks }
expire_by_phase TaskType.reduce_task c now = record c {
  reduce_tasks = map (expire now) c.reduce_tasks;
}
expire_by_phase _ c now = c

-- A round of `checkTimeouts`.
unfoldable pub check_timeouts : Coordinator → ℕ → Coordinator
unfolding expire_by_phase
check_timeouts c now = expire_by_phase c.phase c now

abbrev pub is_exit : TaskType → Bool
is_exit TaskType.exit_task = true
is_exit _ = false

-- `Done`
unfoldable pub done : Coordinator → Bool
done c = is_exit c.phase

abbrev new_task : String → TaskInfo
new_task file = record { state = TaskState.idle; start_time = 0; filename = file }

-- `MakeCoordinator`, but for the server and the goroutine that it starts.
unfoldable pub make_coordinator : List String → ℕ → Coordinator
make_coordinator files n_reduce = record {
  n_reduce = n_reduce;
  n_map = length files;
  map_tasks = map new_task files;
  reduce_tasks = replicate n_reduce (new_task "");
  phase = TaskType.map_task;
}

-- What can happen at a coordinator.
pub data Event : Type 0 where
  gets : (now : ℕ) → Event
  finishes : (args : FinishedTaskArgs) → Event
  checks : (now : ℕ) → Event

unfoldable pub step : Coordinator → Event → Option Coordinator
step c (gets now) = some (get_task c now).0
step c (finishes args) = finished_task c args
step c (checks now) = some (check_timeouts c now)

unfoldable pub run : Coordinator → List Event → Option Coordinator
run c [] = some c
run c (e ∷ es) = elim (step c e) [ none ↦ none | some c' ↦ run c' es ]
