-- ===== src/MapReduce/Examples.antt =====
-- The theorems about mr/coordinator.go at a job of two files and one reduce task, and those about
-- mr/worker.go at small inputs.
use mit_6_824_distributed_sy.Prelude.{
  ℕ, ◌≡◌, ◌<◌, refl, none, some, Option, [], ◌∷◌, List, String, true, arith, length, get_elem?,
  if◌then◌else◌,
}
use mit_6_824_distributed_sy.MapReduce.Coordinator.{
  Coordinator, TaskType, Event, gets, finishes, checks, run, step, get_task, finished_task,
  check_timeouts, make_coordinator, scan, complete, expire, done,
}
use mit_6_824_distributed_sy.MapReduce.Phases.{Inv, AllCompleted, run-Inv_of_start}
use mathlib.Core.List.{Permᴰ}
use mathlib.Core.List.Permᴰ
use Prim.Native.String.{count}
use mit_6_824_distributed_sy.MapReduce.Worker.{
  KeyValue, less, do_map, run_of, reduce_loop, read_all, do_reduce,
}
use mit_6_824_distributed_sy.MapReduce.Buckets.{pairs_of, do_map-pairs_of}
use mit_6_824_distributed_sy.MapReduce.Groups.{values_of, lines_of, reduced, do_reduce-lines_of}
use mit_6_824_distributed_sy.MapReduce.Assignment.{Answer, get_task-Answer}

abbrev files : List String
files = "a" ∷ "b" ∷ []

-- The second map task times out once and is handed out again; then everything is finished.
abbrev events : List Event
events =
    gets 1
    ∷ gets 2
    ∷ finishes (record { type = TaskType.map_task; task_id = 0 })
    ∷ checks 10000000003
    ∷ gets 10000000004
    ∷ finishes (record { type = TaskType.map_task; task_id = 1 })
    ∷ gets 10000000005
    ∷ finishes (record { type = TaskType.reduce_task; task_id = 0 })
    ∷ gets 10000000006
    ∷ []

abbrev finished : (c : Coordinator) × (run (make_coordinator files 1) events ≡ some c)
unfolding run step get_task finished_task check_timeouts make_coordinator scan complete expire
finished = (_, refl)

run-Inv_of_start_example :
    Inv 2 1 finished.0
    × (done finished.0 ≡ true
        → AllCompleted finished.0.map_tasks × AllCompleted finished.0.reduce_tasks)
run-Inv_of_start_example = run-Inv_of_start files 1 events finished.1

get_task-Answer_example :
    Answer
      (make_coordinator files 1)
      (get_task (make_coordinator files 1) 7).0
      7
      (get_task (make_coordinator files 1) 7).1
unfolding make_coordinator
get_task-Answer_example = get_task-Answer (make_coordinator files 1) 7 (λ e. ground (arith, e))

-- A map function that emits its file's name and content, and a hash that counts characters.
abbrev both : String → String → List KeyValue
both filename content =
    record { key = filename; value = content } ∷ record { key = content; value = filename } ∷ []

do_map-pairs_of_example :
    (bs : List (List KeyValue)) × (do_map count both "a" "bb" 2 ≡ some bs)
    × (length bs ≡ 2)
    × ((r : ℕ) → r < 2 → get_elem? bs r ≡ some (pairs_of count 2 r (both "a" "bb")))
do_map-pairs_of_example = do_map-pairs_of count both "a" "bb" 2 (omega arith)

abbrev pair : String → String → KeyValue
pair k v = record { key = k; value = v }

-- An insertion sort.
abbrev put_in : KeyValue → List KeyValue → List KeyValue
put_in a [] = a ∷ []
put_in a (b ∷ bs) = if less b a then b ∷ put_in a bs else a ∷ b ∷ bs

abbrev sort : List KeyValue → List KeyValue
sort [] = []
sort (a ∷ more) = put_in a (sort more)

abbrev last : String → List String → String
last k [] = k
last k (v ∷ vs) = last v vs

-- Two files with a key in common, and one that is missing.
abbrev intermediate : List (Option (List KeyValue))
intermediate =
    some (pair "x" "1" ∷ pair "a" "2" ∷ []) ∷ none ∷ some (pair "b" "3" ∷ pair "x" "4" ∷ []) ∷ []

-- The sort puts "x" behind "a" and behind "b", and does not take the other "x" over it.
sorted_pairs : Permᴰ (sort (read_all intermediate)) (read_all intermediate)
unfolding read_all
sorted_pairs = Permᴰ.symm (
    Permᴰ.trans (Permᴰ.swap refl refl)
      (Permᴰ.cons refl (Permᴰ.trans (Permᴰ.swap refl refl) (Permᴰ.refl _))))

do_reduce-lines_of_example :
    (lines : List (String × String)) × (do_reduce last sort intermediate ≡ some lines)
    × ((k : String)
        → (values : List String) × Permᴰ values (values_of k (read_all intermediate))
          × (lines_of last k lines ≡ reduced last k values))
unfolding read_all
do_reduce-lines_of_example =
    do_reduce-lines_of last sort intermediate
      ((refl, (refl, (refl, tt))), ((refl, (refl, tt)), ((refl, tt), (tt, tt)))) sorted_pairs

do_reduce_run : do_reduce last sort intermediate ≡ some (("a", "2") ∷ ("b", "3") ∷ ("x", "4") ∷ [])
unfolding do_reduce read_all reduce_loop run_of
do_reduce_run = refl
