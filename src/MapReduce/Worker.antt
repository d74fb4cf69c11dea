-- ===== src/MapReduce/Worker.antt =====
-- mr/worker.go: what `doMap` and `doReduce` compute between reading their files and writing them.
-- The hash of hash/fnv, the sort of package sort and the user's functions are parameters.
use mit_6_824_distributed_sy.Prelude.{
  ℕ, zero, suc, ◌%◌, ◌^◌, String, Bool, Option, none, some, List, [], ◌∷◌, ◌++◌, if◌then◌else◌,
  length, get_elem?, set, replicate, string_key,
}
use Prim.Native.String.{compare}
use text.Mathlib.Text.{is_lt}

pub record KeyValue : Type 0 where
  pub key : String
  pub value : String

-- `ByKey.Less`
abbrev pub less : KeyValue → KeyValue → Bool
less a b = is_lt (compare a.key b.key)

module _ (sum32 : String → ℕ) where
  -- `ihash`
  abbrev pub ihash : String → ℕ
  ihash key = sum32 key % 2 ^ 31

  -- `buckets[idx] = append(buckets[idx], kv)`; an index out of range panics.
  unfoldable pub add_to : List (List KeyValue) → ℕ → KeyValue → Option (List (List KeyValue))
  add_to buckets idx kv = elim (get_elem? buckets idx) [
    | none ↦ none
    | some b ↦ some (set buckets idx (b ++ kv ∷ []))
  ]

  -- The loop of `doMap` over the pairs that the map function has emitted.
  unfoldable pub distribute :
      ℕ → List (List KeyValue) → List KeyValue → Option (List (List KeyValue))
  distribute n_reduce buckets [] = some buckets
  distribute n_reduce buckets (kv ∷ kva) = elim (add_to buckets (ihash kv.key % n_reduce) kv) [
    | none ↦ none
    | some buckets' ↦ distribute n_reduce buckets' kva
  ]

  -- `doMap`: the contents of its `nReduce` files.
  unfoldable pub do_map :
      (String → String → List KeyValue) → String → String → ℕ → Option (List (List KeyValue))
  do_map mapf filename content n_reduce =
      distribute n_reduce (replicate n_reduce []) (mapf filename content)

-- `values` and `j` of the inner loops: the values of the run of pairs with the key, and the pairs
-- after it.
unfoldable pub run_of : String → List KeyValue → List String × List KeyValue
run_of key [] = ([], [])
run_of key (kv ∷ rest) =
    let (values, after) = run_of key rest in
    if string_key.beq kv.key key then (kv.value ∷ values, after) else ([], kv ∷ rest)

-- The files that `doReduce` reads; one that cannot be opened is passed over.
unfoldable pub read_all : List (Option (List KeyValue)) → List KeyValue
read_all [] = []
read_all (none ∷ files) = read_all files
read_all (some kvs ∷ files) = kvs ++ read_all files

module _ (reducef : String → List String → String) where
  -- The loop of `doReduce`, on fuel: the lines of the output.
  unfoldable pub reduce_loop : ℕ → List KeyValue → Option (List (String × String))
  reduce_loop fuel [] = some []
  reduce_loop zero (kv ∷ rest) = none
  reduce_loop (suc fuel) (kv ∷ rest) =
      let (values, after) = run_of kv.key rest in
      elim (reduce_loop fuel after) [
        | none ↦ none
        | some lines ↦ some ((kv.key, reducef kv.key (kv.value ∷ values)) ∷ lines)
      ]

  -- `doReduce`: the lines of its output.
  unfoldable pub do_reduce :
      (List KeyValue → List KeyValue)
      → List (Option (List KeyValue))
      → Option (List (String × String))
  do_reduce sort files = let kva = sort (read_all files) in reduce_loop (length kva) kva
