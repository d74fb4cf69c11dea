-- ===== src/MapReduce/Buckets.antt =====
-- `doMap` of mr/worker.go: which pairs go to which reduce task.
use mit_6_824_distributed_sy.Prelude.{
  append-snoc, append_nil, ℕ, zero, suc, ◌%◌, ◌<◌, ◌≡◌, refl, sym, ◌∙◌, ap, String, some, List, [],
  ◌∷◌, ◌++◌, if◌then◌else◌, ◌==◌, ==_iff, arith, length, get_elem?, set, replicate, length-set,
  length-replicate, get_elem?_lt, get_elem?-set_self, get_elem?-set_ne, Bool-cases, inl, inr,
  some-inj, get_elem?-some,
}
use native.Mathlib.Nat.{mod-lt}
use mit_6_824_distributed_sy.MapReduce.Worker.{KeyValue, ihash, add_to, distribute, do_map}

module _ (sum32 : String → ℕ) where
  -- The pairs of the reduce task `r`, in the order in which they were emitted.
  abbrev pub pairs_of : ℕ → ℕ → List KeyValue → List KeyValue
  pairs_of n r [] = []
  pairs_of n r (kv ∷ kva) =
      let rest = pairs_of n r kva in if ihash sum32 kv.key % n == r then kv ∷ rest else rest

  get_elem?-replicate : (n r : ℕ) (a : List KeyValue) → r < n → get_elem? (replicate n a) r ≡ some a
  get_elem?-replicate zero r a h = absurd (omega (arith, h))
  get_elem?-replicate (suc n) zero a h = refl
  get_elem?-replicate (suc n) (suc r) a h = get_elem?-replicate n r a (omega arith)

  -- One bucket after a pair has been appended to one.
  set-bucket :
      (buckets : List (List KeyValue)) (idx r : ℕ) (b0 b rest : List KeyValue) (kv : KeyValue)
      → get_elem? buckets idx ≡ some b0
      → get_elem? buckets r ≡ some b
      → (x : List KeyValue) × (get_elem? (set buckets idx (b0 ++ kv ∷ [])) r ≡ some x)
        × (x ++ rest ≡ b ++ (if idx == r then kv ∷ rest else rest))
  set-bucket buckets idx r b0 b rest kv found at = elim (Bool-cases (idx == r)) [
    | inl mine ↦
        let same : idx ≡ r = (==_iff idx r).0 mine in
        let here : b0 ≡ b = some-inj (sym found ∙ ap (get_elem? buckets) same ∙ at) in
        (
          b0 ++ kv ∷ [],
          ap (get_elem? (set buckets idx (b0 ++ kv ∷ []))) (sym same)
              ∙ get_elem?-set_self buckets idx (b0 ++ kv ∷ []) (get_elem?-some buckets idx found),
          rw mine (append-snoc b0 rest kv ∙ ap (λ c. c ++ kv ∷ rest) here),
        )
    | inr other ↦ (
      b,
      get_elem?-set_ne buckets idx r (b0 ++ kv ∷ []) (λ e. ground (arith, e, other)) ∙ at,
      rw other refl,
    )
  ]

  distribute-pairs_of :
      (n : ℕ) (buckets : List (List KeyValue)) (kva : List KeyValue)
      → 0 < n
      → length buckets ≡ n
      → (bs : List (List KeyValue)) × (distribute sum32 n buckets kva ≡ some bs)
        × (length bs ≡ n)
        × ((r : ℕ) (b : List KeyValue)
            → get_elem? buckets r ≡ some b
            → get_elem? bs r ≡ some (b ++ pairs_of n r kva))
  unfolding distribute add_to
  distribute-pairs_of n buckets [] pos size =
      (buckets, refl, size, λ r b e. e ∙ ap some (sym (append_nil b)))
  distribute-pairs_of n buckets (kv ∷ kva) pos size =
      let idx = ihash sum32 kv.key % n in
      let inside = mod-lt (ihash sum32 kv.key) {m = n} pos in
      let (b0, found) = get_elem?_lt buckets idx (omega (arith, inside)) in
      let buckets' = set buckets idx (b0 ++ kv ∷ []) in
      let (bs, e, size', all) =
        distribute-pairs_of n buckets' kva pos (length-set buckets idx (b0 ++ kv ∷ []) ∙ size) in
      (
        bs,
        rw (found, distribute, add_to) e,
        size',
        λ r b at.
            let (x, e1, e2) = set-bucket buckets idx r b0 b (pairs_of n r kva) kv found at in
            all r x e1 ∙ ap some e2,
      )

  -- With at least one reduce task, `doMap` does not panic and fills one file for each reduce task,
  -- which holds exactly the emitted pairs whose key hashes to that task, in the order in which they
  -- were emitted; so all pairs of one key go to one task.
  pub do_map-pairs_of :
      (mapf : String → String → List KeyValue) (filename content : String) (n : ℕ)
      → 0 < n
      → (bs : List (List KeyValue)) × (do_map sum32 mapf filename content n ≡ some bs)
        × (length bs ≡ n)
        × ((r : ℕ) → r < n → get_elem? bs r ≡ some (pairs_of n r (mapf filename content)))
  unfolding do_map
  do_map-pairs_of mapf filename content n pos =
      let (bs, e, size, all) =
        distribute-pairs_of n (replicate n []) (mapf filename content) pos
          (length-replicate n []) in
      (bs, e, size, λ r h. all r [] (get_elem?-replicate n r [] h))
