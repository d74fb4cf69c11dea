-- ===== src/MapReduce/Groups.antt =====
-- `doReduce` of mr/worker.go: which lines it writes.
use mit_6_824_distributed_sy.Prelude.{
  ℕ, zero, suc, ◌≤◌, ◌≡◌, refl, sym, ◌∙◌, ap, subst, String, Bool, false, Option, some, List, [],
  ◌∷◌, if◌then◌else◌, arith, length, string_key, Bool-cases, inl, inr,
}
use Prim.Native.String.{compare}
use text.Mathlib.Text.{is_lt}
use mathlib.Core.List.{Permᴰ}
use mathlib.Core.List.Permᴰ
use mit_6_824_distributed_sy.MapReduce.Order.{same_key}
use mit_6_824_distributed_sy.MapReduce.Worker.{
  KeyValue, less, run_of, reduce_loop, read_all, do_reduce,
}

-- No pair of the list has its key below that of `a`.
abbrev NoneBelow : KeyValue → List KeyValue → Type 0
NoneBelow a [] = Unit {0}
NoneBelow a (b ∷ bs) = (less b a ≡ false) × NoneBelow a bs

-- What package sort documents: no pair is less than one before it.
abbrev pub Sorted : List KeyValue → Type 0
Sorted [] = Unit {0}
Sorted (a ∷ more) = NoneBelow a more × Sorted more

abbrev pub has_key : String → KeyValue → Bool
has_key k kv = string_key.beq kv.key k

-- The values of a key, in the order of the list.
abbrev pub values_of : String → List KeyValue → List String
values_of k [] = []
values_of k (kv ∷ kva) =
    let rest = values_of k kva in if has_key k kv then kv.value ∷ rest else rest

-- Once a key has passed, it does not come again.
above :
    (a b : KeyValue) (bs : List KeyValue)
    → NoneBelow a (b ∷ bs)
    → NoneBelow b bs
    → has_key a.key b ≡ false
    → values_of a.key bs ≡ []
above a b [] na nb ne = refl
above a b (c ∷ bs) na nb ne =
    let ih = above a b bs (na.0, na.1.1) nb.1 ne in
    elim (Bool-cases (has_key a.key c)) [
      | inl again ↦
          let e : c.key ≡ a.key = (string_key.beq_iff c.key a.key).0 again in
          let below : less a b ≡ false = ap (λ k. is_lt (compare k b.key)) (sym e) ∙ nb.0 in
          let same : a.key ≡ b.key = same_key a b below na.0 in
          absurd (ground (arith, ne, (string_key.beq_iff b.key a.key).1 (sym same)))
      | inr other ↦ rw other ih
    ]

-- A run of one key and what follows it.
record Splits (a : KeyValue) (rest : List KeyValue) (values : List String) (after : List KeyValue)
    : Type 0 where
  run : values_of a.key rest ≡ values
  gone : values_of a.key after ≡ []
  others : (k : String) → string_key.beq a.key k ≡ false → values_of k after ≡ values_of k rest
  sorted : Sorted after
  shorter : length after ≤ length rest

run_of-Splits :
    (a : KeyValue) (rest : List KeyValue)
    → NoneBelow a rest
    → Sorted rest
    → Splits a rest (run_of a.key rest).0 (run_of a.key rest).1
unfolding run_of
run_of-Splits a [] na s = record {
  run = refl;
  gone = refl;
  others = λ k h. refl;
  sorted = tt;
  shorter = omega arith;
}
run_of-Splits a (b ∷ bs) na s = elim (Bool-cases (has_key a.key b)) [
  | inl same ↦
      let ih = run_of-Splits a bs na.1 s.1 in
      rw same (record {
        run = rw same (ap (◌∷◌ b.value) ih.run);
        gone = ih.gone;
        others = λ k h.
            let e : b.key ≡ a.key = (string_key.beq_iff b.key a.key).0 same in
            let not_k : string_key.beq b.key k ≡ false = ap (λ x. string_key.beq x k) e ∙ h in
            rw not_k (ih.others k h);
        sorted = ih.sorted;
        shorter = omega (arith, ih.shorter);
      })
  | inr differs ↦ rw differs (record {
    run = rw differs (above a b bs na s.0 differs);
    gone = rw differs (above a b bs na s.0 differs);
    others = λ k h. refl;
    sorted = s;
    shorter = omega arith;
  })
]

values_of-Perm :
    (k : String) {xs ys : List KeyValue} → Permᴰ xs ys → Permᴰ (values_of k xs) (values_of k ys)
values_of-Perm k Permᴰ.nil = Permᴰ.nil
values_of-Perm k (Permᴰ.cons {a} {b} {l₁ = xs} {l₂ = ys} e p) =
    subst (λ c. Permᴰ (values_of k (a ∷ xs)) (values_of k (c ∷ ys))) e
      (elim (Bool-cases (has_key k a)) [
        | inl mine ↦ rw mine (Permᴰ.cons refl (values_of-Perm k p))
        | inr other ↦ rw other (values_of-Perm k p)
      ])
values_of-Perm k (Permᴰ.swap {a} {b} {a'} {b'} {l} e1 e2) =
    subst (λ c. Permᴰ (values_of k (a ∷ b ∷ l)) (values_of k (c ∷ b' ∷ l))) e2
      (subst (λ c. Permᴰ (values_of k (a ∷ b ∷ l)) (values_of k (b ∷ c ∷ l))) e1 (swapped a b l))
  where
    swapped :
        (a b : KeyValue) (l : List KeyValue)
        → Permᴰ (values_of k (a ∷ b ∷ l)) (values_of k (b ∷ a ∷ l))
    swapped a b l = elim (Bool-cases (has_key k a)) [
      | inl here ↦ elim (Bool-cases (has_key k b)) [
        | inl both ↦ rw (here, both) (Permᴰ.swap refl refl)
        | inr one ↦ rw (here, one) (Permᴰ.refl _)
      ]
      | inr not_here ↦ elim (Bool-cases (has_key k b)) [
        | inl one ↦ rw (not_here, one) (Permᴰ.refl _)
        | inr neither ↦ rw (not_here, neither) (Permᴰ.refl _)
      ]
    ]
values_of-Perm k (Permᴰ.trans p q) = Permᴰ.trans (values_of-Perm k p) (values_of-Perm k q)

module _ (reducef : String → List String → String) where
  -- The lines of a key.
  abbrev pub lines_of : String → List (String × String) → List (String × String)
  lines_of k [] = []
  lines_of k (line ∷ lines) =
      let rest = lines_of k lines in if string_key.beq line.0 k then line ∷ rest else rest

  -- The one line of a key that has values, and none for one that has not.
  abbrev pub reduced : String → List String → List (String × String)
  reduced k [] = []
  reduced k (v ∷ vs) = (k, reducef k (v ∷ vs)) ∷ []

  reduce_loop-lines_of :
      (fuel : ℕ) (kva : List KeyValue)
      → Sorted kva
      → length kva ≤ fuel
      → (lines : List (String × String)) × (reduce_loop reducef fuel kva ≡ some lines)
        × ((k : String) → lines_of k lines ≡ reduced k (values_of k kva))
  unfolding reduce_loop
  reduce_loop-lines_of fuel [] s h = ([], refl, λ k. refl)
  reduce_loop-lines_of zero (a ∷ rest) s h = absurd (omega (arith, h))
  reduce_loop-lines_of (suc fuel) (a ∷ rest) s h =
      let vs = (run_of a.key rest).0 in
      let after = (run_of a.key rest).1 in
      let p = run_of-Splits a rest s.0 s.1 in
      let (lines, e, all) =
        reduce_loop-lines_of fuel after p.sorted (omega (arith, p.shorter, h)) in
      (
        (a.key, reducef a.key (a.value ∷ vs)) ∷ lines,
        rw (e, reduce_loop) refl,
        λ k. elim (Bool-cases (string_key.beq a.key k)) [
          | inl mine ↦ rw mine (
              subst
                (λ j.
                  (a.key, reducef a.key (a.value ∷ vs)) ∷ lines_of j lines
                  ≡ (j, reducef j (a.value ∷ values_of j rest)) ∷ [])
                ((string_key.beq_iff a.key k).0 mine)
                (ap (λ l. (a.key, reducef a.key (a.value ∷ vs)) ∷ l)
                    (all a.key ∙ ap (reduced a.key) p.gone)
                  ∙ ap (λ v. (a.key, reducef a.key (a.value ∷ v)) ∷ []) (sym p.run)))
          | inr other ↦ rw other (all k ∙ ap (reduced k) (p.others k other))
        ],
      )

  -- Whatever files are there, and whatever way the sort orders pairs of equal keys, `doReduce` ends
  -- and writes, for every key of the pairs that it has read, exactly one line, with what the reduce
  -- function makes of the key and of all of its values in some order, and no line for another key.
  pub do_reduce-lines_of :
      (sort : List KeyValue → List KeyValue) (files : List (Option (List KeyValue)))
      → Sorted (sort (read_all files))
      → Permᴰ (sort (read_all files)) (read_all files)
      → (lines : List (String × String)) × (do_reduce reducef sort files ≡ some lines)
        × ((k : String)
            → (values : List String) × Permᴰ values (values_of k (read_all files))
              × (lines_of k lines ≡ reduced k values))
  unfolding do_reduce
  do_reduce-lines_of sort files s p =
      let kva = sort (read_all files) in
      let (lines, e, all) = reduce_loop-lines_of (length kva) kva s (omega arith) in
      (lines, e, λ k. (values_of k kva, values_of-Perm k p, all k))
