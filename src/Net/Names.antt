-- ===== src/Net/Names.antt =====
-- labrpc/labrpc.go: the names of methods, and the methods that `MakeService` takes for handlers.
use mit_6_824_distributed_sy.Prelude.{
  ℕ, zero, suc, ◌≡◌, ◌≢◌, ◌↔◌, inl, inr, refl, sym, ◌∙◌, ap, true, false, none, some, List, [], ◌∷◌,
  ◌++◌, ◌==◌, arith, ==_iff, lookup, insert, take, drop, length, get_elem?, Option-cases,
  Bool-cases, lookup-insert, subst, some-inj,
}
use mit_6_824_distributed_sy.Net.Service.{
  dot, last_dot, split_method, Method, not_suitable, collect_methods, make_service, name_key,
  names_eq, names_eq_iff,
}

-- A name without a dot.
abbrev pub Dotless : List ℕ → Type 0
Dotless s = (i : ℕ) → get_elem? s i ≢ some dot

last_dot-none : (s : List ℕ) → last_dot s ≡ none → Dotless s
unfolding last_dot
last_dot-none [] e i h = cc
last_dot-none (c ∷ s) e i h = elim (Option-cases (last_dot s)) [
  | inr (j, found) ↦ absurd (ground (arith, found, e))
  | inl later ↦ at_index i h (last_dot-none s later) (ground (arith, later, e))
]
  where
    at_index : (i : ℕ) → get_elem? (c ∷ s) i ≡ some dot → Dotless s → (c == dot) ≡ false → ⊥
    at_index zero h d other = ground (arith, h, other)
    at_index (suc i) h d other = d i h

Dotless-last_dot : (s : List ℕ) → Dotless s → last_dot s ≡ none
unfolding last_dot
Dotless-last_dot [] d = refl
Dotless-last_dot (c ∷ s) d =
    let later = Dotless-last_dot s (λ i. d (suc i)) in
    elim (Bool-cases (c == dot)) [
      | inl here ↦ absurd (d 0 (ap some ((==_iff c dot).0 here)))
      | inr other ↦ rw (later, other, last_dot) refl
    ]

last_dot-append : (a b : List ℕ) → Dotless b → last_dot (a ++ dot ∷ b) ≡ some (length a)
unfolding last_dot
last_dot-append [] b d = rw (Dotless-last_dot b d, last_dot) refl
last_dot-append (c ∷ a) b d = rw (last_dot-append a b d, last_dot) refl

-- The two parts around the last dot.
abbrev Halves : List ℕ → ℕ → Type 0
Halves s i = (s ≡ take i s ++ dot ∷ drop (suc i) s) × Dotless (drop (suc i) s)

last_dot-Halves : (s : List ℕ) (i : ℕ) → last_dot s ≡ some i → Halves s i
unfolding last_dot
last_dot-Halves [] i e = cc
last_dot-Halves (c ∷ s) i e = elim (Option-cases (last_dot s)) [
  | inr (j, found) ↦
      let at : suc j ≡ i = ground (arith, found, e) in
      let (whole, rest) = last_dot-Halves s j found in
      subst (Halves (c ∷ s)) at (ap (◌∷◌ c) whole, rest)
  | inl absent ↦
      let at : 0 ≡ i = ground (arith, absent, e) in
      let here : c ≡ dot = ground (arith, absent, e) in
      subst (Halves (c ∷ s)) at (ap (λ x. x ∷ s) here, last_dot-none s absent)
]

take-append : (a b : List ℕ) → take (length a) (a ++ b) ≡ a
take-append [] b = refl
take-append (c ∷ a) b = ap (◌∷◌ c) (take-append a b)

drop-append : (a b : List ℕ) (c : ℕ) → drop (suc (length a)) (a ++ c ∷ b) ≡ b
drop-append [] b c = refl
drop-append (x ∷ a) b c = drop-append a b c

-- A name splits into a service and a method just when it is the service, a dot and the method, and
-- the method has no dot.
pub split_method_iff :
    (s service method : List ℕ)
    → (split_method s ≡ some (service, method)) ↔ ((s ≡ service ++ dot ∷ method) × Dotless method)
unfolding split_method
split_method_iff s service method = (λ e. parts e, λ (whole, d). whole_name whole d)
  where
    parts : split_method s ≡ some (service, method) → (s ≡ service ++ dot ∷ method) × Dotless method
    parts e = elim (Option-cases (last_dot s)) [
      | inl absent ↦ absurd (ground (arith, absent, e))
      | inr (i, found) ↦
          let (whole, rest) = last_dot-Halves s i found in
          let first : take i s ≡ service = ground (arith, found, e) in
          let second : drop (suc i) s ≡ method = ground (arith, found, e) in
          (
            whole ∙ ap (λ x. x ++ dot ∷ drop (suc i) s) first ∙ ap (λ x. service ++ dot ∷ x) second,
            subst Dotless second rest,
          )
    ]

    whole_name :
        s ≡ service ++ dot ∷ method → Dotless method → split_method s ≡ some (service, method)
    whole_name whole d = rw whole (
        rw (last_dot-append service method d, split_method)
          (rw (take-append service (dot ∷ method), drop-append service method dot) refl))

module _ {S : Type 0} where
  -- A method is in a table under its own name, and is a handler.
  abbrev IsTable : List (List ℕ × Method S) → Type 0
  IsTable table =
      (name : List ℕ) (m : Method S)
      → lookup name table ≡ some m
      → (m.sort.name ≡ name) × (not_suitable m.sort ≡ false)

  collect_methods-IsTable :
      (ms : List (Method S)) (found : List (List ℕ × Method S))
      → IsTable found
      → IsTable (collect_methods ms found)
  unfolding collect_methods
  collect_methods-IsTable [] found t = t
  collect_methods-IsTable (m ∷ ms) found t = elim (Bool-cases (not_suitable m.sort)) [
    | inl bad ↦ rw (bad, collect_methods) (collect_methods-IsTable ms found t)
    | inr good ↦
        rw (good, collect_methods)
          (collect_methods-IsTable ms (insert m.sort.name m found) (λ name x h.
            elim (Bool-cases (names_eq m.sort.name name)) [
              | inl same ↦
                  let is_it : m ≡ x =
                    some-inj (sym (lookup-insert m.sort.name name m found ∙ rw same refl) ∙ h) in
                  subst (λ (y : Method S). (y.sort.name ≡ name) × (not_suitable y.sort ≡ false))
                    is_it ((names_eq_iff m.sort.name name).0 same, good)
              | inr other ↦
                  t name x (sym (lookup-insert m.sort.name name m found ∙ rw other refl) ∙ h)
            ]))
  ]

  -- A service that `MakeService` makes runs under a name only a method of that name that is
  -- exported, takes two arguments, the second a pointer, and returns nothing.
  pub make_service-methods :
      (name : List ℕ) (methods : List (Method S)) (called : List ℕ) (m : Method S)
      → lookup called (make_service name methods).methods ≡ some m
      → (m.sort.name ≡ called)
        × (m.sort.exported ≡ true)
        × (m.sort.num_in ≡ 3)
        × (m.sort.reply_is_pointer ≡ true)
        × (m.sort.num_out ≡ 0)
  unfolding make_service lookup
  make_service-methods name methods called m h =
      let (same, good) =
        collect_methods-IsTable methods [] (λ n x e. absurd (ground (arith, e))) called m h in
      ground (arith, same, good)
