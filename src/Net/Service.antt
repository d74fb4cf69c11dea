-- ===== src/Net/Service.antt =====
-- labrpc/labrpc.go: `Service` and `Server`. A name is a list of code points. What a method does, with
-- labgob's decoding of its argument and encoding of its reply, is a function on the bytes and on
-- the state that all handlers share.
use mit_6_824_distributed_sy.Prelude.{
  ℕ, suc, ◌+◌, ◌≡◌, ◌↔◌, refl, Bool, true, false, ◌&&◌, ◌||◌, not, Option, none, some, List, [],
  ◌∷◌, if◌then◌else◌, ◌==◌, arith, ==_iff, Key, lookup, insert, take, drop,
}

abbrev pub names_eq : List ℕ → List ℕ → Bool
names_eq [] [] = true
names_eq (a ∷ xs) (b ∷ bs) = (a == b) && names_eq xs bs
names_eq _ _ = false

pub names_eq_iff : (a b : List ℕ) → (names_eq a b ≡ true) ↔ (a ≡ b)
names_eq_iff [] [] = (λ _. refl, λ _. refl)
names_eq_iff [] (b ∷ bs) = (λ e. cc, λ e. cc)
names_eq_iff (a ∷ xs) [] = (λ e. cc, λ e. cc)
names_eq_iff (a ∷ xs) (b ∷ bs) = ground (arith, names_eq_iff xs bs, ==_iff a b)

instance abbrev pub name_key : Key (List ℕ)
name_key = record { beq = names_eq; beq_iff = names_eq_iff }

-- What `MakeService` reads of a method by reflection. The receiver counts as the first argument.
pub record MethodType : Type 0 where
  pub name : List ℕ
  pub exported : Bool
  pub num_in : ℕ
  pub reply_is_pointer : Bool
  pub num_out : ℕ

pub record Method (S : Type 0) : Type 0 where
  pub sort : MethodType
  pub run : List ℕ → S → S × List ℕ

pub record Service (S : Type 0) : Type 0 where
  pub name : List ℕ
  pub methods : List (List ℕ × Method S)

pub record Server (S : Type 0) : Type 0 where
  pub services : List (List ℕ × Service S)
  pub count : ℕ

-- The test of `MakeService` for a method that is no handler.
abbrev pub not_suitable : MethodType → Bool
not_suitable t =
    not t.exported || not (t.num_in == 3) || not t.reply_is_pointer || not (t.num_out == 0)

-- The code point of the dot.
abbrev pub dot : ℕ
dot = 46

-- `strings.LastIndex(s, ".")`
unfoldable pub last_dot : List ℕ → Option ℕ
last_dot [] = none
last_dot (c ∷ s) = elim (last_dot s) [
  | some i ↦ some (suc i)
  | none ↦ if c == dot then some 0 else none
]

-- The service and the method of a name; a name without a dot panics.
unfoldable pub split_method : List ℕ → Option (List ℕ × List ℕ)
split_method s = elim (last_dot s) [ none ↦ none | some i ↦ some (take i s, drop (suc i) s) ]

module _ {S : Type 0} where
  -- The loop of `MakeService` over the methods of its receiver.
  unfoldable pub collect_methods :
      List (Method S) → List (List ℕ × Method S) → List (List ℕ × Method S)
  collect_methods [] found = found
  collect_methods (m ∷ ms) found =
      collect_methods ms (if not_suitable m.sort then found else insert m.sort.name m found)

  -- `MakeService`
  unfoldable pub make_service : List ℕ → List (Method S) → Service S
  make_service name methods = record { name = name; methods = collect_methods methods [] }

  -- `MakeServer`
  abbrev pub make_server : Server S
  make_server = record { services = []; count = 0 }

  -- `Server.AddService`
  unfoldable pub add_service : Server S → Service S → Server S
  add_service rs svc = record rs { services = insert svc.name svc rs.services }

  -- `Service.dispatch`; an unknown method is fatal.
  unfoldable pub dispatch_method : Service S → List ℕ → List ℕ → S → Option (S × List ℕ)
  dispatch_method svc name args state = elim (lookup name svc.methods) [
    | none ↦ none
    | some m ↦ some (m.run args state)
  ]

  -- `Server.dispatch`; an unknown service is fatal.
  unfoldable pub dispatch : Server S → List ℕ → List ℕ → S → Option (Server S × S × List ℕ)
  unfolding split_method dispatch_method
  dispatch rs svc_meth args state = elim (split_method svc_meth) [
    | none ↦ none
    | some (service, method) ↦ elim (lookup service rs.services) [
      | none ↦ none
      | some svc ↦ elim (dispatch_method svc method args state) [
        | none ↦ none
        | some (state', reply) ↦ some (record rs { count = rs.count + 1 }, state', reply)
      ]
    ]
  ]

  -- `Server.GetCount`
  abbrev pub get_count : Server S → ℕ
  get_count rs = rs.count
