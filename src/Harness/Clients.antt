-- ===== src/Harness/Clients.antt =====
-- tester1/clnts.go: `Clnt`, the ends of one clerk on the simulated network. A random name is an
-- argument.
use mit_6_824_distributed_sy.Prelude.{
  Bool, true, false, Option, none, some, List, [], ◌∷◌, if◌then◌else◌, Key, lookup, insert,
}
use mit_6_824_distributed_sy.Raft.State.{◌>>=◌}
use mit_6_824_distributed_sy.Net.Network.{Network, make_end, delete_end, connect as wire, enable}

-- `Clnt`: the names of its ends by their servers, and the servers that it may call, or all.
pub record Client (K : Type 0) : Type 0 where
  pub ends : List (K × K)
  pub allowed : Option (List K)

module _ {K : Type 0} where
  -- `makeClntTo`
  abbrev pub make_client : Option (List K) → Client K
  make_client allowed = record { ends = []; allowed = allowed }

module _ {K : Type 0} ⦃key : Key K⦄ where
  -- The loop of `allowedL`.
  unfoldable pub is_listed : List K → K → Bool
  is_listed [] server = false
  is_listed (n ∷ names) server =
      let rest = is_listed names server in if key.beq n server then true else rest

  -- `allowedL`
  unfoldable pub is_allowed : Client K → K → Bool
  unfolding is_listed
  is_allowed clnt server = elim clnt.allowed [ none ↦ true | some names ↦ is_listed names server ]

  -- `Clnt.makeEnd`: the end to a server, made with a fresh name if there is none yet.
  unfoldable pub client_end : Client K → Network K → K → K → Option (Client K × Network K × K)
  unfolding is_allowed
  client_end clnt rn server fresh = elim (lookup server clnt.ends) [
    | some name ↦ some (clnt, rn, name)
    | none ↦ elim (make_end rn fresh) [
      | none ↦ none
      | some rn1 ↦ some (
        record clnt { ends = insert server fresh clnt.ends },
        enable (wire rn1 fresh server) fresh (is_allowed clnt server),
        fresh,
      )
    ]
  ]

  -- The loops over the ends that enable or disable all of them,
  unfoldable pub enable_each : Network K → List (K × K) → Bool → Network K
  enable_each rn [] on = rn
  enable_each rn ((server, name) ∷ ends) on = enable_each (enable rn name on) ends on

  -- or enable those to the servers that are allowed,
  unfoldable pub enable_allowed : Network K → Client K → List (K × K) → Network K
  unfolding is_allowed
  enable_allowed rn clnt [] = rn
  enable_allowed rn clnt ((server, name) ∷ ends) =
      enable_allowed (if is_allowed clnt server then enable rn name true else rn) clnt ends

  -- or disable that to one server.
  unfoldable pub disable_one : Network K → K → List (K × K) → Network K
  disable_one rn server [] = rn
  disable_one rn server ((s, name) ∷ ends) =
      disable_one (if key.beq s server then enable rn name false else rn) server ends

  -- `Clnt.ConnectAll`
  unfoldable pub client_connect_all : Client K → Network K → Client K × Network K
  unfolding enable_each
  client_connect_all clnt rn = (record clnt { allowed = none }, enable_each rn clnt.ends true)

  -- `Clnt.ConnectTo`
  unfoldable pub client_connect_to : Client K → Network K → List K → Client K × Network K
  unfolding enable_allowed
  client_connect_to clnt rn servers =
      let clnt' : Client K = record clnt { allowed = some servers } in
      (clnt', enable_allowed rn clnt' clnt.ends)

  -- `Clnt.Disconnect`
  unfoldable pub client_disconnect : Client K → Network K → K → Network K
  unfolding disable_one
  client_disconnect clnt rn server = disable_one rn server clnt.ends

  -- `Clnt.DisconnectAll`
  unfoldable pub client_disconnect_all : Client K → Network K → Client K × Network K
  unfolding enable_each
  client_disconnect_all clnt rn =
      (record clnt { allowed = some [] }, enable_each rn clnt.ends false)

  -- `Clnt.remove`
  unfoldable pub remove_ends : Network K → List (K × K) → Option (Network K)
  remove_ends rn [] = some rn
  remove_ends rn ((server, name) ∷ ends) = do rn1 ← delete_end rn name; remove_ends rn1 ends
