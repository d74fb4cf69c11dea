-- ===== src/Harness/Group.antt =====
-- tester1/group.go and tester1/srv.go: a group of servers on the simulated network. Every server has an
-- end to every server of the group. A random name is an argument; an index out of range panics and
-- gives `none`.
use mit_6_824_distributed_sy.Prelude.{
  ℕ, zero, suc, ◌+◌, ◌-◌, ◌/◌, Bool, true, false, Option, none, some, List, [], ◌∷◌, if◌then◌else◌,
  ltb, ◌==◌, length, get_elem?, set, replicate, Key,
}
use mit_6_824_distributed_sy.Raft.State.{Persister, ◌>>=◌}
use mit_6_824_distributed_sy.Net.Network.{
  Network, make_end, connect as wire, enable, add_server, delete_server,
}

-- `Server`: its ends, its persister, and whether it runs services.
pub record GroupServer (K : Type 0) : Type 0 where
  pub end_names : List K
  pub saved : Option Persister
  pub serving : Bool

-- `ServerGrp`
pub record ServerGroup (K : Type 0) : Type 0 where
  pub servers : List (GroupServer K)
  pub server_names : List K
  pub connected : List Bool

-- `MakePersister`
abbrev pub make_persister : Persister
make_persister = record { raftstate = []; snapshot = [] }

-- The persister that a new server starts from: a copy of the old one's.
abbrev pub copied : Option Persister → Persister
copied none = make_persister
copied (some ps) = ps

-- The numbers from `i` on, `n` of them.
abbrev pub range : ℕ → ℕ → List ℕ
range i zero = []
range i (suc n) = i ∷ range (suc i) n

module _ {K : Type 0} where
  -- `all`
  abbrev pub all_servers : ServerGroup K → List ℕ
  all_servers sg = range 0 (length sg.servers)

  -- `makeSrvGrp`, of servers that are made already.
  abbrev pub make_group : List (GroupServer K) → List K → ServerGroup K
  make_group servers names = record {
    servers = servers;
    server_names = names;
    connected = replicate (length servers) false;
  }

-- The loop of `MakePartition` over the servers from `i` on: two arrays, and where the next one goes.
unfoldable pub fill_partition : ℕ → ℕ → ℕ → ℕ → List ℕ → List ℕ → List ℕ × List ℕ
fill_partition l i zero j p1 p2 = (p1, p2)
fill_partition l i (suc n) j p1 p2 =
    let skipped = fill_partition l (i + 1) n j p1 p2 in
    let first = fill_partition l (i + 1) n (j + 1) (set p1 j i) p2 in
    let second = fill_partition l (i + 1) n (j + 1) p1 (set p2 (j - length p1) i) in
    if i == l then skipped else if ltb j (length p1) then first else second

-- `MakePartition` for `n` servers: the leader goes to the end of the smaller part.
unfoldable pub make_partition : ℕ → ℕ → Option (List ℕ × List ℕ)
unfolding fill_partition
make_partition n l =
    let (p1, p2) = fill_partition l 0 n 0 (replicate (n / 2 + 1) 0) (replicate (n / 2) 0) in
    if ltb 0 (length p2) then some (p1, set p2 (length p2 - 1) l) else none

module _ {K : Type 0} ⦃key : Key K⦄ where
  -- The loop of `makeServer`: an end of a fresh name to each server of the group.
  unfoldable pub make_ends : Network K → List K → List K → Option (Network K)
  make_ends rn [] names = some rn
  make_ends rn (e ∷ ends) [] = none
  make_ends rn (e ∷ ends) (server ∷ names) = do
    rn1 ← make_end rn e
    make_ends (wire rn1 e server) ends names

  -- `Server.connect`: the ends from a server to those that are connected.
  unfoldable pub connect_out : Network K → List Bool → List K → List ℕ → Option (Network K)
  connect_out rn connected ends [] = some rn
  connect_out rn connected ends (j ∷ to) = elim (get_elem? connected j) [
    | none ↦ none
    | some false ↦ connect_out rn connected ends to
    | some true ↦ elim (get_elem? ends j) [
      | none ↦ none
      | some e ↦ connect_out (enable rn e true) connected ends to
    ]
  ]

  -- The end of a server to server `i`.
  abbrev pub end_to : List (GroupServer K) → ℕ → ℕ → Option K
  end_to servers j i = do s ← get_elem? servers j; get_elem? s.end_names i

  -- The loop of `ServerGrp.connect`: the ends to server `i` of those that are connected.
  unfoldable pub connect_in :
      Network K → List Bool → List (GroupServer K) → ℕ → List ℕ → Option (Network K)
  connect_in rn connected servers i [] = some rn
  connect_in rn connected servers i (j ∷ to) = elim (get_elem? connected j) [
    | none ↦ none
    | some false ↦ connect_in rn connected servers i to
    | some true ↦ elim (end_to servers j i) [
      | none ↦ none
      | some e ↦ connect_in (enable rn e true) connected servers i to
    ]
  ]

  -- `ServerGrp.connect`
  unfoldable pub connect_to :
      ServerGroup K → Network K → ℕ → List ℕ → Option (ServerGroup K × Network K)
  unfolding connect_out connect_in
  connect_to sg rn i to = do
    s ← get_elem? sg.servers i
    let connected = set sg.connected i true
    rn1 ← connect_out rn connected s.end_names to
    rn2 ← connect_in rn1 connected sg.servers i to
    some (record sg { connected = connected }, rn2)

  -- `Server.disconnect`
  unfoldable pub disconnect_out : Network K → List K → List ℕ → Option (Network K)
  disconnect_out rn ends [] = some rn
  disconnect_out rn ends (j ∷ from) = elim (get_elem? ends j) [
    | none ↦ none
    | some e ↦ disconnect_out (enable rn e false) ends from
  ]

  -- The loop of `ServerGrp.disconnect`
  unfoldable pub disconnect_in : Network K → List (GroupServer K) → ℕ → List ℕ → Option (Network K)
  disconnect_in rn servers i [] = some rn
  disconnect_in rn servers i (j ∷ from) = elim (end_to servers j i) [
    | none ↦ none
    | some e ↦ disconnect_in (enable rn e false) servers i from
  ]

  -- `ServerGrp.disconnect`
  unfoldable pub disconnect_from :
      ServerGroup K → Network K → ℕ → List ℕ → Option (ServerGroup K × Network K)
  unfolding disconnect_out disconnect_in
  disconnect_from sg rn i from = elim (get_elem? sg.servers i) [
    | none ↦ none
    | some s ↦ elim (disconnect_out rn s.end_names from) [
      | none ↦ none
      | some rn1 ↦ elim (disconnect_in rn1 sg.servers i from) [
        | none ↦ none
        | some rn2 ↦ some (record sg { connected = set sg.connected i false }, rn2)
      ]
    ]
  ]

  -- `ConnectOne`
  unfoldable pub connect_one : ServerGroup K → Network K → ℕ → Option (ServerGroup K × Network K)
  unfolding connect_to
  connect_one sg rn i = connect_to sg rn i (all_servers sg)

  -- The loop of `ConnectAll`.
  unfoldable pub connect_each :
      ServerGroup K → Network K → List ℕ → Option (ServerGroup K × Network K)
  unfolding connect_one
  connect_each sg rn [] = some (sg, rn)
  connect_each sg rn (i ∷ rest) = do (sg1, rn1) ← connect_one sg rn i; connect_each sg1 rn1 rest

  -- `DisconnectAll`
  unfoldable pub disconnect_all : ServerGroup K → Network K → ℕ → Option (ServerGroup K × Network K)
  unfolding disconnect_from
  disconnect_all sg rn i = disconnect_from sg rn i (all_servers sg)

  -- A loop of `Partition`: the servers of one part leave those of the other.
  unfoldable pub separate :
      ServerGroup K → Network K → List ℕ → List ℕ → List ℕ → Option (ServerGroup K × Network K)
  unfolding disconnect_from connect_to
  separate sg rn [] own other = some (sg, rn)
  separate sg rn (i ∷ rest) own other = do
    (sg1, rn1) ← disconnect_from sg rn i other
    (sg2, rn2) ← connect_to sg1 rn1 i own
    separate sg2 rn2 rest own other

  -- `Partition`
  unfoldable pub partition :
      ServerGroup K → Network K → List ℕ → List ℕ → Option (ServerGroup K × Network K)
  unfolding separate
  partition sg rn p1 p2 = do (sg1, rn1) ← separate sg rn p1 p1 p2; separate sg1 rn1 p2 p2 p1

  -- `StartServer`, with the names of the new ends and the address of the new server.
  unfoldable pub start_server :
      ServerGroup K → Network K → ℕ → List K → ℕ → Option (ServerGroup K × Network K)
  unfolding make_ends
  start_server sg rn i ends address = do
    s ← get_elem? sg.servers i
    name ← get_elem? sg.server_names i
    rn1 ← make_ends rn ends sg.server_names
    some (
      record sg {
        servers =
            set sg.servers i
              (record { end_names = ends; saved = some (copied s.saved); serving = true });
      },
      add_server rn1 name address,
    )

  -- `ShutdownServer`, with `Server.shutdownServer`.
  unfoldable pub shutdown_server :
      ServerGroup K → Network K → ℕ → Option (ServerGroup K × Network K)
  unfolding disconnect_all
  shutdown_server sg rn i = elim (disconnect_all sg rn i) [
    | none ↦ none
    | some (sg1, rn1) ↦ elim (get_elem? sg1.servers i) [
      | none ↦ none
      | some s ↦ elim (get_elem? sg1.server_names i) [
        | none ↦ none
        | some name ↦ some (
          record sg1 { servers = set sg1.servers i (record s { serving = false }) },
          delete_server rn1 name,
        )
      ]
    ]
  ]
