-- ===== src/Harness/Examples/Groups.antt =====
-- A group of two servers under tester1/group.go, and partitions of groups.
use mit_6_824_distributed_sy.Prelude.{
  ℕ, ◌≡◌, refl, inr, none, some, true, false, List, [], ◌∷◌, arith, lookup, insert, nat_key,
}
use mit_6_824_distributed_sy.Net.Network.{
  Network, ReqMsg, EndInfo, make_network, no_server, fails, begin_request, end_request, enable,
  add_server, make_end, connect,
}
use mit_6_824_distributed_sy.Harness.Group.{
  GroupServer, ServerGroup, make_group, shutdown_server, disconnect_all, disconnect_from,
  disconnect_out, disconnect_in, make_partition, fill_partition, make_ends, start_server,
  connect_each, connect_one, connect_to, connect_out, connect_in,
}
use mit_6_824_distributed_sy.Harness.Isolation.{shutdown-isolates}

abbrev server : List ℕ → GroupServer ℕ
server ends = record { end_names = ends; saved = none; serving = false }

-- The servers 5 and 6 with their ends 10, 11 and 12, 13, before they are started.
abbrev unstarted : ServerGroup ℕ
unstarted = make_group (server [] ∷ server [] ∷ []) (5 ∷ 6 ∷ [])

-- A group and its network.
record Site : Type 0 where
  group : ServerGroup ℕ
  net : Network ℕ

abbrev Made : ServerGroup ℕ → Network ℕ → Type 0
Made sg rn = (site : Site) × (start_server sg rn 0 (10 ∷ 11 ∷ []) 0 ≡ some (site.group, site.net))

abbrev first : Made unstarted make_network
unfolding start_server make_ends make_end connect add_server lookup insert
first = (record { group = _; net = _ }, refl)

abbrev second :
    (site : Site) × (start_server first.0.group first.0.net 1 (12 ∷ 13 ∷ []) 1
      ≡ some (site.group, site.net))
unfolding start_server make_ends make_end connect add_server lookup insert
second = (record { group = _; net = _ }, refl)

abbrev joined :
    (site : Site) × (connect_each second.0.group second.0.net (0 ∷ 1 ∷ [])
      ≡ some (site.group, site.net))
unfolding connect_each connect_one connect_to connect_out connect_in start_server make_ends make_end
    connect add_server enable lookup insert
joined = (record { group = _; net = _ }, refl)

abbrev down :
    (site : Site) × (shutdown_server joined.0.group joined.0.net 1 ≡ some (site.group, site.net))
unfolding shutdown_server disconnect_all disconnect_from disconnect_out disconnect_in connect_each
    connect_one connect_to connect_out connect_in start_server make_ends make_end connect add_server
    enable lookup insert
down = (record { group = _; net = _ }, refl)

abbrev request : ReqMsg ℕ
request = record { end_name = 11; svc_meth = []; args = [] }

abbrev info : EndInfo ℕ
info = record {
  enabled = true;
  server_name = some 6;
  server = some 1;
  reliable = true;
  long_reordering = false;
}

abbrev started : List ℕ → GroupServer ℕ
started ends = record {
  end_names = ends;
  saved = some (record { raftstate = []; snapshot = [] });
  serving = true;
}

shutdown-isolates_example :
    ((d : ℕ) × (begin_request down.0.net request 1 2 ≡ no_server d))
    × (end_request down.0.net 11 6 1 info [] 2 3 4 5 ≡ fails)
unfolding connect_each connect_one connect_to connect_out connect_in start_server make_ends make_end
    connect add_server enable lookup insert
shutdown-isolates_example =
    shutdown-isolates joined.0.group down.0.group joined.0.net down.0.net 1 0
      (started (12 ∷ 13 ∷ [])) request 6 1 info [] 1 2 3 4 5 down.1 refl (omega arith) (inr refl)

-- Five servers are parted into two and three.
five_parted : make_partition 5 1 ≡ some (0 ∷ 2 ∷ 3 ∷ [], 4 ∷ 1 ∷ [])
unfolding make_partition fill_partition
five_parted = refl

-- Of four servers, one comes to be in both parts.
four_parted : make_partition 4 1 ≡ some (0 ∷ 2 ∷ 3 ∷ [], 0 ∷ 1 ∷ [])
unfolding make_partition fill_partition
four_parted = refl
