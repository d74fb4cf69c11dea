-- ===== src/Harness/Examples/Clients.antt =====
-- A client of one server under tester1/clnts.go.
use mit_6_824_distributed_sy.Prelude.{
  ℕ, ◌≡◌, refl, none, some, true, false, [], lookup, insert, delete, nat_key,
}
use mit_6_824_distributed_sy.Net.Network.{
  Network, make_network, make_end, connect, enable, read_end, delete_end,
}
use mit_6_824_distributed_sy.Harness.Clients.{
  Client, make_client, client_end, client_connect_to, client_disconnect_all, is_allowed, is_listed,
  enable_each, enable_allowed, remove_ends,
}

-- A client that may call every server, and its end 10 to server 5.
abbrev with_end :
    (clnt : Client ℕ) × (rn : Network ℕ) × (client_end (make_client none) make_network 5 10
      ≡ some (clnt, rn, 10))
unfolding client_end is_allowed make_end connect enable lookup insert
with_end = (_, _, refl)

enabled_end : (read_end with_end.1 10).enabled ≡ true
unfolding client_end is_allowed make_end connect enable lookup insert read_end
enabled_end = refl

-- Once it is told to connect to no server, none is allowed, but its end to server 5 stays enabled;
still_enabled : (read_end (client_connect_to with_end.0 with_end.1 []).1 10).enabled ≡ true
unfolding client_end is_allowed make_end connect enable lookup insert read_end client_connect_to
    enable_allowed is_listed
still_enabled = refl

-- to disconnect from all, it is disabled,
disabled : (read_end (client_disconnect_all with_end.0 with_end.1).1 10).enabled ≡ false
unfolding client_end is_allowed make_end connect enable lookup insert read_end client_disconnect_all
    enable_each
disabled = refl

-- and a removal leaves no end.
removed : remove_ends with_end.1 with_end.0.ends ≡ some make_network
unfolding client_end is_allowed make_end connect enable lookup insert remove_ends delete_end delete
removed = refl
