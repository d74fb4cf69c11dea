-- ===== src/Net/Examples.antt =====
-- The theorems about labrpc/labrpc.go at a small network.
use mit_6_824_distributed_sy.Prelude.{
  ℕ, ◌+◌, ◌≤◌, ◌<◌, ◌≡◌, ◌≢◌, refl, some, true, false, [], ◌∷◌, lookup, nat_key, insert, length,
  if◌then◌else◌,
}
use mit_6_824_distributed_sy.Net.Service.{
  Method, Service, Server, dot, split_method, last_dot, make_service, collect_methods, make_server,
  add_service, dispatch, dispatch_method, name_key,
}
use mit_6_824_distributed_sy.Net.Names.{make_service-methods}
use mit_6_824_distributed_sy.Net.Network.{
  Network, ReqMsg, EndInfo, make_network, delete_server, read_end, is_server_dead, begin_request,
  end_request, runs, fails, long_delay,
}
use mit_6_824_distributed_sy.Net.Delays.{
  delay_of, delay_after, delays_bounded, server_deleted, Cut-fails,
}
use mit_6_824_distributed_sy.Net.Calls.{Wire, Reach, start, then_by, sends, begins, executes, ends}
use mit_6_824_distributed_sy.Net.Once.{RanOnce, answered_once}

-- Service 7 has the method 9, which counts its calls and returns its argument, and one more method
-- that is no handler.
abbrev echo : Method ℕ
echo = record {
  sort = record {
    name = 9 ∷ [];
    exported = true;
    num_in = 3;
    reply_is_pointer = true;
    num_out = 0;
  };
  run = λ bytes state. (state + 1, bytes);
}

abbrev helper : Method ℕ
helper = record {
  sort = record {
    name = 8 ∷ [];
    exported = true;
    num_in = 1;
    reply_is_pointer = true;
    num_out = 0;
  };
  run = λ bytes state. (state, []);
}

abbrev service : Service ℕ
service = make_service (7 ∷ []) (helper ∷ echo ∷ [])

abbrev server : Server ℕ
server = add_service make_server service

make_service-methods_example :
    (echo.sort.name ≡ 9 ∷ [])
    × (echo.sort.exported ≡ true)
    × (echo.sort.num_in ≡ 3)
    × (echo.sort.reply_is_pointer ≡ true)
    × (echo.sort.num_out ≡ 0)
unfolding make_service collect_methods lookup insert
make_service-methods_example = make_service-methods (7 ∷ []) (helper ∷ echo ∷ []) (9 ∷ []) echo refl

-- The end 1, connected to the server 5 at the address 0.
abbrev wired : Network ℕ
wired = record make_network {
  ends = (1, 1) ∷ [];
  enabled = (1, true) ∷ [];
  servers = (5, some 0) ∷ [];
  connections = (1, some 5) ∷ [];
}

abbrev request : ReqMsg ℕ
request = record { end_name = 1; svc_meth = 7 ∷ dot ∷ 9 ∷ []; args = 3 ∷ 4 ∷ [] }

abbrev info : EndInfo ℕ
info = record {
  enabled = true;
  server_name = some 5;
  server = some 0;
  reliable = true;
  long_reordering = false;
}

delays_bounded_example :
    (delay_of (begin_request wired request 12345 50)
      < (if wired.long_delays then long_delay else 100))
    × (delay_after (end_request wired 1 5 0 info (3 ∷ []) 50 100 7777 8888) < 2200)
delays_bounded_example = delays_bounded wired wired request 5 0 info (3 ∷ []) 12345 50 100 7777 8888

Cut-fails_example :
    (end_request (delete_server wired 5) 1 5 0 info (3 ∷ []) 2 3 4 5 ≡ fails)
    × (begin_request (delete_server wired 5) request 1 2 ≢ runs 0 5 0 info)
Cut-fails_example =
    Cut-fails wired (delete_server wired 5) request 5 0 info info (3 ∷ []) 1 2 3 4 5 0
      (server_deleted refl)

record WireRun : Type 1 where
  last : Wire ℕ ℕ
  reach : Reach last

-- A call goes to the server and its reply comes back.
abbrev one_call : WireRun
unfolding begin_request end_request dispatch dispatch_method split_method last_dot make_service
    collect_methods add_service lookup insert read_end is_server_dead
one_call = record {
  last = _;
  reach =
      then_by
        (then_by
          (then_by (then_by (start wired (server ∷ []) 0) (sends 0 request refl))
            (begins 0 1 2 refl))
          (executes 0 refl refl refl))
        (ends 0 2 3 4 5 refl refl);
}

answered_once_example :
    (length (one_call.last.ran 0) ≤ 1) × RanOnce (one_call.last.calls 0) (one_call.last.ran 0)
unfolding begin_request end_request dispatch dispatch_method split_method last_dot make_service
    collect_methods add_service lookup insert read_end is_server_dead
answered_once_example = answered_once one_call.reach 0
