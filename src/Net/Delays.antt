-- ===== src/Net/Delays.antt =====
-- labrpc/labrpc.go: how long `processReq` waits, when it answers, and when it does not.
use mit_6_824_distributed_sy.Prelude.{
  ℕ, ◌+◌, ◌%◌, ◌<◌, ◌≡◌, ◌≢◌, refl, true, false, Option, none, some, List, arith, if◌then◌else◌,
  Key, lookup, lookup-insert_self, lookup-delete,
}
use native.Mathlib.Nat.{mod-lt}
use mit_6_824_distributed_sy.Net.Network.{
  Network, ReqMsg, EndInfo, Begun, no_server, dropped, runs, Ended, fails, replies, long_delay,
  read_end, is_server_dead, begin_request, end_request, make_end, delete_end, add_server,
  delete_server, connect, enable,
}

-- How long a request waits before it fails or reaches its server.
abbrev pub delay_of : {K : Type 0} → Begun K → ℕ
delay_of (no_server d) = d
delay_of (dropped d) = d
delay_of (runs d _ _ _) = d

-- How long an answer waits.
abbrev pub delay_after : Ended → ℕ
delay_after fails = 0
delay_after (replies d _) = d

module _ {K : Type 0} ⦃key : Key K⦄ where
  begin-bounded :
      (rn : Network K) (req : ReqMsg K) (wait loss : ℕ)
      → delay_of (begin_request rn req wait loss) < (if rn.long_delays then long_delay else 100)
  unfolding begin_request
  begin-bounded rn req wait loss = ground arith

  end-bounded :
      (rn : Network K) (end_name server_name : K) (server : ℕ) (info : EndInfo K) (reply : List ℕ)
      (loss late a b : ℕ)
      → delay_after (end_request rn end_name server_name server info reply loss late a b) < 2200
  unfolding end_request
  end-bounded rn end_name server_name server info reply loss late a b =
      let small : a % 2000 < 2000 = omega arith in
      let inner : b % (1 + a % 2000) < 1 + a % 2000 = mod-lt b (omega arith) in
      ground (arith, small, inner)

  -- However the random numbers fall, a request waits less than 100 ms before it fails or reaches its
  -- server, and less than `LONGDELAY` where long delays are on; and what comes of the handler's
  -- return waits less than 2200 ms.
  pub delays_bounded :
      (rn later : Network K) (req : ReqMsg K) (server_name : K) (server : ℕ) (info : EndInfo K)
      (reply : List ℕ) (wait loss late a b : ℕ)
      → (delay_of (begin_request rn req wait loss) < (if rn.long_delays then long_delay else 100))
        × (delay_after (end_request later req.end_name server_name server info reply loss late a b)
            < 2200)
  delays_bounded rn later req server_name server info reply wait loss late a b = (
    begin-bounded rn req wait loss,
    end-bounded later req.end_name server_name server info reply loss late a b,
  )

  -- A request over a reliable network without reordering, through an enabled end that is connected
  -- to a server that there is, runs at that server at once; and if the network is so when the
  -- handler returns, its reply is delivered at once, whatever the random numbers.
  pub reliable-replies :
      (rn later : Network K) (req : ReqMsg K) (server_name : K) (server : ℕ) (reply : List ℕ)
      (wait loss late a b : ℕ)
      → rn.reliable ≡ true
      → rn.long_reordering ≡ false
      → lookup req.end_name rn.enabled ≡ some true
      → lookup req.end_name rn.connections ≡ some (some server_name)
      → lookup server_name rn.servers ≡ some (some server)
      → lookup req.end_name later.enabled ≡ some true
      → lookup server_name later.servers ≡ some (some server)
      → (info : EndInfo K) × (begin_request rn req wait loss ≡ runs 0 server_name server info)
        × (end_request later req.end_name server_name server info reply loss late a b
            ≡ replies 0 reply)
  unfolding begin_request end_request read_end
  reliable-replies rn later req server_name server reply wait loss late a b r o e c s e' s' = (
    record {
      enabled = true;
      server_name = some server_name;
      server = some server;
      reliable = true;
      long_reordering = false;
    },
    ground (arith, r, o, e, c, s),
    ground (arith, e', s'),
  )

  -- What takes a server from an end.
  pub data Cut (rn rn' : Network K) (end_name server_name : K) (server : ℕ) : Type 0 where
    server_deleted : rn' ≡ delete_server rn server_name → Cut rn rn' end_name server_name server
    -- another server takes its name, as after a crash and a restart
    server_replaced :
        (other : ℕ)
        → other ≢ server
        → rn' ≡ add_server rn server_name other
        → Cut rn rn' end_name server_name server
    end_disabled : rn' ≡ enable rn end_name false → Cut rn rn' end_name server_name server
    end_deleted : delete_end rn end_name ≡ some rn' → Cut rn rn' end_name server_name server

  Cut-dead :
      (rn rn' : Network K) (end_name server_name : K) (server : ℕ)
      → Cut rn rn' end_name server_name server
      → is_server_dead rn' end_name server_name server ≡ true
  unfolding is_server_dead delete_server add_server enable delete_end
  Cut-dead rn rn' end_name server_name server (server_deleted e) =
      let gone : Option ℕ = none in
      ground (arith, e, lookup-insert_self server_name gone rn.servers)
  Cut-dead rn rn' end_name server_name server (server_replaced other ne e) =
      ground (arith, e, ne, lookup-insert_self server_name (some other) rn.servers)
  Cut-dead rn rn' end_name server_name server (end_disabled e) =
      ground (arith, e, lookup-insert_self end_name false rn.enabled)
  Cut-dead rn rn' end_name server_name server (end_deleted e) =
      ground (
        arith,
        e,
        lookup-delete end_name end_name rn.enabled,
        (key.beq_iff end_name end_name).1 refl,
      )

  runs-alive :
      (rn : Network K) (req : ReqMsg K) (wait loss delay : ℕ) (server_name : K) (server : ℕ)
      (info : EndInfo K)
      → begin_request rn req wait loss ≡ runs delay server_name server info
      → is_server_dead rn req.end_name server_name server ≡ false
  unfolding begin_request is_server_dead
  runs-alive rn req wait loss delay server_name server info e = ground arith

  pub Cut-fails :
      (rn rn' : Network K) (req : ReqMsg K) (server_name : K) (server : ℕ) (info later : EndInfo K)
      (reply : List ℕ) (wait loss late a b delay : ℕ)
      → Cut rn rn' req.end_name server_name server
      → (end_request rn' req.end_name server_name server info reply loss late a b ≡ fails)
        × (begin_request rn' req wait loss ≢ runs delay server_name server later)
  unfolding end_request
  Cut-fails rn rn' req server_name server info later reply wait loss late a b delay cut =
      let dead = Cut-dead rn rn' req.end_name server_name server cut in
      (
        ground (arith, dead),
        λ e.
            let alive = runs-alive rn' req wait loss delay server_name server later e in
            ground (arith, dead, alive),
      )

  -- An end that is made, connected to a server's name and enabled reads as enabled and as connected
  -- to the server of that name, with the network's settings; and no second end gets its name.
  pub made-end :
      (rn rn1 : Network K) (end_name server_name : K) (server : ℕ)
      → make_end rn end_name ≡ some rn1
      → let rn2 =
          enable (connect (add_server rn1 server_name server) end_name server_name) end_name true in
        (read_end rn2 end_name ≡ record {
          enabled = true;
          server_name = some server_name;
          server = some server;
          reliable = rn.reliable;
          long_reordering = rn.long_reordering;
        })
        × (make_end rn2 end_name ≡ none)
  unfolding make_end enable connect add_server read_end
  made-end rn rn1 end_name server_name server e = ground (
    arith,
    e,
    lookup-insert_self end_name end_name rn.ends,
    lookup-insert_self end_name true rn1.enabled,
    lookup-insert_self end_name (some server_name) rn1.connections,
    lookup-insert_self server_name (some server) rn1.servers,
  )
