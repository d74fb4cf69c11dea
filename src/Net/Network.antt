-- ===== src/Net/Network.antt =====
-- labrpc/labrpc.go: `Network`. Ends and servers have names of any type with an equality; a pointer to
-- a server is an address, and nil is `none`. A random number is an argument.
use mit_6_824_distributed_sy.Prelude.{
  ℕ, ◌+◌, ◌%◌, Bool, true, false, ◌&&◌, ◌||◌, not, Option, none, some, List, [], if◌then◌else◌, ltb,
  ◌==◌, length, Key, lookup, insert, delete,
}

abbrev pub short_delay : ℕ
short_delay = 27

abbrev pub long_delay : ℕ
long_delay = 7000

abbrev pub max_delay : ℕ
max_delay = long_delay + 100

-- `reqMsg`, without its reply channel.
pub record ReqMsg (K : Type 0) : Type 0 where
  pub end_name : K
  pub svc_meth : List ℕ
  pub args : List ℕ

-- `Network`. `ends` holds the ends by their names; `closed` is whether `done` is.
pub record Network (K : Type 0) : Type 0 where
  pub reliable : Bool
  pub long_delays : Bool
  pub long_reordering : Bool
  pub ends : List (K × K)
  pub enabled : List (K × Bool)
  pub servers : List (K × Option ℕ)
  pub connections : List (K × Option K)
  pub closed : Bool
  pub count : ℕ
  pub bytes : ℕ

-- What `readEndnameInfo` returns.
pub record EndInfo (K : Type 0) : Type 0 where
  pub enabled : Bool
  pub server_name : Option K
  pub server : Option ℕ
  pub reliable : Bool
  pub long_reordering : Bool

-- The zero value for a missing key.
abbrev pub or_nil {ℓ} : {A : Type ℓ} → Option (Option A) → Option A
or_nil none = none
or_nil (some a) = a

abbrev pub or_false : Option Bool → Bool
or_false none = false
or_false (some b) = b

abbrev pub is_at : Option ℕ → ℕ → Bool
is_at none a = false
is_at (some b) a = b == a

-- How `processReq` begins: it waits and reports a failure, drops the request, or waits and runs the
-- handler at a server.
pub data Begun (K : Type 0) : Type 0 where
  no_server : (delay : ℕ) → Begun K
  dropped : (delay : ℕ) → Begun K
  runs : (delay : ℕ) → (server_name : K) → (server : ℕ) → (info : EndInfo K) → Begun K

-- How it ends: with a failure, or with a reply after a delay.
pub data Ended : Type 0 where
  fails : Ended
  replies : (delay : ℕ) → (reply : List ℕ) → Ended

-- `rand.Int()%1000 < 100`
abbrev pub is_lost : ℕ → Bool
is_lost random = ltb (random % 1000) 100

module _ {K : Type 0} where
  -- `MakeNetwork`, without the goroutine that it starts.
  abbrev pub make_network : Network K
  make_network = record {
    reliable = true;
    long_delays = false;
    long_reordering = false;
    ends = [];
    enabled = [];
    servers = [];
    connections = [];
    closed = false;
    count = 0;
    bytes = 0;
  }

  -- `Cleanup`
  abbrev pub cleanup : Network K → Network K
  cleanup rn = record rn { closed = true }

  -- `Reliable`
  abbrev pub set_reliable : Network K → Bool → Network K
  set_reliable rn on = record rn { reliable = on }

  -- `LongReordering`
  abbrev pub set_long_reordering : Network K → Bool → Network K
  set_long_reordering rn on = record rn { long_reordering = on }

  -- `LongDelays`
  abbrev pub set_long_delays : Network K → Bool → Network K
  set_long_delays rn on = record rn { long_delays = on }

  -- The goroutine of `MakeNetwork` takes a request.
  abbrev pub take_request : Network K → ReqMsg K → Network K
  take_request rn req = record rn { count = rn.count + 1; bytes = rn.bytes + length req.args }

module _ {K : Type 0} ⦃key : Key K⦄ where
  -- `MakeEnd`; a name that is taken is fatal.
  unfoldable pub make_end : Network K → K → Option (Network K)
  make_end rn name = elim (lookup name rn.ends) [
    | some _ ↦ none
    | none ↦ some (record rn {
      ends = insert name name rn.ends;
      enabled = insert name false rn.enabled;
      connections = insert name none rn.connections;
    })
  ]

  -- `DeleteEnd`; a name that there is not is fatal.
  unfoldable pub delete_end : Network K → K → Option (Network K)
  delete_end rn name = elim (lookup name rn.ends) [
    | none ↦ none
    | some _ ↦ some (record rn {
      ends = delete name rn.ends;
      enabled = delete name rn.enabled;
      connections = delete name rn.connections;
    })
  ]

  -- `AddServer`
  unfoldable pub add_server : Network K → K → ℕ → Network K
  add_server rn name server = record rn { servers = insert name (some server) rn.servers }

  -- `DeleteServer`
  unfoldable pub delete_server : Network K → K → Network K
  delete_server rn name = record rn { servers = insert name none rn.servers }

  -- `Connect`
  unfoldable pub connect : Network K → K → K → Network K
  connect rn end_name server_name = record rn {
    connections = insert end_name (some server_name) rn.connections;
  }

  -- `Enable`
  unfoldable pub enable : Network K → K → Bool → Network K
  enable rn end_name on = record rn { enabled = insert end_name on rn.enabled }

  -- `Network.GetCount` up to the server that it asks: none is a nil pointer, which panics.
  unfoldable pub counted_server : Network K → K → Option ℕ
  counted_server rn name = or_nil (lookup name rn.servers)

  -- `readEndnameInfo`
  unfoldable pub read_end : Network K → K → EndInfo K
  read_end rn name =
      let server_name = or_nil (lookup name rn.connections) in
      record {
        enabled = or_false (lookup name rn.enabled);
        server_name = server_name;
        server = elim server_name [ none ↦ none | some s ↦ or_nil (lookup s rn.servers) ];
        reliable = rn.reliable;
        long_reordering = rn.long_reordering;
      }

  -- `isServerDead`
  unfoldable pub is_server_dead : Network K → K → K → ℕ → Bool
  is_server_dead rn end_name server_name server =
      not (or_false (lookup end_name rn.enabled))
      || not (is_at (or_nil (lookup server_name rn.servers)) server)

  -- How `processReq` fails where there is no server to ask.
  abbrev pub fail_late : Network K → ℕ → Begun K
  fail_late rn wait = no_server (if rn.long_delays then wait % long_delay else wait % 100)

  -- How it goes on at a server.
  abbrev pub go_on : EndInfo K → K → ℕ → ℕ → ℕ → Begun K
  go_on info server_name server wait loss =
      let delay = if info.reliable then 0 else wait % short_delay in
      if not info.reliable && is_lost loss
      then dropped delay
      else runs delay server_name server info

  -- `processReq` up to the goroutine that runs the handler.
  unfoldable pub begin_request : Network K → ReqMsg K → ℕ → ℕ → Begun K
  unfolding read_end
  begin_request rn req wait loss =
      let info = read_end rn req.end_name in
      if info.enabled
      then elim info.server_name [
        | none ↦ fail_late rn wait
        | some server_name ↦ elim info.server [
          | none ↦ fail_late rn wait
          | some server ↦ go_on info server_name server wait loss
        ]
      ]
      else fail_late rn wait

  -- `processReq` from the handler's return on.
  unfoldable pub end_request : Network K → K → K → ℕ → EndInfo K → List ℕ → ℕ → ℕ → ℕ → ℕ → Ended
  unfolding is_server_dead
  end_request rn end_name server_name server info reply loss late a b =
      if is_server_dead rn end_name server_name server
      then fails
      else if not info.reliable && is_lost loss
      then fails
      else if info.long_reordering && ltb (late % 900) 600
      then replies (200 + b % (1 + a % 2000)) reply
      else replies 0 reply
