-- ===== src/Raft/Cluster/Packets.antt =====
-- A cluster of raft1/raft.go with the calls of `AppendEntries` and `InstallSnapshot` on their way:
-- a peer gets only such a call as `sendAppendEntriesToPeer` of another peer has sent, at any later
-- time, any number of times or never. `book` and `owner` are read by no code: they take down what
-- log the leader of each term has, and who it is.
use mit_6_824_distributed_sy.Prelude.{
  ℕ, ◌≡◌, ◌≢◌, Option, some, none, List, [], ◌∷◌, ◌&&◌, ◌==◌, if◌then◌else◌, get_elem?,
}
use mit_6_824_distributed_sy.Raft.State.{Raft, sentinel, is_leader}
use mit_6_824_distributed_sy.Raft.Persist.{Codec}
use mit_6_824_distributed_sy.Raft.Leader.{Outgoing, install, append, make_append}
use mit_6_824_distributed_sy.Raft.Peer.{Event, append_request, install_request}
use mit_6_824_distributed_sy.Raft.Books.{Book}
use mit_6_824_distributed_sy.Raft.Books.Writing.{written}
use mit_6_824_distributed_sy.Raft.Cluster.System.{
  System, Step, elects, handles, loses, hears, happens, crashes, Reach, begin, next, boot, gone,
}

pub record Network (C : Type 0) : Type 0 where
  pub system : System C
  pub sent : List (ℕ × Outgoing C)
  pub book : Book C
  pub owner : ℕ → Option ℕ

module _ {C : Type 0} where
  -- A call to the peer `p` has been sent.
  abbrev pub OnWire : List (ℕ × Outgoing C) → ℕ → Outgoing C → Type 0
  OnWire sent p out = (k : ℕ) × (get_elem? sent k ≡ some (p, out))

  -- The calls that an event delivers have been sent.
  abbrev pub Carried : List (ℕ × Outgoing C) → ℕ → Event C → Type 0
  Carried sent p (append_request args now) = OnWire sent p (append args)
  Carried sent p (install_request args now) = OnWire sent p (install args)
  Carried sent p _ = Unit {0}

  -- A leader's term is its own.
  abbrev pub ruled : (ℕ → Option ℕ) → ℕ → Raft C → ℕ → Option ℕ
  ruled owner i rf t = if is_leader rf.role && (rf.current_term == t) then some i else owner t

  -- The book before any election: the sentinel of the empty logs.
  abbrev pub first_book : Book C
  first_book t j = if (t == 0) && (j == 0) then some (sentinel 0) else none

module _ {C : Type 0} (gob : Codec C) (n : ℕ) where
  -- The peer whose state a step changes, if it changes one.
  abbrev pub actor : {s s' : System C} → Step gob n s s' → ℕ
  actor (elects i _ _ _ _) = i
  actor (handles _ _ p _ _ _ _) = p
  actor (loses i _ _ _) = i
  actor (hears i _ _ _ _ _ _) = i
  actor (happens i _ _ _ _) = i
  actor (crashes i _ _) = i

  abbrev pub Allowed : List (ℕ × Outgoing C) → {s s' : System C} → Step gob n s s' → Type 0
  Allowed sent (happens i event _ _ _) = Carried sent i event
  Allowed sent _ = Unit {0}

  pub data NetStep (c : Network C) : Network C → Type 0 where
    -- A step of the cluster, which gets no call that was not sent.
    goes :
        {s : System C} (st : Step gob n c.system s)
        → Allowed c.sent st
        → NetStep c (record c {
          system = s;
          book = written c.book (s.peer (actor st));
          owner = ruled c.owner (actor st) (s.peer (actor st));
        })
    -- A goroutine that peer `i` started in `term` sends what it has to send to another peer.
    sends :
        (i p term : ℕ) {out : Outgoing C}
        → p ≢ i
        → make_append (c.system.peer i) p term ≡ some out
        → NetStep c (record c { sent = (p, out) ∷ c.sent })

  pub data NetReach : Network C → Type 0 where
    starts : NetReach (record {
      system = record {
        peer = boot gob n;
        calls = λ _ _ _. gone;
        votes = λ _ _. 0;
        ballots = λ _ _. none;
      };
      sent = [];
      book = first_book;
      owner = λ _. none;
    })
    then_by : {c d : Network C} → NetReach c → NetStep c d → NetReach d

  -- The cluster without its calls.
  pub NetReach-Reach : {c : Network C} → NetReach c → Reach gob n c.system
  NetReach-Reach starts = begin
  NetReach-Reach (then_by r (goes st _)) = next (NetReach-Reach r) st
  NetReach-Reach (then_by r (sends _ _ _ _ _)) = NetReach-Reach r
