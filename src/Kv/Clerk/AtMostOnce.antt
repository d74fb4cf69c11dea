-- ===== src/Kv/Clerk/AtMostOnce.antt =====
-- What a clerk's answer says about the server, for any loss of messages and any interference.
use mit_6_824_distributed_sy.Prelude.{
  ◌+◌, ◌≤◌, ◌<◌, ◌^◌, ◌≡◌, ◌≢◌, refl, Bool, true, false, Option, none, some, List, [], ◌∷◌, arith,
  string_key, ◌⊎◌, inl, inr, ◌↔◌, ◌++◌, ◌∙◌, sym,
}
use mit_6_824_distributed_sy.Rpc.{PutArgs, GetArgs, Err}
use mit_6_824_distributed_sy.Kv.Server.{KvServer, get, put}
use mit_6_824_distributed_sy.Kv.Versions.{version_at, put_answers}
use mit_6_824_distributed_sy.Kv.Clerk.History.{
  run_puts, run_puts-version-grows, put-version-grows, version_at-put,
}
use mit_6_824_distributed_sy.Kv.Clerk.{
  Attempt, lost_request, lost_reply, delivered, clerk_put, clerk_get, performed, work,
}

-- A put that names an old version is refused with ErrVersion and changes nothing.
pub stale_put :
    (kv : KvServer) (args : PutArgs)
    → args.ver < version_at kv args.key
    → ((put kv args).1.err ≡ Err.version) × ((put kv args).0 ≡ kv)
unfolding put
stale_put kv args h = ground arith

-- A put that succeeds leaves a version above the one that it named.
pub done_put :
    (kv : KvServer) (args : PutArgs)
    → version_at kv args.key + 1 < 2 ^ 64
    → (put kv args).1.err ≡ Err.ok
    → version_at (put kv args).0 args.key ≡ args.ver + 1
done_put kv args h e = ground (
  arith,
  version_at-put kv args args.key,
  (put_answers kv args).0.0 e,
  (string_key.beq_iff args.key args.key).1 refl,
)

-- Once the version has passed the one named, no later attempt is performed.
stale_clerk_put :
    (kv : KvServer) (args : PutArgs) (attempts : List Attempt)
    → args.ver < version_at kv args.key
    → version_at kv args.key + work attempts < 2 ^ 64
    → (performed (clerk_put kv args false attempts).replies ≡ 0)
      × (((clerk_put kv args false attempts).result ≡ none)
          ⊎ ((clerk_put kv args false attempts).result ≡ some Err.maybe))
unfolding clerk_put performed work
stale_clerk_put kv args [] h b = (refl, inl refl)
stale_clerk_put kv args (lost_request before ∷ rest) h b =
    let grown = run_puts-version-grows kv before args.key (omega arith) in
    stale_clerk_put (run_puts kv before) args rest (omega arith) (omega arith)
stale_clerk_put kv args (lost_reply before ∷ rest) h b =
    let kv0 = run_puts kv before in
    let grown = run_puts-version-grows kv before args.key (omega arith) in
    let (e, same) = stale_put kv0 args (omega arith) in
    let ih = stale_clerk_put kv0 args rest (omega arith) (omega arith) in
    ground (arith, e, same, ih)
stale_clerk_put kv args (delivered before ∷ rest) h b =
    let kv0 = run_puts kv before in
    let grown = run_puts-version-grows kv before args.key (omega arith) in
    let (e, same) = stale_put kv0 args (omega arith) in ground (arith, e)

-- What each answer promises.
pub record Promise (replies : List Err) (result : Option Err) : Type 0 where
  pub at_most_once : performed replies ≤ 1
  pub ok_performed : result ≡ some Err.ok → performed replies ≡ 1
  pub version_not_performed : result ≡ some Err.version → performed replies ≡ 0
  pub no_key_not_performed : result ≡ some Err.no_key → performed replies ≡ 0

clerk_put_from-Promise :
    (kv : KvServer) (args : PutArgs) (first : Bool) (attempts : List Attempt)
    → version_at kv args.key + work attempts < 2 ^ 64
    → Promise (clerk_put kv args first attempts).replies (clerk_put kv args first attempts).result
unfolding clerk_put performed work
clerk_put_from-Promise kv args first [] b = ground arith
clerk_put_from-Promise kv args first (lost_request before ∷ rest) b =
    let grown = run_puts-version-grows kv before args.key (omega arith) in
    clerk_put_from-Promise (run_puts kv before) args false rest (omega arith)
clerk_put_from-Promise kv args first (lost_reply before ∷ rest) b =
    let kv0 = run_puts kv before in
    let grown = run_puts-version-grows kv before args.key (omega arith) in
    let grows = put-version-grows kv0 args args.key (omega arith) in
    let ih = clerk_put_from-Promise (put kv0 args).0 args false rest (omega arith) in
    ground (arith, ih, done_put kv0 args (omega arith), stale_clerk_put (put kv0 args).0 args rest)
clerk_put_from-Promise kv args first (delivered before ∷ rest) b = ground arith

-- Whatever messages are lost and whatever puts of others come between, as long as the version
-- counter does not wrap: the server performs a clerk's put at most once; it has performed it if
-- the clerk returns OK, and has not if the clerk returns ErrVersion or ErrNoKey.
pub clerk_put-Promise :
    (kv : KvServer) (args : PutArgs) (attempts : List Attempt)
    → version_at kv args.key + work attempts < 2 ^ 64
    → Promise (clerk_put kv args true attempts).replies (clerk_put kv args true attempts).result
clerk_put-Promise kv args attempts b = clerk_put_from-Promise kv args true attempts b

-- Some attempt gets its reply through.
abbrev pub has_delivery : List Attempt → Bool
has_delivery [] = false
has_delivery (lost_request before ∷ rest) = has_delivery rest
has_delivery (lost_reply before ∷ rest) = has_delivery rest
has_delivery (delivered before ∷ rest) = true

-- A clerk's put returns exactly if one of its attempts gets its reply through, and likewise a get.
pub clerk-returns :
    (kv : KvServer) (args : PutArgs) (gargs : GetArgs) (first : Bool) (attempts : List Attempt)
    → ((clerk_put kv args first attempts).result ≢ none ↔ has_delivery attempts ≡ true)
      × ((clerk_get kv gargs attempts).1 ≢ none ↔ has_delivery attempts ≡ true)
unfolding clerk_put clerk_get
clerk-returns kv args gargs first [] =
    ((λ h. absurd (h refl), λ h. cc), (λ h. absurd (h refl), λ h. cc))
clerk-returns kv args gargs first (lost_request before ∷ rest) =
    let kv0 = run_puts kv before in let ih = clerk-returns kv0 args gargs false rest in (ih.0, ih.1)
clerk-returns kv args gargs first (lost_reply before ∷ rest) =
    let kv0 = run_puts kv before in
    (
      (clerk-returns (put kv0 args).0 args gargs false rest).0,
      (clerk-returns kv0 args gargs first rest).1,
    )
clerk-returns kv args gargs first (delivered before ∷ rest) =
    ((λ _. refl, λ _ h. cc), (λ _. refl, λ _ h. cc))

-- The puts of others that the server has executed when a get returns.
abbrev pub seen_by_get : List Attempt → List PutArgs
seen_by_get [] = []
seen_by_get (lost_request before ∷ rest) = before ++ seen_by_get rest
seen_by_get (lost_reply before ∷ rest) = before ++ seen_by_get rest
seen_by_get (delivered before ∷ rest) = before

pub run_puts-append :
    (kv : KvServer) (xs ys : List PutArgs) → run_puts kv (xs ++ ys) ≡ run_puts (run_puts kv xs) ys
unfolding run_puts
run_puts-append kv [] ys = refl
run_puts-append kv (x ∷ xs) ys = run_puts-append (put kv x).0 xs ys

-- A clerk's get changes nothing at the server, whose store is the one that the other clients' puts
-- make, and the answer that it returns is the server's answer in that one store.
pub clerk_get-linearizes :
    (kv : KvServer) (args : GetArgs) (attempts : List Attempt)
    → ((clerk_get kv args attempts).0 ≡ run_puts kv (seen_by_get attempts))
      × (((clerk_get kv args attempts).1 ≡ none)
          ⊎ ((clerk_get kv args attempts).1 ≡ some (get (clerk_get kv args attempts).0 args)))
unfolding clerk_get run_puts
clerk_get-linearizes kv args [] = (refl, inl refl)
clerk_get-linearizes kv args (lost_request before ∷ rest) =
    let kv0 = run_puts kv before in
    let ih = clerk_get-linearizes kv0 args rest in
    (ih.0 ∙ sym (run_puts-append kv before (seen_by_get rest)), ih.1)
clerk_get-linearizes kv args (lost_reply before ∷ rest) =
    let kv0 = run_puts kv before in
    let ih = clerk_get-linearizes kv0 args rest in
    (ih.0 ∙ sym (run_puts-append kv before (seen_by_get rest)), ih.1)
clerk_get-linearizes kv args (delivered before ∷ rest) = (refl, inr refl)
