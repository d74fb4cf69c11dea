-- ===== src/Kv/Versions.antt =====
-- How the handlers of kvsrv1/server.go treat versions.
use mit_6_824_distributed_sy.Prelude.{
  ℕ, ◌+◌, ◌≡◌, ◌≢◌, ◌↔◌, String, Bool, Option, none, some, if◌then◌else◌, lookup, string_key, arith,
  lookup-insert, inl, inr, Option-cases,
}
use mit_6_824_distributed_sy.Rpc.{u64, PutArgs, Err, is_ok}
use mit_6_824_distributed_sy.Kv.Server.{KvServer, ValueVersion, put}

-- The version that a conditional put has to name: 0 where the key is missing.
abbrev pub version_of : Option ValueVersion → ℕ
version_of none = 0
version_of (some item) = item.ver

abbrev pub value_of : Option ValueVersion → String
value_of none = ""
value_of (some item) = item.val

abbrev pub version_at : KvServer → String → ℕ
version_at kv k = version_of (lookup k kv.store)

abbrev pub same_key : String → String → Bool
same_key = string_key.beq

-- The store as a client sees it after a put, key by key.
abbrev pub after_put : KvServer → PutArgs → String → Option ValueVersion
after_put kv args j =
    if is_ok (put kv args).1.err
    then (if same_key args.key j
        then some (record { val = args.value; ver = u64 (args.ver + 1) })
        else lookup j kv.store)
    else lookup j kv.store

-- Which answer a put gives is decided by the version that it names and the one stored: it succeeds
-- exactly when they agree, with 0 for a missing key; a missing key with another version is
-- ErrNoKey; a key that is there with another version is ErrVersion.
pub put_answers :
    (kv : KvServer) (args : PutArgs)
    → ((put kv args).1.err ≡ Err.ok ↔ version_at kv args.key ≡ args.ver)
      × ((put kv args).1.err ≡ Err.no_key ↔ (lookup args.key kv.store ≡ none) × (args.ver ≢ 0))
      × ((put kv args).1.err ≡ Err.version
          ↔ (item : ValueVersion) × (lookup args.key kv.store ≡ some item) × (item.ver ≢ args.ver))
unfolding put
put_answers kv args = elim (Option-cases (lookup args.key kv.store)) [
  | inl e ↦ (
    (λ h. ground arith, λ h. ground arith),
    (λ h. ground arith, λ h. ground arith),
    (λ h. absurd (ground arith), λ h. absurd (ground arith)),
  )
  | inr (item, e) ↦ (
    (λ h. ground arith, λ h. ground arith),
    (λ h. ground arith, λ h. absurd (ground arith)),
    (λ h. (item, e, ground arith), λ h. ground (arith, h.1, h.2)),
  )
]

-- After a put, every key holds what it held, but for the key of a put that succeeded, which holds
-- the new value under the next version.
pub lookup-put :
    (kv : KvServer) (args : PutArgs) (j : String)
    → lookup j (put kv args).0.store ≡ after_put kv args j
unfolding put
lookup-put kv args j = ground (
  arith,
  lookup-insert args.key j (record { val = args.value; ver = 1 }) kv.store,
  lookup-insert args.key j (record { val = args.value; ver = u64 (args.ver + 1) }) kv.store,
)
