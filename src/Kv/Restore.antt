-- ===== src/Kv/Restore.antt =====
-- `Snapshot` and `Restore` of kvraft1/server.go: what a restored server answers.
use mit_6_824_distributed_sy.Prelude.{
  ℕ, ◌≡◌, ◌≢◌, refl, ◌∙◌, String, some, List, [], ◌∷◌, arith, lookup, string_key, lookup-insert,
  Option-cases, inl, inr, ◌+◌,
}
use mit_6_824_distributed_sy.Rpc.{u64}
use mit_6_824_distributed_sy.Kv.Server.{Store, ValueVersion}
use mit_6_824_distributed_sy.Kv.StateMachine.{
  Request, get_args, put_args, unknown, Response, do_op, StoreCodec, snapshot, restore,
}

-- The responses to a sequence of committed requests.
unfoldable pub run_ops : Store → List Request → List Response
run_ops store [] = []
run_ops store (req ∷ reqs) = let (store', res) = do_op store req in res ∷ run_ops store' reqs

-- Two stores with the same entries, in whatever order.
abbrev pub SameEntries : Store → Store → Type 0
SameEntries s s' = (k : String) → lookup k s' ≡ lookup k s

do_op-SameEntries :
    (s s' : Store) (req : Request)
    → SameEntries s s'
    → ((do_op s' req).1 ≡ (do_op s req).1) × SameEntries (do_op s req).0 (do_op s' req).0
unfolding do_op
do_op-SameEntries s s' (get_args args) same = ground (arith, same args.key, same)
do_op-SameEntries s s' (put_args args) same = elim (Option-cases (lookup args.key s)) [
  | inl missing ↦
      let first : ValueVersion = record { val = args.value; ver = 1 } in
      (
        ground (arith, same args.key, missing),
        λ k. ground (
          arith,
          same args.key,
          missing,
          same k,
          lookup-insert args.key k first s,
          lookup-insert args.key k first s',
        ),
      )
  | inr (item, there) ↦
      let next : ValueVersion = record { val = args.value; ver = u64 (item.ver + 1) } in
      (
        ground (arith, same args.key, there),
        λ k. ground (
          arith,
          same args.key,
          there,
          same k,
          lookup-insert args.key k next s,
          lookup-insert args.key k next s',
        ),
      )
]
do_op-SameEntries s s' unknown same = (refl, same)

run_ops-SameEntries :
    (s s' : Store) (reqs : List Request) → SameEntries s s' → run_ops s' reqs ≡ run_ops s reqs
unfolding run_ops
run_ops-SameEntries s s' [] same = refl
run_ops-SameEntries s s' (req ∷ reqs) same =
    let (e, next) = do_op-SameEntries s s' req same in
    let ih = run_ops-SameEntries (do_op s req).0 (do_op s' req).0 reqs next in cc

restore-decode :
    (gob : StoreCodec) (store : Store) (bytes : List ℕ)
    → bytes ≢ []
    → restore gob store bytes ≡ gob.decode bytes
unfolding restore
restore-decode gob store [] ne = absurd (ne refl)
restore-decode gob store (b ∷ bytes) ne = refl

-- A server that restores a snapshot, whatever its store was, does not panic, and answers every
-- sequence of committed requests as the server that took the snapshot does.
pub restore-run_ops :
    (gob : StoreCodec) (store taken : Store)
    → (store' : Store) × (restore gob store (snapshot gob taken) ≡ some store')
      × ((reqs : List Request) → run_ops store' reqs ≡ run_ops taken reqs)
restore-run_ops gob store taken =
    let (store', e, same) = gob.decode_encode taken in
    let decodes = restore-decode gob store (snapshot gob taken) (gob.encode_nonempty taken) in
    (store', decodes ∙ e, λ reqs. run_ops-SameEntries taken store' reqs same)
