-- ===== src/Kv/Examples/Gob.antt =====
-- A codec for the store of kvraft1/server.go: a tagged number for each character and each version.
use mit_6_824_distributed_sy.Prelude.{
  ℕ, zero, suc, ◌≡◌, ◌≢◌, refl, ◌∙◌, ap, String, Option, none, some, List, [], ◌∷◌, lookup,
  string_key,
}
use Prim.Native.Char.{Char, char, code, IsScalar}
use Prim.Native.Nat.{compare, Ordering}
use Prim.Native.String.{[] as []ˢ, ◌∷◌ as ◌∷ˢ◌}
use text.Mathlib.TextEquality.{Char-path}
use mit_6_824_distributed_sy.Kv.Server.{Store, ValueVersion}
use mit_6_824_distributed_sy.Kv.StateMachine.{StoreCodec}

dec_scalar : (n : ℕ) → Dec (IsScalar n)
dec_scalar n = go (compare n 55296) (compare 57343 n) (compare n 1114112) refl refl refl
  where
    go :
        (o p q : Ordering)
        → compare n 55296 ≡ o
        → compare 57343 n ≡ p
        → compare n 1114112 ≡ q
        → Dec (IsScalar n)
    go Ordering.lt p q e f g = rw e (yes tt)
    go Ordering.eq Ordering.lt Ordering.lt e f g = rw (e, f, g) (yes tt)
    go Ordering.eq Ordering.lt _ e f g = rw (e, f, g) (no (λ x. x))
    go Ordering.eq _ q e f g = rw (e, f) (no (λ x. x))
    go Ordering.gt Ordering.lt Ordering.lt e f g = rw (e, f, g) (yes tt)
    go Ordering.gt Ordering.lt _ e f g = rw (e, f, g) (no (λ x. x))
    go Ordering.gt _ q e f g = rw (e, f) (no (λ x. x))

-- The character of a number in front, if it is one's number.
abbrev add_char : (n : ℕ) → String → Dec (IsScalar n) → String
add_char n s (yes p) = char n p ∷ˢ s
add_char n s (no _) = s

add_char-code :
    (c : Char) (s : String) (d : Dec (IsScalar (code c))) → add_char (code c) s d ≡ c ∷ˢ s
add_char-code c s (yes p) = ap (λ d. d ∷ˢ s) (Char-path (char (code c) p) c refl)
add_char-code (char n p) s (no np) = absurd (np p)

add : ℕ → String → String
add n s = add_char n s (dec_scalar n)

-- One tagged number, in front of what has been decoded behind it.
decode_one : ℕ → ℕ → Store → Store
decode_one zero n store = ("", record { val = ""; ver = n }) ∷ store
decode_one (suc t) n [] = []
decode_one (suc zero) n ((k, item) ∷ store) = (k, record item { val = add n item.val }) ∷ store
decode_one (suc (suc t)) n ((k, item) ∷ store) = (add n k, item) ∷ store

decode_all : List ℕ → Store
decode_all (tag ∷ n ∷ more) = decode_one tag n (decode_all more)
decode_all _ = []

encode_text : ℕ → String → List ℕ → List ℕ
encode_text tag []ˢ more = more
encode_text tag (c ∷ˢ s) more = tag ∷ code c ∷ encode_text tag s more

pub encode_all : Store → List ℕ
encode_all [] = []
encode_all ((k, item) ∷ store) =
    encode_text 2 k (encode_text 1 item.val (0 ∷ item.ver ∷ encode_all store))

decode_all-value :
    (s : String) (ver : ℕ) (more : List ℕ)
    → decode_all (encode_text 1 s (0 ∷ ver ∷ more))
      ≡ ("", record { val = s; ver = ver }) ∷ decode_all more
unfolding decode_all encode_text decode_one add
decode_all-value []ˢ ver more = refl
decode_all-value (c ∷ˢ s) ver more =
    rw (decode_all-value s ver more, add_char-code c s (dec_scalar (code c)))

decode_all-key :
    (k : String) (item : ValueVersion) (more : List ℕ) (store : Store)
    → decode_all more ≡ ("", item) ∷ store
    → decode_all (encode_text 2 k more) ≡ (k, item) ∷ store
unfolding decode_all encode_text decode_one add
decode_all-key []ˢ item more store e = e
decode_all-key (c ∷ˢ k) item more store e =
    rw (decode_all-key k item more store e, add_char-code c k (dec_scalar (code c)))

decode_all-encode : (store : Store) → decode_all (encode_all store) ≡ store
unfolding decode_all encode_all
decode_all-encode [] = refl
decode_all-encode ((k, item) ∷ store) =
    decode_all-key k item (encode_text 1 item.val (0 ∷ item.ver ∷ encode_all store)) store (
      decode_all-value item.val item.ver (encode_all store)
      ∙ ap (λ m. ("", item) ∷ m) (decode_all-encode store))

pub decode : List ℕ → Option Store
decode [] = none
decode (_ ∷ more) = some (decode_all more)

pub round_trip :
    (s : Store)
    → (s' : Store) × (decode (7 ∷ encode_all s) ≡ some s')
      × ((k : String) → lookup k s' ≡ lookup k s)
unfolding decode
round_trip s = (s, ap some (decode_all-encode s), λ k. refl)

pub marked : (store : Store) → 7 ∷ encode_all store ≢ []
marked store e = cc

abbrev pub gob : StoreCodec
gob = record {
  encode = λ store. 7 ∷ encode_all store;
  decode = decode;
  decode_encode = round_trip;
  encode_nonempty = marked;
}
