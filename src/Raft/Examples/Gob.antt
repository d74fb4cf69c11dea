-- ===== src/Raft/Examples/Gob.antt =====
-- A codec for the persistent state of raft1/raft.go, over numbers as commands.
use mit_6_824_distributed_sy.Prelude.{
  ℕ, zero, suc, ◌≡◌, ◌≢◌, refl, Option, none, some, List, [], ◌∷◌,
}
use mit_6_824_distributed_sy.Raft.State.{LogEntry}
use mit_6_824_distributed_sy.Raft.Persist.{Persistent, Codec}

abbrev code_option : Option ℕ → ℕ
code_option none = 0
code_option (some n) = suc n

abbrev option_of : ℕ → Option ℕ
option_of zero = none
option_of (suc n) = some n

option_of-code : (o : Option ℕ) → option_of (code_option o) ≡ o
option_of-code none = refl
option_of-code (some n) = refl

unfoldable pub encode_log : List (LogEntry ℕ) → List ℕ
encode_log [] = []
encode_log (e ∷ es) = code_option e.command ∷ e.term ∷ encode_log es

unfoldable pub decode_log : List ℕ → List (LogEntry ℕ)
decode_log (c ∷ t ∷ more) = record { command = option_of c; term = t } ∷ decode_log more
decode_log _ = []

decode_log-encode : (es : List (LogEntry ℕ)) → decode_log (encode_log es) ≡ es
unfolding encode_log decode_log
decode_log-encode [] = refl
decode_log-encode (e ∷ es) = rw (option_of-code e.command, decode_log-encode es)

unfoldable pub encode : Persistent ℕ → List ℕ
encode p =
    p.current_term
    ∷ code_option p.voted_for
    ∷ p.last_included_index
    ∷ p.last_included_term
    ∷ encode_log p.log

unfoldable pub decode : List ℕ → Option (Persistent ℕ)
decode (a ∷ b ∷ c ∷ d ∷ more) = some (record {
  current_term = a;
  voted_for = option_of b;
  log = decode_log more;
  last_included_index = c;
  last_included_term = d;
})
decode _ = none

pub decode-encode : (p : Persistent ℕ) → decode (encode p) ≡ some p
unfolding encode decode
decode-encode p = rw (option_of-code p.voted_for, decode_log-encode p.log)

pub encode-ne-nil : (p : Persistent ℕ) → encode p ≢ []
unfolding encode
encode-ne-nil p e = cc

abbrev pub gob : Codec ℕ
gob = record {
  encode = encode;
  decode = decode;
  decode-encode = decode-encode;
  encode_nonempty = encode-ne-nil;
}
