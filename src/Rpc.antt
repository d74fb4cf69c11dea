-- ===== src/Rpc.antt =====
-- The types that servers and clerks exchange: kvsrv1/rpc/rpc.go.
use mit_6_824_distributed_sy.Prelude.{ℕ, String, Bool, true, false, ◌%◌, ◌^◌}

-- `Err`. `other` stands for a string that is none of the named constants, such as "".
pub data Err : Type 0 where
  ok no_key version maybe wrong_leader wrong_group other : Err

-- `Tversion` is a uint64.
abbrev pub u64 : ℕ → ℕ
u64 n = n % 2 ^ 64

pub record PutArgs : Type 0 where
  pub key : String
  pub value : String
  pub ver : ℕ

pub record PutReply : Type 0 where
  pub err : Err

pub record GetArgs : Type 0 where
  pub key : String

pub record GetReply : Type 0 where
  pub value : String
  pub ver : ℕ
  pub err : Err

-- The zero values of the reply structs, which every call starts from.
abbrev pub empty_get : GetReply
empty_get = record { value = ""; ver = 0; err = Err.other }

abbrev pub empty_put : PutReply
empty_put = record { err = Err.other }

-- `a == b` on error values.
abbrev pub is_ok : Err → Bool
is_ok Err.ok = true
is_ok _ = false

abbrev pub is_version : Err → Bool
is_version Err.version = true
is_version _ = false

abbrev pub is_maybe : Err → Bool
is_maybe Err.maybe = true
is_maybe _ = false

abbrev pub is_no_key : Err → Bool
is_no_key Err.no_key = true
is_no_key _ = false

abbrev pub is_wrong_leader : Err → Bool
is_wrong_leader Err.wrong_leader = true
is_wrong_leader _ = false
