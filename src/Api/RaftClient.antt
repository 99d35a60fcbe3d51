-- ===== src/Api/RaftClient.antt =====
-- proto/api/raft.capnp.go: what `Raft`, the client of a node, hands on to the library's client.
use raft_capnp.Prelude.{Bool, Option, [], ◌∷◌, ◌++◌}
use raft_capnp.Data.{Bytes, Error, Raft}
use raft_capnp.Api.Capnp.{Capnp}

-- `Raft(`
abbrev opening : Bytes
opening = 82 ∷ 97 ∷ 102 ∷ 116 ∷ 40 ∷ []

module _ (c : Capnp) where
  open c use {Memory, Segment, Ptr, Limiter}

  unfoldable wait_streaming : Raft → Memory → Option Error
  wait_streaming v m = c.wait_streaming v m

  unfoldable to_string : Raft → Memory → Bytes
  to_string v m = opening ++ c.client_string v m ++ 41 ∷ []

  unfoldable encode_as_ptr : Segment → Raft → Memory → Ptr × Memory
  encode_as_ptr seg v m = c.encode_client seg v m

  unfoldable decode_from_ptr : Ptr → Memory → Raft
  decode_from_ptr p m = c.decode_client p m

  unfoldable is_valid : Raft → Bool
  is_valid v = c.is_valid v

  unfoldable is_same : Raft → Raft → Memory → Bool
  is_same v other m = c.same_client v other m

  unfoldable set_flow_limiter : Raft → Limiter → Memory → Memory
  set_flow_limiter v limiter m = c.set_limiter v limiter m

  unfoldable get_flow_limiter : Raft → Memory → Limiter
  get_flow_limiter v m = c.get_limiter v m
