-- ===== src/Api/Fields/Arguments.antt =====
-- proto/api/raft.capnp.go: the arguments of a call arrive as they were placed.
use raft_capnp.Prelude.{◌≡◌, ap, none, some, arith}
use raft_capnp.Data.{Bytes, Raft}
use raft_capnp.Effect.{ok}
use raft_capnp.Api.{call_add, call_remove, call_send}
use raft_capnp.Api.Capnp.{Capnp, IsCapnp}
use raft_capnp.Api.AddParams
use raft_capnp.Api.RemoveParams
use raft_capnp.Api.SendParams
use raft_capnp.Api.Fields.{
  Naming, to_add, to_remove, naming_stub, set_node_of, node_of, resolved_of, promised_node_of,
  requested, client_field, promised,
}

module _ (c : Capnp) (laws : IsCapnp c) where
  open c use {Memory, Segment, Struct, Call, Future}

  -- The bytes that a caller of `send` places in its arguments, in the room that the stub asks for,
  -- are the bytes that the handler reads there.
  pub message_arrives :
      {P : Type 0} (place : P) (s : Struct) (encoded : Bytes) (m m' : Memory)
      → (call_send (some place)).args_size ≡ some (c.size_of s)
      → SendParams.set_msg c s encoded m ≡ (none, m')
      → SendParams.msg c s m' ≡ ok encoded
  unfolding call_send SendParams.set_msg SendParams.msg
  message_arrives place s encoded m m' size h =
      let (p, found, reads) =
        laws.data-set s 0 encoded m m' (requested 0 _ _ size (omega arith)) h in
      rw found (ap ok reads)

  -- The node that a caller of `add` or `remove` places in its arguments, in the room that the stub
  -- asks for, is the node that the handler reads there, also if it is the null client.
  node_arrives :
      {P : Type 0} (name : Naming) (place : P) (s : Struct) (v : Raft) (m m' : Memory)
      → (naming_stub name (some place)).args_size ≡ some (c.size_of s)
      → set_node_of c name s v m ≡ (none, m')
      → node_of c name s m' ≡ v
  unfolding call_add call_remove AddParams.set_node AddParams.node RemoveParams.set_node
      RemoveParams.node
  node_arrives to_add place s v m m' size h =
      client_field c laws s 0 v m m' (requested 0 _ _ size (omega arith)) h
  node_arrives to_remove place s v m m' size h =
      client_field c laws s 0 v m m' (requested 0 _ _ size (omega arith)) h

  -- The node of arguments that are only promised is the node of the
  -- arguments, once they are there.
  promised_node_lem :
      (name : Naming) (f : Future) (s : Struct) (m : Memory)
      → resolved_of c name f m ≡ ok s
      → promised_node_of c name f m ≡ node_of c name s m
  unfolding AddParams.resolved AddParams.promised_node AddParams.node RemoveParams.resolved
      RemoveParams.promised_node RemoveParams.node
  promised_node_lem to_add f s m h = promised c laws f 0 s m h
  promised_node_lem to_remove f s m h = promised c laws f 0 s m h
