-- ===== src/Api/AddParams.antt =====
-- proto/api/raft.capnp.go: `Raft_add_Params`, its constructors and accessors.
use raft_capnp.Prelude.{ℕ, Option, Bool, not, if◌then◌else◌}
use raft_capnp.Data.{Bytes, Error, Raft}
use raft_capnp.Effect.{Result}
use raft_capnp.Api.Capnp.{Capnp, object_size, ptr_or_null, with_result, text_or_empty}

abbrev pub type_id : ℕ
type_id = 0xc6f8efbe9e7d5983

module _ (c : Capnp) where
  open c use {Memory, Message, Segment, Struct, PointerList, Future, Ptr, Call}

  unfoldable pub new_struct : Segment → Memory → Result Struct × Memory
  new_struct seg m = c.new_struct seg (object_size 0 1) m

  unfoldable pub new_root : Segment → Memory → Result Struct × Memory
  new_root seg m = c.new_root_struct seg (object_size 0 1) m

  unfoldable pub read_root : Message → Memory → Result Struct
  read_root msg m = with_result c.struct_of (c.root msg m)

  unfoldable pub to_string : Struct → Memory → Bytes
  to_string s m = text_or_empty (c.marshal_text 0xc6f8efbe9e7d5983 s m)

  unfoldable pub new_list : Segment → ℕ → Memory → Result PointerList × Memory
  new_list seg sz m = c.new_composite_list seg (object_size 0 1) sz m

  unfoldable pub resolved : Future → Memory → Result Struct
  resolved f m = with_result c.struct_of (c.future_ptr f m)

  unfoldable pub has_node : Struct → Memory → Bool
  has_node s m = c.has_ptr s 0 m

  unfoldable pub node : Struct → Memory → Raft
  node s m = c.client_of (ptr_or_null c (c.ptr s 0 m)) m

  unfoldable pub set_node : Struct → Raft → Memory → Option Error × Memory
  set_node s v m =
      if not (c.is_valid v)
      then c.set_ptr s 0 c.null_ptr m
      else let (p, m') = c.new_interface (c.segment s) v m in c.set_ptr s 0 p m'

  unfoldable pub promised_node : Future → Memory → Raft
  promised_node f m = c.future_client (c.future_field f 0) m

  unfoldable pub encode_as_ptr : Struct → Segment → Memory → Ptr × Memory
  encode_as_ptr s seg m = c.encode_struct s seg m

  unfoldable pub decode_from_ptr : Ptr → Struct
  decode_from_ptr p = c.decode_struct p

  unfoldable pub to_ptr : Struct → Ptr
  to_ptr s = c.struct_ptr s

  unfoldable pub is_valid : Struct → Bool
  is_valid s = c.struct_valid s

  unfoldable pub message : Struct → Message
  message s = c.message_of s

  unfoldable pub segment : Struct → Segment
  segment s = c.segment s

  unfoldable pub args : Call → Struct
  args call = c.args_of call
