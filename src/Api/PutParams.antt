-- ===== src/Api/PutParams.antt =====
-- proto/api/raft.capnp.go: `Raft_put_Params`, its constructors and accessors.
use raft_capnp.Prelude.{ℕ, Option, Bool}
use raft_capnp.Data.{Bytes, Error}
use raft_capnp.Effect.{Result}
use raft_capnp.Api.Capnp.{Capnp, object_size, with_result, text_or_empty, place_struct}
use raft_capnp.Api.ItemStruct

abbrev pub type_id : ℕ
type_id = 0xd063789821634bd8

module _ (c : Capnp) where
  open c use {Memory, Message, Segment, Struct, PointerList, Future, Ptr, Call}

  unfoldable pub new_struct : Segment → Memory → Result Struct × Memory
  new_struct seg m = c.new_struct seg (object_size 0 1) m

  unfoldable pub new_root : Segment → Memory → Result Struct × Memory
  new_root seg m = c.new_root_struct seg (object_size 0 1) m

  unfoldable pub read_root : Message → Memory → Result Struct
  read_root msg m = with_result c.struct_of (c.root msg m)

  unfoldable pub to_string : Struct → Memory → Bytes
  to_string s m = text_or_empty (c.marshal_text 0xd063789821634bd8 s m)

  unfoldable pub new_list : Segment → ℕ → Memory → Result PointerList × Memory
  new_list seg sz m = c.new_composite_list seg (object_size 0 1) sz m

  unfoldable pub resolved : Future → Memory → Result Struct
  resolved f m = with_result c.struct_of (c.future_ptr f m)

  unfoldable pub has_item : Struct → Memory → Bool
  has_item s m = c.has_ptr s 0 m

  unfoldable pub item : Struct → Memory → Result Struct
  item s m = with_result c.struct_of (c.ptr s 0 m)

  unfoldable pub set_item : Struct → Struct → Memory → Option Error × Memory
  set_item s v m = c.set_ptr s 0 (c.struct_ptr v) m

  unfoldable pub new_item : Struct → Memory → (Result Struct × Option Error) × Memory
  new_item s m = place_struct c s 0 (ItemStruct.new_struct c (c.segment s) m)

  unfoldable pub promised_item : Future → Future
  promised_item p = c.future_field p 0

  unfoldable pub encode_as_ptr : Struct → Segment → Memory → Ptr × Memory
  encode_as_ptr s seg m = c.encode_struct s seg m

  unfoldable pub decode_from_ptr : Ptr → Struct
  decode_from_ptr p = c.decode_struct p

  unfoldable pub to_ptr : Struct → Ptr
  to_ptr s = c.struct_ptr s

  unfoldable pub is_valid : Struct → Bool
  is_valid s = c.struct_valid s

  unfoldable pub message : Struct → Message
  message s = c.message_of s

  unfoldable pub segment : Struct → Segment
  segment s = c.segment s

  unfoldable pub args : Call → Struct
  args call = c.args_of call
