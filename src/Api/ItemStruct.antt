-- ===== src/Api/ItemStruct.antt =====
-- proto/api/raft.capnp.go: `Item`, its constructors and accessors.
use raft_capnp.Prelude.{ℕ, Option, Bool}
use raft_capnp.Data.{Bytes, Error}
use raft_capnp.Effect.{Result}
use raft_capnp.Api.Capnp.{Capnp, object_size, with_result, text_or_empty}

abbrev pub type_id : ℕ
type_id = 0xae462da6618b7135

module _ (c : Capnp) where
  open c use {Memory, Message, Segment, Struct, PointerList, Future, Ptr}

  unfoldable pub new_struct : Segment → Memory → Result Struct × Memory
  new_struct seg m = c.new_struct seg (object_size 0 2) m

  unfoldable pub new_root : Segment → Memory → Result Struct × Memory
  new_root seg m = c.new_root_struct seg (object_size 0 2) m

  unfoldable pub read_root : Message → Memory → Result Struct
  read_root msg m = with_result c.struct_of (c.root msg m)

  unfoldable pub to_string : Struct → Memory → Bytes
  to_string s m = text_or_empty (c.marshal_text 0xae462da6618b7135 s m)

  unfoldable pub new_list : Segment → ℕ → Memory → Result PointerList × Memory
  new_list seg sz m = c.new_composite_list seg (object_size 0 2) sz m

  unfoldable pub resolved : Future → Memory → Result Struct
  resolved f m = with_result c.struct_of (c.future_ptr f m)

  unfoldable pub has_key : Struct → Memory → Bool
  has_key s m = c.has_ptr s 0 m

  unfoldable pub key : Struct → Memory → Result Bytes
  key s m = with_result (λ p. c.data_of p m) (c.ptr s 0 m)

  unfoldable pub set_key : Struct → Bytes → Memory → Option Error × Memory
  set_key s v m = c.set_data s 0 v m

  unfoldable pub has_value : Struct → Memory → Bool
  has_value s m = c.has_ptr s 1 m

  unfoldable pub value : Struct → Memory → Result Bytes
  value s m = with_result (λ p. c.data_of p m) (c.ptr s 1 m)

  unfoldable pub set_value : Struct → Bytes → Memory → Option Error × Memory
  set_value s v m = c.set_data s 1 v m

  unfoldable pub encode_as_ptr : Struct → Segment → Memory → Ptr × Memory
  encode_as_ptr s seg m = c.encode_struct s seg m

  unfoldable pub decode_from_ptr : Ptr → Struct
  decode_from_ptr p = c.decode_struct p

  unfoldable pub to_ptr : Struct → Ptr
  to_ptr s = c.struct_ptr s

  unfoldable pub is_valid : Struct → Bool
  is_valid s = c.struct_valid s

  unfoldable pub message : Struct → Message
  message s = c.message_of s

  unfoldable pub segment : Struct → Segment
  segment s = c.segment s
