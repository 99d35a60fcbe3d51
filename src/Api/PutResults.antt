-- ===== src/Api/PutResults.antt =====
-- proto/api/raft.capnp.go: `Raft_put_Results`, its constructors and accessors, and the results of a call.
use raft_capnp.Prelude.{ℕ, Option, Bool}
use raft_capnp.Data.{Bytes, Error}
use raft_capnp.Effect.{Result}
use raft_capnp.Api.Capnp.{Capnp, object_size, with_result, text_or_empty}

abbrev pub type_id : ℕ
type_id = 0x9c4beb6b068077a3

module _ (c : Capnp) where
  open c use {Memory, Message, Segment, Struct, PointerList, Call, Future, Ptr}

  unfoldable pub new_struct : Segment → Memory → Result Struct × Memory
  new_struct seg m = c.new_struct seg (object_size 0 1) m

  unfoldable pub new_root : Segment → Memory → Result Struct × Memory
  new_root seg m = c.new_root_struct seg (object_size 0 1) m

  unfoldable pub read_root : Message → Memory → Result Struct
  read_root msg m = with_result c.struct_of (c.root msg m)

  unfoldable pub to_string : Struct → Memory → Bytes
  to_string s m = text_or_empty (c.marshal_text 0x9c4beb6b068077a3 s m)

  unfoldable pub new_list : Segment → ℕ → Memory → Result PointerList × Memory
  new_list seg sz m = c.new_composite_list seg (object_size 0 1) sz m

  unfoldable pub resolved : Future → Memory → Result Struct
  resolved f m = with_result c.struct_of (c.future_ptr f m)

  unfoldable pub alloc : Call → Memory → Result Struct × Memory
  alloc call m = c.alloc_results call (object_size 0 1) m

  unfoldable pub has_error_text : Struct → Memory → Bool
  has_error_text s m = c.has_ptr s 0 m

  unfoldable pub error_text : Struct → Memory → Result Bytes
  error_text s m = with_result (λ p. c.text_of p m) (c.ptr s 0 m)

  unfoldable pub error_bytes : Struct → Memory → Result Bytes
  error_bytes s m = with_result (λ p. c.text_bytes_of p m) (c.ptr s 0 m)

  unfoldable pub set_error : Struct → Bytes → Memory → Option Error × Memory
  set_error s v m = c.set_text s 0 v m

  unfoldable pub encode_as_ptr : Struct → Segment → Memory → Ptr × Memory
  encode_as_ptr s seg m = c.encode_struct s seg m

  unfoldable pub decode_from_ptr : Ptr → Struct
  decode_from_ptr p = c.decode_struct p

  unfoldable pub to_ptr : Struct → Ptr
  to_ptr s = c.struct_ptr s

  unfoldable pub is_valid : Struct → Bool
  is_valid s = c.struct_valid s

  unfoldable pub message : Struct → Message
  message s = c.message_of s

  unfoldable pub segment : Struct → Segment
  segment s = c.segment s
