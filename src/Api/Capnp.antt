-- ===== src/Api/Capnp.antt =====
-- What the generated code of proto/api/raft.capnp.go calls of the Cap'n Proto library, as an
-- interface, and the documented behaviour that its users rely on.
use raft_capnp.Prelude.{ℕ, ◌≡◌, ◌≢◌, ◌+◌, ◌≤◌, ◌<◌, ◌^◌, Option, none, some, Bool, false, []}
use raft_capnp.Data.{Bytes, Error, Raft, null}
use raft_capnp.Effect.{Result, ok, err}
use raft_capnp.Api.{ObjectSize}

-- `Memory` is what all messages hold; an operation that writes gives the memory afterwards.
pub record Capnp : Type 1 where
  pub Memory : Type 0
  pub Message : Type 0
  pub Segment : Type 0
  pub Struct : Type 0
  pub Ptr : Type 0
  pub PointerList : Type 0
  pub Call : Type 0
  pub Future : Type 0
  pub Limiter : Type 0
  -- allocation
  pub new_struct : Segment → ObjectSize → Memory → Result Struct × Memory
  pub new_root_struct : Segment → ObjectSize → Memory → Result Struct × Memory
  pub alloc_results : Call → ObjectSize → Memory → Result Struct × Memory
  pub new_pointer_list : Segment → ℕ → Memory → Result PointerList × Memory
  pub new_composite_list : Segment → ObjectSize → ℕ → Memory → Result PointerList × Memory
  pub new_message : Memory → Result Segment × Memory
  pub args_of : Call → Struct
  -- of a struct, by the index of a pointer or the offset of a word
  pub size_of : Struct → ObjectSize
  pub segment : Struct → Segment
  pub message_of : Struct → Message
  pub struct_valid : Struct → Bool
  pub ptr : Struct → ℕ → Memory → Result Ptr
  pub has_ptr : Struct → ℕ → Memory → Bool
  pub set_ptr : Struct → ℕ → Ptr → Memory → Option Error × Memory
  pub set_text : Struct → ℕ → Bytes → Memory → Option Error × Memory
  pub set_data : Struct → ℕ → Bytes → Memory → Option Error × Memory
  pub uint64 : Struct → ℕ → Memory → ℕ
  pub set_uint64 : Struct → ℕ → ℕ → Memory → Memory
  pub marshal_text : ℕ → Struct → Memory → Result Bytes
  -- of a pointer
  pub null_ptr : Ptr
  pub text_of : Ptr → Memory → Bytes
  pub text_bytes_of : Ptr → Memory → Bytes
  pub data_of : Ptr → Memory → Bytes
  pub struct_of : Ptr → Struct
  pub list_of : Ptr → PointerList
  pub client_of : Ptr → Memory → Raft
  pub struct_ptr : Struct → Ptr
  pub encode_struct : Struct → Segment → Memory → Ptr × Memory
  pub decode_struct : Ptr → Struct
  pub list_ptr : PointerList → Ptr
  -- `NewInterface` with an entry of the message's table of capabilities
  pub new_interface : Segment → Raft → Memory → Ptr × Memory
  pub is_valid : Raft → Bool
  pub root : Message → Memory → Result Ptr
  -- `Set` of a list of pointers at an index, and `EncodeAsPtr` of a client
  pub list_set : PointerList → ℕ → Ptr → Memory → Option Error × Memory
  pub list_get : PointerList → ℕ → Memory → Result Ptr
  pub encode_client : Segment → Raft → Memory → Ptr × Memory
  -- of a client
  pub decode_client : Ptr → Memory → Raft
  pub client_string : Raft → Memory → Bytes
  pub same_client : Raft → Raft → Memory → Bool
  pub wait_streaming : Raft → Memory → Option Error
  pub set_limiter : Raft → Limiter → Memory → Memory
  pub get_limiter : Raft → Memory → Limiter
  -- of the promised answer of a call
  pub future_ptr : Future → Memory → Result Ptr
  pub future_field : Future → ℕ → Future
  pub future_client : Future → Memory → Raft

-- A pointer whose error is not looked at: the library gives the null pointer then.
abbrev pub ptr_or_null : (c : Capnp) → Result c.Ptr → c.Ptr
ptr_or_null c (ok p) = p
ptr_or_null c (err e) = c.null_ptr

abbrev pub with_result : {A B : Type 0} → (A → B) → Result A → Result B
with_result f (ok a) = ok (f a)
with_result f (err e) = err e

-- `str, _ := text.Marshal(…)`
abbrev pub text_or_empty : Result Bytes → Bytes
text_or_empty (ok text) = text
text_or_empty (err e) = []

abbrev pub object_size : ℕ → ℕ → ObjectSize
object_size words pointers = record { data_size = words; pointer_count = pointers }

-- `NewRaft_List`: a list of capabilities is a list of pointers.
unfoldable pub new_raft_list :
    (c : Capnp) → c.Segment → ℕ → c.Memory → Result c.PointerList × c.Memory
new_raft_list c seg sz m = c.new_pointer_list seg sz m

-- The end of `NewNodes` and its like: the new list is placed in the struct, if there is one. Also the
-- error of placing it goes with the list.
unfoldable pub place_list :
    (c : Capnp)
    → c.Struct
    → ℕ
    → Result c.PointerList × c.Memory
    → (Result c.PointerList × Option Error) × c.Memory
place_list c s i (err e, m) = ((err e, some e), m)
place_list c s i (ok l, m) = let (e, m') = c.set_ptr s i (c.list_ptr l) m in ((ok l, e), m')

-- The same of `NewItem` of the parameters of `put`.
unfoldable pub place_struct :
    (c : Capnp)
    → c.Struct
    → ℕ
    → Result c.Struct × c.Memory
    → (Result c.Struct × Option Error) × c.Memory
place_struct c s i (err e, m) = ((err e, some e), m)
place_struct c s i (ok ss, m) = let (e, m') = c.set_ptr s i (c.struct_ptr ss) m in ((ok ss, e), m')

-- Nothing of a pointer changes from `m` to `m'`.
abbrev pub Untouched : (c : Capnp) → c.Struct → ℕ → c.Memory → c.Memory → Type 0
Untouched c s i m m' =
    (c.ptr s i m' ≡ c.ptr s i m)
    × ((p : c.Ptr)
        → c.ptr s i m ≡ ok p
        → (c.text_of p m' ≡ c.text_of p m)
          × (c.data_of p m' ≡ c.data_of p m)
          × (c.client_of p m' ≡ c.client_of p m))

-- What the library documents of a struct: it has the size that it was allocated with; what is written
-- within its bounds is read again, and the other pointers are left alone.
pub record IsCapnp (c : Capnp) : Type 0 where
  pub new_struct_size :
      (seg : c.Segment) (size : ObjectSize) (s : c.Struct) (m m' : c.Memory)
      → c.new_struct seg size m ≡ (ok s, m')
      → c.size_of s ≡ size
  pub alloc_results_size :
      (call : c.Call) (size : ObjectSize) (s : c.Struct) (m m' : c.Memory)
      → c.alloc_results call size m ≡ (ok s, m')
      → c.size_of s ≡ size
  pub text-set :
      (s : c.Struct) (i : ℕ) (text : Bytes) (m m' : c.Memory)
      → i < (c.size_of s).pointer_count
      → c.set_text s i text m ≡ (none, m')
      → (p : c.Ptr) × (c.ptr s i m' ≡ ok p)
        × (c.text_of p m' ≡ text)
        × (c.text_bytes_of p m' ≡ text)
  pub text-frame :
      (s : c.Struct) (i j : ℕ) (text : Bytes) (m m' : c.Memory)
      → i ≢ j
      → c.set_text s i text m ≡ (none, m')
      → Untouched c s j m m'
  pub data-set :
      (s : c.Struct) (i : ℕ) (bytes : Bytes) (m m' : c.Memory)
      → i < (c.size_of s).pointer_count
      → c.set_data s i bytes m ≡ (none, m')
      → (p : c.Ptr) × (c.ptr s i m' ≡ ok p) × (c.data_of p m' ≡ bytes)
  pub data-frame :
      (s : c.Struct) (i j : ℕ) (bytes : Bytes) (m m' : c.Memory)
      → i ≢ j
      → c.set_data s i bytes m ≡ (none, m')
      → Untouched c s j m m'
  pub client-set :
      (s : c.Struct) (i : ℕ) (p : c.Ptr) (m m' : c.Memory)
      → i < (c.size_of s).pointer_count
      → c.set_ptr s i p m ≡ (none, m')
      → (q : c.Ptr) × (c.ptr s i m' ≡ ok q) × (c.client_of q m' ≡ c.client_of p m)
  pub client-interface :
      (seg : c.Segment) (v : Raft) (m : c.Memory)
      → c.client_of (c.new_interface seg v m).0 (c.new_interface seg v m).1 ≡ v
  pub client-null : (m : c.Memory) → c.client_of c.null_ptr m ≡ null
  pub null_of_invalid : (v : Raft) → c.is_valid v ≡ false → v ≡ null
  pub uint64-set :
      (s : c.Struct) (offset v : ℕ) (m : c.Memory)
      → offset + 8 ≤ (c.size_of s).data_size
      → v < 2 ^ 64
      → c.uint64 s offset (c.set_uint64 s offset v m) ≡ v
  pub future-field :
      (f : c.Future) (i : ℕ) (p : c.Ptr) (m : c.Memory)
      → c.future_ptr f m ≡ ok p
      → c.future_client (c.future_field f i) m
        ≡ c.client_of (ptr_or_null c (c.ptr (c.struct_of p) i m)) m
