-- ===== src/Tests/Wire.antt =====
-- A small memory of messages: a concrete library for the generated code, and its laws.
use raft_capnp.Prelude.{
  refl, sym, ◌≡◌, ◌≢◌, ◌∙◌, ap, ℕ, suc, Option, none, Bool, true, false, [], arith, nat_beq_iff,
  if◌then◌else◌,
}
use raft_capnp.Prelude.Eq.{◌==◌, nat_eq}
use raft_capnp.Data.{Bytes, Error, Raft, null, client}
use raft_capnp.Effect.{Result, ok}
use raft_capnp.Api.{ObjectSize}
use raft_capnp.Api.Capnp.{Capnp, IsCapnp}

abbrev pub At : Type 0
At = ℕ × ObjectSize

-- What a pointer points to: a struct or a list by its address, the rest by its value.
pub data Slot : Type 0 where
  empty : Slot
  holds : Bytes → Slot
  capability : Raft → Slot
  place : ℕ → ObjectSize → Slot
  many : ℕ → Slot

-- The next free address, and the pointers and the words at the addresses.
pub record Cells : Type 0 where
  pub free : ℕ
  pub slot : ℕ → ℕ → Slot
  pub word : ℕ → ℕ → ℕ

-- A pointer that is only promised: a pointer, or a field of what a promise points to.
pub data Promise : Type 0 where
  here : Slot → Promise
  field : Promise → ℕ → Promise

abbrev pub blank : Cells
blank = record { free = 0; slot = λ a i. empty; word = λ a i. 0 }

abbrev bytes_in : Slot → Bytes
bytes_in (holds bytes) = bytes
bytes_in _ = []

abbrev client_in : Slot → Raft
client_in (capability v) = v
client_in _ = null

abbrev struct_in : Slot → At
struct_in (place a size) = (a, size)
struct_in _ = (0, record { data_size = 0; pointer_count = 0 })

abbrev list_in : Slot → ℕ
list_in (many a) = a
list_in _ = 0

abbrev is_set : Slot → Bool
is_set empty = false
is_set _ = true

abbrev is_client : Raft → Bool
is_client null = false
is_client (client k) = true

abbrev number : Raft → ℕ
number null = 0
number (client k) = suc k

abbrev put_at : {V : Type 0} → ℕ → ℕ → V → (ℕ → ℕ → V) → ℕ → ℕ → V
put_at a i v f b j = if a == b then (if i == j then v else f b j) else f b j

abbrev write : ℕ → ℕ → Slot → Cells → Cells
write a i v m = record m { slot = put_at a i v m.slot }

abbrev write_word : ℕ → ℕ → ℕ → Cells → Cells
write_word a i v m = record m { word = put_at a i v m.word }

abbrev grown : Cells → Cells
grown m = record m { free = suc m.free }

abbrev follow : Promise → Cells → Slot
follow (here p) m = p
follow (field f i) m = m.slot (struct_in (follow f m)).0 i

abbrev pub wire : Capnp
wire = record {
  Memory = Cells;
  Message = ℕ;
  Segment = ℕ;
  Struct = At;
  Ptr = Slot;
  PointerList = ℕ;
  Call = ℕ;
  Future = Promise;
  Limiter = ℕ;
  new_struct = λ seg size m. (ok (m.free, size), grown m);
  new_root_struct = λ seg size m. (ok (m.free, size), grown (write seg 0 (place m.free size) m));
  alloc_results = λ call size m. (ok (m.free, size), grown m);
  new_pointer_list = λ seg n m. (ok m.free, grown m);
  new_composite_list = λ seg size n m. (ok m.free, grown m);
  new_message = λ m. (ok m.free, grown m);
  size_of = λ s. s.1;
  segment = λ s. s.0;
  message_of = λ s. s.0;
  struct_valid = λ s. true;
  args_of = λ call. (call, record { data_size = 0; pointer_count = 0 });
  ptr = λ s i m. ok (m.slot s.0 i);
  has_ptr = λ s i m. is_set (m.slot s.0 i);
  set_ptr = λ s i p m. (none, write s.0 i p m);
  set_text = λ s i text m. (none, write s.0 i (holds text) m);
  set_data = λ s i bytes m. (none, write s.0 i (holds bytes) m);
  uint64 = λ s i m. m.word s.0 i;
  set_uint64 = λ s i v m. write_word s.0 i v m;
  marshal_text = λ type s m. ok [];
  null_ptr = empty;
  text_of = λ p m. bytes_in p;
  text_bytes_of = λ p m. bytes_in p;
  data_of = λ p m. bytes_in p;
  struct_of = struct_in;
  list_of = list_in;
  client_of = λ p m. client_in p;
  struct_ptr = λ s. place s.0 s.1;
  encode_struct = λ s seg m. (place s.0 s.1, m);
  decode_struct = struct_in;
  list_ptr = many;
  new_interface = λ seg v m. (capability v, m);
  is_valid = is_client;
  root = λ msg m. ok (m.slot msg 0);
  list_set = λ l i p m. (none, write l i p m);
  list_get = λ l i m. ok (m.slot l i);
  encode_client = λ seg v m. (capability v, m);
  decode_client = λ p m. client_in p;
  client_string = λ v m. [];
  same_client = λ v other m. number v == number other;
  wait_streaming = λ v m. none;
  set_limiter = λ v limiter m. write_word 0 (number v) limiter m;
  get_limiter = λ v m. m.word 0 (number v);
  future_ptr = λ f m. ok (follow f m);
  future_field = field;
  future_client = λ f m. client_in (follow f m);
}

put_at-same : {V : Type 0} (a i : ℕ) (v : V) (f : ℕ → ℕ → V) → put_at a i v f a i ≡ v
put_at-same a i v f = ground (arith, nat_beq_iff a a, nat_beq_iff i i)

put_at-other : {V : Type 0} (a i j : ℕ) (v : V) (f : ℕ → ℕ → V) → i ≢ j → put_at a i v f a j ≡ f a j
put_at-other a i j v f h = ground (arith, nat_beq_iff a a, nat_beq_iff i j)

-- A write without an error, and what is read after it.
written :
    (a i : ℕ) (v : Slot) (m m' : Cells)
    → ◌≡◌ {A = Option Error × Cells} (none, write a i v m) (none, m')
    → m'.slot a i ≡ v
written a i v m m' h =
    let e : write a i v m ≡ m' = ap (λ r. r.1) h in
    ap (λ k. k.slot a i) (sym e) ∙ put_at-same a i v m.slot

left_alone :
    (a i j : ℕ) (v : Slot) (m m' : Cells)
    → i ≢ j
    → ◌≡◌ {A = Option Error × Cells} (none, write a i v m) (none, m')
    → ◌≡◌ {A = Result Slot} (ok (m'.slot a j)) (ok (m.slot a j))
left_alone a i j v m m' ne h =
    let e : write a i v m ≡ m' = ap (λ r. r.1) h in
    ap (λ k. ok (k.slot a j)) (sym e) ∙ ap ok (put_at-other a i j v m.slot ne)

sized :
    (a : ℕ) (size : ObjectSize) (s : At) (m m' : Cells)
    → ◌≡◌ {A = Result At × Cells} (ok (a, size), m) (ok s, m')
    → s.1 ≡ size
sized a size s m m' h = let e : (a, size) ≡ s = cc (ap (λ r. r.0) h) in ap (λ p. p.1) (sym e)

not_a_client : (v : Raft) → is_client v ≡ false → v ≡ null
not_a_client null h = refl
not_a_client (client k) h = absurd (cc h)

pub wire-IsCapnp : IsCapnp wire
wire-IsCapnp = record {
  new_struct_size = λ seg size s m m' h. sized m.free size s (grown m) m' h;
  alloc_results_size = λ call size s m m' h. sized m.free size s (grown m) m' h;
  text-set = λ s i text m m' bound h.
      let e = written s.0 i (holds text) m m' h in
      (m'.slot s.0 i, refl, ap bytes_in e, ap bytes_in e);
  text-frame = λ s i j text m m' ne h.
      (left_alone s.0 i j (holds text) m m' ne h, λ p found. (refl, refl, refl));
  data-set = λ s i bytes m m' bound h.
      (m'.slot s.0 i, refl, ap bytes_in (written s.0 i (holds bytes) m m' h));
  data-frame = λ s i j bytes m m' ne h.
      (left_alone s.0 i j (holds bytes) m m' ne h, λ p found. (refl, refl, refl));
  client-set = λ s i p m m' bound h. (m'.slot s.0 i, refl, ap client_in (written s.0 i p m m' h));
  client-interface = λ seg v m. refl;
  client-null = λ m. refl;
  null_of_invalid = not_a_client;
  uint64-set = λ s offset v m bound fits. put_at-same s.0 offset v m.word;
  future-field = λ f i p m h.
      let e : follow f m ≡ p = cc h in ap (λ q. client_in (m.slot (struct_in q).0 i)) e;
}
