-- ===== src/Item/Convert.antt =====
-- raft/item.go: `ItemFromApi`, with the byte buffers that an item and a message may share. A slice is
-- the address of a buffer; what reading a field of the message answers is an argument.
use raft_capnp.Prelude.{
  refl, ◌≡◌, ◌≢◌, ◌∙◌, ap, ℕ, zero, suc, ◌<◌, Option, none, some, List, [], ◌∷◌, ◌++◌, length,
  get_elem?, set, arith, length-append,
}
use raft_capnp.Data.{Bytes, Error}
use raft_capnp.Effect.{Result, ok, err}

-- The buffers by address.
abbrev pub Buffers : Type 0
Buffers = List Bytes

-- `Item` with its slices; `none` is nil.
pub record Slices : Type 0 where
  pub key_slice : Option ℕ
  pub value_slice : Option ℕ

abbrev bytes_of : Option Bytes → Bytes
bytes_of none = []
bytes_of (some bytes) = bytes

abbrev pub load : Buffers → ℕ → Bytes
load mem a = bytes_of (get_elem? mem a)

-- `make([]byte, len(s))` and `copy` of `s` into it: a new buffer, after all others.
abbrev pub cloned : Buffers → ℕ → Buffers
cloned mem s = mem ++ load mem s ∷ []

-- From the read of the value on. The copy `vBuf` is made, and `v` itself is stored.
unfoldable pub value_from_api : ℕ → Result ℕ → Buffers → (Slices × Option Error) × Buffers
value_from_api k_buf (err e) mem =
    ((record { key_slice = some k_buf; value_slice = none }, some e), mem)
value_from_api k_buf (ok v) mem =
    ((record { key_slice = some k_buf; value_slice = some v }, none), cloned mem v)

unfoldable pub item_from_api : Result ℕ → Result ℕ → Buffers → (Slices × Option Error) × Buffers
item_from_api (err e) value mem = ((record { key_slice = none; value_slice = none }, some e), mem)
item_from_api (ok k) value mem = value_from_api (length mem) value (cloned mem k)

get_elem?-append :
    (mem rest : Buffers) (a : ℕ) → a < length mem → get_elem? (mem ++ rest) a ≡ get_elem? mem a
get_elem?-append [] rest a h = absurd (omega (arith, h))
get_elem?-append (b ∷ mem) rest zero h = refl
get_elem?-append (b ∷ mem) rest (suc a) h = get_elem?-append mem rest a (omega (arith, h))

get_elem?-last :
    (mem rest : Buffers) (b : Bytes) → get_elem? (mem ++ b ∷ rest) (length mem) ≡ some b
get_elem?-last [] rest b = refl
get_elem?-last (c ∷ mem) rest b = get_elem?-last mem rest b

get_elem?-set :
    (mem : Buffers) (a b : ℕ) (bytes : Bytes)
    → a ≢ b
    → get_elem? (set mem a bytes) b ≡ get_elem? mem b
get_elem?-set [] a b bytes h = refl
get_elem?-set (c ∷ mem) zero zero bytes h = absurd (h refl)
get_elem?-set (c ∷ mem) zero (suc b) bytes h = refl
get_elem?-set (c ∷ mem) (suc a) zero bytes h = refl
get_elem?-set (c ∷ mem) (suc a) (suc b) bytes h = get_elem?-set mem a b bytes (λ e. h (ap suc e))

get_elem?-set_same :
    (mem : Buffers) (a : ℕ) (bytes : Bytes)
    → a < length mem
    → get_elem? (set mem a bytes) a ≡ some bytes
get_elem?-set_same [] a bytes h = absurd (omega (arith, h))
get_elem?-set_same (c ∷ mem) zero bytes h = refl
get_elem?-set_same (c ∷ mem) (suc a) bytes h = get_elem?-set_same mem a bytes (omega (arith, h))

load-cloned : (mem : Buffers) (s a : ℕ) → a < length mem → load (cloned mem s) a ≡ load mem a
load-cloned mem s a h = ap bytes_of (get_elem?-append mem (load mem s ∷ []) a h)

load-clone : (mem : Buffers) (s : ℕ) → load (cloned mem s) (length mem) ≡ load mem s
load-clone mem s = ap bytes_of (get_elem?-last mem [] (load mem s))

kept : (mem : Buffers) (s a : ℕ) → a < suc (length mem) → a < length (cloned mem s)
kept mem s a h = omega (arith, h, length-append mem (load mem s ∷ []))

-- `ItemFromApi` of a message whose fields can be read, in buffers k and v, succeeds with an item that
-- has the bytes of the two fields.
item_from_api_reads :
    (k v : ℕ) (mem : Buffers)
    → k < length mem
    → v < length mem
    → (item : Slices) × (key value : ℕ) × ((item_from_api (ok k) (ok v) mem).0 ≡ (item, none))
      × (item.key_slice ≡ some key)
      × (item.value_slice ≡ some value)
      × (load (item_from_api (ok k) (ok v) mem).1 key ≡ load mem k)
      × (load (item_from_api (ok k) (ok v) mem).1 value ≡ load mem v)
unfolding item_from_api value_from_api
item_from_api_reads k v mem hk hv = (
  record { key_slice = some (length mem); value_slice = some v },
  length mem,
  v,
  refl,
  refl,
  refl,
  load-cloned (cloned mem k) v (length mem) (kept mem k (length mem) (omega arith))
      ∙ load-clone mem k,
  load-cloned (cloned mem k) v v (kept mem k v (omega (arith, hv))) ∙ load-cloned mem k v hv,
)

-- The item of `ItemFromApi` owns its key and shares its value: bytes that are written to the value's
-- buffer of the message afterwards leave the key of the item as it was and become its value.
pub value_shares_buffer :
    (k v : ℕ) (mem : Buffers) (bytes : Bytes)
    → k < length mem
    → v < length mem
    → (key value : ℕ) × ((item_from_api (ok k) (ok v) mem).0.0.key_slice ≡ some key)
      × ((item_from_api (ok k) (ok v) mem).0.0.value_slice ≡ some value)
      × (load (set (item_from_api (ok k) (ok v) mem).1 v bytes) key ≡ load mem k)
      × (load (set (item_from_api (ok k) (ok v) mem).1 v bytes) value ≡ bytes)
unfolding item_from_api value_from_api
value_shares_buffer k v mem bytes hk hv =
    let after = cloned (cloned mem k) v in
    let inside = kept (cloned mem k) v v (omega (arith, hv, kept mem k v (omega (arith, hv)))) in
    (
      length mem,
      v,
      refl,
      refl,
      ap bytes_of (get_elem?-set after v (length mem) bytes (λ e. omega (arith, hv, e)))
          ∙ load-cloned (cloned mem k) v (length mem) (kept mem k (length mem) (omega arith))
          ∙ load-clone mem k,
      ap bytes_of (get_elem?-set_same after v bytes inside),
    )
