-- ===== src/Api/Fields/Results.antt =====
-- proto/api/raft.capnp.go: the results of a call, and items, are read as they were written.
use raft_capnp.Prelude.{◌≡◌, ◌∙◌, ap, ℕ, ◌<◌, ◌^◌, none, arith}
use raft_capnp.Data.{Bytes}
use raft_capnp.Effect.{ok}
use raft_capnp.Api.Capnp.{Capnp, IsCapnp}
use raft_capnp.Api.ItemStruct
use raft_capnp.Api.AddResults
use raft_capnp.Api.RemoveResults
use raft_capnp.Api.SendResults
use raft_capnp.Api.PutResults
use raft_capnp.Api.IdResults
use raft_capnp.Api.Fields.{
  Reporting, by_add, by_remove, by_send, by_put, alloc_of, set_error_of, error_of, error_bytes_of,
  text-field, within,
}

module _ (c : Capnp) (laws : IsCapnp c) where
  open c use {Memory, Segment, Struct, Call, Future}

  -- The error that a handler sets in the results that it has allocated is the error that the caller
  -- reads there, as text and as bytes; this holds of `add`, `remove`, `send` and `put`.
  pub error_reported :
      (name : Reporting) (call : Call) (s : Struct) (text : Bytes) (m m₁ m₂ : Memory)
      → alloc_of c name call m ≡ (ok s, m₁)
      → set_error_of c name s text m₁ ≡ (none, m₂)
      → (error_of c name s m₂ ≡ ok text) × (error_bytes_of c name s m₂ ≡ ok text)
  unfolding AddResults.alloc AddResults.set_error AddResults.error_text AddResults.error_bytes
      RemoveResults.alloc RemoveResults.set_error RemoveResults.error_text RemoveResults.error_bytes
      SendResults.alloc SendResults.set_error SendResults.error_text SendResults.error_bytes
      PutResults.alloc PutResults.set_error PutResults.error_text PutResults.error_bytes
  error_reported by_add call s text m m₁ m₂ made h =
      text-field c laws s 1 text m₁ m₂
        (within c laws s 1 0 2 (laws.alloc_results_size call _ s m m₁ made) (omega arith)) h
  error_reported by_remove call s text m m₁ m₂ made h =
      text-field c laws s 0 text m₁ m₂
        (within c laws s 0 0 1 (laws.alloc_results_size call _ s m m₁ made) (omega arith)) h
  error_reported by_send call s text m m₁ m₂ made h =
      text-field c laws s 0 text m₁ m₂
        (within c laws s 0 0 1 (laws.alloc_results_size call _ s m m₁ made) (omega arith)) h
  error_reported by_put call s text m m₁ m₂ made h =
      text-field c laws s 0 text m₁ m₂
        (within c laws s 0 0 1 (laws.alloc_results_size call _ s m m₁ made) (omega arith)) h

  -- The identifier that `Id` writes to the results that it has allocated is the one that is read.
  id_answered :
      (call : Call) (s : Struct) (id : ℕ) (m m' : Memory)
      → IdResults.alloc c call m ≡ (ok s, m')
      → id < 2 ^ 64
      → IdResults.id c s (IdResults.set_id c s id m') ≡ id
  unfolding IdResults.alloc IdResults.set_id IdResults.id
  id_answered call s id m m' made fits =
      laws.uint64-set s 0 id m' (rw (laws.alloc_results_size call _ s m m' made) (omega arith)) fits

  -- Setting the error of the results of `add` leaves the list of nodes in them.
  add_error_keeps_nodes :
      (s : Struct) (text : Bytes) (m m' : Memory)
      → AddResults.set_error c s text m ≡ (none, m')
      → AddResults.nodes c s m' ≡ AddResults.nodes c s m
  unfolding AddResults.set_error AddResults.nodes
  add_error_keeps_nodes s text m m' h = rw (laws.text-frame s 1 0 text m m' (omega arith) h).0

  -- An item that was allocated and given a key and then a value holds both.
  pub item_fields :
      (seg : Segment) (s : Struct) (key value : Bytes) (m m₁ m₂ m₃ : Memory)
      → ItemStruct.new_struct c seg m ≡ (ok s, m₁)
      → ItemStruct.set_key c s key m₁ ≡ (none, m₂)
      → ItemStruct.set_value c s value m₂ ≡ (none, m₃)
      → (ItemStruct.key c s m₃ ≡ ok key) × (ItemStruct.value c s m₃ ≡ ok value)
  unfolding ItemStruct.new_struct ItemStruct.set_key ItemStruct.set_value ItemStruct.key
      ItemStruct.value
  item_fields seg s key value m m₁ m₂ m₃ made first second =
      let size = laws.new_struct_size seg _ s m m₁ made in
      let (p, found, reads) =
        laws.data-set s 0 key m₁ m₂ (within c laws s 0 0 2 size (omega arith)) first in
      let (q, found', reads') =
        laws.data-set s 1 value m₂ m₃ (within c laws s 1 0 2 size (omega arith)) second in
      let (kept, same) = laws.data-frame s 1 0 value m₂ m₃ (omega arith) second in
      (rw (kept ∙ found) (ap ok ((same p found).1 ∙ reads)), rw found' (ap ok reads'))
