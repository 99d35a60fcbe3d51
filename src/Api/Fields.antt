-- ===== src/Api/Fields.antt =====
-- What is written to a field of a generated struct is read again, over a library that does what it
-- documents.
pub mod Results
pub mod Arguments
use raft_capnp.Prelude.{
  sym, ◌≡◌, ◌∙◌, ap, ℕ, ◌<◌, ◌^◌, Option, none, some, Bool-cases, inl, inr, arith, if◌then◌else◌,
  not,
}
use raft_capnp.Data.{Bytes, Error, Raft}
use raft_capnp.Effect.{Result, ok}
use raft_capnp.Effect.Keeps.{Result-cases}
use raft_capnp.Api.{ObjectSize, Send, call_add, call_remove, call_send}
use raft_capnp.Api.Capnp.{Capnp, IsCapnp, object_size, with_result, ptr_or_null}
use raft_capnp.Api.ItemStruct
use raft_capnp.Api.AddParams
use raft_capnp.Api.AddResults
use raft_capnp.Api.RemoveParams
use raft_capnp.Api.RemoveResults
use raft_capnp.Api.SendParams
use raft_capnp.Api.SendResults
use raft_capnp.Api.PutResults
use raft_capnp.Api.IdResults

-- The methods whose results have an error.
pub data Reporting : Type 0 where
  by_add by_remove by_send by_put : Reporting

module _ (c : Capnp) where
  open c use {Memory, Struct, Call}

  abbrev pub alloc_of : Reporting → Call → Memory → Result Struct × Memory
  alloc_of by_add = AddResults.alloc c
  alloc_of by_remove = RemoveResults.alloc c
  alloc_of by_send = SendResults.alloc c
  alloc_of by_put = PutResults.alloc c

  abbrev pub set_error_of : Reporting → Struct → Bytes → Memory → Option Error × Memory
  set_error_of by_add = AddResults.set_error c
  set_error_of by_remove = RemoveResults.set_error c
  set_error_of by_send = SendResults.set_error c
  set_error_of by_put = PutResults.set_error c

  abbrev pub error_of : Reporting → Struct → Memory → Result Bytes
  error_of by_add = AddResults.error_text c
  error_of by_remove = RemoveResults.error_text c
  error_of by_send = SendResults.error_text c
  error_of by_put = PutResults.error_text c

  abbrev pub error_bytes_of : Reporting → Struct → Memory → Result Bytes
  error_bytes_of by_add = AddResults.error_bytes c
  error_bytes_of by_remove = RemoveResults.error_bytes c
  error_bytes_of by_send = SendResults.error_bytes c
  error_bytes_of by_put = PutResults.error_bytes c

-- The methods that are called with a node.
pub data Naming : Type 0 where
  to_add to_remove : Naming

abbrev pub naming_stub : {P : Type 0} → Naming → Option P → Send P
naming_stub to_add = call_add
naming_stub to_remove = call_remove

module _ (c : Capnp) where
  open c use {Memory, Struct, Future}

  abbrev pub set_node_of : Naming → Struct → Raft → Memory → Option Error × Memory
  set_node_of to_add = AddParams.set_node c
  set_node_of to_remove = RemoveParams.set_node c

  abbrev pub node_of : Naming → Struct → Memory → Raft
  node_of to_add = AddParams.node c
  node_of to_remove = RemoveParams.node c

  abbrev pub resolved_of : Naming → Future → Memory → Result Struct
  resolved_of to_add = AddParams.resolved c
  resolved_of to_remove = RemoveParams.resolved c

  abbrev pub promised_node_of : Naming → Future → Memory → Raft
  promised_node_of to_add = AddParams.promised_node c
  promised_node_of to_remove = RemoveParams.promised_node c

-- A struct of the size that was asked for has the pointers that were asked for.
pub requested :
    (i : ℕ) (want size : ObjectSize)
    → ◌≡◌ {A = Option ObjectSize} (some want) (some size)
    → i < want.pointer_count
    → i < size.pointer_count
requested i want size h bound = let e : want ≡ size = cc h in rw (← e) bound

module _ (c : Capnp) (laws : IsCapnp c) where
  open c use {Memory, Segment, Struct, Call, Future}

  -- A text that was written to a pointer of a struct with that pointer, as the accessors read it.
  pub text-field :
      (s : Struct) (i : ℕ) (text : Bytes) (m m' : Memory)
      → i < (c.size_of s).pointer_count
      → c.set_text s i text m ≡ (none, m')
      → (with_result (λ p. c.text_of p m') (c.ptr s i m') ≡ ok text)
        × (with_result (λ p. c.text_bytes_of p m') (c.ptr s i m') ≡ ok text)
  text-field s i text m m' bound h =
      let (p, found, reads, bytes) = laws.text-set s i text m m' bound h in
      (rw found (ap ok reads), rw found (ap ok bytes))

  pub within :
      (s : Struct) (i words pointers : ℕ)
      → c.size_of s ≡ object_size words pointers
      → i < pointers
      → i < (c.size_of s).pointer_count
  within s i words pointers size bound = rw size bound

  -- Whatever capability is placed at a pointer, null included, is the one that is read there.
  pub client_field :
      (s : Struct) (i : ℕ) (v : Raft) (m m' : Memory)
      → i < (c.size_of s).pointer_count
      → (if not (c.is_valid v)
          then c.set_ptr s i c.null_ptr m
          else let (p, m₁) = c.new_interface (c.segment s) v m in c.set_ptr s i p m₁)
        ≡ (none, m')
      → c.client_of (ptr_or_null c (c.ptr s i m')) m' ≡ v
  client_field s i v m m' bound h = elim (Bool-cases (c.is_valid v)) [
    | inl valid ↦
        let (p, m₁) = c.new_interface (c.segment s) v m in
        let (q, found, same) = laws.client-set s i p m₁ m' bound (rw valid at h) in
        rw found (same ∙ laws.client-interface (c.segment s) v m)
    | inr invalid ↦
        let (q, found, same) = laws.client-set s i c.null_ptr m m' bound (rw invalid at h) in
        rw found (same ∙ laws.client-null m ∙ sym (laws.null_of_invalid v invalid))
  ]

  pub promised :
      (f : Future) (i : ℕ) (s : Struct) (m : Memory)
      → with_result c.struct_of (c.future_ptr f m) ≡ ok s
      → c.future_client (c.future_field f i) m ≡ c.client_of (ptr_or_null c (c.ptr s i m)) m
  promised f i s m h = elim (Result-cases (c.future_ptr f m)) [
    | inl (p, e) ↦
        let same : c.struct_of p ≡ s = cc (rw e at h) in
        laws.future-field f i p m e ∙ ap (λ t. c.client_of (ptr_or_null c (c.ptr t i m)) m) same
    | inr (x, e) ↦ absurd (cc (rw e at h))
  ]
