-- ===== src/Item/ToApi.antt =====
-- raft/item.go: `ItemToApi`, over the Cap'n Proto library.
use raft_capnp.Prelude.{refl, ◌≡◌, Option, none, some}
use raft_capnp.Data.{Error, Item}
use raft_capnp.Effect.{Result, ok, err}
use raft_capnp.Api.Capnp.{Capnp, IsCapnp}
use raft_capnp.Api.ItemStruct
use raft_capnp.Api.Fields.Results.{item_fields}

module _ (c : Capnp) where
  open c use {Memory, Segment, Struct}

  -- The struct as far as it exists, with the error.
  abbrev pub Converted : Type 0
  Converted = (Option Struct × Option Error) × Memory

  abbrev then_value : Struct → Item → Option Error × Memory → Converted
  then_value s item (some e, m) = ((some s, some e), m)
  then_value s item (none, m) =
      let (e, m') = ItemStruct.set_value c s item.value m in ((some s, e), m')

  abbrev then_fields : Item → Result Struct × Memory → Converted
  then_fields item (err e, m) = ((none, some e), m)
  then_fields item (ok s, m) = then_value s item (ItemStruct.set_key c s item.key m)

  abbrev then_struct : Item → Result Segment × Memory → Converted
  then_struct item (err e, m) = ((none, some e), m)
  then_struct item (ok seg, m) = then_fields item (ItemStruct.new_struct c seg m)

  unfoldable pub item_to_api : Item → Memory → Converted
  item_to_api item m = then_struct item (c.new_message m)

module _ (c : Capnp) (laws : IsCapnp c) where
  open c use {Memory, Segment, Struct}

  -- The fields of the struct, which `ItemFromApi` reads.
  abbrev pub Holds : Item → Struct → Memory → Type 0
  Holds item s m = (ItemStruct.key c s m ≡ ok item.key) × (ItemStruct.value c s m ≡ ok item.value)

  Holds-value :
      (seg : Segment) (s t : Struct) (item : Item) (m₀ m₁ m₂ m : Memory)
      → ItemStruct.new_struct c seg m₀ ≡ (ok s, m₁)
      → ItemStruct.set_key c s item.key m₁ ≡ (none, m₂)
      → then_value c s item (none, m₂) ≡ ((some t, none), m)
      → Holds item t m
  Holds-value seg s t item m₀ m₁ m₂ m made first h =
      let same : s ≡ t = cc h in
      rw same at (item_fields c laws seg s item.key item.value m₀ m₁ m₂ m made first (cc h))

  Holds-fields :
      (seg : Segment) (s t : Struct) (item : Item) (m₀ m₁ m : Memory) (r : Option Error × Memory)
      → ItemStruct.new_struct c seg m₀ ≡ (ok s, m₁)
      → ItemStruct.set_key c s item.key m₁ ≡ r
      → then_value c s item r ≡ ((some t, none), m)
      → Holds item t m
  Holds-fields seg s t item m₀ m₁ m (some e, m₂) made first h = absurd (cc h)
  Holds-fields seg s t item m₀ m₁ m (none, m₂) made first h =
      Holds-value seg s t item m₀ m₁ m₂ m made first h

  Holds-struct :
      (seg : Segment) (t : Struct) (item : Item) (m₀ m : Memory) (r : Result Struct × Memory)
      → ItemStruct.new_struct c seg m₀ ≡ r
      → then_fields c item r ≡ ((some t, none), m)
      → Holds item t m
  Holds-struct seg t item m₀ m (err e, m₁) made h = absurd (cc h)
  Holds-struct seg t item m₀ m (ok s, m₁) made h =
      Holds-fields seg s t item m₀ m₁ m (ItemStruct.set_key c s item.key m₁) made refl h

  Holds-message :
      (t : Struct) (item : Item) (m : Memory) (r : Result Segment × Memory)
      → then_struct c item r ≡ ((some t, none), m)
      → Holds item t m
  Holds-message t item m (err e, m₀) h = absurd (cc h)
  Holds-message t item m (ok seg, m₀) h =
      Holds-struct seg t item m₀ m (ItemStruct.new_struct c seg m₀) refl h

  -- If `ItemToApi` returns no error, the fields of its struct, as `ItemFromApi` reads them, are the
  -- key and the value of the item.
  pub item_to_api_holds :
      (item : Item) (s : Struct) (m m' : Memory)
      → item_to_api c item m ≡ ((some s, none), m')
      → (ItemStruct.key c s m' ≡ ok item.key) × (ItemStruct.value c s m' ≡ ok item.value)
  unfolding item_to_api
  item_to_api_holds item s m m' h = Holds-message s item m' (c.new_message m) h
