-- ===== src/PointerList.antt =====
-- raft/capnp_utils.go: a list of the capabilities of some servers. The length of the list is cast to
-- `int32` in the source; the model is of lists that are shorter than that.
use raft_capnp.Prelude.{
  refl, ap, ◌≡◌, ℕ, suc, Option, none, some, List, [], ◌∷◌, true, not, All, length, Bool-cases, inl,
  inr, if◌then◌else◌,
}
use raft_capnp.Data.{Error, invalid_capability, Raft}
use raft_capnp.Effect.{Result, ok, err}
use raft_capnp.Api.Capnp.{Capnp}

module _ {CS : Type 0} (c : Capnp) (server_to_client : CS → Raft) where
  open c use {Memory, Segment, PointerList}

  -- `l.Set(i, client.EncodeAsPtr(iSeg))`, whose error is not looked at.
  abbrev place : PointerList → ℕ → Raft → Result Segment × Memory → Option Error × Memory
  place l i v (err e, m) = (some e, m)
  place l i v (ok seg, m) = let (p, m') = c.encode_client seg v m in (none, (c.list_set l i p m').1)

  -- One round of the loop.
  abbrev add_one : PointerList → ℕ → CS → Memory → Option Error × Memory
  add_one l i server m =
      let v = server_to_client server in
      if not (c.is_valid v) then (some invalid_capability, m) else place l i v (c.new_message m)

  abbrev and_then : Option Error × Memory → (Memory → Option Error × Memory) → Option Error × Memory
  and_then (some e, m) rest = (some e, m)
  and_then (none, m) rest = rest m

  -- The loop, from the index `i` on.
  unfoldable pub add_all : PointerList → ℕ → List CS → Memory → Option Error × Memory
  add_all l i [] m = (none, m)
  add_all l i (server ∷ servers) m = and_then (add_one l i server m) (add_all l (suc i) servers)

  abbrev whole_list : PointerList → Option Error × Memory → Result PointerList × Memory
  whole_list l (some e, m) = (err e, m)
  whole_list l (none, m) = (ok l, m)

  abbrev then_add : List CS → Result PointerList × Memory → Result PointerList × Memory
  then_add servers (err e, m) = (err e, m)
  then_add servers (ok l, m) = whole_list l (add_all l 0 servers m)

  abbrev then_list : List CS → Result Segment × Memory → Result PointerList × Memory
  then_list servers (err e, m) = (err e, m)
  then_list servers (ok seg, m) = then_add servers (c.new_pointer_list seg (length servers) m)

  unfoldable pub pointer_list : List CS → Memory → Result PointerList × Memory
  pointer_list servers m = then_list servers (c.new_message m)

  abbrev pub IsValid : CS → Type 0
  IsValid server = c.is_valid (server_to_client server) ≡ true

  and_then-none :
      (r : Option Error × Memory) (rest : Memory → Option Error × Memory) (m' : Memory)
      → and_then r rest ≡ (none, m')
      → (m : Memory) × (r ≡ (none, m)) × (rest m ≡ (none, m'))
  and_then-none (some e, m) rest m' h = absurd (cc h)
  and_then-none (none, m) rest m' h = (m, refl, h)

  add_one-IsValid :
      (l : PointerList) (i : ℕ) (server : CS) (m m' : Memory)
      → add_one l i server m ≡ (none, m')
      → IsValid server
  add_one-IsValid l i server m m' h = elim (Bool-cases (c.is_valid (server_to_client server))) [
    | inl valid ↦ valid
    | inr invalid ↦ absurd (cc (rw invalid at h))
  ]

  add_all-IsValid :
      (l : PointerList) (i : ℕ) (servers : List CS) (m m' : Memory)
      → add_all l i servers m ≡ (none, m')
      → All IsValid servers
  unfolding add_all
  add_all-IsValid l i [] m m' h = tt
  add_all-IsValid l i (server ∷ servers) m m' h =
      let (m₁, one, rest) = and_then-none (add_one l i server m) (add_all l (suc i) servers) m' h in
      (add_one-IsValid l i server m m₁ one, add_all-IsValid l (suc i) servers m₁ m' rest)

  whole_list-ok :
      (l l' : PointerList) (r : Option Error × Memory) (m' : Memory)
      → whole_list l r ≡ (ok l', m')
      → r ≡ (none, m')
  whole_list-ok l l' (some e, m) m' h = absurd (cc h)
  whole_list-ok l l' (none, m) m' h = let same : m ≡ m' = cc h in ap (λ k. (none, k)) same

  then_add-IsValid :
      (servers : List CS) (r : Result PointerList × Memory) (l : PointerList) (m' : Memory)
      → then_add servers r ≡ (ok l, m')
      → All IsValid servers
  then_add-IsValid servers (err e, m) l m' h = absurd (cc h)
  then_add-IsValid servers (ok l', m) l m' h =
      add_all-IsValid l' 0 servers m m' (whole_list-ok l' l (add_all l' 0 servers m) m' h)

  then_list-IsValid :
      (servers : List CS) (r : Result Segment × Memory) (l : PointerList) (m' : Memory)
      → then_list servers r ≡ (ok l, m')
      → All IsValid servers
  then_list-IsValid servers (err e, m) l m' h = absurd (cc h)
  then_list-IsValid servers (ok seg, m) l m' h =
      then_add-IsValid servers (c.new_pointer_list seg (length servers) m) l m' h

  -- `PointerList` returns a list only if every server has a valid capability.
  pointer_list-IsValid :
      (servers : List CS) (l : PointerList) (m m' : Memory)
      → pointer_list servers m ≡ (ok l, m')
      → All IsValid servers
  unfolding pointer_list
  pointer_list-IsValid servers l m m' h = then_list-IsValid servers (c.new_message m) l m' h
