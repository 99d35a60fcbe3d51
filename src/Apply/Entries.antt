-- ===== src/Apply/Entries.antt =====
-- raft/node.go: what the loop of `doReady` over the committed entries does to the items of a node,
-- against a replay of the items that the entries carry.
use raft_capnp.Prelude.{
  refl, sym, ◌≡◌, ◌∙◌, Option, none, some, List, [], ◌∷◌, ◌++◌, ⊤, arith, inl, inr, ap,
}
use raft_capnp.Data.{Ready, Bytes, Error, Item, Entry, EntryType, entry_normal, entry_conf_change}
use raft_capnp.Effect.{Act, Env, Node, Result, ok, err, done, failed, emit, ◌>>=◌}
use raft_capnp.Effect.Keeps.{IsPreorder, Keeps, Outcome-cases, >>=-done, >>=-eq-done, >>=-eq-failed}
use raft_capnp.Effect.Frames.{SameItems, SameItems-IsFrame, SameItems-PeersFree, SameItems-apply}
use raft_capnp.Item
use raft_capnp.Item.{ItemMap}
use raft_capnp.Apply.{notify, add_bytes, add_entry, add_conf_change, apply_entry_as, apply_entries}
use raft_capnp.Apply.Frames.{Returns-apply_entry_as, Frame-conf_change_bytes}

-- The item that a committed entry carries, if it carries one.
abbrev pub carried : (Bytes → Result Item) → EntryType → Option Bytes → Option Item
carried decode entry_normal (some bytes) = elim (decode bytes) [
  | ok item ↦ some item
  | err e ↦ none
]
carried decode _ _ = none

abbrev pub put_carried : (Bytes → Bytes) → Option Item → ItemMap → ItemMap
put_carried md5 none m = m
put_carried md5 (some item) m = Item.put md5 item m

-- The items after a log of entries: every item that the log carries is put, in order.
abbrev pub replay : (Bytes → Result Item) → (Bytes → Bytes) → List Entry → ItemMap → ItemMap
replay decode md5 [] m = m
replay decode md5 (entry ∷ entries) m =
    replay decode md5 entries (put_carried md5 (carried decode entry.type entry.payload) m)

-- The node that has recorded the store of a round.
abbrev pub storing : Ready → Node → Node
storing ready n = record n {
  trace = Act.store ready.hard_state ready.entries ready.snapshot ∷ n.trace;
}

pub items_preorder : IsPreorder SameItems
items_preorder = SameItems-IsFrame.preorder

pub items-advance : Keeps SameItems (emit Act.advance)
unfolding ◌>>=◌
items-advance = record { at = λ n. refl }

module _ (env : Env) where
  items-conf_change : (entry : Entry) → Keeps SameItems (add_conf_change env entry)
  unfolding add_conf_change
  items-conf_change entry =
      Frame-conf_change_bytes SameItems-IsFrame env SameItems-PeersFree SameItems-apply
        entry.payload

  items-add_bytes_done :
      (o : Option Bytes) (n : Node)
      → (add_bytes env o n).0 ≡ done tt
      → (add_bytes env o n).1.items
        ≡ put_carried env.md5 (carried env.unmarshal_item entry_normal o) n.items
  unfolding add_bytes notify ◌>>=◌
  items-add_bytes_done none n h = refl
  items-add_bytes_done (some bytes) n h = ground arith

  -- An entry that fails leaves the items alone.
  items-add_bytes_failed :
      (o : Option Bytes) (n : Node) (e : Error)
      → (add_bytes env o n).0 ≡ failed e
      → (add_bytes env o n).1.items ≡ n.items
  unfolding add_bytes notify ◌>>=◌
  items-add_bytes_failed none n e h = refl
  items-add_bytes_failed (some bytes) n e h = ground arith

  add_entry-normal :
      (entry : Entry)
      → entry.type ≡ entry_normal
      → add_entry env entry ≡ add_bytes env entry.payload
  unfolding add_entry
  add_entry-normal entry q = rw q

  items-apply_entry_as_done :
      (t : EntryType) (entry : Entry) (n : Node)
      → entry.type ≡ t
      → (apply_entry_as env t entry n).0 ≡ done tt
      → (apply_entry_as env t entry n).1.items
        ≡ put_carried env.md5 (carried env.unmarshal_item t entry.payload) n.items
  unfolding apply_entry_as ◌>>=◌
  items-apply_entry_as_done entry_normal entry n q h =
      rw (add_entry-normal entry q)
        (items-add_bytes_done entry.payload n (rw (add_entry-normal entry q) at h))
  items-apply_entry_as_done entry_conf_change entry n q h = (items-conf_change entry).at n
  items-apply_entry_as_done _ entry n q h = refl

  items-apply_entry_as_failed :
      (t : EntryType) (entry : Entry) (n : Node) (e : Error)
      → entry.type ≡ t
      → (apply_entry_as env t entry n).0 ≡ failed e
      → (apply_entry_as env t entry n).1.items ≡ n.items
  unfolding apply_entry_as ◌>>=◌
  items-apply_entry_as_failed entry_normal entry n e q h =
      rw (add_entry-normal entry q)
        (items-add_bytes_failed entry.payload n e (rw (add_entry-normal entry q) at h))
  items-apply_entry_as_failed entry_conf_change entry n e q h = (items-conf_change entry).at n
  items-apply_entry_as_failed _ entry n e q h = refl

  pub items-apply_entries :
      (entries : List Entry) (n : Node)
      → (apply_entries env entries n).0 ≡ done tt
      → (apply_entries env entries n).1.items ≡ replay env.unmarshal_item env.md5 entries n.items
  unfolding apply_entries
  items-apply_entries [] n h = unfold ◌>>=◌ in refl
  items-apply_entries (entry ∷ entries) n h =
      let k = λ (x : ⊤). apply_entries env entries in
      let n' = (apply_entry_as env entry.type entry n).1 in
      let (x, first, eq) = >>=-eq-done k (apply_entry_as env entry.type entry) n h in
      let second : (apply_entries env entries n').0 ≡ done tt = ap (λ r. r.0) (sym eq) ∙ h in
      ap (λ r. r.1.items) eq
      ∙ items-apply_entries entries n' second
      ∙ ap (replay env.unmarshal_item env.md5 entries)
          (items-apply_entry_as_done entry.type entry n refl first)

  -- Whatever the outcome, the entries up to the first that failed have been applied.
  pub items-apply_entries_prefix :
      (entries : List Entry) (n : Node)
      → (applied rest : List Entry) × (entries ≡ applied ++ rest)
        × ((apply_entries env entries n).1.items
            ≡ replay env.unmarshal_item env.md5 applied n.items)
  unfolding apply_entries
  items-apply_entries_prefix [] n = ([], [], refl, unfold ◌>>=◌ in refl)
  items-apply_entries_prefix (entry ∷ entries) n =
      let m = apply_entry_as env entry.type entry in
      let k = λ (x : ⊤). apply_entries env entries in
      let (applied, rest, split, items) = items-apply_entries_prefix entries (m n).1 in
      elim (Outcome-cases (m n).0 ((Returns-apply_entry_as env entry.type entry).at n)) [
        | inl (x, first) ↦ (
          entry ∷ applied,
          rest,
          ap (λ es. entry ∷ es) split,
          ap (λ r. r.1.items) (>>=-done k m n first)
              ∙ items
              ∙ ap (replay env.unmarshal_item env.md5 applied)
                  (items-apply_entry_as_done entry.type entry n refl first),
        )
        | inr (e, first) ↦ (
          [],
          entry ∷ entries,
          refl,
          ap (λ r. r.1.items) (>>=-eq-failed k m n first)
              ∙ items-apply_entry_as_failed entry.type entry n e refl first,
        )
      ]
