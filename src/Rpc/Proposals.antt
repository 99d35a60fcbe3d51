-- ===== src/Rpc/Proposals.antt =====
-- What the served methods propose to the cluster, and what becomes of a proposed item.
use raft_capnp.Prelude.{
  refl, ◌≡◌, ◌∙◌, ap, ℕ, ◌<◌, Option, none, some, List, [], ◌∷◌, ◌++◌, ⊤, arith, All, inl, inr,
}
use raft_capnp.Prelude.Eq.{bytes_eq, list_beq_iff}
use raft_capnp.Data.{
  Bytes, Raft, null, client, Item, Entry, entry_normal, remove_node, ConfChange, Ready,
}
use raft_capnp.Effect.{
  Act, Trace, Env, Node, Action, Result, ok, Outcome, done, call, check, take_ref, ◌>>=◌,
}
use raft_capnp.Effect.Keeps.{Result-cases}
use raft_capnp.Effect.Frames.{select}
use raft_capnp.Helper.{rpc_get_id}
use raft_capnp.Item
use raft_capnp.Item.{ItemMap}
use raft_capnp.Item.Laws.{get-put}
use raft_capnp.Apply.{do_ready}
use raft_capnp.Apply.Entries.{carried, put_carried, replay}
use raft_capnp.Apply.Rounds.{replay-append}
use raft_capnp.Apply.Machine.{do_ready_items}
use raft_capnp.Rpc.{remove, put_item}

-- The changes that were proposed to the cluster, newest first.
abbrev pub proposed : Act → Option ConfChange
proposed (Act.propose_conf_change change) = some change
proposed _ = none

abbrev pub proposed_bytes : Act → Option Bytes
proposed_bytes (Act.propose encoded) = some encoded
proposed_bytes _ = none

module _ (env : Env) where
  -- What `remove` does once it has its reference.
  abbrev ask_and_propose : Raft → Action ⊤
  ask_and_propose node = do
    id ← rpc_get_id env node
    let change : ConfChange = record { id = id; type = remove_node; node_id = id }
    check (← call (Act.propose_conf_change change) (λ t. env.propose_conf_change t change))

  -- The change that was proposed, and that the node asked for names it.
  abbrev Proposes : Raft → Node → Outcome ⊤ × Node → Type 0
  Proposes node n r =
      (id : ℕ) × (t : Trace) × (env.get_id t node ≡ ok id)
      × (select proposed r.1.trace
          ≡ record { id = id; type = remove_node; node_id = id } ∷ select proposed n.trace)

  asks-Proposes :
      (node : Raft) (n : Node)
      → (ask_and_propose node n).0 ≡ done tt
      → Proposes node n (ask_and_propose node n)
  unfolding rpc_get_id ◌>>=◌
  asks-Proposes node n h = elim (Result-cases (env.get_id n.trace node)) [
    | inl (id, e) ↦ (id, n.trace, e, rw e (ground arith))
    | inr (x, e) ↦ cc (rw e at h)
  ]

  -- `remove` that succeeds has proposed one change: the removal of the node that the given
  -- capability reports to be.
  remove_proposes :
      (node : Raft) (n : Node)
      → (remove env node n).0 ≡ done tt
      → (id : ℕ) × (t : Trace) × (env.get_id t node ≡ ok id)
        × (select proposed (remove env node n).1.trace
            ≡ record { id = id; type = remove_node; node_id = id } ∷ select proposed n.trace)
  unfolding remove take_ref ◌>>=◌
  remove_proposes null n h = asks-Proposes null n h
  remove_proposes (client c) n h =
      asks-Proposes (client c) (record n { trace = Act.add_ref (client c) ∷ n.trace }) h

-- The entry that the cluster commits for some proposed bytes.
abbrev pub entry_of : Bytes → Entry
entry_of encoded = record { type = entry_normal; payload = some encoded }

carried-entry_of :
    (decode : Bytes → Result Item) (encoded : Bytes) (item : Item)
    → decode encoded ≡ ok item
    → carried decode entry_normal (some encoded) ≡ some item
carried-entry_of decode encoded item h = ground arith

get-put_self :
    (md5 : Bytes → Bytes) (item : Item) (m : ItemMap)
    → ((k : Bytes) → All (λ b. b < 256) (md5 k))
    → Item.get md5 item.key (Item.put md5 item m) ≡ some item
get-put_self md5 item m bytes =
    rw (get-put md5 item item.key m bytes, (list_beq_iff (md5 item.key) (md5 item.key)).1 refl)

-- An item that `PutItem` could encode is proposed as those bytes; once a round that ends with the
-- entry of the bytes is applied with success, at whatever node, the item is found there under its
-- key. This assumes that decoding undoes encoding, and that MD5 yields bytes.
pub put_commit_get :
    (env : Env) (item : Item) (encoded : Bytes) (before : List Entry) (ready : Ready) (n n' : Node)
    → env.marshal_item item ≡ ok encoded
    → ((i : Item) (b : Bytes) → env.marshal_item i ≡ ok b → env.unmarshal_item b ≡ ok i)
    → ((k : Bytes) → All (λ b. b < 256) (env.md5 k))
    → ready.committed_entries ≡ before ++ entry_of encoded ∷ []
    → (do_ready env ready n').0 ≡ done tt
    → (select proposed_bytes (put_item env item n).1.trace
        ≡ encoded ∷ select proposed_bytes n.trace)
      × (Item.get env.md5 item.key (do_ready env ready n').1.items ≡ some item)
put_commit_get env item encoded before ready n n' encodes decodes bytes log h =
    let m = replay env.unmarshal_item env.md5 before n'.items in
    let items =
      (do_ready_items env ready n' h).1
      ∙ ap (λ l. replay env.unmarshal_item env.md5 l n'.items) log
      ∙ replay-append env.unmarshal_item env.md5 before (entry_of encoded ∷ []) n'.items
      ∙ ap (λ o. put_carried env.md5 o m)
          (carried-entry_of env.unmarshal_item encoded item (decodes item encoded encodes)) in
    (
      unfold put_item ◌>>=◌ in rw encodes (ground arith),
      ap (Item.get env.md5 item.key) items ∙ get-put_self env.md5 item m bytes,
    )
