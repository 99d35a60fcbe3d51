-- ===== src/Apply.antt =====
-- raft/node.go: `doReady`, what it does to each committed entry, and how it sends messages.
pub mod Frames
pub mod Sends
pub mod Counts
pub mod Losses
pub mod Members
pub mod Order
pub mod Entries
pub mod Machine
pub mod Rounds
pub mod Membership
use raft_capnp.Prelude.{Option, ℕ, ⊤, none, some, List, [], ◌∷◌, Bool, true, false, if◌then◌else◌}
use raft_capnp.Prelude.Eq.{◌==◌, nat_eq}
use raft_capnp.Prelude.Assoc.{Assoc, lookup}
use raft_capnp.Data.{
  Bytes, Error, snapshot_unimplemented, bad_entry_type, bad_conf_change_type, Raft, Item, Message,
  EntryType, entry_normal, entry_conf_change, Entry, ConfChangeType, add_node, remove_node,
  ConfChange, Ready,
}
use raft_capnp.Effect.{
  Act, Trace, Env, Result, Action, ok, err, pure, raise, lift, gets, call, emit, try, check, modify,
  take_ref, ◌>>=◌, ◌>>◌,
}
use raft_capnp.Helper.{rpc_send}
use raft_capnp.View.{view_peers}
use raft_capnp.Cluster.{apply_add_node, apply_remove_node}
use raft_capnp.Item

abbrev is_normal : EntryType → Bool
is_normal entry_normal = true
is_normal _ = false

unfoldable pub report : ℕ → Result ⊤ → Action ⊤
report id (ok sent) = pure tt
report id (err e) = emit (Act.report_unreachable id)

-- `OnNewValue`, which may be nil
unfoldable pub notify : Option (Trace → Item → Option Error) → Item → Action ⊤
notify none item = pure tt
notify (some f) item = do check (← call (Act.new_value item) (λ t. f t item))

module _ (env : Env) where
  unfoldable pub add_bytes : Option Bytes → Action ⊤
  add_bytes none = pure tt
  add_bytes (some bytes) = do
    item ← lift (env.unmarshal_item bytes)
    notify env.on_new_value item
    modify (λ n. record n { items = Item.put env.md5 item n.items })

  unfoldable pub add_entry : Entry → Action ⊤
  add_entry entry = if is_normal entry.type then add_bytes entry.payload else pure tt

  -- The `switch` on `cc.Type`
  unfoldable pub change_members : ConfChangeType → ConfChange → Action ⊤
  change_members add_node cc = apply_add_node env cc
  change_members remove_node cc = apply_remove_node env cc
  change_members _ cc = raise bad_conf_change_type

  unfoldable pub conf_change_bytes : Option Bytes → Action ⊤
  conf_change_bytes none = pure tt
  conf_change_bytes (some bytes) = do
    cc ← lift (env.unmarshal_conf_change bytes)
    res ← try (change_members cc.type cc)
    emit (Act.apply_conf_change cc)
    lift res

  unfoldable pub add_conf_change : Entry → Action ⊤
  add_conf_change entry = conf_change_bytes entry.payload

  -- The `switch` on `entry.Type`
  unfoldable pub apply_entry_as : EntryType → Entry → Action ⊤
  apply_entry_as entry_normal entry = add_entry entry
  apply_entry_as entry_conf_change entry = add_conf_change entry
  apply_entry_as _ entry = raise bad_entry_type

  unfoldable pub apply_entries : List Entry → Action ⊤
  apply_entries [] = pure tt
  apply_entries (entry ∷ entries) = do apply_entry_as entry.type entry; apply_entries entries

  -- What `sendMessages` does with the peer that it found.
  unfoldable pub send_to : Message → Option Raft → Action ⊤
  send_to msg none = pure tt
  send_to msg (some peer) = do
    shared ← take_ref peer
    res ← try (rpc_send env shared msg)
    report msg.to res

  -- One round of the loop of `sendMessages`. The error of `Step` is dropped.
  unfoldable pub send_message : Assoc ℕ Raft → Message → Action ⊤
  send_message peers msg = do
    self ← gets (λ n. n.id)
    if msg.to == self
        then (call (Act.step msg) (λ t. env.step t msg) >>= λ dropped. pure tt)
        else send_to msg (lookup msg.to peers)

  unfoldable pub send_each : Assoc ℕ Raft → List Message → Action ⊤
  send_each peers [] = pure tt
  send_each peers (msg ∷ msgs) = do send_message peers msg; send_each peers msgs

  unfoldable pub send_messages : List Message → Action ⊤
  send_messages msgs = do peers ← view_peers; send_each peers msgs

  -- `doReady` after the store.
  unfoldable pub after_store : Ready → Action ⊤
  after_store ready = do
    send_messages ready.messages
    if env.is_empty_snap ready.snapshot
        then (apply_entries ready.committed_entries >> emit Act.advance)
        else raise snapshot_unimplemented

  unfoldable pub do_ready : Ready → Action ⊤
  do_ready ready = do
    stored ←
        call (Act.store ready.hard_state ready.entries ready.snapshot)
          (λ t. env.store t ready.hard_state ready.entries ready.snapshot)
    check stored
    after_store ready
