-- ===== src/Apply/Frames.antt =====
-- What `doReady` calls keeps every frame, up to the membership changes, and returns.
use raft_capnp.Prelude.{ℕ, Option, none, some, List, [], ◌∷◌, ⊤}
use raft_capnp.Prelude.Assoc.{Assoc}
use raft_capnp.Prelude.Eq.{nat_eq}
use raft_capnp.Data.{
  Bytes, Error, Raft, Item, Message, Entry, EntryType, entry_normal, entry_conf_change,
  ConfChangeType, add_node, remove_node, ConfChange, Ready,
}
use raft_capnp.Effect.{Act, Trace, Env, Node, Result, ok, err, call, emit}
use raft_capnp.Effect.Keeps.{
  IsPreorder, Keeps, Returns, Keeps-bind, Returns-bind, keeps_rules, returns_rules,
}
use raft_capnp.Effect.Frames.{
  IsFrame, PeersFree, MessageFree, any_call-MessageFree, ItemsFree, Frame-take_ref,
  Returns-take_ref,
}
use raft_capnp.View.Frames.{Frame-rpc_send, Frame-view_peers, Returns-rpc_send, Returns-view_peers}
use raft_capnp.Cluster.Frames.{
  Frame-apply_add_node, Frame-apply_remove_node, Returns-apply_add_node, Returns-apply_remove_node,
}
use raft_capnp.Apply.{
  notify, add_bytes, add_entry, change_members, conf_change_bytes, add_conf_change, apply_entry_as,
  apply_entries, report, send_to, send_message, send_each, send_messages, after_store, do_ready,
}

module _ {R : Node → Node → Type 0} (fr : IsFrame R) where
  Frame-notify : (f : Option (Trace → Item → Option Error)) (item : Item) → Keeps R (notify f item)
  unfolding notify
  Frame-notify none item = search (keeps_rules, fr.preorder)
  Frame-notify (some f) item = search (keeps_rules, fr.preorder, fr.quiet_call)

  Frame-report : (id : ℕ) (r : Result ⊤) → Keeps R (report id r)
  unfolding report
  Frame-report id (ok done) = search (keeps_rules, fr.preorder)
  Frame-report id (err e) = search (fr.quiet_call)

  module _ (env : Env) where
    Frame-add_bytes : ItemsFree R → (o : Option Bytes) → Keeps R (add_bytes env o)
    unfolding add_bytes
    Frame-add_bytes itf none = search (keeps_rules, fr.preorder)
    Frame-add_bytes itf (some bytes) = search (keeps_rules, fr.preorder, Frame-notify, itf)

    pub Frame-add_entry : ItemsFree R → (entry : Entry) → Keeps R (add_entry env entry)
    unfolding add_entry
    Frame-add_entry itf entry = search (keeps_rules, fr.preorder, Frame-add_bytes itf)

    pub Frame-change_members :
        PeersFree R → (t : ConfChangeType) (cc : ConfChange) → Keeps R (change_members env t cc)
    unfolding change_members
    Frame-change_members pf add_node cc = Frame-apply_add_node fr pf env cc
    Frame-change_members pf remove_node cc = Frame-apply_remove_node fr pf env cc
    Frame-change_members pf _ cc = search (keeps_rules, fr.preorder)

    module _ (mf : MessageFree R) where
      Frame-send_to : (msg : Message) (o : Option Raft) → Keeps R (send_to env msg o)
      unfolding send_to
      Frame-send_to msg none = search (keeps_rules, fr.preorder)
      Frame-send_to msg (some peer) =
          search (keeps_rules, fr.preorder, Frame-take_ref fr, Frame-rpc_send fr mf, Frame-report)

      Frame-send_message :
          (peers : Assoc ℕ Raft) (msg : Message) → Keeps R (send_message env peers msg)
      unfolding send_message
      Frame-send_message peers msg =
          search (keeps_rules, fr.preorder, mf.step_free, Frame-send_to) depth 7

      Frame-send_each :
          (peers : Assoc ℕ Raft) (msgs : List Message) → Keeps R (send_each env peers msgs)
      unfolding send_each
      Frame-send_each peers [] = search (keeps_rules, fr.preorder)
      Frame-send_each peers (msg ∷ msgs) =
          Keeps-bind fr.preorder _ _ (Frame-send_message peers msg)
            (λ sent. Frame-send_each peers msgs)

      pub Frame-send_messages : (msgs : List Message) → Keeps R (send_messages env msgs)
      unfolding send_messages
      Frame-send_messages msgs =
          search (keeps_rules, fr.preorder, Frame-view_peers fr, Frame-send_each)

    -- A relation that also the membership changes handed on to etcd keep.
    module _ (pf : PeersFree R)
        (applies : (cc : ConfChange) → Keeps R (emit (Act.apply_conf_change cc))) where
      pub Frame-conf_change_bytes : (o : Option Bytes) → Keeps R (conf_change_bytes env o)
      unfolding conf_change_bytes
      Frame-conf_change_bytes none = search (keeps_rules, fr.preorder)
      Frame-conf_change_bytes (some bytes) =
          search (keeps_rules, fr.preorder, Frame-change_members pf, applies) depth 7

      pub Frame-apply_entry_as :
          ItemsFree R → (t : EntryType) (entry : Entry) → Keeps R (apply_entry_as env t entry)
      unfolding apply_entry_as add_conf_change
      Frame-apply_entry_as itf entry_normal entry = Frame-add_entry itf entry
      Frame-apply_entry_as itf entry_conf_change entry = Frame-conf_change_bytes entry.payload
      Frame-apply_entry_as itf _ entry = search (keeps_rules, fr.preorder)

      pub Frame-apply_entries :
          ItemsFree R → (entries : List Entry) → Keeps R (apply_entries env entries)
      unfolding apply_entries
      Frame-apply_entries itf [] = search (keeps_rules, fr.preorder)
      Frame-apply_entries itf (entry ∷ entries) =
          Keeps-bind fr.preorder _ _ (Frame-apply_entry_as itf entry.type entry)
            (λ applied. Frame-apply_entries itf entries)

-- A relation that every call keeps, a round keeps.
module _ {R : Node → Node → Type 0} (pre : IsPreorder R)
    (any_call : (A : Type 0) (a : Act) (f : Trace → A) → Keeps R (call a f)) where
  any_frame : IsFrame R
  any_frame = record { preorder = pre; quiet_call = λ A a f q. any_call A a f }

  pub Frame-do_ready :
      PeersFree R → ItemsFree R → (env : Env) (r : Ready) → Keeps R (do_ready env r)
  unfolding do_ready after_store
  Frame-do_ready pf itf env r =
      search
        (
          keeps_rules,
          pre,
          any_call,
          Frame-send_messages any_frame env (any_call-MessageFree any_call),
          Frame-apply_entries any_frame env pf
              (λ cc. any_call ⊤ (Act.apply_conf_change cc) (λ t. tt)) itf,
        )
        depth 9

Returns-notify : (f : Option (Trace → Item → Option Error)) (item : Item) → Returns (notify f item)
unfolding notify
Returns-notify none item = search returns_rules
Returns-notify (some f) item = search returns_rules

Returns-report : (id : ℕ) (r : Result ⊤) → Returns (report id r)
unfolding report
Returns-report id (ok done) = search returns_rules
Returns-report id (err e) = search returns_rules

module _ (env : Env) where
  Returns-add_bytes : (o : Option Bytes) → Returns (add_bytes env o)
  unfolding add_bytes
  Returns-add_bytes none = search returns_rules
  Returns-add_bytes (some bytes) = search (returns_rules, Returns-notify)

  pub Returns-change_members :
      (t : ConfChangeType) (cc : ConfChange) → Returns (change_members env t cc)
  unfolding change_members
  Returns-change_members add_node cc = Returns-apply_add_node env cc
  Returns-change_members remove_node cc = Returns-apply_remove_node env cc
  Returns-change_members _ cc = search returns_rules

  Returns-conf_change_bytes : (o : Option Bytes) → Returns (conf_change_bytes env o)
  unfolding conf_change_bytes
  Returns-conf_change_bytes none = search returns_rules
  Returns-conf_change_bytes (some bytes) = search (returns_rules, Returns-change_members) depth 7

  pub Returns-apply_entry_as :
      (t : EntryType) (entry : Entry) → Returns (apply_entry_as env t entry)
  unfolding apply_entry_as add_conf_change add_entry
  Returns-apply_entry_as entry_normal entry = search (returns_rules, Returns-add_bytes)
  Returns-apply_entry_as entry_conf_change entry = Returns-conf_change_bytes entry.payload
  Returns-apply_entry_as _ entry = search returns_rules

  Returns-apply_entries : (entries : List Entry) → Returns (apply_entries env entries)
  unfolding apply_entries
  Returns-apply_entries [] = search returns_rules
  Returns-apply_entries (entry ∷ entries) =
      Returns-bind _ _ (Returns-apply_entry_as entry.type entry)
        (λ applied. Returns-apply_entries entries)

  Returns-send_to : (msg : Message) (o : Option Raft) → Returns (send_to env msg o)
  unfolding send_to
  Returns-send_to msg none = search returns_rules
  Returns-send_to msg (some peer) =
      search (returns_rules, Returns-take_ref, Returns-rpc_send, Returns-report)

  Returns-send_message :
      (peers : Assoc ℕ Raft) (msg : Message) → Returns (send_message env peers msg)
  unfolding send_message
  Returns-send_message peers msg = search (returns_rules, Returns-send_to) depth 7

  Returns-send_each :
      (peers : Assoc ℕ Raft) (msgs : List Message) → Returns (send_each env peers msgs)
  unfolding send_each
  Returns-send_each peers [] = search returns_rules
  Returns-send_each peers (msg ∷ msgs) =
      Returns-bind _ _ (Returns-send_message peers msg) (λ sent. Returns-send_each peers msgs)

  pub Returns-send_messages : (msgs : List Message) → Returns (send_messages env msgs)
  unfolding send_messages
  Returns-send_messages msgs = search (returns_rules, Returns-view_peers, Returns-send_each)

  pub Returns-do_ready : (ready : Ready) → Returns (do_ready env ready)
  unfolding do_ready after_store
  Returns-do_ready ready =
      search (returns_rules, Returns-send_messages, Returns-apply_entries) depth 9
