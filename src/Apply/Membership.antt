-- ===== src/Apply/Membership.antt =====
-- The peers of a node as a replicated state: what the committed entries do to them, in a cluster
-- whose nodes can be found. The peers are taken without the order of the map that holds them.
pub mod Entries
pub mod Rounds
pub mod Agree
use mathlib.Core.Quot
use raft_capnp.Prelude.{
  refl, sym, ◌≡◌, ◌∙◌, ap, ℕ, Option, none, some, List, [], ◌∷◌, ◌++◌, ⊤, arith, inl, inr,
  Bool-cases, if◌then◌else◌,
}
use raft_capnp.Prelude.Eq.{◌==◌, nat_eq}
use raft_capnp.Prelude.Assoc.{erase}
use raft_capnp.Data.{
  Bytes, Error, client, Entry, EntryType, entry_normal, entry_conf_change, ConfChangeType, add_node,
  remove_node, ConfChange, Ready,
}
use raft_capnp.Effect.{
  Act, Trace, Env, Node, Result, replied, ok, err, done, emit, check, ◌>>=◌, take_ref, drop_ref,
}
use raft_capnp.Effect.Keeps.{
  Keeps, Result-cases, Outcome-cases, >>=-done, >>=-eq-done, >>=-eq-failed,
}
use raft_capnp.Effect.Frames.{IsFrame, PeersFree, ItemsFree, OnlyTrace, OnlyTrace-IsFrame}
use raft_capnp.View.{pop_peer}
use raft_capnp.View.Abstract.{Peers, peers_of, learn, forget}
use raft_capnp.Cluster.{unregister, step_down, apply_add_node, apply_remove_node}
use raft_capnp.Cluster.Frames.{Frame-step_down, Returns-step_down}
use raft_capnp.Cluster.Finds.{register-finds}
use raft_capnp.Apply.{
  change_members, conf_change_bytes, add_conf_change, apply_entry_as, apply_entries, send_messages,
  after_store, do_ready,
}
use raft_capnp.Apply.Frames.{
  Frame-add_entry, Frame-apply_entry_as, Frame-apply_entries, Frame-send_messages,
  Returns-change_members, Returns-apply_entry_as,
}
use raft_capnp.Apply.Entries.{storing}
use raft_capnp.Apply.Members.{change_of, change_of-ok, change_of-err}

-- Every node is found at once, under the capability `at id`, and tells its identifier.
pub record Reachable (env : Env) (at : ℕ → ℕ) : Type 0 where
  pub found : (t : Trace) (id : ℕ) → env.retrieval t id ≡ replied (ok (client (at id)))
  pub asked : (t : Trace) (id : ℕ) → env.get_id t (client (at id)) ≡ ok id

-- What a membership change does to the peers of the node `self`: the node that it adds is known
-- under its capability, and the node that it removes is forgotten, unless it is the node itself.
abbrev pub changed : (ℕ → ℕ) → ℕ → ConfChangeType → ℕ → Peers → Peers
changed at self add_node id v = learn id (client (at id)) v
changed at self remove_node id v = if self == id then v else forget id v
changed at self _ id v = v

abbrev pub change_peers : (ℕ → ℕ) → ℕ → Option ConfChange → Peers → Peers
change_peers at self none v = v
change_peers at self (some cc) v = changed at self cc.type cc.node_id v

-- The peers after a log of entries: every membership change that the log carries, in order.
abbrev pub replay_members : (Bytes → Result ConfChange) → (ℕ → ℕ) → ℕ → List Entry → Peers → Peers
replay_members decode at self [] v = v
replay_members decode at self (entry ∷ entries) v =
    replay_members decode at self entries
      (change_peers at self (change_of decode entry.type entry.payload) v)

pub replay_members-append :
    (decode : Bytes → Result ConfChange) (at : ℕ → ℕ) (self : ℕ) (xs ys : List Entry) (v : Peers)
    → replay_members decode at self (xs ++ ys) v
      ≡ replay_members decode at self ys (replay_members decode at self xs v)
replay_members-append decode at self [] ys v = refl
replay_members-append decode at self (x ∷ xs) ys v =
    replay_members-append decode at self xs ys
      (change_peers at self (change_of decode x.type x.payload) v)
