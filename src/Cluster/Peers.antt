-- ===== src/Cluster/Peers.antt =====
-- What joining and leaving do to the peers that a node knows, and to the references it holds.
use raft_capnp.Prelude.{
  ◌≡◌, ◌≢◌, ℕ, suc, Option, none, some, ⊤, arith, inl, inr, if◌then◌else◌, length,
}
use raft_capnp.Prelude.Eq.{◌==◌, nat_eq}
use raft_capnp.Prelude.Assoc.{lookup, lookup-erase}
use raft_capnp.Data.{client, ConfChange}
use raft_capnp.Effect.{Act, Env, Node, done, take_ref, drop_ref, ◌>>=◌}
use raft_capnp.Effect.Keeps.{Outcome-cases}
use raft_capnp.Effect.Frames.{select, OnlyTrace-IsFrame}
use raft_capnp.View.{pop_peer}
use raft_capnp.Cluster.{unregister, step_down, apply_remove_node}
use raft_capnp.Cluster.Frames.{Frame-step_down, Returns-step_down}

-- After `unregister` of another node that node is unknown, and every other peer is as before; of
-- the node itself it changes nothing at all.
unregister_peers :
    (id j : ℕ) (n : Node)
    → lookup j (unregister id n).1.peers
      ≡ (if n.id == id then lookup j n.peers else if id == j then none else lookup j n.peers)
unfolding unregister pop_peer take_ref drop_ref ◌>>=◌
unregister_peers id j n = ground (arith, lookup-erase id j n.peers)

unregister_done : (id : ℕ) (n : Node) → (unregister id n).0 ≡ done tt
unfolding unregister pop_peer take_ref drop_ref ◌>>=◌
unregister_done id n = ground arith

-- References of a capability that a trace takes, and that it gives back.
abbrev pub taken : ℕ → Act → Option ⊤
taken c (Act.add_ref (client d)) = if d == c then some tt else none
taken c _ = none

abbrev pub given_back : ℕ → Act → Option ⊤
given_back c (Act.release (client d)) = if d == c then some tt else none
given_back c _ = none

-- `unregister` of a peer that is not the node itself takes one reference of it and releases one:
-- the reference that the peer list held is never released.
pub unregister_keeps_reference :
    (id c : ℕ) (n : Node)
    → n.id ≢ id
    → lookup id n.peers ≡ some (client c)
    → (length (select (taken c) (unregister id n).1.trace)
        ≡ suc (length (select (taken c) n.trace)))
      × (length (select (given_back c) (unregister id n).1.trace)
          ≡ suc (length (select (given_back c) n.trace)))
unfolding unregister pop_peer take_ref drop_ref ◌>>=◌
unregister_keeps_reference id c n other known = ground arith

-- Removing another node from the cluster makes it unknown and keeps every other peer, also if the
-- campaign that the removal may ask for fails; the campaign's outcome is the outcome.
apply_remove_node_peers :
    (env : Env) (cc : ConfChange) (j : ℕ) (n : Node)
    → n.id ≢ cc.node_id
    → (lookup j (apply_remove_node env cc n).1.peers
        ≡ (if cc.node_id == j then none else lookup j n.peers))
      × ((apply_remove_node env cc n).0 ≡ (step_down env cc n).0)
unfolding apply_remove_node
apply_remove_node_peers env cc j n other =
    let m = step_down env cc in
    let n' = (m n).1 in
    let frame = (Frame-step_down OnlyTrace-IsFrame env cc).at n in
    elim (Outcome-cases (m n).0 ((Returns-step_down env cc).at n)) [
      | inl (x, e) ↦
          unfold ◌>>=◌ in
          rw e
            (ground (arith, unregister_peers cc.node_id j n', unregister_done cc.node_id n', frame))
      | inr (x, e) ↦
          unfold ◌>>=◌ in
          rw e
            (ground (arith, unregister_peers cc.node_id j n', unregister_done cc.node_id n', frame))
    ]
