-- ===== src/Tests/Peers.antt =====
-- Runs of what changes the peers of a node.
use raft_capnp.Prelude.{refl, ◌≡◌, ◌≢◌, ◌≤◌, arith, length}
use raft_capnp.Prelude.Eq.{nat_eq}
use raft_capnp.Prelude.Assoc.{insert}
use raft_capnp.Data.{node_not_found, Raft}
use raft_capnp.Effect.{Trace, replied, err, ◌>>=◌, take_ref, done, failed}
use raft_capnp.Effect.Frames.{select}
use raft_capnp.Helper.{rpc_get_id}
use raft_capnp.View.{add_peer, id_or_zero}
use raft_capnp.Cluster.{
  race_result, unregister, retrieve_with_timeout, after_attempt, retrieve_loop, register,
}
use raft_capnp.Cluster.Peers.{taken, given_back, unregister_keeps_reference}
use raft_capnp.Cluster.Join.{Found, register_done}
use raft_capnp.Cluster.Retries.{asks, asks-register, register_gives_up}
use raft_capnp.Tests.{healthy, broken, node_one}

one≢two : node_one.id ≢ 2
one≢two = omega arith

unregister_keeps_reference_example :
    (length (select (taken 2) (unregister 2 node_one).1.trace) ≡ 1)
    × (length (select (given_back 2) (unregister 2 node_one).1.trace) ≡ 1)
unregister_keeps_reference_example = unregister_keeps_reference 2 2 node_one one≢two refl

register_four : (register healthy 4 node_one).0 ≡ done tt
unfolding take_ref rpc_get_id add_peer race_result retrieve_with_timeout after_attempt retrieve_loop
    register ◌>>=◌
register_four = refl

register_done_example :
    (node : Raft) × Found healthy 4 node
    × (t : Trace) × ((register healthy 4 node_one).1.peers
        ≡ insert (id_or_zero (healthy.get_id t node)) node node_one.peers)
register_done_example = register_done healthy 4 node_one register_four

register_gives_up_example :
    ((register broken 4 node_one).0 ≡ failed node_not_found)
    × (asks (register broken 4 node_one).1.trace ≡ 3)
register_gives_up_example =
    register_gives_up broken 4 (replied (err node_not_found)) node_not_found (λ t. refl) refl
      (λ t. refl) node_one

asks-register_example : asks (register broken 4 node_one).1.trace ≤ 3
asks-register_example = asks-register broken 4 node_one
