-- ===== src/Cluster/Finds.antt =====
-- `register` where the first retrieval finds the node.
use raft_capnp.Prelude.{refl, ◌≡◌, ℕ, ◌∷◌}
use raft_capnp.Prelude.Eq.{nat_eq}
use raft_capnp.Prelude.Assoc.{insert}
use raft_capnp.Data.{client}
use raft_capnp.Effect.{Act, Trace, Env, Node, replied, ok, done, take_ref, ◌>>=◌}
use raft_capnp.Helper.{rpc_get_id}
use raft_capnp.View.{add_peer}
use raft_capnp.Cluster.{race_result, retrieve_with_timeout, after_attempt, retrieve_loop, register}

module _ (env : Env) (id k : ℕ) (found : (t : Trace) → env.retrieval t id ≡ replied (ok (client k)))
    (asked : (t : Trace) → env.get_id t (client k) ≡ ok id) where
  -- The trace when the found node is asked for its identifier.
  abbrev four_refs : Trace → Trace
  four_refs t =
      Act.add_ref (client k)
      ∷ Act.add_ref (client k)
      ∷ Act.add_ref (client k)
      ∷ Act.add_ref (client k)
      ∷ Act.retrieve id
      ∷ t

  -- `register` of a node that is found at once and tells its identifier makes it a peer.
  pub register-finds :
      (n : Node)
      → ((register env id n).0 ≡ done tt)
        × ((register env id n).1.peers ≡ insert id (client k) n.peers)
  unfolding register retrieve_loop retrieve_with_timeout race_result after_attempt take_ref add_peer
      rpc_get_id ◌>>=◌
  register-finds n = rw (found n.trace) (rw (asked (four_refs n.trace)) (refl, refl))
