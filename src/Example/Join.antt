-- ===== src/Example/Join.antt =====
-- A node joins: from `Add` at one node to the peers of another.
use raft_capnp.Prelude.{nat_beq_iff, refl, ◌≡◌, ◌∙◌, ap, ℕ, some, List, ◌∷◌, arith}
use raft_capnp.Prelude.Assoc.{Assoc, lookup, insert, lookup-insert}
use raft_capnp.Prelude.Eq.{nat_eq}
use raft_capnp.Data.{Bytes, Raft, client, Entry}
use raft_capnp.Effect.{Trace, Env, Node, replied, ok, done, ◌>>=◌}
use raft_capnp.Effect.Frames.{select}
use raft_capnp.Cluster.Finds.{register-finds}
use raft_capnp.Cluster.{apply_add_node}
use raft_capnp.Apply.{change_members, conf_change_bytes, add_conf_change}
use raft_capnp.Rpc.{add}
use raft_capnp.Rpc.Proposals.{proposed}
use raft_capnp.Rpc.Answers.{joining, add_answers}
use raft_capnp.Example.{or_not_found, retrieve}

-- A node whose retrieval is that of the example, on the map `nodes`.
abbrev pub example_env : Assoc ℕ Raft → Env → Env
example_env nodes env = record env { retrieval = λ t id. replied (retrieve nodes id) }

module _ (env : Env) (id k : ℕ) (found : (t : Trace) → env.retrieval t id ≡ replied (ok (client k)))
    (asked : (t : Trace) → env.get_id t (client k) ≡ ok id) where
  -- A committed change that lets the node join makes the capability that was found its peer.
  joins-entry :
      (entry : Entry) (bytes : Bytes) (n : Node)
      → entry.payload ≡ some bytes
      → env.unmarshal_conf_change bytes ≡ ok (joining env id)
      → ((add_conf_change env entry n).0 ≡ done tt)
        × ((add_conf_change env entry n).1.peers ≡ insert id (client k) n.peers)
  unfolding add_conf_change conf_change_bytes change_members apply_add_node ◌>>=◌
  joins-entry entry bytes n payload decoded =
      let (finds, peers) = register-finds env id k found asked n in
      rw (payload, decoded, finds) (refl, peers)

-- Where the map of the example has the node: if `add` of it succeeds at some node, the change that
-- lets it join has been proposed there; and once an entry with that change is applied, at whatever
-- node, that has succeeded and the node that joins is a peer there under its identifier.
pub joined_is_peer :
    (nodes : Assoc ℕ Raft) (env : Env) (id k : ℕ) (n n' : Node) (answer : List Raft) (entry : Entry)
    (bytes : Bytes)
    → lookup id nodes ≡ some (client k)
    → ((t : Trace) → env.get_id t (client k) ≡ ok id)
    → (add (example_env nodes env) (client k) n).0 ≡ done answer
    → entry.payload ≡ some bytes
    → env.unmarshal_conf_change bytes ≡ ok (joining env id)
    → (select proposed (add (example_env nodes env) (client k) n).1.trace
        ≡ joining env id ∷ select proposed n.trace)
      × ((add_conf_change (example_env nodes env) entry n').0 ≡ done tt)
      × (lookup id (add_conf_change (example_env nodes env) entry n').1.peers ≡ some (client k))
unfolding retrieve
joined_is_peer nodes env id k n n' answer entry bytes known asked added payload decoded =
    let e = example_env nodes env in
    let (id', t, t', asks, proposes, peers) = add_answers e (client k) n answer added in
    let same : id' ≡ id = cc (asks, asked t) in
    let (applies, now) =
      joins-entry e id k (λ t. ap (λ o. replied (or_not_found o)) known) asked entry bytes n'
        payload decoded in
    (
      rw same at proposes,
      applies,
      ap (lookup id) now
          ∙ lookup-insert id id (client k) n'.peers
          ∙ ground (arith, nat_beq_iff id id),
    )
