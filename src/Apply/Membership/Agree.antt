-- ===== src/Apply/Membership/Agree.antt =====
-- Two nodes that handle the same committed entries agree on the other nodes.
use raft_capnp.Prelude.{
  refl, ◌≡◌, ◌≢◌, ◌∙◌, sym, ap, ℕ, Option, none, some, List, [], ◌∷◌, arith, nat_beq_iff,
  if◌then◌else◌,
}
use raft_capnp.Prelude.Assoc.{lookup}
use raft_capnp.Prelude.Eq.{◌==◌, nat_eq}
use raft_capnp.Data.{
  Bytes, Raft, client, Entry, ConfChangeType, add_node, remove_node, ConfChange, Ready,
}
use raft_capnp.Effect.{Env, Node, Result, done}
use raft_capnp.View.Abstract.{Peers, peers_of, known, known-learn, known-forget, known-peers_of}
use raft_capnp.Apply.{do_ready}
use raft_capnp.Apply.Members.{change_of}
use raft_capnp.Apply.Membership.{Reachable, changed, change_peers, replay_members}
use raft_capnp.Apply.Membership.Rounds.{members_from_round}

-- What a change does to the capability that the node `j` is known under.
abbrev pub known_after : (ℕ → ℕ) → ℕ → ConfChangeType → ℕ → Option Raft → Option Raft
known_after at j add_node id k = if id == j then some (client (at id)) else k
known_after at j remove_node id k = if id == j then none else k
known_after at j _ id k = k

abbrev pub known_change : (ℕ → ℕ) → ℕ → Option ConfChange → Option Raft → Option Raft
known_change at j none k = k
known_change at j (some change) k = known_after at j change.type change.node_id k

abbrev pub known_log :
    (Bytes → Result ConfChange) → (ℕ → ℕ) → ℕ → List Entry → Option Raft → Option Raft
known_log decode at j [] k = k
known_log decode at j (entry ∷ entries) k =
    known_log decode at j entries (known_change at j (change_of decode entry.type entry.payload) k)

module _ (at : ℕ → ℕ) (self j : ℕ) (other : self ≢ j) where
  known-changed :
      (t : ConfChangeType) (id : ℕ) (v : Peers)
      → known j (changed at self t id v) ≡ known_after at j t id (known j v)
  known-changed add_node id v = known-learn id j (client (at id)) v
  known-changed remove_node id v =
      ground (arith, known-forget id j v, nat_beq_iff self id, nat_beq_iff id j)
  known-changed _ id v = refl

  known-change_peers :
      (o : Option ConfChange) (v : Peers)
      → known j (change_peers at self o v) ≡ known_change at j o (known j v)
  known-change_peers none v = refl
  known-change_peers (some change) v = known-changed change.type change.node_id v

  pub known-replay_members :
      (decode : Bytes → Result ConfChange) (log : List Entry) (v : Peers)
      → known j (replay_members decode at self log v) ≡ known_log decode at j log (known j v)
  known-replay_members decode [] v = refl
  known-replay_members decode (entry ∷ log) v =
      let o = change_of decode entry.type entry.payload in
      known-replay_members decode log (change_peers at self o v)
      ∙ ap (known_log decode at j log) (known-change_peers o v)

known-round :
    (env : Env) (at : ℕ → ℕ) (ready : Ready) (n : Node) (j : ℕ)
    → Reachable env at
    → n.id ≢ j
    → (do_ready env ready n).0 ≡ done tt
    → lookup j (do_ready env ready n).1.peers
      ≡ known_log env.unmarshal_conf_change at j ready.committed_entries (lookup j n.peers)
known-round env at ready n j reach other h =
    sym (known-peers_of j (do_ready env ready n).1)
    ∙ ap (known j) (members_from_round env at ready n reach h)
    ∙ known-replay_members at n.id j other env.unmarshal_conf_change ready.committed_entries
        (peers_of n)
    ∙ ap (known_log env.unmarshal_conf_change at j ready.committed_entries) (known-peers_of j n)

-- In a cluster whose nodes are all found at once, and tell their identifiers: if two nodes know a
-- third node alike, decode alike, and both succeed at a round with the same committed entries, they
-- know that third node alike afterwards: under the same capability, or not at all.
members_agree :
    (env₁ env₂ : Env) (at : ℕ → ℕ) (ready₁ ready₂ : Ready) (n₁ n₂ : Node) (j : ℕ)
    → Reachable env₁ at
    → Reachable env₂ at
    → env₁.unmarshal_conf_change ≡ env₂.unmarshal_conf_change
    → ready₁.committed_entries ≡ ready₂.committed_entries
    → n₁.id ≢ j
    → n₂.id ≢ j
    → lookup j n₁.peers ≡ lookup j n₂.peers
    → (do_ready env₁ ready₁ n₁).0 ≡ done tt
    → (do_ready env₂ ready₂ n₂).0 ≡ done tt
    → lookup j (do_ready env₁ ready₁ n₁).1.peers ≡ lookup j (do_ready env₂ ready₂ n₂).1.peers
members_agree env₁ env₂ at ready₁ ready₂ n₁ n₂ j r₁ r₂ decode log other₁ other₂ alike h₁ h₂ =
    let first = known-round env₁ at ready₁ n₁ j r₁ other₁ h₁ in
    let second = known-round env₂ at ready₂ n₂ j r₂ other₂ h₂ in cc (first, second)
