-- ===== src/Loop/Agree.antt =====
-- Two nodes whose etcd commits one log: what their runs make of the nodes that they know.
use raft_capnp.Prelude.{ℕ, List}
use raft_capnp.Prelude.Eq.{nat_eq}
use raft_capnp.Data.{Bytes, Entry, ConfChange}
use raft_capnp.Effect.{Node, Result}
use raft_capnp.View.Abstract.{Peers, peers_of}
use raft_capnp.Apply.Membership.{replay_members}
use raft_capnp.Loop.{Loop}
use raft_capnp.Loop.Reach.{Reach}

-- The identifier of a node, with its peers.
abbrev Own : Type 0
Own = ℕ × Peers

abbrev own_view : Node → Own
own_view n = (n.id, peers_of n)

abbrev replay_own : (Bytes → Result ConfChange) → (ℕ → ℕ) → List Entry → Own → Own
replay_own decode at log s = (s.0, replay_members decode at s.0 log s.1)
