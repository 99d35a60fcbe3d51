-- ===== src/View.antt =====
-- raft/view.go: the peers that a node knows, under their Raft identifiers.
pub mod Frames
pub mod Abstract
use raft_capnp.Prelude.{Option, ℕ, ⊤, none, some, [], ◌∷◌}
use raft_capnp.Prelude.Eq.{nat_eq}
use raft_capnp.Prelude.Assoc.{Assoc, lookup, insert, erase}
use raft_capnp.Data.{Raft, null}
use raft_capnp.Effect.{Env, Action, Result, ok, err, pure, gets, try, modify, take_ref, ◌>>=◌, ◌>>◌}
use raft_capnp.Helper.{rpc_get_id}

-- `NewView`
unfoldable pub new_view : Assoc ℕ Raft
new_view = []

-- The body of `Peers`: a new map, with a new reference of each peer. The references are taken in
-- the order in which the model stores the peers; no two of them interact.
unfoldable pub copy_peers : Assoc ℕ Raft → Action (Assoc ℕ Raft)
copy_peers [] = pure []
copy_peers (e ∷ m) = do peer ← take_ref e.1; rest ← copy_peers m; pure ((e.0, peer) ∷ rest)

unfoldable pub view_peers : Action (Assoc ℕ Raft)
view_peers = do copy_peers (← gets (λ n. n.peers))

-- `id, _ := rpcGetId(…)`: the error is dropped, and the identifier is then 0.
abbrev pub id_or_zero : Result ℕ → ℕ
id_or_zero (ok id) = id
id_or_zero (err e) = 0

unfoldable pub add_peer : Env → Raft → Action ⊤
add_peer env peer = do
  asked ← take_ref peer
  id ← try (rpc_get_id env asked)
  kept ← take_ref peer
  modify (λ n. record n { peers = insert (id_or_zero id) kept n.peers })

abbrev shared_or_null : Option Raft → Action Raft
shared_or_null none = pure null
shared_or_null (some peer) = take_ref peer

-- `LoadAndDelete`, and a new reference of what it found.
unfoldable pub pop_peer : ℕ → Action Raft
pop_peer id = do
  found ← gets (λ n. lookup id n.peers)
  modify (λ n. record n { peers = erase id n.peers })
  shared_or_null found
