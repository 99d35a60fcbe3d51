-- ===== src/View/Frames.antt =====
-- The calls of raft/helper.go and raft/view.go keep every frame, and return.
use raft_capnp.Prelude.{ℕ, Option, none, some, [], ◌∷◌}
use raft_capnp.Prelude.Assoc.{Assoc}
use raft_capnp.Prelude.Eq.{nat_eq}
use raft_capnp.Data.{Raft, Message}
use raft_capnp.Effect.{Env, Node}
use raft_capnp.Effect.Keeps.{Keeps, Returns, Keeps-bind, Returns-bind, keeps_rules, returns_rules}
use raft_capnp.Effect.Frames.{IsFrame, PeersFree, MessageFree, Frame-take_ref, Returns-take_ref}
use raft_capnp.Helper.{rpc_get_id, rpc_send}
use raft_capnp.View.{copy_peers, view_peers, add_peer, shared_or_null, pop_peer}

module _ {R : Node → Node → Type 0} (fr : IsFrame R) where
  pub Frame-rpc_get_id : (env : Env) (c : Raft) → Keeps R (rpc_get_id env c)
  unfolding rpc_get_id
  Frame-rpc_get_id env c = search (keeps_rules, fr.preorder, fr.quiet_call)

  pub Frame-rpc_send :
      MessageFree R → (env : Env) (c : Raft) (msg : Message) → Keeps R (rpc_send env c msg)
  unfolding rpc_send
  Frame-rpc_send mf env c msg = search (keeps_rules, fr.preorder, mf.send_free)

  Frame-copy_peers : (m : Assoc ℕ Raft) → Keeps R (copy_peers m)
  unfolding copy_peers
  Frame-copy_peers [] = search (keeps_rules, fr.preorder)
  Frame-copy_peers (e ∷ m) =
      Keeps-bind fr.preorder _ _ (Frame-take_ref fr e.1)
        (λ peer. search (keeps_rules, fr.preorder, Frame-copy_peers m))

  pub Frame-view_peers : Keeps R view_peers
  unfolding view_peers
  Frame-view_peers = search (keeps_rules, fr.preorder, Frame-copy_peers)

  pub Frame-add_peer : PeersFree R → (env : Env) (c : Raft) → Keeps R (add_peer env c)
  unfolding add_peer
  Frame-add_peer pf env c =
      search (keeps_rules, fr.preorder, Frame-take_ref fr, Frame-rpc_get_id env, pf) depth 9

  Frame-shared_or_null : (o : Option Raft) → Keeps R (shared_or_null o)
  Frame-shared_or_null none = search (keeps_rules, fr.preorder)
  Frame-shared_or_null (some c) = Frame-take_ref fr c

  pub Frame-pop_peer : PeersFree R → (id : ℕ) → Keeps R (pop_peer id)
  unfolding pop_peer
  Frame-pop_peer pf id = search (keeps_rules, fr.preorder, pf, Frame-shared_or_null)

pub Returns-rpc_get_id : (env : Env) (c : Raft) → Returns (rpc_get_id env c)
unfolding rpc_get_id
Returns-rpc_get_id env c = search returns_rules

pub Returns-rpc_send : (env : Env) (c : Raft) (msg : Message) → Returns (rpc_send env c msg)
unfolding rpc_send
Returns-rpc_send env c msg = search returns_rules

Returns-copy_peers : (m : Assoc ℕ Raft) → Returns (copy_peers m)
unfolding copy_peers
Returns-copy_peers [] = search returns_rules
Returns-copy_peers (e ∷ m) =
    Returns-bind _ _ (Returns-take_ref e.1) (λ peer. search (returns_rules, Returns-copy_peers m))

pub Returns-view_peers : Returns view_peers
unfolding view_peers
Returns-view_peers = search (returns_rules, Returns-copy_peers)

pub Returns-add_peer : (env : Env) (c : Raft) → Returns (add_peer env c)
unfolding add_peer
Returns-add_peer env c = search (returns_rules, Returns-take_ref, Returns-rpc_get_id) depth 9

Returns-shared_or_null : (o : Option Raft) → Returns (shared_or_null o)
Returns-shared_or_null none = search returns_rules
Returns-shared_or_null (some c) = Returns-take_ref c

pub Returns-pop_peer : (id : ℕ) → Returns (pop_peer id)
unfolding pop_peer
Returns-pop_peer id = search (returns_rules, Returns-shared_or_null)
