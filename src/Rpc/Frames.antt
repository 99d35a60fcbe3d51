-- ===== src/Rpc/Frames.antt =====
-- The served methods of raft/capnp.go, but `Send`, keep every frame.
use raft_capnp.Prelude.{refl, ℕ, Option, none, some, List, [], ◌∷◌}
use raft_capnp.Prelude.Assoc.{Assoc}
use raft_capnp.Prelude.Eq.{nat_eq}
use raft_capnp.Data.{Error, Raft, Item}
use raft_capnp.Effect.{Env, Node, Action, Result, ok, err, ◌>>=◌}
use raft_capnp.Effect.Keeps.{Keeps, Keeps-bind, Keeps-try, keeps_rules}
use raft_capnp.Effect.Frames.{IsFrame, Frame-take_ref}
use raft_capnp.View.Frames.{Frame-rpc_get_id, Frame-view_peers}
use raft_capnp.Rpc.{
  set_each, peer_list, reply_nodes, add, remove, put_item, handle_add, handle_remove, handle_put,
  handle_id,
}

module _ {R : Node → Node → Type 0} (fr : IsFrame R) where
  bind :
      {A B : Type 0} {m : Action A} {k : A → Action B}
      → Keeps R m
      → ((a : A) → Keeps R (k a))
      → Keeps R (m >>= k)
  bind {m = m} {k = k} km kk = Keeps-bind fr.preorder m k km kk

  Frame-set_each : (nodes : List Raft) → Keeps R (set_each nodes)
  unfolding set_each
  Frame-set_each [] = search (keeps_rules, fr.preorder)
  Frame-set_each (node ∷ nodes) =
      bind (Frame-take_ref fr node) (λ c. search (keeps_rules, fr.preorder, Frame-set_each nodes))

  Frame-peer_list : (m : Assoc ℕ Raft) → Keeps R (peer_list m)
  unfolding peer_list
  Frame-peer_list [] = search (keeps_rules, fr.preorder)
  Frame-peer_list (e ∷ m) =
      bind (Frame-take_ref fr e.1) (λ c. search (keeps_rules, fr.preorder, Frame-peer_list m))

  Frame-reply_nodes :
      (new_nodes set_nodes : Option Error) (res : Result (List Raft))
      → Keeps R (reply_nodes new_nodes set_nodes res)
  unfolding reply_nodes
  Frame-reply_nodes new_nodes set_nodes (err e) = search (keeps_rules, fr.preorder)
  Frame-reply_nodes (some e) set_nodes (ok nodes) = search (keeps_rules, fr.preorder)
  Frame-reply_nodes none set_nodes (ok nodes) = search (keeps_rules, fr.preorder, Frame-set_each)

  module _ (env : Env) where
    Frame-add : (node : Raft) → Keeps R (add env node)
    unfolding add
    Frame-add node = bind (Frame-take_ref fr node) (λ held. bind (fr.quiet_call _ _ _ refl) (λ o.
        bind (search (keeps_rules, fr.preorder)) (λ resolved.
          bind (Frame-take_ref fr held) (λ asked. bind (Frame-rpc_get_id fr env asked) (λ id.
            bind (fr.quiet_call _ _ _ refl) (λ o'.
              bind (search (keeps_rules, fr.preorder)) (λ proposed.
                bind (Frame-view_peers fr)
                  (λ pm. search (keeps_rules, fr.preorder, Frame-peer_list)))))))))

    Frame-remove : (node : Raft) → Keeps R (remove env node)
    unfolding remove
    Frame-remove node =
        search (keeps_rules, fr.preorder, fr.quiet_call, Frame-take_ref fr, Frame-rpc_get_id fr)
          depth 9

    Frame-put_item : (item : Item) → Keeps R (put_item env item)
    unfolding put_item
    Frame-put_item item = search (keeps_rules, fr.preorder, fr.quiet_call)

    pub Frame-handle_add :
        (results new_nodes set_nodes : Option Error) (node : Raft)
        → Keeps R (handle_add env results new_nodes set_nodes node)
    unfolding handle_add
    Frame-handle_add (some e) new_nodes set_nodes node = search (keeps_rules, fr.preorder)
    Frame-handle_add none new_nodes set_nodes node =
        bind (Keeps-try _ (Frame-add node)) (Frame-reply_nodes new_nodes set_nodes)

    pub Frame-handle_remove :
        (results : Option Error) (node : Raft) → Keeps R (handle_remove env results node)
    unfolding handle_remove
    Frame-handle_remove (some e) node = search (keeps_rules, fr.preorder)
    Frame-handle_remove none node =
        bind (Frame-take_ref fr node) (λ shared. search (keeps_rules, fr.preorder, Frame-remove))

    pub Frame-handle_put :
        (results arg : Option Error) (item : Result Item)
        → Keeps R (handle_put env results arg item)
    unfolding handle_put
    Frame-handle_put (some e) arg item = search (keeps_rules, fr.preorder)
    Frame-handle_put none (some e) item = search (keeps_rules, fr.preorder)
    Frame-handle_put none none (err e) = search (keeps_rules, fr.preorder)
    Frame-handle_put none none (ok item) = search (keeps_rules, fr.preorder, Frame-put_item)

  pub Frame-handle_id : (results : Option Error) → Keeps R (handle_id results)
  unfolding handle_id
  Frame-handle_id (some e) = search (keeps_rules, fr.preorder)
  Frame-handle_id none = search (keeps_rules, fr.preorder)
