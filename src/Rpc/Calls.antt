-- ===== src/Rpc/Calls.antt =====
-- The calls that other goroutines serve while the loop of the node runs, as steps of the node.
use raft_capnp.Prelude.{Option, none, some, Bool}
use raft_capnp.Data.{Bytes, Error, Raft, Item}
use raft_capnp.Effect.{Env, Node, Action, Result, ok, err, lift, ◌>>=◌}
use raft_capnp.Effect.Keeps.{IsPreorder, Keeps, keeps_rules}
use raft_capnp.Effect.Frames.{IsFrame}
use raft_capnp.Rpc.{
  after_test, send, handle_add, handle_remove, handle_send, handle_put, handle_items,
  handle_members, handle_id,
}
use raft_capnp.Rpc.Frames.{Frame-handle_add, Frame-handle_remove, Frame-handle_put, Frame-handle_id}
use raft_capnp.Pause.{lock, is_paused}
use raft_capnp.Pause.Frames.{
  SameData, IsQueueFrame, data_queue, Frame-lock, Frame-is_paused, Frame-enqueue, Frame-raft_step,
}

-- A served call, with what reading its arguments and allocating its results answer. `going_on_send`
-- is the end of a `Send` whose test of the pause flag came earlier, with the answer that the test gave
-- then: in between, the flag may have changed.
pub data Call : Type 0 where
  calling_add : Option Error → Option Error → Option Error → Raft → Call
  calling_remove : Option Error → Raft → Call
  calling_send : Option Error → Result Bytes → Call
  going_on_send : Bool → Bytes → Call
  calling_put : Option Error → Option Error → Result Item → Call
  calling_items calling_members : Call
  calling_id : Option Error → Call

-- The end of a `Send` that has read the flag.
unfoldable pub end_of_send : Env → Bool → Bytes → Action (Unit {0})
end_of_send env paused encoded = do
  msg ← lift (env.unmarshal_message encoded)
  after_test env paused msg

-- The node after a call, also where the call waits.
unfoldable pub serve : Env → Call → Node → Node
serve env (calling_add results new_nodes set_nodes node) n =
    (handle_add env results new_nodes set_nodes node n).1
serve env (calling_remove results node) n = (handle_remove env results node n).1
serve env (calling_send results arg) n = (handle_send env results arg n).1
serve env (going_on_send paused encoded) n = (end_of_send env paused encoded n).1
serve env (calling_put results arg item) n = (handle_put env results arg item n).1
serve env calling_items n = (handle_items n).1
serve env calling_members n = (handle_members n).1
serve env (calling_id results) n = (handle_id results n).1

module _ {R : Node → Node → Type 0} (qr : IsQueueFrame R) (env : Env) where
  pre : IsPreorder R
  pre = qr.pauses.frame.preorder

  asked : Keeps R is_paused
  asked = Frame-is_paused qr.pauses

  held : Keeps R lock
  held = Frame-lock qr.pauses

  Frame-send : (encoded : Bytes) → Keeps R (send env encoded)
  unfolding send
  Frame-send encoded =
      search
        (keeps_rules, pre, asked, held, qr.pauses.hold, Frame-enqueue qr, Frame-raft_step qr env)
        depth 12

  pub Frame-end_of_send :
      (paused : Bool) (encoded : Bytes) → Keeps R (end_of_send env paused encoded)
  unfolding end_of_send
  Frame-end_of_send paused encoded =
      search (keeps_rules, pre, held, qr.pauses.hold, Frame-enqueue qr, Frame-raft_step qr env)
        depth 12

  pub Frame-handle_send :
      (results : Option Error) (arg : Result Bytes) → Keeps R (handle_send env results arg)
  unfolding handle_send
  Frame-handle_send (some e) arg = search (keeps_rules, pre)
  Frame-handle_send none (err e) = search (keeps_rules, pre)
  Frame-handle_send none (ok encoded) = search (keeps_rules, pre, Frame-send)

-- What every frame and the served `Send` keep, a served call keeps.
module _ {R : Node → Node → Type 0} (fr : IsFrame R) (env : Env)
    (sends : (results : Option Error) (arg : Result Bytes) → Keeps R (handle_send env results arg))
    (ends : (paused : Bool) (encoded : Bytes) → Keeps R (end_of_send env paused encoded)) where
  pub Frame-serve : (c : Call) (n : Node) → R n (serve env c n)
  unfolding serve handle_items handle_members ◌>>=◌
  Frame-serve (calling_add results new_nodes set_nodes node) n =
      (Frame-handle_add fr env results new_nodes set_nodes node).at n
  Frame-serve (calling_remove results node) n = (Frame-handle_remove fr env results node).at n
  Frame-serve (calling_send results arg) n = (sends results arg).at n
  Frame-serve (going_on_send paused encoded) n = (ends paused encoded).at n
  Frame-serve (calling_put results arg item) n = (Frame-handle_put fr env results arg item).at n
  Frame-serve calling_items n = fr.preorder.refl_at n
  Frame-serve calling_members n = fr.preorder.refl_at n
  Frame-serve (calling_id results) n = (Frame-handle_id fr results).at n

-- A served call, whatever it asks and however it ends, leaves the identifier, the peers and the
-- items of the node as they are.
pub serve-SameData : (env : Env) (c : Call) (n : Node) → SameData n (serve env c n)
serve-SameData env c n =
    Frame-serve data_queue.pauses.frame env (Frame-handle_send data_queue env)
      (Frame-end_of_send data_queue env) c n
