-- ===== src/Rpc/Losses.antt =====
-- A message that a served call of raft/capnp.go carries is not lost where the pause lock is free in
-- the end.
use raft_capnp.Prelude.{
  ap, ◌≡◌, ◌∙◌, Bool, true, false, one, Option, none, some, arith, if◌then◌else◌,
}
use raft_capnp.Data.{Bytes, Error, Message}
use raft_capnp.Effect.{Env, Node, Result, ok, err, done, lift, ◌>>=◌, ◌>>◌}
use raft_capnp.Effect.Keeps.{Keeps, Keeps-try, keeps_rules, >>=-done}
use raft_capnp.Pause.{lock, unlock, is_paused, enqueue, raft_step}
use raft_capnp.Pause.Losses.{
  AtLeast, NoneLost-refl, NoneLost-IsPreorder, NoneLost-IsFrame, AtLeast-first, AtLeast-guarded,
  AtLeast-raft_step, AtLeast-queued,
}
use raft_capnp.Rpc.{after_test, send, handle_send, handle_items, handle_members}
use raft_capnp.Rpc.Frames.{Frame-handle_add, Frame-handle_remove, Frame-handle_put, Frame-handle_id}
use raft_capnp.Rpc.Calls.{
  Call, calling_add, calling_remove, calling_send, calling_put, calling_items, calling_members,
  calling_id, going_on_send, end_of_send, serve,
}
use raft_capnp.Rpc.Counts.{of_decoded, of_call}

pub is_paused-free : (n : Node) → n.locked ≡ false → is_paused n ≡ (done n.paused, n)
unfolding is_paused lock ◌>>=◌
is_paused-free n free = rw free (ground (arith, free))

module _ (env : Env) (p : Message → Bool) where
  AtLeast-deliver :
      (msg : Message) (paused : Bool)
      → Keeps
          (AtLeast p (one (p msg)))
          (if paused then (lock >> (enqueue msg >> unlock)) else raft_step env msg)
  AtLeast-deliver msg false = AtLeast-raft_step p env msg
  AtLeast-deliver msg true = AtLeast-queued p msg

  AtLeast-arrives :
      (msg : Message)
      → Keeps (AtLeast p (one (p msg))) (
          is_paused >>= λ paused.
          if paused then (lock >> (enqueue msg >> unlock)) else raft_step env msg)
  AtLeast-arrives msg =
      AtLeast-guarded p (one (p msg)) _ (unfold is_paused lock ◌>>=◌ in λ n l. rw l) (λ n l after.
        let first = is_paused-free n l in
        let e =
          >>=-done
            (λ paused. if paused then (lock >> (enqueue msg >> unlock)) else raft_step env msg)
            is_paused n (ap (λ r. r.0) first)
          ∙ ap
              (λ r. (if n.paused then (lock >> (enqueue msg >> unlock)) else raft_step env msg) r.1)
              first in
        rw e (((AtLeast-deliver msg n.paused).at n).kept (rw e at after)).1)

  AtLeast-decoded :
      (r : Result Message)
      → Keeps (AtLeast p (of_decoded p r)) (
          lift r >>= λ msg. is_paused >>= λ paused.
          if paused then (lock >> (enqueue msg >> unlock)) else raft_step env msg)
  unfolding ◌>>=◌
  AtLeast-decoded (err e) = record { at = NoneLost-refl p }
  AtLeast-decoded (ok msg) = record { at = (AtLeast-arrives msg).at }

  AtLeast-send :
      (encoded : Bytes)
      → Keeps (AtLeast p (of_decoded p (env.unmarshal_message encoded))) (send env encoded)
  unfolding send
  AtLeast-send encoded = AtLeast-decoded (env.unmarshal_message encoded)

  AtLeast-handle_send :
      (results : Option Error) (arg : Result Bytes)
      → Keeps (AtLeast p (of_call env p (calling_send results arg))) (handle_send env results arg)
  unfolding handle_send
  AtLeast-handle_send (some e) arg = search (keeps_rules, NoneLost-IsPreorder)
  AtLeast-handle_send none (err e) = search (keeps_rules, NoneLost-IsPreorder)
  AtLeast-handle_send none (ok encoded) =
      AtLeast-first p (of_decoded p (env.unmarshal_message encoded))
        (Keeps-try _ (AtLeast-send encoded)) (λ res. search (keeps_rules, NoneLost-IsPreorder))

  AtLeast-ends :
      (paused : Bool) (r : Result Message)
      → Keeps (AtLeast p (of_decoded p r)) (lift r >>= λ msg. after_test env paused msg)
  unfolding ◌>>=◌
  AtLeast-ends paused (err e) = record { at = NoneLost-refl p }
  AtLeast-ends paused (ok msg) = record { at = (AtLeast-deliver msg paused).at }

  AtLeast-end_of_send :
      (paused : Bool) (encoded : Bytes)
      → Keeps
          (AtLeast p (of_decoded p (env.unmarshal_message encoded)))
          (end_of_send env paused encoded)
  unfolding end_of_send
  AtLeast-end_of_send paused encoded = AtLeast-ends paused (env.unmarshal_message encoded)

  -- A served call loses no message, and brings the one that it carries, where the lock is free in the
  -- end.
  pub serve-AtLeast : (c : Call) (n : Node) → AtLeast p (of_call env p c) n (serve env c n)
  unfolding serve handle_items handle_members ◌>>=◌
  serve-AtLeast (calling_add results new_nodes set_nodes node) n =
      (Frame-handle_add (NoneLost-IsFrame p) env results new_nodes set_nodes node).at n
  serve-AtLeast (calling_remove results node) n =
      (Frame-handle_remove (NoneLost-IsFrame p) env results node).at n
  serve-AtLeast (calling_send results arg) n = (AtLeast-handle_send results arg).at n
  serve-AtLeast (going_on_send paused encoded) n = (AtLeast-end_of_send paused encoded).at n
  serve-AtLeast (calling_put results arg item) n =
      (Frame-handle_put (NoneLost-IsFrame p) env results arg item).at n
  serve-AtLeast calling_items n = NoneLost-refl p n
  serve-AtLeast calling_members n = NoneLost-refl p n
  serve-AtLeast (calling_id results) n = (Frame-handle_id (NoneLost-IsFrame p) results).at n
