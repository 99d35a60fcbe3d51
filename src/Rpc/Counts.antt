-- ===== src/Rpc/Counts.antt =====
-- How many messages a served call of raft/capnp.go brings to etcd or to the queue.
use raft_capnp.Prelude.{ℕ, Bool, true, false, one, Option, none, some, arith, if◌then◌else◌}
use raft_capnp.Data.{Bytes, Error, Message}
use raft_capnp.Effect.{Env, Node, Result, ok, err, lift, ◌>>=◌, ◌>>◌}
use raft_capnp.Effect.Keeps.{Keeps, Keeps-try, keeps_rules}
use raft_capnp.Pause.{lock, unlock, is_paused, enqueue, raft_step}
use raft_capnp.Pause.Frames.{Frame-lock, Frame-is_paused}
use raft_capnp.Pause.Counts.{
  AtMost, NoMore-IsPreorder, NoMore-IsFrame, NoMore-pauses, AtMost-bind, AtMost-raft_step,
  AtMost-enqueue,
}
use raft_capnp.Rpc.{after_test, send, handle_send, handle_items, handle_members}
use raft_capnp.Rpc.Frames.{Frame-handle_add, Frame-handle_remove, Frame-handle_put, Frame-handle_id}
use raft_capnp.Rpc.Calls.{
  Call, calling_add, calling_remove, calling_send, calling_put, calling_items, calling_members,
  calling_id, going_on_send, end_of_send, serve,
}

-- Whether bytes are those of a message that passes the test.
abbrev pub of_decoded : (Message → Bool) → Result Message → ℕ
of_decoded p (ok msg) = one (p msg)
of_decoded p (err e) = 0

-- The messages that a call brings.
abbrev pub of_call : Env → (Message → Bool) → Call → ℕ
of_call env p (calling_send none (ok encoded)) = of_decoded p (env.unmarshal_message encoded)
of_call env p (going_on_send paused encoded) = of_decoded p (env.unmarshal_message encoded)
of_call env p _ = 0

module _ (env : Env) (p : Message → Bool) where
  AtMost-deliver :
      (msg : Message) (paused : Bool)
      → Keeps
          (AtMost p (one (p msg)))
          (if paused then (lock >> (enqueue msg >> unlock)) else raft_step env msg)
  AtMost-deliver msg false = AtMost-raft_step p env msg
  AtMost-deliver msg true =
      AtMost-bind p 0 (one (p msg)) (omega arith) (Frame-lock (NoMore-pauses p)) (λ x.
        AtMost-bind p (one (p msg)) 0 (omega arith) (AtMost-enqueue p msg)
          (λ y. (NoMore-pauses p).hold false))

  AtMost-decoded :
      (r : Result Message)
      → Keeps (AtMost p (of_decoded p r)) (
          lift r >>= λ msg. is_paused >>= λ paused.
          if paused then (lock >> (enqueue msg >> unlock)) else raft_step env msg)
  unfolding ◌>>=◌
  AtMost-decoded (err e) = record { at = (NoMore-IsPreorder p).refl_at }
  AtMost-decoded (ok msg) = record {
    at =
        (AtMost-bind p 0 (one (p msg)) (omega arith) (Frame-is_paused (NoMore-pauses p))
          (AtMost-deliver msg)).at;
  }

  AtMost-send :
      (encoded : Bytes)
      → Keeps (AtMost p (of_decoded p (env.unmarshal_message encoded))) (send env encoded)
  unfolding send
  AtMost-send encoded = AtMost-decoded (env.unmarshal_message encoded)

  AtMost-handle_send :
      (results : Option Error) (arg : Result Bytes)
      → Keeps (AtMost p (of_call env p (calling_send results arg))) (handle_send env results arg)
  unfolding handle_send
  AtMost-handle_send (some e) arg = search (keeps_rules, NoMore-IsPreorder)
  AtMost-handle_send none (err e) = search (keeps_rules, NoMore-IsPreorder)
  AtMost-handle_send none (ok encoded) =
      AtMost-bind p (of_decoded p (env.unmarshal_message encoded)) 0 (omega arith)
        (Keeps-try _ (AtMost-send encoded)) (λ res. search (keeps_rules, NoMore-IsPreorder))

  AtMost-ends :
      (paused : Bool) (r : Result Message)
      → Keeps (AtMost p (of_decoded p r)) (lift r >>= λ msg. after_test env paused msg)
  unfolding ◌>>=◌
  AtMost-ends paused (err e) = record { at = (NoMore-IsPreorder p).refl_at }
  AtMost-ends paused (ok msg) = record { at = (AtMost-deliver msg paused).at }

  AtMost-end_of_send :
      (paused : Bool) (encoded : Bytes)
      → Keeps
          (AtMost p (of_decoded p (env.unmarshal_message encoded)))
          (end_of_send env paused encoded)
  unfolding end_of_send
  AtMost-end_of_send paused encoded = AtMost-ends paused (env.unmarshal_message encoded)

  -- A served call brings no message but the one that it carries.
  pub serve-AtMost : (c : Call) (n : Node) → AtMost p (of_call env p c) n (serve env c n)
  unfolding serve handle_items handle_members ◌>>=◌
  serve-AtMost (calling_add results new_nodes set_nodes node) n =
      (Frame-handle_add (NoMore-IsFrame p) env results new_nodes set_nodes node).at n
  serve-AtMost (calling_remove results node) n =
      (Frame-handle_remove (NoMore-IsFrame p) env results node).at n
  serve-AtMost (calling_send results arg) n = (AtMost-handle_send results arg).at n
  serve-AtMost (going_on_send paused encoded) n = (AtMost-end_of_send paused encoded).at n
  serve-AtMost (calling_put results arg item) n =
      (Frame-handle_put (NoMore-IsFrame p) env results arg item).at n
  serve-AtMost calling_items n = (NoMore-IsPreorder p).refl_at n
  serve-AtMost calling_members n = (NoMore-IsPreorder p).refl_at n
  serve-AtMost (calling_id results) n = (Frame-handle_id (NoMore-IsFrame p) results).at n
