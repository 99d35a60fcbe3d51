-- ===== src/Loop/Lock.antt =====
-- The lock of the pause flag in a run of the loop.
use raft_capnp.Prelude.{
  ap, ◌∙◌, Bool, true, false, ◌≡◌, ◌≢◌, ⊤, Option, none, some, List, arith, inl, inr,
}
use raft_capnp.Data.{Bytes, Error, Message}
use raft_capnp.Effect.{Env, Node, Action, Result, ok, err, blocked, try, pure, ◌>>=◌}
use raft_capnp.Effect.Keeps.{Result-cases}
use raft_capnp.Pause.{WaitEvent, rest_of_pause, do_pause}
use raft_capnp.Pause.Lock.{
  KeepsFree, KeepsFree-IsPreorder, KeepsFree-IsFrame, KeepsFree-call, KeepsFree-PeersFree,
  KeepsFree-ItemsFree, KeepsFree-wait_pause, KeepsFree-raft_step, KeepsFree-rest_of_pause,
  KeepsFree-do_pause, queue_up-free,
}
use raft_capnp.Apply.{do_ready}
use raft_capnp.Apply.Frames.{Frame-do_ready}
use raft_capnp.Rpc.{after_test, reply_to, send, handle_send, handle_items, handle_members}
use raft_capnp.Rpc.Frames.{Frame-handle_add, Frame-handle_remove, Frame-handle_put, Frame-handle_id}
use raft_capnp.Rpc.Calls.{
  Call, calling_add, calling_remove, calling_send, going_on_send, calling_put, calling_items,
  calling_members, calling_id, end_of_send, serve,
}
use raft_capnp.Rpc.Losses.{is_paused-free}
use raft_capnp.Loop.{Event, ticked, ready, paused, ctx_over, Loop, round, go_on, stop}
use raft_capnp.Loop.Reach.{
  go_round, resume, wake, call_stop, serve_call, receive_stop, Reach, here, next,
}
use raft_capnp.Loop.History.{handled-node}

-- The call does not wait: what a `Send` does, or the end of one, returns.
abbrev pub CallReturns : Env → Call → Node → Type 0
CallReturns env (calling_send results arg) n = (handle_send env results arg n).0 ≢ blocked
CallReturns env (going_on_send asleep encoded) n = (end_of_send env asleep encoded n).0 ≢ blocked
CallReturns env _ n = ⊤

-- Every served call of the run returns.
abbrev pub CallsReturn : {env : Env} {l m : Loop} → Reach env l m → Type 0
CallsReturn here = ⊤
CallsReturn {env} (next {k} run (serve_call c)) = CallReturns env c k.node × CallsReturn run
CallsReturn (next run _) = CallsReturn run

-- The reply waits if the action does, and leaves the node that the action leaves.
replied :
    (m : Action ⊤) (n : Node)
    → ((m n).0 ≡ blocked → ((try m >>= λ res. pure (reply_to res)) n).0 ≡ blocked)
      × (((try m >>= λ res. pure (reply_to res)) n).1 ≡ (m n).1)
unfolding ◌>>=◌
replied m n = (λ w. rw w, ground arith)

module _ (env : Env) where
  after_test-free :
      (asleep : Bool) (msg : Message) (n : Node)
      → n.locked ≡ false
      → (after_test env asleep msg n).0 ≢ blocked
      → (after_test env asleep msg n).1.locked ≡ false
  after_test-free true msg n l returns = queue_up-free msg n l returns
  after_test-free false msg n l returns = (KeepsFree-raft_step env msg).at n l

  end_of_send-free :
      (asleep : Bool) (encoded : Bytes) (n : Node)
      → n.locked ≡ false
      → (end_of_send env asleep encoded n).0 ≢ blocked
      → (end_of_send env asleep encoded n).1.locked ≡ false
  unfolding end_of_send ◌>>=◌
  end_of_send-free asleep encoded n l returns =
      elim (Result-cases (env.unmarshal_message encoded)) [
        | inl (msg, e) ↦ rw e (after_test-free asleep msg n l (rw e at returns))
        | inr (x, e) ↦ rw e l
      ]

  send-end :
      (encoded : Bytes) (n : Node)
      → n.locked ≡ false
      → send env encoded n ≡ end_of_send env n.paused encoded n
  unfolding send end_of_send ◌>>=◌
  send-end encoded n l = elim (Result-cases (env.unmarshal_message encoded)) [
    | inl (msg, e) ↦ rw (e, is_paused-free n l)
    | inr (x, e) ↦ rw e
  ]

  handle_send-free :
      (results : Option Error) (arg : Result Bytes) (n : Node)
      → n.locked ≡ false
      → (handle_send env results arg n).0 ≢ blocked
      → (handle_send env results arg n).1.locked ≡ false
  unfolding handle_send
  handle_send-free (some e) arg n l returns = unfold ◌>>=◌ in l
  handle_send-free none (err e) n l returns = unfold ◌>>=◌ in l
  handle_send-free none (ok encoded) n l returns =
      let (waits, same) = replied (send env encoded) n in
      let ends = send-end encoded n l in
      ap (λ k. k.locked) (same ∙ ap (λ r. r.1) ends)
      ∙ end_of_send-free n.paused encoded n l (λ h. returns (waits (ap (λ r. r.0) ends ∙ h)))

  -- A served call that returns has given the lock back.
  serve-free :
      (c : Call) (n : Node)
      → n.locked ≡ false
      → CallReturns env c n
      → (serve env c n).locked ≡ false
  unfolding serve handle_items handle_members
  serve-free (calling_add results new_nodes set_nodes node) n l returns =
      (Frame-handle_add KeepsFree-IsFrame env results new_nodes set_nodes node).at n l
  serve-free (calling_remove results node) n l returns =
      (Frame-handle_remove KeepsFree-IsFrame env results node).at n l
  serve-free (calling_send results arg) n l returns = handle_send-free results arg n l returns
  serve-free (going_on_send asleep encoded) n l returns =
      end_of_send-free asleep encoded n l returns
  serve-free (calling_put results arg item) n l returns =
      (Frame-handle_put KeepsFree-IsFrame env results arg item).at n l
  serve-free calling_items n l returns = unfold ◌>>=◌ in l
  serve-free calling_members n l returns = unfold ◌>>=◌ in l
  serve-free (calling_id results) n l returns = (Frame-handle_id KeepsFree-IsFrame results).at n l

  round-free : (e : Event) (l : Loop) → KeepsFree l.node (round env e l).node
  unfolding round
  round-free ticked l h = h
  round-free (ready r) l h = rw (handled-node (do_ready env r l.node) l) (
      (Frame-do_ready KeepsFree-IsPreorder (λ A. KeepsFree-call) KeepsFree-PeersFree
          KeepsFree-ItemsFree env r).at
        l.node h)
  round-free (paused pause events) l h =
      rw (handled-node (do_pause env pause events l.node) l)
        ((KeepsFree-do_pause env pause events).at l.node h)
  round-free (ctx_over c) l h = h

  go_on-free : (events : List WaitEvent) (l : Loop) → KeepsFree l.node (go_on env events l).node
  unfolding go_on
  go_on-free events l h =
      rw (handled-node (rest_of_pause env events l.node) (record l { stuck = false }))
        ((KeepsFree-rest_of_pause env events).at l.node h)

  -- In every run that starts with a free pause lock, and whose served calls of `Send` all return: the
  -- lock is free after every step, whatever rounds, pauses, stops and calls there are, and also where a
  -- round or a pause fails halfway or waits to be resumed.
  pub lock_free_if_CallsReturn :
      {l m : Loop} (run : Reach env l m)
      → l.node.locked ≡ false
      → CallsReturn run
      → m.node.locked ≡ false
  unfolding stop
  lock_free_if_CallsReturn here free h = free
  lock_free_if_CallsReturn (next {k} run (go_round e live)) free h =
      round-free e k (lock_free_if_CallsReturn run free h)
  lock_free_if_CallsReturn (next {k} run (resume events waits unheld)) free h =
      go_on-free events k (lock_free_if_CallsReturn run free h)
  lock_free_if_CallsReturn (next {k} run (wake events waits unheld over)) free h =
      (KeepsFree-wait_pause events).at k.node (lock_free_if_CallsReturn run free h)
  lock_free_if_CallsReturn (next run (call_stop cause)) free h = lock_free_if_CallsReturn run free h
  lock_free_if_CallsReturn (next {k} run (serve_call c)) free h =
      serve-free c k.node (lock_free_if_CallsReturn run free h.1) h.0
  lock_free_if_CallsReturn (next run (receive_stop before after e live split)) free h =
      lock_free_if_CallsReturn run free h
