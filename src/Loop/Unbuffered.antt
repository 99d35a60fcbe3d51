-- ===== src/Loop/Unbuffered.antt =====
-- The queue of the nodes that the program builds, whose channel has no buffer.
use raft_capnp.Prelude.{refl, ◌≡◌, Bool, false, Option, none, some, List, [], Bool-cases, inl, inr}
use raft_capnp.Data.{Bytes, Error, Message}
use raft_capnp.Effect.{Act, Trace, Env, Node, Result, ok, err, call, ◌>>=◌}
use raft_capnp.Effect.Keeps.{IsPreorder, Keeps, keeps_rules}
use raft_capnp.Effect.Frames.{PeersFree, ItemsFree}
use raft_capnp.Pause.{
  lock, is_paused, set_paused, enqueue, raft_step, churn_loop, churn_queue, WaitEvent, wait_pause,
  rest_of_pause, do_pause,
}
use raft_capnp.Pause.Frames.{
  IsPauseFrame, Frame-lock, Frame-is_paused, Frame-set_paused, Frame-wait_pause,
}
use raft_capnp.Apply.{do_ready}
use raft_capnp.Apply.Frames.{Frame-do_ready}
use raft_capnp.Config.{Setup, running}
use raft_capnp.Config.Laws.{Built, unbuffered_running}
use raft_capnp.Rpc.{send, handle_send}
use raft_capnp.Rpc.Calls.{Frame-serve, end_of_send}
use raft_capnp.Loop.{Event, ticked, ready, paused, ctx_over, Loop, start, round, go_on, stop}
use raft_capnp.Loop.Reach.{
  go_round, resume, wake, call_stop, serve_call, receive_stop, Step, Reach, here, next,
}
use raft_capnp.Loop.History.{handled-node}

-- A channel without a buffer, which holds nothing.
abbrev pub HasNoBuffer : Node → Type 0
HasNoBuffer n = (n.queue_cap ≡ 0) × (n.queue ≡ [])

abbrev Stays : Node → Node → Type 0
Stays n n' = HasNoBuffer n → HasNoBuffer n'

Stays-IsPreorder : IsPreorder Stays
Stays-IsPreorder = record { refl_at = λ n h. h; trans_at = λ n m k f g h. g (f h) }

Stays-call : {A : Type 0} (a : Act) (f : Trace → A) → Keeps Stays (call a f)
unfolding ◌>>=◌
Stays-call a f = record { at = λ n h. h }

Stays-PeersFree : PeersFree Stays
unfolding ◌>>=◌
Stays-PeersFree f = record { at = λ n h. h }

Stays-ItemsFree : ItemsFree Stays
unfolding ◌>>=◌
Stays-ItemsFree f = record { at = λ n h. h }

Stays-pauses : IsPauseFrame Stays
unfolding ◌>>=◌
Stays-pauses = record {
  frame = record { preorder = Stays-IsPreorder; quiet_call = λ A a f q. Stays-call a f };
  hold = λ b. record { at = λ n h. h };
  flag = λ b. record { at = λ n h. h };
}

-- There is no room for a message.
Stays-enqueue : (msg : Message) → Keeps Stays (enqueue msg)
unfolding enqueue ◌>>=◌
Stays-enqueue msg = record { at = λ n h. rw (h.0, h.1) (refl, refl) }

held : Keeps Stays lock
held = Frame-lock Stays-pauses

asked : Keeps Stays is_paused
asked = Frame-is_paused Stays-pauses

set : (pause : Bool) → Keeps Stays (set_paused pause)
set = Frame-set_paused Stays-pauses

waited : (events : List WaitEvent) → Keeps Stays (wait_pause events)
waited = Frame-wait_pause Stays-pauses

module _ (env : Env) where
  Stays-raft_step : (msg : Message) → Keeps Stays (raft_step env msg)
  unfolding raft_step
  Stays-raft_step msg = search (keeps_rules, Stays-IsPreorder, Stays-call)

  Stays-churn_queue : Keeps Stays (churn_queue env)
  unfolding churn_queue lock churn_loop ◌>>=◌
  Stays-churn_queue = record {
    at = λ n h. elim (Bool-cases n.locked) [ inl l ↦ rw l h | inr l ↦ rw (l, h.1) (h.0, refl) ];
  }

  Stays-rest_of_pause : (events : List WaitEvent) → Keeps Stays (rest_of_pause env events)
  unfolding rest_of_pause
  Stays-rest_of_pause events = search (keeps_rules, Stays-IsPreorder, waited, Stays-churn_queue)

  Stays-do_pause :
      (pause : Bool) (events : List WaitEvent) → Keeps Stays (do_pause env pause events)
  unfolding do_pause
  Stays-do_pause pause events =
      search (keeps_rules, Stays-IsPreorder, set, waited, Stays-churn_queue) depth 9

  Stays-send : (encoded : Bytes) → Keeps Stays (send env encoded)
  unfolding send
  Stays-send encoded =
      search
        (
          keeps_rules, Stays-IsPreorder, Stays-pauses.hold, asked, held, Stays-enqueue,
          Stays-raft_step,
        )
        depth 12

  Stays-end_of_send :
      (asleep : Bool) (encoded : Bytes) → Keeps Stays (end_of_send env asleep encoded)
  unfolding end_of_send
  Stays-end_of_send asleep encoded =
      search
        (keeps_rules, Stays-IsPreorder, Stays-pauses.hold, held, Stays-enqueue, Stays-raft_step)
        depth 12

  Stays-handle_send :
      (results : Option Error) (arg : Result Bytes) → Keeps Stays (handle_send env results arg)
  unfolding handle_send
  Stays-handle_send (some e) arg = search (keeps_rules, Stays-IsPreorder)
  Stays-handle_send none (err e) = search (keeps_rules, Stays-IsPreorder)
  Stays-handle_send none (ok encoded) = search (keeps_rules, Stays-IsPreorder, Stays-send)

  Stays-round : (e : Event) (l : Loop) → Stays l.node (round env e l).node
  unfolding round
  Stays-round ticked l h = h
  Stays-round (ready r) l h = rw (handled-node (do_ready env r l.node) l) (
      (Frame-do_ready Stays-IsPreorder (λ A. Stays-call) Stays-PeersFree Stays-ItemsFree env r).at
        l.node h)
  Stays-round (paused pause events) l h =
      rw (handled-node (do_pause env pause events l.node) l)
        ((Stays-do_pause pause events).at l.node h)
  Stays-round (ctx_over c) l h = h

  Stays-step : {l m : Loop} → Step env l m → Stays l.node m.node
  unfolding go_on stop
  Stays-step {l} (go_round e live) h = Stays-round e l h
  Stays-step {l} (resume events waits free) h =
      rw (handled-node (rest_of_pause env events l.node) (record l { stuck = false }))
        ((Stays-rest_of_pause events).at l.node h)
  Stays-step {l} (wake events waits free over) h = (waited events).at l.node h
  Stays-step (call_stop cause) h = h
  Stays-step {l} (serve_call c) h =
      Frame-serve Stays-pauses.frame env Stays-handle_send Stays-end_of_send c l.node h
  Stays-step (receive_stop before after e live split) h = h

  Stays-run : {l m : Loop} → Reach env l m → Stays l.node m.node
  Stays-run here h = h
  Stays-run (next run s) h = Stays-step s (Stays-run run h)

  start-HasNoBuffer : (n : Node) → HasNoBuffer n → HasNoBuffer (start n).node
  unfolding start
  start-HasNoBuffer n h = h

  -- However a node was built, in every run of it, whatever calls, pauses, rounds and stops there are,
  -- the queue has no buffer and holds no message after any step: no message that arrives while the
  -- node is paused is ever kept for later.
  pub queue_stays_empty :
      (n : Setup) (k : Node) (l : Loop)
      → Built n
      → running n ≡ some k
      → Reach env (start k) l
      → (l.node.queue_cap ≡ 0) × (l.node.queue ≡ [])
  queue_stays_empty n k l b e run =
      let (cap, empty, free) = unbuffered_running n k b e in
      Stays-run run (start-HasNoBuffer k (cap, empty))
