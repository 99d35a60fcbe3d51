-- ===== src/Loop/Held.antt =====
-- A node whose pause lock is held by a `Send` that waits for room in the queue.
use raft_capnp.Prelude.{refl, ◌≡◌, Bool, true, false, Option, none, some, List, ◌∙◌}
use raft_capnp.Data.{Bytes, Error, Message}
use raft_capnp.Effect.{Act, Trace, Env, Node, Result, ok, err, call, ◌>>=◌}
use raft_capnp.Effect.Keeps.{IsPreorder, Keeps, Keeps-bind, Keeps-lift, keeps_rules}
use raft_capnp.Effect.Frames.{IsFrame, PeersFree, ItemsFree}
use raft_capnp.Pause.{
  lock, is_paused, set_paused, queue_up, raft_step, churn_queue, WaitEvent, wait_pause,
  rest_of_pause, do_pause,
}
use raft_capnp.Pause.Frames.{Keeps-wait_pause}
use raft_capnp.Apply.{do_ready}
use raft_capnp.Apply.Frames.{Frame-do_ready}
use raft_capnp.Rpc.{after_test, send, handle_send}
use raft_capnp.Rpc.Calls.{end_of_send, Frame-serve}
use raft_capnp.Loop.{Event, ticked, ready, paused, ctx_over, Loop, round, stop}
use raft_capnp.Loop.Reach.{
  go_round, resume, wake, call_stop, serve_call, receive_stop, Step, Reach, here, next,
}
use raft_capnp.Loop.History.{handled-node}

-- The lock stays held, and the flag and the queue stay as they are.
abbrev pub StaysHeld : Node → Node → Type 0
StaysHeld n n' =
    n.locked ≡ true → (n'.locked ≡ true) × (n'.paused ≡ n.paused) × (n'.queue ≡ n.queue)

StaysHeld-IsPreorder : IsPreorder StaysHeld
StaysHeld-IsPreorder = record {
  refl_at = λ n h. (h, refl, refl);
  trans_at = λ n m k f g h. let (a, b, c) = f h in let (a', b', c') = g a in (a', b' ∙ b, c' ∙ c);
}

StaysHeld-call : {A : Type 0} (a : Act) (f : Trace → A) → Keeps StaysHeld (call a f)
unfolding ◌>>=◌
StaysHeld-call a f = record { at = λ n h. (h, refl, refl) }

StaysHeld-IsFrame : IsFrame StaysHeld
StaysHeld-IsFrame = record {
  preorder = StaysHeld-IsPreorder;
  quiet_call = λ A a f q. StaysHeld-call a f;
}

StaysHeld-PeersFree : PeersFree StaysHeld
unfolding ◌>>=◌
StaysHeld-PeersFree f = record { at = λ n h. (h, refl, refl) }

StaysHeld-ItemsFree : ItemsFree StaysHeld
unfolding ◌>>=◌
StaysHeld-ItemsFree f = record { at = λ n h. (h, refl, refl) }

-- What takes the lock first waits for it.
StaysHeld-is_paused : Keeps StaysHeld is_paused
unfolding is_paused lock ◌>>=◌
StaysHeld-is_paused = record { at = λ n h. rw h (refl, refl, refl) }

StaysHeld-set_paused : (pause : Bool) → Keeps StaysHeld (set_paused pause)
unfolding set_paused lock ◌>>=◌
StaysHeld-set_paused pause = record { at = λ n h. rw h (refl, refl, refl) }

StaysHeld-queue_up : (msg : Message) → Keeps StaysHeld (queue_up msg)
unfolding lock ◌>>=◌
StaysHeld-queue_up msg = record { at = λ n h. rw h (refl, refl, refl) }

StaysHeld-wait_pause : (events : List WaitEvent) → Keeps StaysHeld (wait_pause events)
StaysHeld-wait_pause events = Keeps-wait_pause StaysHeld-IsPreorder StaysHeld-set_paused events

module _ (env : Env) where
  StaysHeld-raft_step : (msg : Message) → Keeps StaysHeld (raft_step env msg)
  unfolding raft_step
  StaysHeld-raft_step msg = search (keeps_rules, StaysHeld-IsPreorder, StaysHeld-call)

  StaysHeld-churn_queue : Keeps StaysHeld (churn_queue env)
  unfolding churn_queue lock ◌>>=◌
  StaysHeld-churn_queue = record { at = λ n h. rw h (refl, refl, refl) }

  StaysHeld-rest_of_pause : (events : List WaitEvent) → Keeps StaysHeld (rest_of_pause env events)
  unfolding rest_of_pause
  StaysHeld-rest_of_pause events =
      search (keeps_rules, StaysHeld-IsPreorder, StaysHeld-wait_pause, StaysHeld-churn_queue)

  StaysHeld-do_pause :
      (pause : Bool) (events : List WaitEvent) → Keeps StaysHeld (do_pause env pause events)
  unfolding do_pause
  StaysHeld-do_pause pause events =
      search
        (
          keeps_rules, StaysHeld-IsPreorder, StaysHeld-set_paused, StaysHeld-wait_pause,
          StaysHeld-churn_queue,
        )
        depth 9

  StaysHeld-after_test :
      (asleep : Bool) (msg : Message) → Keeps StaysHeld (after_test env asleep msg)
  StaysHeld-after_test true msg = StaysHeld-queue_up msg
  StaysHeld-after_test false msg = StaysHeld-raft_step msg

  StaysHeld-end_of_send :
      (asleep : Bool) (encoded : Bytes) → Keeps StaysHeld (end_of_send env asleep encoded)
  unfolding end_of_send
  StaysHeld-end_of_send asleep encoded =
      Keeps-bind StaysHeld-IsPreorder _ _ (Keeps-lift StaysHeld-IsPreorder _)
        (StaysHeld-after_test asleep)

  StaysHeld-send : (encoded : Bytes) → Keeps StaysHeld (send env encoded)
  unfolding send
  StaysHeld-send encoded =
      Keeps-bind StaysHeld-IsPreorder _ _ (Keeps-lift StaysHeld-IsPreorder _) (λ msg.
        Keeps-bind StaysHeld-IsPreorder _ _ StaysHeld-is_paused
          (λ asleep. StaysHeld-after_test asleep msg))

  StaysHeld-handle_send :
      (results : Option Error) (arg : Result Bytes) → Keeps StaysHeld (handle_send env results arg)
  unfolding handle_send
  StaysHeld-handle_send (some e) arg = search (keeps_rules, StaysHeld-IsPreorder)
  StaysHeld-handle_send none (err e) = search (keeps_rules, StaysHeld-IsPreorder)
  StaysHeld-handle_send none (ok encoded) =
      search (keeps_rules, StaysHeld-IsPreorder, StaysHeld-send)

  StaysHeld-round : (e : Event) (l : Loop) → StaysHeld l.node (round env e l).node
  unfolding round
  StaysHeld-round ticked l h = (h, refl, refl)
  StaysHeld-round (ready r) l h = rw (handled-node (do_ready env r l.node) l) (
      (Frame-do_ready StaysHeld-IsPreorder (λ A. StaysHeld-call) StaysHeld-PeersFree
          StaysHeld-ItemsFree env r).at
        l.node h)
  StaysHeld-round (paused pause events) l h =
      rw (handled-node (do_pause env pause events l.node) l)
        ((StaysHeld-do_pause pause events).at l.node h)
  StaysHeld-round (ctx_over c) l h = (h, refl, refl)

  StaysHeld-Step : {l m : Loop} → Step env l m → StaysHeld l.node m.node
  unfolding stop
  StaysHeld-Step {l} (go_round e live) h = StaysHeld-round e l h
  StaysHeld-Step {l} (resume events waits free) h = cc
  StaysHeld-Step {l} (wake events waits free over) h = cc
  StaysHeld-Step (call_stop cause) h = (h, refl, refl)
  StaysHeld-Step {l} (serve_call c) h =
      Frame-serve StaysHeld-IsFrame env StaysHeld-handle_send StaysHeld-end_of_send c l.node h
  StaysHeld-Step (receive_stop before after e live split) h = (h, refl, refl)

  -- A loop that waits in a pause goes on only where the lock is free.
  stuck-Step : {l m : Loop} → Step env l m → l.node.locked ≡ true → l.stuck ≡ true → m.stuck ≡ true
  unfolding stop
  stuck-Step (go_round e live) h waits = cc live.0
  stuck-Step (resume events w free) h waits = cc
  stuck-Step (wake events w free over) h waits = waits
  stuck-Step (call_stop cause) h waits = waits
  stuck-Step (serve_call c) h waits = waits
  stuck-Step (receive_stop before after e live split) h waits = cc

  pub held_for_ever :
      {l m : Loop} (run : Reach env l m)
      → l.node.locked ≡ true
      → l.stuck ≡ true
      → (m.node.locked ≡ true)
        × (m.node.paused ≡ l.node.paused)
        × (m.node.queue ≡ l.node.queue)
        × (m.stuck ≡ true)
  held_for_ever here h waits = (h, refl, refl, waits)
  held_for_ever (next run s) h waits =
      let (a, b, c, d) = held_for_ever run h waits in
      let (a', b', c') = StaysHeld-Step s a in (a', b' ∙ b, c' ∙ c, stuck-Step s a d)
