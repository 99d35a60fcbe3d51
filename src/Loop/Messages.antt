-- ===== src/Loop/Messages.antt =====
-- How often the messages of a run reach etcd.
use raft_capnp.Prelude.{false, ◌≤◌, ◌+◌, ℕ, Bool, arith, List}
use raft_capnp.Data.{Message}
use raft_capnp.Effect.{Env}
use raft_capnp.Pause.{WaitEvent, rest_of_pause, do_pause}
use raft_capnp.Pause.Frames.{Frame-wait_pause}
use raft_capnp.Pause.Counts.{AtMost, weight, NoMore-pauses, NoMore-rest_of_pause, NoMore-do_pause}
use raft_capnp.Apply.{do_ready}
use raft_capnp.Apply.Counts.{own, do_ready-AtMost}
use raft_capnp.Rpc.Counts.{of_call, serve-AtMost}
use raft_capnp.Loop.{Event, ticked, ready, paused, ctx_over, Loop, round, go_on, stop}
use raft_capnp.Loop.Reach.{
  go_round, resume, wake, call_stop, serve_call, receive_stop, Reach, here, next,
}
use raft_capnp.Loop.History.{handled-node}

-- The messages that a received event brings to a node, of those that pass a test.
abbrev pub of_event : (Message → Bool) → ℕ → Event → ℕ
of_event p self (ready r) = own p self r.messages
of_event p self _ = 0

-- The messages that a run brings: those that the rounds of etcd address to the node itself, and
-- those that the served calls of `Send` carry, when they are served or when they go on.
abbrev pub arrivals : {env : Env} {l m : Loop} → (Message → Bool) → Reach env l m → ℕ
arrivals p here = 0
arrivals p (next {k} run (go_round e live)) = of_event p k.node.id e + arrivals p run
arrivals {env} p (next run (serve_call c)) = of_call env p c + arrivals p run
arrivals p (next run _) = arrivals p run

module _ (env : Env) (p : Message → Bool) where
  round-AtMost :
      (e : Event) (l : Loop) → AtMost p (of_event p l.node.id e) l.node (round env e l).node
  unfolding round
  round-AtMost ticked l = record { weight_le = omega arith }
  round-AtMost (ready r) l =
      rw (handled-node (do_ready env r l.node) l) ((do_ready-AtMost p env r).at l.node)
  round-AtMost (paused pause events) l =
      rw (handled-node (do_pause env pause events l.node) l)
        ((NoMore-do_pause p env pause events).at l.node)
  round-AtMost (ctx_over c) l = record { weight_le = omega arith }

  go_on-AtMost : (events : List WaitEvent) (l : Loop) → AtMost p 0 l.node (go_on env events l).node
  unfolding go_on
  go_on-AtMost events l =
      rw (handled-node (rest_of_pause env events l.node) (record l { stuck = false }))
        ((NoMore-rest_of_pause p env events).at l.node)

  -- In every run of a loop, however the calls, the pauses, the rounds and the stops in it
  -- interleave and fail, no message is made up and none is given to etcd twice. For any test of
  -- messages: those that etcd was given, or that still wait in the queue, are at most as many as
  -- at the start of the run and as the run brought, by rounds of etcd with messages to the node
  -- itself and by the calls of `Send` that are served or go on.
  pub at_most_once :
      {l m : Loop} (run : Reach env l m) → weight p m.node ≤ weight p l.node + arrivals p run
  unfolding stop
  at_most_once here = omega arith
  at_most_once {l} (next {k} run (go_round e live)) =
      omega (arith, at_most_once run, (round-AtMost e k).weight_le)
  at_most_once {l} (next {k} run (resume events waits free)) =
      omega (arith, at_most_once run, (go_on-AtMost events k).weight_le)
  at_most_once (next {k} run (wake events waits free over)) =
      omega
        (arith, at_most_once run, ((Frame-wait_pause (NoMore-pauses p) events).at k.node).weight_le)
  at_most_once (next run (call_stop cause)) = at_most_once run
  at_most_once (next {k} run (serve_call c)) =
      omega (arith, at_most_once run, (serve-AtMost env p c k.node).weight_le)
  at_most_once (next run (receive_stop before after e live split)) = at_most_once run
