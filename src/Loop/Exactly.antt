-- ===== src/Loop/Exactly.antt =====
-- No message of a run is lost, and none is given to etcd twice.
use raft_capnp.Prelude.{false, ◌≡◌, ◌≤◌, ◌+◌, ℕ, Bool, none, List, arith}
use raft_capnp.Data.{Message, Entry, Bytes}
use raft_capnp.Effect.{Trace, Env, Node}
use raft_capnp.Pause.{WaitEvent, rest_of_pause, do_pause}
use raft_capnp.Pause.Counts.{weight}
use raft_capnp.Pause.Losses.{
  AtLeast, NoneLost-refl, AtLeast-trans, NoneLost-wait_pause, NoneLost-rest_of_pause,
  NoneLost-do_pause,
}
use raft_capnp.Apply.{do_ready}
use raft_capnp.Apply.Losses.{do_ready-AtLeast}
use raft_capnp.Rpc.Losses.{serve-AtLeast}
use raft_capnp.Loop.{Event, ticked, ready, paused, ctx_over, Loop, round, go_on, stop}
use raft_capnp.Loop.Reach.{
  go_round, resume, wake, call_stop, serve_call, receive_stop, Reach, here, next,
}
use raft_capnp.Loop.History.{handled-node}
use raft_capnp.Loop.Messages.{of_event, arrivals, at_most_once}

module _ (env : Env) (p : Message → Bool)
    (stores : (t : Trace) (hard : Bytes) (entries : List Entry) (snapshot : Bytes)
      → env.store t hard entries snapshot ≡ none) where
  round-AtLeast :
      (e : Event) (l : Loop) → AtLeast p (of_event p l.node.id e) l.node (round env e l).node
  unfolding round
  round-AtLeast ticked l = record { kept = (NoneLost-refl p l.node).kept }
  round-AtLeast (ready r) l =
      rw (handled-node (do_ready env r l.node) l)
        (do_ready-AtLeast p env r l.node (stores l.node.trace r.hard_state r.entries r.snapshot))
  round-AtLeast (paused pause events) l =
      rw (handled-node (do_pause env pause events l.node) l)
        ((NoneLost-do_pause p env pause events).at l.node)
  round-AtLeast (ctx_over c) l = record { kept = (NoneLost-refl p l.node).kept }

  go_on-AtLeast :
      (events : List WaitEvent) (l : Loop) → AtLeast p 0 l.node (go_on env events l).node
  unfolding go_on
  go_on-AtLeast events l =
      rw (handled-node (rest_of_pause env events l.node) (record l { stuck = false }))
        ((NoneLost-rest_of_pause p env events).at l.node)

  -- What a step brings on top of what the run before it brought.
  then_more :
      (a k : ℕ) {i : ℕ} (n m m' : Node)
      → i ≤ k + a
      → AtLeast p a n m
      → AtLeast p k m m'
      → AtLeast p i n m'
  then_more a k n m m' room x y = record {
    kept = λ free.
        let (was, le) = (AtLeast-trans p a k n m m' x y).kept free in
        (was, omega (arith, room, le));
  }

  arrivals-AtLeast : {l m : Loop} (run : Reach env l m) → AtLeast p (arrivals p run) l.node m.node
  unfolding stop
  arrivals-AtLeast {l} here = NoneLost-refl p l.node
  arrivals-AtLeast {l} {m} (next {k} run (go_round e live)) =
      then_more (arrivals p run) (of_event p k.node.id e) l.node k.node m.node (omega arith)
        (arrivals-AtLeast run) (round-AtLeast e k)
  arrivals-AtLeast {l} {m} (next {k} run (resume events waits free)) =
      then_more (arrivals p run) 0 l.node k.node m.node (omega arith) (arrivals-AtLeast run)
        (go_on-AtLeast events k)
  arrivals-AtLeast {l} {m} (next {k} run (wake events waits free over)) =
      then_more (arrivals p run) 0 l.node k.node m.node (omega arith) (arrivals-AtLeast run)
        ((NoneLost-wait_pause p events).at k.node)
  arrivals-AtLeast (next run (call_stop cause)) = arrivals-AtLeast run
  arrivals-AtLeast {l} {m} (next {k} run (serve_call c)) =
      then_more (arrivals p run) _ l.node k.node m.node (omega arith) (arrivals-AtLeast run)
        (serve-AtLeast env p c k.node)
  arrivals-AtLeast (next run (receive_stop before after e live split)) = arrivals-AtLeast run

  -- In every run of a node whose store succeeds, and that leaves nobody holding the pause lock:
  -- no message is lost, made up, or given to etcd twice, however the calls, the pauses, the
  -- rounds and the stops interleave. For any test of messages: those that etcd was given, or
  -- that still wait in the queue, are as many as at the start of the run and as the run brought,
  -- by rounds of etcd with messages to the node itself and by the calls of `Send` that are
  -- served or go on.
  pub exactly_once :
      {l m : Loop} (run : Reach env l m)
      → m.node.locked ≡ false
      → weight p m.node ≡ weight p l.node + arrivals p run
  exactly_once run free =
      omega (arith, at_most_once env p run, ((arrivals-AtLeast run).kept free).1)
