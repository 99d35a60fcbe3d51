-- ===== src/Tests/Runs.antt =====
-- Runs of the loop of a node that is paused, gets a message, and is resumed.
use raft_capnp.Prelude.{refl, ◌≡◌, ◌≤◌, Bool, true, false, List, [], ◌∷◌, none}
use raft_capnp.Data.{Bytes, Message, Entry}
use raft_capnp.Effect.{Trace, Node, ok, ◌>>=◌}
use raft_capnp.Pause.{
  lock, is_paused, set_paused, enqueue, wait_pause, do_pause, WaitEvent, resuming,
}
use raft_capnp.Pause.Counts.{weight}
use raft_capnp.Rpc.{send, handle_send}
use raft_capnp.Rpc.Calls.{Call, calling_send, serve}
use raft_capnp.Loop.{Loop, paused, start, round, go_on}
use raft_capnp.Loop.Reach.{go_round, resume, serve_call, Reach, here, next}
use raft_capnp.Loop.Messages.{at_most_once}
use raft_capnp.Loop.Exactly.{exactly_once}
use raft_capnp.Loop.Lock.{CallsReturn, lock_free_if_CallsReturn}
use raft_capnp.Tests.{healthy, node_one}

abbrev send_nine : Call
send_nine = calling_send none (ok (1 ∷ 9 ∷ []))

abbrev resumed : List WaitEvent
resumed = resuming ∷ []

-- A node is paused, and a message arrives.
abbrev asleep : Node → Loop
asleep n = round healthy (paused true []) (start n)

abbrev asked : Node → Loop
asked n = record (asleep n) { node = serve healthy send_nine (asleep n).node }

asked_run : (n : Node) → Reach healthy (start n) (asked n)
unfolding start
asked_run n = next (next here (go_round (paused true []) (refl, refl))) (serve_call send_nine)

asleep-waits : (asleep node_one).stuck ≡ true
unfolding start round do_pause set_paused lock wait_pause ◌>>=◌
asleep-waits = refl

asked-free : (asked node_one).node.locked ≡ false
unfolding start round do_pause set_paused lock wait_pause serve handle_send send is_paused enqueue
    ◌>>=◌
asked-free = refl

whole_run : Reach healthy (start node_one) (go_on healthy resumed (asked node_one))
whole_run = next (asked_run node_one) (resume resumed asleep-waits asked-free)

abbrev any : Message → Bool
any msg = true

at_most_once_example : weight any (go_on healthy resumed (asked node_one)).node ≤ 1
unfolding start whole_run asked_run
at_most_once_example = at_most_once healthy any whole_run

start-free : (start node_one).node.locked ≡ false
unfolding start
start-free = refl

-- The message is queued, so that its call returns.
asked-returns : CallsReturn (asked_run node_one)
unfolding asked_run start round do_pause set_paused lock wait_pause handle_send send is_paused
    enqueue ◌>>=◌
asked-returns = (λ h. cc h, tt)

lock_free_if_CallsReturn_example : (asked node_one).node.locked ≡ false
lock_free_if_CallsReturn_example =
    lock_free_if_CallsReturn healthy (asked_run node_one) start-free asked-returns

healthy-stores :
    (t : Trace) (hard : Bytes) (entries : List Entry) (snapshot : Bytes)
    → healthy.store t hard entries snapshot ≡ none
healthy-stores t hard entries snapshot = refl

exactly_once_example : weight any (asked node_one).node ≡ 1
unfolding start asked_run
exactly_once_example = exactly_once healthy any healthy-stores (asked_run node_one) asked-free
