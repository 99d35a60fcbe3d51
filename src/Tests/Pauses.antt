-- ===== src/Tests/Pauses.antt =====
-- Runs of a paused node.
use raft_capnp.Prelude.{refl, ◌≡◌, ◌≤◌, [], ◌∷◌, true, false, arith, length}
use raft_capnp.Data.{Bytes, Message}
use raft_capnp.Effect.{Node, ◌>>=◌, done, blocked}
use raft_capnp.Effect.Frames.{select}
use raft_capnp.Pause.{
  lock, set_paused, raft_step, churn_loop, churn_queue, resuming, wait_pause, rest_of_pause,
  do_pause,
}
use raft_capnp.Pause.Deadlock.{Waits, paused_send_deadlocks}
use raft_capnp.Pause.Queue.{stepped}
use raft_capnp.Pause.Resume.{do_pause_done}
use raft_capnp.Rpc.{send}
use raft_capnp.Tests.{healthy, node_one, greeting, own_message}

-- A node that is paused with two messages in its queue, which is full.
abbrev full_node : Node
full_node = record node_one { paused = true; queue = greeting ∷ own_message ∷ [] }

abbrev encoded : Bytes
encoded = 1 ∷ 9 ∷ []

abbrev decoded : Message
decoded = record { to = 1; rest = 9 ∷ [] }

full_node-full : full_node.queue_cap ≤ length full_node.queue
full_node-full = omega arith

paused_send_deadlocks_example :
    (send healthy encoded full_node ≡ (blocked, record full_node { locked = true }))
    × Waits (do_pause healthy false []) (send healthy encoded full_node).1
    × Waits (rest_of_pause healthy (resuming ∷ [])) (send healthy encoded full_node).1
    × Waits (send healthy (2 ∷ 7 ∷ [])) (send healthy encoded full_node).1
paused_send_deadlocks_example =
    paused_send_deadlocks healthy full_node encoded (2 ∷ 7 ∷ []) decoded greeting false [] refl refl
      full_node-full refl refl

resumed : (do_pause healthy true (resuming ∷ []) full_node).0 ≡ done tt
unfolding lock set_paused raft_step churn_loop churn_queue wait_pause do_pause ◌>>=◌
resumed = refl

do_pause_done_example :
    ((do_pause healthy true (resuming ∷ []) full_node).1.paused ≡ false)
    × ((do_pause healthy true (resuming ∷ []) full_node).1.queue ≡ [])
    × (select stepped (do_pause healthy true (resuming ∷ []) full_node).1.trace
        ≡ own_message ∷ greeting ∷ [])
do_pause_done_example = do_pause_done healthy true (resuming ∷ []) full_node refl resumed
