-- ===== src/Tests/Races.antt =====
-- Runs of a node that is resumed while a message arrives.
use raft_capnp.Prelude.{refl, ◌≡◌, [], ◌∷◌, true, false, none}
use raft_capnp.Data.{Message}
use raft_capnp.Effect.{ok, done, blocked}
use raft_capnp.Pause.{is_paused, resuming, wait_pause, churn_queue, do_pause}
use raft_capnp.Pause.Deadlock.{Waits}
use raft_capnp.Config.Laws.{Built, started}
use raft_capnp.Config.Race.{raced_resume_deadlocks}
use raft_capnp.Rpc.{send}
use raft_capnp.Rpc.Calls.{Call, calling_send, end_of_send, serve}
use raft_capnp.Loop.{Loop, start}
use raft_capnp.Loop.Reach.{serve_call, Reach, here, next}
use raft_capnp.Loop.Raced.{raced_loop, raced_resume_stops}
use raft_capnp.Tests.{healthy, greeting}
use raft_capnp.Tests.Nodes.{
  initialized, five, configured-Built, init-configured, running-initialized,
}

abbrev nine : Message
nine = record { to = 1; rest = 9 ∷ [] }

initialized-Built : Built initialized
initialized-Built = started configured-Built init-configured

raced_resume_deadlocks_example :
    (is_paused (record five { paused = true }) ≡ (done true, record five { paused = true }))
    × (wait_pause (resuming ∷ []) (record five { paused = true })
        ≡ (done tt, record five { paused = false }))
    × (churn_queue healthy (record five { paused = false })
        ≡ (done tt, record five { paused = false }))
    × (end_of_send healthy true (1 ∷ 9 ∷ []) (record five { paused = false })
        ≡ (blocked, record five { paused = false; locked = true }))
    × Waits is_paused (record five { paused = false; locked = true })
    × Waits (do_pause healthy false []) (record five { paused = false; locked = true })
    × Waits (churn_queue healthy) (record five { paused = false; locked = true })
    × Waits (send healthy (2 ∷ 7 ∷ [])) (record five { paused = false; locked = true })
raced_resume_deadlocks_example =
    raced_resume_deadlocks healthy initialized five (1 ∷ 9 ∷ []) (2 ∷ 7 ∷ []) nine greeting false []
      initialized-Built running-initialized refl refl

-- The loop that was raced, and then gets another message.
abbrev raced : Loop
raced = raced_loop healthy (1 ∷ 9 ∷ []) five

abbrev late : Call
late = calling_send none (ok (2 ∷ 7 ∷ []))

abbrev raced_later : Loop
raced_later = record raced { node = serve healthy late raced.node }

later_run : Reach healthy raced raced_later
later_run = next here (serve_call late)

raced_resume_stops_example :
    Reach healthy (start five) raced
    × (raced_later.stuck ≡ true)
    × (raced_later.node.locked ≡ true)
    × (raced_later.node.paused ≡ false)
    × (raced_later.node.queue ≡ [])
raced_resume_stops_example =
    raced_resume_stops healthy initialized five (1 ∷ 9 ∷ []) nine initialized-Built
      running-initialized refl later_run
