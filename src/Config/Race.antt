-- ===== src/Config/Race.antt =====
-- raft/capnp.go and raft/node.go: a `Send` that tests the pause flag before `Resume` and takes the
-- lock after it.
use raft_capnp.Prelude.{refl, ◌≡◌, some, Bool, List, [], ◌∷◌, true, false, arith}
use raft_capnp.Data.{Bytes, Message}
use raft_capnp.Effect.{Env, Node, ok, done, blocked, ◌>>=◌}
use raft_capnp.Pause.{
  lock, is_paused, set_paused, enqueue, churn_loop, churn_queue, WaitEvent, resuming, wait_pause,
  do_pause,
}
use raft_capnp.Pause.Deadlock.{Waits, locked-Waits}
use raft_capnp.Rpc.{send}
use raft_capnp.Rpc.Calls.{end_of_send}
use raft_capnp.Config.{Setup, running}
use raft_capnp.Config.Laws.{Built, unbuffered_running}

-- The steps of the race between `Send` and `Resume`, at a node with a free lock and no buffer.
module _ (k : Node) (free : k.locked ≡ false) where
  asleep_told : is_paused (record k { paused = true }) ≡ (done true, record k { paused = true })
  unfolding is_paused lock ◌>>=◌
  asleep_told = rw free (ground (arith, free))

  pub resumed_wakes :
      wait_pause (resuming ∷ []) (record k { paused = true })
      ≡ (done tt, record k { paused = false })
  unfolding wait_pause set_paused lock ◌>>=◌
  resumed_wakes = rw free (ground (arith, free))

  churned_empty :
      (env : Env)
      → k.queue ≡ []
      → churn_queue env (record k { paused = false }) ≡ (done tt, record k { paused = false })
  unfolding churn_queue churn_loop lock ◌>>=◌
  churned_empty env empty = rw (free, empty) (ground (arith, free, empty))

  pub late_send_waits :
      (env : Env) (encoded : Bytes) (msg : Message)
      → env.unmarshal_message encoded ≡ ok msg
      → k.queue_cap ≡ 0
      → k.queue ≡ []
      → end_of_send env true encoded (record k { paused = false })
        ≡ (blocked, record k { paused = false; locked = true })
  unfolding end_of_send enqueue lock ◌>>=◌
  late_send_waits env encoded msg decoded cap empty =
      rw (decoded, free, cap, empty) (ground (arith, cap, empty))

-- However a node was built, once it runs and is paused: `IsPaused` tells a `Send` of a decodable
-- message so, and `Resume` ends `waitPause` and leaves the node not paused with its lock free. There
-- `churnQueue` succeeds and changes nothing, and what is left of that `Send` waits on the queue with
-- the lock held. From then on reading the flag, a new pause, `churnQueue` and every decodable message
-- wait and change nothing, at a node that is not paused.
pub raced_resume_deadlocks :
    (env : Env) (n : Setup) (k : Node) (encoded later : Bytes) (msg msg' : Message) (pause : Bool)
    (events : List WaitEvent)
    → Built n
    → running n ≡ some k
    → env.unmarshal_message encoded ≡ ok msg
    → env.unmarshal_message later ≡ ok msg'
    → (is_paused (record k { paused = true }) ≡ (done true, record k { paused = true }))
      × (wait_pause (resuming ∷ []) (record k { paused = true })
          ≡ (done tt, record k { paused = false }))
      × (churn_queue env (record k { paused = false }) ≡ (done tt, record k { paused = false }))
      × (end_of_send env true encoded (record k { paused = false })
          ≡ (blocked, record k { paused = false; locked = true }))
      × Waits is_paused (record k { paused = false; locked = true })
      × Waits (do_pause env pause events) (record k { paused = false; locked = true })
      × Waits (churn_queue env) (record k { paused = false; locked = true })
      × Waits (send env later) (record k { paused = false; locked = true })
raced_resume_deadlocks env n k encoded later msg msg' pause events b e decoded decoded' =
    let (cap, empty, free) = unbuffered_running n k b e in
    let stuck =
      locked-Waits env (record k { paused = false; locked = true }) later msg' pause events refl
        decoded' in
    (
      asleep_told k free,
      resumed_wakes k free,
      churned_empty k free env empty,
      late_send_waits k free env encoded msg decoded cap empty,
      stuck.0,
      stuck.1,
      stuck.2,
      stuck.3,
    )
