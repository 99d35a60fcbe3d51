-- ===== src/Pause.antt =====
-- raft/node.go and raft/msg.go: pausing a node, the lock of the pause flag, and the queue of the
-- messages that arrive while it is paused. A call that waits for another goroutine is `blocked`.
pub mod Frames
pub mod Deadlock
pub mod Resume
pub mod Queue
pub mod Waiting
pub mod Counts
pub mod Lock
pub mod Losses
use raft_capnp.Prelude.{⊤, List, [], ◌∷◌, ◌++◌, Bool, true, false, length, ltb, if◌then◌else◌}
use raft_capnp.Data.{CtxErr, ctx_error, Message}
use raft_capnp.Effect.{
  Act, Env, Action, pure, raise, block, lift, gets, call, try, check, modify, ◌>>=◌, ◌>>◌,
}

-- `pauseLock.Lock()`
unfoldable pub lock : Action ⊤
lock = do
  held ← gets (λ n. n.locked)
  if held then block else modify (λ n. record n { locked = true })

abbrev pub unlock : Action ⊤
unlock = modify (λ n. record n { locked = false })

unfoldable pub is_paused : Action Bool
is_paused = do lock; paused ← gets (λ n. n.paused); unlock; pure paused

unfoldable pub set_paused : Bool → Action ⊤
set_paused pause = do lock; modify (λ n. record n { paused = pause }); unlock

-- `n.queue <- msg`: a send on a Go channel goes into its buffer if that has room, and else waits
-- for a receiver. A channel that is made without a capacity has no room.
unfoldable pub enqueue : Message → Action ⊤
enqueue msg = do
  waiting ← gets (λ n. n.queue)
  room ← gets (λ n. n.queue_cap)
  if ltb (length waiting) room
      then modify (λ n. record n { queue = n.queue ++ msg ∷ [] })
      else block

-- `n.pauseLock.Lock(); n.queue <- *msg; n.pauseLock.Unlock()`
abbrev pub queue_up : Message → Action ⊤
queue_up msg = lock >> (enqueue msg >> unlock)

module _ (env : Env) where
  -- `n.Raft.Step(ctx, msg)`
  unfoldable pub raft_step : Message → Action ⊤
  raft_step msg = do check (← call (Act.step msg) (λ t. env.step t msg))

  -- The loop of `churnQueue`, on what the buffer holds. Senders need the lock, so nothing is added.
  unfoldable pub churn_loop : List Message → Action ⊤
  churn_loop [] = pure tt
  churn_loop (msg ∷ msgs) = do
    modify (λ n. record n { queue = msgs })
    raft_step msg
    churn_loop msgs

  unfoldable pub churn_queue : Action ⊤
  churn_queue = do
    lock
    waiting ← gets (λ n. n.queue)
    res ← try (churn_loop waiting)
    unlock
    lift res

-- What `waitPause` can receive while it waits.
pub data WaitEvent : Type 0 where
  pause_changed : Bool → WaitEvent
  ctx_ended : CtxErr → WaitEvent

-- `Pause` and `Resume`: the flag that they send.
abbrev pausing : WaitEvent
pausing = pause_changed true

abbrev pub resuming : WaitEvent
resuming = pause_changed false

-- `waitPause` on the events that arrive, in order. With none left and the node paused it waits.
unfoldable pub wait_pause : List WaitEvent → Action ⊤
wait_pause [] = do paused ← gets (λ n. n.paused); if paused then block else pure tt
wait_pause (pause_changed pause ∷ events) = do
  paused ← gets (λ n. n.paused)
  if paused then (set_paused pause >> wait_pause events) else pure tt
wait_pause (ctx_ended c ∷ events) = do
  paused ← gets (λ n. n.paused)
  if paused then raise (ctx_error c) else pure tt

-- What is left of `doPause` once it waits in `waitPause`.
unfoldable pub rest_of_pause : Env → List WaitEvent → Action ⊤
rest_of_pause env events = do wait_pause events; churn_queue env

unfoldable pub do_pause : Env → Bool → List WaitEvent → Action ⊤
do_pause env pause events = do set_paused pause; wait_pause events; churn_queue env
