-- ===== src/Loop.antt =====
-- raft/node.go: the loop of `Start`, with the goroutines that wait to send on its stop channel.
-- What `select` receives is an event; which of several it receives is the schedule.
pub mod Reach
pub mod History
pub mod End
pub mod Membership
pub mod Pausing
pub mod Messages
pub mod Lock
pub mod Held
pub mod Raced
pub mod Exactly
pub mod Logs
pub mod Replicas
pub mod Agree
pub mod Unbuffered
use raft_capnp.Prelude.{ℕ, zero, suc, Option, none, some, List, [], ◌∷◌, ◌++◌, Bool, true, false}
use raft_capnp.Data.{CtxErr, Error, ctx_error, manually_stopped, Ready}
use raft_capnp.Effect.{Act, Env, Node, Action, Outcome, done, failed, blocked}
use raft_capnp.Pause.{WaitEvent, rest_of_pause, do_pause}
use raft_capnp.Apply.{do_ready}

-- `n.ticker.C`, `n.Raft.Ready()`, `n.pauseChan` with what `waitPause` receives then, and
-- `ctx.Done()`.
pub data Event : Type 0 where
  ticked : Event
  ready : Ready → Event
  paused : Bool → List WaitEvent → Event
  ctx_over : CtxErr → Event

-- The local `err` of `Start`, which outlives a round, and the senders that wait on `stopChan`.
-- `stopped` is the error that ended the loop; `stuck` is a loop that waits inside a handler.
pub record Loop : Type 0 where
  pub node : Node
  pub err : Option Error
  pub senders : List Error
  pub ticks : ℕ
  pub stuck : Bool
  pub stopped : Option Error

unfoldable pub start : Node → Loop
start n = record { node = n; err = none; senders = []; ticks = 0; stuck = false; stopped = none }

-- `if err != nil { go func() { n.stopChan <- err }() }`, at the end of every round
abbrev pub report : Option Error → List Error → List Error
report none senders = senders
report (some e) senders = senders ++ e ∷ []

-- The end of a round whose handler came back, with the error that `err` holds now.
abbrev pub end_round : Option Error → Loop → Loop
end_round err l = record l { err = err; senders = report err l.senders }

-- `err = n.doReady(…)` and `err = n.doPause(…)`
abbrev pub handled : Outcome (Unit {0}) × Node → Loop → Loop
handled (done x, n) l = end_round none (record l { node = n })
handled (failed e, n) l = end_round (some e) (record l { node = n })
handled (blocked, n) l = record l { node = n; stuck = true }

-- One round of the loop on a received event.
unfoldable pub round : Env → Event → Loop → Loop
round env ticked l = end_round l.err (record l { ticks = suc l.ticks })
round env (ready r) l = handled (do_ready env r l.node) l
round env (paused pause events) l = handled (do_pause env pause events l.node) l
round env (ctx_over c) l = end_round (some (ctx_error c)) l

-- A loop that waits in `waitPause` goes on with the events that come then.
unfoldable pub go_on : Env → List WaitEvent → Loop → Loop
go_on env events l = handled (rest_of_pause env events l.node) (record l { stuck = false })

-- `Stop` from another goroutine: a sender more; without a cause it makes one.
abbrev pub cause_of : Option Error → Error
cause_of none = manually_stopped
cause_of (some e) = e

unfoldable pub stop : Option Error → Loop → Loop
stop cause l = record l { senders = l.senders ++ cause_of cause ∷ [] }
