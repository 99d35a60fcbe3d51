-- ===== src/Loop/End.antt =====
-- raft/node.go: how the loop ends, with `doStop`, the deferred `close`, and the senders that are left.
use raft_capnp.Prelude.{
  refl, sym, ◌≡◌, ◌≢◌, ◌∙◌, ap, ℕ, suc, ◌<◌, Option, none, some, List, [], ◌∷◌, ◌++◌, Bool, true,
  false, length, length-append, replicate, arith, if◌then◌else◌,
}
use raft_capnp.Data.{Error}
use raft_capnp.Effect.{Env, Node}
use raft_capnp.Loop.{Loop, start}
use raft_capnp.Loop.Reach.{
  IsLive, Step, receive_stop, Reach, error_is_notified, tick_rounds, ticks_repeat_error,
}

-- What is left after `doStop`: `Fatalf` of the logger may end the process, as that of etcd's default
-- logger does.
pub data Stopping : Type 0 where
  exited : Stopping
  raft_stopped : Stopping

-- `doStop`, with whether `Fatalf` ends the process.
unfoldable pub do_stop : Bool → Option Error → Stopping
do_stop exits none = raft_stopped
do_stop exits (some e) = if exits then exited else raft_stopped

-- Closing a channel panics in every goroutine that waits to send on it.
pub data Ending : Type 0 where
  process_exited : Ending
  senders_panicked : List Error → Ending
  ended : Ending

abbrev pub close_stop_chan : List Error → Ending
close_stop_chan [] = ended
close_stop_chan (e ∷ waiting) = senders_panicked (e ∷ waiting)

abbrev pub after_stop : Stopping → List Error → Ending
after_stop exited waiting = process_exited
after_stop raft_stopped waiting = close_stop_chan waiting

-- The `case` of `stopChan`: the deferred calls run last in, first out, so `doStop` and then `close`.
unfoldable pub end_loop : Bool → Error → List Error → Ending
end_loop exits e waiting = after_stop (do_stop exits (some e)) waiting

-- Senders that wait keep the loop from an end without harm.
no_clean_end :
    (exits : Bool) (e : Error) (waiting : List Error)
    → 0 < length waiting
    → end_loop exits e waiting ≢ ended
unfolding end_loop do_stop
no_clean_end true e waiting h q = cc q
no_clean_end false e [] h q = omega (arith, h)
no_clean_end false e (x ∷ waiting) h q = cc q

module _ (env : Env) where
  first_sender :
      (l : Loop) (senders : List Error)
      → IsLive l
      → l.senders ≡ senders
      → 0 < length senders
      → (m : Loop) × Step env l m × (m.stopped ≢ none)
  first_sender l [] live q h = absurd (omega (arith, h))
  first_sender l (e ∷ waiting) live q h = (
    record l { senders = waiting; stopped = some e },
    receive_stop [] waiting e live q,
    λ bad. cc bad,
  )

  -- In every run of a started node, while the loop goes on with an error in `err`, some step ends it.
  pub error_can_stop :
      (n : Node) (l : Loop)
      → Reach env (start n) l
      → IsLive l
      → l.err ≢ none
      → (m : Loop) × Step env l m × (m.stopped ≢ none)
  error_can_stop n l run live bad =
      first_sender l l.senders live refl (error_is_notified env n l run live bad)

  -- If a tick or more follow an error before the loop receives a stop, the loop cannot end without
  -- harm: whichever sender it hears, another one still waits when the channel is closed, and panics
  -- unless the logger has ended the process before.
  pub late_stop_panics :
      (exits : Bool) (k : ℕ) (n : Node) (l : Loop) (e x : Error) (before after : List Error)
      → Reach env (start n) l
      → IsLive l
      → l.err ≡ some e
      → (tick_rounds env (suc k) l).senders ≡ before ++ x ∷ after
      → end_loop exits x (before ++ after) ≢ ended
  late_stop_panics exits k n l e x before after run live bad split =
      let waits = error_is_notified env n l run live (λ q. cc (q, bad)) in
      let piled = ap length (sym (ticks_repeat_error env (suc k) l e bad).0 ∙ split) in
      no_clean_end exits x (before ++ after) (
        omega (
          arith,
          waits,
          piled,
          length-append l.senders (replicate (suc k) e),
          length-append before (x ∷ after),
          length-append before after,
        ))
