-- ===== src/Loop/Reach.antt =====
-- The runs of the loop, and when it can stop.
use raft_capnp.Prelude.{
  refl, sym, ◌≡◌, ◌≢◌, ◌∙◌, ap, ℕ, zero, suc, ◌<◌, Option, none, some, List, [], ◌∷◌, ◌++◌, false,
  true, length, length-append, arith, replicate,
}
use mathlib.Core.List.{append-nil, append_assoc}
use raft_capnp.Data.{Error, ctx_error}
use raft_capnp.Effect.{Env, Node, Outcome, done, failed, blocked}
use raft_capnp.Apply.{do_ready}
use raft_capnp.Pause.{WaitEvent, wait_pause, rest_of_pause, do_pause}
use raft_capnp.Rpc.Calls.{Call, serve}
use raft_capnp.Loop.{
  Event, ticked, ready, paused, ctx_over, Loop, start, report, end_round, handled, round, go_on,
  cause_of, stop,
}

-- A loop that goes on: it has not received a stop and waits inside no handler.
abbrev pub IsLive : Loop → Type 0
IsLive l = (l.stuck ≡ false) × (l.stopped ≡ none)

-- The steps of a started node: a round, a call of `Stop`, a served call or the end of one, what a loop
-- that waits in `waitPause` does next, and the `case` of `stopChan`, which takes one of the waiting
-- senders and ends the loop. In `resume` the loop goes on through `churnQueue`. In `wake` it leaves
-- `waitPause` and has not come to the lock of `churnQueue` yet, so that calls can be served in
-- between; `resume` with no event goes on from there.
pub data Step (env : Env) (l : Loop) : Loop → Type 0 where
  go_round : (e : Event) → IsLive l → Step env l (round env e l)
  resume :
      (events : List WaitEvent)
      → l.stuck ≡ true
      → l.node.locked ≡ false
      → Step env l (go_on env events l)
  wake :
      (events : List WaitEvent)
      → l.stuck ≡ true
      → l.node.locked ≡ false
      → (wait_pause events l.node).0 ≡ done tt
      → Step env l (record l { node = (wait_pause events l.node).1 })
  call_stop : (cause : Option Error) → Step env l (stop cause l)
  serve_call : (c : Call) → Step env l (record l { node = serve env c l.node })
  receive_stop :
      (before after : List Error) (e : Error)
      → IsLive l
      → l.senders ≡ before ++ e ∷ after
      → Step env l (record l { senders = before ++ after; stopped = some e })

pub data Reach (env : Env) (l : Loop) : Loop → Type 0 where
  here : Reach env l l
  next : {k m : Loop} → Reach env l k → Step env k m → Reach env l m

-- A pending error always has a sender that waits to stop the loop.
pub record IsNotified (l : Loop) : Type 0 where
  pub notified : IsLive l → l.err ≢ none → 0 < length l.senders

end_round-IsNotified : (err : Option Error) (l : Loop) → IsNotified (end_round err l)
end_round-IsNotified none l = record { notified = λ live bad. absurd (bad refl) }
end_round-IsNotified (some e) l = record {
  notified = λ live bad. omega (arith, length-append l.senders (e ∷ []));
}

handled-IsNotified : (r : Outcome (Unit {0}) × Node) (l : Loop) → IsNotified (handled r l)
handled-IsNotified (done x, n) l = end_round-IsNotified none (record l { node = n })
handled-IsNotified (failed e, n) l = end_round-IsNotified (some e) (record l { node = n })
handled-IsNotified (blocked, n) l = record { notified = λ live bad. cc live.0 }

module _ (env : Env) where
  round-IsNotified : (e : Event) (l : Loop) → IsNotified (round env e l)
  unfolding round
  round-IsNotified ticked l = end_round-IsNotified l.err (record l { ticks = suc l.ticks })
  round-IsNotified (ready r) l = handled-IsNotified (do_ready env r l.node) l
  round-IsNotified (paused pause events) l = handled-IsNotified (do_pause env pause events l.node) l
  round-IsNotified (ctx_over c) l = end_round-IsNotified (some (ctx_error c)) l

  go_on-IsNotified : (events : List WaitEvent) (l : Loop) → IsNotified (go_on env events l)
  unfolding go_on
  go_on-IsNotified events l =
      handled-IsNotified (rest_of_pause env events l.node) (record l { stuck = false })

  stop-IsNotified : (cause : Option Error) (l : Loop) → IsNotified (stop cause l)
  unfolding stop
  stop-IsNotified cause l = record {
    notified = λ live bad. omega (arith, length-append l.senders (cause_of cause ∷ []));
  }

  Step-IsNotified : {l m : Loop} → Step env l m → IsNotified l → IsNotified m
  Step-IsNotified {l} (go_round e live) h = round-IsNotified e l
  Step-IsNotified {l} (resume events waits free) h = go_on-IsNotified events l
  Step-IsNotified (wake events waits free over) h = record {
    notified = λ live bad. cc (live.0, waits);
  }
  Step-IsNotified {l} (call_stop cause) h = stop-IsNotified cause l
  Step-IsNotified (serve_call c) h = record { notified = h.notified }
  Step-IsNotified (receive_stop before after e live split) h = record {
    notified = λ ended bad. cc ended.1;
  }

  Reach-IsNotified : {l m : Loop} → Reach env l m → IsNotified l → IsNotified m
  Reach-IsNotified here h = h
  Reach-IsNotified (next run s) h = Step-IsNotified s (Reach-IsNotified run h)

  start-IsNotified : (n : Node) → IsNotified (start n)
  unfolding start
  start-IsNotified n = record { notified = λ live bad. absurd (bad refl) }

  -- In every run of a started node, while the loop goes on with an error in `err`, somebody waits
  -- to stop it.
  pub error_is_notified :
      (n : Node) (l : Loop) → Reach env (start n) l → IsLive l → l.err ≢ none → 0 < length l.senders
  error_is_notified n l run live bad = (Reach-IsNotified run (start-IsNotified n)).notified live bad

  -- `k` ticks in a row.
  abbrev pub tick_rounds : ℕ → Loop → Loop
  tick_rounds zero l = l
  tick_rounds (suc k) l = tick_rounds k (round env ticked l)

  -- Every tick that follows an error starts one more goroutine that sends that same error: `k`
  -- ticks leave `k` more of them, and nothing of what the ticks do clears the error.
  pub ticks_repeat_error :
      (k : ℕ) (l : Loop) (e : Error)
      → l.err ≡ some e
      → ((tick_rounds k l).senders ≡ l.senders ++ replicate k e) × ((tick_rounds k l).err ≡ some e)
  unfolding round
  ticks_repeat_error zero l e h = (sym (append-nil l.senders), h)
  ticks_repeat_error (suc k) l e h =
      let later = ticks_repeat_error k (round env ticked l) e h in
      let reported : report l.err l.senders ≡ l.senders ++ e ∷ [] =
        ap (λ r. report r l.senders) h in
      (
        later.0
            ∙ ap (λ s. s ++ replicate k e) reported
            ∙ append_assoc l.senders (e ∷ []) (replicate k e),
        later.1,
      )
