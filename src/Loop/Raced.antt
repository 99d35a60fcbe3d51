-- ===== src/Loop/Raced.antt =====
-- A loop whose node is resumed while a `Send` stands between its test of the pause flag and the lock.
use raft_capnp.Prelude.{refl, ◌≡◌, ◌∙◌, ap, true, false, some, [], ◌∷◌}
use raft_capnp.Data.{Bytes, Message}
use raft_capnp.Effect.{Env, Node, ok, done, ◌>>=◌}
use raft_capnp.Pause.{lock, set_paused, resuming, wait_pause, do_pause}
use raft_capnp.Config.{Setup, running}
use raft_capnp.Config.Laws.{Built, unbuffered_running}
use raft_capnp.Config.Race.{resumed_wakes, late_send_waits}
use raft_capnp.Rpc.Calls.{going_on_send, end_of_send, serve}
use raft_capnp.Loop.{paused, Loop, start, round}
use raft_capnp.Loop.Reach.{IsLive, go_round, wake, serve_call, Reach, here, next}
use raft_capnp.Loop.Held.{held_for_ever}

-- A loop that waits in a handler, and has had no error yet.
abbrev stuck_at : Node → Node → Loop
stuck_at k n = record (start k) { node = n; stuck = true }

abbrev with_node : Loop → Node → Loop
with_node l n = record l { node = n }

module _ (env : Env) where
  -- The loop is paused, and waits; it receives `Resume` and leaves `waitPause`; then a `Send` of the
  -- bytes goes on that was told that the node is paused.
  abbrev pub asleep_loop : Node → Loop
  asleep_loop k = round env (paused true []) (start k)

  abbrev pub woken_loop : Node → Loop
  woken_loop k = let l = asleep_loop k in record l { node = (wait_pause (resuming ∷ []) l.node).1 }

  abbrev pub raced_loop : Bytes → Node → Loop
  raced_loop encoded k =
      let l = woken_loop k in record l { node = serve env (going_on_send true encoded) l.node }

  asleep_loop_lem :
      (k : Node)
      → k.locked ≡ false
      → asleep_loop k
        ≡ record (start k) { node = record k { paused = true; locked = false }; stuck = true }
  unfolding round start do_pause set_paused lock wait_pause ◌>>=◌
  asleep_loop_lem k free = rw free refl

  -- A node with its lock free, by its fields.
  abbrev freed : Node → Node
  freed k = record k { locked = false }

  woken_loop_lem :
      (k : Node)
      → k.locked ≡ false
      → ((wait_pause (resuming ∷ []) (asleep_loop k).node).0 ≡ done tt)
        × (woken_loop k
            ≡ record (start k) { node = record (freed k) { paused = false }; stuck = true })
  woken_loop_lem k free =
      let e = asleep_loop_lem k free in
      let over = resumed_wakes (freed k) refl in
      (
        ap (λ l. (wait_pause (resuming ∷ []) l.node).0) e ∙ ap (λ r. r.0) over,
        ap (λ l. with_node l (wait_pause (resuming ∷ []) l.node).1) e
            ∙ ap (λ r. stuck_at k r.1) over,
      )

  raced_loop_lem :
      (k : Node) (encoded : Bytes) (msg : Message)
      → k.locked ≡ false
      → k.queue_cap ≡ 0
      → k.queue ≡ []
      → env.unmarshal_message encoded ≡ ok msg
      → raced_loop encoded k
        ≡ record (start k) { node = record k { paused = false; locked = true }; stuck = true }
  unfolding serve
  raced_loop_lem k encoded msg free room empty decoded =
      ap (λ l. with_node l (end_of_send env true encoded l.node).1) (woken_loop_lem k free).1
      ∙ ap (λ r. stuck_at k r.1) (late_send_waits (freed k) refl env encoded msg decoded room empty)

  start-IsLive : (k : Node) → IsLive (start k)
  unfolding start
  start-IsLive k = (refl, refl)

  -- However a node was built, once it runs: its loop is paused and waits, receives `Resume` and leaves
  -- `waitPause`, and a `Send` of a decodable message that was told before that the node is paused takes
  -- the lock ahead of `churnQueue`. This is a run of the node, and however it goes on, the loop stays
  -- stuck and the lock stays held after every step, although the node is not paused, and the queue
  -- holds no message.
  pub raced_resume_stops :
      (n : Setup) (k : Node) (encoded : Bytes) (msg : Message) {m : Loop}
      → Built n
      → running n ≡ some k
      → env.unmarshal_message encoded ≡ ok msg
      → Reach env (raced_loop encoded k) m
      → Reach env (start k) (raced_loop encoded k)
        × (m.stuck ≡ true)
        × (m.node.locked ≡ true)
        × (m.node.paused ≡ false)
        × (m.node.queue ≡ [])
  raced_resume_stops n k encoded msg b e decoded run =
      let (room, empty, free) = unbuffered_running n k b e in
      let asleep = asleep_loop_lem k free in
      let raced = raced_loop_lem k encoded msg free room empty decoded in
      let (held, flag, queue, stuck) =
        held_for_ever env run (ap (λ l. l.node.locked) raced) (ap (λ l. l.stuck) raced) in
      (
        next
            (next (next here (go_round (paused true []) (start-IsLive k))) (
              wake (resuming ∷ []) (ap (λ l. l.stuck) asleep) (ap (λ l. l.node.locked) asleep)
                (woken_loop_lem k free).0))
            (serve_call (going_on_send true encoded)),
        stuck,
        held,
        flag ∙ ap (λ l. l.node.paused) raced,
        queue ∙ ap (λ l. l.node.queue) raced ∙ empty,
      )
