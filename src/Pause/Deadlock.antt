-- ===== src/Pause/Deadlock.antt =====
-- What the pause lock and a queue without room do to a paused node.
use raft_capnp.Prelude.{
  refl, true, false, ◌≡◌, Bool, ℕ, ◌≤◌, List, ◌∷◌, [], ◌++◌, length, ltb, arith,
}
use raft_capnp.Data.{Bytes, Message}
use raft_capnp.Effect.{Env, Node, Action, ok, done, blocked, ◌>>=◌}
use raft_capnp.Pause.{
  lock, is_paused, set_paused, enqueue, churn_queue, WaitEvent, pause_changed, wait_pause,
  rest_of_pause, do_pause,
}
use raft_capnp.Rpc.{send}

-- A method that takes the pause lock while another goroutine holds it.
abbrev pub Waits : {A : Type 0} → Action A → Node → Type 0
Waits m n = m n ≡ (blocked, n)

no_room : (k cap : ℕ) → cap ≤ k → ltb k cap ≡ false
no_room k cap h = ground arith

module _ (env : Env) where
  -- While the pause lock is held, reading the flag, writing it (what Pause and Resume lead to),
  -- draining the queue, and every decodable message that arrives, all wait and change nothing.
  pub locked-Waits :
      (n : Node) (encoded : Bytes) (msg : Message) (pause : Bool) (events : List WaitEvent)
      → n.locked ≡ true
      → env.unmarshal_message encoded ≡ ok msg
      → Waits is_paused n
        × Waits (do_pause env pause events) n
        × Waits (churn_queue env) n
        × Waits (send env encoded) n
  unfolding is_paused set_paused do_pause churn_queue send lock ◌>>=◌
  locked-Waits n encoded msg pause events held decoded =
      (rw held, rw held, rw held, rw (decoded, held))

  -- A loop that waits in `waitPause` cannot set the flag that it receives.
  waiting-Waits :
      (n : Node) (pause : Bool) (events : List WaitEvent)
      → n.locked ≡ true
      → n.paused ≡ true
      → Waits (rest_of_pause env (pause_changed pause ∷ events)) n
  unfolding rest_of_pause wait_pause set_paused lock ◌>>=◌
  waiting-Waits n pause events held paused = rw (paused, held)

  send_full :
      (n : Node) (encoded : Bytes) (msg : Message)
      → n.locked ≡ false
      → n.paused ≡ true
      → ltb (length n.queue) n.queue_cap ≡ false
      → env.unmarshal_message encoded ≡ ok msg
      → send env encoded n ≡ (blocked, record n { locked = true })
  unfolding send is_paused lock enqueue ◌>>=◌
  send_full n encoded msg free paused full decoded = rw (decoded, free, paused, full)

  -- A decodable message that arrives at a paused node whose queue has no room never returns: it
  -- waits on the queue, with the pause lock held and the message in no queue. From then on pausing,
  -- resuming and every decodable message wait too: a new pause, a loop that already waits in
  -- `waitPause` and receives a flag, and any message that arrives later.
  pub paused_send_deadlocks :
      (n : Node) (encoded later : Bytes) (msg msg' : Message) (pause : Bool)
      (events : List WaitEvent)
      → n.locked ≡ false
      → n.paused ≡ true
      → n.queue_cap ≤ length n.queue
      → env.unmarshal_message encoded ≡ ok msg
      → env.unmarshal_message later ≡ ok msg'
      → (send env encoded n ≡ (blocked, record n { locked = true }))
        × Waits (do_pause env pause events) (send env encoded n).1
        × Waits (rest_of_pause env (pause_changed pause ∷ events)) (send env encoded n).1
        × Waits (send env later) (send env encoded n).1
  paused_send_deadlocks n encoded later msg msg' pause events free paused full decoded decoded' =
      let stuck =
        send_full n encoded msg free paused (no_room (length n.queue) n.queue_cap full) decoded in
      let waits = locked-Waits (record n { locked = true }) later msg' pause events refl decoded' in
      (
        stuck,
        rw stuck waits.1,
        rw stuck (waiting-Waits (record n { locked = true }) pause events refl paused),
        rw stuck waits.3,
      )

  -- With room in the queue a message that arrives at a paused node is put at its end, nothing is
  -- given to etcd, and the lock is free again.
  pub paused_send_queues :
      (n : Node) (encoded : Bytes) (msg : Message)
      → n.locked ≡ false
      → n.paused ≡ true
      → ltb (length n.queue) n.queue_cap ≡ true
      → env.unmarshal_message encoded ≡ ok msg
      → send env encoded n ≡ (done tt, record n { locked = false; queue = n.queue ++ msg ∷ [] })
  unfolding send is_paused lock enqueue ◌>>=◌
  paused_send_queues n encoded msg free paused room decoded = rw (decoded, free, paused, room)
