-- ===== src/Pause/Frames.antt =====
-- raft/node.go: what a pause leaves alone, and the rules for it.
use raft_capnp.Prelude.{◌≡◌, ltb, length, Option, List, [], ◌∷◌, ◌++◌, Bool, arith}
use raft_capnp.Data.{Error, Message}
use raft_capnp.Effect.{Act, Trace, Env, Node, modify, block, call, ◌>>=◌}
use raft_capnp.Effect.Keeps.{IsPreorder, Keeps, Keeps-bind, Keeps-if, keeps_rules}
use raft_capnp.Effect.Frames.{IsFrame}
use raft_capnp.Pause.{
  lock, is_paused, set_paused, enqueue, raft_step, churn_loop, churn_queue, WaitEvent,
  pause_changed, ctx_ended, wait_pause, rest_of_pause, do_pause,
}

-- The identifier, the peers and the items stay as they are.
pub record SameData (n n' : Node) : Type 0 where
  pub data_id : n'.id ≡ n.id
  pub data_peers : n'.peers ≡ n.peers
  pub data_items : n'.items ≡ n.items

data_preorder : IsPreorder SameData
data_preorder = record { refl_at = λ n. ground arith; trans_at = λ n m k p q. ground arith }

data_frame : IsFrame SameData
unfolding ◌>>=◌
data_frame = record {
  preorder = data_preorder;
  quiet_call = λ A a f q. record { at = λ n. ground arith };
}

-- A frame that also the lock and the flag of a pause keep.
pub record IsPauseFrame (R : Node → Node → Type 0) : Type 1 where
  pub frame : IsFrame R
  pub hold : (b : Bool) → Keeps R (modify (λ n. record n { locked = b }))
  pub flag : (b : Bool) → Keeps R (modify (λ n. record n { paused = b }))

-- What setting the flag keeps, `waitPause` keeps.
pub Keeps-wait_pause :
    {R : Node → Node → Type 0}
    → IsPreorder R
    → ((pause : Bool) → Keeps R (set_paused pause))
    → (events : List WaitEvent) → Keeps R (wait_pause events)
unfolding wait_pause
Keeps-wait_pause pre set [] = search (keeps_rules, pre)
Keeps-wait_pause pre set (pause_changed pause ∷ events) =
    Keeps-bind pre _ _ (search (keeps_rules, pre)) (λ paused.
      Keeps-if paused _ _ (Keeps-bind pre _ _ (set pause) (λ x. Keeps-wait_pause pre set events))
        (search (keeps_rules, pre)))
Keeps-wait_pause pre set (ctx_ended c ∷ events) = search (keeps_rules, pre)

module _ {R : Node → Node → Type 0} (pr : IsPauseFrame R) where
  pub Frame-lock : Keeps R lock
  unfolding lock
  Frame-lock = search (keeps_rules, pr.frame.preorder, pr.hold)

  pub Frame-is_paused : Keeps R is_paused
  unfolding is_paused
  Frame-is_paused = search (keeps_rules, pr.frame.preorder, pr.hold, Frame-lock)

  pub Frame-set_paused : (pause : Bool) → Keeps R (set_paused pause)
  unfolding set_paused
  Frame-set_paused pause = search (keeps_rules, pr.frame.preorder, pr.hold, pr.flag, Frame-lock)

  pub Frame-wait_pause : (events : List WaitEvent) → Keeps R (wait_pause events)
  Frame-wait_pause events = Keeps-wait_pause pr.frame.preorder Frame-set_paused events

-- What appending to the queue keeps, the send on the queue keeps.
pub Keeps-enqueue :
    {R : Node → Node → Type 0}
    → IsPreorder R
    → (msg : Message) → Keeps R (modify (λ n. record n { queue = n.queue ++ msg ∷ [] }))
    → Keeps R (enqueue msg)
unfolding enqueue
Keeps-enqueue pre msg appends = Keeps-bind pre _ _ (search (keeps_rules, pre)) (λ waiting.
    Keeps-bind pre _ _ (search (keeps_rules, pre))
      (λ room. Keeps-if (ltb (length waiting) room) _ block appends (search (keeps_rules, pre))))

-- A frame that also the queue and the messages given to etcd keep.
pub record IsQueueFrame (R : Node → Node → Type 0) : Type 1 where
  pub pauses : IsPauseFrame R
  pub queue_free : (f : Node → List Message) → Keeps R (modify (λ n. record n { queue = f n }))
  pub step_free : (msg : Message) (f : Trace → Option Error) → Keeps R (call (Act.step msg) f)

module _ {R : Node → Node → Type 0} (qr : IsQueueFrame R) where
  pre : IsPreorder R
  pre = qr.pauses.frame.preorder

  pub Frame-enqueue : (msg : Message) → Keeps R (enqueue msg)
  Frame-enqueue msg = Keeps-enqueue pre msg (qr.queue_free (λ n. n.queue ++ msg ∷ []))

  module _ (env : Env) where
    pub Frame-raft_step : (msg : Message) → Keeps R (raft_step env msg)
    unfolding raft_step
    Frame-raft_step msg = search (keeps_rules, pre, qr.step_free)

    Frame-churn_loop : (msgs : List Message) → Keeps R (churn_loop env msgs)
    unfolding churn_loop
    Frame-churn_loop [] = search (keeps_rules, pre)
    Frame-churn_loop (msg ∷ msgs) =
        Keeps-bind pre _ _ (qr.queue_free (λ n. msgs))
          (λ x. Keeps-bind pre _ _ (Frame-raft_step msg) (λ y. Frame-churn_loop msgs))

    held : Keeps R lock
    held = Frame-lock qr.pauses

    Frame-churn_queue : Keeps R (churn_queue env)
    unfolding churn_queue
    Frame-churn_queue = search (keeps_rules, pre, qr.pauses.hold, held, Frame-churn_loop) depth 9

    pub Frame-rest_of_pause : (events : List WaitEvent) → Keeps R (rest_of_pause env events)
    unfolding rest_of_pause
    Frame-rest_of_pause events =
        search (keeps_rules, pre, Frame-wait_pause qr.pauses, Frame-churn_queue)

    -- What `doPause` keeps, however it ends.
    pub Frame-do_pause :
        (pause : Bool) (events : List WaitEvent) → Keeps R (do_pause env pause events)
    unfolding do_pause
    Frame-do_pause pause events =
        search
          (
            keeps_rules,
            pre,
            Frame-set_paused qr.pauses,
            Frame-wait_pause qr.pauses,
            Frame-churn_queue,
          )
          depth 9

-- The writes of the lock, of the flag and of the queue leave the data alone.
pub data_queue : IsQueueFrame SameData
unfolding ◌>>=◌
data_queue = record {
  pauses = record {
    frame = data_frame;
    hold = λ b. record { at = λ n. ground arith };
    flag = λ b. record { at = λ n. ground arith };
  };
  queue_free = λ f. record { at = λ n. ground arith };
  step_free = λ msg f. record { at = λ n. ground arith };
}
