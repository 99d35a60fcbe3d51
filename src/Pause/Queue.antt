-- ===== src/Pause/Queue.antt =====
-- What resuming does to the messages that waited.
use raft_capnp.Prelude.{
  ◌⊎◌, refl, true, false, ◌≡◌, ap, Option, none, some, List, ◌∷◌, [], ◌++◌, Option-cases, inl, inr,
}
use raft_capnp.Data.{Error, Message}
use raft_capnp.Effect.{Act, Env, Node, done, failed, ◌>>=◌}
use raft_capnp.Effect.Frames.{select}
use raft_capnp.Pause.{lock, raft_step, churn_loop, churn_queue}

-- The messages given to etcd, newest first.
abbrev pub stepped : Act → Option Message
stepped (Act.step msg) = some msg
stepped _ = none

-- The messages of `msgs` in front of `l`, the last one first.
abbrev pub onto : List Message → List Message → List Message
onto [] l = l
onto (msg ∷ msgs) l = onto msgs (msg ∷ l)

-- The node when etcd has been given the first of the waiting messages.
abbrev pub given_one : Message → List Message → Node → Node
given_one msg msgs n = record n { queue = msgs; trace = Act.step msg ∷ n.trace }

module _ (env : Env) where
  pub loop-step :
      (msg : Message) (msgs : List Message) (n : Node)
      → env.step n.trace msg ≡ none
      → churn_loop env (msg ∷ msgs) n ≡ churn_loop env msgs (given_one msg msgs n)
  unfolding churn_loop raft_step ◌>>=◌
  loop-step msg msgs n h = rw h

  loop-stop :
      (msg : Message) (msgs : List Message) (n : Node) (e : Error)
      → env.step n.trace msg ≡ some e
      → churn_loop env (msg ∷ msgs) n ≡ (failed e, given_one msg msgs n)
  unfolding churn_loop raft_step ◌>>=◌
  loop-stop msg msgs n e h = rw h

  loop-prefix :
      (msgs : List Message) (n : Node)
      → n.queue ≡ msgs
      → (given left : List Message) × (msgs ≡ given ++ left)
        × ((churn_loop env msgs n).1.queue ≡ left)
        × (select stepped (churn_loop env msgs n).1.trace ≡ onto given (select stepped n.trace))
  loop-prefix [] n q = ([], [], refl, unfold churn_loop ◌>>=◌ in q, unfold churn_loop ◌>>=◌ in refl)
  loop-prefix (msg ∷ msgs) n q = elim (Option-cases (env.step n.trace msg)) [
    | inl went ↦
        let (given, left, split, rest, steps) = loop-prefix msgs (given_one msg msgs n) refl in
        (
          msg ∷ given,
          left,
          ap (λ l. msg ∷ l) split,
          rw (loop-step msg msgs n went) rest,
          rw (loop-step msg msgs n went) steps,
        )
    | inr (e, h) ↦
        (msg ∷ [], msgs, refl, rw (loop-stop msg msgs n e h), rw (loop-stop msg msgs n e h))
  ]

  loop-done :
      (msgs : List Message) (n : Node)
      → n.queue ≡ msgs
      → (churn_loop env msgs n).0 ≡ done tt
      → ((churn_loop env msgs n).1.queue ≡ [])
        × (select stepped (churn_loop env msgs n).1.trace ≡ onto msgs (select stepped n.trace))
        × ((churn_loop env msgs n).1.paused ≡ n.paused)
  unfolding churn_loop ◌>>=◌
  loop-done [] n q h = (q, refl, refl)
  loop-done (msg ∷ msgs) n q h = elim (Option-cases (env.step n.trace msg)) [
    | inl went ↦
        rw (loop-step msg msgs n went)
          (loop-done msgs (given_one msg msgs n) refl (rw (loop-step msg msgs n went) at h))
    | inr (e, stop) ↦ cc (h, loop-stop msg msgs n e stop)
  ]

  pub loop-outcome :
      (msgs : List Message) (n : Node)
      → ((churn_loop env msgs n).0 ≡ done tt)
        ⊎ ((e : Error) × ((churn_loop env msgs n).0 ≡ failed e))
  loop-outcome [] n = inl (unfold churn_loop ◌>>=◌ in refl)
  loop-outcome (msg ∷ msgs) n = elim (Option-cases (env.step n.trace msg)) [
    | inl went ↦ rw (loop-step msg msgs n went) (loop-outcome msgs (given_one msg msgs n))
    | inr (e, stop) ↦ inr (e, ap (λ r. r.0) (loop-stop msg msgs n e stop))
  ]

  -- `churnQueue` is its loop, with the lock taken before and given back after.
  pub churn_queue-loop :
      (n : Node)
      → n.locked ≡ false
      → churn_queue env n ≡ (
        (churn_loop env n.queue (record n { locked = true })).0,
        record (churn_loop env n.queue (record n { locked = true })).1 { locked = false },
      )
  unfolding churn_queue lock ◌>>=◌
  churn_queue-loop n free = elim (loop-outcome n.queue (record n { locked = true })) [
    | inl e ↦ rw (free, e)
    | inr (x, e) ↦ rw (free, e)
  ]

  -- Of a node whose pause lock is free, `churnQueue` gives etcd the waiting messages from the front
  -- of the queue on, in their order, up to some message; what it has not given stays in the queue,
  -- and the lock is free again.
  pub churn_queue_prefix :
      (n : Node)
      → n.locked ≡ false
      → (given left : List Message) × (n.queue ≡ given ++ left)
        × ((churn_queue env n).1.queue ≡ left)
        × (select stepped (churn_queue env n).1.trace ≡ onto given (select stepped n.trace))
        × ((churn_queue env n).1.locked ≡ false)
  churn_queue_prefix n free =
      let (given, left, split, rest, steps) =
        loop-prefix n.queue (record n { locked = true }) refl in
      let e = churn_queue-loop n free in (given, left, split, rw e rest, rw e steps, rw e)

  -- If `churnQueue` succeeds on a node whose pause lock is free, the queue is empty, etcd was given
  -- all that it held, in order, and the pause flag is as before.
  pub churn_queue_done :
      (n : Node)
      → n.locked ≡ false
      → (churn_queue env n).0 ≡ done tt
      → ((churn_queue env n).1.queue ≡ [])
        × (select stepped (churn_queue env n).1.trace ≡ onto n.queue (select stepped n.trace))
        × ((churn_queue env n).1.paused ≡ n.paused)
  churn_queue_done n free h =
      let e = churn_queue-loop n free in
      let (none_left, steps, same) =
        loop-done n.queue (record n { locked = true }) refl (rw e at h) in
      (rw e none_left, rw e steps, rw e same)
