-- ===== src/Pause/Resume.antt =====
-- `doPause`: the node serves nothing else until it is resumed.
use raft_capnp.Prelude.{
  refl, true, false, ◌≡◌, ◌∙◌, ap, Bool, List, ◌∷◌, [], ⊤, Bool-cases, inl, inr,
}
use raft_capnp.Effect.{Env, Node, done, ◌>>=◌, ◌>>◌}
use raft_capnp.Effect.Keeps.{>>=-done, >>=-eq-done}
use raft_capnp.Effect.Frames.{select}
use raft_capnp.Pause.{
  lock, set_paused, churn_queue, WaitEvent, pause_changed, ctx_ended, wait_pause, do_pause,
}
use raft_capnp.Pause.Queue.{stepped, onto, churn_queue_done}

-- A node that differs in the pause flag alone, with the lock free.
abbrev pub flagged : Bool → Node → Node
flagged pause n = record n { paused = pause; locked = false }

pub set_paused-free :
    (pause : Bool) (n : Node) → n.locked ≡ false → set_paused pause n ≡ (done tt, flagged pause n)
unfolding set_paused lock ◌>>=◌
set_paused-free pause n free = rw free

pub wait-step :
    (pause : Bool) (events : List WaitEvent) (n : Node)
    → n.locked ≡ false
    → n.paused ≡ true
    → wait_pause (pause_changed pause ∷ events) n ≡ wait_pause events (flagged pause n)
unfolding wait_pause set_paused lock ◌>>=◌
wait-step pause events n free paused = rw (paused, free)

-- `waitPause` ends well only in a node that is not paused; it has changed the flag at most.
pub wait_pause-done :
    (events : List WaitEvent) (n : Node)
    → n.locked ≡ false
    → (wait_pause events n).0 ≡ done tt
    → (wait_pause events n).1 ≡ flagged false n
wait_pause-done [] n free h = elim (Bool-cases n.paused) [
  | inl paused ↦ unfold wait_pause ◌>>=◌ in cc (rw paused at h)
  | inr running ↦ unfold wait_pause ◌>>=◌ in rw (running, free)
]
wait_pause-done (pause_changed pause ∷ events) n free h = elim (Bool-cases n.paused) [
  | inl paused ↦
      let e = wait-step pause events n free paused in
      ap (λ r. r.1) e ∙ wait_pause-done events (flagged pause n) refl (rw e at h)
  | inr running ↦ unfold wait_pause ◌>>=◌ in rw (running, free)
]
wait_pause-done (ctx_ended c ∷ events) n free h = elim (Bool-cases n.paused) [
  | inl paused ↦ unfold wait_pause ◌>>=◌ in cc (rw paused at h)
  | inr running ↦ unfold wait_pause ◌>>=◌ in rw (running, free)
]

module _ (env : Env) where
  -- If `doPause` succeeds on a node whose pause lock is free, the node is not paused, the queue is
  -- empty, and etcd was given every message that waited in it, in the order of the queue.
  pub do_pause_done :
      (pause : Bool) (events : List WaitEvent) (n : Node)
      → n.locked ≡ false
      → (do_pause env pause events n).0 ≡ done tt
      → ((do_pause env pause events n).1.paused ≡ false)
        × ((do_pause env pause events n).1.queue ≡ [])
        × (select stepped (do_pause env pause events n).1.trace
            ≡ onto n.queue (select stepped n.trace))
  unfolding do_pause
  do_pause_done pause events n free h =
      let waiting = λ (x : ⊤). wait_pause events >> churn_queue env in
      let rest = λ (x : ⊤). churn_queue env in
      let set = set_paused-free pause n free in
      let e =
        >>=-done waiting (set_paused pause) n (ap (λ r. r.0) set)
        ∙ ap (λ r. (wait_pause events >> churn_queue env) r.1) set in
      let (x, first, eq) = >>=-eq-done rest (wait_pause events) (flagged pause n) (rw e at h) in
      let over = wait_pause-done events (flagged pause n) refl first in
      let eq' = e ∙ eq ∙ ap (churn_queue env) over in
      let (empty, steps, same) = churn_queue_done env (flagged false n) refl (rw eq' at h) in
      (rw eq' same, rw eq' empty, rw eq' steps)
