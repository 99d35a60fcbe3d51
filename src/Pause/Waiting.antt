-- ===== src/Pause/Waiting.antt =====
-- A pause that waits, and goes on when more events come.
use raft_capnp.Prelude.{
  refl, sym, ◌≡◌, ◌≢◌, ◌∙◌, ap, false, true, List, [], ◌∷◌, ◌++◌, ⊤, inl, inr, Bool-cases,
}
use raft_capnp.Effect.{Env, Node, done, blocked, ◌>>=◌}
use raft_capnp.Effect.Keeps.{>>=-done, >>=-blocked, >>=-eq-blocked}
use raft_capnp.Pause.{
  lock, set_paused, churn_queue, WaitEvent, pause_changed, resuming, ctx_ended, wait_pause,
  rest_of_pause,
}
use raft_capnp.Pause.Queue.{loop-outcome, churn_queue-loop, churn_queue_prefix}
use raft_capnp.Pause.Resume.{flagged, wait-step, wait_pause-done}

wait_pause-more :
    (events more : List WaitEvent) (n : Node)
    → n.locked ≡ false
    → (wait_pause events n).0 ≡ blocked
    → (wait_pause (events ++ more) n ≡ wait_pause more (wait_pause events n).1)
      × ((wait_pause events n).1.locked ≡ false)
wait_pause-more [] more n free h = elim (Bool-cases n.paused) [
  | inl paused ↦
      let same : wait_pause [] n ≡ (blocked, n) = unfold wait_pause ◌>>=◌ in rw paused in
      (ap (λ r. wait_pause more r.1) (sym same), ap (λ r. r.1.locked) same ∙ free)
  | inr running ↦ absurd (unfold wait_pause ◌>>=◌ in cc (rw running at h))
]
wait_pause-more (pause_changed pause ∷ events) more n free h = elim (Bool-cases n.paused) [
  | inl paused ↦
      let e = wait-step pause events n free paused in
      let (rest, free') = wait_pause-more events more (flagged pause n) refl (rw e at h) in
      (
        wait-step pause (events ++ more) n free paused
            ∙ rest
            ∙ ap (λ r. wait_pause more r.1) (sym e),
        ap (λ r. r.1.locked) e ∙ free',
      )
  | inr running ↦ absurd (unfold wait_pause ◌>>=◌ in cc (rw running at h))
]
wait_pause-more (ctx_ended c ∷ events) more n free h = elim (Bool-cases n.paused) [
  | inl paused ↦ absurd (unfold wait_pause ◌>>=◌ in cc (rw paused at h))
  | inr running ↦ absurd (unfold wait_pause ◌>>=◌ in cc (rw running at h))
]

module _ (env : Env) where
  churn_queue-returns : (n : Node) → n.locked ≡ false → (churn_queue env n).0 ≢ blocked
  churn_queue-returns n free h = elim (loop-outcome env n.queue (record n { locked = true })) [
    | inl e ↦ cc (ap (λ r. r.0) (churn_queue-loop env n free), e, h)
    | inr (x, e) ↦ cc (ap (λ r. r.0) (churn_queue-loop env n free), e, h)
  ]

  -- With its lock free, what is left of `doPause` waits only in `waitPause`. When more events come
  -- then, it goes on as if they had been there before.
  pub rest_of_pause-more :
      (events more : List WaitEvent) (n : Node)
      → n.locked ≡ false
      → (rest_of_pause env events n).0 ≡ blocked
      → (rest_of_pause env (events ++ more) n
          ≡ rest_of_pause env more (rest_of_pause env events n).1)
        × ((rest_of_pause env events n).1.locked ≡ false)
  unfolding rest_of_pause
  rest_of_pause-more events more n free h =
      let k = λ (x : ⊤). churn_queue env in
      elim (>>=-blocked k (wait_pause events) n h) [
        | inl waits ↦
            let (same, free') = wait_pause-more events more n free waits in
            let e = >>=-eq-blocked k (wait_pause events) n waits in
            (unfold ◌>>=◌ in rw same (rw waits), ap (λ r. r.1.locked) e ∙ free')
        | inr (x, over, stuck) ↦
            let e = wait_pause-done events n free over in
            absurd (churn_queue-returns (wait_pause events n).1 (ap (λ m. m.locked) e) stuck)
      ]

  wait_pause-resumed : (n : Node) → n.locked ≡ false → (wait_pause (resuming ∷ []) n).0 ≡ done tt
  unfolding wait_pause set_paused lock ◌>>=◌
  wait_pause-resumed n free = elim (Bool-cases n.paused) [
    | inl paused ↦ rw (paused, free)
    | inr running ↦ rw running
  ]

  -- A node that is told to run on waits no longer.
  pub rest_of_pause-resumed :
      (n : Node)
      → n.locked ≡ false
      → ((rest_of_pause env (resuming ∷ []) n).0 ≢ blocked)
        × ((rest_of_pause env (resuming ∷ []) n).1.locked ≡ false)
  unfolding rest_of_pause
  rest_of_pause-resumed n free =
      let over = wait_pause-resumed n free in
      let e = >>=-done (λ (x : ⊤). churn_queue env) (wait_pause (resuming ∷ [])) n over in
      let left = wait_pause-done (resuming ∷ []) n free over in
      let m = (wait_pause (resuming ∷ []) n).1 in
      let free' : m.locked ≡ false = ap (λ k. k.locked) left in
      let (given, rest, split, waits, steps, after) = churn_queue_prefix env m free' in
      (λ h. churn_queue-returns m free' (sym (ap (λ r. r.0) e) ∙ h), ap (λ r. r.1.locked) e ∙ after)
