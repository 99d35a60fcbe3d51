-- ===== src/Pause/Losses.antt =====
-- raft/node.go and raft/msg.go: no message is lost where the lock of the pause flag is free in the
-- end; a message that waits for room in the queue keeps it.
use raft_capnp.Prelude.{
  true, false, ◌≡◌, ◌≤◌, ◌+◌, ap, ℕ, Bool, one, count_by, count_by-append, List, [], ◌∷◌, arith,
  inl, inr, Bool-cases, ltb, length,
}
use raft_capnp.Data.{Message}
use raft_capnp.Effect.{Act, Trace, Env, Node, Action, call, ◌>>=◌, ◌>>◌}
use raft_capnp.Effect.Keeps.{IsPreorder, Keeps, Keeps-seq, keeps_rules}
use raft_capnp.Effect.Frames.{select, IsFrame, PeersFree, ItemsFree}
use raft_capnp.Pause.{
  lock, unlock, set_paused, enqueue, raft_step, churn_queue, WaitEvent, wait_pause, rest_of_pause,
  do_pause,
}
use raft_capnp.Pause.Frames.{Keeps-wait_pause}
use raft_capnp.Pause.Queue.{stepped, churn_queue_prefix}
use raft_capnp.Pause.Resume.{set_paused-free}
use raft_capnp.Pause.Counts.{count_by-onto, weight}

-- Where the lock is free afterwards it was so before, and there are at least `k` messages more.
pub record AtLeast (p : Message → Bool) (k : ℕ) (n n' : Node) : Type 0 where
  pub kept : n'.locked ≡ false → (n.locked ≡ false) × (k + weight p n ≤ weight p n')

module _ (p : Message → Bool) where
  abbrev pub NoneLost : Node → Node → Type 0
  NoneLost = AtLeast p 0

  pub NoneLost-refl : (n : Node) → NoneLost n n
  NoneLost-refl n = record { kept = λ free. (free, omega arith) }

  -- What is done before and after a message arrives.
  pub AtLeast-trans :
      (j k : ℕ) (n m n' : Node) → AtLeast p j n m → AtLeast p k m n' → AtLeast p (j + k) n n'
  AtLeast-trans j k n m n' x y = record {
    kept = λ free.
        let after = y.kept free in
        let before = x.kept after.0 in (before.0, omega (arith, before.1, after.1));
  }

  pub NoneLost-IsPreorder : IsPreorder NoneLost
  NoneLost-IsPreorder = record { refl_at = NoneLost-refl; trans_at = AtLeast-trans 0 0 }

  count-act :
      (a : Act) (t : Trace) → count_by p (select stepped t) ≤ count_by p (select stepped (a ∷ t))
  count-act (Act.step msg) t = omega arith
  count-act a t = omega arith

  pub NoneLost-call : {A : Type 0} (a : Act) (f : Trace → A) → Keeps NoneLost (call a f)
  unfolding ◌>>=◌
  NoneLost-call a f = record {
    at = λ n. record { kept = λ free. (free, omega (arith, count-act a n.trace)) };
  }

  AtLeast-step :
      {A : Type 0} (msg : Message) (f : Trace → A)
      → Keeps (AtLeast p (one (p msg))) (call (Act.step msg) f)
  unfolding ◌>>=◌
  AtLeast-step msg f = record { at = λ n. record { kept = λ free. (free, omega arith) } }

  pub NoneLost-IsFrame : IsFrame NoneLost
  NoneLost-IsFrame = record {
    preorder = NoneLost-IsPreorder;
    quiet_call = λ A a f q. NoneLost-call a f;
  }

  pub NoneLost-PeersFree : PeersFree NoneLost
  unfolding ◌>>=◌
  NoneLost-PeersFree f = record { at = λ n. record { kept = λ free. (free, omega arith) } }

  pub NoneLost-ItemsFree : ItemsFree NoneLost
  unfolding ◌>>=◌
  NoneLost-ItemsFree f = record { at = λ n. record { kept = λ free. (free, omega arith) } }

  module _ {A B : Type 0} where
    -- Only the first of two actions brings messages.
    pub AtLeast-first :
        (k : ℕ) {m : Action A} {f : A → Action B}
        → Keeps (AtLeast p k) m
        → ((a : A) → Keeps NoneLost (f a))
        → Keeps (AtLeast p k) (m >>= f)
    AtLeast-first k {m = m} {f = f} km kf =
        Keeps-seq NoneLost-refl
          (λ n n' n'' x y. record {
            kept = λ free.
                let (was, le) = (AtLeast-trans k 0 n n' n'' x y).kept free in
                (was, omega (arith, le));
          })
          m f km kf

  -- An action that leaves the node alone where the lock is held.
  module _ {A : Type 0} (k : ℕ) (m : Action A) where
    pub AtLeast-guarded :
        ((n : Node) → n.locked ≡ true → (m n).1 ≡ n)
        → ((n : Node)
            → n.locked ≡ false
            → (m n).1.locked ≡ false
            → k + weight p n ≤ weight p (m n).1)
        → Keeps (AtLeast p k) m
    AtLeast-guarded held free = record {
      at = λ n. record {
        kept = λ after. elim (Bool-cases n.locked) [
          | inl l ↦ absurd (cc (ap (λ r. r.locked) (held n l), l, after))
          | inr l ↦ (l, free n l after)
        ];
      };
    }

  NoneLost-set_paused : (pause : Bool) → Keeps NoneLost (set_paused pause)
  NoneLost-set_paused pause =
      AtLeast-guarded 0 (set_paused pause) (unfold set_paused lock ◌>>=◌ in λ n l. rw l)
        (λ n l after. rw (set_paused-free pause n l) (omega arith))

  -- A message that is queued.
  pub AtLeast-queued :
      (msg : Message) → Keeps (AtLeast p (one (p msg))) (lock >> (enqueue msg >> unlock))
  unfolding lock enqueue ◌>>=◌
  AtLeast-queued msg =
      AtLeast-guarded (one (p msg)) (lock >> (enqueue msg >> unlock)) (λ n l. rw l)
        (λ n l. elim (Bool-cases (ltb (length n.queue) n.queue_cap)) [
          | inl room ↦ rw (l, room) (λ after. omega (arith, count_by-append p n.queue (msg ∷ [])))
          | inr full ↦ rw (l, full) (λ after. absurd (cc after))
        ])

  pub NoneLost-wait_pause : (events : List WaitEvent) → Keeps NoneLost (wait_pause events)
  NoneLost-wait_pause events = Keeps-wait_pause NoneLost-IsPreorder NoneLost-set_paused events

  module _ (env : Env) where
    NoneLost-churn_queue : Keeps NoneLost (churn_queue env)
    NoneLost-churn_queue =
        AtLeast-guarded 0 (churn_queue env) (unfold churn_queue lock ◌>>=◌ in λ n l. rw l)
          (λ n l after.
            let (given, left, split, rest, steps, freed) = churn_queue_prefix env n l in
            omega (
              arith,
              ap (count_by p) rest,
              ap (count_by p) steps,
              ap (count_by p) split,
              count_by-onto p given (select stepped n.trace),
              count_by-append p given left,
            ))

    pub NoneLost-rest_of_pause :
        (events : List WaitEvent) → Keeps NoneLost (rest_of_pause env events)
    unfolding rest_of_pause
    NoneLost-rest_of_pause events =
        search (keeps_rules, NoneLost-IsPreorder, NoneLost-wait_pause, NoneLost-churn_queue)

    pub NoneLost-do_pause :
        (pause : Bool) (events : List WaitEvent) → Keeps NoneLost (do_pause env pause events)
    unfolding do_pause
    NoneLost-do_pause pause events =
        search
          (
            keeps_rules, NoneLost-IsPreorder, NoneLost-set_paused, NoneLost-wait_pause,
            NoneLost-churn_queue,
          )
          depth 9

    -- A message given to etcd, whatever etcd answers.
    pub AtLeast-raft_step : (msg : Message) → Keeps (AtLeast p (one (p msg))) (raft_step env msg)
    unfolding raft_step
    AtLeast-raft_step msg =
        AtLeast-first (one (p msg)) (AtLeast-step msg (λ t. env.step t msg))
          (λ o. search (keeps_rules, NoneLost-IsPreorder))
