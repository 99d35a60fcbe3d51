-- ===== src/Pause/Counts.antt =====
-- raft/node.go and raft/msg.go: how many messages that pass a test were given to etcd, or wait in
-- the queue. A pause makes no such message; a message that arrives makes one at most.
use raft_capnp.Prelude.{
  refl, true, ◌≡◌, ◌≤◌, ◌+◌, ap, ℕ, Bool, one, count_by, count_by-append, List, [], ◌∷◌, ◌++◌,
  arith, inl, inr, Bool-cases, ltb, length, ⊤,
}
use raft_capnp.Data.{Message, ConfChange}
use raft_capnp.Effect.{Act, Trace, Env, Node, Action, call, emit, block, modify, ◌>>=◌}
use raft_capnp.Effect.Keeps.{IsPreorder, Keeps, Keeps-seq, Keeps-if, keeps_rules}
use raft_capnp.Effect.Frames.{quiet, select, IsFrame, PeersFree, ItemsFree}
use raft_capnp.Pause.{lock, enqueue, raft_step, churn_queue, WaitEvent, rest_of_pause, do_pause}
use raft_capnp.Pause.Frames.{IsPauseFrame, Frame-set_paused, Frame-wait_pause}
use raft_capnp.Pause.Queue.{stepped, onto, churn_queue_prefix}

pub count_by-onto :
    (p : Message → Bool) (msgs l : List Message)
    → count_by p (onto msgs l) ≡ count_by p msgs + count_by p l
count_by-onto p [] l = omega arith
count_by-onto p (msg ∷ msgs) l = omega (arith, count_by-onto p msgs (msg ∷ l))

-- The messages that were given to etcd or wait for it, of those that pass the test.
abbrev pub weight : (Message → Bool) → Node → ℕ
weight p n = count_by p (select stepped n.trace) + count_by p n.queue

-- At most `k` of them more.
pub record AtMost (p : Message → Bool) (k : ℕ) (n n' : Node) : Type 0 where
  pub weight_le : weight p n' ≤ k + weight p n

module _ (p : Message → Bool) where
  abbrev pub NoMore : Node → Node → Type 0
  NoMore = AtMost p 0

  quiet-stepped :
      (a : Act) → quiet a ≡ true → (t : Trace) → select stepped (a ∷ t) ≡ select stepped t
  quiet-stepped (Act.step msg) q t = cc q
  quiet-stepped a q t = refl

  pub NoMore-IsPreorder : IsPreorder NoMore
  NoMore-IsPreorder = record {
    refl_at = λ n. record { weight_le = omega arith };
    trans_at = λ n m k x y. record { weight_le = omega (arith, x.weight_le, y.weight_le) };
  }

  pub NoMore-IsFrame : IsFrame NoMore
  unfolding ◌>>=◌
  NoMore-IsFrame = record {
    preorder = NoMore-IsPreorder;
    quiet_call = λ A a f q. record {
      at = λ n. record { weight_le = rw (quiet-stepped a q n.trace) (omega arith) };
    };
  }

  pub NoMore-PeersFree : PeersFree NoMore
  unfolding ◌>>=◌
  NoMore-PeersFree f = record { at = λ n. record { weight_le = omega arith } }

  pub NoMore-ItemsFree : ItemsFree NoMore
  unfolding ◌>>=◌
  NoMore-ItemsFree f = record { at = λ n. record { weight_le = omega arith } }

  pub NoMore-apply : (cc : ConfChange) → Keeps NoMore (emit (Act.apply_conf_change cc))
  unfolding ◌>>=◌
  NoMore-apply cc = record { at = λ n. record { weight_le = omega arith } }

  pub NoMore-advance : Keeps NoMore (emit Act.advance)
  unfolding ◌>>=◌
  NoMore-advance = record { at = λ n. record { weight_le = omega arith } }

  pub NoMore-pauses : IsPauseFrame NoMore
  unfolding ◌>>=◌
  NoMore-pauses = record {
    frame = NoMore-IsFrame;
    hold = λ b. record { at = λ n. record { weight_le = omega arith } };
    flag = λ b. record { at = λ n. record { weight_le = omega arith } };
  }

  module _ {A B : Type 0} where
    -- What two actions add one after the other.
    pub AtMost-bind :
        (j k : ℕ) {i : ℕ} {m : Action A} {f : A → Action B}
        → j + k ≤ i
        → Keeps (AtMost p j) m
        → ((a : A) → Keeps (AtMost p k) (f a))
        → Keeps (AtMost p i) (m >>= f)
    AtMost-bind j k {m = m} {f = f} room km kf =
        Keeps-seq (λ n. record { weight_le = omega arith })
          (λ n n' n'' x y. record { weight_le = omega (arith, room, x.weight_le, y.weight_le) }) m f
          km kf

  -- A message given to etcd.
  AtMost-step :
      {A : Type 0} (msg : Message) (f : Trace → A)
      → Keeps (AtMost p (one (p msg))) (call (Act.step msg) f)
  unfolding ◌>>=◌
  AtMost-step msg f = record { at = λ n. record { weight_le = omega arith } }

  module _ (env : Env) where
    NoMore-churn_queue : Keeps NoMore (churn_queue env)
    NoMore-churn_queue = record {
      at = λ n. elim (Bool-cases n.locked) [
        | inl held ↦ unfold churn_queue lock ◌>>=◌ in record { weight_le = rw held (omega arith) }
        | inr free ↦
            let (given, left, split, rest, steps, after) = churn_queue_prefix env n free in
            record {
              weight_le = omega (
                arith,
                ap (count_by p) rest,
                ap (count_by p) steps,
                ap (count_by p) split,
                count_by-onto p given (select stepped n.trace),
                count_by-append p given left,
              );
            }
      ];
    }

    pub NoMore-rest_of_pause : (events : List WaitEvent) → Keeps NoMore (rest_of_pause env events)
    unfolding rest_of_pause
    NoMore-rest_of_pause events =
        search (NoMore-IsPreorder, keeps_rules, Frame-wait_pause NoMore-pauses, NoMore-churn_queue)

    pub NoMore-do_pause :
        (pause : Bool) (events : List WaitEvent) → Keeps NoMore (do_pause env pause events)
    unfolding do_pause
    NoMore-do_pause pause events =
        search
          (
            NoMore-IsPreorder,
            keeps_rules,
            Frame-set_paused NoMore-pauses,
            Frame-wait_pause NoMore-pauses,
            NoMore-churn_queue,
          )
          depth 9

    pub AtMost-raft_step : (msg : Message) → Keeps (AtMost p (one (p msg))) (raft_step env msg)
    unfolding raft_step
    AtMost-raft_step msg =
        AtMost-bind (one (p msg)) 0 (omega arith) (AtMost-step msg (λ t. env.step t msg))
          (λ o. search (NoMore-IsPreorder, keeps_rules))

  AtMost-queue :
      (msg : Message)
      → Keeps (AtMost p (one (p msg))) (modify (λ n. record n { queue = n.queue ++ msg ∷ [] }))
  unfolding ◌>>=◌
  AtMost-queue msg = record {
    at = λ n. record { weight_le = omega (arith, count_by-append p n.queue (msg ∷ [])) };
  }

  AtMost-block : (k : ℕ) → Keeps (AtMost p k) (block {A = ⊤})
  unfolding ◌>>=◌
  AtMost-block k = record { at = λ n. record { weight_le = omega arith } }

  pub AtMost-enqueue : (msg : Message) → Keeps (AtMost p (one (p msg))) (enqueue msg)
  unfolding enqueue
  AtMost-enqueue msg =
      AtMost-bind 0 (one (p msg)) (omega arith) (search (NoMore-IsPreorder, keeps_rules))
        (λ waiting.
          AtMost-bind 0 (one (p msg)) (omega arith) (search (NoMore-IsPreorder, keeps_rules))
            (λ room.
              Keeps-if (ltb (length waiting) room) _ block (AtMost-queue msg)
                (AtMost-block (one (p msg)))))
