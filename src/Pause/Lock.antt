-- ===== src/Pause/Lock.antt =====
-- raft/node.go and raft/msg.go: who holds the lock of the pause flag.
use raft_capnp.Prelude.{false, ◌≡◌, ◌≢◌, ap, Bool, List, inl, inr, Bool-cases, ltb, length}
use raft_capnp.Data.{Message}
use raft_capnp.Effect.{Act, Trace, Env, Node, blocked, call, ◌>>=◌}
use raft_capnp.Effect.Keeps.{IsPreorder, Keeps, keeps_rules}
use raft_capnp.Effect.Frames.{IsFrame, PeersFree, ItemsFree}
use raft_capnp.Pause.{
  lock, set_paused, enqueue, queue_up, raft_step, churn_queue, WaitEvent, wait_pause, rest_of_pause,
  do_pause,
}
use raft_capnp.Pause.Frames.{Keeps-wait_pause}
use raft_capnp.Pause.Queue.{churn_queue_prefix}
use raft_capnp.Pause.Resume.{set_paused-free}

-- A lock that is free is free again afterwards.
abbrev pub KeepsFree : Node → Node → Type 0
KeepsFree n n' = n.locked ≡ false → n'.locked ≡ false

pub KeepsFree-IsPreorder : IsPreorder KeepsFree
KeepsFree-IsPreorder = record { refl_at = λ n h. h; trans_at = λ n m k f g h. g (f h) }

pub KeepsFree-call : {A : Type 0} (a : Act) (f : Trace → A) → Keeps KeepsFree (call a f)
unfolding ◌>>=◌
KeepsFree-call a f = record { at = λ n h. h }

pub KeepsFree-IsFrame : IsFrame KeepsFree
KeepsFree-IsFrame = record {
  preorder = KeepsFree-IsPreorder;
  quiet_call = λ A a f q. KeepsFree-call a f;
}

pub KeepsFree-PeersFree : PeersFree KeepsFree
unfolding ◌>>=◌
KeepsFree-PeersFree f = record { at = λ n h. h }

pub KeepsFree-ItemsFree : ItemsFree KeepsFree
unfolding ◌>>=◌
KeepsFree-ItemsFree f = record { at = λ n h. h }

KeepsFree-set_paused : (pause : Bool) → Keeps KeepsFree (set_paused pause)
KeepsFree-set_paused pause = record { at = λ n l. ap (λ r. r.1.locked) (set_paused-free pause n l) }

pub KeepsFree-wait_pause : (events : List WaitEvent) → Keeps KeepsFree (wait_pause events)
KeepsFree-wait_pause events = Keeps-wait_pause KeepsFree-IsPreorder KeepsFree-set_paused events

-- A message that is queued, and does not wait for room.
pub queue_up-free :
    (msg : Message) (n : Node)
    → n.locked ≡ false
    → (queue_up msg n).0 ≢ blocked
    → (queue_up msg n).1.locked ≡ false
unfolding lock enqueue ◌>>=◌
queue_up-free msg n l returns = elim (Bool-cases (ltb (length n.queue) n.queue_cap)) [
  | inl room ↦ rw (l, room)
  | inr full ↦ absurd (returns (rw (l, full)))
]

module _ (env : Env) where
  pub KeepsFree-raft_step : (msg : Message) → Keeps KeepsFree (raft_step env msg)
  unfolding raft_step
  KeepsFree-raft_step msg = search (keeps_rules, KeepsFree-IsPreorder, KeepsFree-call)

  KeepsFree-churn_queue : Keeps KeepsFree (churn_queue env)
  KeepsFree-churn_queue = record {
    at = λ n l. let (given, left, split, rest, steps, after) = churn_queue_prefix env n l in after;
  }

  pub KeepsFree-rest_of_pause :
      (events : List WaitEvent) → Keeps KeepsFree (rest_of_pause env events)
  unfolding rest_of_pause
  KeepsFree-rest_of_pause events =
      search (keeps_rules, KeepsFree-IsPreorder, KeepsFree-wait_pause, KeepsFree-churn_queue)

  pub KeepsFree-do_pause :
      (pause : Bool) (events : List WaitEvent) → Keeps KeepsFree (do_pause env pause events)
  unfolding do_pause
  KeepsFree-do_pause pause events =
      search
        (
          keeps_rules, KeepsFree-IsPreorder, KeepsFree-set_paused, KeepsFree-wait_pause,
          KeepsFree-churn_queue,
        )
        depth 9
