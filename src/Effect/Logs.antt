-- ===== src/Effect/Logs.antt =====
-- Actions that end by recording one act if they succeed, and record no such act if they fail.
use raft_capnp.Prelude.{◌≡◌, refl, Bool, true, false, if◌then◌else◌, Option, some, List, ◌∷◌}
use raft_capnp.Data.{Error}
use raft_capnp.Effect.{
  Act, Node, Outcome, done, failed, blocked, Action, raise, emit, continue, ◌>>=◌,
}
use raft_capnp.Effect.Keeps.{Keeps}
use raft_capnp.Effect.Frames.{select, Same}

-- A log, with `x` in front if the outcome is a success.
abbrev pub logged : {A B : Type 0} → Outcome A → B → List B → List B
logged (done a) x xs = x ∷ xs
logged (failed e) x xs = xs
logged blocked x xs = xs

pub record Logs {A B : Type 0} (p : Act → Option B) (x : B) (m : Action A) : Type 0 where
  pub at : (n : Node) → select p (m n).1.trace ≡ logged (m n).0 x (select p n.trace)

module _ {B : Type 0} {p : Act → Option B} {x : B} where
  pub Logs-emit : (a : Act) → p a ≡ some x → Logs p x (emit a)
  unfolding ◌>>=◌
  Logs-emit a h = record { at = λ n. rw h }

  pub Logs-raise : {A : Type 0} (e : Error) → Logs p x (raise {A = A} e)
  unfolding ◌>>=◌
  Logs-raise e = record { at = λ n. refl }

  pub Logs-if :
      {A : Type 0} (b : Bool) (m k : Action A)
      → Logs p x m
      → Logs p x k
      → Logs p x (if b then m else k)
  Logs-if true m k lm lk = lm
  Logs-if false m k lm lk = lk

  Logs-continue :
      {A C : Type 0} (r : Outcome A) (f : A → Action C) (n : Node)
      → ((a : A) → Logs p x (f a))
      → select p (continue r f n).1.trace ≡ logged (continue r f n).0 x (select p n.trace)
  Logs-continue (done a) f n lf = (lf a).at n
  Logs-continue (failed e) f n lf = refl
  Logs-continue blocked f n lf = refl

  pub Logs-bind :
      {A C : Type 0} (m : Action A) (f : A → Action C)
      → Keeps (Same p) m
      → ((a : A) → Logs p x (f a))
      → Logs p x (m >>= f)
  unfolding ◌>>=◌
  Logs-bind m f km lf = record { at = λ n. rw (← km.at n) (Logs-continue (m n).0 f (m n).1 lf) }
