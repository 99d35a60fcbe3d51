-- ===== src/Effect/Keeps.antt =====
-- What an action does to the node, and that it returns: one rule for each way to build an action.
use raft_capnp.Prelude.{
  ◌⊎◌, inl, inr, refl, ◌≡◌, refl, Bool, true, false, if◌then◌else◌, Option, none, some,
}
use raft_capnp.Data.{Error}
use raft_capnp.Effect.{
  Act, Trace, Result, ok, err, Node, Outcome, done, failed, blocked, Action, continue, settle, pure,
  raise, block, lift, gets, call, try, modify, check, ◌>>=◌,
}

pub record IsPreorder (R : Node → Node → Type 0) : Type 0 where
  pub refl_at : (n : Node) → R n n
  pub trans_at : (n m k : Node) → R n m → R m k → R n k

-- `R` relates the node before `m` to the node after it, however `m` ends.
pub record Keeps {A : Type 0} (R : Node → Node → Type 0) (m : Action A) : Type 0 where
  pub at : (n : Node) → R n (m n).1

module _ {A : Type 0} {R : Node → Node → Type 0} where
  pub Keeps-pure : IsPreorder R → (a : A) → Keeps R (pure a)
  unfolding ◌>>=◌
  Keeps-pure p a = record { at = p.refl_at }

  pub Keeps-raise : IsPreorder R → (e : Error) → Keeps R (raise {A = A} e)
  unfolding ◌>>=◌
  Keeps-raise p e = record { at = p.refl_at }

  pub Keeps-block : IsPreorder R → Keeps R (block {A = A})
  unfolding ◌>>=◌
  Keeps-block p = record { at = p.refl_at }

  pub Keeps-lift : IsPreorder R → (r : Result A) → Keeps R (lift r)
  unfolding ◌>>=◌
  Keeps-lift p (ok a) = record { at = p.refl_at }
  Keeps-lift p (err e) = record { at = p.refl_at }

  pub Keeps-gets : IsPreorder R → (f : Node → A) → Keeps R (gets f)
  unfolding ◌>>=◌
  Keeps-gets p f = record { at = p.refl_at }

  pub Keeps-try : (m : Action A) → Keeps R m → Keeps R (try m)
  unfolding ◌>>=◌
  Keeps-try m k = record { at = k.at }

  pub Keeps-if : (b : Bool) (m k : Action A) → Keeps R m → Keeps R k → Keeps R (if b then m else k)
  Keeps-if true m k km kk = km
  Keeps-if false m k km kk = kk

module _ {R : Node → Node → Type 0} where
  pub Keeps-check : IsPreorder R → (o : Option Error) → Keeps R (check o)
  unfolding ◌>>=◌
  Keeps-check p none = record { at = p.refl_at }
  Keeps-check p (some e) = record { at = p.refl_at }

module _ {A B : Type 0} {R : Node → Node → Type 0} where
  Keeps-continue :
      (r : Outcome A) (f : A → Action B) (n : Node)
      → ((k : Node) → R k k)
      → ((a : A) → Keeps R (f a))
      → R n (continue r f n).1
  Keeps-continue (done a) f n same kf = (kf a).at n
  Keeps-continue (failed e) f n same kf = same n
  Keeps-continue blocked f n same kf = same n

  -- What comes after `m` relates the node that `m` leaves to the last one.
  pub Keeps-after :
      IsPreorder R
      → (m : Action A) (f : A → Action B) (n : Node) → ((a : A) → Keeps R (f a))
      → R (m n).1 ((m >>= f) n).1
  unfolding ◌>>=◌
  Keeps-after p m f n kf = Keeps-continue (m n).0 f (m n).1 p.refl_at kf

-- Two actions in a row that do different things to the node.
module _ {A B : Type 0} {R S T : Node → Node → Type 0} where
  pub Keeps-seq :
      ((n : Node) → S n n)
      → ((n m k : Node) → R n m → S m k → T n k)
      → (m : Action A) (f : A → Action B) → Keeps R m
      → ((a : A) → Keeps S (f a))
      → Keeps T (m >>= f)
  unfolding ◌>>=◌
  Keeps-seq same joins m f km kf = record {
    at = λ n.
        let (r, n') = m n in joins n n' ((m >>= f) n).1 (km.at n) (Keeps-continue r f n' same kf);
  }

module _ {A B : Type 0} {R : Node → Node → Type 0} where
  pub Keeps-bind :
      IsPreorder R
      → (m : Action A) (f : A → Action B) → Keeps R m
      → ((a : A) → Keeps R (f a))
      → Keeps R (m >>= f)
  Keeps-bind p m f km kf = Keeps-seq p.refl_at p.trans_at m f km kf

pub ruleset keeps_rules = (
  Keeps-pure, Keeps-raise, Keeps-block, Keeps-lift, Keeps-gets, Keeps-try, Keeps-if, Keeps-check,
  Keeps-bind,
)

-- `m` does not wait for another goroutine.
pub record Returns {A : Type 0} (m : Action A) : Type 0 where
  pub at : (n : Node) → (m n).0 ≡ blocked → ⊥

module _ {A : Type 0} where
  pub Returns-pure : (a : A) → Returns (pure a)
  unfolding ◌>>=◌
  Returns-pure a = record { at = λ n h. cc }

  pub Returns-raise : (e : Error) → Returns (raise {A = A} e)
  unfolding ◌>>=◌
  Returns-raise e = record { at = λ n h. cc }

  pub Returns-lift : (r : Result A) → Returns (lift r)
  unfolding ◌>>=◌
  Returns-lift (ok a) = record { at = λ n h. cc }
  Returns-lift (err e) = record { at = λ n h. cc }

  pub Returns-gets : (f : Node → A) → Returns (gets f)
  unfolding ◌>>=◌
  Returns-gets f = record { at = λ n h. cc }

  pub Returns-call : (a : Act) (f : Trace → A) → Returns (call a f)
  unfolding ◌>>=◌
  Returns-call a f = record { at = λ n h. cc }

  pub Returns-if :
      (b : Bool) (m k : Action A) → Returns m → Returns k → Returns (if b then m else k)
  Returns-if true m k km kk = km
  Returns-if false m k km kk = kk

pub Returns-check : (o : Option Error) → Returns (check o)
unfolding ◌>>=◌
Returns-check none = record { at = λ n h. cc }
Returns-check (some e) = record { at = λ n h. cc }

pub Returns-modify : (f : Node → Node) → Returns (modify f)
unfolding ◌>>=◌
Returns-modify f = record { at = λ n h. cc }

module _ {A : Type 0} where
  Returns-settle : (r : Outcome A) → (r ≡ blocked → ⊥) → settle r ≡ blocked → ⊥
  Returns-settle (done a) k h = cc
  Returns-settle (failed e) k h = cc
  Returns-settle blocked k h = k refl

  pub Returns-try : (m : Action A) → Returns m → Returns (try m)
  unfolding ◌>>=◌
  Returns-try m k = record { at = λ n. Returns-settle (m n).0 (k.at n) }

module _ {A B : Type 0} where
  Returns-continue :
      (r : Outcome A) (f : A → Action B) (n : Node)
      → (r ≡ blocked → ⊥)
      → ((a : A) → Returns (f a))
      → (continue r f n).0 ≡ blocked
      → ⊥
  Returns-continue (done a) f n k kf h = (kf a).at n h
  Returns-continue (failed e) f n k kf h = cc
  Returns-continue blocked f n k kf h = k refl

  pub Returns-bind :
      (m : Action A) (f : A → Action B) → Returns m → ((a : A) → Returns (f a)) → Returns (m >>= f)
  unfolding ◌>>=◌
  Returns-bind m f km kf = record { at = λ n. Returns-continue (m n).0 f (m n).1 (km.at n) kf }

pub ruleset returns_rules = (
  Returns-pure, Returns-raise, Returns-lift, Returns-gets, Returns-call, Returns-if, Returns-check,
  Returns-modify, Returns-try, Returns-bind,
)

-- A successful bind, taken apart.
module _ {A B : Type 0} (f : A → Action B) where
  continue-done :
      (r : Outcome A) (n : Node) {b : B}
      → (continue r f n).0 ≡ done b
      → (a : A) × (r ≡ done a) × (continue r f n ≡ f a n)
  continue-done (done a) n h = (a, refl, refl)
  continue-done (failed e) n h = cc
  continue-done blocked n h = cc

  pub >>=-eq-done :
      (m : Action A) (n : Node) {b : B}
      → ((m >>= f) n).0 ≡ done b
      → (a : A) × ((m n).0 ≡ done a) × ((m >>= f) n ≡ f a (m n).1)
  unfolding ◌>>=◌
  >>=-eq-done m n h = continue-done (m n).0 (m n).1 h

  continue-failed :
      (r : Outcome A) (n : Node) {e : Error} → r ≡ failed e → continue r f n ≡ (failed e, n)
  continue-failed (done a) n h = cc
  continue-failed (failed e) n h = cc
  continue-failed blocked n h = cc

  pub >>=-eq-failed :
      (m : Action A) (n : Node) {e : Error} → (m n).0 ≡ failed e → (m >>= f) n ≡ (failed e, (m n).1)
  unfolding ◌>>=◌
  >>=-eq-failed m n h = continue-failed (m n).0 (m n).1 h

  pub >>=-done : (m : Action A) (n : Node) {a : A} → (m n).0 ≡ done a → (m >>= f) n ≡ f a (m n).1
  unfolding ◌>>=◌
  >>=-done m n h = rw h

-- A bind that waits for another goroutine.
module _ {A B : Type 0} (f : A → Action B) where
  continue-blocked :
      (r : Outcome A) (n : Node)
      → (continue r f n).0 ≡ blocked
      → (r ≡ blocked) ⊎ ((a : A) × (r ≡ done a) × ((f a n).0 ≡ blocked))
  continue-blocked (done a) n h = inr (a, refl, h)
  continue-blocked (failed e) n h = cc
  continue-blocked blocked n h = inl refl

  pub >>=-blocked :
      (m : Action A) (n : Node)
      → ((m >>= f) n).0 ≡ blocked
      → ((m n).0 ≡ blocked) ⊎ ((a : A) × ((m n).0 ≡ done a) × ((f a (m n).1).0 ≡ blocked))
  unfolding ◌>>=◌
  >>=-blocked m n h = continue-blocked (m n).0 (m n).1 h

  pub >>=-eq-blocked :
      (m : Action A) (n : Node) → (m n).0 ≡ blocked → (m >>= f) n ≡ (blocked, (m n).1)
  unfolding ◌>>=◌
  >>=-eq-blocked m n h = rw h

-- The two ways in which an action that waits for nobody ends.
pub Outcome-cases :
    {A : Type 0} (r : Outcome A)
    → (r ≡ blocked → ⊥)
    → ((a : A) × (r ≡ done a)) ⊎ ((e : Error) × (r ≡ failed e))
Outcome-cases (done a) h = inl (a, refl)
Outcome-cases (failed e) h = inr (e, refl)
Outcome-cases blocked h = absurd (h refl)

pub Result-cases :
    {A : Type 0} (r : Result A) → ((a : A) × (r ≡ ok a)) ⊎ ((e : Error) × (r ≡ err e))
Result-cases (ok a) = inl (a, refl)
Result-cases (err e) = inr (e, refl)
