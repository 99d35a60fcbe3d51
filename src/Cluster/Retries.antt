-- ===== src/Cluster/Retries.antt =====
-- How often `register` asks for a node.
use raft_capnp.Prelude.{
  refl, false, ◌≡◌, ◌∙◌, ap, ℕ, zero, suc, ◌+◌, ◌≤◌, Option, none, some, ◌∷◌, arith, Bool-cases,
  inl, inr, length,
}
use raft_capnp.Data.{
  Error, canceled, deadline_exceeded, timed_out, ctx_error, Raft, null, client, is_ctx_error,
}
use raft_capnp.Effect.{
  Act, Trace, Env, Node, Race, replied, timeout, ctx_done, Result, ok, err, done, failed, lift,
  ◌>>=◌,
}
use raft_capnp.Effect.Keeps.{Outcome-cases}
use raft_capnp.Effect.Frames.{select}
use raft_capnp.Helper.{rpc_get_id}
use raft_capnp.View.{add_peer}
use raft_capnp.Effect.{take_ref}
use raft_capnp.Cluster.{
  race_result, retrieve_with_timeout, retrieve_loop, retrieval_retries, register,
}
use raft_capnp.Cluster.Frames.{Returns-retrieve_with_timeout}
use raft_capnp.Cluster.Join.{
  failed_round, ends_loop, loop-found, loop-failed, enter, register-loop, loop, loop-done,
}

-- The identifiers for which RaftNodeRetrieval was asked.
abbrev pub asked : Act → Option ℕ
asked (Act.retrieve id) = some id
asked _ = none

abbrev pub asks : Trace → ℕ
asks t = length (select asked t)

-- The error of a race that nobody won in time, or that brought an error.
abbrev pub race_error : Race → Option Error
race_error (replied (ok node)) = none
race_error (replied (err e)) = some e
race_error timeout = some timed_out
race_error (ctx_done c) = some (ctx_error c)

module _ (env : Env) (id : ℕ) where
  asks-race : (r : Race) (n : Node) → asks (race_result r n).1.trace ≡ asks n.trace
  unfolding race_result take_ref ◌>>=◌
  asks-race (replied (ok null)) n = refl
  asks-race (replied (ok (client c))) n = refl
  asks-race (replied (err e)) n = refl
  asks-race timeout n = refl
  asks-race (ctx_done c) n = refl

  asks-retrieve : (n : Node) → asks (retrieve_with_timeout env id n).1.trace ≡ suc (asks n.trace)
  unfolding retrieve_with_timeout ◌>>=◌
  asks-retrieve n =
      asks-race (env.retrieval n.trace id) (record n { trace = Act.retrieve id ∷ n.trace })

  asks-loop :
      (rounds : ℕ) (last : Result Raft) (n : Node)
      → asks (retrieve_loop env rounds id last n).1.trace ≤ rounds + asks n.trace
  asks-loop zero last n = unfold retrieve_loop ◌>>=◌ in omega arith
  asks-loop (suc rounds) last n =
      let m = retrieve_with_timeout env id in
      elim (Outcome-cases (m n).0 ((Returns-retrieve_with_timeout env id).at n)) [
        | inl (c, e) ↦ rw (loop-found env id rounds last n c e) (omega (arith, asks-retrieve n))
        | inr (x, e) ↦ elim (Bool-cases (ends_loop env id n x)) [
          | inl ended ↦
              rw (rw ended at (loop-failed env id rounds last n x e))
                (omega (arith, asks-retrieve n))
          | inr alive ↦
              rw (rw alive at (loop-failed env id rounds last n x e))
                (omega (arith, asks-retrieve n, asks-loop rounds (err x) (failed_round env id n)))
        ]
      ]

  asks-enter : (node : Raft) (n : Node) → asks (enter env id node n).1.trace ≡ asks n.trace
  unfolding take_ref add_peer rpc_get_id ◌>>=◌
  asks-enter null n = ground arith
  asks-enter (client c) n = ground arith

  asks-rest :
      (r : Result Raft) (n : Node) → asks ((lift r >>= enter env id) n).1.trace ≡ asks n.trace
  unfolding ◌>>=◌
  asks-rest (ok node) n = asks-enter node n
  asks-rest (err e) n = refl

  -- `register` asks for the node three times at most.
  pub asks-register : (n : Node) → asks (register env id n).1.trace ≤ 3 + asks n.trace
  unfolding loop
  asks-register n =
      let (r, first) = loop-done env id retrieval_retries (ok null) n in
      rw (register-loop env id n r first)
        (omega (arith, asks-rest r (loop env id n).1, asks-loop retrieval_retries (ok null) n))

is_ctx_error-none : (e : Error) → is_ctx_error e none ≡ false
is_ctx_error-none (ctx_error canceled) = refl
is_ctx_error-none (ctx_error deadline_exceeded) = refl
is_ctx_error-none _ = refl

module _ (env : Env) (id : ℕ) (r : Race) (e : Error) (fails : (t : Trace) → env.retrieval t id ≡ r)
    (error : race_error r ≡ some e) (alive : (t : Trace) → env.ctx_err t ≡ none) where
  race-fails : (x : Race) (n : Node) → race_error x ≡ some e → (race_result x n).0 ≡ failed e
  unfolding race_result ◌>>=◌
  race-fails (replied (ok node)) n h = cc
  race-fails (replied (err x)) n h = cc
  race-fails timeout n h = cc
  race-fails (ctx_done c) n h = cc

  attempt-fails : (n : Node) → (retrieve_with_timeout env id n).0 ≡ failed e
  unfolding retrieve_with_timeout ◌>>=◌
  attempt-fails n =
      rw (fails n.trace) (race-fails r (record n { trace = Act.retrieve id ∷ n.trace }) error)

  round-fails :
      (rounds : ℕ) (last : Result Raft) (n : Node)
      → retrieve_loop env (suc rounds) id last n
        ≡ retrieve_loop env rounds id (err e) (failed_round env id n)
  round-fails rounds last n =
      rw (alive (retrieve_with_timeout env id n).1.trace, is_ctx_error-none e) at
        (loop-failed env id rounds last n e (attempt-fails n))

  loop-fails :
      (rounds : ℕ) (n : Node)
      → ((retrieve_loop env rounds id (err e) n).0 ≡ done (err e))
        × (asks (retrieve_loop env rounds id (err e) n).1.trace ≡ rounds + asks n.trace)
  loop-fails zero n = unfold retrieve_loop ◌>>=◌ in (refl, omega arith)
  loop-fails (suc rounds) n = rw (round-fails rounds (err e) n) (
      let (out, count) = loop-fails rounds (failed_round env id n) in
      (out, omega (arith, count, asks-retrieve env id n)))

  -- If every retrieval fails in one and the same way, and `ctx.Err()` is nil throughout, `register`
  -- asks exactly three times and fails with the error of the retrievals.
  pub register_gives_up :
      (n : Node)
      → ((register env id n).0 ≡ failed e) × (asks (register env id n).1.trace ≡ 3 + asks n.trace)
  unfolding loop ◌>>=◌
  register_gives_up n =
      let (out, count) = loop-fails 2 (failed_round env id n) in
      let same = round-fails 2 (ok null) n in
      let whole = register-loop env id n (err e) (ap (λ x. x.0) same ∙ out) in
      (
        ap (λ x. x.0) whole,
        ap (λ x. asks x.1.trace) whole
            ∙ ap (λ x. asks x.1.trace) same
            ∙ omega (arith, count, asks-retrieve env id n),
      )
