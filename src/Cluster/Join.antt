-- ===== src/Cluster/Join.antt =====
-- `register`: the retries, and the entry of a new peer.
use raft_capnp.Prelude.{
  Bool, refl, ◌≡◌, ◌∙◌, ap, ℕ, zero, suc, ◌∷◌, ⊤, arith, Bool-cases, inl, inr, if◌then◌else◌,
}
use raft_capnp.Prelude.Eq.{nat_eq}
use raft_capnp.Prelude.Assoc.{insert}
use raft_capnp.Data.{Error, Raft, null, client, is_ctx_error}
use raft_capnp.Effect.{
  Act, Trace, Env, Node, Action, Race, replied, timeout, ctx_done, Result, ok, err, done, failed,
  lift, take_ref, ◌>>=◌,
}
use raft_capnp.Effect.Keeps.{Outcome-cases, >>=-done}
use raft_capnp.Effect.Frames.{OnlyTrace-IsFrame}
use raft_capnp.Helper.{rpc_get_id}
use raft_capnp.View.{add_peer, id_or_zero}
use raft_capnp.Cluster.{
  race_result, retrieve_with_timeout, after_attempt, retrieve_loop, retrieval_retries, register,
}
use raft_capnp.Cluster.Frames.{Frame-retrieve_loop, Returns-retrieve_with_timeout}

-- What a retrieval that replied says: the node that it found at some point of the run.
abbrev pub Found : Env → ℕ → Raft → Type 0
Found env id node = (t : Trace) × (env.retrieval t id ≡ replied (ok node))

module _ (env : Env) (id : ℕ) where
  Found-race :
      (r : Race) (t : Trace) (n : Node) {node : Raft}
      → env.retrieval t id ≡ r
      → (race_result r n).0 ≡ done node
      → Found env id node
  unfolding race_result take_ref ◌>>=◌
  Found-race (replied (ok null)) t n e h = (t, ground arith)
  Found-race (replied (ok (client c))) t n e h = (t, ground arith)
  Found-race (replied (err x)) t n e h = cc
  Found-race timeout t n e h = cc
  Found-race (ctx_done c) t n e h = cc

  Found-retrieve :
      (n : Node) {node : Raft} → (retrieve_with_timeout env id n).0 ≡ done node → Found env id node
  unfolding retrieve_with_timeout ◌>>=◌
  Found-retrieve n h =
      Found-race (env.retrieval n.trace id) n.trace (record n { trace = Act.retrieve id ∷ n.trace })
        refl h

  -- The node in which the next round starts, once a round has failed.
  abbrev pub failed_round : Node → Node
  failed_round n =
      let n' = (retrieve_with_timeout env id n).1 in record n' { trace = Act.ctx_err ∷ n'.trace }

  abbrev pub ends_loop : Node → Error → Bool
  ends_loop n e = is_ctx_error e (env.ctx_err (retrieve_with_timeout env id n).1.trace)

  module _ (rounds : ℕ) (last : Result Raft) (n : Node) where
    pub loop-found :
        (c : Raft)
        → (retrieve_with_timeout env id n).0 ≡ done c
        → retrieve_loop env (suc rounds) id last n
          ≡ (done (ok c), (retrieve_with_timeout env id n).1)
    unfolding retrieve_loop after_attempt ◌>>=◌
    loop-found c h = rw h

    pub loop-failed :
        (e : Error)
        → (retrieve_with_timeout env id n).0 ≡ failed e
        → retrieve_loop env (suc rounds) id last n ≡ (
            if ends_loop n e
            then (done (err e), failed_round n)
            else retrieve_loop env rounds id (err e) (failed_round n))
    unfolding retrieve_loop after_attempt ◌>>=◌
    loop-failed e h =
        rw h (elim (Bool-cases (ends_loop n e)) [ inl ended ↦ rw ended | inr alive ↦ rw alive ])

  Found-round :
      (rounds : ℕ) (last : Result Raft) (n : Node) {node : Raft}
      → ((e : Error) (n' : Node)
          → (retrieve_loop env rounds id (err e) n').0 ≡ done (ok node)
          → Found env id node)
      → (retrieve_loop env (suc rounds) id last n).0 ≡ done (ok node)
      → Found env id node
  Found-round rounds last n later h =
      let m = retrieve_with_timeout env id in
      elim (Outcome-cases (m n).0 ((Returns-retrieve_with_timeout env id).at n)) [
        | inl (c, e) ↦ Found-retrieve n (e ∙ cc (h, loop-found rounds last n c e))
        | inr (x, e) ↦ elim (Bool-cases (ends_loop n x)) [
          | inl ended ↦ cc (h, rw ended at (loop-failed rounds last n x e))
          | inr alive ↦
              later x (failed_round n) (cc (h, rw alive at (loop-failed rounds last n x e)))
        ]
      ]

  Found-later :
      (rounds : ℕ) {node : Raft} (e : Error) (n : Node)
      → (retrieve_loop env rounds id (err e) n).0 ≡ done (ok node)
      → Found env id node
  Found-later zero e n h = unfold retrieve_loop ◌>>=◌ in cc h
  Found-later (suc rounds) e n h = Found-round rounds (err e) n (Found-later rounds) h

  -- `AddPeer` stores the peer under the identifier that the peer reports, and under 0 if it
  -- reports none.
  peers-add_peer :
      (peer : Raft) (n : Node)
      → (t : Trace) × ((add_peer env peer n).0 ≡ done tt)
        × ((add_peer env peer n).1.peers ≡ insert (id_or_zero (env.get_id t peer)) peer n.peers)
  unfolding add_peer take_ref rpc_get_id ◌>>=◌
  peers-add_peer null n = (n.trace, ground arith, ground arith)
  peers-add_peer (client c) n = (Act.add_ref (client c) ∷ n.trace, ground arith, ground arith)

  abbrev pub enter : Raft → Action ⊤
  enter node = take_ref node >>= λ shared. add_peer env shared

  peers-enter :
      (node : Raft) (n : Node)
      → (t : Trace) × ((enter node n).0 ≡ done tt)
        × ((enter node n).1.peers ≡ insert (id_or_zero (env.get_id t node)) node n.peers)
  unfolding take_ref ◌>>=◌
  peers-enter null n = peers-add_peer null n
  peers-enter (client c) n =
      peers-add_peer (client c) (record n { trace = Act.add_ref (client c) ∷ n.trace })

  same_peers-loop :
      (n : Node) → (retrieve_loop env retrieval_retries id (ok null) n).1.peers ≡ n.peers
  same_peers-loop n =
      ((Frame-retrieve_loop OnlyTrace-IsFrame env retrieval_retries id (ok null)).at n).same_peers

  unfoldable pub loop : Action (Result Raft)
  loop = retrieve_loop env retrieval_retries id (ok null)

  pub register-loop :
      (n : Node) (r : Result Raft)
      → (loop n).0 ≡ done r
      → register env id n ≡ (lift r >>= enter) (loop n).1
  unfolding register loop
  register-loop n r h = >>=-done (λ (x : Result Raft). lift x >>= enter) loop n h

  register-entered :
      (n : Node) (r : Result Raft)
      → (loop n).0 ≡ done r
      → (register env id n).0 ≡ done tt
      → (node : Raft) × Found env id node
        × (t : Trace) × ((register env id n).1.peers
            ≡ insert (id_or_zero (env.get_id t node)) node n.peers)
  unfolding loop ◌>>=◌
  register-entered n (ok node) first h =
      let (t, d, entered) = peers-enter node (loop n).1 in
      (
        node,
        Found-round 2 (ok null) n (Found-later 2) first,
        t,
        ap (λ r. r.1.peers) (register-loop n (ok node) first)
            ∙ entered
            ∙ ap (insert (id_or_zero (env.get_id t node)) node) (same_peers-loop n),
      )
  register-entered n (err e) first h = cc (h, register-loop n (err e) first)

  register-refused :
      (n : Node) (r : Result Raft) (e : Error)
      → (loop n).0 ≡ done r
      → (register env id n).0 ≡ failed e
      → (register env id n).1.peers ≡ n.peers
  unfolding loop ◌>>=◌
  register-refused n (ok node) e first h =
      let (t, d, entered) = peers-enter node (loop n).1 in
      cc (h, register-loop n (ok node) first, d)
  register-refused n (err x) e first h =
      ap (λ r. r.1.peers) (register-loop n (err x) first) ∙ same_peers-loop n

  -- The loop returns with the result of its last round.
  pub loop-done :
      (rounds : ℕ) (last : Result Raft) (n : Node)
      → (r : Result Raft) × ((retrieve_loop env rounds id last n).0 ≡ done r)
  loop-done zero last n = (last, unfold retrieve_loop ◌>>=◌ in refl)
  loop-done (suc rounds) last n =
      let m = retrieve_with_timeout env id in
      elim (Outcome-cases (m n).0 ((Returns-retrieve_with_timeout env id).at n)) [
        | inl (c, e) ↦ (ok c, ap (λ r. r.0) (loop-found rounds last n c e))
        | inr (x, e) ↦ elim (Bool-cases (ends_loop n x)) [
          | inl ended ↦ (err x, ap (λ r. r.0) (rw ended at (loop-failed rounds last n x e)))
          | inr alive ↦
              let (r, q) = loop-done rounds (err x) (failed_round n) in
              (r, ap (λ o. o.0) (rw alive at (loop-failed rounds last n x e)) ∙ q)
        ]
      ]

  -- `register` that succeeds has entered one node: one that the retrieval has found, under the
  -- identifier that this node reports of itself, and under 0 if asking it fails.
  pub register_done :
      (n : Node)
      → (register env id n).0 ≡ done tt
      → (node : Raft) × Found env id node
        × (t : Trace) × ((register env id n).1.peers
            ≡ insert (id_or_zero (env.get_id t node)) node n.peers)
  unfolding loop
  register_done n h =
      let (r, first) = loop-done retrieval_retries (ok null) n in register-entered n r first h

  -- `register` that fails leaves the peers as they were.
  register_failed :
      (n : Node) (e : Error)
      → (register env id n).0 ≡ failed e
      → (register env id n).1.peers ≡ n.peers
  unfolding loop
  register_failed n e h =
      let (r, first) = loop-done retrieval_retries (ok null) n in register-refused n r e first h
