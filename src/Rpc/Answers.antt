-- ===== src/Rpc/Answers.antt =====
-- What `Add` proposes and answers.
use raft_capnp.Prelude.{
  refl, ◌≡◌, ◌∙◌, ap, ℕ, Option, none, some, List, [], ◌∷◌, map, arith, inl, inr, Option-cases,
}
use raft_capnp.Prelude.Assoc.{Assoc}
use raft_capnp.Data.{Error, Raft, null, client, add_node, ConfChange}
use raft_capnp.Effect.{
  Act, Trace, Env, Node, Action, ok, Outcome, done, call, check, gets, take_ref, ◌>>=◌, ◌>>◌,
}
use raft_capnp.Effect.Keeps.{Result-cases}
use raft_capnp.Effect.Frames.{select}
use raft_capnp.Helper.{rpc_get_id}
use raft_capnp.View.{copy_peers, view_peers}
use raft_capnp.Rpc.{peer_list, add}
use raft_capnp.Rpc.Proposals.{proposed}

abbrev pub peer_of : ℕ × Raft → Raft
peer_of e = e.1

-- Walking the peers answers them, and proposes nothing.
copied :
    (m : Assoc ℕ Raft) (n : Node)
    → ((copy_peers m n).0 ≡ done m)
      × (select proposed (copy_peers m n).1.trace ≡ select proposed n.trace)
unfolding copy_peers take_ref ◌>>=◌
copied [] n = (refl, refl)
copied ((id, null) ∷ m) n = ground (arith, copied m n)
copied ((id, client c) ∷ m) n =
    ground (arith, copied m (record n { trace = Act.add_ref (client c) ∷ n.trace }))

listed :
    (m : Assoc ℕ Raft) (n : Node)
    → ((peer_list m n).0 ≡ done (map peer_of m))
      × (select proposed (peer_list m n).1.trace ≡ select proposed n.trace)
unfolding peer_list take_ref ◌>>=◌
listed [] n = (refl, refl)
listed ((id, null) ∷ m) n = ground (arith, listed m n)
listed ((id, client c) ∷ m) n =
    ground (arith, listed m (record n { trace = Act.add_ref (client c) ∷ n.trace }))

module _ (env : Env) where
  -- What `add` does once its change is proposed.
  abbrev answer : Action (List Raft)
  answer = do pm ← view_peers; t ← gets (λ n. n.trace); peer_list (env.range t pm)

  answer-peers :
      (n : Node)
      → (t : Trace) × ((answer n).0 ≡ done (map peer_of (env.range t n.peers)))
        × (select proposed (answer n).1.trace ≡ select proposed n.trace)
  unfolding view_peers ◌>>=◌
  answer-peers n =
      let (got, quiet_copies) = copied n.peers n in
      let n' = (copy_peers n.peers n).1 in
      let (out, quiet_list) = listed (env.range n'.trace n.peers) n' in
      (n'.trace, rw got out, rw got (quiet_list ∙ quiet_copies))

  abbrev pub joining : ℕ → ConfChange
  joining id = record { id = id; type = add_node; node_id = id }

  -- What `add` does with its reference of the node, once the node is resolved.
  abbrev ask_and_join : Raft → Action (List Raft)
  ask_and_join asked = do
    id ← rpc_get_id env asked
    check
        (← call (Act.propose_conf_change (joining id))
          (λ t. env.propose_conf_change t (joining id)))
    answer

  abbrev Joins : Raft → Node → List Raft → Outcome (List Raft) × Node → Type 0
  Joins node n nodes r =
      (id : ℕ) × (t t' : Trace) × (env.get_id t node ≡ ok id)
      × (select proposed r.1.trace ≡ joining id ∷ select proposed n.trace)
      × (nodes ≡ map peer_of (env.range t' n.peers))

  -- The node once the identifier is asked for and the change is proposed.
  abbrev proposed_at : Raft → ℕ → Node → Node
  proposed_at asked id n = record n {
    trace = Act.propose_conf_change (joining id) ∷ Act.get_id asked ∷ n.trace;
  }

  ask_and_join-Joins :
      (asked : Raft) (n : Node) (nodes : List Raft)
      → (ask_and_join asked n).0 ≡ done nodes
      → Joins asked n nodes (ask_and_join asked n)
  unfolding rpc_get_id ◌>>=◌
  ask_and_join-Joins asked n nodes h = elim (Result-cases (env.get_id n.trace asked)) [
    | inl (id, e) ↦
        elim (Option-cases (env.propose_conf_change (Act.get_id asked ∷ n.trace) (joining id))) [
          | inl o ↦
              let (t', out, quiet) = answer-peers (proposed_at asked id n) in
              let all : ask_and_join asked n ≡ answer (proposed_at asked id n) = rw (e, o) refl in
              (
                id,
                n.trace,
                t',
                e,
                ap (λ r. select proposed r.1.trace) all ∙ quiet,
                cc (h, ap (λ r. r.0) all, out),
              )
          | inr (x, o) ↦ cc (rw (e, o) at h)
        ]
    | inr (x, e) ↦ cc (rw e at h)
  ]

  -- The node with one more call in front.
  abbrev after_act : Act → Node → Node
  after_act a n = record n { trace = a ∷ n.trace }

  resolved-Joins :
      (o : Option Error) (held : Raft) (n : Node) (nodes : List Raft)
      → ((check o >>= λ x. (take_ref held >>= ask_and_join)) n).0 ≡ done nodes
      → Joins held n nodes ((check o >>= λ x. (take_ref held >>= ask_and_join)) n)
  unfolding take_ref ◌>>=◌
  resolved-Joins none null n nodes h = ask_and_join-Joins null n nodes h
  resolved-Joins none (client c) n nodes h =
      ask_and_join-Joins (client c) (after_act (Act.add_ref (client c)) n) nodes h
  resolved-Joins (some e) held n nodes h = cc h

  -- `add` that succeeds has proposed one change: the entry of the node that the given capability
  -- reports to be. It answers the peers of the node, in the order in which the map is ranged over.
  pub add_answers :
      (node : Raft) (n : Node) (nodes : List Raft)
      → (add env node n).0 ≡ done nodes
      → (id : ℕ) × (t t' : Trace) × (env.get_id t node ≡ ok id)
        × (select proposed (add env node n).1.trace ≡ joining id ∷ select proposed n.trace)
        × (nodes ≡ map peer_of (env.range t' n.peers))
  unfolding add take_ref ◌>>=◌
  add_answers null n nodes h =
      resolved-Joins (env.resolve n.trace null) null (after_act (Act.resolve null) n) nodes h
  add_answers (client c) n nodes h =
      let held = after_act (Act.add_ref (client c)) n in
      resolved-Joins (env.resolve held.trace (client c)) (client c)
        (after_act (Act.resolve (client c)) held) nodes h
