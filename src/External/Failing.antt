-- ===== src/External/Failing.antt =====
-- What a node does that was given the functions of raft/external.go.
use raft_capnp.Prelude.{
  refl, sym, ◌≡◌, ◌∙◌, ap, ℕ, Option, none, some, List, [], ◌∷◌, ◌++◌, ◌≢◌, ⊤, arith,
}
use raft_capnp.Data.{
  Bytes, Error, unimplemented, Entry, entry_conf_change, ConfChange, add_node, Ready,
}
use raft_capnp.Effect.{Env, Node, replied, ok, err, done, failed, ◌>>=◌}
use raft_capnp.Effect.Keeps.{>>=-eq-done}
use raft_capnp.Cluster.{register, apply_add_node}
use raft_capnp.Cluster.Retries.{register_gives_up}
use raft_capnp.Apply.{
  notify, add_bytes, change_members, add_conf_change, apply_entry_as, apply_entries, do_ready,
}
use raft_capnp.Apply.Members.{add_conf_change_applies}
use raft_capnp.Apply.Membership.Rounds.{do_ready-Enters}
use raft_capnp.External.{nil_raft_node_retrieval, nil_on_new_value, nil_raft_store}

-- A node that was given `NilRaftNodeRetrieval` and `NilRaftStore`, and whose context is not over.
abbrev pub nil_env : Env → Env
nil_env env = record env {
  retrieval = λ t id. replied (nil_raft_node_retrieval id);
  store = λ t hard entries snapshot. nil_raft_store hard entries snapshot;
  ctx_err = λ t. none;
}

module _ (env : Env) where
  nil_register-fails : (id : ℕ) (n : Node) → (register (nil_env env) id n).0 ≡ failed unimplemented
  unfolding nil_raft_node_retrieval
  nil_register-fails id n =
      (register_gives_up (nil_env env) id (replied (err unimplemented)) unimplemented (λ t. refl)
        refl (λ t. refl) n).0

  nil_conf_change-fails :
      (entry : Entry) (bytes : Bytes) (cc : ConfChange) (n : Node)
      → entry.payload ≡ some bytes
      → env.unmarshal_conf_change bytes ≡ ok cc
      → cc.type ≡ add_node
      → (add_conf_change (nil_env env) entry n).0 ≡ failed unimplemented
  unfolding change_members apply_add_node
  nil_conf_change-fails entry bytes cc n payload decoded joins =
      (add_conf_change_applies (nil_env env) entry bytes cc n payload decoded).1
      ∙ rw joins (nil_register-fails cc.node_id n)

  -- An entry that fails at every node is in no list of entries that succeeds.
  entry-fails :
      (before after : List Entry) (entry : Entry) (e : Error) (n : Node)
      → ((m : Node) → (apply_entry_as env entry.type entry m).0 ≡ failed e)
      → (apply_entries env (before ++ entry ∷ after) n).0 ≢ done tt
  unfolding apply_entries
  entry-fails [] after entry e n fails h =
      let (x, first, eq) =
        >>=-eq-done (λ (x : ⊤). apply_entries env after) (apply_entry_as env entry.type entry) n
          h in
      cc (first, fails n)
  entry-fails (b ∷ before) after entry e n fails h =
      let k = λ (x : ⊤). apply_entries env (before ++ entry ∷ after) in
      let (x, first, eq) = >>=-eq-done k (apply_entry_as env b.type b) n h in
      entry-fails before after entry e (apply_entry_as env b.type b n).1 fails
        (ap (λ r. r.0) (sym eq) ∙ h)

module _ (env : Env) where
  nil_entry-fails :
      (entry : Entry) (bytes : Bytes) (cc : ConfChange) (n : Node)
      → entry.type ≡ entry_conf_change
      → entry.payload ≡ some bytes
      → env.unmarshal_conf_change bytes ≡ ok cc
      → cc.type ≡ add_node
      → (apply_entry_as (nil_env env) entry.type entry n).0 ≡ failed unimplemented
  unfolding apply_entry_as add_conf_change
  nil_entry-fails entry bytes cc n type payload decoded joins =
      rw type (nil_conf_change-fails env entry bytes cc n payload decoded joins)

  -- A round that commits the joining of a node never succeeds at a node that was given
  -- `NilRaftNodeRetrieval` and `NilRaftStore` and whose context is not over, whatever else it
  -- commits.
  pub nil_retrieval_fails :
      (ready : Ready) (before after : List Entry) (entry : Entry) (bytes : Bytes) (cc : ConfChange)
      (n : Node)
      → ready.committed_entries ≡ before ++ entry ∷ after
      → entry.type ≡ entry_conf_change
      → entry.payload ≡ some bytes
      → env.unmarshal_conf_change bytes ≡ ok cc
      → cc.type ≡ add_node
      → (do_ready (nil_env env) ready n).0 ≢ done tt
  nil_retrieval_fails ready before after entry bytes cc n log type payload decoded joins h =
      let (m, only, applied, same) = do_ready-Enters (nil_env env) ready n h in
      entry-fails (nil_env env) before after entry unimplemented m
        (λ k. nil_entry-fails entry bytes cc k type payload decoded joins) (rw log at applied)

-- A node that was given `NilOnNewValue` holds the same items after an entry, and has the same
-- outcome, as one that was given no function at all.
nil_on_new_value_lem :
    (env : Env) (o : Option Bytes) (n : Node)
    → ((add_bytes (record env { on_new_value = some (λ t item. nil_on_new_value item) }) o n).0
        ≡ (add_bytes (record env { on_new_value = none }) o n).0)
      × ((add_bytes
            (record env { on_new_value = some (λ t item. nil_on_new_value item) })
            o
            n).1.items
          ≡ (add_bytes (record env { on_new_value = none }) o n).1.items)
unfolding add_bytes notify nil_on_new_value ◌>>=◌
nil_on_new_value_lem env none n = (refl, refl)
nil_on_new_value_lem env (some bytes) n = ground arith
