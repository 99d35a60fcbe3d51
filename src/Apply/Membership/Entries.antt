-- ===== src/Apply/Membership/Entries.antt =====
-- What the committed entries do to the peers, against a replay of the changes that they carry.
use mathlib.Core.Quot
use raft_capnp.Prelude.{
  refl, sym, ◌≡◌, ◌∙◌, ap, ℕ, Option, none, some, List, [], ◌∷◌, ◌++◌, ⊤, arith, inl, inr,
  if◌then◌else◌,
}
use raft_capnp.Prelude.Eq.{◌==◌, nat_eq}
use raft_capnp.Prelude.Assoc.{erase}
use raft_capnp.Data.{
  Bytes, Error, Entry, EntryType, entry_normal, entry_conf_change, ConfChangeType, add_node,
  remove_node, ConfChange,
}
use raft_capnp.Effect.{Act, Env, Node, ok, err, done, emit, ◌>>=◌, take_ref, drop_ref}
use raft_capnp.Effect.Keeps.{
  Keeps, Result-cases, Outcome-cases, >>=-done, >>=-eq-done, >>=-eq-failed,
}
use raft_capnp.Effect.Frames.{IsFrame, PeersFree, ItemsFree, OnlyTrace-IsFrame}
use raft_capnp.View.{pop_peer}
use raft_capnp.View.Abstract.{peers_of, learn, forget}
use raft_capnp.Cluster.{unregister, step_down, apply_add_node, apply_remove_node}
use raft_capnp.Cluster.Frames.{Frame-step_down, Returns-step_down}
use raft_capnp.Cluster.Finds.{register-finds}
use raft_capnp.Apply.{
  change_members, conf_change_bytes, add_conf_change, apply_entry_as, apply_entries,
}
use raft_capnp.Apply.Frames.{
  Frame-add_entry, Frame-apply_entry_as, Frame-apply_entries, Returns-change_members,
  Returns-apply_entry_as,
}
use raft_capnp.Apply.Members.{change_of, change_of-ok, change_of-err}
use raft_capnp.Apply.Membership.{Reachable, changed, change_peers, replay_members}

-- The node keeps its identifier.
abbrev SameId : Node → Node → Type 0
SameId n n' = n'.id ≡ n.id

SameId-IsFrame : IsFrame SameId
unfolding ◌>>=◌
SameId-IsFrame = record {
  preorder = record { refl_at = λ n. refl; trans_at = λ n m k x y. y ∙ x };
  quiet_call = λ A a f q. record { at = λ n. refl };
}

SameId-PeersFree : PeersFree SameId
unfolding ◌>>=◌
SameId-PeersFree f = record { at = λ n. refl }

SameId-ItemsFree : ItemsFree SameId
unfolding ◌>>=◌
SameId-ItemsFree f = record { at = λ n. refl }

SameId-apply : (cc : ConfChange) → Keeps SameId (emit (Act.apply_conf_change cc))
unfolding ◌>>=◌
SameId-apply cc = record { at = λ n. refl }

-- The node keeps its peers.
abbrev SameMap : Node → Node → Type 0
SameMap n n' = n'.peers ≡ n.peers

SameMap-IsFrame : IsFrame SameMap
unfolding ◌>>=◌
SameMap-IsFrame = record {
  preorder = record { refl_at = λ n. refl; trans_at = λ n m k x y. y ∙ x };
  quiet_call = λ A a f q. record { at = λ n. refl };
}

SameMap-ItemsFree : ItemsFree SameMap
unfolding ◌>>=◌
SameMap-ItemsFree f = record { at = λ n. refl }

unregister_erases :
    (id : ℕ) (n : Node)
    → ((unregister id n).0 ≡ done tt)
      × ((unregister id n).1.peers ≡ (if n.id == id then n.peers else erase id n.peers))
unfolding unregister pop_peer take_ref drop_ref ◌>>=◌
unregister_erases id n = ground arith

module _ (env : Env) where
  apply_remove_node_erases :
      (cc : ConfChange) (n : Node)
      → (apply_remove_node env cc n).1.peers
        ≡ (if n.id == cc.node_id then n.peers else erase cc.node_id n.peers)
  unfolding apply_remove_node
  apply_remove_node_erases cc n =
      let m = step_down env cc in
      let n' = (m n).1 in
      let frame = (Frame-step_down OnlyTrace-IsFrame env cc).at n in
      elim (Outcome-cases (m n).0 ((Returns-step_down env cc).at n)) [
        | inl (x, e) ↦ unfold ◌>>=◌ in rw e (ground (arith, unregister_erases cc.node_id n', frame))
        | inr (x, e) ↦ unfold ◌>>=◌ in rw e (ground (arith, unregister_erases cc.node_id n', frame))
      ]

module _ (env : Env) (at : ℕ → ℕ) (reach : Reachable env at) where
  members-change :
      (t : ConfChangeType) (change : ConfChange) (n : Node)
      → peers_of (change_members env t change n).1 ≡ changed at n.id t change.node_id (peers_of n)
  unfolding change_members apply_add_node learn forget
  members-change add_node change n =
      let k = at change.node_id in
      ap Quot.mk
        (register-finds env change.node_id k (λ t. reach.found t change.node_id)
          (λ t. reach.asked t change.node_id) n).1
  members-change remove_node change n =
      ap Quot.mk (apply_remove_node_erases env change n) ∙ ground arith
  members-change _ change n = unfold ◌>>=◌ in refl

  -- Handing the change on to etcd changes no peers.
  conf_change_bytes-peers :
      (bytes : Bytes) (change : ConfChange) (n : Node)
      → env.unmarshal_conf_change bytes ≡ ok change
      → peers_of (conf_change_bytes env (some bytes) n).1
        ≡ peers_of (change_members env change.type change n).1
  unfolding conf_change_bytes ◌>>=◌
  conf_change_bytes-peers bytes change n decoded =
      let m = change_members env change.type change in
      elim (Outcome-cases (m n).0 ((Returns-change_members env change.type change).at n)) [
        | inl (x, e) ↦ rw (decoded, e) refl
        | inr (x, e) ↦ rw (decoded, e) refl
      ]

  undecoded-peers :
      (bytes : Bytes) (e : Error) (n : Node)
      → env.unmarshal_conf_change bytes ≡ err e
      → peers_of (conf_change_bytes env (some bytes) n).1 ≡ peers_of n
  unfolding conf_change_bytes ◌>>=◌
  undecoded-peers bytes e n fails = rw fails refl

  members-bytes :
      (o : Option Bytes) (n : Node)
      → peers_of (conf_change_bytes env o n).1
        ≡ change_peers at n.id
            (change_of env.unmarshal_conf_change entry_conf_change o)
            (peers_of n)
  members-bytes none n = unfold conf_change_bytes ◌>>=◌ in refl
  members-bytes (some bytes) n = elim (Result-cases (env.unmarshal_conf_change bytes)) [
    | inl (change, e) ↦
        conf_change_bytes-peers bytes change n e
        ∙ members-change change.type change n
        ∙ ap (λ o. change_peers at n.id o (peers_of n))
            (sym (change_of-ok env.unmarshal_conf_change bytes change e))
    | inr (x, e) ↦
        undecoded-peers bytes x n e
        ∙ ap (λ o. change_peers at n.id o (peers_of n))
            (sym (change_of-err env.unmarshal_conf_change bytes x e))
  ]

  -- An entry changes the peers as it says, also where it fails.
  members-entry :
      (t : EntryType) (entry : Entry) (n : Node)
      → peers_of (apply_entry_as env t entry n).1
        ≡ change_peers at n.id (change_of env.unmarshal_conf_change t entry.payload) (peers_of n)
  unfolding apply_entry_as add_conf_change ◌>>=◌
  members-entry entry_normal entry n =
      ap Quot.mk ((Frame-add_entry SameMap-IsFrame env SameMap-ItemsFree entry).at n)
  members-entry entry_conf_change entry n = members-bytes entry.payload n
  members-entry _ entry n = refl

  entry-SameId : (entry : Entry) (n : Node) → (apply_entry_as env entry.type entry n).1.id ≡ n.id
  entry-SameId entry n =
      (Frame-apply_entry_as SameId-IsFrame env SameId-PeersFree SameId-apply SameId-ItemsFree
          entry.type entry).at
        n

  -- The rest of a log, from the node that an entry has left.
  members-rest :
      (entry : Entry) (log : List Entry) (n n' : Node)
      → peers_of n'
        ≡ replay_members env.unmarshal_conf_change at
            (apply_entry_as env entry.type entry n).1.id
            log
            (peers_of (apply_entry_as env entry.type entry n).1)
      → peers_of n' ≡ replay_members env.unmarshal_conf_change at n.id (entry ∷ log) (peers_of n)
  members-rest entry log n n' h =
      let m = (apply_entry_as env entry.type entry n).1 in
      h
      ∙ ap (λ i. replay_members env.unmarshal_conf_change at i log (peers_of m))
          (entry-SameId entry n)
      ∙ ap (replay_members env.unmarshal_conf_change at n.id log) (members-entry entry.type entry n)

  pub members-apply_entries :
      (entries : List Entry) (n : Node)
      → (apply_entries env entries n).0 ≡ done tt
      → peers_of (apply_entries env entries n).1
        ≡ replay_members env.unmarshal_conf_change at n.id entries (peers_of n)
  unfolding apply_entries
  members-apply_entries [] n h = unfold ◌>>=◌ in refl
  members-apply_entries (entry ∷ entries) n h =
      let k = λ (x : ⊤). apply_entries env entries in
      let n' = (apply_entry_as env entry.type entry n).1 in
      let (x, first, eq) = >>=-eq-done k (apply_entry_as env entry.type entry) n h in
      ap (λ r. peers_of r.1) eq
      ∙ members-rest entry entries n (apply_entries env entries n').1
          (members-apply_entries entries n' (ap (λ r. r.0) (sym eq) ∙ h))

  -- Whatever the outcome, the entries up to some entry have changed the peers.
  pub members-apply_entries_prefix :
      (entries : List Entry) (n : Node)
      → (applied rest : List Entry) × (entries ≡ applied ++ rest)
        × (peers_of (apply_entries env entries n).1
            ≡ replay_members env.unmarshal_conf_change at n.id applied (peers_of n))
  unfolding apply_entries
  members-apply_entries_prefix [] n = ([], [], refl, unfold ◌>>=◌ in refl)
  members-apply_entries_prefix (entry ∷ entries) n =
      let m = apply_entry_as env entry.type entry in
      let k = λ (x : ⊤). apply_entries env entries in
      let n' = (m n).1 in
      let (applied, rest, split, peers) = members-apply_entries_prefix entries n' in
      elim (Outcome-cases (m n).0 ((Returns-apply_entry_as env entry.type entry).at n)) [
        | inl (x, first) ↦ (
          entry ∷ applied,
          rest,
          ap (λ es. entry ∷ es) split,
          ap (λ r. peers_of r.1) (>>=-done k m n first)
              ∙ members-rest entry applied n (apply_entries env entries n').1 peers,
        )
        | inr (e, first) ↦ (
          entry ∷ [],
          entries,
          refl,
          ap (λ r. peers_of r.1) (>>=-eq-failed k m n first) ∙ members-entry entry.type entry n,
        )
      ]

-- The node keeps its identifier whatever it applies.
pub apply_entries-id :
    (env : Env) (entries : List Entry) (n : Node) → (apply_entries env entries n).1.id ≡ n.id
apply_entries-id env entries n =
    (Frame-apply_entries SameId-IsFrame env SameId-PeersFree SameId-apply SameId-ItemsFree
        entries).at
      n
