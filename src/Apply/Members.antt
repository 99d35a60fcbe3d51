-- ===== src/Apply/Members.antt =====
-- What `doReady` hands on to etcd's ApplyConfChange.
use raft_capnp.Prelude.{
  refl, sym, true, ◌≡◌, ◌∙◌, ap, Option, none, some, List, [], ◌∷◌, ⊤, arith, inl, inr,
}
use raft_capnp.Data.{Bytes, Error, Entry, EntryType, entry_normal, entry_conf_change, ConfChange}
use raft_capnp.Effect.{Act, Env, Node, Result, ok, err, done, ◌>>=◌}
use raft_capnp.Effect.Keeps.{Result-cases, Outcome-cases, >>=-eq-done}
use raft_capnp.Effect.Frames.{
  quiet, select, Same, Same-IsFrame, Same-PeersFree, Same-ItemsFree, IsFrame,
}
use raft_capnp.Apply.{
  change_members, conf_change_bytes, add_conf_change, apply_entry_as, apply_entries,
}
use raft_capnp.Apply.Frames.{Frame-change_members, Frame-add_entry, Returns-change_members}

-- The membership changes that etcd was told to apply, newest first.
abbrev pub applied : Act → Option ConfChange
applied (Act.apply_conf_change cc) = some cc
applied _ = none

quiet-applied : (a : Act) → quiet a ≡ true → applied a ≡ none
quiet-applied (Act.apply_conf_change change) q = cc
quiet-applied (Act.get_id c) q = refl
quiet-applied _ q = refl

abbrev applied_frame : IsFrame (Same applied)
applied_frame = Same-IsFrame applied quiet-applied

module _ (env : Env) where
  conf_change_bytes-applies :
      (bytes : Bytes) (cc : ConfChange) (n : Node)
      → env.unmarshal_conf_change bytes ≡ ok cc
      → (select applied (conf_change_bytes env (some bytes) n).1.trace
          ≡ cc ∷ select applied n.trace)
        × ((conf_change_bytes env (some bytes) n).0 ≡ (change_members env cc.type cc n).0)
  unfolding conf_change_bytes
  conf_change_bytes-applies bytes cc n decoded =
      let m = change_members env cc.type cc in
      let same =
        (Frame-change_members applied_frame env (Same-PeersFree applied) cc.type cc).at n in
      elim (Outcome-cases (m n).0 ((Returns-change_members env cc.type cc).at n)) [
        | inl (x, e) ↦ unfold ◌>>=◌ in rw (decoded, e) (ap (λ l. cc ∷ l) same, refl)
        | inr (x, e) ↦ unfold ◌>>=◌ in rw (decoded, e) (ap (λ l. cc ∷ l) same, refl)
      ]

  -- A committed membership change that can be decoded is handed to etcd exactly once, also where
  -- entering or removing the node fails; its outcome is the outcome of the entry.
  pub add_conf_change_applies :
      (entry : Entry) (bytes : Bytes) (cc : ConfChange) (n : Node)
      → entry.payload ≡ some bytes
      → env.unmarshal_conf_change bytes ≡ ok cc
      → (select applied (add_conf_change env entry n).1.trace ≡ cc ∷ select applied n.trace)
        × ((add_conf_change env entry n).0 ≡ (change_members env cc.type cc n).0)
  unfolding add_conf_change
  add_conf_change_applies entry bytes cc n payload decoded =
      rw payload (conf_change_bytes-applies bytes cc n decoded)

-- The membership change that a committed entry carries, if it carries one.
abbrev pub change_of : (Bytes → Result ConfChange) → EntryType → Option Bytes → Option ConfChange
change_of decode entry_conf_change (some bytes) = elim (decode bytes) [
  | ok change ↦ some change
  | err e ↦ none
]
change_of decode _ _ = none

pub change_of-ok :
    (decode : Bytes → Result ConfChange) (bytes : Bytes) (change : ConfChange)
    → decode bytes ≡ ok change
    → change_of decode entry_conf_change (some bytes) ≡ some change
change_of-ok decode bytes change e = ground arith

pub change_of-err :
    (decode : Bytes → Result ConfChange) (bytes : Bytes) (x : Error)
    → decode bytes ≡ err x
    → change_of decode entry_conf_change (some bytes) ≡ none
change_of-err decode bytes x e = ground arith

abbrev pub push : Option ConfChange → List ConfChange → List ConfChange
push none l = l
push (some change) l = change ∷ l

-- The changes of a log of entries, the newest in front of `l`.
abbrev pub changes_of : (Bytes → Result ConfChange) → List Entry → List ConfChange → List ConfChange
changes_of decode [] l = l
changes_of decode (entry ∷ entries) l =
    changes_of decode entries (push (change_of decode entry.type entry.payload) l)

module _ (env : Env) where
  changes-bytes :
      (o : Option Bytes) (n : Node)
      → (conf_change_bytes env o n).0 ≡ done tt
      → select applied (conf_change_bytes env o n).1.trace
        ≡ push (change_of env.unmarshal_conf_change entry_conf_change o) (select applied n.trace)
  changes-bytes none n h = unfold conf_change_bytes ◌>>=◌ in refl
  changes-bytes (some bytes) n h = elim (Result-cases (env.unmarshal_conf_change bytes)) [
    | inl (change, e) ↦
        (conf_change_bytes-applies env bytes change n e).0
        ∙ ap (λ o. push o (select applied n.trace))
            (sym (change_of-ok env.unmarshal_conf_change bytes change e))
    | inr (x, e) ↦ absurd (unfold conf_change_bytes ◌>>=◌ in cc (rw e at h))
  ]

  changes-entry :
      (t : EntryType) (entry : Entry) (n : Node)
      → (apply_entry_as env t entry n).0 ≡ done tt
      → select applied (apply_entry_as env t entry n).1.trace
        ≡ push (change_of env.unmarshal_conf_change t entry.payload) (select applied n.trace)
  unfolding apply_entry_as add_conf_change ◌>>=◌
  changes-entry entry_normal entry n h =
      (Frame-add_entry applied_frame env (Same-ItemsFree applied) entry).at n
  changes-entry entry_conf_change entry n h = changes-bytes entry.payload n h
  changes-entry _ entry n h = refl

  -- If every committed entry succeeds, etcd has been told to apply exactly the membership changes
  -- that the entries carry, each once and in their order.
  pub apply_entries_changes :
      (entries : List Entry) (n : Node)
      → (apply_entries env entries n).0 ≡ done tt
      → select applied (apply_entries env entries n).1.trace
        ≡ changes_of env.unmarshal_conf_change entries (select applied n.trace)
  unfolding apply_entries
  apply_entries_changes [] n h = unfold ◌>>=◌ in refl
  apply_entries_changes (entry ∷ entries) n h =
      let k = λ (x : ⊤). apply_entries env entries in
      let n' = (apply_entry_as env entry.type entry n).1 in
      let (x, first, eq) = >>=-eq-done k (apply_entry_as env entry.type entry) n h in
      ap (λ r. select applied r.1.trace) eq
      ∙ apply_entries_changes entries n' (ap (λ r. r.0) (sym eq) ∙ h)
      ∙ ap (changes_of env.unmarshal_conf_change entries) (changes-entry entry.type entry n first)
