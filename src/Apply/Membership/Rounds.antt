-- ===== src/Apply/Membership/Rounds.antt =====
-- The peers of a node over a round of `doReady`.
use mathlib.Core.Path.{subst}
use mathlib.Core.List.{append-nil, append_assoc}
use mathlib.Core.Quot
use raft_capnp.Prelude.{
  refl, sym, ◌≡◌, ◌∙◌, ap, ℕ, Option, none, some, List, [], ◌++◌, ⊤, arith, inl, inr, Bool-cases,
  if◌then◌else◌,
}
use raft_capnp.Prelude.Eq.{nat_eq}
use raft_capnp.Data.{Error, snapshot_unimplemented, Entry, Ready}
use raft_capnp.Effect.{Act, Env, Node, done, raise, emit, check, ◌>>=◌, ◌>>◌}
use raft_capnp.Effect.Keeps.{
  Keeps, Keeps-after, Outcome-cases, >>=-done, >>=-eq-done, >>=-eq-failed,
}
use raft_capnp.Effect.Frames.{OnlyTrace, OnlyTrace-IsFrame, OnlyTrace-MessageFree, OnlyTrace-call}
use raft_capnp.View.Abstract.{peers_of}
use raft_capnp.Apply.{apply_entries, send_messages, after_store, do_ready}
use raft_capnp.Apply.Frames.{Frame-send_messages, Returns-send_messages}
use raft_capnp.Apply.Entries.{storing}
use raft_capnp.Apply.Membership.{Reachable, replay_members}
use raft_capnp.Apply.Membership.Entries.{
  members-apply_entries, members-apply_entries_prefix, apply_entries-id,
}

storing-OnlyTrace : (ready : Ready) (n : Node) → OnlyTrace n (storing ready n)
storing-OnlyTrace ready n = ground arith

module _ (env : Env) where
  -- What is left of the peers' history in a round that succeeds: the entries, from a node that
  -- differs from the first in its trace only.
  abbrev pub Enters : Ready → Node → Node → Type 0
  Enters ready n n' =
      (m : Node) × OnlyTrace n m
      × ((apply_entries env ready.committed_entries m).0 ≡ done tt)
      × (n'.peers ≡ (apply_entries env ready.committed_entries m).1.peers)

  after_store-Enters :
      (ready : Ready) (n : Node)
      → (after_store env ready n).0 ≡ done tt
      → Enters ready n (after_store env ready n).1
  unfolding after_store
  after_store-Enters ready n h =
      let m = (send_messages env ready.messages n).1 in
      let (x, first, eq) = >>=-eq-done _ (send_messages env ready.messages) n h in
      let rest = ap (λ r. r.0) (sym eq) ∙ h in
      elim (Bool-cases (env.is_empty_snap ready.snapshot)) [
        | inl empty ↦
            let k = λ (x : ⊤). emit Act.advance in
            let (y, applied, eq') =
              >>=-eq-done k (apply_entries env ready.committed_entries) m (rw empty at rest) in
            (
              m,
              (Frame-send_messages OnlyTrace-IsFrame env OnlyTrace-MessageFree ready.messages).at n,
              applied,
              ap (λ r. r.1.peers) eq ∙ rw empty (ap (λ r. r.1.peers) eq' ∙ (unfold ◌>>=◌ in refl)),
            )
        | inr full ↦ absurd (unfold ◌>>=◌ in cc (rw full at rest))
      ]

  check-Enters :
      (o : Option Error) (ready : Ready) (n : Node)
      → ((check o >>= λ stored. after_store env ready) n).0 ≡ done tt
      → Enters ready n ((check o >>= λ stored. after_store env ready) n).1
  unfolding ◌>>=◌
  check-Enters none ready n h = after_store-Enters ready n h
  check-Enters (some e) ready n h = absurd (cc h)

  pub do_ready-Enters :
      (ready : Ready) (n : Node)
      → (do_ready env ready n).0 ≡ done tt
      → Enters ready n (do_ready env ready n).1
  unfolding do_ready ◌>>=◌
  do_ready-Enters ready n h =
      let (m, only, applied, same) =
        check-Enters (env.store n.trace ready.hard_state ready.entries ready.snapshot) ready
          (storing ready n) h in
      (
        m,
        OnlyTrace-IsFrame.preorder.trans_at n (storing ready n) m (storing-OnlyTrace ready n) only,
        applied,
        same,
      )

  -- However a round ends: some first entries, or none, from a node that differs from the first in
  -- its trace only.
  abbrev pub Ends : Ready → Node → Node → Type 0
  Ends ready n n' =
      (m : Node) × OnlyTrace n m
      × (entries rest : List Entry) × (ready.committed_entries ≡ entries ++ rest)
      × OnlyTrace (apply_entries env entries m).1 n'

  -- A round that ends before its entries.
  Ends-early : (ready : Ready) (n n' : Node) → OnlyTrace n n' → Ends ready n n'
  unfolding apply_entries ◌>>=◌
  Ends-early ready n n' only =
      (n, OnlyTrace-IsFrame.preorder.refl_at n, [], ready.committed_entries, refl, only)

  OnlyTrace-advance : Keeps OnlyTrace (emit Act.advance)
  OnlyTrace-advance = OnlyTrace-call Act.advance (λ t. tt)

  after_store-Ends : (ready : Ready) (n : Node) → Ends ready n (after_store env ready n).1
  unfolding after_store
  after_store-Ends ready n =
      let sends = send_messages env ready.messages in
      let entries = apply_entries env ready.committed_entries in
      let k = λ (x : ⊤).
        if env.is_empty_snap ready.snapshot
        then (apply_entries env ready.committed_entries >> emit Act.advance)
        else raise snapshot_unimplemented in
      let m = (sends n).1 in
      let quiet =
        (Frame-send_messages OnlyTrace-IsFrame env OnlyTrace-MessageFree ready.messages).at n in
      elim (Outcome-cases (sends n).0 ((Returns-send_messages env ready.messages).at n)) [
        | inl (x, first) ↦ elim (Bool-cases (env.is_empty_snap ready.snapshot)) [
          | inl empty ↦
              let after =
                Keeps-after OnlyTrace-IsFrame.preorder entries (λ (x : ⊤). emit Act.advance) m
                  (λ x. OnlyTrace-advance) in
              (
                m,
                quiet,
                ready.committed_entries,
                [],
                sym (append-nil ready.committed_entries),
                subst (λ r. OnlyTrace (entries m).1 r.1) (sym (>>=-done k sends n first))
                    (rw empty after),
              )
          | inr full ↦ Ends-early ready n ((sends >>= k) n).1 (
              subst (λ r. OnlyTrace n r.1) (sym (>>=-done k sends n first))
                (unfold ◌>>=◌ in rw full quiet))
        ]
        | inr (e, first) ↦
            Ends-early ready n ((sends >>= k) n).1
              (subst (λ r. OnlyTrace n r.1) (sym (>>=-eq-failed k sends n first)) quiet)
      ]

  check-Ends :
      (o : Option Error) (ready : Ready) (n : Node)
      → Ends ready n ((check o >>= λ stored. after_store env ready) n).1
  unfolding ◌>>=◌
  check-Ends none ready n = after_store-Ends ready n
  check-Ends (some e) ready n = Ends-early ready n n (OnlyTrace-IsFrame.preorder.refl_at n)

  pub do_ready-Ends : (ready : Ready) (n : Node) → Ends ready n (do_ready env ready n).1
  unfolding do_ready ◌>>=◌
  do_ready-Ends ready n =
      let (m, only, entries, rest, split, last) =
        check-Ends (env.store n.trace ready.hard_state ready.entries ready.snapshot) ready
          (storing ready n) in
      (
        m,
        OnlyTrace-IsFrame.preorder.trans_at n (storing ready n) m (storing-OnlyTrace ready n) only,
        entries,
        rest,
        split,
        last,
      )

-- In a cluster whose nodes are all found at once, and tell their identifiers: if `doReady` succeeds,
-- the node knows the peers that it knew before, changed by the membership changes of the committed
-- entries in their order. A node that is added is known under the capability that is found for it;
-- a node that is removed is forgotten, unless it is the node itself.
pub members_from_round :
    (env : Env) (at : ℕ → ℕ) (ready : Ready) (n : Node)
    → Reachable env at
    → (do_ready env ready n).0 ≡ done tt
    → peers_of (do_ready env ready n).1
      ≡ replay_members env.unmarshal_conf_change at n.id ready.committed_entries (peers_of n)
members_from_round env at ready n reach h =
    let (m, only, applied, same) = do_ready-Enters env ready n h in
    ap Quot.mk same
    ∙ members-apply_entries env at reach ready.committed_entries m applied
    ∙ ap (λ i. replay_members env.unmarshal_conf_change at i ready.committed_entries (peers_of m))
        only.same_id
    ∙ ap (λ p. replay_members env.unmarshal_conf_change at n.id ready.committed_entries (Quot.mk p))
        only.same_peers

-- The same however the round ends: the changes of the first committed entries, up to some entry.
pub members_prefix :
    (env : Env) (at : ℕ → ℕ) (ready : Ready) (n : Node)
    → Reachable env at
    → ((do_ready env ready n).1.id ≡ n.id)
      × (applied rest : List Entry) × (ready.committed_entries ≡ applied ++ rest)
      × (peers_of (do_ready env ready n).1
          ≡ replay_members env.unmarshal_conf_change at n.id applied (peers_of n))
members_prefix env at ready n reach =
    let (m, only, entries, rest, split, last) = do_ready-Ends env ready n in
    let (applied, more, split', peers) = members-apply_entries_prefix env at reach entries m in
    (
      last.same_id ∙ apply_entries-id env entries m ∙ only.same_id,
      applied,
      more ++ rest,
      split ∙ ap (λ es. es ++ rest) split' ∙ append_assoc applied more rest,
      ap Quot.mk last.same_peers
          ∙ peers
          ∙ ap (λ i. replay_members env.unmarshal_conf_change at i applied (peers_of m))
              only.same_id
          ∙ ap (λ p. replay_members env.unmarshal_conf_change at n.id applied (Quot.mk p))
              only.same_peers,
    )
