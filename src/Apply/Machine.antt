-- ===== src/Apply/Machine.antt =====
-- The committed entries as a replicated state machine: what they do to the items of a node.
use raft_capnp.Prelude.{
  if◌then◌else◌, true, refl, sym, ◌≡◌, ◌∙◌, Option, none, some, List, [], ◌++◌, ⊤, Bool-cases, inl,
  inr, ap,
}
use raft_capnp.Data.{snapshot_unimplemented, Error, Entry, Ready}
use raft_capnp.Effect.{Act, Env, Node, done, Action, raise, emit, ◌>>◌, check, ◌>>=◌}
use raft_capnp.Effect.Keeps.{Keeps-after, Outcome-cases, >>=-done, >>=-eq-done, >>=-eq-failed}
use raft_capnp.Effect.Frames.{SameItems-IsFrame, SameItems-MessageFree}
use raft_capnp.Apply.{apply_entries, send_messages, after_store, do_ready}
use raft_capnp.Apply.Frames.{Returns-send_messages, Frame-send_messages}
use raft_capnp.Apply.Entries.{
  storing, replay, items_preorder, items-advance, items-apply_entries, items-apply_entries_prefix,
}

module _ (env : Env) where
  -- What is left of the round once the store has succeeded.
  apply_round : Ready → Action ⊤
  apply_round ready =
      if env.is_empty_snap ready.snapshot
      then (apply_entries env ready.committed_entries >> emit Act.advance)
      else raise snapshot_unimplemented

  items-apply_round :
      (ready : Ready) (n : Node)
      → (apply_round ready n).0 ≡ done tt
      → (env.is_empty_snap ready.snapshot ≡ true)
        × ((apply_round ready n).1.items
            ≡ replay env.unmarshal_item env.md5 ready.committed_entries n.items)
  unfolding apply_round
  items-apply_round ready n h = elim (Bool-cases (env.is_empty_snap ready.snapshot)) [
    | inl empty ↦
        let (x, first, eq) =
          >>=-eq-done (λ (x : ⊤). emit Act.advance) (apply_entries env ready.committed_entries) n
            (rw empty at h) in
        (
          empty,
          rw empty (
              ap (λ r. r.1.items) eq
              ∙ unfold ◌>>=◌ in items-apply_entries env ready.committed_entries n first),
        )
    | inr full ↦ absurd (unfold ◌>>=◌ in cc (rw full at h))
  ]

  items-apply_round_prefix :
      (ready : Ready) (n : Node)
      → (applied rest : List Entry) × (ready.committed_entries ≡ applied ++ rest)
        × ((apply_round ready n).1.items ≡ replay env.unmarshal_item env.md5 applied n.items)
  unfolding apply_round
  items-apply_round_prefix ready n =
      let m = apply_entries env ready.committed_entries in
      let k = λ (x : ⊤). emit Act.advance in
      let (applied, rest, split, items) =
        items-apply_entries_prefix env ready.committed_entries n in
      elim (Bool-cases (env.is_empty_snap ready.snapshot)) [
        | inl empty ↦ (
          applied,
          rest,
          split,
          rw empty (Keeps-after items_preorder m k n (λ x. items-advance) ∙ items),
        )
        | inr full ↦ ([], ready.committed_entries, refl, rw full (unfold ◌>>=◌ in refl))
      ]

  items-send : (ready : Ready) (n : Node) → (send_messages env ready.messages n).1.items ≡ n.items
  items-send ready n =
      (Frame-send_messages SameItems-IsFrame env SameItems-MessageFree ready.messages).at n

  items-after_store :
      (ready : Ready) (n : Node)
      → (after_store env ready n).0 ≡ done tt
      → (env.is_empty_snap ready.snapshot ≡ true)
        × ((after_store env ready n).1.items
            ≡ replay env.unmarshal_item env.md5 ready.committed_entries n.items)
  unfolding after_store apply_round
  items-after_store ready n h =
      let m = send_messages env ready.messages in
      let (x, first, eq) = >>=-eq-done (λ (x : ⊤). apply_round ready) m n h in
      let (empty, items) = items-apply_round ready (m n).1 (ap (λ r. r.0) (sym eq) ∙ h) in
      (
        empty,
        ap (λ r. r.1.items) eq
            ∙ items
            ∙ ap (replay env.unmarshal_item env.md5 ready.committed_entries) (items-send ready n),
      )

  items-after_store_prefix :
      (ready : Ready) (n : Node)
      → (applied rest : List Entry) × (ready.committed_entries ≡ applied ++ rest)
        × ((after_store env ready n).1.items ≡ replay env.unmarshal_item env.md5 applied n.items)
  unfolding after_store apply_round
  items-after_store_prefix ready n =
      let m = send_messages env ready.messages in
      let k = λ (x : ⊤). apply_round ready in
      let (applied, rest, split, items) = items-apply_round_prefix ready (m n).1 in
      elim (Outcome-cases (m n).0 ((Returns-send_messages env ready.messages).at n)) [
        | inl (x, first) ↦ (
          applied,
          rest,
          split,
          ap (λ r. r.1.items) (>>=-done k m n first)
              ∙ items
              ∙ ap (replay env.unmarshal_item env.md5 applied) (items-send ready n),
        )
        | inr (e, first) ↦ (
          [],
          ready.committed_entries,
          refl,
          ap (λ r. r.1.items) (>>=-eq-failed k m n first) ∙ items-send ready n,
        )
      ]

  items-stored :
      (o : Option Error) (ready : Ready) (n : Node)
      → ((check o >>= λ stored. after_store env ready) n).0 ≡ done tt
      → (env.is_empty_snap ready.snapshot ≡ true)
        × (((check o >>= λ stored. after_store env ready) n).1.items
            ≡ replay env.unmarshal_item env.md5 ready.committed_entries n.items)
  unfolding ◌>>=◌
  items-stored none ready n h = items-after_store ready n h
  items-stored (some e) ready n h = cc

  items-stored_prefix :
      (o : Option Error) (ready : Ready) (n : Node)
      → (applied rest : List Entry) × (ready.committed_entries ≡ applied ++ rest)
        × (((check o >>= λ stored. after_store env ready) n).1.items
            ≡ replay env.unmarshal_item env.md5 applied n.items)
  unfolding ◌>>=◌
  items-stored_prefix none ready n = items-after_store_prefix ready n
  items-stored_prefix (some e) ready n = ([], ready.committed_entries, refl, refl)

  -- If `doReady` succeeds, the snapshot of the round is empty, and the items are those of before
  -- with every item of the committed entries put into them, in the order of the entries.
  pub do_ready_items :
      (ready : Ready) (n : Node)
      → (do_ready env ready n).0 ≡ done tt
      → (env.is_empty_snap ready.snapshot ≡ true)
        × ((do_ready env ready n).1.items
            ≡ replay env.unmarshal_item env.md5 ready.committed_entries n.items)
  unfolding do_ready ◌>>=◌
  do_ready_items ready n h =
      items-stored (env.store n.trace ready.hard_state ready.entries ready.snapshot) ready
        (storing ready n) h

  -- However `doReady` ends, the items are those of before with the items of the first committed
  -- entries put into them, up to some entry, in the order of the entries.
  pub do_ready_prefix :
      (ready : Ready) (n : Node)
      → (applied rest : List Entry) × (ready.committed_entries ≡ applied ++ rest)
        × ((do_ready env ready n).1.items ≡ replay env.unmarshal_item env.md5 applied n.items)
  unfolding do_ready ◌>>=◌
  do_ready_prefix ready n =
      items-stored_prefix (env.store n.trace ready.hard_state ready.entries ready.snapshot) ready
        (storing ready n)

-- Two nodes that hold the same items, decode and hash alike, and both succeed at a round with the
-- same committed entries, hold the same items afterwards, whatever else differs between them:
-- their identifiers, their peers, the messages they send and the answers that they get.
replicas_agree :
    (env₁ env₂ : Env) (ready₁ ready₂ : Ready) (n₁ n₂ : Node)
    → env₁.unmarshal_item ≡ env₂.unmarshal_item
    → env₁.md5 ≡ env₂.md5
    → ready₁.committed_entries ≡ ready₂.committed_entries
    → n₁.items ≡ n₂.items
    → (do_ready env₁ ready₁ n₁).0 ≡ done tt
    → (do_ready env₂ ready₂ n₂).0 ≡ done tt
    → (do_ready env₁ ready₁ n₁).1.items ≡ (do_ready env₂ ready₂ n₂).1.items
replicas_agree env₁ env₂ ready₁ ready₂ n₁ n₂ decode hash log items h₁ h₂ =
    cc ((do_ready_items env₁ ready₁ n₁ h₁).1, (do_ready_items env₂ ready₂ n₂ h₂).1)
