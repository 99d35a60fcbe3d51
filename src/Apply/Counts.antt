-- ===== src/Apply/Counts.antt =====
-- How many messages a round of `doReady` gives to etcd.
use raft_capnp.Prelude.{
  ℕ, Bool, false, one, count_by, Option, none, some, List, [], ◌∷◌, ◌≡◌, refl, ◌+◌, ◌∙◌, ap, arith,
  inl, inr, Bool-cases, ◌&&◌,
}
use raft_capnp.Prelude.Assoc.{Assoc, lookup}
use raft_capnp.Prelude.Eq.{◌==◌, nat_eq}
use raft_capnp.Data.{Bytes, Raft, Error, Entry, Message, Ready}
use raft_capnp.Effect.{Act, Trace, Env, Node, Result, ok, err, call, ◌>>=◌}
use raft_capnp.Effect.Keeps.{IsPreorder, Keeps, Keeps-seq, keeps_rules}
use raft_capnp.Effect.Frames.{select}
use raft_capnp.Pause.Queue.{stepped}
use raft_capnp.Pause.Counts.{
  weight, AtMost, NoMore, NoMore-IsPreorder, NoMore-IsFrame, NoMore-PeersFree, NoMore-ItemsFree,
  NoMore-apply, NoMore-advance,
}
use raft_capnp.Apply.{send_messages, after_store, do_ready}
use raft_capnp.Apply.Frames.{Frame-apply_entries}
use raft_capnp.Apply.Sends.{
  Delivery, to_self, to_peer, delivered, to_other, due, push, all_due, send_messages_delivers,
}

-- The messages of a round that are for the node itself.
abbrev pub own : (Message → Bool) → ℕ → List Message → ℕ
own p self [] = 0
own p self (msg ∷ msgs) = one ((msg.to == self) && p msg) + own p self msgs

module _ (p : Message → Bool) where
  abbrev for_self : Delivery → Bool
  for_self (to_self msg) = p msg
  for_self (to_peer peer encoded) = false

  count-delivered :
      (t : Trace) → count_by p (select stepped t) ≡ count_by for_self (select delivered t)
  count-delivered [] = refl
  count-delivered (Act.step msg ∷ t) = ap (λ k. one (p msg) + k) (count-delivered t)
  count-delivered (Act.send_msg peer encoded ∷ t) = omega (arith, count-delivered t)
  count-delivered (a ∷ t) = count-delivered t

  count-other :
      (encoded : Result Bytes) (o : Option Raft) (l : List Delivery)
      → count_by for_self (push (to_other encoded o) l) ≡ 0 + count_by for_self l
  count-other encoded none l = omega arith
  count-other (ok bytes) (some peer) l = omega arith
  count-other (err e) (some peer) l = omega arith

  module _ (env : Env) where
    count-due :
        (self : ℕ) (peers : Assoc ℕ Raft) (msg : Message) (l : List Delivery)
        → count_by for_self (push (due env self peers msg) l)
          ≡ one ((msg.to == self) && p msg) + count_by for_self l
    count-due self peers msg l = elim (Bool-cases (msg.to == self)) [
      | inl mine ↦ rw mine (omega arith)
      | inr other ↦ rw other (count-other (env.marshal_message msg) (lookup msg.to peers) l)
    ]

    count-all_due :
        (self : ℕ) (peers : Assoc ℕ Raft) (msgs : List Message) (l : List Delivery)
        → count_by for_self (all_due env self peers msgs l) ≡ own p self msgs + count_by for_self l
    count-all_due self peers [] l = omega arith
    count-all_due self peers (msg ∷ msgs) l = omega (
      arith,
      count-all_due self peers msgs (push (due env self peers msg) l),
      count-due self peers msg l,
    )

    -- A round that brings no more than its messages for the node itself.
    abbrev BringsOwn : List Message → Node → Node → Type 0
    BringsOwn msgs n n' = AtMost p (own p n.id msgs) n n'

    abbrev SameId : Node → Node → Type 0
    SameId n n' = (n'.id ≡ n.id) × NoMore p n n'

    BringsOwn-refl : (msgs : List Message) (n : Node) → BringsOwn msgs n n
    BringsOwn-refl msgs n = record { weight_le = omega arith }

    -- `sendMessages` gives etcd the messages for the node itself, each once.
    pub send_messages-weight :
        (msgs : List Message) (n : Node)
        → weight p (send_messages env msgs n).1 ≡ own p n.id msgs + weight p n
    send_messages-weight msgs n =
        let (out, sent, frame) = send_messages_delivers env msgs n in
        omega (
          arith,
          count-delivered n.trace,
          count-delivered (send_messages env msgs n).1.trace,
          ap (count_by for_self) sent,
          ap (count_by p) frame.same_queue,
          count-all_due n.id n.peers msgs (select delivered n.trace),
        )

    BringsOwn-send_messages :
        (msgs : List Message) → Keeps (BringsOwn msgs) (send_messages env msgs)
    BringsOwn-send_messages msgs = record {
      at = λ n. record { weight_le = omega (arith, send_messages-weight msgs n) };
    }

    BringsOwn-after_store : (r : Ready) → Keeps (BringsOwn r.messages) (after_store env r)
    unfolding after_store
    BringsOwn-after_store r =
        Keeps-seq {S = NoMore p} (NoMore-IsPreorder p).refl_at
          (λ n m k x y. record { weight_le = omega (arith, x.weight_le, y.weight_le) })
          (send_messages env r.messages) _ (BringsOwn-send_messages r.messages)
          (λ sent. search (
            keeps_rules,
            NoMore-IsPreorder,
            NoMore-advance,
            Frame-apply_entries (NoMore-IsFrame p) env (NoMore-PeersFree p) (NoMore-apply p)
                (NoMore-ItemsFree p),
          ))

    SameId-IsPreorder : IsPreorder SameId
    SameId-IsPreorder = record {
      refl_at = λ n. (refl, (NoMore-IsPreorder p).refl_at n);
      trans_at = λ n m k x y. (y.0 ∙ x.0, (NoMore-IsPreorder p).trans_at n m k x.1 y.1);
    }

    BringsOwn-joins :
        (msgs : List Message) (n m k : Node) → SameId n m → BringsOwn msgs m k → BringsOwn msgs n k
    BringsOwn-joins msgs n m k x y = record {
      weight_le = omega (arith, x.1.weight_le, y.weight_le, ap (λ i. own p i msgs) x.0);
    }

    SameId-store :
        (f : Trace → Option Error) (hs : Bytes) (es : List Entry) (sn : Bytes)
        → Keeps SameId (call (Act.store hs es sn) f)
    unfolding ◌>>=◌
    SameId-store f hs es sn = record { at = λ n. (refl, record { weight_le = omega arith }) }

    -- A round of `doReady` gives etcd no message but those of the round that are for the node.
    pub do_ready-AtMost : (r : Ready) → Keeps (BringsOwn r.messages) (do_ready env r)
    unfolding do_ready
    do_ready-AtMost r =
        Keeps-seq (BringsOwn-refl r.messages) (BringsOwn-joins r.messages) _ _
          (SameId-store _ r.hard_state r.entries r.snapshot)
          (λ stored.
            Keeps-seq (BringsOwn-refl r.messages) (BringsOwn-joins r.messages) _ _
              (search (keeps_rules, SameId-IsPreorder)) (λ x. BringsOwn-after_store r))
