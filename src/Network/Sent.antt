-- ===== src/Network/Sent.antt =====
-- The bytes that a node sends to its peers.
use raft_capnp.Prelude.{
  refl, ◌≡◌, ℕ, true, Option, none, some, List, [], ◌∷◌, All, inl, inr, Bool-cases, ⊤,
}
use raft_capnp.Prelude.Assoc.{Assoc, lookup}
use raft_capnp.Prelude.Eq.{◌==◌, nat_eq}
use raft_capnp.Data.{Bytes, Raft, Message, Ready}
use raft_capnp.Effect.{Act, Trace, Env, Node, Result, ok, err, call, emit, ◌>>=◌}
use raft_capnp.Effect.Keeps.{IsPreorder, Keeps, Keeps-bind, keeps_rules}
use raft_capnp.Effect.Frames.{quiet, select, Same-call, IsFrame, PeersFree, ItemsFree}
use raft_capnp.Pause.Frames.{IsQueueFrame}
use raft_capnp.Apply.{send_messages, after_store, do_ready}
use raft_capnp.Apply.Frames.{Frame-apply_entries}
use raft_capnp.Apply.Sends.{
  Delivery, to_self, to_peer, delivered, to_other, due, push, all_due, send_messages_delivers,
}

abbrev pub sent : Act → Option Bytes
sent (Act.send_msg peer encoded) = some encoded
sent _ = none

module _ (Good : Bytes → Type 0) where
  -- What was sent is good.
  abbrev pub AllSent : Trace → Type 0
  AllSent t = All Good (select sent t)

  -- If what was sent before is good, so is what has been sent then.
  pub record SendsGood (n n' : Node) : Type 0 where
    pub still : AllSent n.trace → AllSent n'.trace

  SendsGood-IsPreorder : IsPreorder SendsGood
  SendsGood-IsPreorder = record {
    refl_at = λ n. record { still = λ h. h };
    trans_at = λ n m k x y. record { still = λ h. y.still (x.still h) };
  }

  SendsGood-call :
      {A : Type 0} (a : Act) (f : Trace → A) → sent a ≡ none → Keeps SendsGood (call a f)
  SendsGood-call a f h = record {
    at = λ n. record { still = λ good. rw ((Same-call sent a f h).at n) good };
  }

  quiet-sent : (a : Act) → quiet a ≡ true → sent a ≡ none
  quiet-sent (Act.send_msg peer encoded) q = cc q
  quiet-sent (Act.get_id c) q = refl
  quiet-sent _ q = refl

  pub SendsGood-IsFrame : IsFrame SendsGood
  SendsGood-IsFrame = record {
    preorder = SendsGood-IsPreorder;
    quiet_call = λ A a f q. SendsGood-call a f (quiet-sent a q);
  }

  pub SendsGood-queue : IsQueueFrame SendsGood
  unfolding ◌>>=◌
  SendsGood-queue = record {
    pauses = record {
      frame = SendsGood-IsFrame;
      hold = λ b. record { at = λ n. record { still = λ h. h } };
      flag = λ b. record { at = λ n. record { still = λ h. h } };
    };
    queue_free = λ f. record { at = λ n. record { still = λ h. h } };
    step_free = λ msg f. SendsGood-call (Act.step msg) f refl;
  }

  SendsGood-PeersFree : PeersFree SendsGood
  unfolding ◌>>=◌
  SendsGood-PeersFree f = record { at = λ n. record { still = λ h. h } }

  SendsGood-ItemsFree : ItemsFree SendsGood
  unfolding ◌>>=◌
  SendsGood-ItemsFree f = record { at = λ n. record { still = λ h. h } }

  SendsGood-advance : Keeps SendsGood (emit Act.advance)
  SendsGood-advance = SendsGood-call Act.advance (λ t. tt) refl

  -- A delivery that is good if it goes to a peer.
  abbrev GoodDelivery : Delivery → Type 0
  GoodDelivery (to_self msg) = ⊤
  GoodDelivery (to_peer peer encoded) = Good encoded

  sent-delivered : (t : Trace) → AllSent t → All GoodDelivery (select delivered t)
  sent-delivered [] h = tt
  sent-delivered (Act.step msg ∷ t) h = (tt, sent-delivered t h)
  sent-delivered (Act.send_msg peer encoded ∷ t) h = (h.0, sent-delivered t h.1)
  sent-delivered (a ∷ t) h = sent-delivered t h

  delivered-sent : (t : Trace) → All GoodDelivery (select delivered t) → AllSent t
  delivered-sent [] h = tt
  delivered-sent (Act.step msg ∷ t) h = delivered-sent t h.1
  delivered-sent (Act.send_msg peer encoded ∷ t) h = (h.0, delivered-sent t h.1)
  delivered-sent (a ∷ t) h = delivered-sent t h

  module _ (env : Env) where
    -- The encoding of a message is good.
    abbrev pub EncodesGood : Message → Type 0
    EncodesGood msg = (encoded : Bytes) → env.marshal_message msg ≡ ok encoded → Good encoded

    to_other-GoodDelivery :
        (r : Result Bytes) (o : Option Raft) (l : List Delivery)
        → ((encoded : Bytes) → r ≡ ok encoded → Good encoded)
        → All GoodDelivery l
        → All GoodDelivery (push (to_other r o) l)
    to_other-GoodDelivery r none l good h = h
    to_other-GoodDelivery (ok encoded) (some peer) l good h = (good encoded refl, h)
    to_other-GoodDelivery (err e) (some peer) l good h = h

    due-GoodDelivery :
        (self : ℕ) (peers : Assoc ℕ Raft) (msg : Message) (l : List Delivery)
        → EncodesGood msg
        → All GoodDelivery l
        → All GoodDelivery (push (due env self peers msg) l)
    due-GoodDelivery self peers msg l good h = elim (Bool-cases (msg.to == self)) [
      | inl mine ↦ rw mine (tt, h)
      | inr other ↦
          rw other (to_other-GoodDelivery (env.marshal_message msg) (lookup msg.to peers) l good h)
    ]

    all_due-GoodDelivery :
        (self : ℕ) (peers : Assoc ℕ Raft) (msgs : List Message) (l : List Delivery)
        → All EncodesGood msgs
        → All GoodDelivery l
        → All GoodDelivery (all_due env self peers msgs l)
    all_due-GoodDelivery self peers [] l good h = h
    all_due-GoodDelivery self peers (msg ∷ msgs) l good h =
        all_due-GoodDelivery self peers msgs (push (due env self peers msg) l) good.1
          (due-GoodDelivery self peers msg l good.0 h)

    SendsGood-send_messages :
        (msgs : List Message) → All EncodesGood msgs → Keeps SendsGood (send_messages env msgs)
    SendsGood-send_messages msgs good = record {
      at = λ n. record {
        still = λ h.
            let (out, sends, frame) = send_messages_delivers env msgs n in
            delivered-sent (send_messages env msgs n).1.trace (
              rw sends (
                all_due-GoodDelivery n.id n.peers msgs (select delivered n.trace) good
                  (sent-delivered n.trace h)));
      };
    }

    SendsGood-after_store :
        (r : Ready) → All EncodesGood r.messages → Keeps SendsGood (after_store env r)
    unfolding after_store
    SendsGood-after_store r good =
        Keeps-bind SendsGood-IsPreorder _ _ (SendsGood-send_messages r.messages good) (λ sent.
          search (
            keeps_rules,
            SendsGood-IsPreorder,
            SendsGood-advance,
            Frame-apply_entries SendsGood-IsFrame env SendsGood-PeersFree
                (λ cc. SendsGood-call (Act.apply_conf_change cc) (λ t. tt) refl)
                SendsGood-ItemsFree,
          ))

    -- A round of `doReady` sends only its messages.
    pub SendsGood-do_ready :
        (r : Ready) → All EncodesGood r.messages → Keeps SendsGood (do_ready env r)
    unfolding do_ready
    SendsGood-do_ready r good =
        Keeps-bind SendsGood-IsPreorder _ _
          (SendsGood-call (Act.store r.hard_state r.entries r.snapshot) _ refl)
          (λ stored.
            Keeps-bind SendsGood-IsPreorder _ _ (search (keeps_rules, SendsGood-IsPreorder))
              (λ x. SendsGood-after_store r good))
