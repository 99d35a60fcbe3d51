-- ===== src/Network/Genuine.antt =====
-- Runs of several nodes, and where the messages come from that their etcd is given.
use raft_capnp.Prelude.{
  refl, ◌≡◌, ◌≢◌, ap, ℕ, Bool, true, false, not, count_by, none, List, [], ◌∷◌, ◌++◌, All, ⊤, arith,
  inl, inr, Bool-cases, nat_beq_iff,
}
use raft_capnp.Prelude.Eq.{◌==◌, nat_eq}
use raft_capnp.Data.{Bytes, Message}
use raft_capnp.Effect.{Env, Node, Result, ok}
use raft_capnp.Effect.Frames.{select}
use raft_capnp.Pause.{rest_of_pause, do_pause}
use raft_capnp.Pause.Frames.{Frame-wait_pause, Frame-rest_of_pause, Frame-do_pause}
use raft_capnp.Pause.Queue.{stepped}
use raft_capnp.Pause.Counts.{weight}
use raft_capnp.Apply.{do_ready}
use raft_capnp.Apply.Counts.{own}
use raft_capnp.Rpc.Calls.{
  calling_send, going_on_send, Frame-serve, Frame-handle_send, Frame-end_of_send,
}
use raft_capnp.Rpc.Counts.{of_decoded}
use raft_capnp.Loop.{Event, ticked, ready, paused, ctx_over, Loop, round, go_on, stop}
use raft_capnp.Loop.Reach.{
  go_round, resume, wake, call_stop, serve_call, receive_stop, Step, here, next,
}
use raft_capnp.Loop.History.{handled-node}
use raft_capnp.Loop.Messages.{arrivals, at_most_once}
use raft_capnp.Network.Sent.{
  sent, AllSent, SendsGood, SendsGood-IsFrame, SendsGood-queue, EncodesGood, SendsGood-do_ready,
}

-- The nodes of a cluster, by their identifiers.
abbrev pub Nodes : Type 0
Nodes = ℕ → Loop

-- Some node has sent the bytes.
abbrev pub SentBy : Nodes → Bytes → Type 0
SentBy c encoded =
    (j : ℕ) × (before after : List Bytes) × (select sent (c j).node.trace
      ≡ before ++ encoded ∷ after)

module _ (envs : ℕ → Env) (P : Message → Bool) where
  abbrev pub AllowedEvent : Event → Type 0
  AllowedEvent (ready r) = All (λ msg. P msg ≡ true) r.messages
  AllowedEvent _ = ⊤

  -- The rounds of etcd hold messages that pass the test, and the bytes of a served `Send`, or of one
  -- that goes on, have been sent by some node, perhaps long ago or more than once. Nothing else is
  -- asked of a step.
  abbrev pub Allowed : (c : Nodes) {i : ℕ} {l m : Loop} → Step (envs i) l m → Type 0
  Allowed c (go_round e live) = AllowedEvent e
  Allowed c (serve_call (calling_send none (ok encoded))) = SentBy c encoded
  Allowed c (serve_call (going_on_send was_paused encoded)) = SentBy c encoded
  Allowed c _ = ⊤

  -- One node takes a step.
  pub data Move (c d : Nodes) : Type 0 where
    moves :
        (i : ℕ) (s : Step (envs i) (c i) (d i))
        → Allowed c s
        → ((j : ℕ) → j ≢ i → d j ≡ c j)
        → Move c d

  pub data Moves (c : Nodes) : Nodes → Type 0 where
    no_move : Moves c c
    then_move : {d e : Nodes} → Moves c d → Move d e → Moves c e

  abbrev bad : Message → Bool
  bad msg = not (P msg)

  module _ (decode : Bytes → Result Message) where
    abbrev Good : Bytes → Type 0
    Good encoded = of_decoded bad (decode encoded) ≡ 0

    -- What etcd was given, what waits in the queue, and what was sent passes the test.
    pub record Genuine (n : Node) : Type 0 where
      pub given : weight bad n ≡ 0
      pub sends : AllSent Good n.trace

    own_zero :
        (self : ℕ) (msgs : List Message) → All (λ msg. P msg ≡ true) msgs → own bad self msgs ≡ 0
    own_zero self [] h = refl
    own_zero self (msg ∷ msgs) h = elim (Bool-cases (msg.to == self)) [
      | inl mine ↦ rw (mine, h.0) (omega (arith, own_zero self msgs h.1))
      | inr other ↦ rw other (omega (arith, own_zero self msgs h.1))
    ]

    sent-Good :
        (before after : List Bytes) (encoded : Bytes) (l : List Bytes)
        → l ≡ before ++ encoded ∷ after
        → All Good l
        → Good encoded
    sent-Good before after encoded l split h = middle before (rw split at h)
      where
        middle : (xs : List Bytes) → All Good (xs ++ encoded ∷ after) → Good encoded
        middle [] k = k.0
        middle (x ∷ xs) k = middle xs k.1

    module _ (agree : (i : ℕ) → (envs i).unmarshal_message ≡ decode)
        (codec : (i : ℕ) (msg : Message) (encoded : Bytes)
          → (envs i).marshal_message msg ≡ ok encoded
          → decode encoded ≡ ok msg) where
      messages-EncodesGood :
          (i : ℕ) (msgs : List Message)
          → All (λ msg. P msg ≡ true) msgs
          → All (EncodesGood Good (envs i)) msgs
      messages-EncodesGood i [] h = tt
      messages-EncodesGood i (msg ∷ msgs) h =
          (λ encoded e. rw (codec i msg encoded e, h.0) refl, messages-EncodesGood i msgs h.1)

      arrivals_zero :
          (c : Nodes) (i : ℕ) {l m : Loop} (s : Step (envs i) l m)
          → ((j : ℕ) → Genuine (c j).node)
          → Allowed c s
          → arrivals bad (next here s) ≡ 0
      arrivals_zero c i (go_round ticked live) all ok_step = refl
      arrivals_zero c i (go_round (ready r) live) all ok_step =
          omega (arith, own_zero _ r.messages ok_step)
      arrivals_zero c i (go_round (paused pause events) live) all ok_step = refl
      arrivals_zero c i (go_round (ctx_over e) live) all ok_step = refl
      arrivals_zero c i (resume events waits free) all ok_step = refl
      arrivals_zero c i (wake events waits free over) all ok_step = refl
      arrivals_zero c i (call_stop cause) all ok_step = refl
      arrivals_zero c i (serve_call (calling_send none (ok encoded))) all ok_step =
          let (j, before, after, split) = ok_step in
          omega (
            arith,
            ap (λ f. of_decoded bad (f encoded)) (agree i),
            sent-Good before after encoded _ split (all j).sends,
          )
      arrivals_zero c i (serve_call (going_on_send was_paused encoded)) all ok_step =
          let (j, before, after, split) = ok_step in
          omega (
            arith,
            ap (λ f. of_decoded bad (f encoded)) (agree i),
            sent-Good before after encoded _ split (all j).sends,
          )
      arrivals_zero c i (serve_call call) all ok_step = refl
      arrivals_zero c i (receive_stop before after e live split) all ok_step = refl

      round-SendsGood :
          (i : ℕ) (e : Event) (l : Loop)
          → AllowedEvent e
          → SendsGood Good l.node (round (envs i) e l).node
      unfolding round
      round-SendsGood i ticked l ok_step = record { still = λ h. h }
      round-SendsGood i (ready r) l ok_step = rw (handled-node (do_ready (envs i) r l.node) l) (
          (SendsGood-do_ready Good (envs i) r (messages-EncodesGood i r.messages ok_step)).at
            l.node)
      round-SendsGood i (paused pause events) l ok_step =
          rw (handled-node (do_pause (envs i) pause events l.node) l)
            ((Frame-do_pause (SendsGood-queue Good) (envs i) pause events).at l.node)
      round-SendsGood i (ctx_over e) l ok_step = record { still = λ h. h }

      Step-SendsGood :
          (c : Nodes) (i : ℕ) {l m : Loop} (s : Step (envs i) l m)
          → Allowed c s
          → SendsGood Good l.node m.node
      unfolding go_on stop
      Step-SendsGood c i {l} (go_round e live) ok_step = round-SendsGood i e l ok_step
      Step-SendsGood c i {l} (resume events waits free) ok_step =
          rw (handled-node (rest_of_pause (envs i) events l.node) (record l { stuck = false }))
            ((Frame-rest_of_pause (SendsGood-queue Good) (envs i) events).at l.node)
      Step-SendsGood c i {l} (wake events waits free over) ok_step =
          (Frame-wait_pause (SendsGood-queue Good).pauses events).at l.node
      Step-SendsGood c i (call_stop cause) ok_step = record { still = λ h. h }
      Step-SendsGood c i {l} (serve_call call) ok_step =
          Frame-serve (SendsGood-IsFrame Good) (envs i)
            (Frame-handle_send (SendsGood-queue Good) (envs i))
            (Frame-end_of_send (SendsGood-queue Good) (envs i)) call l.node
      Step-SendsGood c i (receive_stop before after e live split) ok_step = record {
        still = λ h. h;
      }

      Step-Genuine :
          (c : Nodes) (i : ℕ) {l m : Loop} (s : Step (envs i) l m)
          → ((j : ℕ) → Genuine (c j).node)
          → Allowed c s
          → Genuine l.node
          → Genuine m.node
      Step-Genuine c i s all ok_step h = record {
        given = omega (
          arith,
          at_most_once (envs i) bad (next here s),
          arrivals_zero c i s all ok_step,
          h.given,
        );
        sends = (Step-SendsGood c i s ok_step).still h.sends;
      }

      Move-Genuine :
          {c d : Nodes} → Move c d → ((j : ℕ) → Genuine (c j).node) → (j : ℕ) → Genuine (d j).node
      Move-Genuine {c} {d} (moves i s ok_step others) all j = elim (Bool-cases (j == i)) [
        | inl same ↦
            let e : j ≡ i = (nat_beq_iff j i).0 same in
            rw e (Step-Genuine c i s all ok_step (all i))
        | inr other ↦
            let e : j ≢ i = λ eq. cc ((nat_beq_iff j i).1 eq, other) in rw (others j e) (all j)
      ]

      Moves-Genuine :
          {c d : Nodes} → Moves c d → ((j : ℕ) → Genuine (c j).node) → (j : ℕ) → Genuine (d j).node
      Moves-Genuine no_move all = all
      Moves-Genuine (then_move run m) all = Move-Genuine m (Moves-Genuine run all)

      passes : (msgs : List Message) → count_by bad msgs ≡ 0 → All (λ msg. P msg ≡ true) msgs
      passes [] h = tt
      passes (msg ∷ msgs) h = elim (Bool-cases (P msg)) [
        | inl good ↦ (good, passes msgs (omega (arith, h)))
        | inr not_good ↦ absurd (omega (arith, rw not_good at h))
      ]

      -- In every run of a cluster whose nodes encode and decode messages alike, where each decoded
      -- message is the encoded one, and where the network delivers to a node only what some node has
      -- sent, in whatever order and how often ever: if a test holds of all messages in the rounds
      -- that the nodes get from etcd, and nothing but such messages was about at the start, it holds
      -- of all messages that any node gives to its etcd.
      pub nothing_forged :
          {c d : Nodes}
          → ((j : ℕ) → Genuine (c j).node)
          → Moves c d
          → (j : ℕ) → All (λ msg. P msg ≡ true) (select stepped (d j).node.trace)
      nothing_forged {d = d} all run j =
          passes (select stepped (d j).node.trace) (omega (arith, (Moves-Genuine run all j).given))
