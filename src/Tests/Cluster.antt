-- ===== src/Tests/Cluster.antt =====
-- A run of a cluster: the node 1 sends a message, and the node 2 gets it.
use raft_capnp.Prelude.{
  refl, ◌≡◌, ◌≢◌, ℕ, Bool, true, none, [], ◌∷◌, All, arith, if◌then◌else◌, nat_beq_iff, ap, sym,
}
use raft_capnp.Prelude.Eq.{◌==◌, nat_eq}
use raft_capnp.Data.{Bytes, Message, Ready}
use raft_capnp.Effect.{ok, take_ref, ◌>>=◌}
use raft_capnp.Effect.Frames.{select}
use raft_capnp.Helper.{rpc_send}
use raft_capnp.View.{copy_peers, view_peers}
use raft_capnp.Apply.{
  send_to, send_message, send_each, send_messages, apply_entries, after_store, do_ready, report,
}
use raft_capnp.Pause.Queue.{stepped}
use raft_capnp.Rpc.Calls.{calling_send, serve}
use raft_capnp.Loop.{Loop, ready, start, round}
use raft_capnp.Loop.Reach.{go_round, serve_call}
use raft_capnp.Network.Sent.{sent}
use raft_capnp.Network.Genuine.{Nodes, Move, moves, no_move, then_move, Genuine, nothing_forged}
use raft_capnp.Tests.{healthy, node_one, greeting}

abbrev to_two : Message → Bool
to_two msg = msg.to == 2

abbrev greeting_round : Ready
greeting_round = record {
  hard_state = [];
  entries = [];
  snapshot = [];
  messages = greeting ∷ [];
  committed_entries = [];
}

abbrev with_node : ℕ → Loop → Nodes → Nodes
with_node i l c j = if j == i then l else c j

abbrev begin : Nodes
begin j = start (record node_one { id = j })

abbrev greeted : Nodes
greeted = with_node 1 (round healthy (ready greeting_round) (begin 1)) begin

abbrev heard : Nodes
heard =
    with_node 2
      (record (greeted 2) {
        node = serve healthy (calling_send none (ok (2 ∷ 7 ∷ []))) (greeted 2).node;
      })
      greeted

with_node-other : (i : ℕ) (l : Loop) (c : Nodes) (j : ℕ) → j ≢ i → with_node i l c j ≡ c j
with_node-other i l c j h = ground (arith, nat_beq_iff j i)

greets : Move (λ i. healthy) to_two begin greeted
unfolding start
greets =
    moves 1 (go_round (ready greeting_round) (refl, refl)) (refl, tt)
      (with_node-other 1 (round healthy (ready greeting_round) (begin 1)) begin)

greeting-sent : select sent (greeted 1).node.trace ≡ (2 ∷ 7 ∷ []) ∷ []
unfolding start round do_ready after_store apply_entries send_messages send_each send_message
    send_to report take_ref rpc_send copy_peers view_peers ◌>>=◌
greeting-sent = refl

hears : Move (λ i. healthy) to_two greeted heard
hears =
    moves 2 (serve_call (calling_send none (ok (2 ∷ 7 ∷ [])))) (1, [], [], greeting-sent)
      (with_node-other 2 _ greeted)

begin-Genuine : (j : ℕ) → Genuine (λ i. healthy) to_two healthy.unmarshal_message (begin j).node
unfolding start
begin-Genuine j = record { given = refl; sends = tt }

healthy-codec :
    (i : ℕ) (msg : Message) (encoded : Bytes)
    → healthy.marshal_message msg ≡ ok encoded
    → healthy.unmarshal_message encoded ≡ ok msg
healthy-codec i msg encoded h =
    let same : msg.to ∷ msg.rest ≡ encoded = ground arith in ap healthy.unmarshal_message (sym same)

nothing_forged_example : All (λ msg. to_two msg ≡ true) (select stepped (heard 2).node.trace)
nothing_forged_example =
    nothing_forged (λ i. healthy) to_two healthy.unmarshal_message (λ i. refl) healthy-codec
      begin-Genuine (then_move (then_move no_move greets) hears) 2
