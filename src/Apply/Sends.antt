-- ===== src/Apply/Sends.antt =====
-- What `sendMessages` sends, to whom, and in which order.
use raft_capnp.Prelude.{
  refl, ◌≡◌, ◌∙◌, ap, ℕ, Option, none, some, List, [], ◌∷◌, ⊤, arith, inl, inr, if◌then◌else◌,
  Bool-cases,
}
use raft_capnp.Prelude.Eq.{◌==◌, nat_eq}
use raft_capnp.Prelude.Assoc.{Assoc, lookup}
use raft_capnp.Data.{Bytes, Raft, null, client, Message}
use raft_capnp.Effect.{Act, Env, Node, Result, ok, err, done, take_ref, ◌>>=◌}
use raft_capnp.Effect.Keeps.{>>=-done}
use raft_capnp.Effect.Frames.{select, OnlyTrace, OnlyTrace-IsFrame, OnlyTrace-MessageFree}
use raft_capnp.Helper.{rpc_send}
use raft_capnp.View.{copy_peers, view_peers}
use raft_capnp.Apply.{report, send_to, send_message, send_each, send_messages}
use raft_capnp.Apply.Frames.{Frame-send_messages}

-- A message given to the node's own etcd, or bytes sent to a peer.
pub data Delivery : Type 0 where
  to_self : Message → Delivery
  to_peer : Raft → Bytes → Delivery

abbrev pub delivered : Act → Option Delivery
delivered (Act.step msg) = some (to_self msg)
delivered (Act.send_msg peer encoded) = some (to_peer peer encoded)
delivered _ = none

-- What is to be sent for a message to another node: nothing to a stranger, and nothing of a message
-- that cannot be encoded.
abbrev pub to_other : Result Bytes → Option Raft → Option Delivery
to_other encoded none = none
to_other (ok encoded) (some peer) = some (to_peer peer encoded)
to_other (err e) (some peer) = none

abbrev pub due : Env → ℕ → Assoc ℕ Raft → Message → Option Delivery
due env self peers msg =
    if msg.to == self
    then some (to_self msg)
    else to_other (env.marshal_message msg) (lookup msg.to peers)

abbrev pub push : Option Delivery → List Delivery → List Delivery
push none l = l
push (some d) l = d ∷ l

-- What is due for all of the messages, the last one in front.
abbrev pub all_due : Env → ℕ → Assoc ℕ Raft → List Message → List Delivery → List Delivery
all_due env self peers [] l = l
all_due env self peers (msg ∷ msgs) l =
    all_due env self peers msgs (push (due env self peers msg) l)

module _ (env : Env) where
  sends-to :
      (msg : Message) (o : Option Raft) (n : Node)
      → ((send_to env msg o n).0 ≡ done tt)
        × (select delivered (send_to env msg o n).1.trace
            ≡ push (to_other (env.marshal_message msg) o) (select delivered n.trace))
        × ((send_to env msg o n).1.id ≡ n.id)
  unfolding send_to take_ref rpc_send report ◌>>=◌
  sends-to msg none n = (refl, refl, refl)
  sends-to msg (some null) n = ground arith
  sends-to msg (some (client c)) n = ground arith

  sends-one :
      (peers : Assoc ℕ Raft) (msg : Message) (n : Node)
      → ((send_message env peers msg n).0 ≡ done tt)
        × (select delivered (send_message env peers msg n).1.trace
            ≡ push (due env n.id peers msg) (select delivered n.trace))
        × ((send_message env peers msg n).1.id ≡ n.id)
  unfolding send_message ◌>>=◌
  sends-one peers msg n = elim (Bool-cases (msg.to == n.id)) [
    | inl self ↦ rw self (refl, refl, refl)
    | inr other ↦ rw other (sends-to msg (lookup msg.to peers) n)
  ]

  sends-each :
      (peers : Assoc ℕ Raft) (msgs : List Message) (n : Node)
      → ((send_each env peers msgs n).0 ≡ done tt)
        × (select delivered (send_each env peers msgs n).1.trace
            ≡ all_due env n.id peers msgs (select delivered n.trace))
  unfolding send_each
  sends-each peers [] n = (unfold ◌>>=◌ in refl, unfold ◌>>=◌ in refl)
  sends-each peers (msg ∷ msgs) n =
      let n' = (send_message env peers msg n).1 in
      let (ended, sent, same) = sends-one peers msg n in
      let e = >>=-done (λ (x : ⊤). send_each env peers msgs) (send_message env peers msg) n ended in
      let (out, rest) = sends-each peers msgs n' in
      (
        ap (λ r. r.0) e ∙ out,
        ap (λ r. select delivered r.1.trace) e
            ∙ rest
            ∙ ap (λ id. all_due env id peers msgs (select delivered n'.trace)) same
            ∙ ap (all_due env n.id peers msgs) sent,
      )

take_ref-done :
    (c : Raft) (n : Node)
    → ((take_ref c n).0 ≡ done c)
      × (select delivered (take_ref c n).1.trace ≡ select delivered n.trace)
      × ((take_ref c n).1.id ≡ n.id)
unfolding take_ref ◌>>=◌
take_ref-done null n = (refl, refl, refl)
take_ref-done (client c) n = (refl, refl, refl)

-- `Peers` returns what the view holds, and sends nothing.
copies :
    (m : Assoc ℕ Raft) (n : Node)
    → ((copy_peers m n).0 ≡ done m)
      × (select delivered (copy_peers m n).1.trace ≡ select delivered n.trace)
      × ((copy_peers m n).1.id ≡ n.id)
unfolding copy_peers ◌>>=◌
copies [] n = (refl, refl, refl)
copies (e ∷ m) n =
    let (got, quiet_ref, same) = take_ref-done e.1 n in
    let (rest, quiet_rest, same_rest) = copies m (take_ref e.1 n).1 in
    rw (got, rest) (refl, quiet_rest ∙ quiet_ref, same_rest ∙ same)

-- `sendMessages` always succeeds. It gives the node's own messages to its etcd and sends every
-- other one to the peer that it is for, each once and in order; it sends nothing to strangers and
-- nothing that cannot be encoded, and leaves the node as it was.
pub send_messages_delivers :
    (env : Env) (msgs : List Message) (n : Node)
    → ((send_messages env msgs n).0 ≡ done tt)
      × (select delivered (send_messages env msgs n).1.trace
          ≡ all_due env n.id n.peers msgs (select delivered n.trace))
      × OnlyTrace n (send_messages env msgs n).1
unfolding send_messages view_peers ◌>>=◌
send_messages_delivers env msgs n =
    let (got, quiet_peers, same) = copies n.peers n in
    let n' = (copy_peers n.peers n).1 in
    let (out, sent) = sends-each env n.peers msgs n' in
    let frame = (Frame-send_messages OnlyTrace-IsFrame env OnlyTrace-MessageFree msgs).at n in
    (
      rw got out,
      rw got (
          sent
          ∙ ap (λ id. all_due env id n.peers msgs (select delivered n'.trace)) same
          ∙ ap (all_due env n.id n.peers msgs) quiet_peers),
      unfold send_messages view_peers ◌>>=◌ in frame,
    )
