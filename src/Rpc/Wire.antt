-- ===== src/Rpc/Wire.antt =====
-- A call of `Send` over the wire: raft/helper.go at one node, the generated code between, and
-- raft/capnp.go at the other node.
use raft_capnp.Prelude.{◌≡◌, Option, none, some, false, ◌∷◌, arith}
use raft_capnp.Data.{Bytes, Error, Raft, Message}
use raft_capnp.Effect.{Act, Env, Node, ok, done, ◌>>=◌}
use raft_capnp.Helper.{rpc_send}
use raft_capnp.Pause.{lock, is_paused, raft_step}
use raft_capnp.Api.{call_send}
use raft_capnp.Api.Capnp.{Capnp, IsCapnp}
use raft_capnp.Api.SendParams
use raft_capnp.Api.Fields.Arguments.{message_arrives}
use raft_capnp.Rpc.{Reply, reply_ok, reply_error, send, handle_send}

-- What `Send` answers, by what `Step` of etcd answers.
abbrev pub reply_of_step : Option Error → Reply
reply_of_step none = reply_ok
reply_of_step (some e) = reply_error e

module _ (env : Env) where
  rpc_send-calls :
      (node : Raft) (msg : Message) (encoded : Bytes) (n : Node)
      → env.marshal_message msg ≡ ok encoded
      → (rpc_send env node msg n).1.trace ≡ Act.send_msg node encoded ∷ n.trace
  unfolding rpc_send ◌>>=◌
  rpc_send-calls node msg encoded n h = ground arith

  handle_send-steps :
      (msg : Message) (encoded : Bytes) (n : Node)
      → env.unmarshal_message encoded ≡ ok msg
      → n.locked ≡ false
      → n.paused ≡ false
      → ((handle_send env none (ok encoded) n).0 ≡ done (reply_of_step (env.step n.trace msg)))
        × ((handle_send env none (ok encoded) n).1.trace ≡ Act.step msg ∷ n.trace)
  unfolding handle_send send is_paused lock raft_step ◌>>=◌
  handle_send-steps msg encoded n decoded free awake = ground arith

-- A message that one node sends is the message that the other gives to etcd, once: the call carries
-- the message's encoding; if that is placed in arguments of the room that the stub asks for, and
-- decodes to the message again, then the handler of a node that is not paused, and whose pause lock
-- is free, gives the message to etcd, and its reply and its error are those of etcd.
pub sent_message_steps :
    (c : Capnp) (laws : IsCapnp c) {P : Type 0} (env env' : Env) (place : P) (node : Raft)
    (msg : Message) (encoded : Bytes) (n n' : Node) (s : c.Struct) (m m' : c.Memory)
    → env.marshal_message msg ≡ ok encoded
    → (call_send (some place)).args_size ≡ some (c.size_of s)
    → SendParams.set_msg c s encoded m ≡ (none, m')
    → env'.unmarshal_message encoded ≡ ok msg
    → n'.locked ≡ false
    → n'.paused ≡ false
    → ((rpc_send env node msg n).1.trace ≡ Act.send_msg node encoded ∷ n.trace)
      × ((handle_send env' none (SendParams.msg c s m') n').0
          ≡ done (reply_of_step (env'.step n'.trace msg)))
      × ((handle_send env' none (SendParams.msg c s m') n').1.trace ≡ Act.step msg ∷ n'.trace)
sent_message_steps c laws env env' place node msg encoded n n' s m m' coded room placed decoded free
      awake =
    let arrives = message_arrives c laws place s encoded m m' room placed in
    let (replies, steps) = handle_send-steps env' msg encoded n' decoded free awake in
    (rpc_send-calls env node msg encoded n coded, rw arrives replies, rw arrives steps)
