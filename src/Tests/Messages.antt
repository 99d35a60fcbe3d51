-- ===== src/Tests/Messages.antt =====
-- Runs of the generated code over the small memory of messages.
use raft_capnp.Prelude.{refl, ◌≡◌, ℕ, none, some, [], ◌∷◌}
use raft_capnp.Data.{Bytes, external, client}
use raft_capnp.Effect.{Act, Env, ok, done}
use raft_capnp.Helper.{rpc_send}
use raft_capnp.Rpc.{reply_error, handle_send}
use raft_capnp.Rpc.Wire.{sent_message_steps}
use raft_capnp.Item.ToApi.{item_to_api, item_to_api_holds}
use raft_capnp.Api.{ObjectSize, call_send}
use raft_capnp.Api.Capnp.{object_size}
use raft_capnp.Api.ItemStruct
use raft_capnp.Api.AddResults
use raft_capnp.Api.SendParams
use raft_capnp.Api.Fields.{by_add, error_of, error_bytes_of}
use raft_capnp.Api.Fields.Results.{error_reported}
use raft_capnp.Tests.{apple, healthy, node_one, greeting}
use raft_capnp.Tests.Wire.{At, Cells, blank, wire, wire-IsCapnp}

abbrev sorry_text : Bytes
sorry_text = 110 ∷ 111 ∷ []

-- The first struct, and the memory after it.
abbrev first : ObjectSize → At
first size = (0, size)

abbrev one_struct : Cells
one_struct = record blank { free = 1 }

abbrev with_error : Cells
with_error = (wire.set_text (first (object_size 0 2)) 1 sorry_text one_struct).1

add_results-made : AddResults.alloc wire 0 blank ≡ (ok (first (object_size 0 2)), one_struct)
unfolding AddResults.alloc
add_results-made = refl

error-set :
    AddResults.set_error wire (first (object_size 0 2)) sorry_text one_struct ≡ (none, with_error)
unfolding AddResults.set_error
error-set = refl

error_reported_example :
    (error_of wire by_add (first (object_size 0 2)) with_error ≡ ok sorry_text)
    × (error_bytes_of wire by_add (first (object_size 0 2)) with_error ≡ ok sorry_text)
error_reported_example =
    error_reported wire wire-IsCapnp by_add 0 (first (object_size 0 2)) sorry_text blank one_struct
      with_error add_results-made error-set

-- The struct of the apple follows its message.
abbrev apple_struct : At
apple_struct = (1, object_size 0 2)

abbrev with_apple : Cells
with_apple =
    let m = record blank { free = 2 } in
    (wire.set_data apple_struct 1 apple.value (wire.set_data apple_struct 0 apple.key m).1).1

apple-converted : item_to_api wire apple blank ≡ ((some apple_struct, none), with_apple)
unfolding item_to_api ItemStruct.new_struct ItemStruct.set_key ItemStruct.set_value
apple-converted = refl

item_to_api_holds_example :
    (ItemStruct.key wire apple_struct with_apple ≡ ok (10 ∷ []))
    × (ItemStruct.value wire apple_struct with_apple ≡ ok (20 ∷ 21 ∷ []))
item_to_api_holds_example =
    item_to_api_holds wire wire-IsCapnp apple apple_struct blank with_apple apple-converted

abbrev with_message : Cells
with_message = (wire.set_data (first (object_size 0 1)) 0 (2 ∷ 7 ∷ []) one_struct).1

send_params-room : (call_send {P = ℕ} (some 5)).args_size ≡ some (object_size 0 1)
unfolding call_send
send_params-room = refl

message-placed :
    SendParams.set_msg wire (first (object_size 0 1)) (2 ∷ 7 ∷ []) one_struct ≡ (none, with_message)
unfolding SendParams.set_msg
message-placed = refl

-- The node 1 sends the greeting to a node that etcd refuses it at.
abbrev refusing_step : Env
refusing_step = record healthy { step = λ t msg. some (external 4) }

sent_message_steps_example :
    ((rpc_send healthy (client 2) greeting node_one).1.trace
      ≡ Act.send_msg (client 2) (2 ∷ 7 ∷ []) ∷ [])
    × ((handle_send refusing_step none
          (SendParams.msg wire (first (object_size 0 1)) with_message)
          node_one).0
        ≡ done (reply_error (external 4)))
    × ((handle_send refusing_step none
          (SendParams.msg wire (first (object_size 0 1)) with_message)
          node_one).1.trace
        ≡ Act.step greeting ∷ [])
sent_message_steps_example =
    sent_message_steps wire wire-IsCapnp healthy refusing_step 5 (client 2) greeting (2 ∷ 7 ∷ [])
      node_one node_one (first (object_size 0 1)) one_struct with_message refl send_params-room
      message-placed refl refl refl
