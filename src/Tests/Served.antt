-- ===== src/Tests/Served.antt =====
-- Runs of the served methods.
use raft_capnp.Prelude.{length, ◌<◌, set, refl, ◌≡◌, ◌++◌, ℕ, none, some, List, [], ◌∷◌, arith}
use raft_capnp.Prelude.Eq.{bytes_eq}
use raft_capnp.Data.{external, Item, Ready}
use raft_capnp.Effect.{Result, ◌>>=◌, take_ref, ok, err, done}
use raft_capnp.Effect.Frames.{select}
use raft_capnp.Helper.{rpc_send}
use raft_capnp.View.{copy_peers, view_peers}
use raft_capnp.Item
use raft_capnp.Item.{digest, put, get}
use raft_capnp.Item.Convert.{Buffers, load, item_from_api, value_shares_buffer}
use raft_capnp.Item.Laws.{put_all, get-put_all}
use raft_capnp.Apply.{
  report, notify, add_bytes, add_entry, apply_entry_as, apply_entries, send_to, send_message,
  send_each, send_messages, after_store, do_ready,
}
use raft_capnp.Rpc.{Reply, no_results, put_item, handle_put}
use raft_capnp.Rpc.Replies.{first_failure, told_failure, proposals_of_put, handle_put-replies}
use raft_capnp.Rpc.Proposals.{proposed_bytes, put_commit_get}
use raft_capnp.Api.{Method, Server, raft_methods}
use raft_capnp.Api.Table.{stub, serving, Foreign, stub_served}
use raft_capnp.Tests.{
  one_byte, one_byte-All, healthy, encode-decodes, node_one, apple, put_entry, busy_round,
}

-- An item that cannot be read: the caller's results carry no error.
unreadable_item :
    (handle_put healthy none none (err (external 9)) node_one).0
    ≡ done (no_results, some (external 9))
unfolding handle_put ◌>>=◌
unreadable_item = refl

abbrev not_read : Result Item
not_read = err (external 9)

handle_put-replies_example :
    (reply : Reply) × ((handle_put healthy none none not_read node_one).0 ≡ done reply)
    × (reply.1 ≡ first_failure healthy node_one.trace none not_read)
    × (reply.0.error ≡ told_failure healthy node_one.trace none not_read)
    × (reply.0.nodes ≡ none)
    × ((handle_put healthy none none not_read node_one).1
        ≡ record node_one { trace = proposals_of_put healthy none not_read ++ node_one.trace })
handle_put-replies_example = handle_put-replies healthy none not_read node_one

abbrev pear : Item
pear = record { key = 11 ∷ []; value = 30 ∷ [] }

-- A round that commits the apple and then the pear.
abbrev fruit_round : Ready
fruit_round = record busy_round { committed_entries = put_entry apple ∷ put_entry pear ∷ [] }

fruit_round-done : (do_ready healthy fruit_round node_one).0 ≡ done tt
unfolding take_ref rpc_send copy_peers view_peers report notify add_bytes add_entry apply_entry_as
    apply_entries send_to send_message send_each send_messages after_store do_ready ◌>>=◌
fruit_round-done = refl

put_commit_get_example :
    (select proposed_bytes (put_item healthy pear node_one).1.trace ≡ (12 ∷ 0 ∷ 30 ∷ []) ∷ [])
    × (Item.get one_byte (11 ∷ []) (do_ready healthy fruit_round node_one).1.items ≡ some pear)
put_commit_get_example =
    put_commit_get healthy pear (12 ∷ 0 ∷ 30 ∷ []) (put_entry apple ∷ []) fruit_round node_one
      node_one refl encode-decodes one_byte-All refl fruit_round-done

-- The keys 10 and 4, 6 have the same hash, so that the second item takes the place of the first.
abbrev twin : Item
twin = record { key = 4 ∷ 6 ∷ []; value = [] }

get-put_all_example :
    get one_byte (10 ∷ []) (put_all one_byte (apple ∷ twin ∷ pear ∷ []) []) ≡ some twin
get-put_all_example = get-put_all one_byte (apple ∷ twin ∷ pear ∷ []) (10 ∷ []) [] one_byte-All

abbrev numbered : Server ℕ
numbered = record {
  on_add = 0;
  on_remove = 1;
  on_send = 2;
  on_put = 3;
  on_items = 4;
  on_members = 5;
  on_id = 6;
}

-- A method of another interface that has the number of `send`.
abbrev other : List (Method × ℕ)
other = (record { interface_id = 5; method_id = 2 }, 77) ∷ []

other-Foreign : Foreign other
other-Foreign = (omega arith, tt)

stub_served_example :
    serving (stub {P = ℕ} raft_capnp.Api.send (some 8)).method (raft_methods other numbered)
    ≡ 2 ∷ []
stub_served_example = stub_served other numbered raft_capnp.Api.send (some 8) other-Foreign

-- The buffers of a message, with the key in the first and the value in the second.
abbrev buffers : Buffers
buffers = (10 ∷ []) ∷ (20 ∷ 21 ∷ []) ∷ []

first_buffer : 0 < length buffers
first_buffer = omega arith

second_buffer : 1 < length buffers
second_buffer = omega arith

value_shares_buffer_example :
    (key value : ℕ) × ((item_from_api (ok 0) (ok 1) buffers).0.0.key_slice ≡ some key)
    × ((item_from_api (ok 0) (ok 1) buffers).0.0.value_slice ≡ some value)
    × (load (set (item_from_api (ok 0) (ok 1) buffers).1 1 (9 ∷ 9 ∷ [])) key ≡ 10 ∷ [])
    × (load (set (item_from_api (ok 0) (ok 1) buffers).1 1 (9 ∷ 9 ∷ [])) value ≡ 9 ∷ 9 ∷ [])
value_shares_buffer_example =
    value_shares_buffer 0 1 buffers (9 ∷ 9 ∷ []) first_buffer second_buffer
