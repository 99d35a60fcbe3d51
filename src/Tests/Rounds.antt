-- ===== src/Tests/Rounds.antt =====
-- Runs of `doReady`.
use raft_capnp.Prelude.{refl, ◌≡◌, [], ◌∷◌, true}
use raft_capnp.Data.{client}
use raft_capnp.Effect.{◌>>=◌, take_ref, drop_ref, done}
use raft_capnp.Effect.Frames.{select, OnlyTrace}
use raft_capnp.Effect.Logs.{logged}
use raft_capnp.Helper.{rpc_get_id, rpc_send}
use raft_capnp.View.{copy_peers, view_peers, add_peer, pop_peer}
use raft_capnp.Cluster.{
  race_result, unregister, retrieve_with_timeout, after_attempt, retrieve_loop, register,
  apply_add_node, campaign_if_lead, step_down, apply_remove_node,
}
use raft_capnp.Item.{digest, put}
use raft_capnp.Apply.{
  report, notify, add_bytes, add_entry, change_members, conf_change_bytes, add_conf_change,
  apply_entry_as, apply_entries, send_to, send_message, send_each, send_messages, after_store,
  do_ready,
}
use raft_capnp.Apply.Entries.{replay}
use raft_capnp.Apply.Order.{advances, do_ready-advances}
use raft_capnp.Apply.Machine.{do_ready_items}
use raft_capnp.View.Abstract.{peers_of, learn, forget}
use raft_capnp.Prelude.Eq.{nat_eq}
use raft_capnp.Apply.Membership.Rounds.{members_from_round}
use raft_capnp.Apply.Members.{applied, apply_entries_changes}
use raft_capnp.Apply.Sends.{delivered, all_due, send_messages_delivers}
use raft_capnp.Tests.{healthy-Reachable, healthy, node_one, change, busy_round}

busy_round-done : (do_ready healthy busy_round node_one).0 ≡ done tt
unfolding take_ref drop_ref rpc_get_id rpc_send copy_peers view_peers add_peer pop_peer race_result
    unregister retrieve_with_timeout after_attempt retrieve_loop register apply_add_node
    campaign_if_lead step_down apply_remove_node report notify add_bytes add_entry change_members
    conf_change_bytes add_conf_change apply_entry_as apply_entries send_to send_message send_each
    send_messages after_store do_ready digest put ◌>>=◌
busy_round-done = refl

-- The items after the round, at either node, are those of the apple.
do_ready_items_example :
    (healthy.is_empty_snap busy_round.snapshot ≡ true)
    × ((do_ready healthy busy_round node_one).1.items
        ≡ replay healthy.unmarshal_item healthy.md5 busy_round.committed_entries [])
do_ready_items_example = do_ready_items healthy busy_round node_one busy_round-done

do_ready-advances_example :
    select advances (do_ready healthy busy_round node_one).1.trace
    ≡ logged (do_ready healthy busy_round node_one).0 tt []
do_ready-advances_example = do_ready-advances healthy busy_round node_one

entries-done : (apply_entries healthy busy_round.committed_entries node_one).0 ≡ done tt
unfolding take_ref drop_ref rpc_get_id pop_peer add_peer race_result unregister
    retrieve_with_timeout after_attempt retrieve_loop register apply_add_node campaign_if_lead
    step_down apply_remove_node notify add_bytes add_entry change_members conf_change_bytes
    add_conf_change apply_entry_as apply_entries digest put ◌>>=◌
entries-done = refl

apply_entries_changes_example :
    select applied (apply_entries healthy busy_round.committed_entries node_one).1.trace
    ≡ change 0 4 ∷ change 1 3 ∷ []
apply_entries_changes_example =
    apply_entries_changes healthy busy_round.committed_entries node_one entries-done

send_messages_delivers_example :
    ((send_messages healthy busy_round.messages node_one).0 ≡ done tt)
    × (select delivered (send_messages healthy busy_round.messages node_one).1.trace
        ≡ all_due healthy 1 node_one.peers busy_round.messages [])
    × OnlyTrace node_one (send_messages healthy busy_round.messages node_one).1
send_messages_delivers_example = send_messages_delivers healthy busy_round.messages node_one

-- Node 3 is removed, and node 4 is added.
members_from_round_example :
    peers_of (do_ready healthy busy_round node_one).1
    ≡ learn 4 (client 4) (forget 3 (peers_of node_one))
members_from_round_example =
    members_from_round healthy (λ id. id) busy_round node_one healthy-Reachable busy_round-done
