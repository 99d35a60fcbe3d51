-- ===== src/Tests/Nodes.antt =====
-- Runs of nodes that are built, started, and looped.
use raft_capnp.Prelude.{◌⊎◌, List, refl, ◌≡◌, ◌≢◌, ◌++◌, none, some, [], ◌∷◌, true, false}
use raft_capnp.Data.{Entry, Ready, canceled, ctx_error}
use raft_capnp.Effect.{ok, Node, blocked}
use raft_capnp.View.{new_view}
use raft_capnp.Rpc.{send}
use raft_capnp.Config.{
  RaftConfig, Setup, new, with_id, with_raft_config, with_storage, late_config, init, running,
}
use raft_capnp.Config.Laws.{
  Built, fresh, id_set, storage_set, config_set, started, unbuffered_node_deadlocks,
}
use raft_capnp.Apply.Entries.{replay}
use raft_capnp.Pause.Frames.{SameData}
use raft_capnp.Rpc.Calls.{Call, calling_send, calling_put, serve, serve-SameData}
use raft_capnp.Prelude.Eq.{nat_eq}
use raft_capnp.Loop.Unbuffered.{queue_stays_empty}
use raft_capnp.Loop.Logs.{Ahead}
use raft_capnp.Loop.Replicas.{replicas_in_runs}
use raft_capnp.Loop.History.{Applied, items_from_rounds}
use raft_capnp.Loop.{Loop, ready, ctx_over, ticked, start, round}
use raft_capnp.Loop.Reach.{IsLive, go_round, serve_call, Reach, here, next, tick_rounds, Step}
use raft_capnp.Loop.End.{ended, end_loop, error_can_stop, late_stop_panics}
use raft_capnp.View.Abstract.{peers_of}
use raft_capnp.Apply.Membership.{replay_members}
use raft_capnp.Loop.Membership.{members_from_rounds}
use raft_capnp.Tests.{
  healthy-Reachable, healthy, node_one, apple, busy_round, put_entry, change_entry,
}

abbrev pub config : RaftConfig
config = record {
  id = 0;
  heartbeat_tick = 1;
  election_tick = 3;
  max_size_per_msg = 32767;
  max_inflight_msgs = 256;
  storage = none;
  logger = none;
}

-- `New` with the storage 7, the configuration, and the identifier 5.
abbrev pub configured : Setup
configured = record (new 1) { storage = some 7; config = some (record config { id = 5 }) }

-- The same node after `Init`.
abbrev pub initialized : Setup
initialized =
    let late = record config { id = 5; storage = some 7; logger = some 1 } in
    record configured {
      init = true;
      config = some late;
      raft = some (record { config = late; peer_list = 5 ∷ [] });
    }

pub configured-Built : Built configured
unfolding new with_storage with_raft_config with_id
configured-Built = id_set 5 (config_set config (storage_set 7 (fresh 1))) refl

pub init-configured : init configured ≡ some initialized
unfolding new late_config init
init-configured = refl

abbrev pub five : Node
five = record node_one { id = 5; peers = []; queue_cap = 0 }

pub running-initialized : running initialized ≡ some five
unfolding new new_view running
running-initialized = refl

unbuffered_node_deadlocks_example :
    send healthy (1 ∷ 9 ∷ []) (record five { paused = true })
    ≡ (blocked, record five { paused = true; locked = true })
unbuffered_node_deadlocks_example =
    unbuffered_node_deadlocks healthy initialized five (1 ∷ 9 ∷ [])
      (record { to = 1; rest = 9 ∷ [] }) (started configured-Built init-configured)
      running-initialized refl

-- The node ticks, and a message arrives.
abbrev ticking_five : Loop
ticking_five =
    let l = round healthy ticked (start five) in
    record l { node = serve healthy (calling_send none (ok (1 ∷ 9 ∷ []))) l.node }

five_run : Reach healthy (start five) ticking_five
unfolding start
five_run =
    next (next here (go_round ticked (refl, refl)))
      (serve_call (calling_send none (ok (1 ∷ 9 ∷ []))))

queue_stays_empty_example : (ticking_five.node.queue_cap ≡ 0) × (ticking_five.node.queue ≡ [])
queue_stays_empty_example =
    queue_stays_empty healthy initialized five ticking_five
      (started configured-Built init-configured) running-initialized five_run

-- A tick, and then the end of the context.
abbrev canceled_loop : Loop
canceled_loop = round healthy (ctx_over canceled) (round healthy ticked (start node_one))

canceled_run : Reach healthy (start node_one) canceled_loop
unfolding start round
canceled_run =
    next (next here (go_round ticked (refl, refl))) (go_round (ctx_over canceled) (refl, refl))

canceled-IsLive : IsLive canceled_loop
unfolding start round
canceled-IsLive = (refl, refl)

canceled-err : canceled_loop.err ≡ some (ctx_error canceled)
unfolding start round
canceled-err = refl

canceled-pending : canceled_loop.err ≢ none
unfolding start round
canceled-pending = λ h. cc h

error_can_stop_example : (m : Loop) × Step healthy canceled_loop m × (m.stopped ≢ none)
error_can_stop_example =
    error_can_stop healthy node_one canceled_loop canceled_run canceled-IsLive canceled-pending

-- One tick after the error, two senders wait.
canceled-waiting :
    (tick_rounds healthy 1 canceled_loop).senders
    ≡ [] ++ ctx_error canceled ∷ ctx_error canceled ∷ []
unfolding start round
canceled-waiting = refl

late_stop_panics_example : end_loop false (ctx_error canceled) (ctx_error canceled ∷ []) ≢ ended
late_stop_panics_example =
    late_stop_panics healthy false 0 node_one canceled_loop (ctx_error canceled)
      (ctx_error canceled) [] (ctx_error canceled ∷ []) canceled_run canceled-IsLive canceled-err
      canceled-waiting

-- A round, a served Put, and a tick.
abbrev put_apple : Call
put_apple = calling_put none none (ok apple)

abbrev after_round : Loop
after_round = round healthy (ready busy_round) (start node_one)

abbrev after_put : Loop
after_put = record after_round { node = serve healthy put_apple after_round.node }

start-IsLive : IsLive (start node_one)
unfolding start
start-IsLive = (refl, refl)

busy_run : Reach healthy (start node_one) after_put
busy_run = next (next here (go_round (ready busy_round) start-IsLive)) (serve_call put_apple)

items_from_rounds_example :
    (log : List Entry) × Applied log (busy_round ∷ [])
    × (after_put.node.items
        ≡ replay healthy.unmarshal_item healthy.md5 log (start node_one).node.items)
unfolding busy_run
items_from_rounds_example = items_from_rounds healthy busy_run

serve-SameData_example : SameData node_one (serve healthy put_apple node_one)
serve-SameData_example = serve-SameData healthy put_apple node_one

members_from_rounds_example :
    (after_put.node.id ≡ 1)
    × (log : List Entry) × Applied log (busy_round ∷ [])
    × (peers_of after_put.node
        ≡ replay_members healthy.unmarshal_conf_change (λ id. id) 1 log (peers_of node_one))
unfolding busy_run start
members_from_rounds_example = members_from_rounds healthy (λ id. id) healthy-Reachable busy_run

-- The node 2 gets the first entry of the same log, in a round of its own.
abbrev node_two : Node
node_two = record node_one { id = 2; peers = [] }

abbrev apple_round : Ready
apple_round = record busy_round { committed_entries = put_entry apple ∷ [] }

abbrev behind : Loop
behind = round healthy (ready apple_round) (start node_two)

behind_run : Reach healthy (start node_two) behind
unfolding start
behind_run = next here (go_round (ready apple_round) (refl, refl))

replicas_in_runs_example :
    Ahead
      (replay healthy.unmarshal_item healthy.md5)
      busy_round.committed_entries
      []
      after_put.node.items
      behind.node.items
    ⊎ Ahead
        (replay healthy.unmarshal_item healthy.md5)
        busy_round.committed_entries
        []
        behind.node.items
        after_put.node.items
unfolding busy_run behind_run start
replicas_in_runs_example =
    replicas_in_runs healthy healthy busy_run behind_run busy_round.committed_entries []
      (change_entry 1 3 ∷ change_entry 0 4 ∷ []) refl refl refl tt tt refl refl
