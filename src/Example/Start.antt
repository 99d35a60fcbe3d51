-- ===== src/Example/Start.antt =====
-- example/main.go: the nodes of the example, from `New` to the loop.
use raft_capnp.Prelude.{refl, ◌≡◌, some, [], ◌∷◌, false}
use raft_capnp.Effect.{Node}
use raft_capnp.View.{new_view}
use raft_capnp.Config.{
  RaftConfig, Setup, new, with_raft_config, with_raft_store, with_storage, with_on_new_value,
  with_raft_node_retrieval, with_logger, late_config, init, running,
}
use raft_capnp.Defaults.{default_config}
use raft_capnp.Example.{Handles, build}

-- The configuration that etcd is started with.
abbrev final_config : Handles → RaftConfig
final_config h = record {
  id = h.drawn;
  heartbeat_tick = 1;
  election_tick = 3;
  max_size_per_msg = 32767;
  max_inflight_msgs = 256;
  storage = some h.storage;
  logger = some h.logger;
}

-- The node when its loop begins.
abbrev first_node : Handles → Node
first_node h = record {
  id = h.drawn;
  peers = [];
  items = [];
  paused = false;
  locked = false;
  queue_cap = 0;
  queue = [];
  trace = [];
}

-- Each node of the example starts etcd with the default configuration under the identifier that was
-- drawn, the storage and the logger that it was given last, and itself as the only peer. Its loop
-- begins with no peers and no items, and with the functions that it was given; the second `Init`,
-- that of `Start`, changes nothing.
example_starts :
    (h : Handles)
    → (n : Setup) × (init (build h) ≡ some n)
      × (init n ≡ some n)
      × (n.raft ≡ some (record { config = final_config h; peer_list = h.drawn ∷ [] }))
      × (running n ≡ some (first_node h))
      × (n.store ≡ some h.raft_store)
      × (n.retrieval ≡ some h.node_retrieval)
      × (n.on_new_value ≡ some h.on_new_value)
unfolding build default_config new new_view with_raft_config with_raft_store with_storage
    with_on_new_value with_raft_node_retrieval with_logger late_config init running
example_starts h = (_, refl, refl, refl, refl, refl, refl, refl)
