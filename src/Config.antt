-- ===== src/Config.antt =====
-- raft/config.go, and the life of a node before its loop in raft/node.go: `New`, `lateConfig` and
-- `Init`. Objects that are only passed on (loggers, storages, functions of the user) are handles.
-- `none` as a result is a nil pointer that is dereferenced, which panics.
pub mod Laws
pub mod Race
use raft_capnp.Prelude.{ℕ, Option, none, some, List, [], ◌∷◌, Bool, true, false, if◌then◌else◌}
use raft_capnp.Prelude.Assoc.{Assoc}
use raft_capnp.Data.{Bytes, Raft, Item, Message}
use raft_capnp.Effect.{Node}
use raft_capnp.View.{new_view}

-- The fields of `raft.Config` that the source sets. A nil storage or logger is `none`.
pub record RaftConfig : Type 0 where
  pub id : ℕ
  pub heartbeat_tick : ℕ
  pub election_tick : ℕ
  pub max_size_per_msg : ℕ
  pub max_inflight_msgs : ℕ
  pub storage : Option ℕ
  pub logger : Option ℕ

-- What `raft.StartNode` was called with: the configuration as it was then, and the peers.
pub record Started : Type 0 where
  pub config : RaftConfig
  pub peer_list : List ℕ

-- `Node` as the options fill it. `config` is the pointer's target; nodes that share one
-- configuration are not modelled.
pub record Setup : Type 0 where
  pub view : Assoc ℕ Raft
  pub items : Assoc Bytes Item
  pub queue_cap : ℕ
  pub logger : ℕ
  pub raft : Option Started
  pub storage : Option ℕ
  pub config : Option RaftConfig
  pub on_new_value : Option ℕ
  pub retrieval : Option ℕ
  pub store : Option ℕ
  pub paused : Bool
  pub init : Bool

-- `New`, with the default logger. `make(MessageQueue)` is a channel with no buffer.
unfoldable pub new : ℕ → Setup
new default_logger = record {
  view = new_view;
  items = [];
  queue_cap = 0;
  logger = default_logger;
  raft = none;
  storage = none;
  config = none;
  on_new_value = none;
  retrieval = none;
  store = none;
  paused = false;
  init = false;
}

-- `n.Config.ID = id`
abbrev set_id : ℕ → Option RaftConfig → Option RaftConfig
set_id id none = none
set_id id (some c) = some (record c { id = id })

abbrev put_config : Setup → Option RaftConfig → Option Setup
put_config n none = none
put_config n (some c) = some (record n { config = some c })

unfoldable pub with_id : ℕ → Setup → Option Setup
with_id id n = put_config n (set_id id n.config)

unfoldable pub with_on_new_value : ℕ → Setup → Setup
with_on_new_value f n = record n { on_new_value = some f }

unfoldable pub with_raft_node_retrieval : ℕ → Setup → Setup
with_raft_node_retrieval f n = record n { retrieval = some f }

unfoldable pub with_raft_store : ℕ → Setup → Setup
with_raft_store f n = record n { store = some f }

unfoldable pub with_storage : ℕ → Setup → Setup
with_storage s n = record n { storage = some s }

unfoldable pub with_raft_config : RaftConfig → Setup → Setup
with_raft_config c n = record n { config = some c }

unfoldable pub with_logger : ℕ → Setup → Setup
with_logger l n = record n { logger = l }

-- `lateConfig`. `n.ID` is the field of the configuration, so the first line stores what it reads.
abbrev late_fields : Setup → Option RaftConfig → Option RaftConfig
late_fields n none = none
late_fields n (some c) = some (record c { id = c.id; storage = n.storage; logger = some n.logger })

unfoldable pub late_config : Setup → Option Setup
late_config n = put_config n (late_fields n n.config)

-- `raft.StartNode(n.Config, peerList)` with the node itself as the only peer.
abbrev start_node : Setup → Option RaftConfig → Option Setup
start_node n none = none
start_node n (some c) =
    some (record n { raft = some (record { config = c; peer_list = c.id ∷ [] }) })

abbrev start_late : Option Setup → Option Setup
start_late none = none
start_late (some n) = start_node n n.config

unfoldable pub init : Setup → Option Setup
init n = if n.init then some n else start_late (late_config (record n { init = true }))

-- The node that the methods of raft/node.go and raft/capnp.go work on, once it has been started.
abbrev run_state : Setup → Option RaftConfig → Option Node
run_state n none = none
run_state n (some c) = some (record {
  id = c.id;
  peers = n.view;
  items = n.items;
  paused = n.paused;
  locked = false;
  queue_cap = n.queue_cap;
  queue = [];
  trace = [];
})

unfoldable pub running : Setup → Option Node
running n = run_state n n.config
