-- ===== src/Defaults.antt =====
-- raft/defaults.go and raft/consts.go: the configuration, the logger and the store that a node is
-- given where the user has none of his own. The memory storage is etcd's.
pub mod Store
use raft_capnp.Prelude.{ℕ, Option, none, some, List, Bool, true, false, not, if◌then◌else◌}
use raft_capnp.Data.{Bytes, Error, cast_failed, Entry}
use raft_capnp.Config.{RaftConfig}

abbrev pub heartbeat_tick : ℕ
heartbeat_tick = 1

abbrev pub election_tick : ℕ
election_tick = 3

-- `math.MaxInt16`
abbrev pub max_size_per_msg : ℕ
max_size_per_msg = 32767

abbrev pub max_inflight_msgs : ℕ
max_inflight_msgs = 256

-- `DefaultConfig`, with the number that `DefaultID` draws.
unfoldable pub default_config : ℕ → RaftConfig
default_config drawn = record {
  id = drawn;
  heartbeat_tick = heartbeat_tick;
  election_tick = election_tick;
  max_size_per_msg = max_size_per_msg;
  max_inflight_msgs = max_inflight_msgs;
  storage = none;
  logger = none;
}

-- Whether the one default logger prints debug messages, after `DefaultLogger`.
unfoldable pub default_logger : Bool → Bool → Bool
default_logger debug enabled = if debug then true else enabled

-- What `DefaultRaftStore` calls of `raft.MemoryStorage`, and the two tests of etcd.
pub record Memory (S : Type 0) : Type 0 where
  pub append : List Entry → S → Option Error × S
  pub set_hard_state : Bytes → S → Option Error × S
  pub apply_snapshot : Bytes → S → Option Error × S
  pub is_empty_hard_state : Bytes → Bool
  pub is_empty_snap : Bytes → Bool

-- `raft.Storage`, as far as the cast tells its values apart.
pub data Storage (S : Type 0) : Type 0 where
  memory : S → Storage S
  other : Storage S

module _ {S : Type 0} (mem : Memory S) where
  abbrev write_hard_state : Bytes → S → S
  write_hard_state hard_state s =
      if not (mem.is_empty_hard_state hard_state) then (mem.set_hard_state hard_state s).1 else s

  abbrev write_snapshot : Bytes → S → S
  write_snapshot snapshot s =
      if not (mem.is_empty_snap snapshot) then (mem.apply_snapshot snapshot s).1 else s

  -- `DefaultRaftStore`, which looks at no error of the three writes.
  unfoldable pub default_raft_store :
      Storage S → Bytes → List Entry → Bytes → Option Error × Storage S
  default_raft_store other hard_state entries snapshot = (some cast_failed, other)
  default_raft_store (memory s) hard_state entries snapshot = (
    none,
    memory (write_snapshot snapshot (write_hard_state hard_state (mem.append entries s).1)),
  )
