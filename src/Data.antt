-- ===== src/Data.antt =====
-- The values that the parts of the program exchange. Those of etcd's raft (raftpb.Message, Entry,
-- ConfChange, HardState, Snapshot, raft.Ready) keep the fields that raft/node.go and raft/capnp.go
-- read; what they only pass on is an opaque byte string.
use raft_capnp.Prelude.{ℕ, Option, some, List, Bool, true, false}

abbrev pub Bytes : Type 0
Bytes = List ℕ

-- The two errors that a Go context reports.
pub data CtxErr : Type 0 where
  canceled deadline_exceeded : CtxErr

-- The errors that the source builds itself, and those that it passes on.
pub data Error : Type 0 where
  snapshot_unimplemented : Error
  bad_entry_type : Error
  bad_conf_change_type : Error
  timed_out : Error
  unimplemented : Error
  invalid_capability : Error
  cast_failed : Error
  node_not_found : Error
  manually_stopped : Error
  ctx_error : CtxErr → Error
  external : ℕ → Error

-- Go's `err == ctx.Err()`, for an `err` that is not nil.
abbrev pub is_ctx_error : Error → Option CtxErr → Bool
is_ctx_error (ctx_error canceled) (some canceled) = true
is_ctx_error (ctx_error deadline_exceeded) (some deadline_exceeded) = true
is_ctx_error _ _ = false

-- `api.Raft`: the null client `api.Raft{}`, or a reference to a capability.
pub data Raft : Type 0 where
  null : Raft
  client : ℕ → Raft

pub record Item : Type 0 where
  pub key : Bytes
  pub value : Bytes

-- `raftpb.Message`, of which the source reads only the recipient.
pub record Message : Type 0 where
  pub to : ℕ
  pub rest : Bytes

pub data EntryType : Type 0 where
  entry_normal entry_conf_change entry_conf_change_v2 : EntryType
  entry_other : ℕ → EntryType

-- `none` is a nil `Data`.
pub record Entry : Type 0 where
  pub type : EntryType
  pub payload : Option Bytes

pub data ConfChangeType : Type 0 where
  add_node remove_node update_node add_learner_node : ConfChangeType
  conf_other : ℕ → ConfChangeType

pub record ConfChange : Type 0 where
  pub id : ℕ
  pub type : ConfChangeType
  pub node_id : ℕ

pub record Ready : Type 0 where
  pub hard_state : Bytes
  pub entries : List Entry
  pub snapshot : Bytes
  pub messages : List Message
  pub committed_entries : List Entry
