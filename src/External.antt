-- ===== src/External.antt =====
-- raft/external.go: the functions that stand for those of the user where he has none.
pub mod Failing
use raft_capnp.Prelude.{ℕ, Option, none, List}
use raft_capnp.Data.{Bytes, Error, unimplemented, Raft, Item, Entry}
use raft_capnp.Effect.{Result, err}

-- `NilRaftStore`
unfoldable pub nil_raft_store : Bytes → List Entry → Bytes → Option Error
nil_raft_store hard_state entries snapshot = none

-- `NilRaftNodeRetrieval`
unfoldable pub nil_raft_node_retrieval : ℕ → Result Raft
nil_raft_node_retrieval id = err unimplemented

-- `NilOnNewValue`
unfoldable pub nil_on_new_value : Item → Option Error
nil_on_new_value item = none
