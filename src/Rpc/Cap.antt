-- ===== src/Rpc/Cap.antt =====
-- raft/node.go: `Cap`, over what the generated code makes of the handlers of a node.
use raft_capnp.Prelude.{Option, List}
use raft_capnp.Data.{Raft}
use raft_capnp.Effect.{Action, take_ref}
use raft_capnp.Api.{Method, Server, raft_server_to_client}

module _ {H Shutdown Made : Type 0} (shutdowner : Server H → Option Shutdown)
    (make : List (Method × H) → Server H → Option Shutdown → Made) (new_client : Made → Raft) where
  -- `api.Raft_ServerToClient(n).AddRef()`
  unfoldable cap : Server H → Action Raft
  cap s = take_ref (raft_server_to_client shutdowner make new_client s)
