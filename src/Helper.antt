-- ===== src/Helper.antt =====
-- raft/helper.go: the two calls of a capability that the node makes.
use raft_capnp.Prelude.{ℕ, ⊤}
use raft_capnp.Data.{Raft, Message}
use raft_capnp.Effect.{Act, Env, Action, lift, call, check, ◌>>=◌}

module _ (env : Env) where
  -- `rpcGetId`; the future that it releases is not a reference of the capability.
  unfoldable pub rpc_get_id : Raft → Action ℕ
  rpc_get_id n = do lift (← call (Act.get_id n) (λ t. env.get_id t n))

  -- `rpcSend`
  unfoldable pub rpc_send : Raft → Message → Action ⊤
  rpc_send n msg = do
    encoded ← lift (env.marshal_message msg)
    check (← call (Act.send_msg n encoded) (λ t. env.send t n encoded))
