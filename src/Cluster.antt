-- ===== src/Cluster.antt =====
-- raft/node.go: how a node finds its peers (`retrieve`, `retrieveWithTimeout`, `register`,
-- `unregister`), and what a committed membership change does (`addNode`, `removeNode`).
pub mod Frames
pub mod Retries
pub mod Join
pub mod Peers
pub mod Finds
use raft_capnp.Prelude.{ℕ, zero, suc, ⊤, if◌then◌else◌}
use raft_capnp.Prelude.Eq.{◌==◌, nat_eq}
use raft_capnp.Data.{timed_out, ctx_error, is_ctx_error, Raft, null, ConfChange}
use raft_capnp.Effect.{
  Act, Env, Action, Race, replied, timeout, ctx_done, Result, ok, err, pure, raise, lift, gets,
  call, emit, try, check, take_ref, drop_ref, ◌>>=◌, ◌>>◌,
}
use raft_capnp.View.{add_peer, pop_peer}

-- `RetrievalRetries`
abbrev pub retrieval_retries : ℕ
retrieval_retries = 3

-- What the `select` of `retrieveWithTimeout` received. The goroutine `retrieve` takes a reference
-- before it replies, and the return takes one more.
unfoldable pub race_result : Race → Action Raft
race_result (replied (ok node)) = do sent ← take_ref node; take_ref sent
race_result (replied (err e)) = raise e
race_result timeout = raise timed_out
race_result (ctx_done c) = raise (ctx_error c)

unfoldable pub unregister : ℕ → Action ⊤
unregister id = do
  self ← gets (λ n. n.id)
  if self == id then pure tt else do peer ← pop_peer id; drop_ref peer

module _ (env : Env) where
  unfoldable pub retrieve_with_timeout : ℕ → Action Raft
  retrieve_with_timeout id = do race_result (← call (Act.retrieve id) (λ t. env.retrieval t id))

  -- `break` on success, and on the context's own error; else the next round.
  unfoldable pub after_attempt :
      (Result Raft → Action (Result Raft)) → Result Raft → Action (Result Raft)
  after_attempt next_round (ok node) = pure (ok node)
  after_attempt next_round (err e) = do
    ended ← call Act.ctx_err env.ctx_err
    if is_ctx_error e ended then pure (err e) else next_round (err e)

  -- The loop of `register` with the rounds that are left and the last result.
  unfoldable pub retrieve_loop : ℕ → ℕ → Result Raft → Action (Result Raft)
  retrieve_loop zero id last = pure last
  retrieve_loop (suc rounds) id last = do
    res ← try (retrieve_with_timeout id)
    after_attempt (retrieve_loop rounds id) res

  unfoldable pub register : ℕ → Action ⊤
  register id = do
    -- before the first round `node` is the null client and `err` is nil
    node ← lift (← retrieve_loop retrieval_retries id (ok null))
    shared ← take_ref node
    add_peer env shared

  unfoldable pub apply_add_node : ConfChange → Action ⊤
  apply_add_node cc = register cc.node_id

  -- `n.Raft.Status().Lead`
  abbrev lead : Action ℕ
  lead = call Act.status env.lead

  -- The two tests of `removeNode`. `&&` reads the status only if the first operand holds.
  unfoldable pub campaign_if_lead : ConfChange → Action ⊤
  campaign_if_lead cc = do
    leader ← lead
    if cc.node_id == leader then (do check (← call Act.campaign env.campaign)) else pure tt

  unfoldable pub step_down : ConfChange → Action ⊤
  step_down cc = do
    self ← gets (λ n. n.id)
    if self == cc.node_id
        then (lead >>= λ leader. if self == leader then emit Act.stop_raft else campaign_if_lead cc)
        else campaign_if_lead cc

  -- The deferred `unregister` runs after either return.
  unfoldable pub apply_remove_node : ConfChange → Action ⊤
  apply_remove_node cc = do res ← try (step_down cc); unregister cc.node_id; lift res
