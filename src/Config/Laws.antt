-- ===== src/Config/Laws.antt =====
-- Building and starting a node.
use raft_capnp.Prelude.{refl, ◌≡◌, ◌∙◌, ℕ, none, some, [], ◌∷◌, true, false, arith}
use raft_capnp.Data.{Bytes, Message}
use raft_capnp.Effect.{Env, Node, ok, blocked}
use raft_capnp.Pause.Deadlock.{paused_send_deadlocks}
use raft_capnp.Rpc.{send}
use raft_capnp.Config.{
  RaftConfig, Setup, new, with_id, with_on_new_value, with_raft_node_retrieval, with_raft_store,
  with_storage, with_raft_config, with_logger, late_config, init, running,
}

-- `Init` of a node with a configuration starts etcd once, with that configuration, the node's
-- storage and logger, and the node itself as the only peer; the identifier stays the same.
pub init_starts :
    (n : Setup) (c : RaftConfig)
    → n.init ≡ false
    → n.config ≡ some c
    → init n
      ≡ some (record n {
        init = true;
        config = some (record c { storage = n.storage; logger = some n.logger });
        raft = some (record {
          config = record c { storage = n.storage; logger = some n.logger };
          peer_list = c.id ∷ [];
        });
      })
unfolding init late_config
init_starts n c fresh config = rw (fresh, config)

-- A second `Init` changes nothing: in particular it does not start etcd again, or with options
-- that were set in between.
init_once : (n n' : Setup) → init n ≡ some n' → init n' ≡ some n'
unfolding init late_config
init_once n n' h = ground arith

-- The nodes that a program can build: `New`, then options and `Init` in any order.
pub data Built : Setup → Type 0 where
  fresh : (l : ℕ) → Built (new l)
  id_set : {n m : Setup} (id : ℕ) → Built n → with_id id n ≡ some m → Built m
  on_new_value_set : {n : Setup} (f : ℕ) → Built n → Built (with_on_new_value f n)
  retrieval_set : {n : Setup} (f : ℕ) → Built n → Built (with_raft_node_retrieval f n)
  store_set : {n : Setup} (f : ℕ) → Built n → Built (with_raft_store f n)
  storage_set : {n : Setup} (x : ℕ) → Built n → Built (with_storage x n)
  config_set : {n : Setup} (c : RaftConfig) → Built n → Built (with_raft_config c n)
  logger_set : {n : Setup} (l : ℕ) → Built n → Built (with_logger l n)
  started : {n m : Setup} → Built n → init n ≡ some m → Built m

-- A node with an unbuffered queue, which is not paused, and on which etcd runs only after `Init`.
pub record IsIdle (n : Setup) : Type 0 where
  pub no_buffer : n.queue_cap ≡ 0
  pub not_paused : n.paused ≡ false
  pub not_started : n.init ≡ false → n.raft ≡ none

with_id-IsIdle : (id : ℕ) (n m : Setup) → with_id id n ≡ some m → IsIdle n → IsIdle m
unfolding with_id
with_id-IsIdle id n m e h = ground arith

init-IsIdle : (n m : Setup) → init n ≡ some m → IsIdle n → IsIdle m
unfolding init late_config
init-IsIdle n m e h = ground arith

-- Every node that can be built has a queue without a buffer, is not paused, and has no etcd
-- running unless `Init` has been called.
Built-IsIdle : {n : Setup} → Built n → IsIdle n
unfolding new with_on_new_value with_raft_node_retrieval with_raft_store with_storage
    with_raft_config with_logger
Built-IsIdle (fresh l) = ground arith
Built-IsIdle (id_set {n = n} {m = m} id b e) = with_id-IsIdle id n m e (Built-IsIdle b)
Built-IsIdle (on_new_value_set f b) = let h = Built-IsIdle b in ground arith
Built-IsIdle (retrieval_set f b) = let h = Built-IsIdle b in ground arith
Built-IsIdle (store_set f b) = let h = Built-IsIdle b in ground arith
Built-IsIdle (storage_set x b) = let h = Built-IsIdle b in ground arith
Built-IsIdle (config_set c b) = let h = Built-IsIdle b in ground arith
Built-IsIdle (logger_set l b) = let h = Built-IsIdle b in ground arith
Built-IsIdle (started {n = n} {m = m} b e) = init-IsIdle n m e (Built-IsIdle b)

queue_of_running :
    (n : Setup) (k : Node)
    → running n ≡ some k
    → (k.queue_cap ≡ n.queue_cap) × (k.locked ≡ false) × (k.queue ≡ [])
unfolding running
queue_of_running n k e = ground arith

-- However a node was built, once it runs its queue has no buffer and its pause lock is free.
pub unbuffered_running :
    (n : Setup) (k : Node)
    → Built n
    → running n ≡ some k
    → (k.queue_cap ≡ 0) × (k.queue ≡ []) × (k.locked ≡ false)
unbuffered_running n k b e =
    let (cap, free, empty) = queue_of_running n k e in
    (cap ∙ (Built-IsIdle b).no_buffer, empty, free)

-- However a node was built, once it runs and is paused the first decodable message that it is sent
-- never returns, and holds the pause lock.
pub unbuffered_node_deadlocks :
    (env : Env) (n : Setup) (k : Node) (encoded : Bytes) (msg : Message)
    → Built n
    → running n ≡ some k
    → env.unmarshal_message encoded ≡ ok msg
    → send env encoded (record k { paused = true })
      ≡ (blocked, record k { paused = true; locked = true })
unbuffered_node_deadlocks env n k encoded msg b e decoded =
    let (cap, free, empty) = queue_of_running n k e in
    let idle = Built-IsIdle b in
    (paused_send_deadlocks env (record k { paused = true }) encoded encoded msg msg true [] free
      refl (omega (arith, cap, idle.no_buffer)) decoded decoded).0
