-- ===== src/Loop/Replicas.antt =====
-- Two nodes whose etcd commits one log: what their runs make of their items.
use raft_capnp.Prelude.{refl, ◌≡◌, List, ◌++◌, ◌⊎◌}
use raft_capnp.Data.{Entry}
use raft_capnp.Effect.{Env}
use raft_capnp.Apply.Entries.{replay}
use raft_capnp.Apply.Rounds.{replay-append}
use raft_capnp.Apply.Machine.{do_ready_prefix, do_ready_items}
use raft_capnp.Loop.{Loop}
use raft_capnp.Loop.Reach.{Reach}
use raft_capnp.Loop.Logs.{committed, Advanced, IsReplayed, Advanced-view, Ahead, one-Ahead}

items-IsReplayed : (env : Env) → IsReplayed env (λ n. n.items) (replay env.unmarshal_item env.md5)
items-IsReplayed env = record {
  replay_nil = λ m. refl;
  replay_append = replay-append env.unmarshal_item env.md5;
  same_view = λ n m same. same.data_items;
  all_applied = λ r n h. (do_ready_items env r n h).1;
  some_applied = do_ready_prefix env;
}

-- Two nodes that start with the same items, and decode and hash alike, get rounds whose committed
-- entries are the beginnings of one log, and get a round only after `Advance` of the one before.
-- Then at any time in their runs, whatever calls, pauses and stops there are in between and also
-- where the last round fails halfway, one of them holds the items of the start with a first part of
-- that log put into them, and the other holds those items with the part of the log put into them
-- that comes next.
pub replicas_in_runs :
    (env₁ env₂ : Env) {l₁ m₁ l₂ m₂ : Loop} (run₁ : Reach env₁ l₁ m₁) (run₂ : Reach env₂ l₂ m₂)
    (log rest₁ rest₂ : List Entry)
    → env₁.unmarshal_item ≡ env₂.unmarshal_item
    → env₁.md5 ≡ env₂.md5
    → l₁.node.items ≡ l₂.node.items
    → Advanced run₁
    → Advanced run₂
    → log ≡ committed run₁ ++ rest₁
    → log ≡ committed run₂ ++ rest₂
    → Ahead (replay env₂.unmarshal_item env₂.md5) log l₂.node.items m₁.node.items m₂.node.items
      ⊎ Ahead (replay env₂.unmarshal_item env₂.md5) log l₂.node.items m₂.node.items m₁.node.items
replicas_in_runs env₁ env₂ {l₁} {m₁} {l₂} {m₂} run₁ run₂ log rest₁ rest₂ decode hash items ok₁ ok₂
      e₁ e₂ =
    let (log₁, left₁, split₁, items₁) =
      Advanced-view env₁ (λ n. n.items) _ (items-IsReplayed env₁) run₁ ok₁ in
    let (log₂, left₂, split₂, items₂) =
      Advanced-view env₂ (λ n. n.items) _ (items-IsReplayed env₂) run₂ ok₂ in
    one-Ahead (replay env₂.unmarshal_item env₂.md5) (replay-append env₂.unmarshal_item env₂.md5) log
      log₁ log₂ left₁ left₂ rest₁ rest₂ split₁ split₂ e₁ e₂ (rw (← decode, ← hash, ← items) items₁)
      items₂
