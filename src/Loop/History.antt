-- ===== src/Loop/History.antt =====
-- What the items of a node owe to the rounds of its loop.
use raft_capnp.Prelude.{false, refl, sym, ◌≡◌, ◌∙◌, ap, List, [], ◌∷◌, ◌++◌}
use raft_capnp.Data.{Entry, Ready}
use raft_capnp.Effect.{Env, Node, Outcome, done, failed, blocked}
use raft_capnp.Pause.{WaitEvent, rest_of_pause, do_pause}
use raft_capnp.Pause.Frames.{data_queue, Frame-wait_pause, Frame-rest_of_pause, Frame-do_pause}
use raft_capnp.Apply.{do_ready}
use raft_capnp.Apply.Entries.{replay}
use raft_capnp.Apply.Rounds.{replay-append}
use raft_capnp.Apply.Machine.{do_ready_prefix}
use raft_capnp.Rpc.Calls.{serve-SameData}
use raft_capnp.Loop.{Event, ticked, ready, paused, ctx_over, Loop, handled, round, go_on, stop}
use raft_capnp.Loop.Reach.{
  go_round, resume, wake, call_stop, serve_call, receive_stop, Reach, here, next,
}

-- The round of etcd that a step of the loop handles, if it handles one.
abbrev pub round_of : Event → List Ready → List Ready
round_of (ready r) rs = rs ++ r ∷ []
round_of _ rs = rs

-- The rounds of a run, in their order.
abbrev pub rounds_of : {env : Env} {l m : Loop} → Reach env l m → List Ready
rounds_of here = []
rounds_of (next run (go_round e live)) = round_of e (rounds_of run)
rounds_of (next run _) = rounds_of run

-- A log that holds, for every round and in the order of the rounds, the first of its committed
-- entries up to some entry.
pub data Applied : List Entry → List Ready → Type 0 where
  no_round : Applied [] []
  one_more :
      {log : List Entry} {rs : List Ready} (r : Ready) (applied rest : List Entry)
      → Applied log rs
      → r.committed_entries ≡ applied ++ rest
      → Applied (log ++ applied) (rs ++ r ∷ [])

pub handled-node : (r : Outcome (Unit {0}) × Node) (l : Loop) → (handled r l).node ≡ r.1
handled-node (done x, n) l = refl
handled-node (failed e, n) l = refl
handled-node (blocked, n) l = refl

module _ (env : Env) where
  -- The items are those of a start with a log of the rounds replayed.
  abbrev Explained : Node → Node → List Ready → Type 0
  Explained n n' rs =
      (log : List Entry) × Applied log rs
      × (n'.items ≡ replay env.unmarshal_item env.md5 log n.items)

  Explained-round :
      (e : Event) (n : Node) (l : Loop) (rs : List Ready)
      → Explained n l.node rs
      → Explained n (round env e l).node (round_of e rs)
  unfolding round
  Explained-round ticked n l rs h = h
  Explained-round (ready r) n l rs (log, ok_log, items) =
      let (applied, rest, split, after) = do_ready_prefix env r l.node in
      (
        log ++ applied,
        one_more r applied rest ok_log split,
        ap (λ k. k.items) (handled-node (do_ready env r l.node) l)
            ∙ after
            ∙ ap (replay env.unmarshal_item env.md5 applied) items
            ∙ sym (replay-append env.unmarshal_item env.md5 log applied n.items),
      )
  Explained-round (paused pause events) n l rs (log, ok_log, items) = (
    log,
    ok_log,
    ap (λ k. k.items) (handled-node (do_pause env pause events l.node) l)
        ∙ ((Frame-do_pause data_queue env pause events).at l.node).data_items
        ∙ items,
  )
  Explained-round (ctx_over c) n l rs h = h

  Explained-go_on :
      (events : List WaitEvent) (n : Node) (l : Loop) (rs : List Ready)
      → Explained n l.node rs
      → Explained n (go_on env events l).node rs
  unfolding go_on
  Explained-go_on events n l rs (log, ok_log, items) = (
    log,
    ok_log,
    ap (λ k. k.items) (handled-node (rest_of_pause env events l.node) (record l { stuck = false }))
        ∙ ((Frame-rest_of_pause data_queue env events).at l.node).data_items
        ∙ items,
  )

  -- In every run of a loop, with whatever served calls, pauses and stops in between, the items are
  -- those of the start with a log replayed: the first committed entries of each round, up to some
  -- entry of it, in the order of the rounds. Nothing else changes an item.
  pub items_from_rounds :
      {l m : Loop} (run : Reach env l m)
      → (log : List Entry) × Applied log (rounds_of run)
        × (m.node.items ≡ replay env.unmarshal_item env.md5 log l.node.items)
  unfolding stop
  items_from_rounds here = ([], no_round, refl)
  items_from_rounds {l} (next {k} run (go_round e live)) =
      Explained-round e l.node k (rounds_of run) (items_from_rounds run)
  items_from_rounds {l} (next {k} run (resume events waits free)) =
      Explained-go_on events l.node k (rounds_of run) (items_from_rounds run)
  items_from_rounds (next {k} run (wake events waits free over)) =
      let (log, ok_log, items) = items_from_rounds run in
      (log, ok_log, ((Frame-wait_pause data_queue.pauses events).at k.node).data_items ∙ items)
  items_from_rounds (next run (call_stop cause)) = items_from_rounds run
  items_from_rounds (next {k} run (serve_call c)) =
      let (log, ok_log, items) = items_from_rounds run in
      (log, ok_log, (serve-SameData env c k.node).data_items ∙ items)
  items_from_rounds (next run (receive_stop before after e live split)) = items_from_rounds run
