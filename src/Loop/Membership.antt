-- ===== src/Loop/Membership.antt =====
-- What the peers of a node owe to the rounds of its loop.
use mathlib.Core.Quot
use raft_capnp.Prelude.{false, refl, sym, ◌≡◌, ◌∙◌, ap, ℕ, List, [], ◌∷◌, ◌++◌}
use raft_capnp.Data.{Entry, Ready}
use raft_capnp.Effect.{Env, Node}
use raft_capnp.View.Abstract.{peers_of}
use raft_capnp.Pause.{WaitEvent, wait_pause, rest_of_pause, do_pause}
use raft_capnp.Pause.Frames.{
  SameData, data_queue, Frame-wait_pause, Frame-rest_of_pause, Frame-do_pause,
}
use raft_capnp.Apply.{do_ready}
use raft_capnp.Apply.Membership.{Reachable, replay_members, replay_members-append}
use raft_capnp.Apply.Membership.Rounds.{members_prefix}
use raft_capnp.Rpc.Calls.{serve-SameData}
use raft_capnp.Loop.{Event, ticked, ready, paused, ctx_over, Loop, round, go_on, stop}
use raft_capnp.Loop.Reach.{
  go_round, resume, wake, call_stop, serve_call, receive_stop, Reach, here, next,
}
use raft_capnp.Loop.History.{round_of, rounds_of, Applied, no_round, one_more, handled-node}

module _ (env : Env) (at : ℕ → ℕ) (reach : Reachable env at) where
  -- The node is the same, and its peers are those of a start with a log of the rounds replayed.
  abbrev Known : Node → Node → List Ready → Type 0
  Known n n' rs =
      (n'.id ≡ n.id)
      × (log : List Entry) × Applied log rs
      × (peers_of n' ≡ replay_members env.unmarshal_conf_change at n.id log (peers_of n))

  Known-same : (n m m' : Node) (rs : List Ready) → SameData m m' → Known n m rs → Known n m' rs
  Known-same n m m' rs same (id, log, ok_log, peers) =
      (same.data_id ∙ id, log, ok_log, ap Quot.mk same.data_peers ∙ peers)

  Known-ready :
      (r : Ready) (n m : Node) (rs : List Ready)
      → Known n m rs
      → Known n (do_ready env r m).1 (rs ++ r ∷ [])
  Known-ready r n m rs (id, log, ok_log, peers) =
      let (kept, applied, rest, split, after) = members_prefix env at r m reach in
      let decode = env.unmarshal_conf_change in
      (
        kept ∙ id,
        log ++ applied,
        one_more r applied rest ok_log split,
        after
            ∙ ap (λ i. replay_members decode at i applied (peers_of m)) id
            ∙ ap (replay_members decode at n.id applied) peers
            ∙ sym (replay_members-append decode at n.id log applied (peers_of n)),
      )

  Known-round :
      (e : Event) (n : Node) (l : Loop) (rs : List Ready)
      → Known n l.node rs
      → Known n (round env e l).node (round_of e rs)
  unfolding round
  Known-round ticked n l rs h = h
  Known-round (ready r) n l rs h =
      rw (handled-node (do_ready env r l.node) l) (Known-ready r n l.node rs h)
  Known-round (paused pause events) n l rs h =
      rw (handled-node (do_pause env pause events l.node) l) (
        Known-same n l.node (do_pause env pause events l.node).1 rs
          ((Frame-do_pause data_queue env pause events).at l.node) h)
  Known-round (ctx_over c) n l rs h = h

  Known-go_on :
      (events : List WaitEvent) (n : Node) (l : Loop) (rs : List Ready)
      → Known n l.node rs
      → Known n (go_on env events l).node rs
  unfolding go_on
  Known-go_on events n l rs h =
      rw (handled-node (rest_of_pause env events l.node) (record l { stuck = false })) (
        Known-same n l.node (rest_of_pause env events l.node).1 rs
          ((Frame-rest_of_pause data_queue env events).at l.node) h)

  -- In a cluster whose nodes are all found at once, and tell their identifiers: in every run of a
  -- loop, with whatever served calls, pauses and stops in between and however its rounds end, the
  -- node keeps its identifier, and knows the peers of the start, changed by the membership changes of
  -- a log: the first committed entries of each round, up to some entry of it, in the order of the
  -- rounds. A node that is added is known under the capability that is found for it; a node that is
  -- removed is forgotten, unless it is the node itself.
  pub members_from_rounds :
      {l m : Loop} (run : Reach env l m)
      → (m.node.id ≡ l.node.id)
        × (log : List Entry) × Applied log (rounds_of run)
        × (peers_of m.node
            ≡ replay_members env.unmarshal_conf_change at l.node.id log (peers_of l.node))
  unfolding stop
  members_from_rounds here = (refl, [], no_round, refl)
  members_from_rounds {l} (next {k} run (go_round e live)) =
      Known-round e l.node k (rounds_of run) (members_from_rounds run)
  members_from_rounds {l} (next {k} run (resume events waits free)) =
      Known-go_on events l.node k (rounds_of run) (members_from_rounds run)
  members_from_rounds {l} (next {k} run (wake events waits free over)) =
      Known-same l.node k.node (wait_pause events k.node).1 (rounds_of run)
        ((Frame-wait_pause data_queue.pauses events).at k.node) (members_from_rounds run)
  members_from_rounds (next run (call_stop cause)) = members_from_rounds run
  members_from_rounds {l} (next {k} run (serve_call c)) =
      Known-same l.node k.node _ (rounds_of run) (serve-SameData env c k.node)
        (members_from_rounds run)
  members_from_rounds (next run (receive_stop before after e live split)) = members_from_rounds run
