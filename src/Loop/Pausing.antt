-- ===== src/Loop/Pausing.antt =====
-- raft/node.go: a pause of the loop, with what happens while it waits.
use raft_capnp.Prelude.{refl, sym, ◌≡◌, ◌∙◌, ap, false, true, Bool, List, ◌++◌, arith}
use raft_capnp.Effect.{Env, Node, Outcome, done, failed, blocked}
use raft_capnp.Effect.Keeps.{>>=-done}
use raft_capnp.Pause.{WaitEvent, set_paused, rest_of_pause, do_pause}
use raft_capnp.Pause.Resume.{flagged, set_paused-free}
use raft_capnp.Pause.Waiting.{rest_of_pause-more}
use raft_capnp.Loop.{Loop, paused, handled, round, go_on}
use raft_capnp.Loop.Reach.{IsLive}

handled-stuck :
    (r : Outcome (Unit {0}) × Node) (l : Loop)
    → l.stuck ≡ false
    → (handled r l).stuck ≡ true
    → r.0 ≡ blocked
handled-stuck (done x, n) l live h = absurd (cc (live, h))
handled-stuck (failed e, n) l live h = absurd (cc (live, h))
handled-stuck (blocked, n) l live h = refl

handled-blocked :
    (r : Outcome (Unit {0}) × Node) (l : Loop)
    → r.0 ≡ blocked
    → handled r l ≡ record l { node = r.1; stuck = true }
handled-blocked (done x, n) l h = cc
handled-blocked (failed e, n) l h = cc
handled-blocked (blocked, n) l h = refl

-- A round looks at no node but the one that its handler leaves.
handled-node_free :
    (r : Outcome (Unit {0}) × Node) (n : Node) (l : Loop)
    → handled r (record l { node = n }) ≡ handled r l
handled-node_free (done x, m) n l = refl
handled-node_free (failed e, m) n l = refl
handled-node_free (blocked, m) n l = refl

module _ (env : Env) where
  do_pause-rest :
      (pause : Bool) (events : List WaitEvent) (n : Node)
      → n.locked ≡ false
      → do_pause env pause events n ≡ rest_of_pause env events (flagged pause n)
  unfolding do_pause rest_of_pause
  do_pause-rest pause events n free =
      let e = set_paused-free pause n free in
      >>=-done _ (set_paused pause) n (ap (λ r. r.0) e) ∙ ap (λ r. rest_of_pause env events r.1) e

  -- A pause whose events come in two parts, with the loop waiting in between, is the same as the
  -- pause with all of them.
  go_on-round :
      (pause : Bool) (events more : List WaitEvent) (l : Loop)
      → IsLive l
      → l.node.locked ≡ false
      → (round env (paused pause events) l).stuck ≡ true
      → go_on env more (round env (paused pause events) l)
        ≡ round env (paused pause (events ++ more)) l
  unfolding go_on round
  go_on-round pause events more l live free h =
      let r = do_pause env pause events l.node in
      let rest = do_pause-rest pause events l.node free in
      let waits = handled-stuck r l live.0 h in
      let joined =
        rest_of_pause-more env events more (flagged pause l.node) refl (rw rest at waits) in
      let whole : do_pause env pause (events ++ more) l.node ≡ rest_of_pause env more r.1 =
        do_pause-rest pause (events ++ more) l.node free
        ∙ joined.0
        ∙ ap (λ q. rest_of_pause env more q.1) (sym rest) in
      let live_again : record l { stuck = false } ≡ l = ground arith in
      ap (go_on env more) (handled-blocked r l waits)
      ∙ handled-node_free (rest_of_pause env more r.1) r.1 (record l { stuck = false })
      ∙ ap (handled (rest_of_pause env more r.1)) live_again
      ∙ ap (λ q. handled q l) (sym whole)
