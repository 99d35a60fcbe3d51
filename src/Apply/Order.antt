-- ===== src/Apply/Order.antt =====
-- The order in which `doReady` calls out.
use raft_capnp.Prelude.{refl, true, ◌≡◌, Option, none, some, ◌∷◌, ◌++◌, ⊤}
use raft_capnp.Data.{Error, ConfChange, Ready, snapshot_unimplemented}
use raft_capnp.Effect.{Act, Trace, Env, Node, failed, emit, check, ◌>>=◌}
use raft_capnp.Effect.Keeps.{Keeps, Keeps-check, keeps_rules}
use raft_capnp.Effect.Frames.{
  Grows, IsFrame, Grows-IsPreorder, Grows-IsFrame, Grows-MessageFree, Grows-PeersFree,
  Grows-ItemsFree, Grows-call, Grows-apply, select, Same, Same-IsPreorder, Same-IsFrame, Same-call,
  Same-PeersFree, Same-MessageFree, Same-ItemsFree, quiet,
}
use raft_capnp.Effect.Logs.{logged, Logs, Logs-emit, Logs-raise, Logs-if, Logs-bind}
use raft_capnp.Apply.{after_store, do_ready}
use raft_capnp.Apply.Frames.{Frame-send_messages, Frame-apply_entries}

module _ (env : Env) where
  Grows-after_store : (ready : Ready) → Keeps Grows (after_store env ready)
  unfolding after_store
  Grows-after_store ready =
      search
        (
          keeps_rules,
          Grows-IsPreorder,
          Grows-call,
          Frame-send_messages Grows-IsFrame env Grows-MessageFree,
          Frame-apply_entries Grows-IsFrame env Grows-PeersFree Grows-apply Grows-ItemsFree,
        )
        depth 7

  after_check :
      (o : Option Error) (ready : Ready) → Keeps Grows (check o >>= λ stored. after_store env ready)
  after_check o ready = search (keeps_rules, Grows-IsPreorder, Grows-after_store)

  -- Whatever `doReady` calls, it calls after it has handed the hard state, the entries and the
  -- snapshot of the round to the store; nothing is sent before that.
  do_ready_store_first :
      (ready : Ready) (n : Node)
      → (acts : Trace) × ((do_ready env ready n).1.trace
          ≡ acts ++ Act.store ready.hard_state ready.entries ready.snapshot ∷ n.trace)
  unfolding do_ready ◌>>=◌
  do_ready_store_first ready n =
      (after_check (env.store n.trace ready.hard_state ready.entries ready.snapshot) ready).at
        (record n { trace = Act.store ready.hard_state ready.entries ready.snapshot ∷ n.trace })

  -- If the store fails, `doReady` returns that error with nothing sent, nothing applied and the
  -- node as it was.
  pub do_ready_store_failure :
      (ready : Ready) (n : Node) (e : Error)
      → env.store n.trace ready.hard_state ready.entries ready.snapshot ≡ some e
      → do_ready env ready n ≡ (
        failed e,
        record n { trace = Act.store ready.hard_state ready.entries ready.snapshot ∷ n.trace },
      )
  unfolding do_ready ◌>>=◌
  do_ready_store_failure ready n e h = rw h

abbrev pub advances : Act → Option ⊤
advances Act.advance = some tt
advances _ = none

quiet-advances : (a : Act) → quiet a ≡ true → advances a ≡ none
quiet-advances Act.advance q = cc
quiet-advances (Act.get_id c) q = refl
quiet-advances _ q = refl

abbrev quiet_frame : IsFrame (Same advances)
quiet_frame = Same-IsFrame advances quiet-advances

Same-apply : (cc : ConfChange) → Keeps (Same advances) (emit (Act.apply_conf_change cc))
Same-apply cc = Same-call advances (Act.apply_conf_change cc) (λ t. tt) refl

module _ (env : Env) where
  Logs-after_store : (ready : Ready) → Logs advances tt (after_store env ready)
  unfolding after_store
  Logs-after_store ready =
      Logs-bind _ _
        (Frame-send_messages quiet_frame env
          (Same-MessageFree advances (λ msg. refl) (λ peer encoded. refl)) ready.messages)
        λ sent.
          Logs-if (env.is_empty_snap ready.snapshot) _ _
            (Logs-bind _ _
              (Frame-apply_entries quiet_frame env (Same-PeersFree advances) Same-apply
                (Same-ItemsFree advances) ready.committed_entries)
              (λ applied. Logs-emit Act.advance refl))
            (Logs-raise snapshot_unimplemented)

  Logs-check :
      (o : Option Error) (ready : Ready)
      → Logs advances tt (check o >>= λ stored. after_store env ready)
  Logs-check o ready =
      Logs-bind _ _ (Keeps-check (Same-IsPreorder advances) o) (λ stored. Logs-after_store ready)

  -- `doReady` tells etcd to advance exactly once if it succeeds, and not at all if it fails.
  pub do_ready-advances :
      (ready : Ready) (n : Node)
      → select advances (do_ready env ready n).1.trace
        ≡ logged (do_ready env ready n).0 tt (select advances n.trace)
  unfolding do_ready ◌>>=◌
  do_ready-advances ready n =
      (Logs-check (env.store n.trace ready.hard_state ready.entries ready.snapshot) ready).at
        (record n { trace = Act.store ready.hard_state ready.entries ready.snapshot ∷ n.trace })
