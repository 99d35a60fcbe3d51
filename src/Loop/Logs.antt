-- ===== src/Loop/Logs.antt =====
-- Runs of a node as a log of committed entries, for whatever view of the node such a log explains.
use raft_capnp.Prelude.{
  refl, sym, ◌≡◌, ◌∙◌, ap, Option, none, some, List, [], ◌∷◌, ◌++◌, ⊤, false, ◌⊎◌, inl, inr, arith,
}
use mathlib.Core.List.{append_assoc, cons-eq-cons}
use raft_capnp.Data.{Entry, Ready}
use raft_capnp.Effect.{Env, Node, done}
use raft_capnp.Pause.{rest_of_pause, do_pause}
use raft_capnp.Pause.Frames.{
  SameData, data_queue, Frame-wait_pause, Frame-rest_of_pause, Frame-do_pause,
}
use raft_capnp.Apply.{do_ready}
use raft_capnp.Rpc.Calls.{serve-SameData}
use raft_capnp.Loop.{ticked, ready, paused, ctx_over, Loop, round, go_on, stop}
use raft_capnp.Loop.Reach.{
  go_round, resume, wake, call_stop, serve_call, receive_stop, Step, Reach, here, next,
}
use raft_capnp.Loop.History.{handled-node}

abbrev ready_of : {env : Env} {l m : Loop} → Step env l m → Option Ready
ready_of (go_round (ready r) live) = some r
ready_of _ = none

-- The entries that the rounds of a run commit.
abbrev pub committed : {env : Env} {l m : Loop} → Reach env l m → List Entry
committed here = []
committed (next run (go_round (ready r) live)) = committed run ++ r.committed_entries
committed (next run _) = committed run

-- Every round of the run succeeded, and so ended by `Advance`.
abbrev pub Succeeded : {env : Env} {l m : Loop} → Reach env l m → Type 0
Succeeded here = ⊤
Succeeded {env} (next {k} run (go_round (ready r) live)) =
    ((do_ready env r k.node).0 ≡ done tt) × Succeeded run
Succeeded (next run _) = Succeeded run

-- A round comes only when all before it have succeeded: etcd gives none before `Advance`.
abbrev pub Advanced : {env : Env} {l m : Loop} → Reach env l m → Type 0
Advanced here = ⊤
Advanced (next run (go_round (ready r) live)) = Succeeded run
Advanced (next run _) = Advanced run

-- Of two lists that begin a third one, one begins the other.
comparable :
    {A : Type 0} (xs ys xs' ys' : List A)
    → xs ++ xs' ≡ ys ++ ys'
    → ((more : List A) × (ys ≡ xs ++ more)) ⊎ ((more : List A) × (xs ≡ ys ++ more))
comparable [] ys xs' ys' h = inl (ys, refl)
comparable (x ∷ xs) [] xs' ys' h = inr (x ∷ xs, refl)
comparable (x ∷ xs) (y ∷ ys) xs' ys' h =
    let (head, tail) = cons-eq-cons.0 h in
    elim (comparable xs ys xs' ys' tail) [
      | inl (more, e) ↦ inl (more, rw (head, e))
      | inr (more, e) ↦ inr (more, rw (head, e))
    ]

-- A view of the node that the committed entries of the rounds explain, and nothing else changes.
pub record IsReplayed {S : Type 0} (env : Env) (view : Node → S) (replay : List Entry → S → S)
    : Type 0 where
  pub replay_nil : (s : S) → replay [] s ≡ s
  pub replay_append : (xs ys : List Entry) (s : S) → replay (xs ++ ys) s ≡ replay ys (replay xs s)
  pub same_view : (n m : Node) → SameData n m → view m ≡ view n
  pub all_applied :
      (r : Ready) (n : Node)
      → (do_ready env r n).0 ≡ done tt
      → view (do_ready env r n).1 ≡ replay r.committed_entries (view n)
  pub some_applied :
      (r : Ready) (n : Node)
      → (applied rest : List Entry) × (r.committed_entries ≡ applied ++ rest)
        × (view (do_ready env r n).1 ≡ replay applied (view n))

module _ (env : Env) where
  -- Steps that handle no round leave the data of the node alone.
  Step-SameData : {k m : Loop} (s : Step env k m) → ready_of s ≡ none → SameData k.node m.node
  unfolding round go_on stop
  Step-SameData (go_round ticked live) h = ground arith
  Step-SameData (go_round (ready r) live) h = cc
  Step-SameData {k} (go_round (paused pause events) live) h =
      rw (handled-node (do_pause env pause events k.node) k)
        ((Frame-do_pause data_queue env pause events).at k.node)
  Step-SameData (go_round (ctx_over e) live) h = ground arith
  Step-SameData {k} (resume events waits free) h =
      rw (handled-node (rest_of_pause env events k.node) (record k { stuck = false }))
        ((Frame-rest_of_pause data_queue env events).at k.node)
  Step-SameData {k} (wake events waits free over) h =
      (Frame-wait_pause data_queue.pauses events).at k.node
  Step-SameData (call_stop cause) h = ground arith
  Step-SameData {k} (serve_call c) h = serve-SameData env c k.node
  Step-SameData (receive_stop before after e live split) h = ground arith

  ready_node : (r : Ready) (k : Loop) → (round env (ready r) k).node ≡ (do_ready env r k.node).1
  unfolding round
  ready_node r k = handled-node (do_ready env r k.node) k

  module _ {S : Type 0} (view : Node → S) (replay : List Entry → S → S)
      (laws : IsReplayed env view replay) where
    Succeeded-view :
        {l m : Loop} (run : Reach env l m)
        → Succeeded run
        → view m.node ≡ replay (committed run) (view l.node)
    Succeeded-view {l} here h = sym (laws.replay_nil (view l.node))
    Succeeded-view {l} (next {k} run (go_round (ready r) live)) h =
        ap view (ready_node r k)
        ∙ laws.all_applied r k.node h.0
        ∙ ap (replay r.committed_entries) (Succeeded-view run h.1)
        ∙ sym (laws.replay_append (committed run) r.committed_entries (view l.node))
    Succeeded-view {m = m} (next {k} run s) h =
        laws.same_view k.node m.node (Step-SameData s refl) ∙ Succeeded-view run h

    -- What a run makes of the view: the entries that its rounds commit, up to some entry.
    pub Advanced-view :
        {l m : Loop} (run : Reach env l m)
        → Advanced run
        → (log rest : List Entry) × (committed run ≡ log ++ rest)
          × (view m.node ≡ replay log (view l.node))
    Advanced-view {l} here h = ([], [], refl, sym (laws.replay_nil (view l.node)))
    Advanced-view {l} (next {k} run (go_round (ready r) live)) h =
        let (applied, rest, split, after) = laws.some_applied r k.node in
        (
          committed run ++ applied,
          rest,
          ap (λ es. committed run ++ es) split ∙ sym (append_assoc (committed run) applied rest),
          ap view (ready_node r k)
              ∙ after
              ∙ ap (replay applied) (Succeeded-view run h)
              ∙ sym (laws.replay_append (committed run) applied (view l.node)),
        )
    Advanced-view {m = m} (next {k} run s) h =
        let (log, rest, split, same) = Advanced-view run h in
        (log, rest, split, laws.same_view k.node m.node (Step-SameData s refl) ∙ same)

-- What `b` is, `a` becomes by further entries of the log: `a` is the start with a first part of the
-- log replayed, and `b` is `a` with the part that follows it in the log replayed.
abbrev pub Ahead : {S : Type 0} → (List Entry → S → S) → List Entry → S → S → S → Type 0
Ahead replay log s a b =
    (seen more rest : List Entry) × (log ≡ seen ++ more ++ rest)
    × (a ≡ replay seen s)
    × (b ≡ replay more a)

-- A replay in two parts.
module _ {S : Type 0} (replay : List Entry → S → S)
    (append : (xs ys : List Entry) (s : S) → replay (xs ++ ys) s ≡ replay ys (replay xs s)) where
  ahead :
      (log seen more left rest : List Entry) {whole es : List Entry} {s a b : S}
      → whole ≡ seen ++ more
      → es ≡ whole ++ left
      → log ≡ es ++ rest
      → a ≡ replay seen s
      → b ≡ replay whole s
      → Ahead replay log s a b
  ahead log seen more left rest {s = s} e split begun now later = (
    seen,
    more,
    left ++ rest,
    begun
        ∙ ap (λ l. l ++ rest) (split ∙ ap (λ l. l ++ left) e)
        ∙ append_assoc (seen ++ more) left rest,
    now,
    later ∙ ap (λ l. replay l s) e ∙ append seen more s ∙ ap (replay more) (sym now),
  )

  -- Of two views that the beginnings of one log explain, one is ahead of the other.
  pub one-Ahead :
      (log log₁ log₂ left₁ left₂ rest₁ rest₂ : List Entry) {es₁ es₂ : List Entry} {s a b : S}
      → es₁ ≡ log₁ ++ left₁
      → es₂ ≡ log₂ ++ left₂
      → log ≡ es₁ ++ rest₁
      → log ≡ es₂ ++ rest₂
      → a ≡ replay log₁ s
      → b ≡ replay log₂ s
      → Ahead replay log s a b ⊎ Ahead replay log s b a
  one-Ahead log log₁ log₂ left₁ left₂ rest₁ rest₂ split₁ split₂ e₁ e₂ now₁ now₂ =
      let both : log₁ ++ (left₁ ++ rest₁) ≡ log₂ ++ (left₂ ++ rest₂) =
        sym (append_assoc log₁ left₁ rest₁)
        ∙ ap (λ es. es ++ rest₁) (sym split₁)
        ∙ sym e₁
        ∙ e₂
        ∙ ap (λ es. es ++ rest₂) split₂
        ∙ append_assoc log₂ left₂ rest₂ in
      elim (comparable log₁ log₂ (left₁ ++ rest₁) (left₂ ++ rest₂) both) [
        | inl (more, e) ↦ inl (ahead log log₁ more left₂ rest₂ e split₂ e₂ now₁ now₂)
        | inr (more, e) ↦ inr (ahead log log₂ more left₁ rest₁ e split₁ e₁ now₂ now₁)
      ]
