-- ===== src/Apply/Losses.antt =====
-- A round of `doReady` whose store succeeds loses none of its messages for the node itself.
use raft_capnp.Prelude.{sym, ◌≡◌, ◌∙◌, Bool, none, arith}
use raft_capnp.Data.{Message, Ready}
use raft_capnp.Effect.{Act, Env, Node, ◌>>=◌}
use raft_capnp.Effect.Keeps.{Keeps-after, keeps_rules}
use raft_capnp.Pause.Losses.{
  AtLeast, NoneLost, NoneLost-IsPreorder, NoneLost-IsFrame, NoneLost-call, NoneLost-PeersFree,
  NoneLost-ItemsFree,
}
use raft_capnp.Apply.{send_messages, after_store, do_ready}
use raft_capnp.Apply.Frames.{Frame-apply_entries}
use raft_capnp.Apply.Counts.{own, send_messages-weight}
use raft_capnp.Apply.Sends.{send_messages_delivers}
use raft_capnp.Apply.Entries.{storing}

module _ (p : Message → Bool) (env : Env) where
  after_store-AtLeast :
      (r : Ready) (n : Node) → AtLeast p (own p n.id r.messages) n (after_store env r n).1
  unfolding after_store
  after_store-AtLeast r n =
      let n' = (send_messages env r.messages n).1 in
      let (out, sent, frame) = send_messages_delivers env r.messages n in
      let rest : NoneLost p n' (after_store env r n).1 =
        Keeps-after (NoneLost-IsPreorder p) (send_messages env r.messages) _ n (λ x. search (
          keeps_rules,
          NoneLost-IsPreorder,
          NoneLost-call,
          Frame-apply_entries (NoneLost-IsFrame p) env (NoneLost-PeersFree p)
              (λ cc. NoneLost-call p (Act.apply_conf_change cc) (λ t. tt)) (NoneLost-ItemsFree p),
        )) in
      record {
        kept = λ free.
            let after = rest.kept free in
            (
              sym frame.same_locked ∙ after.0,
              omega (arith, after.1, send_messages-weight p env r.messages n),
            );
      }

  -- A round of `doReady` whose store succeeds.
  pub do_ready-AtLeast :
      (r : Ready) (n : Node)
      → env.store n.trace r.hard_state r.entries r.snapshot ≡ none
      → AtLeast p (own p n.id r.messages) n (do_ready env r n).1
  unfolding do_ready ◌>>=◌
  do_ready-AtLeast r n stores =
      rw stores (record { kept = (after_store-AtLeast r (storing r n)).kept })
