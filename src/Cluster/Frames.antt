-- ===== src/Cluster/Frames.antt =====
-- Membership changes keep every frame, and return.
use raft_capnp.Prelude.{ℕ, zero, suc}
use raft_capnp.Prelude.Eq.{nat_eq}
use raft_capnp.Data.{Raft, ConfChange}
use raft_capnp.Effect.{Env, Node, Action, Result, ok, err, Race, replied, timeout, ctx_done}
use raft_capnp.Effect.Keeps.{Keeps, Returns, keeps_rules, returns_rules}
use raft_capnp.Effect.Frames.{
  IsFrame, PeersFree, Frame-take_ref, Frame-drop_ref, Returns-take_ref, Returns-drop_ref,
}
use raft_capnp.View.Frames.{Frame-add_peer, Frame-pop_peer, Returns-add_peer, Returns-pop_peer}
use raft_capnp.Cluster.{
  race_result, retrieve_with_timeout, after_attempt, retrieve_loop, register, unregister,
  apply_add_node, campaign_if_lead, step_down, apply_remove_node,
}

module _ {R : Node → Node → Type 0} (fr : IsFrame R) where
  Frame-race_result : (r : Race) → Keeps R (race_result r)
  unfolding race_result
  Frame-race_result (replied (ok c)) = search (keeps_rules, fr.preorder, Frame-take_ref fr)
  Frame-race_result (replied (err e)) = search (keeps_rules, fr.preorder)
  Frame-race_result timeout = search (keeps_rules, fr.preorder)
  Frame-race_result (ctx_done c) = search (keeps_rules, fr.preorder)

  module _ (env : Env) where
    Frame-retrieve_with_timeout : (id : ℕ) → Keeps R (retrieve_with_timeout env id)
    unfolding retrieve_with_timeout
    Frame-retrieve_with_timeout id =
        search (keeps_rules, fr.preorder, fr.quiet_call, Frame-race_result)

    Frame-after_attempt :
        (next : Result Raft → Action (Result Raft)) (r : Result Raft)
        → ((last : Result Raft) → Keeps R (next last))
        → Keeps R (after_attempt env next r)
    unfolding after_attempt
    Frame-after_attempt next (ok c) k = search (keeps_rules, fr.preorder)
    Frame-after_attempt next (err e) k = search (keeps_rules, fr.preorder, fr.quiet_call, k)

    pub Frame-retrieve_loop :
        (rounds id : ℕ) (last : Result Raft) → Keeps R (retrieve_loop env rounds id last)
    unfolding retrieve_loop
    Frame-retrieve_loop zero id last = search (keeps_rules, fr.preorder)
    Frame-retrieve_loop (suc rounds) id last = search (
      keeps_rules,
      fr.preorder,
      Frame-retrieve_with_timeout,
      Frame-after_attempt,
      Frame-retrieve_loop rounds id,
    )

    Frame-campaign_if_lead : (cc : ConfChange) → Keeps R (campaign_if_lead env cc)
    unfolding campaign_if_lead
    Frame-campaign_if_lead cc = search (keeps_rules, fr.preorder, fr.quiet_call) depth 7

    pub Frame-step_down : (cc : ConfChange) → Keeps R (step_down env cc)
    unfolding step_down
    Frame-step_down cc =
        search (keeps_rules, fr.preorder, fr.quiet_call, Frame-campaign_if_lead) depth 7

module _ {R : Node → Node → Type 0} (fr : IsFrame R) (pf : PeersFree R) where
  pub Frame-register : (env : Env) (id : ℕ) → Keeps R (register env id)
  unfolding register
  Frame-register env id = search (
    keeps_rules,
    fr.preorder,
    Frame-retrieve_loop fr env,
    Frame-take_ref fr,
    Frame-add_peer fr pf,
  )

  Frame-unregister : (id : ℕ) → Keeps R (unregister id)
  unfolding unregister
  Frame-unregister id = search (keeps_rules, fr.preorder, Frame-pop_peer fr pf, Frame-drop_ref fr)

  pub Frame-apply_add_node : (env : Env) (cc : ConfChange) → Keeps R (apply_add_node env cc)
  unfolding apply_add_node
  Frame-apply_add_node env cc = Frame-register env cc.node_id

  pub Frame-apply_remove_node : (env : Env) (cc : ConfChange) → Keeps R (apply_remove_node env cc)
  unfolding apply_remove_node
  Frame-apply_remove_node env cc =
      search (keeps_rules, fr.preorder, Frame-step_down fr env, Frame-unregister)

Returns-race_result : (r : Race) → Returns (race_result r)
unfolding race_result
Returns-race_result (replied (ok c)) = search (returns_rules, Returns-take_ref)
Returns-race_result (replied (err e)) = search returns_rules
Returns-race_result timeout = search returns_rules
Returns-race_result (ctx_done c) = search returns_rules

Returns-unregister : (id : ℕ) → Returns (unregister id)
unfolding unregister
Returns-unregister id = search (returns_rules, Returns-pop_peer, Returns-drop_ref)

module _ (env : Env) where
  pub Returns-retrieve_with_timeout : (id : ℕ) → Returns (retrieve_with_timeout env id)
  unfolding retrieve_with_timeout
  Returns-retrieve_with_timeout id = search (returns_rules, Returns-race_result)

  Returns-after_attempt :
      (next : Result Raft → Action (Result Raft)) (r : Result Raft)
      → ((last : Result Raft) → Returns (next last))
      → Returns (after_attempt env next r)
  unfolding after_attempt
  Returns-after_attempt next (ok c) k = search returns_rules
  Returns-after_attempt next (err e) k = search (returns_rules, k)

  pub Returns-retrieve_loop :
      (rounds id : ℕ) (last : Result Raft) → Returns (retrieve_loop env rounds id last)
  unfolding retrieve_loop
  Returns-retrieve_loop zero id last = search returns_rules
  Returns-retrieve_loop (suc rounds) id last = search (
    returns_rules,
    Returns-retrieve_with_timeout,
    Returns-after_attempt,
    Returns-retrieve_loop rounds id,
  )

  Returns-register : (id : ℕ) → Returns (register env id)
  unfolding register
  Returns-register id =
      search (returns_rules, Returns-retrieve_loop, Returns-take_ref, Returns-add_peer)

  Returns-campaign_if_lead : (cc : ConfChange) → Returns (campaign_if_lead env cc)
  unfolding campaign_if_lead
  Returns-campaign_if_lead cc = search returns_rules depth 7

  pub Returns-step_down : (cc : ConfChange) → Returns (step_down env cc)
  unfolding step_down
  Returns-step_down cc = search (returns_rules, Returns-campaign_if_lead) depth 7

  pub Returns-apply_add_node : (cc : ConfChange) → Returns (apply_add_node env cc)
  unfolding apply_add_node
  Returns-apply_add_node cc = Returns-register cc.node_id

  pub Returns-apply_remove_node : (cc : ConfChange) → Returns (apply_remove_node env cc)
  unfolding apply_remove_node
  Returns-apply_remove_node cc = search (returns_rules, Returns-step_down, Returns-unregister)
