-- ===== src/Example.antt =====
-- example/main.go: three nodes that find one another in a map, and how they are built.
pub mod Join
pub mod Start
pub mod Main
use raft_capnp.Prelude.{ℕ, Option, none, some, [], ◌∷◌}
use raft_capnp.Prelude.Assoc.{Assoc, lookup, insert}
use raft_capnp.Prelude.Eq.{nat_eq}
use raft_capnp.Data.{Error, node_not_found, Raft}
use raft_capnp.Effect.{Result, ok, err}
use raft_capnp.Config.{
  Setup, new, with_raft_config, with_raft_store, with_storage, with_on_new_value,
  with_raft_node_retrieval, with_logger,
}
use raft_capnp.Defaults.{default_config}

abbrev pub or_not_found : Option Raft → Result Raft
or_not_found none = err node_not_found
or_not_found (some n) = ok n

-- `retrieve`, with the global map `nodes`.
unfoldable pub retrieve : Assoc ℕ Raft → ℕ → Result Raft
retrieve nodes u = or_not_found (lookup u nodes)

-- How `main` builds each of its nodes; the handles stand for the values that it passes on.
pub record Handles : Type 0 where
  pub drawn : ℕ
  pub first_logger : ℕ
  pub raft_store : ℕ
  pub storage : ℕ
  pub on_new_value : ℕ
  pub node_retrieval : ℕ
  pub logger : ℕ

unfoldable pub build : Handles → Setup
build h = with_logger h.logger (
    with_raft_node_retrieval h.node_retrieval (
      with_on_new_value h.on_new_value (
        with_storage h.storage (
          with_raft_store h.raft_store
            (with_raft_config (default_config h.drawn) (new h.first_logger))))))

-- `nodes[n1.ID] = c1` and the same of the others.
unfoldable pub known_nodes : ℕ → ℕ → ℕ → Raft → Raft → Raft → Assoc ℕ Raft
known_nodes id₁ id₂ id₃ c₁ c₂ c₃ = insert id₃ c₃ (insert id₂ c₂ (insert id₁ c₁ []))
