-- ===== src/Tests/Supplied.antt =====
-- Runs of nodes with the functions that the repository supplies itself.
use raft_capnp.Prelude.{refl, ◌≡◌, ◌≢◌, ℕ, some, List, [], ◌∷◌, ◌++◌, false, arith}
use raft_capnp.Prelude.Assoc.{Assoc, lookup}
use raft_capnp.Prelude.Eq.{nat_eq}
use raft_capnp.Data.{external, Raft, client, Entry}
use raft_capnp.Effect.{ok, done, ◌>>=◌, take_ref}
use raft_capnp.Effect.Frames.{select}
use raft_capnp.Helper.{rpc_get_id}
use raft_capnp.View.{copy_peers, view_peers}
use raft_capnp.Apply.{add_conf_change, do_ready}
use raft_capnp.Apply.Entries.{storing}
use raft_capnp.Rpc.{peer_list, add}
use raft_capnp.Rpc.Proposals.{proposed}
use raft_capnp.Rpc.Answers.{joining}
use raft_capnp.Defaults.{Memory, memory, default_raft_store}
use raft_capnp.Defaults.Store.{with_default, by_storage, default_store_round}
use raft_capnp.External.Failing.{nil_env, nil_retrieval_fails}
use raft_capnp.Example.{Handles, retrieve}
use raft_capnp.Api.{call_add}
use raft_capnp.Api.AddParams
use raft_capnp.Example.Main.{
  MainAct, starts, naps, asks, watches, cancels, with_ref, Placing, main, main_joins,
}
use raft_capnp.Tests.Wire.{wire}
use raft_capnp.Example.Join.{example_env, joined_is_peer}
use raft_capnp.Tests.{healthy, node_one, apple, put_entry, change, change_entry, busy_round}

-- A storage that counts its entries and refuses them all.
abbrev refusing : Memory (List Entry)
refusing = record {
  append = λ entries s. (some (external 7), entries ++ s);
  set_hard_state = λ h s. (some (external 8), s);
  apply_snapshot = λ snap s. (some (external 9), s);
  is_empty_hard_state = λ h. false;
  is_empty_snap = λ snap. false;
}

default_store_round_example :
    (do_ready (with_default refusing (λ t. memory []) healthy) busy_round node_one
      ≡ by_storage refusing
          (λ t. memory [])
          healthy
          (memory [])
          busy_round
          (storing busy_round node_one))
    × ((default_raft_store refusing
          (memory [])
          busy_round.hard_state
          busy_round.entries
          busy_round.snapshot).1
        ≡ memory (busy_round.entries ++ []))
default_store_round_example =
    default_store_round refusing (λ t. memory []) healthy busy_round node_one

nil_retrieval_fails_example : (do_ready (nil_env healthy) busy_round node_one).0 ≢ done tt
nil_retrieval_fails_example =
    nil_retrieval_fails healthy busy_round (put_entry apple ∷ change_entry 1 3 ∷ []) []
      (change_entry 0 4) (0 ∷ 4 ∷ []) (change 0 4) node_one refl refl refl refl refl

-- The three nodes of the example.
abbrev cluster : List (ℕ × Raft)
cluster = (3, client 3) ∷ (2, client 2) ∷ (1, client 1) ∷ []

three-known : lookup 3 cluster ≡ some (client 3)
three-known = refl

add_three :
    (add (example_env cluster healthy) (client 3) node_one).0 ≡ done (client 2 ∷ client 3 ∷ [])
unfolding take_ref rpc_get_id copy_peers view_peers peer_list add ◌>>=◌
add_three = refl

joined_is_peer_example :
    (select proposed (add (example_env cluster healthy) (client 3) node_one).1.trace
      ≡ joining healthy 3 ∷ [])
    × ((add_conf_change (example_env cluster healthy) (change_entry 0 3) node_one).0 ≡ done tt)
    × (lookup 3 (add_conf_change (example_env cluster healthy) (change_entry 0 3) node_one).1.peers
        ≡ some (client 3))
joined_is_peer_example =
    joined_is_peer cluster healthy 3 3 node_one node_one (client 2 ∷ client 3 ∷ [])
      (change_entry 0 3) (0 ∷ 3 ∷ []) three-known (λ t. refl) add_three refl refl

-- The handles of one node of the example.
abbrev handles : Handles
handles = record {
  drawn = 41;
  first_logger = 0;
  raft_store = 1;
  storage = 2;
  on_new_value = 3;
  node_retrieval = 4;
  logger = 5;
}

abbrev drawing : ℕ → Handles
drawing id = record handles { drawn = id }

-- What places a node that is to be added.
abbrev placing : Raft → Placing wire
placing node s m t = (AddParams.set_node wire s node m, with_ref node t)

-- Two polls tell no leader, and the third one the first node.
abbrev acts : List (MainAct (Placing wire))
acts =
    starts 1
    ∷ naps
    ∷ naps
    ∷ starts 2
    ∷ starts 3
    ∷ asks (client 41) (call_add (some (placing (client 42))))
    ∷ asks (client 41) (call_add (some (placing (client 43))))
    ∷ watches
    ∷ cancels
    ∷ []

main_joins_example :
    (nodes : Assoc ℕ Raft) × (main wire handles
        (drawing 42)
        (drawing 43)
        (client 41)
        (client 42)
        (client 43)
        (0 ∷ 0 ∷ 41 ∷ [])
      ≡ some (nodes, acts))
    × (retrieve nodes 41 ≡ ok (client 41))
    × (retrieve nodes 42 ≡ ok (client 42))
    × (retrieve nodes 43 ≡ ok (client 43))
main_joins_example =
    main_joins wire handles (drawing 42) (drawing 43) (client 41) (client 42) (client 43)
      (0 ∷ 0 ∷ []) [] (omega arith) (omega arith) (omega arith) (omega arith, (omega arith, tt))
