-- ===== src/Apply/Rounds.antt =====
-- Rounds in a row, and two nodes that are at different places of one log.
use raft_capnp.Prelude.{refl, sym, ◌≡◌, ◌∙◌, ap, List, [], ◌∷◌, ◌++◌}
use raft_capnp.Data.{Bytes, Item, Entry, Ready}
use raft_capnp.Effect.{Env, Node, Result, done}
use raft_capnp.Item.{ItemMap}
use raft_capnp.Apply.{do_ready}
use raft_capnp.Apply.Entries.{replay, carried, put_carried}
use raft_capnp.Apply.Machine.{do_ready_items}

pub replay-append :
    (decode : Bytes → Result Item) (md5 : Bytes → Bytes) (xs ys : List Entry) (m : ItemMap)
    → replay decode md5 (xs ++ ys) m ≡ replay decode md5 ys (replay decode md5 xs m)
replay-append decode md5 [] ys m = refl
replay-append decode md5 (x ∷ xs) ys m =
    replay-append decode md5 xs ys (put_carried md5 (carried decode x.type x.payload) m)

-- A node after rounds that all succeeded, with the entries that they committed. Between two rounds
-- anything may happen to the node that leaves its items alone.
data Rounds (env : Env) (n : Node) : List Entry → Node → Type 0 where
  no_round : Rounds env n [] n
  one_more :
      {log : List Entry} {m : Node} (r : Ready)
      → Rounds env n log m
      → (do_ready env r m).0 ≡ done tt
      → Rounds env n (log ++ r.committed_entries) (do_ready env r m).1
  between :
      {log : List Entry} {m : Node} (k : Node)
      → Rounds env n log m
      → k.items ≡ m.items
      → Rounds env n log k

Rounds-items :
    (env : Env) (n : Node) {log : List Entry} {m : Node}
    → Rounds env n log m
    → m.items ≡ replay env.unmarshal_item env.md5 log n.items
Rounds-items env n no_round = refl
Rounds-items env n (one_more {log} {m} r rounds succeeds) =
    (do_ready_items env r m succeeds).1
    ∙ ap (replay env.unmarshal_item env.md5 r.committed_entries) (Rounds-items env n rounds)
    ∙ sym (replay-append env.unmarshal_item env.md5 log r.committed_entries n.items)
Rounds-items env n (between k rounds same) = same ∙ Rounds-items env n rounds

-- Two nodes that start with the same items, and decode and hash alike, have gone through rounds
-- that all succeeded. If the entries of the first are those of the second and some more, however
-- either log was cut into rounds, the first holds the items of the second with the items of those
-- further entries put into them.
replica_behind :
    (env₁ env₂ : Env) (n₁ n₂ m₁ m₂ : Node) (log₁ log₂ more : List Entry)
    → env₁.unmarshal_item ≡ env₂.unmarshal_item
    → env₁.md5 ≡ env₂.md5
    → n₁.items ≡ n₂.items
    → log₁ ≡ log₂ ++ more
    → Rounds env₁ n₁ log₁ m₁
    → Rounds env₂ n₂ log₂ m₂
    → m₁.items ≡ replay env₂.unmarshal_item env₂.md5 more m₂.items
replica_behind env₁ env₂ n₁ n₂ m₁ m₂ log₁ log₂ more decode hash items log r₁ r₂ =
    let first = Rounds-items env₁ n₁ r₁ in
    let second = Rounds-items env₂ n₂ r₂ in
    rw (first, second, decode, hash, items, log)
      (replay-append env₂.unmarshal_item env₂.md5 log₂ more n₂.items)
