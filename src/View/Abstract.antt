-- ===== src/View/Abstract.antt =====
-- raft/view.go, without the order in which a map holds its entries: the peers as a quotient.
use mathlib.Core.Quot
use native.Mathlib.Nat.{ℕ_set}
use mathlib.Core.Quot.{Quot, Quot-set}
use raft_capnp.Prelude.{
  sym, refl, ◌≡◌, ◌≢◌, ◌∙◌, ap, ℕ, Option, none, some, arith, nat_beq_iff, if◌then◌else◌,
}
use raft_capnp.Prelude.Assoc.{Assoc, lookup, insert, erase, lookup-insert, lookup-erase}
use raft_capnp.Prelude.Eq.{◌==◌, nat_eq}
use raft_capnp.Data.{Raft}
use raft_capnp.Effect.{Node}

-- Two maps that know the same peers.
abbrev pub SamePeers : Assoc ℕ Raft → Assoc ℕ Raft → Type 0
SamePeers m m' = (id : ℕ) → lookup id m ≡ lookup id m'

abbrev pub Peers : Type 0
Peers = Quot SamePeers

abbrev pub peers_of : Node → Peers
peers_of n = Quot.mk n.peers

pub insert-SamePeers :
    (id : ℕ) (c : Raft) (m m' : Assoc ℕ Raft)
    → SamePeers m m'
    → SamePeers (insert id c m) (insert id c m')
insert-SamePeers id c m m' h j =
    lookup-insert id j c m
    ∙ ap (λ o. if id == j then some c else o) (h j)
    ∙ sym (lookup-insert id j c m')

pub erase-SamePeers :
    (id : ℕ) (m m' : Assoc ℕ Raft) → SamePeers m m' → SamePeers (erase id m) (erase id m')
erase-SamePeers id m m' h j =
    lookup-erase id j m ∙ ap (λ o. if id == j then none else o) (h j) ∙ sym (lookup-erase id j m')

-- A peer joins, and a peer leaves.
unfoldable pub learn : ℕ → Raft → Peers → Peers
learn id c =
    Quot.lift Quot-set (λ m. Quot.mk (insert id c m))
      (λ m m' h. Quot.sound (insert-SamePeers id c m m' h))

unfoldable pub forget : ℕ → Peers → Peers
forget id =
    Quot.lift Quot-set (λ m. Quot.mk (erase id m))
      (λ m m' h. Quot.sound (erase-SamePeers id m m' h))

learned_twice :
    (id id' j : ℕ) (c c' : Raft) (m : Assoc ℕ Raft)
    → id ≢ id'
    → lookup j (insert id c (insert id' c' m)) ≡ lookup j (insert id' c' (insert id c m))
learned_twice id id' j c c' m h = ground (
  arith,
  lookup-insert id j c (insert id' c' m),
  lookup-insert id' j c' m,
  lookup-insert id' j c' (insert id c m),
  lookup-insert id j c m,
  nat_beq_iff id j,
  nat_beq_iff id' j,
)

-- The order in which two nodes join makes no difference.
learn_comm :
    (id id' : ℕ) (c c' : Raft)
    → id ≢ id'
    → (v : Peers) → learn id c (learn id' c' v) ≡ learn id' c' (learn id c v)
unfolding learn
learn_comm id id' c c' h =
    Quot.ind (λ v. Quot-set _ _) (λ m. Quot.sound (λ j. learned_twice id id' j c c' m h))

learned_then_forgotten :
    (id j : ℕ) (c : Raft) (m : Assoc ℕ Raft)
    → lookup j (erase id (insert id c m)) ≡ lookup j (erase id m)
learned_then_forgotten id j c m = ground (
  arith,
  lookup-erase id j (insert id c m),
  lookup-erase id j m,
  lookup-insert id j c m,
  nat_beq_iff id j,
)

-- A peer that joined and left is forgotten, also if it was known before under another capability.
forget-learn : (id : ℕ) (c : Raft) (v : Peers) → forget id (learn id c v) ≡ forget id v
unfolding learn forget
forget-learn id c =
    Quot.ind (λ v. Quot-set _ _) (λ m. Quot.sound (λ j. learned_then_forgotten id j c m))

Known-set : IsSet (Option Raft)
Known-set = hlevel (ℕ_set)

-- The capability that a node is known under, which does not depend on the order of the map.
pub known : ℕ → Peers → Option Raft
known id = Quot.lift Known-set (lookup id) (λ m m' h. h id)

pub known-learn :
    (id j : ℕ) (c : Raft) (v : Peers)
    → known j (learn id c v) ≡ (if id == j then some c else known j v)
unfolding known learn
known-learn id j c = Quot.ind (λ v. Known-set _ _) (λ m. lookup-insert id j c m)

pub known-forget :
    (id j : ℕ) (v : Peers) → known j (forget id v) ≡ (if id == j then none else known j v)
unfolding known forget
known-forget id j = Quot.ind (λ v. Known-set _ _) (λ m. lookup-erase id j m)

pub known-peers_of : (j : ℕ) (n : Node) → known j (peers_of n) ≡ lookup j n.peers
unfolding known
known-peers_of j n = refl
