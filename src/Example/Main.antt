-- ===== src/Example/Main.antt =====
-- example/main.go: `main`, as the map that it fills and the things that it does in their order.
use raft_capnp.Prelude.{
  refl, ◌≡◌, ◌≢◌, ℕ, Option, none, some, List, [], ◌∷◌, ◌++◌, All, length, replicate, if◌then◌else◌,
  arith, nat_beq_iff,
}
use raft_capnp.Prelude.Assoc.{Assoc}
use raft_capnp.Prelude.Eq.{◌==◌, nat_eq}
use raft_capnp.Data.{Raft, null, client, Error}
use raft_capnp.Effect.{Act, Trace, ok}
use raft_capnp.Api.{Send, call_add}
use raft_capnp.Api.Capnp.{Capnp}
use raft_capnp.Api.AddParams
use raft_capnp.View.{new_view}
use raft_capnp.Config.{
  Setup, new, with_raft_config, with_raft_store, with_storage, with_on_new_value,
  with_raft_node_retrieval, with_logger, late_config, init,
}
use raft_capnp.Defaults.{default_config}
use raft_capnp.Example.{Handles, build, known_nodes, retrieve}

-- `go nK.Start(ctx)` by the number of the node, the two kinds of sleep, `Add` at a node with the
-- function that places its arguments, and `cancel`.
pub data MainAct (P : Type 0) : Type 0 where
  starts : ℕ → MainAct P
  naps : MainAct P
  asks : Raft → Send P → MainAct P
  watches : MainAct P
  cancels : MainAct P

infixl 5 ◌>>=◌
-- A nil pointer that is read panics, and so ends the chain.
abbrev ◌>>=◌ : {A B : Type 0} → Option A → (A → Option B) → Option B
none >>= f = none
some a >>= f = f a

-- `n1.ID`
unfoldable own_id : Setup → Option ℕ
own_id n = do config ← n.config; some config.id

-- `for n1.Raft.Status().Lead != n1.ID { time.Sleep(…) }`, on the leaders that the status tells. With
-- none left it goes on waiting.
unfoldable wait_lead : {P : Type 0} → ℕ → List ℕ → Option (List (MainAct P))
wait_lead id [] = none
wait_lead id (lead ∷ leads) =
    let rest = wait_lead id leads in
    if lead == id then some [] else (do acts ← rest; some (naps ∷ acts))

-- `AddRef`, which counts nothing for a null client.
abbrev pub with_ref : Raft → Trace → Trace
with_ref null t = t
with_ref (client k) t = Act.add_ref (client k) ∷ t

retrieved :
    (id₁ id₂ id₃ : ℕ) (c₁ c₂ c₃ : Raft)
    → id₁ ≢ id₂
    → id₁ ≢ id₃
    → id₂ ≢ id₃
    → (retrieve (known_nodes id₁ id₂ id₃ c₁ c₂ c₃) id₁ ≡ ok c₁)
      × (retrieve (known_nodes id₁ id₂ id₃ c₁ c₂ c₃) id₂ ≡ ok c₂)
      × (retrieve (known_nodes id₁ id₂ id₃ c₁ c₂ c₃) id₃ ≡ ok c₃)
unfolding retrieve known_nodes
retrieved id₁ id₂ id₃ c₁ c₂ c₃ d₁₂ d₁₃ d₂₃ = ground (
  arith,
  nat_beq_iff id₁ id₁,
  nat_beq_iff id₂ id₂,
  nat_beq_iff id₃ id₃,
  nat_beq_iff id₁ id₂,
  nat_beq_iff id₁ id₃,
  nat_beq_iff id₂ id₃,
  nat_beq_iff id₂ id₁,
  nat_beq_iff id₃ id₁,
  nat_beq_iff id₃ id₂,
)

module _ (c : Capnp) where
  -- A function that places the arguments of a call of `Add`: it writes to the message, and its calls
  -- that leave the repository are recorded in front of the trace.
  abbrev pub Placing : Type 0
  Placing = c.Struct → c.Memory → Trace → (Option Error × c.Memory) × Trace

  -- `return r.SetNode(c2.AddRef())`
  unfoldable place_node : Raft → Placing
  place_node node s m t = (AddParams.set_node c s node m, with_ref node t)

  -- What `main` does once the first node is the leader.
  after_lead : Raft → Raft → Raft → List (MainAct Placing)
  after_lead c₁ c₂ c₃ =
      starts 2
      ∷ starts 3
      ∷ asks c₁ (call_add (some (place_node c₂)))
      ∷ asks c₁ (call_add (some (place_node c₃)))
      ∷ watches
      ∷ cancels
      ∷ []

  -- `main`, with the three capabilities that `Cap` gives and the leaders that the status tells.
  pub main :
      Handles
      → Handles
      → Handles
      → Raft
      → Raft
      → Raft
      → List ℕ
      → Option (Assoc ℕ Raft × List (MainAct Placing))
  main h₁ h₂ h₃ c₁ c₂ c₃ leads = do
    id₁ ← own_id (build h₁)
    id₂ ← own_id (build h₂)
    id₃ ← own_id (build h₃)
    n ← init (build h₁)
    started ← n.raft
    id ← own_id n
    waits ← wait_lead id leads
    some (known_nodes id₁ id₂ id₃ c₁ c₂ c₃, starts 1 ∷ waits ++ after_lead c₁ c₂ c₃)

  wait_lead-until :
      (id : ℕ) (before after : List ℕ)
      → All (λ lead. lead ≢ id) before
      → wait_lead {P = Placing} id (before ++ id ∷ after) ≡ some (replicate (length before) naps)
  unfolding wait_lead
  wait_lead-until id [] after h = ground (arith, nat_beq_iff id id)
  wait_lead-until id (lead ∷ before) after h =
      rw (wait_lead-until id before after h.1) (ground (arith, nat_beq_iff lead id, h.0))

  main-acts :
      (h₁ h₂ h₃ : Handles) (c₁ c₂ c₃ : Raft) (leads : List ℕ) (waits : List (MainAct Placing))
      → wait_lead h₁.drawn leads ≡ some waits
      → main h₁ h₂ h₃ c₁ c₂ c₃ leads
        ≡ some (
          known_nodes h₁.drawn h₂.drawn h₃.drawn c₁ c₂ c₃,
          starts 1 ∷ waits ++ after_lead c₁ c₂ c₃,
        )
  unfolding main own_id build default_config new new_view with_raft_config with_raft_store
      with_storage with_on_new_value with_raft_node_retrieval with_logger late_config init
  main-acts h₁ h₂ h₃ c₁ c₂ c₃ leads waits e = rw e refl

  -- If the status of the first node tells at some point that it leads, `main` starts that node, waits
  -- until then, and no longer. Then it starts the second and the third node, asks the first one to add
  -- the second, asks it to add the third, watches, and cancels the context, in this order and nothing
  -- else. The function that places the argument of each call sets the node that is to be added, and
  -- takes one more reference of it. With three different identifiers, each of the three nodes can then
  -- be retrieved under its own.
  pub main_joins :
      (h₁ h₂ h₃ : Handles) (c₁ c₂ c₃ : Raft) (before after : List ℕ)
      → h₁.drawn ≢ h₂.drawn
      → h₁.drawn ≢ h₃.drawn
      → h₂.drawn ≢ h₃.drawn
      → All (λ lead. lead ≢ h₁.drawn) before
      → (nodes : Assoc ℕ Raft) × (main h₁ h₂ h₃ c₁ c₂ c₃ (before ++ h₁.drawn ∷ after)
          ≡ some (
            nodes,
            starts 1 ∷ replicate (length before) naps
                ++ starts 2
                  ∷ starts 3
                  ∷ asks c₁
                      (call_add (some (λ s m t. (AddParams.set_node c s c₂ m, with_ref c₂ t))))
                  ∷ asks c₁
                      (call_add (some (λ s m t. (AddParams.set_node c s c₃ m, with_ref c₃ t))))
                  ∷ watches
                  ∷ cancels
                  ∷ [],
          ))
        × (retrieve nodes h₁.drawn ≡ ok c₁)
        × (retrieve nodes h₂.drawn ≡ ok c₂)
        × (retrieve nodes h₃.drawn ≡ ok c₃)
  unfolding place_node after_lead
  main_joins h₁ h₂ h₃ c₁ c₂ c₃ before after d₁₂ d₁₃ d₂₃ others =
      let found = retrieved h₁.drawn h₂.drawn h₃.drawn c₁ c₂ c₃ d₁₂ d₁₃ d₂₃ in
      (
        known_nodes h₁.drawn h₂.drawn h₃.drawn c₁ c₂ c₃,
        main-acts h₁ h₂ h₃ c₁ c₂ c₃ (before ++ h₁.drawn ∷ after) (replicate (length before) naps)
            (wait_lead-until h₁.drawn before after others),
        found.0,
        found.1,
        found.2,
      )
