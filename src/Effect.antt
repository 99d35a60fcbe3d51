-- ===== src/Effect.antt =====
-- What a method of raft/node.go does besides returning: it changes the node, and calls things that
-- the repository does not implement. Those calls are recorded in a trace, newest first, and are
-- answered by an `Env` that sees the trace, so that one call may be answered differently each time.
pub mod Keeps
pub mod Frames
pub mod Logs
use raft_capnp.Prelude.{ℕ, Option, none, some, List, ◌∷◌, Bool, ⊤}
use raft_capnp.Prelude.Assoc.{Assoc}
use raft_capnp.Data.{Bytes, CtxErr, Error, Raft, null, client, Item, Message, Entry, ConfChange}

-- A call that leaves the repository's code.
pub data Act : Type 0 where
  -- of a capability: AddRef, Release, Resolve, and the calls Id and Send
  add_ref release resolve get_id : Raft → Act
  send_msg : Raft → Bytes → Act
  -- of `raft.Node`
  step : Message → Act
  report_unreachable : ℕ → Act
  status advance stop_raft campaign : Act
  apply_conf_change propose_conf_change : ConfChange → Act
  propose : Bytes → Act
  -- of the functions that the user supplies
  store : Bytes → List Entry → Bytes → Act
  new_value : Item → Act
  -- the `select` on the answer of RaftNodeRetrieval, and `ctx.Err()`
  retrieve : ℕ → Act
  ctx_err : Act

abbrev pub Trace : Type 0
Trace = List Act

pub data Result (A : Type 0) : Type 0 where
  ok : A → Result A
  err : Error → Result A

-- How a `select` with a reply, a timeout and a context ends.
pub data Race : Type 0 where
  replied : Result Raft → Race
  timeout : Race
  ctx_done : CtxErr → Race

-- The answers of what is not the repository's. `on_new_value` is optional in the source too.
pub record Env : Type 0 where
  pub store : Trace → Bytes → List Entry → Bytes → Option Error
  pub on_new_value : Option (Trace → Item → Option Error)
  pub retrieval : Trace → ℕ → Race
  pub ctx_err : Trace → Option CtxErr
  pub lead : Trace → ℕ
  pub step : Trace → Message → Option Error
  pub campaign : Trace → Option Error
  pub propose : Trace → Bytes → Option Error
  pub propose_conf_change : Trace → ConfChange → Option Error
  pub resolve : Trace → Raft → Option Error
  pub get_id : Trace → Raft → Result ℕ
  pub send : Trace → Raft → Bytes → Option Error
  pub is_empty_snap : Bytes → Bool
  pub marshal_message : Message → Result Bytes
  pub unmarshal_message : Bytes → Result Message
  pub unmarshal_conf_change : Bytes → Result ConfChange
  pub marshal_item : Item → Result Bytes
  pub unmarshal_item : Bytes → Result Item
  pub md5 : Bytes → Bytes
  -- the order in which Go ranges over a map
  pub range : Trace → Assoc ℕ Raft → Assoc ℕ Raft

-- The fields of a started `Node` that its methods read and write. `id` is the promoted
-- `Config.ID`. `queue` is the buffer of the channel of that name, and `queue_cap` the capacity that it
-- was made with, which is 0 for the channel of `New`.
pub record Node : Type 0 where
  pub id : ℕ
  pub peers : Assoc ℕ Raft
  pub items : Assoc Bytes Item
  pub paused : Bool
  pub locked : Bool
  pub queue_cap : ℕ
  pub queue : List Message
  pub trace : Trace

-- `blocked` is a call that waits for another goroutine: nothing after it runs.
pub data Outcome (A : Type 0) : Type 0 where
  done : A → Outcome A
  failed : Error → Outcome A
  blocked : Outcome A

abbrev pub Action : Type 0 → Type 0
Action A = Node → Outcome A × Node

module _ {A : Type 0} where
  pub pure : A → Action A
  pure a n = (done a, n)

  pub raise : Error → Action A
  raise e n = (failed e, n)

  pub block : Action A
  block n = (blocked, n)

  pub lift : Result A → Action A
  lift (ok a) n = (done a, n)
  lift (err e) n = (failed e, n)

  pub gets : (Node → A) → Action A
  gets f n = (done (f n), n)

  -- An outside call: it is recorded, and answered from what happened before it.
  pub call : Act → (Trace → A) → Action A
  call a answer n = (done (answer n.trace), record n { trace = a ∷ n.trace })

  abbrev settle : Outcome A → Outcome (Result A)
  settle (done a) = done (ok a)
  settle (failed e) = done (err e)
  settle blocked = blocked

  -- A result that the caller looks at, in place of returning early.
  pub try : Action A → Action (Result A)
  try m n = let (r, n') = m n in (settle r, n')

pub modify : (Node → Node) → Action ⊤
modify f n = (done tt, f n)

-- `if err != nil { return err }`
pub check : Option Error → Action ⊤
check none n = (done tt, n)
check (some e) n = (failed e, n)

module _ {A B : Type 0} where
  abbrev continue : Outcome A → (A → Action B) → Action B
  continue (done a) f n = f a n
  continue (failed e) f n = (failed e, n)
  continue blocked f n = (blocked, n)

  infixl 5 ◌>>=◌ ◌>>◌
  -- Opening this opens the actions above too.
  unfoldable pub ◌>>=◌ : Action A → (A → Action B) → Action B
  unfolding pure raise block lift gets call try modify check
  ◌>>=◌ m f n = let (r, n') = m n in continue r f n'

  abbrev pub ◌>>◌ : Action A → Action B → Action B
  m >> k = m >>= λ _. k

abbrev pub emit : Act → Action ⊤
emit a = call a (λ _. tt)

-- `AddRef` of a null client returns null and counts nothing.
unfoldable pub take_ref : Raft → Action Raft
take_ref null = pure null
take_ref (client c) = emit (add_ref (client c)) >> pure (client c)

unfoldable pub drop_ref : Raft → Action ⊤
drop_ref null = pure tt
drop_ref (client c) = emit (release (client c))
