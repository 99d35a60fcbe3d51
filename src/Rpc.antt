-- ===== src/Rpc.antt =====
-- raft/capnp.go: the methods that a node serves to other nodes. A handler gets the call's
-- arguments and what allocating its results answers, and fills the results also where it fails.
pub mod Frames
pub mod Replies
pub mod Proposals
pub mod Cap
pub mod Calls
pub mod Counts
pub mod Losses
pub mod Answers
pub mod Wire
use raft_capnp.Prelude.{ℕ, ⊤, Option, none, some, List, [], ◌∷◌, Bool, if◌then◌else◌}
use raft_capnp.Prelude.Assoc.{Assoc}
use raft_capnp.Data.{Bytes, Error, Raft, Item, Message, add_node, remove_node, ConfChange}
use raft_capnp.Effect.{
  Act, Env, Action, Result, ok, err, pure, lift, gets, call, try, check, take_ref, ◌>>=◌, ◌>>◌,
}
use raft_capnp.Helper.{rpc_get_id}
use raft_capnp.View.{view_peers}
use raft_capnp.Pause.{is_paused, queue_up, raft_step}

-- The results of `add`, and of `remove`, `send` and `put`; `error` is unset where it is `none`.
pub record Results : Type 0 where
  pub nodes : Option (List Raft)
  pub error : Option Error

-- What a handler leaves: its results, and the error that it returns.
abbrev pub Reply : Type 0
Reply = Results × Option Error

abbrev pub no_results : Results
no_results = record { nodes = none; error = none }

-- A failure before the results are allocated, after, and success.
abbrev pub reply_unset : Error → Reply
reply_unset e = (no_results, some e)

abbrev pub reply_error : Error → Reply
reply_error e = (record { nodes = none; error = some e }, some e)

abbrev pub reply_ok : Reply
reply_ok = (no_results, none)

-- `if err = …; err != nil { res.SetError(err.Error()); return err }; return nil`
abbrev pub reply_to : Result ⊤ → Reply
reply_to (ok done) = reply_ok
reply_to (err e) = reply_error e

-- `caps.Set(i, node.AddRef())` for each node
unfoldable pub set_each : List Raft → Action (List Raft)
set_each [] = pure []
set_each (node ∷ nodes) = do node' ← take_ref node; rest ← set_each nodes; pure (node' ∷ rest)

-- The peers of a map, in the order of a range over it, each with one more reference.
unfoldable pub peer_list : Assoc ℕ Raft → Action (List Raft)
peer_list [] = pure []
peer_list (e ∷ m) = do peer ← take_ref e.1; rest ← peer_list m; pure (peer ∷ rest)

-- The end of `Add`, from the result of `add` on. `NewNodes` places the list in the results, and
-- `SetNodes` does so again.
unfoldable pub reply_nodes : Option Error → Option Error → Result (List Raft) → Action Reply
reply_nodes new_nodes set_nodes (err e) = pure (reply_error e)
reply_nodes (some e) set_nodes (ok nodes) = pure (reply_error e)
reply_nodes none set_nodes (ok nodes) = do
  caps ← set_each nodes
  pure (record { nodes = some caps; error = set_nodes }, set_nodes)

module _ (env : Env) where
  unfoldable pub add : Raft → Action (List Raft)
  add node = do
    held ← take_ref node
    check (← call (Act.resolve held) (λ t. env.resolve t held))
    asked ← take_ref held
    id ← rpc_get_id env asked
    let cc : ConfChange = record { id = id; type = add_node; node_id = id }
    check (← call (Act.propose_conf_change cc) (λ t. env.propose_conf_change t cc))
    pm ← view_peers
    t ← gets (λ n. n.trace)
    peer_list (env.range t pm)

  unfoldable pub remove : Raft → Action ⊤
  remove node = do
    asked ← take_ref node
    id ← rpc_get_id env asked
    let cc : ConfChange = record { id = id; type = remove_node; node_id = id }
    check (← call (Act.propose_conf_change cc) (λ t. env.propose_conf_change t cc))

  -- The end of `send`, from the answer of `IsPaused` on. It takes the lock anew, so that the flag may
  -- have changed since.
  abbrev pub after_test : Bool → Message → Action ⊤
  after_test paused msg = if paused then queue_up msg else raft_step env msg

  unfoldable pub send : Bytes → Action ⊤
  send encoded = do
    msg ← lift (env.unmarshal_message encoded)
    paused ← is_paused
    after_test paused msg

  unfoldable pub put_item : Item → Action ⊤
  put_item item = do
    encoded ← lift (env.marshal_item item)
    check (← call (Act.propose encoded) (λ t. env.propose t encoded))

  -- `Add`, with what AllocResults, NewNodes and SetNodes answer.
  unfoldable pub handle_add : Option Error → Option Error → Option Error → Raft → Action Reply
  handle_add (some e) new_nodes set_nodes node = pure (reply_unset e)
  handle_add none new_nodes set_nodes node = do
    res ← try (add node)
    reply_nodes new_nodes set_nodes res

  unfoldable pub handle_remove : Option Error → Raft → Action Reply
  handle_remove (some e) node = pure (reply_unset e)
  handle_remove none node = do
    shared ← take_ref node
    res ← try (remove shared)
    pure (reply_to res)

  -- `Send`, with what reading the argument answers.
  unfoldable pub handle_send : Option Error → Result Bytes → Action Reply
  handle_send (some e) arg = pure (reply_unset e)
  handle_send none (err e) = pure (reply_error e)
  handle_send none (ok encoded) = do res ← try (send encoded); pure (reply_to res)

  -- `Put`, with what reading the argument and `ItemFromApi` answer. The error of the latter is not
  -- written to the results.
  unfoldable pub handle_put : Option Error → Option Error → Result Item → Action Reply
  handle_put (some e) arg item = pure (reply_unset e)
  handle_put none (some e) item = pure (reply_error e)
  handle_put none none (err e) = pure (reply_unset e)
  handle_put none none (ok item) = do res ← try (put_item item); pure (reply_to res)

-- `Items` and `Members` return at once, with results that are not allocated.
unfoldable pub handle_items : Action Reply
handle_items = pure reply_ok

unfoldable pub handle_members : Action Reply
handle_members = pure reply_ok

-- `Id`, which answers `none` where the results could not be allocated.
unfoldable pub handle_id : Option Error → Action (Option ℕ × Option Error)
handle_id (some e) = pure (none, some e)
handle_id none = do id ← gets (λ n. n.id); pure (some id, none)
