-- ===== src/Api.antt =====
-- proto/api/raft.capnp.go: the stubs through which a node calls another, and the table through
-- which a node serves those calls. Of capnp the model keeps what the stubs hand to it.
pub mod Capnp
pub mod ItemStruct
pub mod AddParams
pub mod AddResults
pub mod RemoveParams
pub mod RemoveResults
pub mod SendParams
pub mod SendResults
pub mod PutParams
pub mod PutResults
pub mod ItemsParams
pub mod ItemsResults
pub mod MembersParams
pub mod MembersResults
pub mod IdParams
pub mod IdResults
pub mod Fields
pub mod Table
pub mod Schema
pub mod RaftClient
use raft_capnp.Prelude.{ℕ, Option, none, some, List, [], ◌∷◌, ◌++◌}

-- `capnp.Method`, with the names as ASCII codes left out: the two identifiers select the method.
pub record Method : Type 0 where
  pub interface_id : ℕ
  pub method_id : ℕ

-- `capnp.ObjectSize`
pub record ObjectSize : Type 0 where
  pub data_size : ℕ
  pub pointer_count : ℕ

-- `capnp.Send`: the size and the placing of the arguments are set only if there are parameters.
pub record Send (P : Type 0) : Type 0 where
  pub method : Method
  pub args_size : Option ObjectSize
  pub place_args : Option P

-- `Raft_TypeID`
abbrev pub raft_type_id : ℕ
raft_type_id = 0xbfb4702210603dcb

-- The methods of the interface.
pub data Name : Type 0 where
  add remove send put items members id : Name

abbrev pub method_of : ℕ → Method
method_of n = record { interface_id = raft_type_id; method_id = n }

-- The end of every stub: `if params != nil { … }`.
abbrev pub with_params : {P : Type 0} → Method → ℕ → Option P → Send P
with_params m pointers none = record { method = m; args_size = none; place_args = none }
with_params m pointers (some params) = record {
  method = m;
  args_size = some (record { data_size = 0; pointer_count = pointers });
  place_args = some params;
}

module _ {P : Type 0} where
  unfoldable pub call_add : Option P → Send P
  call_add params = with_params (method_of 0) 1 params

  unfoldable pub call_remove : Option P → Send P
  call_remove params = with_params (method_of 1) 1 params

  unfoldable pub call_send : Option P → Send P
  call_send params = with_params (method_of 2) 1 params

  unfoldable pub call_put : Option P → Send P
  call_put params = with_params (method_of 3) 1 params

  unfoldable pub call_items : Option P → Send P
  call_items params = with_params (method_of 4) 0 params

  unfoldable pub call_members : Option P → Send P
  call_members params = with_params (method_of 5) 0 params

  unfoldable pub call_id : Option P → Send P
  call_id params = with_params (method_of 6) 0 params

-- `Raft_Server`: a handler for each method.
pub record Server (H : Type 0) : Type 0 where
  pub on_add : H
  pub on_remove : H
  pub on_send : H
  pub on_put : H
  pub on_items : H
  pub on_members : H
  pub on_id : H

module _ {H : Type 0} where
  -- `Raft_Methods` appends the seven methods to those that it is given.
  unfoldable pub raft_methods : List (Method × H) → Server H → List (Method × H)
  raft_methods methods s =
      methods
      ++ (method_of 0, s.on_add)
        ∷ (method_of 1, s.on_remove)
        ∷ (method_of 2, s.on_send)
        ∷ (method_of 3, s.on_put)
        ∷ (method_of 4, s.on_items)
        ∷ (method_of 5, s.on_members)
        ∷ (method_of 6, s.on_id)
        ∷ []

-- What the library makes of a table, of the handlers, and of their way to shut down, if they have
-- one: a server, and a client of it.
module _ {H Shutdown Made : Type 0} (shutdowner : Server H → Option Shutdown)
    (make : List (Method × H) → Server H → Option Shutdown → Made) where
  -- `Raft_NewServer`
  unfoldable pub raft_new_server : Server H → Made
  raft_new_server s = make (raft_methods [] s) s (shutdowner s)

  -- `Raft_ServerToClient`
  unfoldable pub raft_server_to_client : {Client : Type 0} → (Made → Client) → Server H → Client
  raft_server_to_client new_client s = new_client (raft_new_server s)
