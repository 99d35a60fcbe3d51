-- ===== src/Api/Table.antt =====
-- The stubs and the table of methods agree.
use raft_capnp.Prelude.{
  ◌∙◌, refl, ◌≡◌, ◌≢◌, Option, none, some, List, [], ◌∷◌, ◌++◌, ◌&&◌, Bool, if◌then◌else◌, All,
  arith, nat_beq, nat_beq_iff,
}
use raft_capnp.Api.{
  Method, Send, raft_type_id, Name, add, remove, send, put, items, members, id, Server,
  raft_methods, call_add, call_remove, call_send, call_put, call_items, call_members, call_id,
}

-- The stub and the handler of a method, by its name.
abbrev pub stub : {P : Type 0} → Name → Option P → Send P
stub add = call_add
stub remove = call_remove
stub send = call_send
stub put = call_put
stub items = call_items
stub members = call_members
stub id = call_id

abbrev pub handler : {H : Type 0} → Server H → Name → H
handler s add = s.on_add
handler s remove = s.on_remove
handler s send = s.on_send
handler s put = s.on_put
handler s items = s.on_items
handler s members = s.on_members
handler s id = s.on_id

abbrev pub same_method : Method → Method → Bool
same_method a b = nat_beq a.interface_id b.interface_id && nat_beq a.method_id b.method_id

-- The handlers that a table has for a method.
abbrev pub serving : {H : Type 0} → Method → List (Method × H) → List H
serving m [] = []
serving m (e ∷ table) = if same_method e.0 m then e.1 ∷ serving m table else serving m table

-- A table of methods of other interfaces.
abbrev pub Foreign : {H : Type 0} → List (Method × H) → Type 0
Foreign = All (λ e. e.0.interface_id ≢ raft_type_id)

Foreign-serving :
    {H : Type 0} (m : Method) (methods table : List (Method × H))
    → m.interface_id ≡ raft_type_id
    → Foreign methods
    → serving m (methods ++ table) ≡ serving m table
Foreign-serving m [] table own h = refl
Foreign-serving m (e ∷ methods) table own h =
    ground
      (arith, Foreign-serving m methods table own h.1, nat_beq_iff e.0.interface_id m.interface_id)

stub-interface :
    {P : Type 0} (name : Name) (params : Option P)
    → (stub name params).method.interface_id ≡ raft_type_id
unfolding call_add call_remove call_send call_put call_items call_members call_id
stub-interface add (some p) = refl
stub-interface add none = refl
stub-interface remove (some p) = refl
stub-interface remove none = refl
stub-interface send (some p) = refl
stub-interface send none = refl
stub-interface put (some p) = refl
stub-interface put none = refl
stub-interface items (some p) = refl
stub-interface items none = refl
stub-interface members (some p) = refl
stub-interface members none = refl
stub-interface id (some p) = refl
stub-interface id none = refl

own_serving :
    {H P : Type 0} (s : Server H) (name : Name) (params : Option P)
    → serving (stub name params).method (raft_methods [] s) ≡ handler s name ∷ []
unfolding raft_methods call_add call_remove call_send call_put call_items call_members call_id
own_serving s add (some p) = refl
own_serving s add none = refl
own_serving s remove (some p) = refl
own_serving s remove none = refl
own_serving s send (some p) = refl
own_serving s send none = refl
own_serving s put (some p) = refl
own_serving s put none = refl
own_serving s items (some p) = refl
own_serving s items none = refl
own_serving s members (some p) = refl
own_serving s members none = refl
own_serving s id (some p) = refl
own_serving s id none = refl

-- Appended to methods of other interfaces, the table serves the call that a stub makes by exactly
-- one handler: the one with the stub's name.
pub stub_served :
    {H P : Type 0} (methods : List (Method × H)) (s : Server H) (name : Name) (params : Option P)
    → Foreign methods
    → serving (stub name params).method (raft_methods methods s) ≡ handler s name ∷ []
unfolding raft_methods
stub_served methods s name params foreign =
    Foreign-serving (stub name params).method methods (raft_methods [] s)
      (stub-interface name params) foreign
    ∙ own_serving s name params
