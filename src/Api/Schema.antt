-- ===== src/Api/Schema.antt =====
-- proto/api/raft.capnp.go: the nodes of the schema that `RegisterSchema` registers.
use raft_capnp.Prelude.{refl, ◌≡◌, ℕ, suc, List, [], ◌∷◌, length, if◌then◌else◌}
use raft_capnp.Prelude.Eq.{◌==◌, nat_eq}
use raft_capnp.Data.{Bytes}
use raft_capnp.Api.{raft_type_id}
use raft_capnp.Api.Capnp.{Capnp, text_or_empty}
use raft_capnp.Api.AddParams
use raft_capnp.Api.AddResults
use raft_capnp.Api.RemoveParams
use raft_capnp.Api.RemoveResults
use raft_capnp.Api.SendParams
use raft_capnp.Api.SendResults
use raft_capnp.Api.PutParams
use raft_capnp.Api.PutResults
use raft_capnp.Api.ItemsParams
use raft_capnp.Api.ItemsResults
use raft_capnp.Api.MembersParams
use raft_capnp.Api.MembersResults
use raft_capnp.Api.IdParams
use raft_capnp.Api.IdResults
use raft_capnp.Api.ItemStruct

unfoldable pub schema_nodes : List ℕ
schema_nodes =
    0x9c4beb6b068077a3 ∷ 0xa8563660e0af9da4 ∷ 0xae462da6618b7135 ∷ 0xb009687519b3f38f
    ∷ 0xb1f8c610d8dbb7dd ∷ 0xbd2f697b2c16b9a9 ∷ 0xbfb4702210603dcb ∷ 0xc07b385c303c1f57
    ∷ 0xc6f8efbe9e7d5983 ∷ 0xd063789821634bd8 ∷ 0xeb05cc390961a49a ∷ 0xf139b86f408c2bb0
    ∷ 0xf16297be3b2d1ee4 ∷ 0xf26fa267f7ea2066 ∷ 0xf561891b2176587a ∷ 0xf9ef9a25541688ef ∷ []

-- The structs of the schema.
pub data StructName : Type 0 where
  add_params add_results remove_params remove_results send_params send_results put_params
        put_results items_params items_results members_params members_results id_params id_results
        item_struct :
      StructName

abbrev pub type_id_of : StructName → ℕ
type_id_of add_params = AddParams.type_id
type_id_of add_results = AddResults.type_id
type_id_of remove_params = RemoveParams.type_id
type_id_of remove_results = RemoveResults.type_id
type_id_of send_params = SendParams.type_id
type_id_of send_results = SendResults.type_id
type_id_of put_params = PutParams.type_id
type_id_of put_results = PutResults.type_id
type_id_of items_params = ItemsParams.type_id
type_id_of items_results = ItemsResults.type_id
type_id_of members_params = MembersParams.type_id
type_id_of members_results = MembersResults.type_id
type_id_of id_params = IdParams.type_id
type_id_of id_results = IdResults.type_id
type_id_of item_struct = ItemStruct.type_id

abbrev pub to_string_of : (c : Capnp) → StructName → c.Struct → c.Memory → Bytes
to_string_of c add_params = AddParams.to_string c
to_string_of c add_results = AddResults.to_string c
to_string_of c remove_params = RemoveParams.to_string c
to_string_of c remove_results = RemoveResults.to_string c
to_string_of c send_params = SendParams.to_string c
to_string_of c send_results = SendResults.to_string c
to_string_of c put_params = PutParams.to_string c
to_string_of c put_results = PutResults.to_string c
to_string_of c items_params = ItemsParams.to_string c
to_string_of c items_results = ItemsResults.to_string c
to_string_of c members_params = MembersParams.to_string c
to_string_of c members_results = MembersResults.to_string c
to_string_of c id_params = IdParams.to_string c
to_string_of c id_results = IdResults.to_string c
to_string_of c item_struct = ItemStruct.to_string c

abbrev pub count : ℕ → List ℕ → ℕ
count a [] = 0
count a (x ∷ xs) = if x == a then suc (count a xs) else count a xs

-- The schema has the sixteen nodes of the interface and its structs, each once; and each struct is
-- printed by the node that has its own type.
schema_complete :
    (c : Capnp) (name : StructName) (s : c.Struct) (m : c.Memory)
    → (count (type_id_of name) schema_nodes ≡ 1)
      × (count raft_type_id schema_nodes ≡ 1)
      × (length schema_nodes ≡ 16)
      × (to_string_of c name s m ≡ text_or_empty (c.marshal_text (type_id_of name) s m))
unfolding schema_nodes AddParams.to_string AddResults.to_string RemoveParams.to_string
    RemoveResults.to_string SendParams.to_string SendResults.to_string PutParams.to_string
    PutResults.to_string ItemsParams.to_string ItemsResults.to_string MembersParams.to_string
    MembersResults.to_string IdParams.to_string IdResults.to_string ItemStruct.to_string
schema_complete c add_params s m = (refl, refl, refl, refl)
schema_complete c add_results s m = (refl, refl, refl, refl)
schema_complete c remove_params s m = (refl, refl, refl, refl)
schema_complete c remove_results s m = (refl, refl, refl, refl)
schema_complete c send_params s m = (refl, refl, refl, refl)
schema_complete c send_results s m = (refl, refl, refl, refl)
schema_complete c put_params s m = (refl, refl, refl, refl)
schema_complete c put_results s m = (refl, refl, refl, refl)
schema_complete c items_params s m = (refl, refl, refl, refl)
schema_complete c items_results s m = (refl, refl, refl, refl)
schema_complete c members_params s m = (refl, refl, refl, refl)
schema_complete c members_results s m = (refl, refl, refl, refl)
schema_complete c id_params s m = (refl, refl, refl, refl)
schema_complete c id_results s m = (refl, refl, refl, refl)
schema_complete c item_struct s m = (refl, refl, refl, refl)
