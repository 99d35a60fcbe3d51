-- ===== src/Tests.antt =====
-- A small cluster for the runs in the children: concrete answers of what the repository calls.
mod Rounds
mod Peers
mod Pauses
mod Runs
mod Races
mod Cluster
mod Served
mod Nodes
mod Wire
mod Messages
mod Supplied
use raft_capnp.Prelude.{
  refl, sym, ◌≡◌, ◌∙◌, ap, ℕ, zero, suc, ◌+◌, ◌%◌, ◌<◌, Option, none, some, List, [], ◌∷◌, ◌++◌,
  Bool, true, false, All, arith,
}
use raft_capnp.Data.{
  Bytes, Error, external, node_not_found, Raft, null, client, Item, Message, Entry, entry_normal,
  entry_conf_change, ConfChange, add_node, remove_node, ConfChangeType, Ready,
}
use raft_capnp.Apply.Membership.{Reachable}
use raft_capnp.Effect.{Env, Node, Result, ok, err, replied}

-- An encoding of items: the key with each byte raised by one, a zero, and the value.
abbrev pub encode_pair : Bytes → Bytes → Bytes
encode_pair [] value = 0 ∷ value
encode_pair (k ∷ key) value = suc k ∷ encode_pair key value

abbrev with_byte : ℕ → Result Item → Result Item
with_byte k (ok item) = ok (record item { key = k ∷ item.key })
with_byte k (err e) = err e

abbrev pub decode_item : Bytes → Result Item
decode_item [] = err (external 1)
decode_item (zero ∷ value) = ok (record { key = []; value = value })
decode_item (suc k ∷ rest) = with_byte k (decode_item rest)

decode-encode_pair :
    (key value : Bytes)
    → decode_item (encode_pair key value) ≡ ok (record { key = key; value = value })
decode-encode_pair [] value = refl
decode-encode_pair (k ∷ key) value = ap (with_byte k) (decode-encode_pair key value)

-- A hash of one byte.
abbrev sum : Bytes → ℕ
sum [] = 0
sum (b ∷ bytes) = b + sum bytes

abbrev pub one_byte : Bytes → Bytes
one_byte key = sum key % 256 ∷ []

pub one_byte-All : (key : Bytes) → All (λ b. b < 256) (one_byte key)
one_byte-All key = (omega arith, tt)

abbrev decode_message : Bytes → Result Message
decode_message [] = err (external 2)
decode_message (to ∷ rest) = ok (record { to = to; rest = rest })

-- A byte string of two: whether the node is added, and its identifier.
abbrev kind : ℕ → ConfChangeType
kind zero = add_node
kind (suc k) = remove_node

abbrev pub change : ℕ → ℕ → ConfChange
change k id = record { id = id; type = kind k; node_id = id }

abbrev decode_change : Bytes → Result ConfChange
decode_change (k ∷ id ∷ []) = ok (change k id)
decode_change _ = err (external 3)

-- The capability of the node with the identifier c is client c.
abbrev id_of : Raft → Result ℕ
id_of null = err (external 4)
id_of (client c) = ok c

-- Every call succeeds.
abbrev pub healthy : Env
healthy = record {
  store = λ t hard entries snapshot. none;
  on_new_value = none;
  retrieval = λ t id. replied (ok (client id));
  ctx_err = λ t. none;
  lead = λ t. 1;
  step = λ t msg. none;
  campaign = λ t. none;
  propose = λ t encoded. none;
  propose_conf_change = λ t cc. none;
  resolve = λ t c. none;
  get_id = λ t c. id_of c;
  send = λ t c encoded. none;
  is_empty_snap = λ s. true;
  marshal_message = λ msg. ok (msg.to ∷ msg.rest);
  unmarshal_message = decode_message;
  unmarshal_conf_change = decode_change;
  marshal_item = λ item. ok (encode_pair item.key item.value);
  unmarshal_item = decode_item;
  md5 = one_byte;
  range = λ t m. m;
}

pub healthy-Reachable : Reachable healthy (λ id. id)
healthy-Reachable = record { found = λ t id. refl; asked = λ t id. refl }

-- No peer can be found, stored to or sent to.
abbrev pub broken : Env
broken = record healthy {
  store = λ t hard entries snapshot. some (external 5);
  retrieval = λ t id. replied (err node_not_found);
  send = λ t c encoded. some (external 6);
}

pub encode-decodes :
    (i : Item) (b : Bytes) → healthy.marshal_item i ≡ ok b → healthy.unmarshal_item b ≡ ok i
encode-decodes i b h =
    let same : encode_pair i.key i.value ≡ b = ground arith in
    ap decode_item (sym same) ∙ decode-encode_pair i.key i.value

-- The node 1, which knows the nodes 2 and 3.
abbrev pub node_one : Node
node_one = record {
  id = 1;
  peers = (2, client 2) ∷ (3, client 3) ∷ [];
  items = [];
  paused = false;
  locked = false;
  queue_cap = 2;
  queue = [];
  trace = [];
}

abbrev pub greeting : Message
greeting = record { to = 2; rest = 7 ∷ [] }

abbrev pub own_message : Message
own_message = record { to = 1; rest = 8 ∷ [] }

abbrev pub apple : Item
apple = record { key = 10 ∷ []; value = 20 ∷ 21 ∷ [] }

abbrev pub put_entry : Item → Entry
put_entry item = record { type = entry_normal; payload = some (encode_pair item.key item.value) }

abbrev pub change_entry : ℕ → ℕ → Entry
change_entry k id = record { type = entry_conf_change; payload = some (k ∷ id ∷ []) }

-- A round that sends two messages, puts an item, removes node 3 and finds node 4.
abbrev pub busy_round : Ready
busy_round = record {
  hard_state = 1 ∷ [];
  entries = put_entry apple ∷ [];
  snapshot = [];
  messages = greeting ∷ own_message ∷ [];
  committed_entries = put_entry apple ∷ change_entry 1 3 ∷ change_entry 0 4 ∷ [];
}
