-- ===== src/Lib.antt =====
-- raft-capnp: a node of a Raft cluster whose members talk over Cap'n Proto capabilities, with the
-- consensus itself left to etcd's raft library.
--
-- The parts and how they interact. A node (raft/node.go) runs one loop (`Start`) that receives
-- ticks, rounds of etcd (`Ready`), pause flags and the end of its context. A round is stored, its
-- messages are sent to the peers of the view (raft/view.go, raft/helper.go), and its committed
-- entries change the items (raft/item.go) or the members. Other nodes reach the node through the
-- methods that it serves (raft/capnp.go), which propose to etcd, hand it messages, or queue them
-- while the node is paused; the stubs and the table of those methods are generated
-- (proto/api/raft.capnp.go). raft/config.go builds a node before it is started.
--
-- The files.
--   Prelude   shared names; lists over the native numbers, association lists, equality
--   Data      the values that the parts exchange, with those of etcd's raft as far as they are read
--   Effect    the state of a running node (`Node`), the calls that leave the repository (`Act`, kept
--             in a trace), their answers (`Env`), and the actions that the methods are written in;
--             Effect/Keeps, Effect/Frames and Effect/Logs carry what an action keeps or logs
--   Item      raft/item.go: `Put` and `Get` of `ItemMap` are `put` and `get`; Item/Convert is
--             `ItemFromApi`, on buffers with addresses, and Item/ToApi is `ItemToApi`
--   Helper    raft/helper.go: `rpcGetId`, `rpcSend`
--   View      raft/view.go: `NewView`, `Peers`, `AddPeer`, `PopPeer`; View/Abstract takes the peers
--             without the order in which a map holds them, as a quotient
--   Cluster   raft/node.go: `retrieve`, `retrieveWithTimeout`, `register`, `unregister`, `addNode`,
--             `removeNode` (`apply_add_node` and `apply_remove_node`)
--   Apply     raft/node.go: `doReady`, `addEntry`, `addConfChange`, `sendMessages`; Apply/Entries and
--             Apply/Membership are the logs of entries as the abstract view of items and peers
--   Pause     raft/node.go: `doPause`, `waitPause`, `churnQueue`, `IsPaused`, `setPaused`, `Pause`,
--             `Resume`; Pause/Waiting goes on with a pause that waits, Pause/Lock is about the lock,
--             and Pause/Counts and Pause/Losses count the messages that reach etcd or the queue, as
--             Apply/Counts, Rpc/Counts and their Losses do for rounds and for served calls
--   Rpc       raft/capnp.go: the operations (`add`, `remove`, `send`, `put_item`) and the handlers
--             (`handle_add` for `Add`, and so on); Rpc/Frames is what every served call but `Send`
--             keeps, Rpc/Calls makes a served call, or the end of a `Send` that has tested the pause
--             flag (`end_of_send`), a step of the node, Rpc/Wire follows a call from
--             one node to another, and Rpc/Cap is `Cap` of raft/node.go
--   Api       proto/api/raft.capnp.go: `call_send` is the stub `Send`, `raft_methods` the table;
--             Api/Capnp is what the generated code calls of the Cap'n Proto library, with the laws
--             that it documents, and Api/AddParams and the like are the structs with their
--             accessors; Api/RaftClient is the client, and Api/Schema is `RegisterSchema`
--   PointerList  raft/capnp_utils.go
--   Config    raft/config.go, and `New`, `lateConfig` and `Init` of raft/node.go; Config/Race is a
--             `Send` of a node so built that `Resume` overtakes
--   Loop      raft/node.go: `Start` and `Stop`; Loop/Reach is the runs, Loop/History and
--             Loop/Membership what they do to items and members, Loop/Logs, Loop/Replicas and
--             Loop/Agree two runs on one log, Loop/Messages and Loop/Exactly what becomes of
--             messages, Loop/Unbuffered the queue of the nodes that can be built, Loop/Pausing the
--             loop that waits, Loop/Lock, Loop/Held and Loop/Raced the pause lock, and Loop/End
--             `doStop` and the closed channel
--   Network   several nodes that send to one another: Network/Sent is what a node sends, and
--             Network/Genuine the runs of a cluster
--   Defaults  raft/defaults.go and raft/consts.go; External  raft/external.go
--   Example   example/main.go: `retrieve`, how the nodes are built, and `main` (Example/Main)
--   Tests     a small cluster of concrete answers, a small memory of messages (Tests/Wire), and runs
--             of the above on them
--
-- How code becomes definitions. A method is an `Action`: it takes the node and gives an outcome and
-- the node afterwards. The outcome is a value, an error, or `blocked` where the goroutine waits for
-- another one: for the pause lock, for room in the queue, or for an event. What the repository
-- does not implement (etcd, the transport, JSON, MD5, the functions of the user) is an argument
-- `Env`, whose answers may depend on everything that was called before. A capability is `null` or a
-- numbered client, and taking and releasing a reference are calls in the trace. The generated code
-- runs over a record `Capnp`, whose `Memory` is what all messages hold.
--
-- Orderings. A run of a node (Loop/Reach) is a sequence of steps: rounds of the loop on the events
-- that `select` receives, calls of `Stop`, served calls, the end of the loop, and what a loop that
-- waits in a pause does with the events that come then (`resume`), so that calls are served in the
-- middle of a pause. `Send` reads the pause flag and takes the lock again in two critical sections:
-- besides the call in one step there is its second part as a step of its own (`going_on_send`), at
-- any time later and with either answer of the test. `doPause` leaves `waitPause` and takes the lock
-- of `churnQueue` in two critical sections as well, so that a loop that waits can also stop between
-- them (`wake`). Otherwise a step is not interrupted by another one; a served call that waits never
-- comes back, and leaves the node as it is when it starts to wait. The goroutine that
-- sends an error to the stop channel is taken to read it in the round that starts it. A round is not
-- interrupted where it calls other nodes; that such a call is answered is up to the environment. A
-- run of a cluster (Network/Genuine) is a sequence of steps of its nodes, whose network may delay,
-- repeat and reorder what a node has sent, and delivers nothing else.
--
-- The capacity of the queue. It is a field of the node (`queue_cap`), as it is a parameter of `make`;
-- `New` makes it 0, and nothing else in the source sets it.
--
-- Bounds and fuel. No definition runs on fuel: the loop of `register` runs on the rounds that
-- RetrievalRetries leaves, the loop of `churnQueue` on what the queue holds, and every other loop on
-- a list. Identifiers are natural numbers that the code only compares, so that their width plays
-- no part.
--
-- Not modelled: logging; the bodies of goroutines that only forward a value; what the stubs pass on
-- unread (the names of methods); the bytes of the schema in proto/api/raft.capnp.go, which only the
-- library reads; in example/main.go, how long it sleeps and what it prints; the cast of a length to
-- `int32` in raft/capnp_utils.go.
pub mod Prelude
pub mod Data
pub mod Effect
pub mod Item
pub mod Helper
pub mod View
pub mod Cluster
pub mod Apply
pub mod Pause
pub mod Rpc
pub mod Api
pub mod Config
pub mod Loop
pub mod Network
pub mod Defaults
pub mod External
pub mod PointerList
pub mod Example
mod Tests
