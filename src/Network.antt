-- ===== src/Network.antt =====
-- Several nodes that send to one another: raft/helper.go at one node, raft/capnp.go at the next.
pub mod Sent
pub mod Genuine
