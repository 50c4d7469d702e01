-- ===== src/Ipam.antt =====
-- pkg/ipam: the address management of a node, its checkpoints, and the blocks of the cluster.
pub mod Node
pub mod Controller
pub mod Checkpoint
