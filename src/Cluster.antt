-- ===== src/Cluster.antt =====
-- internal/cluster: the coordinator.
pub mod Collect
pub mod Nodes
pub mod Replicate
pub mod Erasure
pub mod Put
pub mod Objects
pub mod List
pub mod Walk
pub mod Repair
pub mod Rebalance
pub mod Scrub
pub mod Uploads
pub mod Tests
