-- ===== src/Cluster/Tests.antt =====
-- Puts, reads and decodes of a cluster of three nodes, one of which is down.
pub mod World
pub mod Puts
pub mod Reads
pub mod Completions
pub mod Passes
pub mod Scrubs
