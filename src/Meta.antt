-- ===== src/Meta.antt =====
-- internal/meta: what the cluster keeps in etcd.
pub mod Etcd
pub mod Store
pub mod Entries
pub mod Manifests
pub mod Uploads
pub mod Writing
pub mod Keys
pub mod Tests
