-- ===== src/Index.antt =====
-- internal/repository/index: the in-memory index of blobs.
pub mod HashedArrayTree
pub mod IndexMap
pub mod PackIndex
pub mod MasterIndex
pub mod AssociatedSet
