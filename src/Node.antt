-- ===== src/Node.antt =====
-- pkg/node: the nodes of a mounted filesystem.
pub mod Metadata
pub mod File
pub mod Heap
pub mod Tree
pub mod Reload
pub mod Ino
pub mod Locks
