-- ===== src/Tests.antt =====
-- Concrete runs, and the theorems at concrete inputs.
mod Bits
mod Encoding
mod Storage
mod Disk
mod Node
mod Server
mod File
mod Remote
mod Tag
mod Tree
mod Reload
mod Client
mod Uri
mod Lifecycle
mod Session
mod Commands
mod History
mod Locks
