-- ===== src/Lib.antt =====
-- CryptFS is a distributed filesystem. A mounted client keeps its files' metadata on a metadata
-- server, as versioned values under 20-byte keys, and their contents as blobs under their hashes.
-- Client and server exchange messages over a connection; the server applies them to a store and
-- sends each accepted put on to the other clients.
--
-- The files, and the code that each is about:
-- - Prelude and the modules below it: shared names, byte strings, Go maps as association lists,
--   texts and hexadecimal.
-- - Bits (pkg/bits/bits.go): the byte layout of integers and strings. Bits.Wire describes the
--   bytes by arithmetic, Bits.RoundTrip reads back what was written.
-- - Message (pkg/message/message.go): kinds, messages, their constructors and accessors.
-- - Message.Text (pkg/message/message.go): the text of messages for log lines.
--   Message.Text.Bounds is about its length.
-- - Generator: a generator of numbers, as steps of its goroutine and of its callers. Message.Tag
--   (pkg/message/tag.go) and Node.Ino (pkg/node/ino.go) are the generators of tags and of inode
--   numbers, which differ in the first number and the next one.
-- - Message.Encoding (pkg/message/encoding.go): the encoder and the decoder, as records of their
--   buffer and offset that each call takes and returns. Its children hold the wire format and the
--   proofs.
-- - Storage (pkg/storage/store.go): the interfaces of stores and their errors. Storage.InMemory,
--   Storage.Versioned, Storage.Blobs, Storage.Paired, Storage.Disk and Storage.Apply are
--   inmemory.go, the versioned wrapper of store.go, blobstore.go, paired.go, disk.go and
--   message.go of pkg/storage.
-- - Storage.Uri (pkg/storage/store.go): the URIs of stores, and NewStore. Storage.Bitcask
--   (pkg/storage/bitcask.go): the store over a bitcask database.
-- - Storage.Remote (pkg/storage/remote.go) and BlobServer (cmd/blob.go): the remote store and the
--   server's handler over its disk store. BlobServer.Remote puts the two together over a network that delivers.
-- - Node.Metadata (pkg/node/metadata.go): a node's metadata to bytes and back.
-- - Node.File (pkg/node/node.go, metadata.go): a node with its content, attributes and children,
--   its operations on them, and sync, which saves the node to the blobs and the metadata server.
--   Node.File.Content, Node.File.Sync and Node.File.Saved hold the proofs on content, on failed
--   operations, and on what is saved. Node.File.Setattr is Setattr, which changes several attributes
--   at once.
-- - Node.Heap (pkg/node/nodefcatory.go): nodes that lead to each other, as cells of a heap, with the
--   map of known nodes and their invalidation.
-- - Node.Tree (pkg/node/node.go): Rmdir, Create, Mkdir, Symlink and Rename over the heap.
-- - Node.Reload (pkg/node/node.go, metadata.go): LoadMetadata, reloadIfNeeded, Lookup, Opendir,
--   Getattr and Open. Its children hold the proof that a reload brings what the server holds:
--   Child and Merge on the keys of the children, Load on the nodes made for them, Kept on what merging
--   leaves, Returns on that it returns, Coherence and Refresh on a directory, New and Known on the whole.
-- - Node.Locks (pkg/node/node.go): the mutexes that the operations take, as steps that interleave.
--   Node.Locks.Order and Node.Locks.Return are about calls that take them downwards,
--   Node.Locks.Rename about two Renames between the same directories.
-- - Server (pkg/network/server/server.go, conn.go): options, authorization, a round of a
--   connection, broadcasts. Server.Locked is the server as steps that interleave. Server.Session is
--   a whole connection, with the abstract server that it implements. Server.History is about the
--   puts that are accepted over all connections. Server.Lifecycle is Serve,
--   Shutdown, the sockets, the connections' ids and the server's mutex as steps that interleave.
-- - Client (pkg/network/client/client.go): the cached connection, Send and Receive. Client.Tidy is
--   the client as steps that interleave, Client.Send and Client.Receive are about a whole call.
-- - System: one client's put on its way through the server to another client's node.
-- - Commands (cmd/root.go, pkg/version.go): the level of logging, the configuration, the version.
--   Commands.Servers (cmd/meta.go, cmd/blob.go) is how the servers start, Commands.Mount
--   (cmd/mount.go) how a file system is mounted, and Commands.Mount.Root is about its root.
-- - Tests: concrete runs and instances.
--
-- How the code is modelled. A byte is a number below 256, a string or []byte a list of bytes, an
-- unsigned integer a number whose wrap-around is written out. Code that may panic returns an
-- Option, where none is the panic; an error value is an Option of an error, where none is nil.
-- Methods take the receiver's state and return the new one. A mutex that serializes the calls of
-- an object has no counterpart, but in Node.Locks: each call is one step. The capacity of a slice
-- is its length, but for a node's content, where it matters. A store is a record of its state type
-- and its two operations (Storage.Store); what a client relies on is the record IsMap, which the
-- in-memory store provides. Blake2b, the operating system's files, fmt's quoting of keys and the
-- connections' ends, dialing, the bitcask library, net/http, bcrypt, cobra, viper and go-fuse's
-- mount are parameters.
--
-- Four functions run on fuel. The write-back loop of pkg/storage/paired.go tries until the slow store
-- takes a value; over a map one try is enough for each value. The loop of unserialize over the
-- children has the number of the bytes that are left, and each round takes four or more. repr of
-- pkg/message/message.go calls itself on hexadecimal, which is printable, so one round is enough.
-- A number is printed in 20 rounds at most, one for each digit, which is enough for 64 bits.
--
-- Not modelled: logging, the random test helpers, signals, the password tool, which is terminal
-- input and output, and go-fuse's own tree of inodes, which follows the nodes' maps of children.
-- The stores that cmd/mount.go composes are not put together, since the remote versioned store
-- that it names is nowhere defined: System takes the metadata that a reload reads from the
-- server's store.
pub mod Prelude
pub mod Generator
pub mod Bits
pub mod Message
pub mod Storage
pub mod Tests
pub mod Node
pub mod BlobServer
pub mod Server
pub mod Client
pub mod System
pub mod Commands
