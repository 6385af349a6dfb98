-- ===== src/Lib.antt =====
-- S5: content-addressed storage with mutable registries and directories, a Rust workspace.
--
-- Parts, and how they interact. Registry entries (s5_core/src/stream) are messages under a key, with a
-- revision and a payload hash; a registry (trait RegistryApi) holds one message for each key and keeps
-- the greatest. Registries are an in-memory map, a database table, the files of a store, a tee of two,
-- a set of backends with a write policy, and a client that reaches one over the network (s5_registry,
-- registries/redb, registries/store). A store (s5_core/src/store.rs) maps paths to bytes. Blobs are
-- named by hash and size (s5_core/src/blob); a server (s5_blobs) lets its peers query, upload, download,
-- pin and delete them by access rules and by pins, which lie in a registry. Directories (s5_fs) are
-- snapshots that list child directories and files; an actor holds one of them, merges the snapshots of
-- other devices into it, splits it into shards when it grows large, moves files into new child
-- directories and lists its entries by pages. Garbage collection keeps what directories reach.
--
-- Files:
--   Base            lists, bytes, results, orders and fixed-width words that all parts share
--   BTreeMap        a sorted association list, for BTreeMap, HashMap, DashMap and database tables
--   Stream          StreamKey, MessageType, StreamMessage, StreamMessage::new
--                   (s5_core/src/stream/types/mod.rs); Stream/Wire its wire format, Stream/Keys the
--                   order of keys, Stream/Ranking its Ord and should_store (order.rs)
--   Store           trait Store (s5_core/src/store.rs), Store/Memory blob_stores/memory/src/lib.rs,
--                   Store/Contract what clients of a store rely on
--   Registry        trait RegistryApi (s5_core/src/stream/mod.rs) and MemoryRegistry
--                   (s5_registry/src/lib.rs); Registry/Contract what it is to implement a registry
--   Registry/Redb   registries/redb/src/lib.rs
--   Registry/Backed registries/store/src/lib.rs
--   Registry/Tee, Registry/Multi, Registry/Remote
--                   TeeRegistry, MultiRegistry, and the server and client of s5_registry/src/lib.rs
--   Blob            s5_core/src/blob/location.rs and identifier.rs
--   Blob/Paths      s5_core/src/blob/paths.rs, and Blob/Store BlobStore (store.rs, read.rs)
--   Blob/Import     s5_core/src/blob/import.rs
--   Blob/Rpc        s5_blobs/src/rpc.rs and config.rs
--   Blob/Server     BlobsServer (s5_blobs/src/net_protocol.rs): the handlers and their dispatch, with
--                   Blob/Query (handle_query) and Blob/Download (the loop of handle_download)
--   Blob/Client     s5_blobs/src/client.rs; Blob/Remote store_remote.rs, the store that a client makes
--                   of a server; Blob/Fetcher multi_fetcher.rs
--   Pins            trait Pins and RegistryPinner (s5_core/src/pins) over any registry
--   Fs/Gc           s5_fs/src/gc.rs: Fs/Gc/Reachable, Fs/Gc/Sweep, Fs/Gc/Accounting, and
--                   Fs/Gc/Walk (collect_fs_reachable_hashes)
--   Fs/Dir          s5_fs/src/dir.rs
--   Fs/Actor        the state of DirActor (s5_fs/src/actor.rs)
--   Fs/Merge        s5_fs/src/actor/merge.rs
--   Fs/Sharding     the split of a directory in s5_fs/src/actor/sharding.rs, Fs/Sharding/Split its shard
--   Fs/Snapshots    export_merged_snapshot (s5_fs/src/actor/snapshots.rs)
--   Fs/CreateDir    create_dir_at (s5_fs/src/actor.rs) and extract_child_dir_state
--   Fs/Tree         the tree of directory actors: route_to_child and the message PathOp
--                   (s5_fs/src/actor.rs), with Fs/Tree/Promotion (check_auto_promote, promote_prefix and
--                   optimize_dir_structure of s5_fs/src/actor/sharding.rs, open_dir) and Fs/Tree/Api (the
--                   calls of FS5 on paths, s5_fs/src/api.rs)
--   Fs/SnapshotIndex s5_fs/src/snapshots.rs
--   Fs/Listing      s5_fs/src/actor/listing.rs, with the cursors of s5_fs/src/api.rs
--   Examples        concrete runs
--
-- State is passed explicitly: an operation that changes its object returns the object after the call,
-- together with its result, also when the result is an error. Async calls are sequential here; a lock
-- or a transaction around a call makes it one step. Bytes and the characters of paths are numbers; the
-- types of the Rust fields (arrays of fixed length, u64) are predicates where a theorem needs them. Loops
-- are over lists, but that over a version chain in Fs/Gc: its fuel is the number of files in the chain,
-- one for each turn. The loop for the name of a snapshot has fuel for one turn more than there are
-- snapshots, since each turn but the last finds another name taken. A download has as much fuel as bytes
-- to send, since each turn sends one or more. optimize_dir_structure has as much fuel as its longest path
-- has bytes, since each level takes a part of every path it moves. The walk of Fs/Gc/Walk has fuel for one
-- turn more than there are hashes of directories, since it queues a directory once for each hash.
--
-- Not modelled: network and file system I/O, hashing, encryption and the derived CBOR codecs, whose
-- results are parameters where an operation needs them; the mailboxes, the autosave timer and the saving
-- of directory actors, where messages cross each other; the command line, FUSE, the importers and the
-- bindings.
pub mod Base
pub mod BTreeMap
pub mod Stream
pub mod Store
pub mod Registry
pub mod Blob
pub mod Pins
pub mod Fs
pub mod Examples
