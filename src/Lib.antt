-- ===== src/Lib.antt =====
-- tummycrypt synchronises files between machines through an object store: a file is cut into chunks
-- that are stored under the hash of their content, a manifest lists the chunks of a file, a state
-- cache remembers what was synced, and vector clocks tell which device changed a file. This library
-- models that core and proves what keeps it correct.
--
-- The parts, with the code each is about:
-- - Conflict: crates/tcfs-sync/src/conflict.rs. `VectorClock`, `partial_cmp_vc`, `compare_clocks`,
--   and `resolve` of `AutoResolver`. A clock is an association list from devices to counters, read
--   by its first entry for a device; the counters wrap at 2^64, as in a release build.
-- - Manifest: crates/tcfs-sync/src/manifest.rs. `from_bytes` with the JSON and the text format.
-- - State: crates/tcfs-sync/src/state.rs, the JSON cache. `open_cache` is `StateCache::open`.
-- - Chunks: crates/tcfs-chunks/src/fastcdc.rs and blake3.rs, and in Chunks.Seekable the frames of
--   seekable_zstd.rs; an index out of range is the error `panicked`.
-- - Crypto: crates/tcfs-crypto/src/chunk.rs and keys.rs, and in Crypto.Names names.rs.
-- - Remote: the object store behind `opendal::Operator` and the keys that the engine uses in it.
-- - Engine: crates/tcfs-sync/src/engine.rs. `Engine.Upload` and `Engine.Download` cut the two long
--   functions into one function for each part, in the order of the code; `store` is what follows
--   the tick of the clock, `finish` what follows the look at the remote manifest.
-- - Engine.Collect and Engine.Tree: `collect_files`, with crates/tcfs-sync/src/git_safety.rs, and
--   `push_tree_with_device` of the same file. A directory is a tree of entries; the disk and the
--   draws that each file meets are given by its index.
-- - State.Rocks and State.Backend: the RocksDB cache of state.rs and `StateBackend`, which chooses
--   between the two.
-- - Engine.Marked and Worker.Saved: that a change of the state cache is marked, and saved behind a
--   push.
-- - Engine.Restore: when the files of a store can be had back, and the history of a store as a
--   sequence of uploads.
-- - Fuse: Fuse.Index is `IndexEntry` and Fuse.Stub is `StubMeta`, with the names of stubs, of
--   crates/tcfs-fuse/src/stub.rs; Fuse.NegativeCache is negative_cache.rs. Fuse.Cache is cache.rs,
--   Fuse.Hydrate is hydrate.rs, and Fuse.Mount and Fuse.Driver are driver.rs: the state of a
--   mounted file system and the calls of the kernel, `open`, `read` and `release` in
--   Fuse.Driver.Files and the listings in Fuse.Driver.Listing. `find_path` is what `getattr` and
--   `lookup` have in common.
-- - Worker: the tasks and events of crates/tcfs-sync/src/nats.rs, and `dispatch_task` and
--   `execute_task` of crates/tcfsd/src/worker.rs.
-- - Daemon: crates/tcfsd/src/grpc.rs, the calls `pull`, `hydrate`, `unsync`, `sync_status` and
--   `resolve_conflict`, the last in one function for each resolution. The lock of the operator is a
--   part of the state, and a call that takes it twice has no answer.
-- - Devices: the registry of crates/tcfs-secrets/src/device.rs; Devices.Store is its file and its
--   object.
-- - Secrets: the rotation of credentials and the cleanup of backups of
--   crates/tcfs-secrets/src/rotate.rs. `prepare` are the steps before the file is replaced.
-- - Sops: `SopsDiff` of crates/tcfs-sops/src/diff.rs, in Sops.Backup the write with a backup of
--   merge.rs, and in Sops.Sync the scan, push and pull of lib.rs.
-- - Config: the configuration of crates/tcfs-core/src/config.rs and its default values.
-- - Cli: crates/tcfs-cli/src/main.rs. Cli.Unsync is the command `unsync`, Cli.Identity the commands
--   `init`, `device enroll` and `device revoke`.
-- - Platform: the upload and the fetch of crates/tcfs-file-provider/src/lib.rs, and
--   `handle_fetch_data` of crates/tcfs-cloudfilter/src/hydration.rs. The loop over the chunks is
--   the same in both and stands in Platform.
-- - Disk, Fallible and Exec: what the program uses of `std::fs`, where a disk may refuse a path, or
--   hide the metadata of a file that is there, `anyhow::Result`, and code that changes a state and
--   may fail.
--
-- How the parts interact: an upload asks the state cache whether the file changed, cuts and hashes
-- it, looks at the remote manifest, writes the chunks, then the manifest, then the entry of the
-- cache. A download reads the manifest, then every chunk, checks each hash and the hash of the
-- whole, puts the file in place by a rename, and merges the clock of the manifest into the entry of
-- the cache. An action is a function from a state to a result and the next state, so what was done
-- before a failure stays done.
--
-- Parameters: the object store and its listing, the listing of directories, the database behind
-- RocksDB, `blake3`, `fastcdc`, `glob`, `serde_json`, `serde_yml`, `zstd`, the `sops` program, the
-- ciphers, base64, and what the random generator draws. A theorem that relies on one of them has
-- its documented behaviour as a hypothesis, such as `Remote.IsLawful` (a request that fails may
-- have reached the store or not, and no request touches another object), `Manifest.IsLawful` (what
-- is printed is read back) and `IsTiling` (the cuts stand one behind the other). Strings and paths
-- are lists of bytes. The order in which a `HashMap` gives its entries is an argument, `Iteration`.
--
-- Bounds: every loop of the code runs over a list or a tree. The one function on fuel prints a
-- number in decimal; its fuel is one more than the number, which is enough since each digit divides
-- it by ten. Sizes, times and counts are unbounded numbers, except for the counters of the clocks,
-- the counter of file handles and the index of a chunk in its associated data.
--
-- Not modelled: logging and progress callbacks; partial writes of a temporary file, which nothing
-- reads (a copy that fails may leave a part, `leaves` of a disk); `RocksDbStateCache::open` and the
-- flush when a cache is dropped; the other calls of the daemon and its start, the commands of the
-- command line that show what the engine or the daemon do; the enumeration and the placeholders of
-- the bindings for other systems, and their handling of memory; the NATS client, and the loop that
-- takes tasks from it; the contents of errors beyond the place that raised them.
pub mod Prelude
pub mod Conflict
pub mod Fallible
pub mod Manifest
pub mod Disk
pub mod State
pub mod Chunks
pub mod Crypto
pub mod Exec
pub mod Remote
pub mod Engine
pub mod Fuse
pub mod Worker
pub mod Daemon
pub mod Devices
pub mod Secrets
pub mod Sops
pub mod Config
pub mod Cli
pub mod Platform
mod Tests
