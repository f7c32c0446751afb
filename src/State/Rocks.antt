-- ===== src/State/Rocks.antt =====
-- crates/tcfs-sync/src/state.rs, `rocksdb_backend`: the cache that writes through to RocksDB. The
-- database and `serde_json` are parameters; `open`, which reads the database, is left out.
use tummycrypt.Prelude.{
  ℕ, ◌≡◌, ◌≢◌, not, Option, none, some, Str, ◌==◌, nat_eq, if◌then◌else◌, length,
}
use tummycrypt.Prelude.Dict.{Dict, lookup, insert, erase}
use tummycrypt.Fallible.{Result, ok, ◌>>=◌}
use tummycrypt.Disk
use tummycrypt.Disk.{Disk, metadata, mtime_of}
use tummycrypt.State.{SyncState, Hasher, Reason, new_file, size_changed, content_changed, path_key}

-- `rocksdb::DB` with `serde_json::to_vec`. A failed write is logged and passed over, so a write
-- gives the next state of the database only.
pub record Database : Type 1 where
  pub State : Type 0
  pub put : Str → Str → State → State
  pub delete : Str → State → State
  pub print : SyncState → Option Str

-- A database that does not fail, and what it has at a key.
pub record IsReliable (B : Database) : Type 0 where
  pub value : B.State → Str → Option Str
  pub value-put_self : (k v : Str) (s : B.State) → value (B.put k v s) k ≡ some v
  pub value-put_ne : (k v j : Str) (s : B.State) → k ≢ j → value (B.put k v s) j ≡ value s j
  pub value-delete_self : (k : Str) (s : B.State) → value (B.delete k s) k ≡ none
  pub value-delete_ne : (k j : Str) (s : B.State) → k ≢ j → value (B.delete k s) j ≡ value s j
  pub prints : (s : SyncState) → (json : Str) × (B.print s ≡ some json)

pub record RocksDbStateCache (B : Database) : Type 0 where
  pub db : B.State
  pub entries : Dict SyncState
  pub device_id : Str
  pub last_nats_seq : ℕ

module _ {B : Database} where
  unfoldable pub get : Disk → RocksDbStateCache B → Str → Option SyncState
  unfolding path_key
  get d c path = lookup (path_key d path) c.entries

  unfoldable pub set : Disk → RocksDbStateCache B → Str → SyncState → RocksDbStateCache B
  set d c path state = record c {
    db = elim (B.print state) [ some json ↦ B.put (path_key d path) json c.db | none ↦ c.db ];
    entries = insert (path_key d path) state c.entries;
  }

  unfoldable pub remove : Disk → RocksDbStateCache B → Str → RocksDbStateCache B
  remove d c path = record c {
    db = B.delete (path_key d path) c.db;
    entries = erase (path_key d path) c.entries;
  }

  -- Writes are through already.
  abbrev pub flush : RocksDbStateCache B → Result (Unit {0}) × RocksDbStateCache B
  flush c = (ok tt, c)

  unfoldable pub needs_sync : Hasher → Disk → RocksDbStateCache B → Str → Result (Option Reason)
  unfolding get metadata Disk.read
  needs_sync hash_hex d c path = do
    meta ← metadata d path
    let size = length meta.content
    let mtime = mtime_of meta
    elim (get d c path) [
      | none ↦ ok (some new_file)
      | some cached ↦
          if not (nat_eq cached.size size)
          then ok (some (size_changed cached.size size))
          else if not (nat_eq cached.mtime mtime)
          then (do
            data' ← Disk.read d path
            if hash_hex data' == cached.blake3 then ok none else ok (some content_changed))
          else ok none
    ]

  abbrev pub len : RocksDbStateCache B → ℕ
  len c = length c.entries
