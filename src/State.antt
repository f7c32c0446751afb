-- ===== src/State.antt =====
-- crates/tcfs-sync/src/state.rs: the cache of what was synced, kept in a JSON file. `serde_json`
-- and BLAKE3 are parameters.
pub mod Cache
pub mod Flush
pub mod Freshness
pub mod Rocks
pub mod Backend
use tummycrypt.Prelude.{
  ℕ, ◌≡◌, Bool, true, false, not, ◌||◌, Option, none, some, List, [], ◌∷◌, ◌++◌, Str, str, ◌==◌,
  nat_eq, if◌then◌else◌, length,
}
use tummycrypt.Prelude.Dict.{Dict, lookup, insert, erase}
use tummycrypt.Prelude.Text.FilePath.{parent, with_extension}
use tummycrypt.Prelude.Text.Utf8.{is_utf8}
use tummycrypt.Fallible.{
  Result, ok, err, or_err, ◌>>=◌, ◌>>◌, reading_failed, parsing_state_cache,
  serializing_state_cache,
}
use tummycrypt.Conflict.{VectorClock, new}
use tummycrypt.Disk
use tummycrypt.Disk.{Disk, File, metadata, mtime_of}

pub record SyncState : Type 0 where
  pub blake3 : Str
  pub size : ℕ
  pub mtime : ℕ
  pub chunk_count : ℕ
  pub remote_path : Str
  pub last_synced : ℕ
  pub vclock : VectorClock
  pub device_id : Str

pub record StateCache : Type 0 where
  pub db_path : Str
  pub entries : Dict SyncState
  pub dirty : Bool
  pub last_nats_seq : ℕ
  pub device_id : Str

-- `serde_json` at the map of the entries.
pub record StateJson : Type 0 where
  pub parse : Str → Option (Dict SyncState)
  pub print : Dict SyncState → Option Str

-- What is printed is UTF-8 and is read back.
pub record IsLawful (J : StateJson) : Type 0 where
  pub print-is_utf8 : (m : Dict SyncState) (s : Str) → J.print m ≡ some s → is_utf8 s ≡ true
  pub parse-print : (m : Dict SyncState) (s : Str) → J.print m ≡ some s → J.parse s ≡ some m

-- The BLAKE3 hash of some bytes as lowercase hex: `hash_to_hex(&hash_bytes(data))`.
abbrev pub Hasher : Type 0
Hasher = Str → Str

abbrev pub fresh : Str → Dict SyncState → StateCache
fresh db_path entries = record {
  db_path = db_path;
  entries = entries;
  dirty = false;
  last_nats_seq = 0;
  device_id = [];
}

module _ (J : StateJson) where
  unfoldable pub open_cache : Disk → Str → Result StateCache
  unfolding Disk.exists Disk.read
  open_cache d db_path =
      if Disk.exists d db_path
      then (do
        content ← Disk.read_to_string d db_path
        entries ← or_err parsing_state_cache (J.parse content)
        ok (fresh db_path entries))
      else ok (fresh db_path [])

  -- The steps of `flush` behind the test of `dirty`: what it returns, and the disk.
  unfoldable pub save : StateCache → Disk → Result (Unit {0}) × Disk
  save c d =
      let tmp = with_extension c.db_path (str "tmp") in
      elim (Disk.create_dir_all d (parent c.db_path)) [
        | err e ↦ (err e, d)
        | ok _ ↦ elim (J.print c.entries) [
          | none ↦ (err serializing_state_cache, d)
          | some json ↦
              let written = Disk.write d tmp json in
              elim written.0 [
                | err e ↦ (err e, written.1)
                | ok _ ↦ Disk.rename written.1 tmp c.db_path
              ]
        ]
      ]

  unfoldable pub flush : StateCache → Disk → Result (Unit {0}) × StateCache × Disk
  unfolding save
  flush c d =
      if c.dirty
      then (let saved = save c d in
          elim saved.0 [
            | ok _ ↦ (ok tt, record c { dirty = false }, saved.1)
            | err e ↦ (err e, c, saved.1)
          ])
      else (ok tt, c, d)

-- The canonical path, or the path itself where the system gives none.
unfoldable pub path_key : Disk → Str → Str
path_key d path = elim (d.canonical path) [ some p ↦ p | none ↦ path ]

unfoldable pub get : Disk → StateCache → Str → Option SyncState
unfolding path_key
get d c path = lookup (path_key d path) c.entries

unfoldable pub set : Disk → StateCache → Str → SyncState → StateCache
unfolding path_key
set d c path state = record c { entries = insert (path_key d path) state c.entries; dirty = true }

unfoldable pub remove : Disk → StateCache → Str → StateCache
unfolding path_key
remove d c path = elim (lookup (path_key d path) c.entries) [
  | some _ ↦ record c { entries = erase (path_key d path) c.entries; dirty = true }
  | none ↦ record c { entries = erase (path_key d path) c.entries }
]

abbrev pub len : StateCache → ℕ
len c = length c.entries

unfoldable pub ends_with : Str → Str → Bool
ends_with [] suffix = [] == suffix
ends_with (x ∷ s) suffix = (x ∷ s) == suffix || ends_with s suffix

-- The order in which a `HashMap` gives its entries: two maps with the same entries may differ in it.
abbrev pub Iteration : Type 0
Iteration = Dict SyncState → List (Str × SyncState)

-- The test of the closure: the remote path is `rel_path` or ends in it.
unfoldable pub is_at : Str → SyncState → Bool
unfolding ends_with
is_at rel_path state =
    ends_with state.remote_path (b'/' ∷ rel_path) || state.remote_path == rel_path

unfoldable pub find_at : Str → List (Str × SyncState) → Option (Str × SyncState)
find_at rel_path [] = none
find_at rel_path ((k, state) ∷ rest) =
    if is_at rel_path state then some (k, state) else find_at rel_path rest

-- The first entry at `rel_path`, in the order in which the map gives its entries.
unfoldable pub get_by_rel_path : Iteration → Dict SyncState → Str → Option (Str × SyncState)
get_by_rel_path iter entries rel_path = find_at rel_path (iter entries)

-- Why a file has to be synced.
pub data Reason : Type 0 where
  new_file : Reason
  size_changed : ℕ → ℕ → Reason
  content_changed : Reason

module _ (hash_hex : Hasher) where
  unfoldable pub needs_sync : Disk → StateCache → Str → Result (Option Reason)
  unfolding get metadata Disk.read
  needs_sync d c path = do
    meta ← metadata d path
    let size = length meta.content
    let mtime = mtime_of meta
    elim (get d c path) [
      | none ↦ ok (some new_file)
      | some cached ↦
          if not (nat_eq cached.size size)
          then ok (some (size_changed cached.size size))
          else if not (nat_eq cached.mtime mtime)
          then (do
            data' ← Disk.read d path
            if hash_hex data' == cached.blake3 then ok none else ok (some content_changed))
          else ok none
    ]

unfoldable pub make_sync_state_full :
    Disk → Str → Str → ℕ → Str → VectorClock → Str → Result SyncState
unfolding metadata
make_sync_state_full d local_path hash_hex chunk_count remote_path vclock device_id = do
  meta ← metadata d local_path
  ok (record {
    blake3 = hash_hex;
    size = length meta.content;
    mtime = mtime_of meta;
    chunk_count = chunk_count;
    remote_path = remote_path;
    last_synced = d.now;
    vclock = vclock;
    device_id = device_id;
  })

abbrev pub make_sync_state : Disk → Str → Str → ℕ → Str → Result SyncState
make_sync_state d local_path hash_hex chunk_count remote_path =
    make_sync_state_full d local_path hash_hex chunk_count remote_path new []
