-- ===== src/Fuse/Cache.antt =====
-- crates/tcfs-fuse/src/cache.rs: contents on the disk, by the hash of their manifest. `read_dir` is
-- a parameter; keys are text in ASCII, and the sum of the sizes fits a `u64`.
pub mod Eviction
pub mod Reading
use tummycrypt.Prelude.{
  ℕ, ◌+◌, ◌-◌, ◌≡◌, Bool, true, false, not, ◌&&◌, Option, none, some, List, [], ◌∷◌, ◌++◌, Str, str,
  leb, if◌then◌else◌, length, take,
}
use tummycrypt.Prelude.Text.FilePath.{parent, with_extension, file_name}
use tummycrypt.Fallible.{Result, ok, err, ◌>>=◌}
use tummycrypt.Disk
use tummycrypt.Disk.{Disk, DirEntry, ReadDir}
use tummycrypt.State.{ends_with}

pub record DiskCache : Type 0 where
  pub dir : Str
  pub max_bytes : ℕ

-- A cached file: its path, its size and the time of its last change.
pub record Cached : Type 0 where
  pub path : Str
  pub size : ℕ
  pub mtime : ℕ

-- Two levels, the first two bytes of the key for a directory.
abbrev pub shard : Str → Str
shard key = if leb 2 (length key) then take 2 key else str "xx"

abbrev pub path_for : DiskCache → Str → Str
path_for c key = (c.dir ++ (b'/' ∷ [])) ++ (shard key ++ (b'/' ∷ key))

abbrev pub tmp_for : DiskCache → Str → Str
tmp_for c key = with_extension (path_for c key) (str "tmp")

unfoldable pub get : DiskCache → Disk → Str → Option Str
get c d key = elim (Disk.read d (path_for c key)) [ ok content ↦ some content | err e ↦ none ]

unfoldable pub contains : DiskCache → Disk → Str → Bool
contains c d key = Disk.exists d (path_for c key)

-- Files of a shard that are no temporary ones.
abbrev pub considered : DirEntry → Bool
considered e = e.is_file && not (ends_with e.name (str ".tmp"))

-- A time that the system does not have counts as the epoch.
abbrev pub modified_or_epoch : DirEntry → ℕ
modified_or_epoch e = elim e.modified [ some t ↦ t | none ↦ 0 ]

abbrev pub cached_of : DirEntry → Cached
cached_of e = record { path = e.path; size = e.len; mtime = modified_or_epoch e }

-- The loop over a shard.
unfoldable pub shard_entries : List DirEntry → List Cached
shard_entries [] = []
shard_entries (e ∷ rest) =
    let more = shard_entries rest in if considered e then cached_of e ∷ more else more

-- The loop over the directories of the cache.
unfoldable pub walk : ReadDir → Disk → List DirEntry → Result (List Cached)
walk read_dir d [] = ok []
walk read_dir d (s ∷ shards) =
    let rest = walk read_dir d shards in
    if not s.is_dir
    then rest
    else (read_dir d s.path >>= λ inner. rest >>= λ more. ok (shard_entries inner ++ more))

unfoldable pub total_size : List Cached → ℕ
total_size [] = 0
total_size (e ∷ rest) = e.size + total_size rest

-- `sort_by_key` on the time: equal times keep their order.
unfoldable pub insert_by_mtime : Cached → List Cached → List Cached
insert_by_mtime e [] = e ∷ []
insert_by_mtime e (x ∷ rest) =
    let later = insert_by_mtime e rest in if leb e.mtime x.mtime then e ∷ x ∷ rest else x ∷ later

unfoldable pub sort_by_mtime : List Cached → List Cached
sort_by_mtime [] = []
sort_by_mtime (e ∷ rest) = insert_by_mtime e (sort_by_mtime rest)

-- A file that cannot be removed is passed over, and counted as removed.
unfoldable pub remove_oldest : ℕ → ℕ → List Cached → Disk → Disk
remove_oldest max total [] d = d
remove_oldest max total (e ∷ rest) d =
    let after = remove_oldest max (total - e.size) rest (Disk.remove_file d e.path).1 in
    if leb total max then d else after

-- Everything but the removing.
unfoldable pub cached_entries : ReadDir → DiskCache → Disk → Result (List Cached)
cached_entries read_dir c d = read_dir d c.dir >>= λ top. walk read_dir d top

unfoldable pub evict_if_needed : ReadDir → DiskCache → Disk → Result (Unit {0}) × Disk
evict_if_needed read_dir c d = elim (cached_entries read_dir c d) [
  | err e ↦ (err e, d)
  | ok entries ↦
      let total = total_size entries in
      if leb total c.max_bytes
      then (ok tt, d)
      else (ok tt, remove_oldest c.max_bytes total (sort_by_mtime entries) d)
]

-- The file under a temporary name, then under its own, then the eviction, whose failure is
-- passed over.
unfoldable pub put : ReadDir → DiskCache → Disk → Str → Str → Result (Unit {0}) × Disk
put read_dir c d key content =
    let path = path_for c key in
    let tmp = tmp_for c key in
    elim (Disk.create_dir_all d (parent path)) [
      | err e ↦ (err e, d)
      | ok _ ↦
          let written = Disk.write d tmp content in
          elim written.0 [
            | err e ↦ (err e, written.1)
            | ok _ ↦
                let renamed = Disk.rename written.1 tmp path in
                elim renamed.0 [
                  | err e ↦ (err e, renamed.1)
                  | ok _ ↦ (ok tt, (evict_if_needed read_dir c renamed.1).1)
                ]
          ]
    ]

-- `rsplit('/').next()`
abbrev pub cache_key_for_path : Str → Str
cache_key_for_path manifest_path = file_name manifest_path
