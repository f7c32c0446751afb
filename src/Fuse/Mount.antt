-- ===== src/Fuse/Mount.antt =====
-- crates/tcfs-fuse/src/driver.rs, `TcfsFs`: what a mounted file system keeps. The mutexes make each
-- access one step.
use tummycrypt.Prelude.{ℕ, Option, some, none, List, [], ◌∷◌, Str, nat_eq, if◌then◌else◌}
use tummycrypt.Exec.{Exec}
use tummycrypt.Disk.{Disk, ReadDir}
use tummycrypt.Remote.{Operator}
use tummycrypt.Fuse.NegativeCache.{NegativeCache}
use tummycrypt.Fuse.Cache.{DiskCache}

-- The operator with its listing of the objects below a prefix, and the listing of directories.
pub record Storage : Type 1 where
  pub op : Operator
  pub list : Str → Exec op.State (List Str)
  pub read_dir : ReadDir

-- What is fixed when the file system is mounted.
pub record TcfsFs : Type 0 where
  pub prefix : Str
  pub uid : ℕ
  pub gid : ℕ
  pub disk_cache : DiskCache
  pub mount_time : ℕ

-- What changes: the store, the disk, the negative cache, and the open files with their contents.
-- `disk.now` is the clock.
pub record Mount (O : Operator) : Type 0 where
  pub remote : O.State
  pub disk : Disk
  pub negative : NegativeCache
  pub handles : List (ℕ × Str)
  pub next_fh : ℕ

abbrev pub Run : Storage → Type 0 → Type 0
Run S A = Exec (Mount S.op) A

-- A request to the store.
unfoldable pub ask : (S : Storage) {A : Type 0} → Exec S.op.State A → Run S A
ask S m s = let r = m s.remote in (r.0, record s { remote = r.1 })

-- A `HashMap<u64, FileHandle>`.
unfoldable pub handle : ℕ → List (ℕ × Str) → Option Str
handle fh [] = none
handle fh ((h, content) ∷ rest) = if nat_eq h fh then some content else handle fh rest

unfoldable pub insert_handle : ℕ → Str → List (ℕ × Str) → List (ℕ × Str)
insert_handle fh content [] = (fh, content) ∷ []
insert_handle fh content ((h, old) ∷ rest) =
    if nat_eq h fh then (fh, content) ∷ rest else (h, old) ∷ insert_handle fh content rest

unfoldable pub remove_handle : ℕ → List (ℕ × Str) → List (ℕ × Str)
remove_handle fh [] = []
remove_handle fh ((h, content) ∷ rest) =
    let left = remove_handle fh rest in if nat_eq h fh then left else (h, content) ∷ left
