-- ===== src/Disk.antt =====
-- What the program uses of `std::fs` and of the system clock. A path has a file or has none;
-- `refuses` are the paths at which the system denies a write, a rename or a new directory; `hides` are
-- those whose metadata it does not give at the moment, be it that another program took the file;
-- `leaves` is what a copy that fails has left at its target, if anything; and `canonical` is
-- `std::fs::canonicalize`, which fails where it gives `none`.
pub mod Reading
use tummycrypt.Prelude.{ℕ, Bool, true, false, Option, none, some, List, Str, if◌then◌else◌}
use tummycrypt.Prelude.Text.Utf8.{is_utf8}
use tummycrypt.Prelude.Dict.{Dict, lookup, insert, erase}
use tummycrypt.Fallible.{
  Result, ok, err, or_err, ◌>>=◌, stat_failed, reading_failed, writing_failed, renaming_failed,
  creating_dir_failed, removing_failed,
}

-- `modified` is `none` where the system has no time for the file, or one before the epoch.
pub record File : Type 0 where
  pub content : Str
  pub modified : Option ℕ

pub record Disk : Type 0 where
  pub files : Dict File
  pub refuses : Str → Bool
  pub hides : Str → Bool
  pub leaves : Str → Option Str
  pub canonical : Str → Option Str
  pub now : ℕ

unfoldable pub metadata : Disk → Str → Result File
metadata d path =
    if d.hides path then err (stat_failed path) else or_err (stat_failed path) (lookup path d.files)

-- `modified().ok().and_then(…).map(as_secs).unwrap_or(0)`
abbrev pub mtime_of : File → ℕ
mtime_of f = elim f.modified [ some t ↦ t | none ↦ 0 ]

unfoldable pub read : Disk → Str → Result Str
read d path = elim (lookup path d.files) [
  | some f ↦ ok f.content
  | none ↦ err (reading_failed path)
]

-- `std::fs::read_to_string`
abbrev pub read_to_string : Disk → Str → Result Str
read_to_string d path = read d path >>= λ s. if is_utf8 s then ok s else err (reading_failed path)

unfoldable pub exists : Disk → Str → Bool
exists d path = elim (lookup path d.files) [ some f ↦ true | none ↦ false ]

unfoldable pub write : Disk → Str → Str → Result (Unit {0}) × Disk
write d path content = if d.refuses path then (err (writing_failed path), d) else (
  ok tt,
  record d { files = insert path (record { content = content; modified = some d.now }) d.files },
)

unfoldable pub rename : Disk → Str → Str → Result (Unit {0}) × Disk
rename d from to = elim (lookup from d.files) [
  | none ↦ (err (renaming_failed to), d)
  | some f ↦
      if d.refuses to
      then (err (renaming_failed to), d)
      else (ok tt, record d { files = insert to f (erase from d.files) })
]

-- Directories are not kept: only whether the system lets one be made.
unfoldable pub create_dir_all : Disk → Option Str → Result (Unit {0})
create_dir_all d none = ok tt
create_dir_all d (some dir) = if d.refuses dir then err (creating_dir_failed dir) else ok tt

unfoldable pub remove_file : Disk → Str → Result (Unit {0}) × Disk
remove_file d path = elim (lookup path d.files) [
  | none ↦ (err (removing_failed path), d)
  | some f ↦
      if d.refuses path
      then (err (removing_failed path), d)
      else (ok tt, record d { files = erase path d.files })
]

-- What stands at a path after a copy to it that failed.
unfoldable pub left_at : Disk → Str → Option Str → Disk
left_at d path none = d
left_at d path (some part) = record d {
  files = insert path (record { content = part; modified = some d.now }) d.files;
}

-- `std::fs::copy`
unfoldable pub copy : Disk → Str → Str → Result (Unit {0}) × Disk
copy d source target = elim (read d source) [
  | err e ↦ (err e, d)
  | ok content ↦
      if d.refuses target
      then (err (writing_failed target), left_at d target (d.leaves target))
      else write d target content
]

-- What `read_dir` finds in a directory, with the metadata of each entry; the listing stops at the
-- first failure. The order is that of the system.
pub record DirEntry : Type 0 where
  pub path : Str
  pub name : Str
  pub is_dir : Bool
  pub is_file : Bool
  pub len : ℕ
  pub modified : Option ℕ

abbrev pub ReadDir : Type 0
ReadDir = Disk → Str → Result (List DirEntry)
