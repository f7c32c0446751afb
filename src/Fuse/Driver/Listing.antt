-- ===== src/Fuse/Driver/Listing.antt =====
-- crates/tcfs-fuse/src/driver.rs: the listing of a directory. The `i64` that `readdir` is given is
-- taken to be none below zero.
pub mod Offsets
use tummycrypt.Prelude.{
  ℕ, suc, ◌+◌, ◌-◌, ◌^◌, ◌≡◌, Bool, true, false, not, ◌&&◌, ◌||◌, Option, none, some, List, [], ◌∷◌,
  ◌++◌, Str, str, ◌==◌, ltb, leb, nat_eq, any, if◌then◌else◌, map,
}
use tummycrypt.Prelude.Text.Lines.{is_empty}
use tummycrypt.Prelude.Text.Trim.{trim_start, trim_start_matches, contains_char, before_first}
use tummycrypt.Fallible.{Result, ok, err, io_error}
use tummycrypt.Exec.{pure, context, ◌>>=◌}
use tummycrypt.Engine.Tree.{remote_path_prefix}
use tummycrypt.Fuse.Mount.{Storage, TcfsFs, Mount, Run, ask}
use tummycrypt.Fuse.Driver.{
  FileType, regular_file, directory, FileAttr, file_attr, dir_attr, attr_ttl, to_str, or_root,
  index_prefix_for_dir, read_index_entry_size,
}

pub record DirectoryEntry : Type 0 where
  pub kind : FileType
  pub name : Str
  pub offset : ℕ

pub record DirectoryEntryPlus : Type 0 where
  pub kind : FileType
  pub name : Str
  pub offset : ℕ
  pub attr : FileAttr
  pub entry_ttl : ℕ
  pub attr_ttl : ℕ

-- What an object below the prefix of a directory is in it.
pub data Found : Type 0 where
  itself : Found
  subdirectory file : Str → Found

unfoldable pub rel_of : Str → Str → Str
rel_of index_prefix full = trim_start b'/' (trim_start_matches index_prefix full)

unfoldable pub found_at : Str → Found
found_at rel =
    if is_empty rel
    then itself
    else if contains_char b'/' rel
    then subdirectory (remote_path_prefix (before_first b'/' rel))
    else file (before_first b'/' rel ++ str ".tc")

abbrev pub seen : List Str → Str → Bool
seen dirs name = any (λ d. d == name) dirs

-- "." and "..", from an offset on.
abbrev pub dots {ℓ} : {A : Type ℓ} → ℕ → A → A → List A
dots offset self parent =
    (if nat_eq offset 0 then self ∷ [] else []) ++ (if leb offset 1 then parent ∷ [] else [])

-- `as i64` of a `u64`. From 2^63 on the result is below zero: the code, which compares an offset to
-- zero, to one and to the offsets of entries, then does what it does at one.
unfoldable pub as_i64 : ℕ → ℕ
as_i64 offset = if ltb offset (2 ^ 63) then offset else 1

abbrev pub dot_entry : Str → ℕ → DirectoryEntry
dot_entry name offset = record { kind = directory; name = name; offset = offset }

-- An entry is given out behind the offset only.
abbrev pub push_if {ℓ} : {A : Type ℓ} → ℕ → ℕ → A → List A → List A
push_if offset next e rest = if ltb offset next then e ∷ rest else rest

-- The loop over the objects, with the directories that were seen and the next offset.
unfoldable pub list_from : Str → ℕ → List Str → ℕ → List Str → List DirectoryEntry
list_from index_prefix offset dirs next [] = []
list_from index_prefix offset dirs next (full ∷ rest) = elim (found_at (rel_of index_prefix full)) [
  | itself ↦ list_from index_prefix offset dirs next rest
  | subdirectory name ↦ elim (seen dirs name) [
    | true ↦ list_from index_prefix offset dirs next rest
    | false ↦
        push_if offset next (record { kind = directory; name = name; offset = next })
          (list_from index_prefix offset (name ∷ dirs) (next + 1) rest)
  ]
  | file name ↦
      push_if offset next (record { kind = regular_file; name = name; offset = next })
        (list_from index_prefix offset dirs (next + 1) rest)
]

unfoldable pub entries_from : Str → ℕ → List Str → List DirectoryEntry
entries_from index_prefix offset objects =
    dots offset (dot_entry (str ".") 1) (dot_entry (str "..") 2)
    ++ list_from index_prefix offset [] 3 objects

module _ (fs : TcfsFs) (S : Storage) where
  open S use {list}

  unfoldable pub readdir : Str → ℕ → Run S (List DirectoryEntry)
  readdir path offset = do
    let index_prefix = index_prefix_for_dir fs (or_root (to_str path))
    objects ← context io_error (ask S (list index_prefix))
    pure (entries_from index_prefix offset objects)

  abbrev pub entry_plus : FileType → Str → ℕ → FileAttr → DirectoryEntryPlus
  entry_plus kind name offset attr = record {
    kind = kind;
    name = name;
    offset = offset;
    attr = attr;
    entry_ttl = attr_ttl;
    attr_ttl = attr_ttl;
  }

  -- The same loop, with a request for the size of each file.
  unfoldable pub list_plus : Str → ℕ → List Str → ℕ → List Str → Run S (List DirectoryEntryPlus)
  list_plus index_prefix offset dirs next [] = pure []
  list_plus index_prefix offset dirs next (full ∷ rest) =
      elim (found_at (rel_of index_prefix full)) [
        | itself ↦ list_plus index_prefix offset dirs next rest
        | subdirectory name ↦ elim (seen dirs name) [
          | true ↦ list_plus index_prefix offset dirs next rest
          | false ↦ (do
            more ← list_plus index_prefix offset (name ∷ dirs) (next + 1) rest
            pure (push_if offset next (entry_plus directory name next (dir_attr fs)) more))
        ]
        | file name ↦ (do
          size ← read_index_entry_size fs S full
          more ← list_plus index_prefix offset dirs (next + 1) rest
          pure (push_if offset next (entry_plus regular_file name next (file_attr fs size)) more))
      ]

  unfoldable pub readdirplus : Str → ℕ → Run S (List DirectoryEntryPlus)
  readdirplus path offset = do
    let index_prefix = index_prefix_for_dir fs (or_root (to_str path))
    objects ← context io_error (ask S (list index_prefix))
    entries ← list_plus index_prefix (as_i64 offset) [] 3 objects
    pure (
        dots (as_i64 offset) (entry_plus directory (str ".") 1 (dir_attr fs))
          (entry_plus directory (str "..") 2 (dir_attr fs))
        ++ entries)
