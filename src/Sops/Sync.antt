-- ===== src/Sops/Sync.antt =====
-- crates/tcfs-sops/src/lib.rs: the scan of the directory of secrets, and what is pushed and pulled.
-- A directory is a tree of entries, none if there is no such directory; names are UTF-8. The
-- manifest that `push` brings up to date is dropped by the code.
pub mod Scanning
use tummycrypt.Prelude.{
  ℕ, ◌+◌, ◌≡◌, Bool, true, false, ◌||◌, Option, none, some, List, [], ◌∷◌, ◌++◌, Str, str, ◌==◌,
  length, if◌then◌else◌,
}
use tummycrypt.Prelude.Text.FilePath.{extension, parent}
use tummycrypt.Fallible.{Result, ok, err, ◌>>=◌, reading_failed}
use tummycrypt.Disk
use tummycrypt.Disk.{Disk}
use tummycrypt.Chunks.{Blake3, hash_hex}
use tummycrypt.Engine.Collect.{Node, file, other, dir, Entries, end, denied, entry, with_slash}
use tummycrypt.Engine.Tree.{drop_prefix}
use tummycrypt.Sops.{SopsEntry, SopsDiff, compute}
use tummycrypt.Sops.Backup.{backup_file}

pub record SopsSyncConfig : Type 0 where
  pub sops_dir : Str
  pub machine_id : Str
  pub backup_dir : Str

pub record PushResult : Type 0 where
  pub pushed : ℕ
  pub skipped : ℕ

pub record PullResult : Type 0 where
  pub pulled : ℕ
  pub conflicts : ℕ

abbrev pub is_sops_extension : Option Str → Bool
is_sops_extension none = false
is_sops_extension (some e) =
    e == str "yaml" || (e == str "yml" || (e == str "json" || (e == str "env" || e == str "ini")))

unfoldable pub is_sops_file : Str → Bool
is_sops_file path = is_sops_extension (extension path)

-- `strip_prefix(base).unwrap_or(path)`
abbrev pub relative_to : Str → Str → Str
relative_to base path = elim (drop_prefix (with_slash base) path) [ some rel ↦ rel | none ↦ path ]

-- The relative path and the path of each file.
unfoldable pub walkdir_inner : Str → Str → Entries → Result (List (Str × Str))
walkdir_inner base current end = ok []
walkdir_inner base current denied = err (reading_failed current)
walkdir_inner base current (entry name other rest) = walkdir_inner base current rest
walkdir_inner base current (entry name file rest) = walkdir_inner base current rest >>= λ files.
    ok ((relative_to base (with_slash current ++ name), with_slash current ++ name) ∷ files)
walkdir_inner base current (entry name (dir children) rest) =
    walkdir_inner base (with_slash current ++ name) children >>= λ deep.
    walkdir_inner base current rest >>= λ files. ok (deep ++ files)

abbrev pub walkdir : Str → Entries → Result (List (Str × Str))
walkdir base tree = walkdir_inner base base tree

module _ (B : Blake3) where
  abbrev pub entry_of : Str → Str → SopsEntry
  entry_of relative_path contents = record {
    relative_path = relative_path;
    blake3_hash = hash_hex B contents;
    machine_id = [];
    size_bytes = length contents;
  }

  unfoldable pub scan_files : Disk → List (Str × Str) → Result (List SopsEntry)
  scan_files d [] = ok []
  scan_files d ((relative_path, full_path) ∷ files) = elim (is_sops_file full_path) [
    | false ↦ scan_files d files
    | true ↦ Disk.read d full_path >>= λ contents.
        scan_files d files >>= λ entries. ok (entry_of relative_path contents ∷ entries)
  ]

  unfoldable pub scan_local_dir : Disk → Str → Option Entries → Result (List SopsEntry)
  scan_local_dir d root none = ok []
  scan_local_dir d root (some tree) = walkdir root tree >>= λ files. scan_files d files

  abbrev pub load_remote_manifest : Result (List SopsEntry)
  load_remote_manifest = ok []

  abbrev pub entries_or_none : Result (List SopsEntry) → List SopsEntry
  entries_or_none (ok entries) = entries
  entries_or_none (err e) = []

  module _ (config : SopsSyncConfig) (tree : Option Entries) where
    open config use {sops_dir, backup_dir}

    unfoldable pub scan : Disk → Result SopsDiff
    scan d = scan_local_dir d sops_dir tree >>= λ local_entries.
        ok (compute local_entries (entries_or_none load_remote_manifest))

    unfoldable pub count_local : Disk → List SopsEntry → PushResult → PushResult
    count_local d [] t = t
    count_local d (e ∷ entries) t = count_local d entries (
        if Disk.exists d (with_slash sops_dir ++ e.relative_path)
        then record t { pushed = t.pushed + 1 }
        else record t { skipped = t.skipped + 1 })

    unfoldable pub push : Disk → SopsDiff → Result PushResult
    push d diff =
        let t = count_local d diff.local_only (record { pushed = 0; skipped = 0 }) in
        scan_local_dir d sops_dir tree >>= λ local_entries.
        ok (record t { pushed = t.pushed + length diff.modified })

    -- The directories of what is new on the other side are made.
    unfoldable pub pull_new : Disk → List SopsEntry → ℕ → Result ℕ
    pull_new d [] pulled = ok pulled
    pull_new d (e ∷ entries) pulled =
        Disk.create_dir_all d (parent (with_slash sops_dir ++ e.relative_path)) >>= λ _.
        pull_new d entries (pulled + 1)

    unfoldable pub pull_conflicts : List SopsEntry → ℕ → Disk → Result ℕ × Disk
    pull_conflicts [] conflicts d = (ok conflicts, d)
    pull_conflicts (e ∷ entries) conflicts d =
        let backed =
          backup_file d (with_slash sops_dir ++ e.relative_path) backup_dir e.relative_path in
        elim backed.0 [
          | err x ↦ (err x, backed.1)
          | ok _ ↦ pull_conflicts entries (conflicts + 1) backed.1
        ]

    unfoldable pub pull_diff : SopsDiff → Disk → Result PullResult × Disk
    pull_diff diff d = elim (pull_new d diff.remote_only 0) [
      | err x ↦ (err x, d)
      | ok pulled ↦
          let run = pull_conflicts diff.conflicts 0 d in
          elim run.0 [
            | err x ↦ (err x, run.1)
            | ok conflicts ↦ (ok (record { pulled = pulled; conflicts = conflicts }), run.1)
          ]
    ]

    unfoldable pub pull : Disk → Result PullResult × Disk
    pull d = elim (scan d) [ err x ↦ (err x, d) | ok diff ↦ pull_diff diff d ]
