-- ===== src/Secrets/Rotate/Backups.antt =====
-- crates/tcfs-secrets/src/rotate.rs, `cleanup_backups`: of the backups of a file the most recent
-- stay. The listing of directories is a parameter.
pub mod Oldest
use tummycrypt.Prelude.{
  ℕ, zero, suc, ◌+◌, ◌-◌, ◌≡◌, Bool, true, false, ◌&&◌, ◌||◌, List, [], ◌∷◌, Str, str, ◌==◌, str_le,
  leb, length, take, map, keep, if◌then◌else◌,
}
use tummycrypt.Prelude.Text.FilePath.{parent, file_name, dir_or_dot}
use tummycrypt.Fallible.{Result, ok, err}
use tummycrypt.Disk
use tummycrypt.Disk.{Disk, DirEntry, ReadDir}

-- The name of a backup and its path.
pub record Backup : Type 0 where
  pub name : Str
  pub path : Str

unfoldable pub starts_with : Str → Str → Bool
starts_with s [] = true
starts_with [] (c ∷ t) = false
starts_with (b ∷ s) (c ∷ t) = (b ∷ []) == (c ∷ []) && starts_with s t

unfoldable pub contains : Str → Str → Bool
unfolding starts_with
contains [] t = starts_with [] t
contains (b ∷ s) t = starts_with (b ∷ s) t || contains s t

abbrev pub is_backup : Str → DirEntry → Bool
is_backup stem e = starts_with e.name stem && contains e.name (str ".bak.")

abbrev pub backups_of : Str → List DirEntry → List Backup
backups_of stem entries =
    map (λ (e : DirEntry). record { name = e.name; path = e.path }) (keep (is_backup stem) entries)

-- `sort_by` on the names.
unfoldable pub insert_by_name : Backup → List Backup → List Backup
insert_by_name b [] = b ∷ []
insert_by_name b (x ∷ rest) =
    let later = insert_by_name b rest in if str_le b.name x.name then b ∷ x ∷ rest else x ∷ later

unfoldable pub sort_by_name : List Backup → List Backup
sort_by_name [] = []
sort_by_name (b ∷ rest) = insert_by_name b (sort_by_name rest)

-- The count of the files that were removed; a removal that fails is passed over.
unfoldable pub remove_backups : List Backup → ℕ → Disk → ℕ × Disk
remove_backups [] removed d = (removed, d)
remove_backups (b ∷ rest) removed d =
    let run = Disk.remove_file d b.path in
    remove_backups rest (elim run.0 [ ok _ ↦ removed + 1 | err _ ↦ removed ]) run.1

abbrev pub oldest : List Backup → ℕ → List Backup
oldest backups kept = take (length backups - kept) (sort_by_name backups)

unfoldable pub cleanup_backups : ReadDir → Str → ℕ → Disk → Result ℕ × Disk
cleanup_backups read_dir cred_file kept d = elim (read_dir d (dir_or_dot (parent cred_file))) [
  | err e ↦ (err e, d)
  | ok entries ↦
      let backups = backups_of (file_name cred_file) entries in
      if leb (length backups) kept
      then (ok 0, d)
      else (let run = remove_backups (oldest backups kept) 0 d in (ok run.0, run.1))
]
