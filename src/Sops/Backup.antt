-- ===== src/Sops/Backup.antt =====
-- crates/tcfs-sops/src/merge.rs: a file of secrets is backed up before it is written.
use tummycrypt.Prelude.{
  ◌≡◌, ◌≢◌, refl, true, Option, none, some, ◌∷◌, ◌++◌, Str, if◌then◌else◌, arith, ◌==◌, eq_iff,
}
use tummycrypt.Prelude.Text.Decimal.{to_string}
use tummycrypt.Prelude.Text.FilePath.{parent}
use tummycrypt.Fallible.{Result, ok, err}
use tummycrypt.Disk
use tummycrypt.Disk.Reading.{write-reads, read-exists}
use tummycrypt.Disk.{Disk}

-- `{backup_dir}/{timestamp}/{relative_path}`, for a relative path that is one.
abbrev pub backup_path : Disk → Str → Str → Str
backup_path d backup_dir relative_path =
    backup_dir ++ (b'/' ∷ (to_string d.now ++ (b'/' ∷ relative_path)))

unfoldable pub backup_file : Disk → Str → Str → Str → Result (Option Str) × Disk
backup_file d source backup_dir relative_path =
    let path = backup_path d backup_dir relative_path in
    if Disk.exists d source
    then elim (Disk.create_dir_all d (parent path)) [
      | err e ↦ (err e, d)
      | ok _ ↦
          let copied = Disk.copy d source path in
          elim copied.0 [ err e ↦ (err e, copied.1) | ok _ ↦ (ok (some path), copied.1) ]
    ]
    else (ok none, d)

-- The write, with the directory of the target.
unfoldable pub write_target : Disk → Str → Str → Result (Unit {0}) × Disk
write_target d target content = elim (Disk.create_dir_all d (parent target)) [
  | err e ↦ (err e, d)
  | ok _ ↦ Disk.write d target content
]

unfoldable pub write_with_backup : Disk → Str → Str → Str → Str → Result (Unit {0}) × Disk
write_with_backup d target content backup_dir relative_path =
    let backed = backup_file d target backup_dir relative_path in
    if Disk.exists d target
    then elim backed.0 [ err e ↦ (err e, backed.1) | ok _ ↦ write_target backed.1 target content ]
    else write_target d target content

backup_file-reads :
    (d : Disk) (source backup_dir relative_path old other : Str) (made : Option Str)
    → Disk.read d source ≡ ok old
    → (backup_file d source backup_dir relative_path).0 ≡ ok made
    → Disk.exists d source ≡ true
    → Disk.read (backup_file d source backup_dir relative_path).1 other
      ≡ (if backup_path d backup_dir relative_path == other then ok old else Disk.read d other)
unfolding backup_file Disk.copy
backup_file-reads d source backup_dir relative_path old other made found h there =
    ground (arith, write-reads d (backup_path d backup_dir relative_path) old other)

write_target-reads :
    (d : Disk) (target content other : Str)
    → (write_target d target content).0 ≡ ok tt
    → Disk.read (write_target d target content).1 other
      ≡ (if target == other then ok content else Disk.read d other)
unfolding write_target
write_target-reads d target content other h = ground (arith, write-reads d target content other)

-- The steps of a write over a file that is there.
write_with_backup-steps :
    (d : Disk) (target content backup_dir relative_path : Str)
    → Disk.exists d target ≡ true
    → (write_with_backup d target content backup_dir relative_path).0 ≡ ok tt
    → (made : Option Str) × ((backup_file d target backup_dir relative_path).0 ≡ ok made)
      × (write_with_backup d target content backup_dir relative_path
          ≡ write_target (backup_file d target backup_dir relative_path).1 target content)
unfolding write_with_backup
write_with_backup-steps d target content backup_dir relative_path there h =
    go (backup_file d target backup_dir relative_path).0 refl
  where
    go :
        (r : Result (Option Str))
        → (backup_file d target backup_dir relative_path).0 ≡ r
        → (made : Option Str) × ((backup_file d target backup_dir relative_path).0 ≡ ok made)
          × (write_with_backup d target content backup_dir relative_path
              ≡ write_target (backup_file d target backup_dir relative_path).1 target content)
    go (err e) q = ground arith
    go (ok made) q = (made, q, ground arith)

-- A write over a file that succeeds has the content at its path, and what the file was at the path
-- of the backup, if the two paths differ.
pub write_with_backup-restores :
    (d : Disk) (target content backup_dir relative_path old : Str)
    → Disk.read d target ≡ ok old
    → backup_path d backup_dir relative_path ≢ target
    → (write_with_backup d target content backup_dir relative_path).0 ≡ ok tt
    → (Disk.read (write_with_backup d target content backup_dir relative_path).1 target
        ≡ ok content)
      × (Disk.read
            (write_with_backup d target content backup_dir relative_path).1
            (backup_path d backup_dir relative_path)
          ≡ ok old)
write_with_backup-restores d target content backup_dir relative_path old found apart h =
    let there = read-exists d target old found in
    let (made, backed, steps) =
      write_with_backup-steps d target content backup_dir relative_path there h in
    let after = (backup_file d target backup_dir relative_path).1 in
    let path = backup_path d backup_dir relative_path in
    let done : (write_target after target content).0 ≡ ok tt = cc (steps, h) in
    let reads = write_target-reads after target content in
    let kept =
      backup_file-reads d target backup_dir relative_path old path made found backed there in
    (
      ground (arith, steps, reads target done, eq_iff target target),
      ground (arith, steps, reads path done, kept, eq_iff target path, eq_iff path path),
    )
