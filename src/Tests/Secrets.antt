-- ===== src/Tests/Secrets.antt =====
-- A secret that is written over.
use tummycrypt.Prelude.{◌≡◌, refl, false, none, some, [], ◌∷◌, str, ◌==◌}
use tummycrypt.Prelude.Dict.{lookup, insert}
use tummycrypt.Prelude.Text.Decimal.{to_string, digits}
use tummycrypt.Prelude.Text.FilePath.{parent}
use tummycrypt.Fallible.{ok}
use tummycrypt.Disk
use tummycrypt.Disk.{Disk}
use tummycrypt.Sops.Backup.{
  backup_file, write_target, write_with_backup, write_with_backup-restores,
}

abbrev disk : Disk
disk = record {
  files = (str "/s", record { content = str "old"; modified = some 7 }) ∷ [];
  refuses = λ _. false;
  hides = λ _. false;
  leaves = λ _. none;
  canonical = λ p. some p;
  now = 9;
}

abbrev after : Disk
after = (write_with_backup disk (str "/s") (str "new") (str "/b") (str "s")).1

write_with_backup-restores_run :
    (Disk.read after (str "/s") ≡ ok (str "new"))
    × (Disk.read after (str "/b/9/s") ≡ ok (str "old"))
unfolding lookup insert to_string digits parent Disk.read Disk.write Disk.exists Disk.create_dir_all
    write_with_backup write_target backup_file Disk.copy Disk.left_at ◌==◌
write_with_backup-restores_run =
    write_with_backup-restores disk (str "/s") (str "new") (str "/b") (str "s") (str "old") refl
      (λ e. cc e) refl
