-- ===== src/Tests/Keeping.antt =====
-- A cleanup of backups, an encrypted name, a registry in a store, and a scan of secrets.
use native.Mathlib.Decide.{ℕ_discrete}
use tummycrypt.Prelude.{
  ℕ, ◌≤◌, ◌<◌, ltb, ◌&&◌, ◌≡◌, refl, sym, ap, Bool, true, false, Option, none, some, List, [], ◌∷◌,
  ◌++◌, Str, str, ◌==◌, arith, All, str_le, if◌then◌else◌, length, drop,
}
use tummycrypt.Prelude.Dict.{lookup, insert}
use tummycrypt.Prelude.Text.FilePath.{parent, file_name, extension}
use tummycrypt.Prelude.Text.Utf8.{is_utf8}
use tummycrypt.Fallible.{ok, err, reading_failed}
use tummycrypt.Disk
use tummycrypt.Disk.{Disk, ReadDir, DirEntry}
use tummycrypt.Secrets.Rotate.Backups.{
  Backup, backups_of, starts_with, contains, insert_by_name, sort_by_name, oldest, cleanup_backups,
}
use tummycrypt.Secrets.Rotate.Backups.Oldest.{cleanup_backups-oldest}
use tummycrypt.Crypto.Names
use tummycrypt.Crypto.Names.{AesSiv, hex_encode, encrypt_name, decrypt_name}
use tummycrypt.Crypto.Names.RoundTrip.{decrypt_name-encrypt_name}
use tummycrypt.Devices.{DeviceIdentity, DeviceRegistry, enrolled, find_by_id, enroll, add}
use tummycrypt.Devices.Store
use tummycrypt.Devices.Store.{RegistryJson, load_remote, sync_to_remote, enroll_remote}
use tummycrypt.Devices.Store.Sharing.{load_remote-enroll_remote}
use tummycrypt.Engine.Collect.{file, dir, Entries, end, entry}
use tummycrypt.Engine.Tree.{remote_path_prefix}
use tummycrypt.Sops.{SopsEntry, compute, compute_local, compute_remote}
use tummycrypt.Sops.Sync.{
  SopsSyncConfig, PullResult, is_sops_file, walkdir_inner, entry_of, scan_files, scan_local_dir,
  scan, pull_new, pull_conflicts, pull_diff, pull,
}
use tummycrypt.Sops.Sync.Scanning.{States, scan_local_dir-States, pull-nothing}
use tummycrypt.Tests.Fixtures.{memory, memory-IsLawful, memory-IsReliable}
use tummycrypt.Tests.Codec.{plain_hash}

abbrev found : Str → DirEntry
found name = record {
  path = str "/e/" ++ name;
  name = name;
  is_dir = false;
  is_file = true;
  len = 1;
  modified = some 1;
}

abbrev entries : List DirEntry
entries =
    found (str "c.bak.2") ∷ found (str "c") ∷ found (str "c.bak.1") ∷ found (str "c.bak.3") ∷ []

abbrev listing : ReadDir
listing d path = if path == str "/e" then ok entries else err (reading_failed path)

abbrev disk : Disk
disk = record {
  files =
      (str "/e/c.bak.1", record { content = str "1"; modified = some 1 })
      ∷ (str "/e/c.bak.2", record { content = str "2"; modified = some 1 })
      ∷ (str "/e/c.bak.3", record { content = str "3"; modified = some 1 })
      ∷ [];
  refuses = λ _. false;
  hides = λ _. false;
  leaves = λ _. none;
  canonical = λ p. some p;
  now = 9;
}

cleanup_backups-oldest_example :
    let backups = backups_of (str "c") entries in
    let stay = drop 1 (sort_by_name backups) in
    (n : ℕ) × ((cleanup_backups listing (str "/e/c") 2 disk).0 ≡ ok n)
    × (n ≤ 1)
    × (Disk.read (cleanup_backups listing (str "/e/c") 2 disk).1 (str "/e/c.bak.1")
        ≡ err (reading_failed (str "/e/c.bak.1")))
    × (length stay ≡ 2)
    × All
        (λ (old : Backup). All (λ (x : Backup). str_le old.name x.name ≡ true) stay)
        (oldest backups 2)
unfolding parent file_name starts_with contains insert_by_name sort_by_name str_le Disk.read lookup
    ◌==◌
cleanup_backups-oldest_example =
    cleanup_backups-oldest listing (str "/e/c") (str "/e/c.bak.1") 2 disk entries refl

-- A cipher that puts a byte before a message of bytes.
abbrev are_bytes : Str → Bool
are_bytes [] = true
are_bytes (c ∷ s) = ltb c 256 && are_bytes s

abbrev siv : AesSiv
siv = record {
  expand = λ key info. some (key ++ info);
  seal = λ key msg. if are_bytes msg then some (200 ∷ msg) else none;
  unseal = λ key c. elim c [ [] ↦ none | b ∷ msg ↦ some msg ];
}

All-are_bytes : (s : Str) → are_bytes s ≡ true → All (λ b. b < 256) s
All-are_bytes [] h = tt
All-are_bytes (c ∷ s) h = (ground arith, All-are_bytes s (ground arith))

siv-IsLawful : Names.IsLawful siv
siv-IsLawful = record {
  unseal-seal = λ key msg c e. ground arith;
  seal-bytes = λ key msg c e.
      let fits : are_bytes msg ≡ true = ground arith in
      let same : 200 ∷ msg ≡ c = ground arith in rw (← same) (omega arith, All-are_bytes msg fits);
}

decrypt_name-encrypt_name_example : decrypt_name siv (str "k") (str "c8612e62") ≡ ok (str "a.b")
unfolding encrypt_name is_utf8 hex_encode
decrypt_name-encrypt_name_example =
    decrypt_name-encrypt_name siv siv-IsLawful (str "k") (str "a.b") {encrypted = str "c8612e62"}
      refl refl

abbrev laptop : DeviceIdentity
laptop = enrolled (λ s. s) (str "id1") 3 (str "laptop") (str "age1-device-laptop") none

unfoldable registry_discrete : Discrete DeviceRegistry
registry_discrete = hlevel ℕ_discrete

abbrev registry_json : RegistryJson
registry_json = record {
  parse = λ s. if s == str "[1]" then some (laptop ∷ []) else none;
  print = λ r. elim (registry_discrete r (laptop ∷ [])) [ yes _ ↦ some (str "[1]") | no _ ↦ none ];
}

registry_json-IsLawful : Store.IsLawful registry_json
unfolding is_utf8 ◌==◌
registry_json-IsLawful = record {
  print-is_utf8 = λ r s e. go_utf8 r s (registry_discrete r (laptop ∷ [])) e;
  parse-print = λ r s e. go r s (registry_discrete r (laptop ∷ [])) e;
}
  where
    printed : (r : DeviceRegistry) → Dec (r ≡ laptop ∷ []) → Option Str
    printed r d = elim d [ yes _ ↦ some (str "[1]") | no _ ↦ none ]

    go_utf8 :
        (r : DeviceRegistry) (s : Str) (d : Dec (r ≡ laptop ∷ []))
        → printed r d ≡ some s
        → is_utf8 s ≡ true
    go_utf8 r s (yes p) e = let same : str "[1]" ≡ s = cc e in rw (← same) refl
    go_utf8 r s (no p) e = absurd (cc e)

    go :
        (r : DeviceRegistry) (s : Str) (d : Dec (r ≡ laptop ∷ []))
        → printed r d ≡ some s
        → (if s == str "[1]" then some (laptop ∷ []) else none) ≡ some r
    go r s (yes p) e = let same : str "[1]" ≡ s = cc e in rw (← same) (ap some (sym p))
    go r s (no p) e = absurd (cc e)

abbrev none_enrolled : DeviceRegistry
none_enrolled = []

load_remote-enroll_remote_example :
    ((load_remote registry_json memory
        (λ _. true)
        (str "m")
        (enroll_remote registry_json memory
          (λ s. s)
          (str "id1")
          3
          none_enrolled
          (str "laptop")
          (str "m")
          []).2).0
      ≡ ok (laptop ∷ []))
    × (find_by_id (laptop ∷ []) (str "id1") ≡ some laptop)
unfolding find_by_id enroll_remote enroll add sync_to_remote registry_discrete ℕ_discrete lookup
    insert remote_path_prefix ◌==◌
load_remote-enroll_remote_example =
    load_remote-enroll_remote registry_json registry_json-IsLawful memory memory-IsLawful
      memory-IsReliable (λ _. true) (λ s. s) (str "id1") 3 none_enrolled (str "laptop") (str "m") []
      refl refl

-- A directory with one secret and a file that is none.
abbrev tree : Entries
tree = entry (str "d") (dir (entry (str "a.yaml") file end)) (entry (str "b.txt") file end)

abbrev secrets : Disk
secrets = record disk {
  files = (str "/s/d/a.yaml", record { content = str "k: v"; modified = some 1 }) ∷ [];
}

abbrev secret : SopsEntry
secret = entry_of plain_hash (str "d/a.yaml") (str "k: v")

scan_local_dir-States_run : All (States plain_hash secrets (str "/s")) (secret ∷ [])
unfolding scan_local_dir scan_files walkdir_inner is_sops_file extension Disk.read lookup ◌==◌
scan_local_dir-States_run =
    scan_local_dir-States plain_hash secrets (str "/s") (some tree) (secret ∷ []) refl

abbrev sops_config : SopsSyncConfig
sops_config = record { sops_dir = str "/s"; machine_id = str "m"; backup_dir = str "/b" }

abbrev no_pulls : PullResult
no_pulls = record { pulled = 0; conflicts = 0 }

pull-nothing_example :
    (no_pulls ≡ no_pulls) × ((pull plain_hash sops_config (some tree) secrets).1 ≡ secrets)
unfolding pull pull_diff pull_new pull_conflicts scan compute compute_local compute_remote
    scan_local_dir scan_files walkdir_inner is_sops_file extension Disk.read lookup ◌==◌
pull-nothing_example = pull-nothing plain_hash sops_config (some tree) secrets no_pulls refl
