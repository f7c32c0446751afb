-- ===== src/Secrets/Rotate.antt =====
-- crates/tcfs-secrets/src/rotate.rs: new credentials take the place of the old ones. The YAML
-- library and the `sops` program are parameters.
pub mod Atomic
pub mod Succeeding
pub mod Backups
use tummycrypt.Prelude.{
  ℕ, ◌≡◌, ◌≢◌, Bool, true, false, not, Option, none, some, List, [], ◌∷◌, ◌++◌, Str, str,
  if◌then◌else◌,
}
use tummycrypt.Prelude.Text.Decimal.{to_string}
use tummycrypt.Prelude.Text.FilePath.{parent, file_name, with_extension, dir_or_dot, join_name}
use tummycrypt.Prelude.Text.Lines.{is_empty}
use tummycrypt.Prelude.Text.Utf8.{is_utf8}
use tummycrypt.Fallible.{
  Result, ok, err, or_err, credentials_not_found, parsing_yaml, serializing_yaml, sops_failed,
  sops_not_utf8,
}
use tummycrypt.Fallible
use tummycrypt.Exec.{Exec, pure, lift, gets, attempt, ◌>>=◌, ◌>>◌}
use tummycrypt.Disk
use tummycrypt.Disk.{Disk}

-- `serde_yml`: a value, and what the code does with the mapping that it may be.
pub record Yaml : Type 1 where
  pub Value : Type 0
  pub from_str : Str → Option Value
  pub to_string : Value → Option Str
  pub text : Str → Value
  pub is_mapping : Value → Bool
  pub get : Str → Value → Option Value
  pub remove : Str → Value → Value
  pub insert : Str → Value → Value → Value

-- A mapping has one value at most for a text, and what is printed is read back.
pub record IsLawful (Y : Yaml) : Type 0 where
  pub from_str-to_string : (v : Y.Value) (s : Str) → Y.to_string v ≡ some s → Y.from_str s ≡ some v
  pub remove-is_mapping :
      (k : Str) (v : Y.Value) → Y.is_mapping v ≡ true → Y.is_mapping (Y.remove k v) ≡ true
  pub insert-is_mapping :
      (k : Str) (w v : Y.Value) → Y.is_mapping v ≡ true → Y.is_mapping (Y.insert k w v) ≡ true
  pub get-remove_self :
      (k : Str) (v : Y.Value) → Y.is_mapping v ≡ true → Y.get k (Y.remove k v) ≡ none
  pub get-remove_ne :
      (j k : Str) (v : Y.Value) → Y.is_mapping v ≡ true → k ≢ j → Y.get j (Y.remove k v) ≡ Y.get j v
  pub get-insert_self :
      (k : Str) (w v : Y.Value) → Y.is_mapping v ≡ true → Y.get k (Y.insert k w v) ≡ some w
  pub get-insert_ne :
      (j k : Str) (w v : Y.Value)
      → Y.is_mapping v ≡ true
      → k ≢ j
      → Y.get j (Y.insert k w v) ≡ Y.get j v

-- `sops --encrypt` in the directory of a file, on a text: what it prints if it succeeds.
abbrev pub SopsProgram : Type 0
SopsProgram = Str → Str → Option Str

pub record RotationResult : Type 0 where
  pub path : Str
  pub rotated_at : ℕ
  pub backup_created : Bool

-- The disk, and what was sent to the watchers, the last first.
pub record Rotation : Type 0 where
  pub disk : Disk
  pub sent : List ℕ

abbrev pub on_disk {ℓ} : {A : Type ℓ} → (Disk → Result A × Disk) → Exec Rotation A
on_disk f s = ((f s.disk).0, record s { disk = (f s.disk).1 })

-- `.{name}.tmp` in the same directory.
abbrev pub tmp_of : Str → Str
tmp_of path = join_name (dir_or_dot (parent path)) (b'.' ∷ (file_name path ++ str ".tmp"))

unfoldable pub atomic_replace : Str → Str → Exec Rotation (Unit {0})
atomic_replace path new_content = do
  _ ← on_disk (λ d. Disk.write d (tmp_of path) new_content)
  on_disk (λ d. Disk.rename d (tmp_of path) path)

abbrev pub backup_of : Str → ℕ → Str
backup_of cred_file now = with_extension cred_file (str "yaml.bak." ++ to_string now)

abbrev pub is_ok {ℓ} : {A : Type ℓ} → Result A → Bool
is_ok (ok a) = true
is_ok (err e) = false

module _ (Y : Yaml) (sops : SopsProgram) where
  -- A document that is no mapping stays as it is.
  unfoldable pub strip_sops : Y.Value → Y.Value
  strip_sops doc = if Y.is_mapping doc then Y.remove (str "sops") doc else doc

  unfoldable pub set_keys : Str → Str → Y.Value → Y.Value
  set_keys new_access_key new_secret_key doc =
      if Y.is_mapping doc
      then Y.insert (str "secret_access_key") (Y.text new_secret_key)
          (Y.insert (str "access_key_id") (Y.text new_access_key) doc)
      else doc

  unfoldable pub build_rotated_yaml : Str → Str → Str → Result Str
  build_rotated_yaml current_content new_access_key new_secret_key =
      Fallible.◌>>=◌ (or_err parsing_yaml (Y.from_str current_content)) λ doc.
        or_err serializing_yaml
          (Y.to_string (set_keys new_access_key new_secret_key (strip_sops doc)))

  unfoldable pub sops_encrypt : Str → Str → Result Str
  sops_encrypt plaintext cred_file =
      Fallible.◌>>=◌ (or_err sops_failed (sops (dir_or_dot (parent cred_file)) plaintext))
        λ printed. if is_utf8 printed then ok printed else err sops_not_utf8

  -- The steps before the replacement: the text that is to stand in the file, and whether there is a
  -- backup.
  unfoldable pub prepare : Str → Str → Str → ℕ → Exec Rotation (Str × Bool)
  prepare cred_file new_access_key new_secret_key now = do
    copied ← attempt (on_disk (λ d. Disk.copy d cred_file (backup_of cred_file now)))
    current_content ← on_disk (λ d. (Disk.read_to_string d cred_file, d))
    plaintext ← lift (build_rotated_yaml current_content new_access_key new_secret_key)
    encrypted ← lift (sops_encrypt plaintext cred_file)
    pure (encrypted, is_ok copied)

  unfoldable pub signal : Bool → ℕ → Exec Rotation (Unit {0})
  signal has_reload_tx now s =
      (ok tt, if has_reload_tx then record s { sent = now ∷ s.sent } else s)

  unfoldable pub replace : Str → Bool → ℕ → Str × Bool → Exec Rotation RotationResult
  replace cred_file has_reload_tx now (encrypted, backup_created) = do
    _ ← atomic_replace cred_file encrypted
    _ ← signal has_reload_tx now
    pure (record { path = cred_file; rotated_at = now; backup_created = backup_created })

  unfoldable pub rotate_s3_credentials : Str → Str → Str → Bool → Exec Rotation RotationResult
  rotate_s3_credentials cred_file new_access_key new_secret_key has_reload_tx s =
      if Disk.exists s.disk cred_file
      then (prepare cred_file new_access_key new_secret_key s.disk.now
            >>= replace cred_file has_reload_tx s.disk.now)
          s
      else (err credentials_not_found, s)
