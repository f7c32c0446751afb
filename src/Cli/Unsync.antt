-- ===== src/Cli/Unsync.antt =====
-- crates/tcfs-cli/src/main.rs, `cmd_unsync`: a file gives way to a stub beside it.
pub mod Recovering
use tummycrypt.Prelude.{
  ℕ, Bool, true, false, Option, none, some, List, [], ◌∷◌, ◌++◌, Str, str, ◌==◌, if◌then◌else◌,
  length,
}
use tummycrypt.Prelude.Text.Lines.{is_empty}
use tummycrypt.Prelude.Text.FilePath.{parent, file_name, dir_or_dot, join_name}
use tummycrypt.Fallible.{
  Result, ok, err, path_not_found, opening_state_cache, not_tracked, local_changes, no_filename,
}
use tummycrypt.Exec.{Exec, pure, lift, gets, ◌>>=◌, ◌>>◌}
use tummycrypt.Disk
use tummycrypt.Disk.{Disk}
use tummycrypt.Chunks.{Blake3, hash_hex}
use tummycrypt.Config.{TcfsConfig, StorageConfig}
use tummycrypt.State
use tummycrypt.State.{StateJson, SyncState, open_cache}
use tummycrypt.Fuse.Stub.{StubMeta, to_stub_string, is_stub_path, real_to_stub_name}
use tummycrypt.Cli.{Environment, resolve_state_path}

-- A path is joined by a name beside it.
abbrev pub stub_path : Str → Str
stub_path path = join_name (dir_or_dot (parent path)) (real_to_stub_name (file_name path))

abbrev pub stub_of : TcfsConfig → Str → ℕ → StubMeta
stub_of config hash_hex size = record {
  chunks = 0;
  compressed = false;
  fetched = false;
  oid = str "blake3:" ++ hash_hex;
  origin = str "seaweedfs://" ++ (config.storage.endpoint ++ (b'/' ∷ hash_hex));
  size = size;
}

unfoldable pub ensure_filename : Str → Result (Unit {0})
ensure_filename path = if is_empty (file_name path) then err no_filename else ok tt

module _ (J : StateJson) (B : Blake3) (env : Environment) (config : TcfsConfig) where
  -- The entry of the state cache must have the hash.
  unfoldable pub check_entry : Option SyncState → Str → Result (Unit {0})
  check_entry none hash = err not_tracked
  check_entry (some entry) hash = if entry.blake3 == hash then ok tt else err local_changes

  unfoldable pub check_tracked : Str → Str → Disk → Result (Unit {0})
  unfolding check_entry
  check_tracked path hash d = elim (open_cache J d (resolve_state_path env config none)) [
    | err _ ↦ err opening_state_cache
    | ok state ↦ check_entry (State.get d state path) hash
  ]

  unfoldable pub check_unless : Bool → Str → Str → Disk → Result (Unit {0})
  unfolding check_tracked
  check_unless true path hash d = ok tt
  check_unless false path hash d = check_tracked path hash d

  -- The stub is written before the file goes.
  unfoldable pub replace_by_stub : Str → Str → Exec Disk (Unit {0})
  replace_by_stub path bytes = do
    _ ← lift (ensure_filename path)
    _ ← (λ d.
        Disk.write d (stub_path path)
          (to_stub_string (stub_of config (hash_hex B bytes) (length bytes))))
    (λ d. Disk.remove_file d path)

  unfoldable pub unsync_hydrated : Str → Bool → Exec Disk (Unit {0})
  unsync_hydrated path force = do
    bytes ← (λ d. (Disk.read d path, d))
    _ ← (λ d. (check_unless force path (hash_hex B bytes) d, d))
    replace_by_stub path bytes

  unfoldable pub cmd_unsync : Str → Bool → Exec Disk (Unit {0})
  cmd_unsync path force d =
      if Disk.exists d path
      then (if is_stub_path path then (ok tt, d) else unsync_hydrated path force d)
      else (err path_not_found, d)
