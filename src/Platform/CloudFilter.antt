-- ===== src/Platform/CloudFilter.antt =====
-- crates/tcfs-cloudfilter/src/hydration.rs, `handle_fetch_data`, for a file identity that is UTF-8.
pub mod Agreement
use tummycrypt.Prelude.{List, [], ◌∷◌, ◌++◌, Str, ◌==◌, if◌then◌else◌, not, ◌&&◌}
use tummycrypt.Prelude.Text.Lines.{is_empty}
use tummycrypt.Fallible.{Result, ok, err, reading_manifest, manifest_has_no_chunks, file_integrity}
use tummycrypt.Exec.{Exec, pure, lift, context, ◌>>=◌}
use tummycrypt.Chunks.{hash_hex}
use tummycrypt.Manifest.{SyncManifest, from_bytes, chunk_hashes}
use tummycrypt.Remote.{Operator, manifest_key}
use tummycrypt.Engine.{Deps}
use tummycrypt.Engine.Tree.{remote_path_prefix}
use tummycrypt.Platform.{fetch_verified}

module _ (D : Deps) where
  open D use {op, blake3, json}

  unfoldable pub ensure_chunks : SyncManifest → Result (Unit {0})
  ensure_chunks m = if is_empty (chunk_hashes m) then err manifest_has_no_chunks else ok tt

  -- A manifest that has no hash of the file, as in v1, is not checked against it.
  unfoldable pub verify_file : SyncManifest → Str → Result (Unit {0})
  verify_file m assembled =
      if is_empty m.file_hash
      then ok tt
      else if hash_hex blake3 assembled == m.file_hash
      then ok tt
      else err file_integrity

  unfoldable pub handle_fetch_data : Str → Str → Exec op.State Str
  handle_fetch_data remote_prefix file_identity = do
    bytes ←
        context reading_manifest
          (op.read (manifest_key (remote_path_prefix remote_prefix) file_identity))
    m ← lift (from_bytes json bytes)
    _ ← lift (ensure_chunks m)
    assembled ← fetch_verified D (remote_path_prefix remote_prefix) (chunk_hashes m)
    _ ← lift (verify_file m assembled)
    pure assembled
