-- ===== src/Platform/FileProvider.antt =====
-- crates/tcfs-file-provider/src/lib.rs: the upload and the fetch of a file, for a provider that is
-- there. `none` is a null pointer, and `lossy` is `String::from_utf8_lossy`.
pub mod Entries
pub mod Storing
pub mod RoundTrip
use tummycrypt.Prelude.{
  ℕ, Bool, true, false, not, ◌&&◌, Option, none, some, List, [], ◌∷◌, ◌++◌, Str, str, if◌then◌else◌,
  length,
}
use tummycrypt.Prelude.Text.Lines.{is_empty, lines}
use tummycrypt.Prelude.Text.Trim.{trim_start, strip_prefix}
use tummycrypt.Prelude.Text.Utf8.{is_utf8}
use tummycrypt.Fallible.{Result, ok, err, missing_field}
use tummycrypt.Exec.{Exec, pure, lift, ◌>>=◌}
use tummycrypt.Disk
use tummycrypt.Disk.{Disk}
use tummycrypt.Conflict.{new}
use tummycrypt.Chunks.{Chunk, chunk_data, slice, small, hash_hex}
use tummycrypt.Manifest.{SyncManifest, from_bytes, to_bytes, chunk_hashes}
use tummycrypt.Remote.{Operator, manifest_key, chunk_key, index_key}
use tummycrypt.Engine.{Deps}
use tummycrypt.Engine.Tree.{remote_path_prefix, index_entry}
use tummycrypt.Platform.{fetch_verified}

pub data TcfsError : Type 0 where
  error_none error_invalid_arg error_storage error_not_found error_internal : TcfsError

pub record Session (O : Operator) : Type 0 where
  pub remote : O.State
  pub disk : Disk

-- The last line that gives a hash counts.
unfoldable pub manifest_hash_of : Str → List Str → Str
unfolding strip_prefix
manifest_hash_of found [] = found
manifest_hash_of found (line ∷ rest) =
    manifest_hash_of
      (elim (strip_prefix (str "manifest_hash=") line) [ some val ↦ val | none ↦ found ]) rest

unfoldable pub ensure_hash : Str → Result Str
ensure_hash hash = if is_empty hash then err missing_field else ok hash

-- What both calls answer at last.
abbrev pub answer : Result (Unit {0}) → TcfsError
answer (ok _) = error_none
answer (err _) = error_storage

-- The manifest of an upload: no clock, and no device.
abbrev pub manifest_of : Str → ℕ → List Str → Str → SyncManifest
manifest_of file_hash size hashes remote_rel = record {
  version = 2;
  file_hash = file_hash;
  file_size = size;
  chunks = hashes;
  vclock = new;
  written_by = [];
  written_at = 0;
  rel_path = some remote_rel;
  encrypted_file_key = none;
}

module _ (D : Deps) (lossy : Str → Str) (remote_prefix : Str) where
  open D use {op, blake3, cdc, json}

  abbrev pub prefix : Str
  prefix = remote_path_prefix remote_prefix

  -- The requests of a fetch.
  unfoldable pub get_file : Str → Exec op.State Str
  get_file item_id = do
    entry ← op.read item_id
    manifest_hash ← lift (ensure_hash (manifest_hash_of [] (lines (lossy entry))))
    bytes ← op.read (manifest_key prefix manifest_hash)
    m ← lift (from_bytes json bytes)
    fetch_verified D prefix (chunk_hashes m)

  unfoldable pub fetch_to : Str → Str → Session op → Result (Unit {0}) × Session op
  fetch_to item_id dest_path s =
      let got = get_file item_id s.remote in
      elim got.0 [
        | err e ↦ (err e, record s { remote = got.1 })
        | ok assembled ↦
            let written = Disk.write s.disk dest_path assembled in
            (written.0, record { remote = got.1; disk = written.1 })
      ]

  -- The requests for the chunks, and their hashes.
  unfoldable pub put_chunks : Str → List Chunk → Exec op.State (List Str)
  put_chunks bytes [] = pure []
  put_chunks bytes (c ∷ chunks) = do
    _ ← op.write (chunk_key prefix (blake3.to_hex c.hash)) (slice bytes c.offset c.length)
    hashes ← put_chunks bytes chunks
    pure (blake3.to_hex c.hash ∷ hashes)

  -- The requests of an upload.
  unfoldable pub put_file : Str → Str → Exec op.State (Unit {0})
  put_file bytes remote_rel = do
    hashes ← put_chunks bytes (chunk_data blake3 cdc bytes small)
    manifest ←
        lift (to_bytes json (manifest_of (hash_hex blake3 bytes) (length bytes) hashes remote_rel))
    _ ← op.write (manifest_key prefix (hash_hex blake3 bytes)) manifest
    op.write (index_key prefix (trim_start b'/' remote_rel)) (
        index_entry (hash_hex blake3 bytes) (length bytes)
          (length (chunk_data blake3 cdc bytes small)))

  unfoldable pub upload_from : Str → Str → Session op → Result (Unit {0}) × Session op
  upload_from local_path remote_rel s = elim (Disk.read s.disk local_path) [
    | err e ↦ (err e, s)
    | ok bytes ↦
        let put = put_file bytes remote_rel s.remote in (put.0, record s { remote = put.1 })
  ]

  -- A call with two texts, which must be there and be UTF-8.
  unfoldable pub call :
      (Str → Str → Session op → Result (Unit {0}) × Session op)
      → Option Str
      → Option Str
      → Session op
      → TcfsError × Session op
  call run none y s = (error_invalid_arg, s)
  call run (some x) none s = (error_invalid_arg, s)
  call run (some x) (some y) s =
      if is_utf8 x && is_utf8 y
      then (let r = run x y s in (answer r.0, r.1))
      else (error_invalid_arg, s)

  abbrev pub tcfs_provider_fetch : Option Str → Option Str → Session op → TcfsError × Session op
  tcfs_provider_fetch item_id dest_path s = call fetch_to item_id dest_path s

  abbrev pub tcfs_provider_upload : Option Str → Option Str → Session op → TcfsError × Session op
  tcfs_provider_upload local_path remote_rel s = call upload_from local_path remote_rel s
