-- ===== src/Engine/Download.antt =====
-- `download_file_with_device`, a part to a function. Logging and the progress callback are left
-- out.
use tummycrypt.Prelude.{
  ℕ, suc, Option, none, some, List, [], ◌∷◌, ◌++◌, Str, str, ◌==◌, if◌then◌else◌, length,
}
use tummycrypt.Prelude.Text.FilePath.{parent, with_extension}
use tummycrypt.Prelude.Text.Lines.{is_empty}
use tummycrypt.Fallible.{
  Result, ok, err, reading_manifest, manifest_has_no_chunks, downloading_chunk, chunk_integrity,
  file_integrity, no_encryption_context, decoding_key, unwrapping_key, parsing_file_hash,
}
use tummycrypt.Exec.{Exec, pure, lift, context, ◌>>=◌, ◌>>◌}
use tummycrypt.Disk
use tummycrypt.Disk.{Disk}
use tummycrypt.Chunks.{hash_hex}
use tummycrypt.Crypto.{decrypt_chunk, unwrap_key}
use tummycrypt.Manifest.{SyncManifest, from_bytes}
use tummycrypt.Conflict.{merge}
use tummycrypt.State
use tummycrypt.State.{StateCache, make_sync_state_full}
use tummycrypt.Remote.{Operator, chunk_key}
use tummycrypt.Engine.{Deps, DownloadResult}
use tummycrypt.Engine.Upload.{vclock_or_default}

-- What a download changes: the store, as far as a read changes it, the disk and the state cache.
pub record Session (O : Operator) : Type 0 where
  pub remote : O.State
  pub disk : Disk
  pub cache : Option StateCache

-- The arguments of a download. `encryption` is the master key, if there is one.
pub record DownloadArgs : Type 0 where
  pub remote_manifest : Str
  pub local_path : Str
  pub remote_prefix : Str
  pub device_id : Str
  pub encryption : Option Str

-- A disk action that gives what it returns and the disk.
abbrev pub on_disk {ℓ} : {O : Operator} {A : Type ℓ} → (Disk → Result A × Disk) → Exec (Session O) A
on_disk m s = let r = m s.disk in (r.0, record s { disk = r.1 })

module _ (D : Deps) where
  open D use {op, blake3, json, aead, base64}

  abbrev pub Run : Type 0 → Type 0
  Run A = Exec (Session op) A

  unfoldable pub fetch : Str → Run Str
  fetch key s = let r = op.read key s.remote in (r.0, record s { remote = r.1 })

  module _ (args : DownloadArgs) where
    open args use {remote_manifest, local_path, remote_prefix, device_id, encryption}

    -- The file key and the file id, if the manifest is encrypted.
    unfoldable pub decryption_keys : SyncManifest → Result (Option (Str × Str))
    decryption_keys m = elim m.encrypted_file_key [
      | none ↦ ok none
      | some encoded ↦ elim encryption [
        | none ↦ err no_encryption_context
        | some master ↦ elim (base64.decode encoded) [
          | none ↦ err decoding_key
          | some wrapped ↦ elim (unwrap_key aead master wrapped) [
            | err e ↦ err unwrapping_key
            | ok fk ↦ elim (blake3.from_hex m.file_hash) [
              | none ↦ err parsing_file_hash
              | some fid ↦ ok (some (fk, fid))
            ]
          ]
        ]
      ]
    ]

    unfoldable pub decode_chunk : Option (Str × Str) → ℕ → Str → Result Str
    decode_chunk none i stored = ok stored
    decode_chunk (some (fk, fid)) i stored = decrypt_chunk aead fk i fid stored

    -- A chunk must have the hash under which the manifest lists it.
    unfoldable pub check_chunk : Str → Str → Result (Unit {0})
    check_chunk hash stored = if hash_hex blake3 stored == hash then ok tt else err chunk_integrity

    -- The loop over the chunk hashes, from index `i`: the plain bytes, put together.
    unfoldable pub fetch_chunks : Option (Str × Str) → ℕ → List Str → Run Str
    fetch_chunks keys i [] = pure []
    fetch_chunks keys i (hash ∷ hashes) = do
      stored ← context downloading_chunk (fetch (chunk_key remote_prefix hash))
      lift (check_chunk hash stored)
      plain ← lift (decode_chunk keys i stored)
      rest ← fetch_chunks keys (suc i) hashes
      pure (plain ++ rest)

    abbrev pub tmp_path : Str
    tmp_path = with_extension local_path (str "tcfs_tmp")

    -- The atomic write: the parent directory, a temporary file, and the renaming.
    unfoldable pub place : Str → Disk → Result (Unit {0}) × Disk
    place bytes d = elim (Disk.create_dir_all d (parent local_path)) [
      | err e ↦ (err e, d)
      | ok _ ↦
          let written = Disk.write d tmp_path bytes in
          elim written.0 [
            | err e ↦ (err e, written.1)
            | ok _ ↦ Disk.rename written.1 tmp_path local_path
          ]
    ]

    -- The clock of the manifest is merged into that of the state cache, if there is one and the
    -- caller has a device.
    unfoldable pub remember : SyncManifest → Str → Disk → StateCache → Result StateCache
    remember m bytes d c =
        if is_empty device_id
        then ok c
        else (let vclock = merge (vclock_or_default (State.get d c local_path)) m.vclock in
            elim (make_sync_state_full d local_path (hash_hex blake3 bytes) (length m.chunks)
              remote_manifest vclock device_id) [
                | err e ↦ err e
                | ok s ↦ ok (State.set d c local_path s)
              ])

    unfoldable pub update_cache : SyncManifest → Str → Run (Unit {0})
    update_cache m bytes st = elim st.cache [
      | none ↦ (ok tt, st)
      | some c ↦ elim (remember m bytes st.disk c) [
        | err e ↦ (err e, st)
        | ok c' ↦ (ok tt, record st { cache = some c' })
      ]
    ]

    unfoldable pub check_file : SyncManifest → Str → Result (Unit {0})
    check_file m bytes = if hash_hex blake3 bytes == m.file_hash then ok tt else err file_integrity

    -- The manifest, with at least one chunk.
    unfoldable pub fetch_manifest : Run SyncManifest
    fetch_manifest = do
      bytes ← context reading_manifest (fetch remote_manifest)
      m ← lift (from_bytes json bytes)
      lift (if is_empty m.chunks then err manifest_has_no_chunks else ok m)

    -- Everything before the disk is touched: the manifest and the checked content.
    unfoldable pub fetch_file : Run (SyncManifest × Str)
    fetch_file = do
      m ← fetch_manifest
      keys ← lift (decryption_keys m)
      bytes ← fetch_chunks keys 0 m.chunks
      lift (check_file m bytes)
      pure (m, bytes)

    -- What follows the checks: the file, then the state cache.
    unfoldable pub complete : SyncManifest → Str → Run DownloadResult
    complete m bytes = do
      on_disk (place bytes)
      update_cache m bytes
      pure (record { remote_path = remote_manifest; local_path = local_path; bytes = length bytes })

    unfoldable pub download_file_with_device : Run DownloadResult
    download_file_with_device = do file ← fetch_file; complete file.0 file.1

  -- A download with no device, no state cache and no encryption.
  abbrev pub download_file : DownloadArgs → op.State → Disk → Result DownloadResult × Session op
  download_file args remote disk =
      download_file_with_device (record args { device_id = []; encryption = none })
        (record { remote = remote; disk = disk; cache = none })
