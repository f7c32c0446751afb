-- ===== src/Engine/Upload.antt =====
-- `upload_file_with_device`, a part to a function. Logging and the progress callback are left out.
use tummycrypt.Prelude.{
  ℕ, suc, Bool, true, false, ◌&&◌, Option, none, some, List, [], ◌∷◌, Str, if◌then◌else◌, length,
}
use tummycrypt.Prelude.Text.Lines.{is_empty}
use tummycrypt.Fallible.{
  Result, ok, err, or_false, panicked, chunking_failed, uploading_chunk, uploading_manifest,
  parsing_file_hash,
}
use tummycrypt.Exec.{Exec, pure, lift, gets, modify, attempt, context, ◌>>=◌, ◌>>◌}
use tummycrypt.Chunks.{Chunk, chunk_file, hash_hex, slice}
use tummycrypt.Crypto.{encrypt_chunk, wrap_key}
use tummycrypt.Manifest.{SyncManifest, from_bytes, to_bytes}
use tummycrypt.Conflict.{
  VectorClock, new, tick, merge, SyncOutcome, local_newer, remote_newer, up_to_date, conflict,
  compare_clocks,
}
use tummycrypt.State
use tummycrypt.State.{StateCache, SyncState, Reason, needs_sync, make_sync_state_full}
use tummycrypt.Remote.{manifest_key, chunk_key}
use tummycrypt.Engine.{Deps, Session, UploadArgs, UploadResult}

-- The file as it was read and cut.
pub record Prepared : Type 0 where
  pub chunks : List Chunk
  pub bytes : Str
  pub hash : Str

-- After the look at the remote manifest the upload is finished, or goes on with a clock.
pub data Decision : Type 0 where
  finished : UploadResult → Decision
  proceed : VectorClock → Option SyncOutcome → Decision

abbrev pub or_empty : Option Str → Str
or_empty none = []
or_empty (some s) = s

abbrev pub vclock_or_default : Option SyncState → VectorClock
vclock_or_default none = new
vclock_or_default (some s) = s.vclock

module _ (D : Deps) where
  open D use {op, blake3, cdc, json, aead, base64}

  abbrev pub Run : Type 0 → Type 0
  Run A = Exec (Session op) A

  -- A request to the store, in an upload.
  unfoldable pub request {ℓ} : {A : Type ℓ} → Exec op.State A → Exec (Session op) A
  request m s = let r = m s.remote in (r.0, record s { remote = r.1 })

  unfoldable pub exists_or_false : Str → Run Bool
  exists_or_false key = do found ← attempt (request (op.exists key)); pure (or_false found)

  module _ (args : UploadArgs) where
    open args use {disk, local_path, remote_prefix, device_id, rel_path, encryption, draws}

    -- The fast path: the result for a file that is unchanged since its last sync.
    abbrev pub unchanged : StateCache → Result UploadResult
    unchanged c = elim (State.get disk c local_path) [
      | none ↦ err panicked
      | some cached ↦ ok (record {
        path = local_path;
        remote_path = cached.remote_path;
        hash = cached.blake3;
        chunks = cached.chunk_count;
        bytes = cached.size;
        skipped = true;
        outcome = some up_to_date;
      })
    ]

    unfoldable pub prepare : Result Prepared
    prepare = elim (chunk_file blake3 cdc disk local_path) [
      | err e ↦ err chunking_failed
      | ok (chunks, bytes) ↦
          ok (record { chunks = chunks; bytes = bytes; hash = hash_hex blake3 bytes })
    ]

    abbrev pub result : Prepared → Bool → Option SyncOutcome → UploadResult
    result p skipped outcome = record {
      path = local_path;
      remote_path = manifest_key remote_prefix p.hash;
      hash = p.hash;
      chunks = length p.chunks;
      bytes = length p.bytes;
      skipped = skipped;
      outcome = outcome;
    }

    -- `make_sync_state_full` and `state.set`.
    unfoldable pub record_state : Prepared → VectorClock → Run (Unit {0})
    record_state p vclock = do
      s ← lift (
          make_sync_state_full disk local_path p.hash (length p.chunks)
            (manifest_key remote_prefix p.hash) vclock device_id)
      modify (λ st. record st { cache = State.set disk st.cache local_path s })

    -- The `match` on the outcome of comparing with the remote manifest.
    unfoldable pub act : Prepared → VectorClock → SyncManifest → SyncOutcome → Run Decision
    act p vclock m remote_newer = pure (finished (result p true (some remote_newer)))
    act p vclock m (conflict info) = pure (finished (result p true (some (conflict info))))
    act p vclock m up_to_date = do
      record_state p vclock
      pure (finished (result p true (some up_to_date)))
    act p vclock m local_newer = pure (proceed (merge vclock m.vclock) (some local_newer))

    abbrev pub outcome_of : Prepared → VectorClock → SyncManifest → SyncOutcome
    outcome_of p vclock m =
        compare_clocks disk.now vclock m.vclock p.hash m.file_hash (or_empty rel_path) device_id
          m.written_by

    -- A manifest that cannot be read or cannot be parsed is passed over.
    unfoldable pub on_manifest : Prepared → VectorClock → Result SyncManifest → Run Decision
    on_manifest p vclock (err e) = pure (proceed vclock none)
    on_manifest p vclock (ok m) = act p vclock m (outcome_of p vclock m)

    unfoldable pub on_read : Prepared → VectorClock → Result Str → Run Decision
    on_read p vclock (err e) = pure (proceed vclock none)
    on_read p vclock (ok bytes) = on_manifest p vclock (from_bytes json bytes)

    -- Conflict detection, for a caller with a device.
    unfoldable pub check_remote : Prepared → VectorClock → Run Decision
    check_remote p vclock = if is_empty device_id then pure (proceed vclock none) else (do
      found ← exists_or_false (manifest_key remote_prefix p.hash)
      if found
          then (do
            read ← attempt (request (op.read (manifest_key remote_prefix p.hash)))
            on_read p vclock read)
          else pure (proceed vclock none))

    -- Content that is stored already, for a caller without a device.
    unfoldable pub check_stored : Prepared → VectorClock → Option SyncOutcome → Run Bool
    check_stored p vclock (some outcome) = pure false
    check_stored p vclock none = do
      found ← exists_or_false (manifest_key remote_prefix p.hash)
      pure (found && is_empty device_id)

    -- The file key and the file id, if the chunks are encrypted.
    unfoldable pub encryption_keys : Prepared → Result (Option (Str × Str))
    encryption_keys p = elim encryption [
      | none ↦ ok none
      | some master ↦ elim (blake3.from_hex p.hash) [
        | none ↦ err parsing_file_hash
        | some fid ↦ ok (some (draws.file_key, fid))
      ]
    ]

    -- What is stored of a chunk, and its hash: of the ciphertext if there is one.
    unfoldable pub encode_chunk : Option (Str × Str) → Str → ℕ → Chunk → Result (Str × Str)
    encode_chunk none bytes i c = ok (slice bytes c.offset c.length, blake3.to_hex c.hash)
    encode_chunk (some (fk, fid)) bytes i c =
        elim (encrypt_chunk aead (draws.chunk_nonce i) fk i fid (slice bytes c.offset c.length)) [
          | err e ↦ err e
          | ok ciphertext ↦ ok (ciphertext, hash_hex blake3 ciphertext)
        ]

    unfoldable pub put_chunk : Str → Str → Run (Unit {0})
    put_chunk hash stored = do
      found ← exists_or_false (chunk_key remote_prefix hash)
      if found
          then pure tt
          else context uploading_chunk (request (op.write (chunk_key remote_prefix hash) stored))

    -- The loop over the chunks, from index `i`: the hashes in order.
    unfoldable pub upload_chunks : Option (Str × Str) → Str → ℕ → List Chunk → Run (List Str)
    upload_chunks keys bytes i [] = pure []
    upload_chunks keys bytes i (c ∷ chunks) = do
      (stored, hash) ← lift (encode_chunk keys bytes i c)
      put_chunk hash stored
      hashes ← upload_chunks keys bytes (suc i) chunks
      pure (hash ∷ hashes)

    -- The wrapped file key of the manifest.
    unfoldable pub wrapped_key : Option (Str × Str) → Result (Option Str)
    wrapped_key keys = elim encryption [
      | none ↦ ok none
      | some master ↦ elim keys [
        | none ↦ ok none
        | some (fk, fid) ↦ elim (wrap_key aead draws.wrap_nonce master fk) [
          | err e ↦ err e
          | ok wrapped ↦ ok (some (base64.encode wrapped))
        ]
      ]
    ]

    abbrev pub manifest_of : Prepared → VectorClock → List Str → Option Str → SyncManifest
    manifest_of p vclock hashes wrapped = record {
      version = 2;
      file_hash = p.hash;
      file_size = length p.bytes;
      chunks = hashes;
      vclock = vclock;
      written_by = device_id;
      written_at = disk.now;
      rel_path = rel_path;
      encrypted_file_key = wrapped;
    }

    -- The local clock ticks before it is written.
    abbrev pub ticked : VectorClock → VectorClock
    ticked vclock = if is_empty device_id then vclock else tick vclock device_id

    -- All chunks, then the manifest, then the state cache.
    unfoldable pub store : Prepared → VectorClock → Option SyncOutcome → Run UploadResult
    store p vclock outcome = do
      keys ← lift (encryption_keys p)
      hashes ← upload_chunks keys p.bytes 0 p.chunks
      wrapped ← lift (wrapped_key keys)
      bytes ← lift (to_bytes json (manifest_of p vclock hashes wrapped))
      context uploading_manifest (request (op.write (manifest_key remote_prefix p.hash) bytes))
      record_state p vclock
      pure (result p false outcome)

    -- What follows the look at the remote manifest.
    unfoldable pub finish : Prepared → Decision → Run UploadResult
    finish p (finished r) = pure r
    finish p (proceed vclock outcome) = do
      stored ← check_stored p vclock outcome
      if stored
          then (do record_state p vclock; pure (result p false none))
          else store p (ticked vclock) outcome

    unfoldable pub upload_changed : Run UploadResult
    upload_changed = do
      p ← lift prepare
      cached ← gets (λ st. State.get disk st.cache local_path)
      decision ← check_remote p (vclock_or_default cached)
      finish p decision

    -- The `match` on `needs_sync`.
    unfoldable pub on_needed : Option Reason → Run UploadResult
    on_needed none = do r ← gets (λ st. unchanged st.cache); lift r
    on_needed (some reason) = upload_changed

    unfoldable pub upload_file_with_device : Run UploadResult
    upload_file_with_device = do
      needed ← gets (λ st. needs_sync (hash_hex blake3) disk st.cache local_path)
      reason ← lift needed
      on_needed reason

  -- An upload with no device, no relative path and no encryption.
  abbrev pub upload_file : UploadArgs → Run UploadResult
  upload_file args =
      upload_file_with_device (record args { device_id = []; rel_path = none; encryption = none })
