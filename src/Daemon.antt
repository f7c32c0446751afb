-- ===== src/Daemon.antt =====
-- crates/tcfsd/src/grpc.rs: the calls that download, hydrate, unsync and settle conflicts. A call that waits
-- for a lock which it holds itself never answers: its result is `none`. A transport error is `err`;
-- an answer that reports a failure names it in `error`.
pub mod Resolving
use tummycrypt.Prelude.{
  ℕ, ◌≡◌, Bool, true, false, not, ◌||◌, Option, none, some, List, [], ◌∷◌, ◌++◌, Str, str, ◌==◌,
  if◌then◌else◌,
}
use tummycrypt.Prelude.Text.Lines.{is_empty}
use tummycrypt.Prelude.Text.FilePath.{parent, file_stem, extension, join_name}
use tummycrypt.Fallible.{
  Result, ok, err, or_err, ◌>>=◌, stub_not_utf8, no_real_name, no_blake3_prefix, Error, unavailable,
  manifest_serialize, manifest_upload, invalid_resolution, no_local_state, no_remote_path,
  rename_failed, download_failed_after, not_in_sync_state, flush_failed_unsync,
}
use tummycrypt.Disk
use tummycrypt.Disk.{Disk}
use tummycrypt.Chunks.{hash_hex}
use tummycrypt.Conflict.{VectorClock, new, tick}
use tummycrypt.Manifest.{SyncManifest, to_bytes}
use tummycrypt.State
use tummycrypt.State.{StateCache, StateJson, SyncState, Reason, needs_sync}
use tummycrypt.Remote.{Operator, manifest_key}
use tummycrypt.Prelude.Text.Utf8.{is_utf8}
use tummycrypt.Fuse.Stub.{parse_stub, stub_to_real_name, blake3_hex}
use tummycrypt.Engine.{Deps, DownloadResult}
use tummycrypt.Engine.Upload.{vclock_or_default}
use tummycrypt.Engine.Download
use tummycrypt.Engine.Download.{DownloadArgs, download_file_with_device}
use tummycrypt.Worker.{StateEvent, conflict_resolved}

-- What is fixed: the bucket, the device, and whether there is an operator and a NATS client.
pub record Config : Type 0 where
  pub bucket : Str
  pub device_id : Str
  pub has_operator : Bool
  pub has_nats : Bool

-- What the calls change, and whether the lock of the operator is held.
pub record Daemon (O : Operator) : Type 0 where
  pub remote : O.State
  pub disk : Disk
  pub cache : StateCache
  pub operator_locked : Bool
  pub published : List StateEvent

-- `ResolveConflictResponse`
pub record Resolved : Type 0 where
  pub success : Bool
  pub resolved_path : Str
  pub error : Option Error

abbrev pub failure : Error → Resolved
failure e = record { success = false; resolved_path = []; error = some e }

abbrev pub success_at : Str → Resolved
success_at path = record { success = true; resolved_path = path; error = none }

-- `HydrateProgress`, the one that the answer streams.
pub record HydrateProgress : Type 0 where
  pub bytes_received : ℕ
  pub total_bytes : ℕ
  pub local_path : Str
  pub error : Option Error

-- What a stub says of its file: its size, the path of the file, and the hash of the manifest.
pub record Stub : Type 0 where
  pub size : ℕ
  pub real_path : Str
  pub blake3_hex : Str

unfoldable pub read_stub : Disk → Str → Result Stub
read_stub disk stub_path = do
  content ← Disk.read disk stub_path
  text ← or_err stub_not_utf8 (if is_utf8 content then some content else none)
  meta ← parse_stub text
  real_path ← or_err no_real_name (stub_to_real_name stub_path)
  hex ← or_err no_blake3_prefix (blake3_hex meta)
  ok (record { size = meta.size; real_path = real_path; blake3_hex = hex })

-- `SyncStatusResponse`, whose times and sizes come from the entry.
pub record Status : Type 0 where
  pub state : Str
  pub blake3 : Str
  pub size : ℕ
  pub last_synced : ℕ

-- `map(…).unwrap_or_default()`
abbrev pub remote_path_of : Option SyncState → Str
remote_path_of none = []
remote_path_of (some s) = s.remote_path

abbrev pub dir_of : Option Str → Str
dir_of none = []
dir_of (some dir) = dir

abbrev pub dotted : Option Str → Str
dotted none = []
dotted (some ext) = b'.' ∷ ext

-- `{stem}.conflict-{device}{ext}` beside the file.
abbrev pub conflict_path : Str → Str → Str
conflict_path device path =
    join_name (dir_of (parent path))
      (file_stem path ++ (str ".conflict-" ++ (device ++ dotted (extension path))))

module _ (D : Deps) (J : StateJson) (cfg : Config) where
  open D use {op, json, blake3}
  open cfg use {bucket, device_id, has_operator, has_nats}

  abbrev pub Run : Type 0 → Type 0
  Run A = Daemon op → Option (Result A × Daemon op)

  -- `lock().await`: for a lock that the call holds itself it waits for ever.
  unfoldable pub lock_operator : Daemon op → Option (Daemon op)
  lock_operator d = if d.operator_locked then none else some (record d { operator_locked = true })

  -- A guard goes at the end of its scope, or where it is dropped.
  unfoldable pub unlock_operator : Daemon op → Daemon op
  unlock_operator d = record d { operator_locked = false }

  unfoldable pub publish_conflict_resolved : Str → Str → Daemon op → Daemon op
  publish_conflict_resolved rel_path resolution d =
      if has_nats
      then record d {
        published =
            conflict_resolved device_id rel_path resolution
              (vclock_or_default (State.get d.disk d.cache rel_path)) d.disk.now
            ∷ d.published;
      }
      else d

  abbrev pub download_args : Str → Str → DownloadArgs
  download_args remote_path local_path = record {
    remote_manifest = remote_path;
    local_path = local_path;
    remote_prefix = bucket;
    device_id = device_id;
    encryption = none;
  }

  abbrev pub cache_or : Option StateCache → StateCache → StateCache
  cache_or none c = c
  cache_or (some c) _ = c

  -- `download_file_with_device` with the state cache.
  unfoldable pub download_to : Str → Str → Daemon op → Result DownloadResult × Daemon op
  download_to remote_path local_path d =
      let run =
        download_file_with_device D (download_args remote_path local_path)
          (record { remote = d.remote; disk = d.disk; cache = some d.cache }) in
      (
        run.0,
        record d { remote = run.1.remote; disk = run.1.disk; cache = cache_or run.1.cache d.cache },
      )

  unfoldable pub on_operator : Run DownloadResult → Run DownloadResult
  on_operator next d = if has_operator then next d else some (err unavailable, unlock_operator d)

  -- `pull`: the guard is held to the end.
  unfoldable pub pull : Str → Str → Run DownloadResult
  pull remote_path local_path d = elim (lock_operator d) [
    | none ↦ none
    | some locked ↦
        on_operator
          (λ e. let r = download_to remote_path local_path e in some (r.0, unlock_operator r.1))
          locked
  ]

  -- The part that `hydrate`, `keep_remote` and `keep_both` share: the guard that was taken first is hidden by
  -- a new name and still held when the lock is taken again.
  unfoldable pub download_locked : Str → Str → Run DownloadResult
  download_locked remote_path local_path d = elim (lock_operator d) [
    | none ↦ none
    | some locked ↦
        on_operator
          (λ e. elim (lock_operator e) [
            | none ↦ none
            | some twice ↦
                let r = download_to remote_path local_path (unlock_operator twice) in
                some (r.0, unlock_operator r.1)
          ])
          locked
  ]

  -- The stub goes once its file is there; a stub that cannot be removed stays.
  unfoldable pub on_hydrated :
      Str
      → Stub
      → Option (Result DownloadResult × Daemon op)
      → Option (Result HydrateProgress × Daemon op)
  on_hydrated stub_path t none = none
  on_hydrated stub_path t (some (ok r, d)) = some (
    ok (record {
      bytes_received = r.bytes;
      total_bytes = t.size;
      local_path = t.real_path;
      error = none;
    }),
    record d { disk = (Disk.remove_file d.disk stub_path).1 },
  )
  on_hydrated stub_path t (some (err unavailable, d)) = some (err unavailable, d)
  on_hydrated stub_path t (some (err e, d)) =
      some (
        ok (record { bytes_received = 0; total_bytes = t.size; local_path = []; error = some e }),
        d,
      )

  unfoldable pub hydrate : Str → Run HydrateProgress
  hydrate stub_path d = elim (read_stub d.disk stub_path) [
    | err e ↦ some (err e, d)
    | ok t ↦
        on_hydrated stub_path t (download_locked (manifest_key bucket t.blake3_hex) t.real_path d)
  ]

  unfoldable pub unsync : Str → Run Resolved
  unsync path d = elim (State.get d.disk d.cache path) [
    | none ↦ some (ok (failure not_in_sync_state), d)
    | some entry ↦
        let flushed = State.flush J (State.remove d.disk d.cache path) d.disk in
        let after = record d { cache = flushed.1; disk = flushed.2 } in
        elim flushed.0 [
          | ok _ ↦ some (ok (success_at []), after)
          | err e ↦ some (ok (failure flush_failed_unsync), after)
        ]
  ]

  abbrev pub pending : Result (Option Reason) → Str
  pending (ok none) = str "unknown"
  pending (ok (some reason)) = str "pending"
  pending (err e) = str "unknown"

  unfoldable pub sync_status : Str → Daemon op → Status
  sync_status path d = elim (State.get d.disk d.cache path) [
    | some entry ↦ record {
      state = str "synced";
      blake3 = entry.blake3;
      size = entry.size;
      last_synced = entry.last_synced;
    }
    | none ↦ record {
      state = pending (needs_sync (hash_hex blake3) d.disk d.cache path);
      blake3 = [];
      size = 0;
      last_synced = 0;
    }
  ]

  -- The manifest that `keep_local` writes.
  abbrev pub kept_manifest : Str → SyncState → ℕ → SyncManifest
  kept_manifest path s now = record {
    version = 2;
    file_hash = s.blake3;
    file_size = s.size;
    chunks = [];
    vclock = tick s.vclock device_id;
    written_by = device_id;
    written_at = now;
    rel_path = some path;
    encrypted_file_key = none;
  }

  -- The upload of the manifest, if there is an operator.
  unfoldable pub upload_manifest : Str → SyncManifest → Daemon op → Result (Unit {0}) × Daemon op
  upload_manifest key m d = if not has_operator then (ok tt, d) else elim (to_bytes json m) [
    | err e ↦ (err manifest_serialize, d)
    | ok bytes ↦
        let r = op.write key bytes d.remote in
        (elim r.0 [ ok _ ↦ ok tt | err e ↦ err manifest_upload ], record d { remote = r.1 })
  ]

  -- The entry with its new clock; the failure of the flush is passed over.
  unfoldable pub update_entry : Str → VectorClock → Daemon op → Daemon op
  update_entry path vclock d = elim (State.get d.disk d.cache path) [
    | none ↦ d
    | some entry ↦
        let updated = record entry { vclock = vclock; last_synced = d.disk.now } in
        let flushed = State.flush J (State.set d.disk d.cache path updated) d.disk in
        record d { cache = flushed.1; disk = flushed.2 }
  ]

  unfoldable pub keep_local : Str → Run Resolved
  keep_local path d = elim (State.get d.disk d.cache path) [
    | none ↦ some (ok (failure no_local_state), d)
    | some s ↦ elim (lock_operator d) [
      | none ↦ none
      | some locked ↦
          let run = upload_manifest s.remote_path (kept_manifest path s d.disk.now) locked in
          let free = unlock_operator run.1 in
          elim run.0 [
            | err e ↦ some (err e, free)
            | ok _ ↦ some (
              ok (success_at path),
              publish_conflict_resolved path (str "keep_local")
                  (update_entry path (tick s.vclock device_id) free),
            )
          ]
    ]
  ]

  -- The answer to a download that ended.
  unfoldable pub on_downloaded :
      Str
      → Str
      → Str
      → Option (Result DownloadResult × Daemon op)
      → Option (Result Resolved × Daemon op)
  on_downloaded path resolution resolved none = none
  on_downloaded path resolution resolved (some (ok r, d)) =
      some (ok (success_at resolved), publish_conflict_resolved path resolution d)
  on_downloaded path resolution resolved (some (err unavailable, d)) = some (err unavailable, d)
  on_downloaded path resolution resolved (some (err e, d)) =
      some (ok (failure download_failed_after), d)

  unfoldable pub keep_remote : Str → Run Resolved
  keep_remote path d =
      let remote_path = remote_path_of (State.get d.disk d.cache path) in
      if is_empty remote_path
      then some (ok (failure no_remote_path), d)
      else on_downloaded path (str "keep_remote") path (download_locked remote_path path d)

  -- A download that fails behind the renaming has the file renamed back, if that can be done.
  unfoldable pub on_renamed :
      Str → Str → Option (Result DownloadResult × Daemon op) → Option (Result Resolved × Daemon op)
  on_renamed path other none = none
  on_renamed path other (some (ok r, d)) =
      some (ok (success_at other), publish_conflict_resolved path (str "keep_both") d)
  on_renamed path other (some (err unavailable, d)) = some (err unavailable, d)
  on_renamed path other (some (err e, d)) =
      some
        (ok (failure download_failed_after), record d { disk = (Disk.rename d.disk other path).1 })

  unfoldable pub keep_both : Str → Run Resolved
  keep_both path d =
      let remote_path = remote_path_of (State.get d.disk d.cache path) in
      let other = conflict_path device_id path in
      if is_empty remote_path
      then some (ok (failure no_remote_path), d)
      else if Disk.exists d.disk path
      then (let renamed = Disk.rename d.disk path other in
          elim renamed.0 [
            | err e ↦ some (ok (failure rename_failed), d)
            | ok _ ↦
                on_renamed path other
                  (download_locked remote_path path (record d { disk = renamed.1 }))
          ])
      else on_renamed path other (download_locked remote_path path d)

  unfoldable pub resolve_conflict : Str → Str → Run Resolved
  resolve_conflict path resolution d =
      if resolution == str "defer"
      then some (ok (success_at path), d)
      else if resolution == str "keep_local"
      then keep_local path d
      else if resolution == str "keep_remote"
      then keep_remote path d
      else if resolution == str "keep_both"
      then keep_both path d
      else some (ok (failure invalid_resolution), d)
