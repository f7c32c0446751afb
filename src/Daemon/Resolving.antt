-- ===== src/Daemon/Resolving.antt =====
-- crates/tcfsd/src/grpc.rs: what becomes of a file whose conflict is settled or that is hydrated.
use tummycrypt.Disk
use tummycrypt.Disk.{Disk}
use tummycrypt.Prelude.{ℕ, ◌<◌, ◌∷◌, ◌++◌, All-append}
use tummycrypt.Prelude.Text.Lines.{IsLine}
use tummycrypt.Prelude.Text.Utf8.{is_utf8}
use tummycrypt.Fuse.Index.{u64_bound}
use tummycrypt.Fuse.Stub.{blake3_hex, to_stub_string, for_upload, real_to_stub_name}
use tummycrypt.Fuse.Stub.Reading.{parse_stub-to_stub_string, stub_to_real_name-real_to_stub_name}
use tummycrypt.Prelude.{
  ◌≡◌, ◌≢◌, refl, ap, sym, ◌∙◌, if◌then◌else◌, true, false, none, some, [], Str, str, ◌==◌, arith,
}
use tummycrypt.Prelude.Text.Lines.{is_empty}
use tummycrypt.Fallible.{Result, ok, err, reading_manifest, manifest_has_no_chunks}
use tummycrypt.Exec.{lift}
use tummycrypt.Exec.Inversion.{>>=-eq-ok, context-eq-ok}
use tummycrypt.Conflict.{VectorClock, tick}
use tummycrypt.Manifest
use tummycrypt.Manifest.{SyncManifest, from_bytes, to_bytes}
use tummycrypt.Manifest.Versions.{from_bytes-to_bytes}
use tummycrypt.State
use tummycrypt.State.{StateJson, SyncState}
use tummycrypt.Remote.{IsLawful, manifest_key}
use tummycrypt.Engine.{Deps, DownloadResult}
use tummycrypt.Engine.Download
use tummycrypt.Engine.Download.{
  DownloadArgs, fetch, fetch_manifest, fetch_file, download_file_with_device,
}
use tummycrypt.Daemon.{
  read_stub, hydrate, on_hydrated, Config, Daemon, success_at, remote_path_of, lock_operator,
  unlock_operator, publish_conflict_resolved, on_operator, download_locked, upload_manifest,
  update_entry, kept_manifest, keep_local, on_downloaded, keep_remote, resolve_conflict,
}

module _ (D : Deps) (J : StateJson) (cfg : Config) where
  open D use {op, json}
  open cfg use {has_operator, device_id}

  -- The lock is free and taken twice.
  download_locked-waits :
      (remote_path path : Str) (d : Daemon op)
      → has_operator ≡ true
      → download_locked D J cfg remote_path path d ≡ none
  unfolding download_locked lock_operator on_operator
  download_locked-waits remote_path path d there = ground arith

  -- Where the daemon has an operator, settling a conflict with the remote version never answers,
  -- whatever the store holds: for a path that was synced, the call waits for the lock of the
  -- operator while it holds it.
  pub keep_remote-waits :
      (path : Str) (d : Daemon op)
      → has_operator ≡ true
      → is_empty (remote_path_of (State.get d.disk d.cache path)) ≡ false
      → resolve_conflict D J cfg path (str "keep_remote") d ≡ none
  unfolding resolve_conflict keep_remote on_downloaded ◌==◌
  keep_remote-waits path d there synced = rw (synced, download_locked-waits _ path d there) refl

  -- A stub that was written for an upload says what was written.
  read_stub-for_upload :
      (name hash prefix rel_path : Str) (size chunks : ℕ) (disk : Disk)
      → IsLine hash
      → IsLine (prefix ++ (b'/' ∷ rel_path))
      → chunks < u64_bound
      → size < u64_bound
      → is_utf8 (real_to_stub_name name) ≡ true
      → is_utf8 (to_stub_string (for_upload hash size chunks prefix rel_path)) ≡ true
      → Disk.read disk (real_to_stub_name name)
        ≡ ok (to_stub_string (for_upload hash size chunks prefix rel_path))
      → read_stub disk (real_to_stub_name name)
        ≡ ok (record { size = size; real_path = name; blake3_hex = hash })
  unfolding read_stub blake3_hex
  read_stub-for_upload name hash prefix rel_path size chunks disk h o c s u w found =
      rw
        (
          found,
          w,
          parse_stub-to_stub_string (for_upload hash size chunks prefix rel_path)
              (All-append _ (str "blake3:") hash (ground arith) h)
              (All-append _ (str "seaweedfs://") _ (ground arith) o) c s,
          stub_to_real_name-real_to_stub_name name u,
        )
        refl

  -- A daemon with an operator never answers the hydration of a file whose stub is as `for_upload`
  -- makes it, for a hash and an origin on one line and numbers of 64 bits, where the path and the
  -- text of the stub are UTF-8: the call waits for the lock of the operator while it holds it.
  pub hydrate-waits :
      (name hash prefix rel_path : Str) (size chunks : ℕ) (d : Daemon op)
      → has_operator ≡ true
      → IsLine hash
      → IsLine (prefix ++ (b'/' ∷ rel_path))
      → chunks < u64_bound
      → size < u64_bound
      → is_utf8 (real_to_stub_name name) ≡ true
      → is_utf8 (to_stub_string (for_upload hash size chunks prefix rel_path)) ≡ true
      → Disk.read d.disk (real_to_stub_name name)
        ≡ ok (to_stub_string (for_upload hash size chunks prefix rel_path))
      → hydrate D J cfg (real_to_stub_name name) d ≡ none
  unfolding hydrate on_hydrated
  hydrate-waits name hash prefix rel_path size chunks d there h o c s u w found = ground (
    arith,
    read_stub-for_upload name hash prefix rel_path size chunks d.disk h o c s u w found,
    download_locked-waits (manifest_key cfg.bucket hash) name d there,
  )

  publish_conflict_resolved-remote :
      (path resolution : Str) (d : Daemon op)
      → (publish_conflict_resolved D J cfg path resolution d).remote ≡ d.remote
  unfolding publish_conflict_resolved
  publish_conflict_resolved-remote path resolution d = ground arith

  update_entry-remote :
      (path : Str) (v : VectorClock) (d : Daemon op)
      → (update_entry D J cfg path v d).remote ≡ d.remote
  unfolding update_entry
  update_entry-remote path v d = ground arith

  module _ (L : IsLawful D.op) (law : Manifest.IsLawful D.json) where
    -- A manifest without chunks is refused.
    no_chunks-refused :
        (bytes b : Str) (m m1 m2 : SyncManifest)
        → from_bytes json b ≡ ok m
        → m.chunks ≡ []
        → some bytes ≡ some b
        → from_bytes json bytes ≡ ok m2
        → (if is_empty m2.chunks then err manifest_has_no_chunks else ok m2) ≢ ok m1
    no_chunks-refused bytes b m m1 m2 parsed bare same decoded checked =
        let eq : ok m2 ≡ ok m = cc in
        let none_left : m2.chunks ≡ [] = cc in
        let refused : is_empty m2.chunks ≡ true = ap is_empty none_left in ground arith

    -- No object with a manifest of no chunks is downloaded.
    download-no_chunks :
        (args : DownloadArgs) (st : Download.Session op) (b : Str) (m : SyncManifest)
        → L.object st.remote args.remote_manifest ≡ some b
        → from_bytes json b ≡ ok m
        → m.chunks ≡ []
        → (r : DownloadResult) → (download_file_with_device D args st).0 ≢ ok r
    unfolding download_file_with_device fetch_file fetch_manifest fetch lift
    download-no_chunks args st b m there parsed bare r h =
        let (file, fetched, _, _) = >>=-eq-ok _ _ st h in
        let (m1, e0, _, _) = >>=-eq-ok _ _ st fetched in
        let (bytes, read, _, h1) = >>=-eq-ok _ _ st e0 in
        let found =
          L.read-ok st.remote args.remote_manifest bytes
            (context-eq-ok reading_manifest _ st read).0 in
        let (m2, decoded, _, checked) = >>=-eq-ok _ _ _ h1 in
        no_chunks-refused bytes b m m1 m2 parsed bare (sym found ∙ there) decoded checked

    -- A manifest whose upload is answered is stored.
    upload_manifest-stored :
        (key : Str) (m : SyncManifest) (d : Daemon op)
        → has_operator ≡ true
        → (upload_manifest D J cfg key m d).0 ≡ ok tt
        → (b : Str) × (to_bytes json m ≡ ok b)
          × (L.object (upload_manifest D J cfg key m d).1.remote key ≡ some b)
    unfolding upload_manifest
    upload_manifest-stored key m d there written = go (to_bytes json m) refl
      where
        go :
            (e : Result Str)
            → to_bytes json m ≡ e
            → (b : Str) × (to_bytes json m ≡ ok b)
              × (L.object (upload_manifest D J cfg key m d).1.remote key ≡ some b)
        go (err e) q = ground arith
        go (ok b) q = (b, q, ground (arith, L.object-write_ok d.remote key b))

    -- What follows the upload leaves the store.
    keep_local-remote :
        (path : Str) (s : SyncState) (d d' : Daemon op)
        → has_operator ≡ true
        → State.get d.disk d.cache path ≡ some s
        → keep_local D J cfg path d ≡ some (ok (success_at path), d')
        → (b : Str) × (to_bytes json (kept_manifest D J cfg path s d.disk.now) ≡ ok b)
          × (L.object d'.remote s.remote_path ≡ some b)
    unfolding keep_local lock_operator unlock_operator
    keep_local-remote path s d d' there synced answered =
        go (upload_manifest D J cfg s.remote_path m locked).0 refl
      where
        m : SyncManifest
        m = kept_manifest D J cfg path s d.disk.now

        locked : Daemon op
        locked = record d { operator_locked = true }

        go :
            (e : Result (Unit {0}))
            → (upload_manifest D J cfg s.remote_path m locked).0 ≡ e
            → (b : Str) × (to_bytes json m ≡ ok b) × (L.object d'.remote s.remote_path ≡ some b)
        go (err e) q = ground arith
        go (ok u) q =
            let (b, printed, stored) = upload_manifest-stored s.remote_path m locked there q in
            let free = unlock_operator D J cfg (upload_manifest D J cfg s.remote_path m locked).1 in
            let updated = update_entry D J cfg path (tick s.vclock device_id) free in
            let kept : d'.remote ≡ free.remote = ground (
              arith,
              publish_conflict_resolved-remote path (str "keep_local") updated,
              update_entry-remote path (tick s.vclock device_id) free,
            ) in
            (b, printed, ap (λ w. L.object w s.remote_path) kept ∙ stored)

    -- Where the daemon has an operator, a synced file whose conflict is settled with the local
    -- version can no longer be downloaded: while the store stays what the call left, no download of
    -- its manifest succeeds, for no device and with no key.
    pub keep_local-unreadable :
        (path : Str) (s : SyncState) (d d' : Daemon op)
        → has_operator ≡ true
        → State.get d.disk d.cache path ≡ some s
        → resolve_conflict D J cfg path (str "keep_local") d ≡ some (ok (success_at path), d')
        → (args : DownloadArgs) (st : Download.Session op) → args.remote_manifest ≡ s.remote_path
        → st.remote ≡ d'.remote
        → (r : DownloadResult) → (download_file_with_device D args st).0 ≢ ok r
    unfolding resolve_conflict ◌==◌
    keep_local-unreadable path s d d' there synced answered args st same kept r =
        let (b, printed, stored) = keep_local-remote path s d d' there synced answered in
        let here : L.object st.remote args.remote_manifest ≡ some b = cc stored in
        download-no_chunks args st b (kept_manifest D J cfg path s d.disk.now) here
          (from_bytes-to_bytes json law _ printed) refl r
