-- ===== src/Engine/Integrity.antt =====
-- What a download leaves on the disk, over any store at all: a store that answers wrongly too.
use tummycrypt.Prelude.{
  ℕ, suc, ◌≡◌, ◌≢◌, refl, ◌∙◌, ap, ◌⊎◌, inl, inr, Bool, true, false, Bool-cases, sym, Option, some,
  List, [], ◌∷◌, Str, eq_iff, eq_refl, arith, length,
}
use tummycrypt.Prelude.Dict.{lookup, lookup-insert, insert, erase}
use tummycrypt.Fallible.{Result, ok, err, Error}
use tummycrypt.Exec.{pure, lift, ◌>>=◌}
use tummycrypt.Exec.Inversion.{
  >>=-eq-ok, >>=-eq-err, Keeps, Keeps-bind, Keeps-pure, Keeps-lift, Keeps-context,
}
use tummycrypt.Chunks.{hash_hex}
use tummycrypt.Disk
use tummycrypt.Disk.{Disk, File}
use tummycrypt.Manifest.{SyncManifest}
use tummycrypt.State.{make_sync_state_full}
use tummycrypt.Engine.{Deps, DownloadResult}
use tummycrypt.Engine.Download.{
  Session, DownloadArgs, fetch, fetch_chunks, tmp_path, place, remember, update_cache, check_file,
  fetch_manifest, fetch_file, complete, download_file_with_device,
}

module _ (D : Deps) (args : DownloadArgs) where
  open D use {op, blake3, json}
  open args use {remote_manifest, local_path}

  -- The disk is this one.
  abbrev Untouched : Disk → Session op → Type 0
  Untouched d s = s.disk ≡ d

  Untouched-fetch : (d : Disk) (key : Str) → Keeps (Untouched d) (fetch D key)
  unfolding fetch
  Untouched-fetch d key s h = h

  Untouched-fetch_chunks :
      (d : Disk) (keys : Option (Str × Str)) (i : ℕ) (hashes : List Str)
      → Keeps (Untouched d) (fetch_chunks D args keys i hashes)
  unfolding fetch_chunks
  Untouched-fetch_chunks d keys i [] = Keeps-pure (Untouched d) []
  Untouched-fetch_chunks d keys i (hash ∷ hashes) =
      Keeps-bind (Untouched d) _ (Keeps-context (Untouched d) _ _ (Untouched-fetch d _)) _
        (λ stored. Keeps-bind (Untouched d) _ (Keeps-lift (Untouched d) _) _ (λ _.
          Keeps-bind (Untouched d) _ (Keeps-lift (Untouched d) _) _ (λ plain.
            Keeps-bind (Untouched d) _ (Untouched-fetch_chunks d keys (suc i) hashes) _
              (λ rest. Keeps-pure (Untouched d) _))))

  Untouched-fetch_manifest : (d : Disk) → Keeps (Untouched d) (fetch_manifest D args)
  unfolding fetch_manifest
  Untouched-fetch_manifest d =
      Keeps-bind (Untouched d) _ (Keeps-context (Untouched d) _ _ (Untouched-fetch d _)) _ (λ bytes.
        Keeps-bind (Untouched d) _ (Keeps-lift (Untouched d) _) _ (λ m. Keeps-lift (Untouched d) _))

  pub Untouched-fetch_file : (d : Disk) → Keeps (Untouched d) (fetch_file D args)
  unfolding fetch_file
  Untouched-fetch_file d = Keeps-bind (Untouched d) _ (Untouched-fetch_manifest d) _ (λ m.
      Keeps-bind (Untouched d) _ (Keeps-lift (Untouched d) _) _ (λ keys.
        Keeps-bind (Untouched d) _ (Untouched-fetch_chunks d keys 0 m.chunks) _ (λ bytes.
          Keeps-bind (Untouched d) _ (Keeps-lift (Untouched d) _) _
            (λ _. Keeps-pure (Untouched d) _))))

  -- The content that is fetched has the hash of the manifest.
  hash-fetch_file :
      (st : Session op) {m : SyncManifest} {bytes : Str}
      → (fetch_file D args st).0 ≡ ok (m, bytes)
      → hash_hex blake3 bytes ≡ m.file_hash
  unfolding fetch_file check_file pure lift
  hash-fetch_file st {m} {bytes} h =
      let (m1, _, _, h1) = >>=-eq-ok _ _ st h in
      let (keys, _, _, h2) = >>=-eq-ok _ _ _ h1 in
      let (bytes1, _, _, h3) = >>=-eq-ok _ _ _ h2 in
      let (_, checked, _, h4) = >>=-eq-ok _ _ _ h3 in
      ground (arith, eq_iff (hash_hex blake3 bytes1) m1.file_hash)

  manifest-fetch_file :
      (st : Session op) {m : SyncManifest} {bytes : Str}
      → (fetch_file D args st).0 ≡ ok (m, bytes)
      → (fetch_manifest D args st).0 ≡ ok m
  unfolding fetch_file pure
  manifest-fetch_file st {m} {bytes} h =
      let (m1, e0, _, h1) = >>=-eq-ok _ _ st h in
      let (keys, _, _, h2) = >>=-eq-ok _ _ _ h1 in
      let (bytes1, _, _, h3) = >>=-eq-ok _ _ _ h2 in
      let (_, _, _, h4) = >>=-eq-ok _ _ _ h3 in let same : m1 ≡ m = ground arith in rw same at e0

  abbrev pub placed : Str → Disk → File
  placed bytes d = record { content = bytes; modified = some d.now }

  pub lookup-place :
      (bytes : Str) (d : Disk)
      → (place D args bytes d).0 ≡ ok tt
      → lookup local_path (place D args bytes d).1.files ≡ some (placed bytes d)
  unfolding place Disk.create_dir_all Disk.write Disk.rename
  lookup-place bytes d h =
      let tmp = tmp_path D args in
      let files = insert tmp (placed bytes d) d.files in
      ground (
        arith,
        eq_refl tmp,
        eq_refl local_path,
        lookup-insert tmp tmp (placed bytes d) d.files,
        lookup-insert local_path local_path (placed bytes d) (erase tmp files),
      )

  lookup-place_err :
      (bytes : Str) (d : Disk)
      → tmp_path D args ≢ local_path
      → (place D args bytes d).0 ≢ ok tt
      → lookup local_path (place D args bytes d).1.files ≡ lookup local_path d.files
  unfolding place Disk.create_dir_all Disk.write Disk.rename
  lookup-place_err bytes d apart h =
      let tmp = tmp_path D args in
      ground (
        arith,
        eq_iff tmp local_path,
        lookup-insert tmp tmp (placed bytes d) d.files,
        lookup-insert tmp local_path (placed bytes d) d.files,
      )

  disk-update_cache :
      (m : SyncManifest) (bytes : Str) (st : Session op)
      → (update_cache D args m bytes st).1.disk ≡ st.disk
  unfolding update_cache
  disk-update_cache m bytes st = ground arith

  pub hides-place : (bytes : Str) (d : Disk) → (place D args bytes d).1.hides ≡ d.hides
  unfolding place Disk.create_dir_all Disk.write Disk.rename
  hides-place bytes d = ground arith

  -- The cache can be updated once the file is there, if the system gives its metadata.
  pub update_cache-answers :
      (m : SyncManifest) (bytes : Str) (st : Session op) {f : File}
      → lookup local_path st.disk.files ≡ some f
      → st.disk.hides local_path ≡ false
      → (update_cache D args m bytes st).0 ≡ ok tt
  unfolding update_cache remember make_sync_state_full Disk.metadata
  update_cache-answers m bytes st there given = ground arith

  pub complete-ok :
      (m : SyncManifest) (bytes : Str) (st : Session op) {r : DownloadResult}
      → (complete D args m bytes st).0 ≡ ok r
      → (lookup local_path (complete D args m bytes st).1.disk.files ≡ some (placed bytes st.disk))
        × (r.bytes ≡ length bytes)
  unfolding complete ◌>>=◌
  complete-ok m bytes st h = ground (
    arith,
    lookup-place bytes st.disk,
    disk-update_cache m bytes (record st { disk = (place D args bytes st.disk).1 }),
  )

  -- Where a download ends that fails behind the checks: before the file is in place, or once it is
  -- and the system does not give its metadata.
  complete-err :
      (m : SyncManifest) (bytes : Str) (st : Session op)
      → tmp_path D args ≢ local_path
      → ((r : DownloadResult) → (complete D args m bytes st).0 ≢ ok r)
      → (lookup local_path (complete D args m bytes st).1.disk.files
          ≡ lookup local_path st.disk.files)
        ⊎ ((lookup local_path (complete D args m bytes st).1.disk.files
              ≡ some (placed bytes st.disk))
            × (st.disk.hides local_path ≡ true))
  unfolding complete ◌>>=◌
  complete-err m bytes st apart h = go (place D args bytes st.disk).0 refl
    where
      after : Session op
      after = record st { disk = (place D args bytes st.disk).1 }

      hidden : (place D args bytes st.disk).1.hides ≡ st.disk.hides
      hidden = hides-place bytes st.disk

      go :
          (r : Result (Unit {0}))
          → (place D args bytes st.disk).0 ≡ r
          → (lookup local_path (complete D args m bytes st).1.disk.files
              ≡ lookup local_path st.disk.files)
            ⊎ ((lookup local_path (complete D args m bytes st).1.disk.files
                  ≡ some (placed bytes st.disk))
                × (st.disk.hides local_path ≡ true))
      go (err e) q = inl (rw (q, complete, ◌>>=◌) (lookup-place_err bytes st.disk apart (λ p. cc)))
      go (ok u) q = elim (Bool-cases (st.disk.hides local_path)) [
        | inl hides ↦ inr (
          ground (
            arith,
            lookup-place bytes st.disk q,
            disk-update_cache m bytes (record st { disk = (place D args bytes st.disk).1 }),
          ),
          hides,
        )
        | inr given ↦ absurd (
            h
              (record {
                remote_path = remote_manifest;
                local_path = local_path;
                bytes = length bytes;
              })
              (rw (q, complete, ◌>>=◌)
                (ground (
                  arith,
                  update_cache-answers m bytes after {f = placed bytes st.disk}
                      (lookup-place bytes st.disk q)
                      (ap (λ (f : Str → Bool). f local_path) hidden ∙ given),
                ))))
      ]

  -- A download that succeeds has put into the local file a content whose hash is the one that the
  -- manifest states, and reports its size, whatever the store answered.
  pub download-integrity :
      (st : Session op) {r : DownloadResult}
      → (download_file_with_device D args st).0 ≡ ok r
      → (m : SyncManifest) × (bytes : Str) × ((fetch_manifest D args st).0 ≡ ok m)
        × (hash_hex blake3 bytes ≡ m.file_hash)
        × (lookup local_path (download_file_with_device D args st).1.disk.files
            ≡ some (record { content = bytes; modified = some st.disk.now }))
        × (r.bytes ≡ length bytes)
  unfolding download_file_with_device
  download-integrity st {r} h =
      let (file, e0, s0, h0) = >>=-eq-ok _ _ st h in
      let (_, em, hashed) = fetched file.0 file.1 e0 in
      let (there, size) = complete-ok file.0 file.1 _ h0 in
      let same : (fetch_file D args st).1.disk ≡ st.disk = Untouched-fetch_file st.disk st refl in
      (file.0, file.1, em, hashed, rw s0 (rw same at there), size)
    where
      fetched :
          (m : SyncManifest) (bytes : Str)
          → (fetch_file D args st).0 ≡ ok (m, bytes)
          → Unit {0} × ((fetch_manifest D args st).0 ≡ ok m) × (hash_hex blake3 bytes ≡ m.file_hash)
      fetched m bytes e = (tt, manifest-fetch_file st e, hash-fetch_file st e)

  -- A download that fails, at whatever step, leaves the local file as it was, the old one or none,
  -- or, where the system does not give the metadata of that path, with a content that has the hash
  -- which the manifest states; provided that the path is not that of the temporary file.
  pub download_failed :
      (st : Session op) {e : Error}
      → tmp_path D args ≢ local_path
      → (download_file_with_device D args st).0 ≡ err e
      → (lookup local_path (download_file_with_device D args st).1.disk.files
          ≡ lookup local_path st.disk.files)
        ⊎ ((m : SyncManifest) × (bytes : Str) × ((fetch_manifest D args st).0 ≡ ok m)
            × (hash_hex blake3 bytes ≡ m.file_hash)
            × (lookup local_path (download_file_with_device D args st).1.disk.files
                ≡ some (record { content = bytes; modified = some st.disk.now }))
            × (st.disk.hides local_path ≡ true))
  unfolding download_file_with_device
  download_failed st {e} apart h = elim (>>=-eq-err _ _ st h) [
    | inl (_, s) ↦ inl (ap (λ (t : Session op). lookup local_path t.disk.files) s ∙ rw same)
    | inr (file, got, s, q) ↦
        let at =
          ap (λ (t : Result DownloadResult × Session op). lookup local_path t.1.disk.files) s in
        elim (complete-err file.0 file.1 (fetch_file D args st).1 apart (λ r p. cc)) [
          | inl kept ↦ inl (at ∙ kept ∙ rw same)
          | inr (there, hides) ↦ inr (
            file.0,
            file.1,
            manifest-fetch_file st got,
            hash-fetch_file st got,
            at ∙ there ∙ ap (λ (d : Disk). some (placed file.1 d)) same,
            ap (λ (d : Disk). d.hides local_path) (sym same) ∙ hides,
          )
        ]
  ]
    where
      same : (fetch_file D args st).1.disk ≡ st.disk
      same = Untouched-fetch_file st.disk st refl
