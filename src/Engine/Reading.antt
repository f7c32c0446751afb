-- ===== src/Engine/Reading.antt =====
-- A download only reads the store.
use tummycrypt.Prelude.{ℕ, suc, ◌≡◌, Option, List, [], ◌∷◌, Str, arith}
use tummycrypt.Exec.Inversion.{Keeps, Keeps-bind, Keeps-pure, Keeps-lift, Keeps-context}
use tummycrypt.Manifest.{SyncManifest}
use tummycrypt.Engine.{Deps}
use tummycrypt.Engine.Download.{
  Session, DownloadArgs, fetch, fetch_chunks, update_cache, fetch_manifest, fetch_file, complete,
  download_file_with_device,
}

module _ (D : Deps) (args : DownloadArgs) (P : D.op.State → Type 0)
    (reads : (s : D.op.State) (k : Str) → P s → P (D.op.read k s).1) where
  open D use {op}

  abbrev At : Session op → Type 0
  At st = P st.remote

  At-fetch : (key : Str) → Keeps At (fetch D key)
  unfolding fetch
  At-fetch key s h = reads s.remote key h

  At-fetch_chunks :
      (keys : Option (Str × Str)) (i : ℕ) (hashes : List Str)
      → Keeps At (fetch_chunks D args keys i hashes)
  unfolding fetch_chunks
  At-fetch_chunks keys i [] = Keeps-pure At []
  At-fetch_chunks keys i (hash ∷ hashes) =
      Keeps-bind At _ (Keeps-context At _ _ (At-fetch _)) _ (λ stored.
        Keeps-bind At _ (Keeps-lift At _) _ (λ _. Keeps-bind At _ (Keeps-lift At _) _ (λ plain.
          Keeps-bind At _ (At-fetch_chunks keys (suc i) hashes) _ (λ rest. Keeps-pure At _))))

  At-fetch_file : Keeps At (fetch_file D args)
  unfolding fetch_file fetch_manifest
  At-fetch_file =
      Keeps-bind At _
        (Keeps-bind At _ (Keeps-context At _ _ (At-fetch _)) _
          (λ bytes. Keeps-bind At _ (Keeps-lift At _) _ (λ m. Keeps-lift At _)))
        _
        (λ m. Keeps-bind At _ (Keeps-lift At _) _ (λ keys.
          Keeps-bind At _ (At-fetch_chunks keys 0 m.chunks) _
            (λ bytes. Keeps-bind At _ (Keeps-lift At _) _ (λ _. Keeps-pure At _))))

  remote-update_cache :
      (m : SyncManifest) (bytes : Str) (st : Session op)
      → (update_cache D args m bytes st).1.remote ≡ st.remote
  unfolding update_cache
  remote-update_cache m bytes st = ground arith

  At-update_cache : (m : SyncManifest) (bytes : Str) → Keeps At (update_cache D args m bytes)
  At-update_cache m bytes s h = rw remote-update_cache h

  -- What reading a key does not break holds of the store after a download, however it ends.
  pub Keeps-download : Keeps At (download_file_with_device D args)
  unfolding download_file_with_device complete
  Keeps-download = Keeps-bind At _ At-fetch_file _ (λ file.
      Keeps-bind At _ (λ s h. h) _
        (λ u. Keeps-bind At _ (At-update_cache file.0 file.1) _ (λ v. Keeps-pure At _)))
