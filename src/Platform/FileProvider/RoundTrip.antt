-- ===== src/Platform/FileProvider/RoundTrip.antt =====
-- crates/tcfs-file-provider/src/lib.rs: a file that was uploaded is fetched as it was.
use tummycrypt.Prelude.{
  ◌≡◌, ap, ◌∙◌, true, false, some, [], Str, length, All, All-map, arith, eq_refl, inl, inr,
}
use tummycrypt.Prelude.Text.Lines.{lines}
use tummycrypt.Prelude.Text.Utf8.{is_utf8}
use tummycrypt.Disk.Reading.{write-reads, write-answers}
use tummycrypt.Fallible.{ok, Result-cases}
use tummycrypt.Exec.{lift}
use tummycrypt.Exec.Inversion.{>>=-answers}
use tummycrypt.Disk
use tummycrypt.Disk.{Disk}
use tummycrypt.Chunks.{IsTiling, IsHexLawful, chunk_data, small, hash_hex}
use tummycrypt.Chunks.Tiling.{concat-chunk_data}
use tummycrypt.Manifest
use tummycrypt.Manifest.Versions.{from_bytes-to_bytes}
use tummycrypt.Manifest.{SyncManifest, from_bytes, to_bytes}
use tummycrypt.Remote.{IsLawful, IsReliable, manifest_key}
use tummycrypt.Engine.{Deps}
use tummycrypt.Engine.Tree.{remote_path_prefix}
use tummycrypt.Platform.FileProvider.{
  error_none, Session, manifest_hash_of, ensure_hash, get_file, fetch_to, put_file, upload_from,
  call, tcfs_provider_fetch, tcfs_provider_upload,
}
use tummycrypt.Platform.FileProvider.Entries.{
  IsAscii, IsPrintable, index_entry-IsAscii, manifest_hash_of-index_entry,
}
use tummycrypt.Platform.FileProvider.Storing

module _ (D : Deps) (L : IsLawful D.op) (lossy : Str → Str) (remote_prefix : Str) where
  open D use {op, blake3, cdc, json}

  abbrev prefix : Str
  prefix = remote_path_prefix remote_prefix

  abbrev index : Str → Str
  index remote_rel = Storing.index D L lossy remote_prefix remote_rel

  get_file-Holds :
      IsReliable op L
      → Manifest.IsLawful json
      → IsTiling cdc
      → IsHexLawful blake3
      → ((t : Str) → IsAscii t → lossy t ≡ t)
      → (bytes remote_rel : Str) (s : op.State) → IsPrintable (hash_hex blake3 bytes)
      → Storing.Holds D L lossy remote_prefix bytes remote_rel s
      → (get_file D lossy remote_prefix (index remote_rel) s).0 ≡ ok bytes
  unfolding get_file lift ensure_hash
  get_file-Holds calm codec tiling law keeps bytes remote_rel s hex (printed, print, there, m, i) =
      let hash = hash_hex blake3 bytes in
      let s1 = (op.read (index remote_rel) s).1 in
      let s2 = (op.read (manifest_key prefix hash) s1).1 in
      let chunks = length (chunk_data blake3 cdc bytes small) in
      let found : manifest_hash_of [] (lines (lossy (Storing.entry D L lossy remote_prefix bytes)))
          ≡ hash =
        rw
          (keeps (Storing.entry D L lossy remote_prefix bytes)
            (index_entry-IsAscii hash (length bytes) chunks hex))
          (manifest_hash_of-index_entry hash (length bytes) chunks hex) in
      let m1 : L.object s1 (manifest_key prefix hash) ≡ some printed =
        L.object-read s (index remote_rel) _ ∙ m in
      let there2 : All (Storing.Has D L lossy remote_prefix s2)
          (Storing.pieces D L lossy remote_prefix bytes) =
        All-map (Storing.Has D L lossy remote_prefix s) (Storing.Has D L lossy remote_prefix s2)
          (Storing.pieces D L lossy remote_prefix bytes)
          (λ x e.
            Storing.Has-read D L lossy remote_prefix s1 (manifest_key prefix hash) x
              (Storing.Has-read D L lossy remote_prefix s (index remote_rel) x e))
          there in
      >>=-answers _ _ s
        (calm.read-answers s (index remote_rel) (Storing.entry D L lossy remote_prefix bytes) i)
        (>>=-answers _ _ s1 {a = hash} (ground (arith, law.to_hex-is_empty bytes)) (
          >>=-answers _ _ s1 (calm.read-answers s1 (manifest_key prefix hash) printed m1) (
            >>=-answers _ _ s2
              (from_bytes-to_bytes json codec
                (Storing.manifest D L lossy remote_prefix bytes remote_rel) print)
              (Storing.fetch_verified-answers D L lossy remote_prefix calm
                  (Storing.pieces D L lossy remote_prefix bytes) s2 there2
                ∙ ap ok (concat-chunk_data blake3 cdc tiling bytes small)))))

  -- Over a lawful store that answers every request, with a codec that reads back the manifests it prints,
  -- cuts that stand one behind the other, a hash without collisions whose hex form is not empty and,
  -- for the file, printable, and a conversion that keeps ASCII: once an upload of a file reports no error, a
  -- fetch of its index entry to a path that the system lets it write reports no error and leaves
  -- the bytes of the file there, if the two texts are UTF-8.
  pub fetch-upload :
      IsReliable op L
      → Manifest.IsLawful json
      → IsTiling cdc
      → IsHexLawful blake3
      → ((a b : Str) → hash_hex blake3 a ≡ hash_hex blake3 b → a ≡ b)
      → ((t : Str) → IsAscii t → lossy t ≡ t)
      → (local_path remote_rel dest_path : Str) (s : Session op)
      → let uploaded =
          tcfs_provider_upload D lossy remote_prefix (some local_path) (some remote_rel) s in
        uploaded.0 ≡ error_none
        → ((bytes : Str)
            → Disk.read s.disk local_path ≡ ok bytes
            → IsPrintable (hash_hex blake3 bytes))
        → s.disk.refuses dest_path ≡ false
        → is_utf8 (index remote_rel) ≡ true
        → is_utf8 dest_path ≡ true
        → let fetched =
            tcfs_provider_fetch D lossy remote_prefix
              (some (index remote_rel))
              (some dest_path)
              uploaded.1 in
          (fetched.0 ≡ error_none)
          × (Disk.read fetched.1.disk dest_path ≡ Disk.read s.disk local_path)
  unfolding call upload_from fetch_to
  fetch-upload calm codec tiling law free keeps local_path remote_rel dest_path s done hex may u v =
      elim (Result-cases (Disk.read s.disk local_path)) [
        | inl (e, q) ↦ absurd (ground arith)
        | inr (bytes, q) ↦
            let put : (put_file D lossy remote_prefix bytes remote_rel s.remote).0 ≡ ok tt =
              ground arith in
            let got =
              get_file-Holds calm codec tiling law keeps bytes remote_rel _ (hex bytes q) (
                Storing.put_file-Holds D L lossy remote_prefix free bytes remote_rel s.remote
                  put) in
            ground (
              arith,
              write-answers s.disk dest_path bytes may,
              write-reads s.disk dest_path bytes dest_path
                  (write-answers s.disk dest_path bytes may),
              eq_refl dest_path,
            )
      ]
