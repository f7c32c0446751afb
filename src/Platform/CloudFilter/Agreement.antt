-- ===== src/Platform/CloudFilter/Agreement.antt =====
-- crates/tcfs-cloudfilter/src/hydration.rs against `download_file_with_device` of
-- crates/tcfs-sync/src/engine.rs: what both make of a manifest.
use tummycrypt.Prelude.{ℕ, suc, ◌≡◌, refl, false, none, List, [], ◌∷◌, Str, arith, inl, inr}
use tummycrypt.Prelude.Text.Lines.{is_empty}
use tummycrypt.Fallible.{ok, result_map, Result-cases}
use tummycrypt.Exec.{context, ◌>>=◌}
use tummycrypt.Manifest.{SyncManifest, from_bytes}
use tummycrypt.Remote.{chunk_key, manifest_key}
use tummycrypt.Engine.{Deps}
use tummycrypt.Engine.Tree.{remote_path_prefix}
use tummycrypt.Engine.Download.{
  Session, DownloadArgs, fetch, check_chunk, check_file, decode_chunk, decryption_keys,
  fetch_chunks, fetch_manifest, fetch_file,
}
use tummycrypt.Platform.{fetch_verified, verify_chunk}
use tummycrypt.Platform.CloudFilter.{ensure_chunks, verify_file, handle_fetch_data}

module _ (D : Deps) (args : DownloadArgs) where
  open D use {op, blake3, json}
  open args use {remote_manifest, remote_prefix}

  -- The loops are the same one where nothing is encrypted.
  fetch_chunks-fetch_verified :
      (i : ℕ) (hashes : List Str) (st : Session op)
      → fetch_chunks D args none i hashes st ≡ (
        (fetch_verified D remote_prefix hashes st.remote).0,
        record st { remote = (fetch_verified D remote_prefix hashes st.remote).1 },
      )
  unfolding fetch_chunks fetch_verified check_chunk verify_chunk decode_chunk fetch context ◌>>=◌
  fetch_chunks-fetch_verified i [] st = refl
  fetch_chunks-fetch_verified i (hash ∷ hashes) st = ground (
    arith,
    fetch_chunks-fetch_verified (suc i) hashes
        (record st { remote = (op.read (chunk_key remote_prefix hash) st.remote).1 }),
  )

  -- The callback gives what the engine would put in place, or the error for which the engine puts
  -- nothing in place, and leaves the store the same; provided that the prefix is the same, the
  -- manifest is that of the identity, and a manifest that is read is not encrypted and has a hash
  -- of the file.
  pub handle_fetch_data-fetch_file :
      (prefix identity : Str) (st : Session op)
      → remote_prefix ≡ remote_path_prefix prefix
      → remote_manifest ≡ manifest_key remote_prefix identity
      → ((bytes : Str) (m : SyncManifest)
          → (op.read remote_manifest st.remote).0 ≡ ok bytes
          → from_bytes json bytes ≡ ok m
          → (m.encrypted_file_key ≡ none) × (is_empty m.file_hash ≡ false))
      → ((handle_fetch_data D prefix identity st.remote).0
          ≡ result_map (λ f. f.1) (fetch_file D args st).0)
        × ((handle_fetch_data D prefix identity st.remote).1 ≡ (fetch_file D args st).1.remote)
  unfolding handle_fetch_data fetch_file fetch_manifest fetch ensure_chunks verify_file check_file
      decryption_keys context ◌>>=◌
  handle_fetch_data-fetch_file prefix identity st p q plain =
      elim (Result-cases (op.read remote_manifest st.remote).0) [
        | inl (e, r) ↦ ground arith
        | inr (bytes, r) ↦ elim (Result-cases (from_bytes json bytes)) [
          | inl (e, t) ↦ ground arith
          | inr (m, t) ↦
              let (open_, hashed) = plain bytes m r t in
              let after = (op.read remote_manifest st.remote).1 in
              let loop = fetch_chunks-fetch_verified 0 m.chunks (record st { remote = after }) in
              ground arith
        ]
      ]
