-- ===== src/Engine/Legacy.antt =====
-- What becomes of legacy manifests, and of conflicts, in the engine as it is.
use tummycrypt.Prelude.{◌≡◌, ◌≢◌, true, none, List, ◌∷◌, Str, All, arith}
use tummycrypt.Prelude.Text.Utf8.{is_utf8}
use tummycrypt.Fallible.{ok}
use tummycrypt.Exec.{lift}
use tummycrypt.Exec.Inversion.{>>=-eq-ok, context-eq-ok}
use tummycrypt.Chunks.{IsHexLawful}
use tummycrypt.Manifest.{SyncManifest, legacy, from_bytes}
use tummycrypt.Manifest.Versions.{v1_text, IsHash, from_bytes-v1_text}
use tummycrypt.Engine.{Deps, DownloadResult}
use tummycrypt.Engine.Download.{
  Session, DownloadArgs, fetch, fetch_manifest, download_file_with_device,
}
use tummycrypt.Engine.Integrity.{download-integrity}

module _ (D : Deps) (args : DownloadArgs) where
  open D use {op, blake3, json}
  open args use {remote_manifest}

  -- The manifest that is fetched is the one that was read and parsed.
  parsed-fetch_manifest :
      (st : Session op) {m : SyncManifest} {bytes : Str}
      → (op.read remote_manifest st.remote).0 ≡ ok bytes
      → (fetch_manifest D args st).0 ≡ ok m
      → from_bytes json bytes ≡ ok m
  unfolding fetch_manifest lift fetch
  parsed-fetch_manifest st {m} {bytes} read h =
      let (b, e0, _, h1) = >>=-eq-ok _ _ st h in
      let (m1, e1, _, h2) = >>=-eq-ok _ _ _ h1 in
      let (got, _) = context-eq-ok _ _ st e0 in let same : bytes ≡ b = cc in ground arith

  -- A v1 manifest, a UTF-8 text of chunk hashes that is no JSON, is never downloaded: it carries
  -- no hash of the file, and no digest has an empty hex form, so the check of the assembled
  -- content fails whatever the chunks are.
  pub download-v1_text :
      IsHexLawful blake3
      → (st : Session op) (h : Str) (hs : List Str) → All IsHash (h ∷ hs)
      → is_utf8 (v1_text (h ∷ hs)) ≡ true
      → json.parse (v1_text (h ∷ hs)) ≡ none
      → (op.read remote_manifest st.remote).0 ≡ ok (v1_text (h ∷ hs))
      → (r : DownloadResult) → (download_file_with_device D args st).0 ≢ ok r
  download-v1_text law st h hs w u n read r done =
      let (m, bytes, fetched, hashed, _, _) = download-integrity D args st done in
      let parsed = parsed-fetch_manifest st read fetched in
      let v1 = from_bytes-v1_text json h hs w u n in
      let same : m ≡ legacy (h ∷ hs) = cc in ground (arith, law.to_hex-is_empty bytes)
