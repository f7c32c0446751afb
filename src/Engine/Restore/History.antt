-- ===== src/Engine/Restore/History.antt =====
-- What a store is like after any uploads, one behind the other, each from its own disk and cache and
-- each stopping anywhere.
use tummycrypt.Prelude.{
  ◌≡◌, ◌≢◌, sym, ap, ◌∙◌, subst, inl, inr, false, Option, none, some, [], Str, length, Option-cases,
}
use tummycrypt.Prelude.Dict.{lookup}
use tummycrypt.Fallible.{ok}
use tummycrypt.Disk
use tummycrypt.Chunks.{hash_hex}
use tummycrypt.Remote.{IsLawful, manifest_key}
use tummycrypt.State.{StateCache, Reason, needs_sync}
use tummycrypt.Engine.{Deps, Session, UploadArgs, UploadResult}
use tummycrypt.Engine.Upload.{upload_file_with_device}
use tummycrypt.Engine.Download
use tummycrypt.Engine.Download.{download_file_with_device}
use tummycrypt.Engine.Consistency.{IsConsistent}
use tummycrypt.Engine.Consistency.Upload.{upload-IsConsistent}
use tummycrypt.Engine.Restore.{IsSound, IsUpload, reader, IsRestorable}
use tummycrypt.Engine.Restore.Kept.{IsKept, upload-IsKept, upload-stands, upload-IsRestorable}
use tummycrypt.Engine.Restore.Fetched.{IsCalm, download-Restorable}

module _ (D : Deps) (L : IsLawful D.op) (sound : IsSound D) (prefix : Str)
    (master : Option Str) where
  open D use {op, blake3, json}

  abbrev pub after : UploadArgs → op.State → StateCache → op.State
  after args s cache =
      (upload_file_with_device D args (record { remote = s; cache = cache })).1.remote

  -- The second store comes from the first by uploads.
  pub data Evolves (s : op.State) : op.State → Type 0 where
    now : Evolves s s
    upload :
        {t : op.State} (args : UploadArgs) (cache : StateCache)
        → IsUpload D L prefix master args
        → Evolves s t
        → Evolves s (after args t cache)

  Evolves-trans : (s t u : op.State) → Evolves s t → Evolves t u → Evolves s u
  Evolves-trans s t u p now = p
  Evolves-trans s t u p (upload args cache k q) = upload args cache k (Evolves-trans s t _ p q)

  -- A store in which nothing was stored yet.
  abbrev pub IsBlank : op.State → Type 0
  IsBlank s = (k : Str) → L.object s k ≡ none

  abbrev IsGood : op.State → Type 0
  IsGood s = IsConsistent D L prefix s × IsRestorable D L prefix master s

  IsBlank-IsGood : (s : op.State) → IsBlank s → IsGood s
  IsBlank-IsGood s blank = (
    record {
      chunk_content = λ h d e. absurd (cc (blank _));
      manifest_chunks = λ h b m e p. absurd (cc (blank _));
    },
    λ h b e. absurd (cc (blank _)),
  )

  Evolves-IsGood : (s t : op.State) → Evolves s t → IsGood s → IsGood t
  Evolves-IsGood s t now good = good
  Evolves-IsGood s _ (upload {t} args cache u before) good =
      let (fine, all) = Evolves-IsGood s t before good in
      let st : Session op = record { remote = t; cache = cache } in
      (
        subst (λ (at : Str). IsConsistent D L at t → IsConsistent D L at (after args t cache))
            u.same_prefix (λ h. (upload-IsConsistent D L sound.json args st h).0) fine,
        (upload-IsRestorable D L sound prefix master args u st fine all).1,
      )

  -- No manifest goes away.
  Evolves-IsKept : (s t : op.State) → Evolves s t → IsKept D L sound prefix master s t
  Evolves-IsKept s t now h there = there
  Evolves-IsKept s _ (upload {t} args cache u before) h there =
      upload-IsKept D L sound prefix master args u (record { remote = t; cache = cache }) h
        (Evolves-IsKept s t before h there)

  -- A download of the object `rm` succeeds and leaves these bytes in the local file.
  abbrev pub GivesBack : Str → Str → Str → Download.Session op → Str → Type 0
  GivesBack rm local device st bytes =
      let run = download_file_with_device D (reader prefix master rm local device) st in
      (run.0 ≡ ok (record { remote_path = rm; local_path = local; bytes = length bytes }))
      × (lookup local run.1.disk.files
          ≡ some (record { content = bytes; modified = some st.disk.now }))

  -- What stands under a hash comes back as the only content with that hash.
  GivesBack-content :
      (P : op.State → Type 0) (calm : IsCalm op L P) (bytes local device : Str)
      (st : Download.Session op)
      → IsRestorable D L prefix master st.remote
      → L.object st.remote (manifest_key prefix (hash_hex blake3 bytes)) ≢ none
      → bytes ≢ []
      → P st.remote
      → ((path : Str) → st.disk.refuses path ≡ false)
      → st.disk.hides local ≡ false
      → GivesBack (manifest_key prefix (hash_hex blake3 bytes)) local device st bytes
  GivesBack-content P calm bytes local device st all kept full quiet allows given =
      let rm = manifest_key prefix (hash_hex blake3 bytes) in
      elim (Option-cases (L.object st.remote rm)) [
        | inl gone ↦ absurd (kept gone)
        | inr (b, e) ↦
            let found = all (hash_hex blake3 bytes) b e in
            let back : found.content ≡ bytes = sound.collision_free _ _ found.hashed in
            subst (GivesBack rm local device st) back (
              download-Restorable D L P calm prefix master rm local device st found quiet e
                (λ none_left. full (sym back ∙ none_left)) allows given)
      ]

  -- Take crates that keep their promises and a lawful store that was blank once and has seen
  -- nothing but uploads under this prefix and master key, each of which succeeded or stopped
  -- anywhere. A file that changed and is not empty is uploaded, and the upload reports success.
  -- After any more such uploads, in a state from which on every read is answered, the download of
  -- the object that the upload named succeeds on a disk that refuses no path and gives the metadata
  -- of the local file, and leaves in it the very bytes that were uploaded.
  pub download-upload :
      (P : op.State → Type 0) (calm : IsCalm op L P) (blank s : op.State) (args : UploadArgs)
      (cache : StateCache) {reason : Reason} {r : UploadResult} (bytes local device : Str)
      (st : Download.Session op)
      → IsBlank blank
      → Evolves blank s
      → IsUpload D L prefix master args
      → needs_sync (hash_hex blake3) args.disk cache args.local_path ≡ ok (some reason)
      → (upload_file_with_device D args (record { remote = s; cache = cache })).0 ≡ ok r
      → Evolves (after args s cache) st.remote
      → Disk.read args.disk args.local_path ≡ ok bytes
      → bytes ≢ []
      → P st.remote
      → ((path : Str) → st.disk.refuses path ≡ false)
      → st.disk.hides local ≡ false
      → GivesBack r.remote_path local device st bytes
  download-upload P calm blank s args cache {reason} {r} bytes local device st empty before u needed
        done later content full quiet allows given =
      let from : Session op = record { remote = s; cache = cache } in
      let (bytes', content', named, there) =
        upload-stands D L sound prefix master args u from needed done in
      let same : bytes' ≡ bytes = cc in
      let hash = ap (λ (b : Str). manifest_key prefix (hash_hex blake3 b)) same in
      let kept =
        Evolves-IsKept _ st.remote later (hash_hex blake3 bytes)
          (λ gone. there (ap (L.object (after args s cache)) hash ∙ gone)) in
      let good =
        Evolves-IsGood blank st.remote
          (Evolves-trans blank _ st.remote (upload args cache u before) later)
          (IsBlank-IsGood blank empty) in
      subst (λ (rm : Str). GivesBack rm local device st bytes) (sym (named ∙ hash))
        (GivesBack-content P calm bytes local device st good.1 kept full quiet allows given)
