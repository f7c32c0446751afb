-- ===== src/Engine/Restore/Kept.antt =====
-- An upload keeps every file of the store within reach.
use tummycrypt.Prelude.{◌≡◌, ◌≢◌, ◌⊎◌, refl, sym, ap, ◌∙◌, subst, inl, inr, Option, none, some, Str}
use tummycrypt.Fallible.{Error, Result, ok, err}
use tummycrypt.Exec.{◌>>=◌, gets, lift}
use tummycrypt.Exec.Inversion.{>>=-ok}
use tummycrypt.Disk
use tummycrypt.State.{Reason, needs_sync}
use tummycrypt.Chunks.{hash_hex}
use tummycrypt.Remote.{IsLawful, manifest_key}
use tummycrypt.Engine.{Deps, Session, UploadArgs, UploadResult}
use tummycrypt.Engine.Upload.{Prepared, on_needed, upload_changed, upload_file_with_device}
use tummycrypt.Engine.Consistency.{IsConsistent, Extends}
use tummycrypt.Engine.Consistency.Upload.{Delivered, upload-Good, upload_changed-Good, prepare-cut}
use tummycrypt.Engine.Restore.{IsSound, IsUpload, IsRestorable}
use tummycrypt.Engine.Restore.Written.{Restorable-map, Written-Restorable}

module _ (D : Deps) (L : IsLawful D.op) (sound : IsSound D) (prefix : Str)
    (master : Option Str) where
  open D use {op, blake3, cdc, json, aead}

  -- Every manifest of the first store stands in the second.
  abbrev pub IsKept : op.State → op.State → Type 0
  IsKept s t =
      (h : Str)
      → L.object s (manifest_key prefix h) ≢ none
      → L.object t (manifest_key prefix h) ≢ none

  -- An upload takes no manifest away.
  pub upload-IsKept :
      (args : UploadArgs)
      → IsUpload D L prefix master args
      → (st : Session op) → IsKept st.remote (upload_file_with_device D args st).1.remote
  upload-IsKept args u st h =
      subst
        (λ (at : Str).
          L.object st.remote (manifest_key at h) ≢ none
          → L.object (upload_file_with_device D args st).1.remote (manifest_key at h) ≢ none)
        u.same_prefix ((upload-Good D L sound.json args (λ _. Unit) tt st).extends.stays h)

  -- An upload of a file that changed says where the manifest of its content is.
  pub upload-Delivered :
      (args : UploadArgs) (st : Session op) {reason : Reason} {r : UploadResult}
      → needs_sync (hash_hex blake3) args.disk st.cache args.local_path ≡ ok (some reason)
      → (upload_file_with_device D args st).0 ≡ ok r
      → Delivered D L sound.json args (λ _. Unit) tt r (upload_file_with_device D args st).1.remote
  unfolding upload_file_with_device on_needed lift gets
  upload-Delivered args st {reason} {r} needed h =
      let same : upload_file_with_device D args st ≡ upload_changed D args st =
        >>=-ok _ _ st refl ∙ >>=-ok _ _ st needed in
      rw same ((upload_changed-Good D L sound.json args (λ _. Unit) tt st).returns r (rw same at h))

  -- The manifest of a file that was uploaded stands under the hash of what the file has.
  pub upload-stands :
      (args : UploadArgs)
      → IsUpload D L prefix master args
      → (st : Session op) {reason : Reason} {r : UploadResult}
      → needs_sync (hash_hex blake3) args.disk st.cache args.local_path ≡ ok (some reason)
      → (upload_file_with_device D args st).0 ≡ ok r
      → (bytes : Str) × (Disk.read args.disk args.local_path ≡ ok bytes)
        × (r.remote_path ≡ manifest_key prefix (hash_hex blake3 bytes))
        × (L.object
              (upload_file_with_device D args st).1.remote
              (manifest_key prefix (hash_hex blake3 bytes))
            ≢ none)
  upload-stands args u st needed done =
      let t = (upload_file_with_device D args st).1.remote in
      let (p, prepared, (named, there)) = upload-Delivered args st needed done in
      let (bytes, content, same) = prepare-cut D L sound.json args (λ _. Unit) tt p prepared in
      let hash : p.hash ≡ hash_hex blake3 bytes = sym (ap (λ (q : Prepared). q.hash) same) in
      let at : manifest_key args.remote_prefix p.hash
          ≡ manifest_key prefix (hash_hex blake3 bytes) =
        ap (λ (x : Str). manifest_key x p.hash) u.same_prefix ∙ ap (manifest_key prefix) hash in
      (bytes, content, named ∙ at, λ gone. there (ap (L.object t) at ∙ gone))

  -- Every file that has a manifest after an upload can be had back, if that was so before.
  restores :
      (args : UploadArgs)
      → IsUpload D L prefix master args
      → (st : Session op) → IsConsistent D L prefix st.remote
      → IsRestorable D L prefix master st.remote
      → IsRestorable D L prefix master (upload_file_with_device D args st).1.remote
  restores args u st good all h b e =
      let K = IsUpload D L prefix master in
      let t = (upload_file_with_device D args st).1.remote in
      let x : Extends D L prefix K st.remote t =
        subst (λ (at : Str). Extends D L at K st.remote t) u.same_prefix
          (upload-Good D L sound.json args K u st).extends in
      let after = x.keeps good in
      elim (x.manifests h b e) [
        | inl before ↦
            Restorable-map D L sound prefix master st.remote t h b after x.present (all h b before)
        | inr written ↦ Written-Restorable D L sound prefix master t h b after written
      ]

  -- How an upload ends: it skips the file, it fails, or the manifest stands under the hash of what
  -- the file has.
  abbrev pub Ends : UploadArgs → Session op → Type 0
  Ends args st =
      (needs_sync (hash_hex blake3) args.disk st.cache args.local_path ≡ ok none)
      ⊎ ((e : Error) × ((upload_file_with_device D args st).0 ≡ err e))
      ⊎ ((bytes : Str) × (Disk.read args.disk args.local_path ≡ ok bytes)
          × (L.object (upload_file_with_device D args st).1.remote
                (manifest_key prefix (hash_hex blake3 bytes))
              ≢ none))

  upload-unreadable :
      (args : UploadArgs) (st : Session op) {e : Error}
      → needs_sync (hash_hex blake3) args.disk st.cache args.local_path ≡ err e
      → (upload_file_with_device D args st).0 ≡ err e
  unfolding upload_file_with_device on_needed lift gets ◌>>=◌
  upload-unreadable args st q = rw (q) refl

  upload-Ends :
      (args : UploadArgs) → IsUpload D L prefix master args → (st : Session op) → Ends args st
  upload-Ends args u st =
      go (needs_sync (hash_hex blake3) args.disk st.cache args.local_path) refl
        (upload_file_with_device D args st).0 refl
    where
      go :
          (needed : Result (Option Reason))
          → needs_sync (hash_hex blake3) args.disk st.cache args.local_path ≡ needed
          → (r : Result UploadResult) → (upload_file_with_device D args st).0 ≡ r
          → Ends args st
      go (err e) q r done = inr (inl (e, upload-unreadable args st q))
      go (ok none) q r done = inl q
      go (ok (some reason)) q (err e) done = inr (inl (e, done))
      go (ok (some reason)) q (ok r) done =
          let (bytes, content, _, there) = upload-stands args u st q done in
          inr (inr (bytes, content, there))

  pub upload-IsRestorable :
      (args : UploadArgs)
      → IsUpload D L prefix master args
      → (st : Session op) → IsConsistent D L prefix st.remote
      → IsRestorable D L prefix master st.remote
      → IsKept st.remote (upload_file_with_device D args st).1.remote
        × IsRestorable D L prefix master (upload_file_with_device D args st).1.remote
        × Ends args st
  upload-IsRestorable args u st good all =
      (upload-IsKept args u st, restores args u st good all, upload-Ends args u st)
