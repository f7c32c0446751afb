-- ===== src/Engine/Restore/Fetched.antt =====
-- A file within reach is downloaded, and a file that was uploaded comes back.
use tummycrypt.Prelude.{
  ℕ, suc, ◌≡◌, ◌≢◌, refl, sym, ap, ◌∙◌, subst, inl, inr, Bool, false, Option, none, some, List, [],
  ◌∷◌, Str, eq_iff, eq_refl, arith, length, Option-cases,
}
use tummycrypt.Prelude.Dict.{lookup, lookup-insert}
use tummycrypt.Prelude.Text.FilePath.{parent}
use tummycrypt.Prelude.Text.Lines.{is_empty}
use tummycrypt.Fallible.{Result, ok, downloading_chunk, reading_manifest}
use tummycrypt.Exec.{pure, lift}
use tummycrypt.Exec.Inversion.{
  >>=-ok, >>=-answers, context-ok, Keeps, Keeps-bind, Keeps-lift, Keeps-context,
}
use tummycrypt.Disk
use tummycrypt.Disk.{Disk}
use tummycrypt.Chunks.{hash_hex}
use tummycrypt.Manifest.{SyncManifest}
use tummycrypt.Remote.{IsLawful, Operator, chunk_key}
use tummycrypt.Engine.{Deps, DownloadResult}
use tummycrypt.Engine.Download.{
  Session, DownloadArgs, decryption_keys, decode_chunk, check_chunk, check_file, fetch,
  fetch_chunks, tmp_path, place, fetch_manifest, fetch_file, complete, download_file_with_device,
}
use tummycrypt.Engine.Integrity.{
  complete-ok, update_cache-answers, hides-place, lookup-place, placed, Untouched-fetch_file,
}
use tummycrypt.Engine.Restore.{reader, Assembles, Restorable}

-- States in which every read of an object is answered, and that stay so.
pub record IsCalm (O : Operator) (L : IsLawful O) (P : O.State → Type 0) : Type 0 where
  pub answers : (s : O.State) (k v : Str) → P s → L.object s k ≡ some v → (O.read k s).0 ≡ ok v
  pub stays : (s : O.State) (k : Str) → P s → P (O.read k s).1

module _ (D : Deps) (L : IsLawful D.op) (P : D.op.State → Type 0) (R : IsCalm D.op L P)
    (prefix : Str) (master : Option Str) where
  open D use {op, blake3, json}

  -- The reads do not depend on where the file goes.
  decode_chunk-reader :
      (rm local device : Str) (keys : Option (Str × Str)) (i : ℕ) (stored : Str)
      → decode_chunk D (reader prefix master rm local device) keys i stored
        ≡ decode_chunk D (reader prefix master [] [] []) keys i stored
  unfolding decode_chunk
  decode_chunk-reader rm local device none i stored = refl
  decode_chunk-reader rm local device (some _) i stored = refl

  decryption_keys-reader :
      (rm local device : Str) (m : SyncManifest)
      → decryption_keys D (reader prefix master rm local device) m
        ≡ decryption_keys D (reader prefix master [] [] []) m
  unfolding decryption_keys
  decryption_keys-reader rm local device m = refl

  -- A read changes no object.
  Assembles-read :
      (s t : op.State) (keys : Option (Str × Str)) (i : ℕ) (hashes : List Str) (out : Str)
      → ((j : Str) → L.object t j ≡ L.object s j)
      → Assembles D L prefix master s keys i hashes out
      → Assembles D L prefix master t keys i hashes out
  Assembles-read s t keys i [] out f a = a
  Assembles-read s t keys i (h ∷ hashes) out f (stored, plain, rest, e, hashed, decoded, o, a) = (
    stored,
    plain,
    rest,
    f (chunk_key prefix h) ∙ e,
    hashed,
    decoded,
    o,
    Assembles-read s t keys (suc i) hashes rest f a,
  )

  fetch-answers :
      (key v : Str) (st : Session op)
      → P st.remote
      → L.object st.remote key ≡ some v
      → ((fetch D key st).0 ≡ ok v)
        × ((j : Str) → L.object (fetch D key st).1.remote j ≡ L.object st.remote j)
        × P (fetch D key st).1.remote
  unfolding fetch
  fetch-answers key v st calm e =
      (R.answers st.remote key v calm e, L.object-read st.remote key, R.stays st.remote key calm)

  module _ (rm local device : Str) where
    abbrev args : DownloadArgs
    args = reader prefix master rm local device

    fetch_chunks-answers :
        (keys : Option (Str × Str)) (i : ℕ) (hashes : List Str) (out : Str) (st : Session op)
        → P st.remote
        → Assembles D L prefix master st.remote keys i hashes out
        → (fetch_chunks D args keys i hashes st).0 ≡ ok out
    unfolding fetch_chunks pure lift check_chunk
    fetch_chunks-answers keys i [] out st calm a = ap ok (sym a)
    fetch_chunks-answers keys i (h ∷ hashes) out st calm
          (stored, plain, rest, e, hashed, decoded, o, a) =
        let (read, same, calm') = fetch-answers (chunk_key prefix h) stored st calm e in
        let run = context-ok downloading_chunk _ st read in
        >>=-answers _ _ st (ap (λ (r : Result Str × Session op). r.0) run) (
          >>=-answers _ _ _ (ground (arith, eq_iff (hash_hex blake3 stored) h)) (
            >>=-answers _ _ _ (decode_chunk-reader rm local device keys i stored ∙ decoded) (
              >>=-answers _ _ _
                (fetch_chunks-answers keys (suc i) hashes rest _
                  (subst (λ (r : Result Str × Session op). P r.1.remote) (sym run) calm')
                  (Assembles-read st.remote _ keys (suc i) hashes rest
                    (λ j. ap (λ (r : Result Str × Session op). L.object r.1.remote j) run ∙ same j)
                    a))
                (ap ok (sym o)))))

    -- The manifest is read without a change to any object.
    abbrev Same : op.State → Session op → Type 0
    Same s st = ((j : Str) → L.object st.remote j ≡ L.object s j) × P st.remote

    Same-fetch_manifest : (s : op.State) → Keeps (Same s) (fetch_manifest D args)
    unfolding fetch_manifest fetch
    Same-fetch_manifest s =
        Keeps-bind (Same s) _
          (Keeps-context (Same s) _ _
            (λ st h. (λ j. L.object-read st.remote rm j ∙ h.0 j, R.stays st.remote rm h.1)))
          _ (λ bytes. Keeps-bind (Same s) _ (Keeps-lift (Same s) _) _ (λ m. Keeps-lift (Same s) _))

    chunks_listed :
        (s : op.State) (keys : Option (Str × Str)) (hashes : List Str) (out : Str)
        → Assembles D L prefix master s keys 0 hashes out
        → out ≢ []
        → is_empty hashes ≡ false
    chunks_listed s keys [] out a full = absurd (full a)
    chunks_listed s keys (_ ∷ _) out a full = refl

    -- The manifest is read and opened, and its chunks make up the content.
    fetch_file-answers :
        {h b : Str} (st : Session op) (r : Restorable D L prefix master st.remote h b)
        → P st.remote
        → L.object st.remote rm ≡ some b
        → r.content ≢ []
        → (fetch_file D args st).0 ≡ ok (r.m, r.content)
    unfolding fetch_file fetch_manifest pure lift check_file
    fetch_file-answers {h} st r calm e full =
        let (read, _, _) = fetch-answers rm _ st calm e in
        let same = Same-fetch_manifest st.remote st (λ j. refl, calm) in
        let run = context-ok reading_manifest _ st read in
        >>=-answers _ _ st
          (>>=-answers _ _ st (ap (λ (x : Result Str × Session op). x.0) run) (
            >>=-answers _ _ _ r.parsed
              (rw (chunks_listed st.remote r.keys r.m.chunks r.content r.assembled full) refl)))
          (>>=-answers _ _ _ (decryption_keys-reader rm local device r.m ∙ r.opened) (
            >>=-answers _ _ _
              (fetch_chunks-answers r.keys 0 r.m.chunks r.content _ same.1
                (Assembles-read st.remote _ r.keys 0 r.m.chunks r.content same.0 r.assembled))
              (>>=-answers _ _ _
                (ground
                  (arith, r.owned, r.hashed, eq_iff (hash_hex blake3 r.content) r.m.file_hash))
                refl)))

    -- A disk that refuses nothing takes the file.
    place-answers :
        (bytes : Str) (d : Disk)
        → ((path : Str) → d.refuses path ≡ false)
        → (place D args bytes d).0 ≡ ok tt
    unfolding place Disk.create_dir_all Disk.write Disk.rename
    place-answers bytes d allows =
        let tmp = tmp_path D args in
        let back = lookup-insert tmp tmp (placed D args bytes d) d.files in
        elim (Option-cases (parent local)) [
          | inl top ↦ ground (arith, allows tmp, allows local, eq_refl tmp, back)
          | inr (dir, e) ↦ ground (arith, allows tmp, allows local, allows dir, eq_refl tmp, back)
        ]

    complete-answers :
        (m : SyncManifest) (bytes : Str) (st : Session op)
        → ((path : Str) → st.disk.refuses path ≡ false)
        → st.disk.hides local ≡ false
        → (complete D args m bytes st).0
          ≡ ok (record { remote_path = rm; local_path = local; bytes = length bytes })
    unfolding complete pure
    complete-answers m bytes st allows given =
        let taken = place-answers bytes st.disk allows in
        >>=-answers _ _ st taken (
          >>=-answers _ _ _
            (update_cache-answers D args m bytes _ (lookup-place D args bytes st.disk taken)
              (ap (λ (f : Str → Bool). f local) (hides-place D args bytes st.disk) ∙ given))
            refl)

    -- Over a lawful store, in a state from which on every read is answered, and with crates that keep their promises: if
    -- the file of the object `rm` can be had back and is not empty, its download on a disk that
    -- refuses no path succeeds, and leaves its content in the local file.
    pub download-Restorable :
        {h b : Str} (st : Session op) (r : Restorable D L prefix master st.remote h b)
        → P st.remote
        → L.object st.remote rm ≡ some b
        → r.content ≢ []
        → ((path : Str) → st.disk.refuses path ≡ false)
        → st.disk.hides local ≡ false
        → ((download_file_with_device D args st).0
            ≡ ok (record { remote_path = rm; local_path = local; bytes = length r.content }))
          × (lookup local (download_file_with_device D args st).1.disk.files
              ≡ some (record { content = r.content; modified = some st.disk.now }))
    unfolding download_file_with_device
    download-Restorable st r calm e full allows given =
        let fetched = fetch_file-answers st r calm e full in
        let same : (fetch_file D args st).1.disk ≡ st.disk =
          Untouched-fetch_file D args st.disk st refl in
        let run = >>=-ok _ _ st fetched in
        let done =
          complete-answers r.m r.content _
            (λ path. ap (λ (d : Disk). d.refuses path) same ∙ allows path)
            (ap (λ (d : Disk). d.hides local) same ∙ given) in
        (
          ap (λ (x : Result DownloadResult × Session op). x.0) run ∙ done,
          ap (λ (x : Result DownloadResult × Session op). lookup local x.1.disk.files) run
              ∙ (complete-ok D args r.m r.content _ done).0
              ∙ ap (λ (d : Disk). some (placed D args r.content d)) same,
        )
