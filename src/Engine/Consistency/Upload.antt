-- ===== src/Engine/Consistency/Upload.antt =====
-- An upload keeps the store consistent wherever it stops.
use tummycrypt.Prelude.{
  ◌≡◌, ◌≢◌, refl, true, subst, Option, none, some, List, [], ◌∷◌, Str, ℕ, suc, arith, All,
}
use tummycrypt.Prelude.Text.Lines.{is_empty}
use tummycrypt.Fallible.{Result, ok, err, uploading_chunk, uploading_manifest}
use tummycrypt.Exec.{context}
use tummycrypt.Chunks.{Chunk, chunk_file, hash_hex, for_path, chunk_data}
use tummycrypt.Chunks.Tiling.{chunk_bytes, hash-chunk_data}
use tummycrypt.Disk
use tummycrypt.Manifest
use tummycrypt.Manifest.{SyncManifest, from_bytes, to_bytes}
use tummycrypt.Manifest.Versions.{from_bytes-to_bytes}
use tummycrypt.Conflict.{VectorClock, SyncOutcome, local_newer, remote_newer, up_to_date, conflict}
use tummycrypt.State.{Reason}
use tummycrypt.Remote.{IsLawful, manifest_key, chunk_key}
use tummycrypt.Engine.{Deps, Session, UploadArgs, UploadResult}
use tummycrypt.Engine.Upload.{
  Prepared, Decision, finished, proceed, Run, prepare, record_state, act, on_manifest, on_read,
  check_remote, check_stored, encode_chunk, put_chunk, upload_chunks, manifest_of, ticked, store,
  encryption_keys, wrapped_key, request, finish, upload_changed, on_needed, upload_file_with_device,
}
use tummycrypt.Engine.Consistency.{
  HasChunk, IsConsistent, IsAddressed, Stored, Stored-HasChunk, Written, Extends-chunk,
  Extends-manifest, Runs,
}
use tummycrypt.Engine.Consistency.Rules.{
  Anything, Runs-pure, Runs-lift, Runs-gets, Runs-context, Runs-attempt, Runs-if, Runs-modify,
  Runs-bind, Runs-weaken, Runs-exists, Runs-read, Runs-write,
}

module _ (D : Deps) (L : IsLawful D.op) (law : Manifest.IsLawful D.json) (args : UploadArgs)
    (K : UploadArgs → Type 0) (kind : K args) where
  open D use {op, blake3, cdc, json, aead}
  open args use {disk, local_path, remote_prefix, device_id, draws}

  abbrev Good : {A : Type 0} → (A → op.State → Type 0) → Run D A → Session op → Type 0
  Good = Runs D L remote_prefix K

  abbrev Any : {A : Type 0} → A → op.State → Type 0
  Any = Anything D L remote_prefix K

  abbrev Has : op.State → Str → Type 0
  Has = HasChunk D L remote_prefix

  -- The manifest of the content stands where the result says.
  abbrev pub Landed : Prepared → UploadResult → op.State → Type 0
  Landed p r s =
      (r.remote_path ≡ manifest_key remote_prefix p.hash)
      × (L.object s (manifest_key remote_prefix p.hash) ≢ none)

  abbrev Settled : Prepared → Decision → op.State → Type 0
  Settled p (finished r) s = Landed p r s
  Settled p (proceed v o) s = Unit

  -- Every chunk carries the hash of its bytes.
  abbrev pub IsHashed : Prepared → Type 0
  IsHashed p = All (λ (c : Chunk). c.hash ≡ blake3.hash (chunk_bytes p.bytes c)) p.chunks

  record_state-Good :
      (p : Prepared) (v : VectorClock) (st : Session op) → Good Any (record_state D args p v) st
  unfolding record_state
  record_state-Good p v st =
      Runs-bind D L remote_prefix K {Q = Any} _ _ st
        (Runs-lift D L remote_prefix K _ st (λ a e. tt))
        (λ s t q x. Runs-modify D L remote_prefix K _ t refl)

  act-Good :
      (p : Prepared) (v : VectorClock) (m : SyncManifest) (o : SyncOutcome) (st : Session op)
      → L.object st.remote (manifest_key remote_prefix p.hash) ≢ none
      → Good (Settled p) (act D args p v m o) st
  unfolding act
  act-Good p v m remote_newer st there = Runs-pure D L remote_prefix K _ st (refl, there)
  act-Good p v m (conflict info) st there = Runs-pure D L remote_prefix K _ st (refl, there)
  act-Good p v m local_newer st there = Runs-pure D L remote_prefix K _ st tt
  act-Good p v m up_to_date st there =
      Runs-bind D L remote_prefix K _ _ st (record_state-Good p v st)
        (λ a t q x. Runs-pure D L remote_prefix K _ t (refl, x.stays p.hash there))

  on_manifest-Good :
      (p : Prepared) (v : VectorClock) (r : Result SyncManifest) (st : Session op)
      → L.object st.remote (manifest_key remote_prefix p.hash) ≢ none
      → Good (Settled p) (on_manifest D args p v r) st
  unfolding on_manifest
  on_manifest-Good p v (err e) st there = Runs-pure D L remote_prefix K _ st tt
  on_manifest-Good p v (ok m) st there = act-Good p v m _ st there

  on_read-Good :
      (p : Prepared) (v : VectorClock) (r : Result Str) (st : Session op)
      → L.object st.remote (manifest_key remote_prefix p.hash) ≢ none
      → Good (Settled p) (on_read D args p v r) st
  unfolding on_read
  on_read-Good p v (err e) st there = Runs-pure D L remote_prefix K _ st tt
  on_read-Good p v (ok bytes) st there = on_manifest-Good p v _ st there

  check_remote-Good :
      (p : Prepared) (v : VectorClock) (st : Session op)
      → Good (Settled p) (check_remote D args p v) st
  unfolding check_remote
  check_remote-Good p v st =
      Runs-if D L remote_prefix K (is_empty device_id) _ _ st
        (λ e. Runs-pure D L remote_prefix K _ st tt)
        (λ e.
          Runs-bind D L remote_prefix K _ _ st (Runs-exists D L remote_prefix K _ st) (λ b t q x.
            Runs-if D L remote_prefix K b _ _ t
              (λ f.
                Runs-bind D L remote_prefix K _ _ t
                  (Runs-attempt D L remote_prefix K _ t (Runs-read D L remote_prefix K _ t))
                  (λ r u h y. on_read-Good p v r u (y.stays p.hash (q f))))
              (λ f. Runs-pure D L remote_prefix K _ t tt)))

  pub hash-encode_chunk :
      (keys : Option (Str × Str)) (bytes : Str) (i : ℕ) (c : Chunk) (stored hash : Str)
      → c.hash ≡ blake3.hash (chunk_bytes bytes c)
      → encode_chunk D args keys bytes i c ≡ ok (stored, hash)
      → hash_hex blake3 stored ≡ hash
  unfolding encode_chunk
  hash-encode_chunk none bytes i c stored hash h e = ground arith
  hash-encode_chunk (some (fk, fid)) bytes i c stored hash h e = ground arith

  put_chunk-Good :
      (hash stored : Str) (st : Session op)
      → hash_hex blake3 stored ≡ hash
      → Good (λ _ s. Has s hash) (put_chunk D args hash stored) st
  unfolding put_chunk
  put_chunk-Good hash stored st hashed =
      let k = chunk_key remote_prefix hash in
      Runs-bind D L remote_prefix K _ _ st (Runs-exists D L remote_prefix K k st) (λ b t q x.
        Runs-if D L remote_prefix K b _ _ t (λ f. Runs-pure D L remote_prefix K tt t (q f))
          (λ f. Runs-context D L remote_prefix K uploading_chunk _ t (
            Runs-weaken D L remote_prefix K (λ a s there gone. cc)
              (Runs-write D L remote_prefix K k stored t (
                Extends-chunk D L remote_prefix K hash stored t.remote _ hashed
                  (L.object-write_ne t.remote k stored, L.object-write_self t.remote k stored))))))

  upload_chunks-Good :
      (keys : Option (Str × Str)) (bytes : Str) (i : ℕ) (chunks : List Chunk) (st : Session op)
      → All (λ (c : Chunk). c.hash ≡ blake3.hash (chunk_bytes bytes c)) chunks
      → Good
          (λ hashes s. Stored D L remote_prefix args keys bytes i chunks hashes s)
          (upload_chunks D args keys bytes i chunks)
          st
  unfolding upload_chunks
  upload_chunks-Good keys bytes i [] st hs = Runs-pure D L remote_prefix K [] st tt
  upload_chunks-Good keys bytes i (c ∷ chunks) st (h, hs) =
      Runs-bind D L remote_prefix K
        {Q = λ (e : Str × Str) _. encode_chunk D args keys bytes i c ≡ ok e} _ _ st
        (Runs-lift D L remote_prefix K _ st (λ a e. e))
        (λ (stored, hash) t e x.
          Runs-bind D L remote_prefix K _ _ t
            (put_chunk-Good hash stored t (hash-encode_chunk keys bytes i c stored hash h e))
            (λ a u there y.
              Runs-bind D L remote_prefix K _ _ u
                (upload_chunks-Good keys bytes (suc i) chunks u hs)
                (λ hashes w all z.
                  Runs-pure D L remote_prefix K (hash ∷ hashes) w
                    ((stored, e), z.present hash there, all))))

  -- The manifest is written once everything that it lists is stored.
  write_manifest-Good :
      (p : Prepared) (v : VectorClock) (keys : Option (Str × Str)) (hashes : List Str)
      (wrapped : Option Str) (bytes : Str) (st : Session op)
      → prepare D args ≡ ok p
      → encryption_keys D args p ≡ ok keys
      → wrapped_key D args keys ≡ ok wrapped
      → to_bytes json (manifest_of D args p v hashes wrapped) ≡ ok bytes
      → Stored D L remote_prefix args keys p.bytes 0 p.chunks hashes st.remote
      → Good
          (λ _ s. L.object s (manifest_key remote_prefix p.hash) ≢ none)
          (context uploading_manifest
            (request D (op.write (manifest_key remote_prefix p.hash) bytes)))
          st
  write_manifest-Good p v keys hashes wrapped bytes st prepared keyed wraps printed stored =
      let m = manifest_of D args p v hashes wrapped in
      let k = manifest_key remote_prefix p.hash in
      let from : Written D L remote_prefix K st.remote p.hash bytes = record {
        args = args;
        kind = kind;
        p = p;
        vclock = v;
        keys = keys;
        hashes = hashes;
        wrapped = wrapped;
        prepared = prepared;
        named = refl;
        keyed = keyed;
        stored = stored;
        wraps = wraps;
        printed = printed;
      } in
      Runs-context D L remote_prefix K uploading_manifest _ st (
        Runs-weaken D L remote_prefix K (λ a s there gone. cc)
          (Runs-write D L remote_prefix K k bytes st (
            Extends-manifest D L remote_prefix K p.hash bytes m st.remote _
              (from_bytes-to_bytes json law m printed) refl
              (Stored-HasChunk D L remote_prefix args keys p.bytes 0 p.chunks hashes st.remote
                stored)
              from (L.object-write_ne st.remote k bytes, L.object-write_self st.remote k bytes))))

  store-Good :
      (p : Prepared) (v : VectorClock) (o : Option SyncOutcome) (st : Session op)
      → IsHashed p
      → prepare D args ≡ ok p
      → Good (Landed p) (store D args p v o) st
  unfolding store
  store-Good p v o st hashed prepared =
      Runs-bind D L remote_prefix K {Q = λ keys _. encryption_keys D args p ≡ ok keys} _ _ st
        (Runs-lift D L remote_prefix K _ st (λ a e. e))
        (λ keys t keyed x.
          Runs-bind D L remote_prefix K _ _ t (upload_chunks-Good keys p.bytes 0 p.chunks t hashed)
            (λ hashes u all y.
              Runs-bind D L remote_prefix K
                {Q = λ wrapped s.
                  (wrapped_key D args keys ≡ ok wrapped)
                  × Stored D L remote_prefix args keys p.bytes 0 p.chunks hashes s}
                _ _ u (Runs-lift D L remote_prefix K _ u (λ a e. (e, all)))
                (λ wrapped w (wraps, all') z.
                  let m = manifest_of D args p v hashes wrapped in
                  Runs-bind D L remote_prefix K
                    {Q = λ bytes s.
                      (to_bytes json m ≡ ok bytes)
                      × Stored D L remote_prefix args keys p.bytes 0 p.chunks hashes s}
                    _ _ w (Runs-lift D L remote_prefix K _ w (λ a e. (e, all')))
                    (λ bytes a (printed, all'') b.
                      Runs-bind D L remote_prefix K _ _ a
                        (write_manifest-Good p v keys hashes wrapped bytes a prepared keyed wraps
                          printed all'')
                        (λ _ c there _.
                          Runs-bind D L remote_prefix K _ _ c (record_state-Good p v c) (λ _ d _ f.
                            Runs-pure D L remote_prefix K _ d (refl, f.stays p.hash there)))))))

  check_stored-Good :
      (p : Prepared) (v : VectorClock) (o : Option SyncOutcome) (st : Session op)
      → Good
          (λ b s. b ≡ true → L.object s (manifest_key remote_prefix p.hash) ≢ none)
          (check_stored D args p v o)
          st
  unfolding check_stored
  check_stored-Good p v (some o) st = Runs-pure D L remote_prefix K _ st (λ e. absurd (cc e))
  check_stored-Good p v none st =
      Runs-bind D L remote_prefix K _ _ st (Runs-exists D L remote_prefix K _ st)
        (λ b t q x. Runs-pure D L remote_prefix K _ t (λ e. q (ground arith)))

  finish-Good :
      (p : Prepared) (d : Decision) (st : Session op)
      → IsHashed p
      → prepare D args ≡ ok p
      → Settled p d st.remote
      → Good (Landed p) (finish D args p d) st
  unfolding finish
  finish-Good p (finished r) st hashed prepared settled = Runs-pure D L remote_prefix K _ st settled
  finish-Good p (proceed v o) st hashed prepared settled =
      Runs-bind D L remote_prefix K _ _ st (check_stored-Good p v o st) (λ b t q x.
        Runs-if D L remote_prefix K b _ _ t
          (λ e.
            Runs-bind D L remote_prefix K _ _ t (record_state-Good p v t)
              (λ _ u _ y. Runs-pure D L remote_prefix K _ u (refl, y.stays p.hash (q e))))
          (λ e. store-Good p (ticked D args v) o t hashed prepared))

  -- The file as it is cut when its bytes are these.
  abbrev pub cut : Str → Prepared
  cut bytes = record {
    chunks = chunk_data blake3 cdc bytes (for_path local_path);
    bytes = bytes;
    hash = hash_hex blake3 bytes;
  }

  -- What was prepared is the content of the file, cut.
  pub prepare-cut :
      (p : Prepared)
      → prepare D args ≡ ok p
      → (bytes : Str) × (Disk.read disk local_path ≡ ok bytes) × (cut bytes ≡ p)
  unfolding prepare chunk_file
  prepare-cut p h = go (Disk.read disk local_path) refl
    where
      go :
          (r : Result Str)
          → Disk.read disk local_path ≡ r
          → (bytes : Str) × (Disk.read disk local_path ≡ ok bytes) × (cut bytes ≡ p)
      go (err e) q = absurd (ground arith)
      go (ok bytes) q = (bytes, q, ground arith)

  pub prepare-IsHashed : (p : Prepared) → prepare D args ≡ ok p → IsHashed p
  prepare-IsHashed p h =
      let (bytes, _, same) = prepare-cut p h in
      subst IsHashed same (hash-chunk_data blake3 cdc bytes (for_path local_path))

  -- Some content of the file was prepared, and its manifest is there.
  abbrev pub Delivered : UploadResult → op.State → Type 0
  Delivered r s = (p : Prepared) × (prepare D args ≡ ok p) × Landed p r s

  pub upload_changed-Good : (st : Session op) → Good Delivered (upload_changed D args) st
  unfolding upload_changed
  upload_changed-Good st =
      Runs-bind D L remote_prefix K {Q = λ p _. prepare D args ≡ ok p} _ _ st
        (Runs-lift D L remote_prefix K _ st (λ p e. e))
        (λ p t e x.
          Runs-bind D L remote_prefix K {Q = Any} _ _ t (Runs-gets D L remote_prefix K _ t tt)
            (λ cached u _ _.
              Runs-bind D L remote_prefix K _ _ u (check_remote-Good p _ u) (λ d w settled _.
                Runs-weaken D L remote_prefix K (λ r s landed. (p, e, landed))
                  (finish-Good p d w (prepare-IsHashed p e) e settled))))

  on_needed-Good : (r : Option Reason) (st : Session op) → Good Any (on_needed D args r) st
  unfolding on_needed
  on_needed-Good none st =
      Runs-bind D L remote_prefix K {Q = Any} _ _ st (Runs-gets D L remote_prefix K _ st tt)
        (λ r t _ _. Runs-lift D L remote_prefix K r t (λ _ _. tt))
  on_needed-Good (some reason) st =
      Runs-weaken D L remote_prefix K (λ _ _ _. tt) (upload_changed-Good st)

  pub upload-Good : (st : Session op) → Good Any (upload_file_with_device D args) st
  unfolding upload_file_with_device
  upload-Good st =
      Runs-bind D L remote_prefix K {Q = Any} _ _ st (Runs-gets D L remote_prefix K _ st tt)
        (λ needed t _ _.
          Runs-bind D L remote_prefix K {Q = Any} _ _ t
            (Runs-lift D L remote_prefix K needed t (λ _ _. tt))
            (λ reason u _ _. on_needed-Good reason u))

module _ (D : Deps) (L : IsLawful D.op) (law : Manifest.IsLawful D.json) (args : UploadArgs) where
  open D use {op}
  open args use {remote_prefix}

  -- Over a lawful store, which may lose answers and fail requests, and with a codec that reads
  -- back the manifests it prints, an upload that succeeds or fails at any step leaves a
  -- consistent store consistent: each chunk stands under its hash, and each manifest has all its
  -- chunks. No chunk that was there is gone.
  pub upload-IsConsistent :
      (st : Session op)
      → IsConsistent D L remote_prefix st.remote
      → IsConsistent D L remote_prefix (upload_file_with_device D args st).1.remote
        × ((c : Str)
            → HasChunk D L remote_prefix st.remote c
            → HasChunk D L remote_prefix (upload_file_with_device D args st).1.remote c)
  upload-IsConsistent st good =
      let run = upload-Good D L law args (λ _. Unit) tt st in
      (run.extends.keeps good, run.extends.present)

  -- Over such a store and with such a codec, an upload keeps every manifest under the file hash
  -- that the manifest states.
  pub upload-IsAddressed :
      (st : Session op)
      → IsAddressed D L remote_prefix st.remote
      → IsAddressed D L remote_prefix (upload_file_with_device D args st).1.remote
  upload-IsAddressed st good = (upload-Good D L law args (λ _. Unit) tt st).extends.addresses good
