-- ===== src/Fuse/Hydrate/Caching.antt =====
-- A file that was hydrated comes from the cache.
use tummycrypt.Prelude.{
  ◌≡◌, ◌≢◌, inl, inr, refl, sym, ap, ◌∙◌, none, some, List, [], ◌∷◌, Str, eq_refl, arith,
  Option-cases,
}
use tummycrypt.Fallible.{Result, ok, err}
use tummycrypt.Exec.{pure, ◌>>=◌}
use tummycrypt.Exec.Inversion.{>>=-eq-ok, Keeps, Keeps-bind, Keeps-pure, Keeps-lift, Keeps-context}
use tummycrypt.Disk.{Disk}
use tummycrypt.Fuse.Cache
use tummycrypt.Fuse.Cache.{DiskCache, cache_key_for_path, path_for, tmp_for}
use tummycrypt.Fuse.Cache.Reading.{get-put, get-put_err}
use tummycrypt.Fuse.Mount.{Storage, Mount, ask}
use tummycrypt.Fuse.Hydrate.{fetch_all, keep_content, on_cached, fetch_content, fetch_cached}

module _ (S : Storage) (c : DiskCache) (manifest_path prefix : Str) where
  open S use {read_dir}

  abbrev key : Str
  key = cache_key_for_path manifest_path

  -- A key that is in the cache is answered from it, and nothing is asked of the store.
  fetch_cached-hit :
      (s : Mount S.op) {content : Str}
      → Cache.get c s.disk key ≡ some content
      → fetch_cached S c manifest_path prefix s ≡ (ok content, s)
  unfolding fetch_cached on_cached ◌>>=◌
  fetch_cached-hit s h = rw h refl

  missed :
      (t : Mount S.op)
      → Cache.get c t.disk key ≡ none
      → fetch_cached S c manifest_path prefix t ≡ on_cached S c manifest_path prefix none t
  unfolding fetch_cached ◌>>=◌
  missed t e = rw e refl

  -- The content that was put is the one that is read, if any is.
  get-keep_content :
      (d : Disk) (content x : Str)
      → tmp_for c key ≢ path_for c key
      → Cache.get c d key ≡ none
      → Cache.get c (Cache.put read_dir c d key content).1 key ≡ some x
      → x ≡ content
  get-keep_content d content x apart miss found = go (Cache.put read_dir c d key content).0 refl
    where
      go : (r : Result (Unit {0})) → (Cache.put read_dir c d key content).0 ≡ r → x ≡ content
      go (err e) q = absurd (cc (get-put_err read_dir c d key content (λ p. cc) key apart))
      go (ok u) q = elim (get-put read_dir c d key content q key apart) [
        | inl new ↦ ground (arith, eq_refl key)
        | inr gone ↦ absurd (cc)
      ]

  -- The fetching leaves the disk alone.
  abbrev At : Disk → Mount S.op → Type 0
  At d s = s.disk ≡ d

  At-fetch_all : (d : Disk) (p : Str) (hashes : List Str) → Keeps (At d) (fetch_all S p hashes)
  unfolding fetch_all ask
  At-fetch_all d p [] = Keeps-pure (At d) _
  At-fetch_all d p (hash ∷ hashes) =
      Keeps-bind (At d) _ (Keeps-context (At d) _ _ (λ s h. h)) _
        (λ chunk. Keeps-bind (At d) _ (At-fetch_all d p hashes) _ (λ rest. Keeps-pure (At d) _))

  At-fetch_content : (d : Disk) → Keeps (At d) (fetch_content S manifest_path prefix)
  unfolding fetch_content ask
  At-fetch_content d = Keeps-bind (At d) _ (Keeps-context (At d) _ _ (λ s h. h)) _ (λ bytes.
      Keeps-bind (At d) _ (Keeps-lift (At d) _) _
        (λ text. Keeps-bind (At d) _ (Keeps-lift (At d) _) _ (λ hashes. At-fetch_all d _ hashes)))

  abbrev stored : Str → Mount S.op → Result Str × Mount S.op
  stored got t = (ok got, record t { disk = (Cache.put read_dir c t.disk key got).1 })

  keep-stored :
      (got : Str) (t : Mount S.op) → (keep_content S c key got >>= λ _. pure got) t ≡ stored got t
  unfolding keep_content ◌>>=◌
  keep-stored got t = refl

  fetched-content :
      (s : Mount S.op) {content x : Str}
      → tmp_for c key ≢ path_for c key
      → Cache.get c s.disk key ≡ none
      → (on_cached S c manifest_path prefix none s).0 ≡ ok content
      → Cache.get c (on_cached S c manifest_path prefix none s).1.disk key ≡ some x
      → x ≡ content
  unfolding on_cached
  fetched-content s {content} {x} apart miss h found =
      let (got, fetched, run, h1) = >>=-eq-ok _ _ s h in
      let at = At-fetch_content s.disk s refl in
      let t = (fetch_content S manifest_path prefix s).1 in
      let end = run ∙ keep-stored got t in
      let same : got ≡ content = cc (rw keep-stored at h1) in
      let left : Cache.get c (Cache.put read_dir c t.disk key got).1 key ≡ some x =
        sym (ap (λ (r : Result Str × Mount S.op). Cache.get c r.1.disk key) end) ∙ found in
      get-keep_content t.disk got x apart (ap (λ (d : Disk). Cache.get c d key) at ∙ miss) left
      ∙ same

  -- A file that was hydrated with success is hydrated again to the same content, with no request
  -- to the store and with nothing changed, as long as the cache still has its key. The path of the
  -- temporary file is not that of the key.
  pub fetch_cached-again :
      (s : Mount S.op) {content x : Str}
      → tmp_for c key ≢ path_for c key
      → (fetch_cached S c manifest_path prefix s).0 ≡ ok content
      → Cache.get c (fetch_cached S c manifest_path prefix s).1.disk key ≡ some x
      → fetch_cached S c manifest_path prefix (fetch_cached S c manifest_path prefix s).1
        ≡ (ok content, (fetch_cached S c manifest_path prefix s).1)
  fetch_cached-again s {content} {x} apart h found = elim (Option-cases (Cache.get c s.disk key)) [
    | inl miss ↦
        let run = missed s miss in
        let same : x ≡ content = fetched-content s apart miss (rw run at h) (rw run at found) in
        fetch_cached-hit _ (found ∙ ap some same)
    | inr (y, hit) ↦
        let run = fetch_cached-hit s hit in
        let same : y ≡ content = cc in
        fetch_cached-hit _
          (ap (λ (r : Result Str × Mount S.op). Cache.get c r.1.disk key) run ∙ hit ∙ ap some same)
  ]
