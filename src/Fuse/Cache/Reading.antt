-- ===== src/Fuse/Cache/Reading.antt =====
-- What is read from the cache after a file was put into it.
use tummycrypt.Prelude.{
  ℕ, ◌-◌, ◌≡◌, ◌≢◌, ◌⊎◌, inl, inr, refl, sym, ap, ◌∙◌, none, some, List, [], ◌∷◌, ◌++◌, Str, ◌==◌,
  eq_iff, eq_refl, leb, if◌then◌else◌, Bool-cases, arith, length, drop, append-cancel_left,
}
use tummycrypt.Prelude.Dict.{lookup, lookup-insert, lookup-erase, insert, erase}
use tummycrypt.Prelude.Text.FilePath.{parent}
use tummycrypt.Fallible.{Result, ok, err}
use tummycrypt.Disk
use tummycrypt.Disk.{Disk, File, ReadDir}
use tummycrypt.Fuse.Cache.{
  DiskCache, Cached, shard, path_for, tmp_for, get, put, cached_entries, evict_if_needed,
  remove_oldest, total_size, sort_by_mtime,
}

-- A file is there as before, or is gone.
abbrev pub Drops : Disk → Disk → Type 0
Drops d e =
    (path : Str) → (lookup path e.files ≡ lookup path d.files) ⊎ (lookup path e.files ≡ none)

Drops-trans : (c d e : Disk) → Drops c d → Drops d e → Drops c e
Drops-trans c d e p q path = ground (arith, p path, q path)

Drops-remove_file : (d : Disk) (path : Str) → Drops d (Disk.remove_file d path).1
unfolding Disk.remove_file
Drops-remove_file d path j = ground (arith, lookup-erase path j d.files)

Drops-remove_oldest :
    (max total : ℕ) (es : List Cached) (d : Disk) → Drops d (remove_oldest max total es d)
unfolding remove_oldest
Drops-remove_oldest max total [] d path = inl refl
Drops-remove_oldest max total (e ∷ rest) d path = elim (Bool-cases (leb total max)) [
  | inl fits ↦ rw fits (inl refl)
  | inr over ↦
      let once = (Disk.remove_file d e.path).1 in
      rw over (
        Drops-trans d once (remove_oldest max (total - e.size) rest once)
          (Drops-remove_file d e.path) (Drops-remove_oldest max (total - e.size) rest once) path)
]

Drops-evict_if_needed :
    (read_dir : ReadDir) (c : DiskCache) (d : Disk) → Drops d (evict_if_needed read_dir c d).1
unfolding evict_if_needed
Drops-evict_if_needed read_dir c d path = go (cached_entries read_dir c d) refl
  where
    go :
        (r : Result (List Cached))
        → cached_entries read_dir c d ≡ r
        → (lookup path (evict_if_needed read_dir c d).1.files ≡ lookup path d.files)
          ⊎ (lookup path (evict_if_needed read_dir c d).1.files ≡ none)
    go (err e) q = rw (q, evict_if_needed) (inl refl)
    go (ok es) q = elim (Bool-cases (leb (total_size es) c.max_bytes)) [
      | inl fits ↦ rw (q, fits, evict_if_needed) (inl refl)
      | inr over ↦
          rw (q, over, evict_if_needed)
            (Drops-remove_oldest c.max_bytes (total_size es) (sort_by_mtime es) d path)
    ]

-- The parts of a path of the cache are told apart by their lengths.
shard-two : (key : Str) → length (shard key) ≡ 2
shard-two [] = refl
shard-two (x ∷ []) = refl
shard-two (x ∷ y ∷ key) = ground arith

drop-two : (xs ys : Str) → length xs ≡ 2 → drop 2 (xs ++ ys) ≡ ys
drop-two [] ys h = absurd (omega arith)
drop-two (x ∷ []) ys h = absurd (omega arith)
drop-two (x ∷ y ∷ []) ys h = refl
drop-two (x ∷ y ∷ z ∷ xs) ys h = absurd (omega arith)

path_for-injective : (c : DiskCache) (j k : Str) → path_for c j ≡ path_for c k → j ≡ k
path_for-injective c j k e =
    let tails =
      append-cancel_left (c.dir ++ (b'/' ∷ [])) (shard j ++ (b'/' ∷ j)) (shard k ++ (b'/' ∷ k)) e in
    ap (drop 1) (
      sym (drop-two (shard j) (b'/' ∷ j) (shard-two j))
      ∙ ap (drop 2) tails
      ∙ drop-two (shard k) (b'/' ∷ k) (shard-two k))

module _ (read_dir : ReadDir) (c : DiskCache) where
  pub put-eq-ok :
      (d : Disk) (key content : Str)
      → (put read_dir c d key content).0 ≡ ok tt
      → let written = Disk.write d (tmp_for c key) content in
        let renamed = Disk.rename written.1 (tmp_for c key) (path_for c key) in
        (written.0 ≡ ok tt)
        × (renamed.0 ≡ ok tt)
        × ((put read_dir c d key content).1 ≡ (evict_if_needed read_dir c renamed.1).1)
  unfolding put
  put-eq-ok d key content h = ground arith

  -- The file before the eviction.
  lookup-renamed :
      (d : Disk) (tmp path content : Str)
      → (Disk.write d tmp content).0 ≡ ok tt
      → (Disk.rename (Disk.write d tmp content).1 tmp path).0 ≡ ok tt
      → (j : Str) → tmp ≢ j
      → lookup j (Disk.rename (Disk.write d tmp content).1 tmp path).1.files ≡ (
          if path == j
          then some (record { content = content; modified = some d.now })
          else lookup j d.files)
  unfolding Disk.write Disk.rename
  lookup-renamed d tmp path content w r j apart =
      let f : File = record { content = content; modified = some d.now } in
      let files = insert tmp f d.files in
      ground (
        arith,
        eq_refl tmp,
        eq_iff tmp j,
        lookup-insert tmp tmp f d.files,
        lookup-insert tmp j f d.files,
        lookup-erase tmp j files,
        lookup-insert path j f (erase tmp files),
      )

  -- Once a content was put under a key, a key whose path is not that of the temporary file reads
  -- what it read before, the key itself the content, or nothing where the eviction took it.
  pub get-put :
      (d : Disk) (key content : Str)
      → (put read_dir c d key content).0 ≡ ok tt
      → (j : Str) → tmp_for c key ≢ path_for c j
      → (get c (put read_dir c d key content).1 j ≡ (if key == j then some content else get c d j))
        ⊎ (get c (put read_dir c d key content).1 j ≡ none)
  unfolding get Disk.read
  get-put d key content h j apart =
      let (w, r, run) = put-eq-ok d key content h in
      let renamed =
        Disk.rename (Disk.write d (tmp_for c key) content).1 (tmp_for c key) (path_for c key) in
      let found =
        lookup-renamed d (tmp_for c key) (path_for c key) content w r (path_for c j) apart in
      let left = Drops-evict_if_needed read_dir c renamed.1 (path_for c j) in
      let same : path_for c key ≡ path_for c j → key ≡ j = path_for-injective c key j in
      let back : key ≡ j → path_for c key ≡ path_for c j = ap (path_for c) in
      rw run (
        ground
          (arith, found, left, same, back, eq_iff key j, eq_iff (path_for c key) (path_for c j)))

  -- A put that fails leaves every file but the temporary one and its own.
  lookup-renamed_err :
      (d : Disk) (tmp path content : Str)
      → (Disk.rename (Disk.write d tmp content).1 tmp path).0 ≢ ok tt
      → (j : Str) → tmp ≢ j
      → lookup j (Disk.rename (Disk.write d tmp content).1 tmp path).1.files ≡ lookup j d.files
  unfolding Disk.write Disk.rename
  lookup-renamed_err d tmp path content r j apart =
      let f : File = record { content = content; modified = some d.now } in
      ground (
        arith,
        eq_refl tmp,
        eq_iff tmp j,
        lookup-insert tmp tmp f d.files,
        lookup-insert tmp j f d.files,
      )

  lookup-write :
      (d : Disk) (tmp content j : Str)
      → tmp ≢ j
      → lookup j (Disk.write d tmp content).1.files ≡ lookup j d.files
  unfolding Disk.write
  lookup-write d tmp content j apart =
      let f : File = record { content = content; modified = some d.now } in
      ground (arith, eq_iff tmp j, lookup-insert tmp j f d.files)

  lookup-put_err :
      (d : Disk) (key content : Str)
      → (put read_dir c d key content).0 ≢ ok tt
      → (j : Str) → tmp_for c key ≢ j
      → lookup j (put read_dir c d key content).1.files ≡ lookup j d.files
  unfolding put
  lookup-put_err d key content h j apart =
      go (Disk.create_dir_all d (parent (path_for c key))) refl written.0 refl renamed.0 refl
    where
      written : Result (Unit {0}) × Disk
      written = Disk.write d (tmp_for c key) content

      renamed : Result (Unit {0}) × Disk
      renamed = Disk.rename written.1 (tmp_for c key) (path_for c key)

      go :
          (a : Result (Unit {0}))
          → Disk.create_dir_all d (parent (path_for c key)) ≡ a
          → (b : Result (Unit {0})) → written.0 ≡ b
          → (r : Result (Unit {0})) → renamed.0 ≡ r
          → lookup j (put read_dir c d key content).1.files ≡ lookup j d.files
      go (err e) p b q r t = rw (p, put) refl
      go (ok u) p (err e) q r t = rw (p, q, put) (lookup-write d (tmp_for c key) content j apart)
      go (ok u) p (ok v) q (err e) t =
          rw (p, q, t, put)
            (lookup-renamed_err d (tmp_for c key) (path_for c key) content (λ x. cc) j apart)
      go (ok u) p (ok v) q (ok w) t = absurd (h (rw (p, q, t, put) refl))

  -- A put that fails changes nothing that is read, the path of the temporary file aside.
  pub get-put_err :
      (d : Disk) (key content : Str)
      → (put read_dir c d key content).0 ≢ ok tt
      → (j : Str) → tmp_for c key ≢ path_for c j
      → get c (put read_dir c d key content).1 j ≡ get c d j
  unfolding get Disk.read
  get-put_err d key content h j apart =
      ground (arith, lookup-put_err d key content h (path_for c j) apart)
