-- ===== src/Platform/FileProvider/Storing.antt =====
-- crates/tcfs-file-provider/src/lib.rs: what an upload leaves in the store.
use tummycrypt.Prelude.{
  ◌≡◌, refl, sym, ap, subst, ◌∙◌, some, List, [], ◌∷◌, Str, ◌==◌, map, length, All, All-map, arith,
  eq_iff, eq_refl, inl, inr, Bool-cases,
}
use tummycrypt.Prelude.Text.Trim.{trim_start}
use tummycrypt.Fallible.{Result, ok}
use tummycrypt.Exec.{pure, lift, context, ◌>>=◌}
use tummycrypt.Exec.Inversion.{>>=-eq-ok}
use tummycrypt.Chunks.{Chunk, chunk_data, small, hash_hex}
use tummycrypt.Chunks.Tiling.{chunk_bytes, concat, hash-chunk_data}
use tummycrypt.Manifest.{SyncManifest, to_bytes}
use tummycrypt.Remote.{IsLawful, IsReliable, manifest_key, chunk_key, index_key}
use tummycrypt.Remote.Keys.{
  chunk_key-injective, chunk_key-ne-manifest_key, index_key-ne-chunk_key, index_key-ne-manifest_key,
}
use tummycrypt.Engine.{Deps}
use tummycrypt.Engine.Tree.{remote_path_prefix, index_entry}
use tummycrypt.Platform.{fetch_verified, verify_chunk}
use tummycrypt.Platform.FileProvider.{manifest_of, put_chunks, put_file}

module _ (D : Deps) (L : IsLawful D.op) (lossy : Str → Str) (remote_prefix : Str) where
  open D use {op, blake3, cdc, json}

  abbrev pub prefix : Str
  prefix = remote_path_prefix remote_prefix

  -- The chunk with these bytes stands under its hash.
  abbrev pub Has : op.State → Str → Type 0
  Has s x = L.object s (chunk_key prefix (hash_hex blake3 x)) ≡ some x

  -- The bytes stay in reach of a read.
  pub Has-read : (s : op.State) (key x : Str) → Has s x → Has (op.read key s).1 x
  Has-read s key x h = L.object-read s key _ ∙ h

  -- A write of a chunk under its hash keeps every other, with a hash without collisions.
  Has-write_chunk :
      ((a b : Str) → hash_hex blake3 a ≡ hash_hex blake3 b → a ≡ b)
      → (s : op.State) (y x : Str) → (op.write (chunk_key prefix (hash_hex blake3 y)) y s).0 ≡ ok tt
      → Has s x
      → Has (op.write (chunk_key prefix (hash_hex blake3 y)) y s).1 x
  Has-write_chunk free s y x done h = elim (Bool-cases (hash_hex blake3 y == hash_hex blake3 x)) [
    | inl same ↦
        let e : hash_hex blake3 y ≡ hash_hex blake3 x =
          ground (arith, eq_iff (hash_hex blake3 y) (hash_hex blake3 x)) in
        rw (← free y x e) (L.object-write_ok s _ y done)
    | inr other ↦
        L.object-write_ne s _ y _ (λ e.
          let same = chunk_key-injective prefix (hash_hex blake3 y) (hash_hex blake3 x) e in
          ground (arith, eq_iff (hash_hex blake3 y) (hash_hex blake3 x)))
        ∙ h
  ]

  -- What the verified chunks of some bytes are put together to.
  pub fetch_verified-answers :
      IsReliable op L
      → (xs : List Str) (s : op.State) → All (Has s) xs
      → (fetch_verified D prefix (map (hash_hex blake3) xs) s).0 ≡ ok (concat xs)
  unfolding fetch_verified verify_chunk context ◌>>=◌
  fetch_verified-answers calm [] s h = refl
  fetch_verified-answers calm (x ∷ xs) s (h, hs) =
      let key = chunk_key prefix (hash_hex blake3 x) in
      let after = (op.read key s).1 in
      let rest =
        fetch_verified-answers calm xs after (All-map (Has s) (Has after) xs (Has-read s key) hs) in
      ground (arith, calm.read-answers s key x h, eq_refl (hash_hex blake3 x))

  -- The first chunk that is written is there, and so is every chunk that was.
  Has-write_first :
      ((a b : Str) → hash_hex blake3 a ≡ hash_hex blake3 b → a ≡ b)
      → (s : op.State) (y g : Str) → g ≡ hash_hex blake3 y
      → (op.write (chunk_key prefix g) y s).0 ≡ ok tt
      → Has (op.write (chunk_key prefix g) y s).1 y
        × ((x : Str) → Has s x → Has (op.write (chunk_key prefix g) y s).1 x)
  Has-write_first free s y g q done = (
    rw q (L.object-write_ok s _ y (rw q at done)),
    λ x there. rw q (Has-write_chunk free s y x (rw q at done) there),
  )

  -- What the requests for the chunks leave, if all of them succeed.
  put_chunks-ok :
      ((a b : Str) → hash_hex blake3 a ≡ hash_hex blake3 b → a ≡ b)
      → (bytes : Str) (chunks : List Chunk) (s : op.State) {hashes : List Str}
      → All (λ (c : Chunk). c.hash ≡ blake3.hash (chunk_bytes bytes c)) chunks
      → (put_chunks D lossy remote_prefix bytes chunks s).0 ≡ ok hashes
      → let after = (put_chunks D lossy remote_prefix bytes chunks s).1 in
        (hashes ≡ map (hash_hex blake3) (map (chunk_bytes bytes) chunks))
        × All (Has after) (map (chunk_bytes bytes) chunks)
        × ((x : Str) → Has s x → Has after x)
  unfolding put_chunks pure
  put_chunks-ok free bytes [] s hashed h = (ground arith, tt, λ x there. there)
  put_chunks-ok free bytes (c ∷ chunks) s {hashes} (e, es) h =
      let (_, done, run, h1) = >>=-eq-ok _ _ s h in
      let (rest, got, then_, h2) = >>=-eq-ok _ _ _ h1 in
      let (same, there, keeps) = put_chunks-ok free bytes chunks _ es got in
      let (first, kept) =
        Has-write_first free s (chunk_bytes bytes c) (blake3.to_hex c.hash) (ap blake3.to_hex e)
          done in
      subst
        (λ (t : op.State).
          (hashes ≡ map (hash_hex blake3) (map (chunk_bytes bytes) (c ∷ chunks)))
          × All (Has t) (map (chunk_bytes bytes) (c ∷ chunks))
          × ((x : Str) → Has s x → Has t x))
        (sym (ap (λ (r : Result (List Str) × op.State). r.1) (run ∙ then_)))
        (
          ground (arith, ap blake3.to_hex e),
          (keeps (chunk_bytes bytes c) first, there),
          λ x h. keeps x (kept x h),
        )

  abbrev pub pieces : Str → List Str
  pieces bytes = map (chunk_bytes bytes) (chunk_data blake3 cdc bytes small)

  abbrev pub manifest : Str → Str → SyncManifest
  manifest bytes remote_rel =
      manifest_of (hash_hex blake3 bytes) (length bytes) (map (hash_hex blake3) (pieces bytes))
        remote_rel

  abbrev pub entry : Str → Str
  entry bytes =
      index_entry (hash_hex blake3 bytes) (length bytes)
        (length (chunk_data blake3 cdc bytes small))

  abbrev pub index : Str → Str
  index remote_rel = index_key prefix (trim_start b'/' remote_rel)

  -- What an upload leaves in the store.
  abbrev pub Holds : Str → Str → op.State → Type 0
  Holds bytes remote_rel s =
      (printed : Str) × (to_bytes json (manifest bytes remote_rel) ≡ ok printed)
      × All (Has s) (pieces bytes)
      × (L.object s (manifest_key prefix (hash_hex blake3 bytes)) ≡ some printed)
      × (L.object s (index remote_rel) ≡ some (entry bytes))

  pub put_file-Holds :
      ((a b : Str) → hash_hex blake3 a ≡ hash_hex blake3 b → a ≡ b)
      → (bytes remote_rel : Str) (s : op.State)
      → (put_file D lossy remote_prefix bytes remote_rel s).0 ≡ ok tt
      → Holds bytes remote_rel (put_file D lossy remote_prefix bytes remote_rel s).1
  unfolding put_file lift
  put_file-Holds free bytes remote_rel s h =
      let (hashes, put, run, h1) = >>=-eq-ok _ _ s h in
      let (printed, print, run2, h2) = >>=-eq-ok _ _ _ h1 in
      let (_, wrote, run3, h3) = >>=-eq-ok _ _ _ h2 in
      let (same, there, _) =
        put_chunks-ok free bytes (chunk_data blake3 cdc bytes small) s
          (hash-chunk_data blake3 cdc bytes small) put in
      let s1 = (put_chunks D lossy remote_prefix bytes (chunk_data blake3 cdc bytes small) s).1 in
      let at = manifest_key prefix (hash_hex blake3 bytes) in
      let s2 = (op.write at printed s1).1 in
      let s3 = (op.write (index remote_rel) (entry bytes) s2).1 in
      subst (Holds bytes remote_rel)
        (sym (ap (λ (r : Result (Unit {0}) × op.State). r.1) (run ∙ run2 ∙ run3)))
        (
          printed,
          ap
                (λ hs.
                  to_bytes json (manifest_of (hash_hex blake3 bytes) (length bytes) hs remote_rel))
                (sym same)
              ∙ print,
          All-map (Has s1) (Has s3) (pieces bytes)
              (λ x e.
                L.object-write_ne s2 _ _ _ (index_key-ne-chunk_key prefix _ _)
                ∙ L.object-write_ne s1 _ _ _ (λ p. chunk_key-ne-manifest_key prefix _ _ (sym p))
                ∙ e)
              there,
          L.object-write_ne s2 _ _ _ (index_key-ne-manifest_key prefix _ _)
              ∙ L.object-write_ok s1 at printed wrote,
          L.object-write_ok s2 (index remote_rel) (entry bytes) h3,
        )
