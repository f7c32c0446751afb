-- ===== src/Chunks/Tiling.antt =====
-- The chunks of a file, put together again, are the file.
use Prim.Native.Nat.{zero, suc}
use native.Mathlib.Nat.{zero-add, suc-add}
use tummycrypt.Prelude.{
  ℕ, ◌+◌, ◌≡◌, refl, ap, sym, List, [], ◌∷◌, ◌++◌, map, Str, take, drop, length, All, drop-nil,
}
use tummycrypt.Chunks.{
  Blake3, FastCdc, IsTiling, Tiles, slice, Chunk, ChunkSizes, chunk_of, chunk_data,
}

abbrev pub chunk_bytes : Str → Chunk → Str
chunk_bytes bytes c = slice bytes c.offset c.length

-- The contents of some chunks, one behind the other.
abbrev pub concat : List Str → Str
concat [] = []
concat (x ∷ xs) = x ++ concat xs

take-append-drop : (n : ℕ) (xs : Str) → take n xs ++ drop n xs ≡ xs
take-append-drop zero xs = refl
take-append-drop (suc n) [] = refl
take-append-drop (suc n) (x ∷ xs) = ap (◌∷◌ x) (take-append-drop n xs)

drop-drop : (m n : ℕ) (xs : Str) → drop n (drop m xs) ≡ drop (m + n) xs
drop-drop zero n xs = rw zero-add
drop-drop (suc m) n [] = rw (suc-add, drop-nil)
drop-drop (suc m) n (x ∷ xs) = rw suc-add (drop-drop m n xs)

drop-length : (xs : Str) → drop (length xs) xs ≡ []
drop-length [] = refl
drop-length (x ∷ xs) = drop-length xs

concat-cuts :
    (bytes : Str) (at : ℕ) (cuts : List (ℕ × ℕ))
    → Tiles at (length bytes) cuts
    → concat (map (λ (c : ℕ × ℕ). slice bytes c.0 c.1) cuts) ≡ drop at bytes
concat-cuts bytes at [] t = rw t (sym (drop-length bytes))
concat-cuts bytes at ((o, n) ∷ cuts) (e, t) =
    rw (e, concat-cuts bytes (at + n) cuts t, ← drop-drop) (take-append-drop n (drop at bytes))

map-chunk_bytes :
    (B : Blake3) (bytes : Str) (cuts : List (ℕ × ℕ))
    → map (chunk_bytes bytes) (map (chunk_of B bytes) cuts)
      ≡ map (λ (c : ℕ × ℕ). slice bytes c.0 c.1) cuts
map-chunk_bytes B bytes [] = refl
map-chunk_bytes B bytes (c ∷ cuts) = ap (◌∷◌ (slice bytes c.0 c.1)) (map-chunk_bytes B bytes cuts)

module _ (B : Blake3) (F : FastCdc) where
  -- For a chunker whose cuts stand one behind the other, the chunks of some data, put together in
  -- order, are the data.
  pub concat-chunk_data :
      IsTiling F
      → (bytes : Str) (sizes : ChunkSizes)
      → concat (map (chunk_bytes bytes) (chunk_data B F bytes sizes)) ≡ bytes
  unfolding chunk_data
  concat-chunk_data tiling [] sizes = refl
  concat-chunk_data tiling (x ∷ xs) sizes =
      rw map-chunk_bytes
        (concat-cuts (x ∷ xs) 0 (F.cuts (x ∷ xs) sizes) (tiling.tiles (x ∷ xs) sizes))

  hash-map :
      (bytes : Str) (cuts : List (ℕ × ℕ))
      → All (λ (c : Chunk). c.hash ≡ B.hash (chunk_bytes bytes c)) (map (chunk_of B bytes) cuts)
  hash-map bytes [] = tt
  hash-map bytes (c ∷ cuts) = (refl, hash-map bytes cuts)

  -- Every chunk carries the hash of its own bytes.
  pub hash-chunk_data :
      (bytes : Str) (sizes : ChunkSizes)
      → All (λ (c : Chunk). c.hash ≡ B.hash (chunk_bytes bytes c)) (chunk_data B F bytes sizes)
  unfolding chunk_data
  hash-chunk_data [] sizes = tt
  hash-chunk_data (x ∷ xs) sizes = hash-map (x ∷ xs) (F.cuts (x ∷ xs) sizes)
