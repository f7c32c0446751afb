-- ===== src/Chunks.antt =====
-- crates/tcfs-chunks/src: content-defined chunks and their hashes. The `blake3` and `fastcdc`
-- crates are parameters.
pub mod Tiling
pub mod Seekable
use tummycrypt.Prelude.{
  ℕ, ◌+◌, ◌*◌, ◌<◌, ◌≡◌, Bool, Option, none, some, List, [], ◌∷◌, map, Str, str, ◌==◌, ◌||◌,
  if◌then◌else◌, take, drop, length,
}
use tummycrypt.Prelude.Text.FilePath.{extension}
use tummycrypt.Prelude.Text.Lines.{is_empty}
use tummycrypt.Fallible.{Result, ok, ◌>>=◌}
use tummycrypt.Disk
use tummycrypt.Disk.{Disk}

-- `blake3::hash`, `Hash::to_hex` and `Hash::from_hex`, on digests as bytes.
pub record Blake3 : Type 0 where
  pub hash : Str → Str
  pub to_hex : Str → Str
  pub from_hex : Str → Option Str

-- A digest is read back from its hex form, and the hex form is not empty.
pub record IsHexLawful (B : Blake3) : Type 0 where
  pub from_hex-to_hex : (d : Str) → B.from_hex (B.to_hex (B.hash d)) ≡ some (B.hash d)
  pub to_hex-is_empty : (d : Str) → is_empty (B.to_hex (B.hash d)) ≡ Bool.false

-- `hash_to_hex(&hash_bytes(data))`
abbrev pub hash_hex : Blake3 → Str → Str
hash_hex B bytes = B.to_hex (B.hash bytes)

pub record ChunkSizes : Type 0 where
  pub min_size : ℕ
  pub avg_size : ℕ
  pub max_size : ℕ

abbrev pub small : ChunkSizes
small = record { min_size = 2 * 1024; avg_size = 4 * 1024; max_size = 16 * 1024 }

abbrev pub pack : ChunkSizes
pack = record { min_size = 32 * 1024; avg_size = 64 * 1024; max_size = 256 * 1024 }

unfoldable pub for_path : Str → ChunkSizes
for_path path = elim (extension path) [
  | some e ↦
      if e == str "pack" || (e == str "bin" || (e == str "iso" || e == str "img"))
      then pack
      else small
  | none ↦ small
]

pub record Chunk : Type 0 where
  pub offset : ℕ
  pub length : ℕ
  pub hash : Str

-- The cuts that `FastCDC::new(data, min, avg, max)` iterates over: offset and length.
pub record FastCdc : Type 0 where
  pub cuts : Str → ChunkSizes → List (ℕ × ℕ)

-- The cuts stand one behind the other from `at` to `end`.
abbrev pub Tiles : ℕ → ℕ → List (ℕ × ℕ) → Type 0
Tiles at end [] = at ≡ end
Tiles at end ((offset, length) ∷ cuts) = (offset ≡ at) × Tiles (at + length) end cuts

-- The cuts of some data tile it.
pub record IsTiling (F : FastCdc) : Type 0 where
  pub tiles : (bytes : Str) (sizes : ChunkSizes) → Tiles 0 (length bytes) (F.cuts bytes sizes)

-- `&data[offset..offset + length]`, which the tiling keeps in range.
abbrev pub slice : Str → ℕ → ℕ → Str
slice bytes offset length = take length (drop offset bytes)

-- The chunk of one cut.
abbrev pub chunk_of : Blake3 → Str → ℕ × ℕ → Chunk
chunk_of B bytes c = record { offset = c.0; length = c.1; hash = B.hash (slice bytes c.0 c.1) }

module _ (B : Blake3) (F : FastCdc) where
  unfoldable pub chunk_data : Str → ChunkSizes → List Chunk
  chunk_data bytes sizes =
      if is_empty bytes then [] else map (chunk_of B bytes) (F.cuts bytes sizes)

  unfoldable pub chunk_file : Disk → Str → Result (List Chunk × Str)
  unfolding chunk_data for_path Disk.read
  chunk_file d path = do bytes ← Disk.read d path; ok (chunk_data bytes (for_path path), bytes)
