-- ===== src/Chunks/Seekable.antt =====
-- crates/tcfs-chunks/src/seekable_zstd.rs: data as compressed frames with a table to seek in. The
-- `zstd` crate is a parameter. The capacities that the code reserves are left out.
pub mod Reading
use tummycrypt.Prelude.{
  ℕ, zero, suc, ◌+◌, ◌-◌, ◌%◌, ◌^◌, ◌<◌, ◌≤◌, ◌≡◌, Bool, true, false, Option, some, List, [], ◌∷◌,
  ◌++◌, Str, max, min, ltb, leb, ◌&&◌, if◌then◌else◌, length, take, drop,
}
use tummycrypt.Prelude.Text.Lines.{is_empty}
use tummycrypt.Fallible.{
  Result, ok, err, or_err, ◌>>=◌, panicked, compressing_frame, decompressing_frame,
}

-- `zstd::encode_all`, at a level, and `zstd::decode_all`.
pub record Zstd : Type 1 where
  pub Level : Type 0
  pub encode : Level → Str → Option Str
  pub decode : Str → Option Str

-- What is compressed is decompressed.
pub record IsLawful (Z : Zstd) : Type 0 where
  pub decode-encode :
      (level : Z.Level) (s c : Str) → Z.encode level s ≡ some c → Z.decode c ≡ some s

-- The size of a frame in bytes fits a `u32`, compressed or not.
pub record IsFitting (Z : Zstd) (level : Z.Level) (size : ℕ) : Type 0 where
  pub size-fits : size < 2 ^ 32
  pub length-encode : (s c : Str) → length s ≤ size → Z.encode level s ≡ some c → length c < 2 ^ 32

pub record SeekEntry : Type 0 where
  pub uncompressed_size : ℕ
  pub compressed_size : ℕ
  pub compressed_offset : ℕ

pub record SeekableBlob : Type 0 where
  pub compressed : Str
  pub seek_table : List SeekEntry

-- `chunks(size)` of a slice: `room` is how many bytes may still join the chunk that was begun.
unfoldable pub chunks_from : ℕ → ℕ → Str → Str → List Str
chunks_from size room chunk [] = if is_empty chunk then [] else chunk ∷ []
chunks_from size room chunk (c ∷ s) = elim room [
  | zero ↦ chunk ∷ chunks_from size (size - 1) (c ∷ []) s
  | suc r ↦ chunks_from size r (chunk ++ (c ∷ [])) s
]

abbrev pub chunks : ℕ → Str → List Str
chunks size s = chunks_from size size [] s

-- `u32` and `u64` casts.
abbrev pub as_u32 : ℕ → ℕ
as_u32 n = n % 2 ^ 32

abbrev pub as_u64 : ℕ → ℕ
as_u64 n = n % 2 ^ 64

-- `&bytes[start..end]`
abbrev pub range_of : Str → ℕ → ℕ → Result Str
range_of bytes start end =
    if leb start end && leb end (length bytes)
    then ok (take (end - start) (drop start bytes))
    else err panicked

module _ (Z : Zstd) where
  open Z use {Level, encode, decode}

  -- The loop, after the frames in `before`.
  unfoldable pub compress_frames : Level → Str → List Str → Result (Str × List SeekEntry)
  compress_frames level before [] = ok (before, [])
  compress_frames level before (chunk ∷ rest) = do
    frame ← or_err compressing_frame (encode level chunk)
    (compressed, table) ← compress_frames level (before ++ frame) rest
    ok (
      compressed,
      record {
        uncompressed_size = as_u32 (length chunk);
        compressed_size = as_u32 (length frame);
        compressed_offset = length before;
      }
          ∷ table,
    )

  unfoldable pub compress : Str → ℕ → Level → Result SeekableBlob
  compress bytes frame_size level = do
    (compressed, table) ← compress_frames level [] (chunks (max frame_size 1) bytes)
    ok (record { compressed = compressed; seek_table = table })

  -- The frame of one entry.
  unfoldable pub decode_entry : Str → SeekEntry → Result Str
  decode_entry compressed e = do
    frame ←
        range_of compressed e.compressed_offset (as_u64 (e.compressed_offset + e.compressed_size))
    or_err decompressing_frame (decode frame)

  unfoldable pub decompress_entries : Str → List SeekEntry → Result Str
  decompress_entries compressed [] = ok []
  decompress_entries compressed (e ∷ entries) = do
    plain ← decode_entry compressed e
    rest ← decompress_entries compressed entries
    ok (plain ++ rest)

  unfoldable pub decompress_all : SeekableBlob → Result Str
  decompress_all blob = decompress_entries blob.compressed blob.seek_table

  -- What a frame between two offsets adds to the range.
  unfoldable pub overlap : Str → ℕ → ℕ → ℕ → ℕ → SeekEntry → Result Str
  overlap compressed range_start range_end frame_start frame_end e =
      if ltb range_start frame_end && ltb frame_start range_end
      then (do
        plain ← decode_entry compressed e
        range_of plain (range_start - frame_start) (min range_end frame_end - frame_start))
      else ok []

  unfoldable pub decompress_from : Str → ℕ → ℕ → ℕ → List SeekEntry → Result Str
  decompress_from compressed range_start range_end frame_start [] = ok []
  decompress_from compressed range_start range_end frame_start (e ∷ entries) =
      let frame_end = as_u64 (frame_start + e.uncompressed_size) in
      do
        part ← overlap compressed range_start range_end frame_start frame_end e
        rest ← elim (leb range_end frame_end) [
          | true ↦ ok []
          | false ↦ decompress_from compressed range_start range_end frame_end entries
        ]
        ok (part ++ rest)

  unfoldable pub decompress_range : SeekableBlob → ℕ → ℕ → Result Str
  decompress_range blob range_start range_end =
      decompress_from blob.compressed range_start range_end 0 blob.seek_table
