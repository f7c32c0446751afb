-- ===== src/Tests/Frames.antt =====
-- Data in frames of a few bytes, by a codec that writes a mark before them.
use tummycrypt.Prelude.{
  ◌≡◌, refl, Option, none, some, [], ◌∷◌, Str, str, arith, nat_eq, if◌then◌else◌,
}
use tummycrypt.Fallible.{ok}
use tummycrypt.Chunks.Seekable.{
  Zstd, IsLawful, IsFitting, SeekableBlob, chunks_from, compress_frames, compress, decompress_all,
  decompress_range,
}
use tummycrypt.Chunks.Seekable.Reading.{decompress_all-compress, decompress_range-compress}

abbrev unmark : Str → Option Str
unmark [] = none
unmark (c ∷ s) = if nat_eq c b'z' then some s else none

abbrev marked : Zstd
marked = record { Level = Unit {0}; encode = λ _ s. some (b'z' ∷ s); decode = unmark }

marked-IsLawful : IsLawful marked
marked-IsLawful = record {
  decode-encode = λ level s c e. let same : b'z' ∷ s ≡ c = cc e in rw (← same) refl;
}

three-IsFitting : IsFitting marked tt 3
three-IsFitting = record { size-fits = omega arith; length-encode = λ s c short e. ground arith }

-- Two whole frames and one of a single byte.
abbrev blob : SeekableBlob
blob = record {
  compressed = str "zhelzlo zs";
  seek_table =
      record { uncompressed_size = 3; compressed_size = 4; compressed_offset = 0 }
      ∷ record { uncompressed_size = 3; compressed_size = 4; compressed_offset = 4 }
      ∷ record { uncompressed_size = 1; compressed_size = 2; compressed_offset = 8 }
      ∷ [];
}

compressed : compress marked (str "hello s") 3 tt ≡ ok blob
unfolding compress compress_frames chunks_from
compressed = refl

decompress_all-compress_run : decompress_all marked blob ≡ ok (str "hello s")
decompress_all-compress_run =
    decompress_all-compress marked marked-IsLawful tt 3 (str "hello s") blob three-IsFitting
      compressed (omega arith)

decompress_range-compress_example : decompress_range marked blob 2 5 ≡ ok (str "llo")
decompress_range-compress_example =
    decompress_range-compress marked marked-IsLawful tt 3 (str "hello s") blob 2 5 three-IsFitting
      compressed (omega arith) (omega arith) (omega arith)
