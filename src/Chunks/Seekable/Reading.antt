-- ===== src/Chunks/Seekable/Reading.antt =====
-- crates/tcfs-chunks/src/seekable_zstd.rs: what was compressed is read again, whole or in part.
use tummycrypt.Prelude.{
  ℕ, zero, suc, ◌+◌, ◌-◌, ◌^◌, ◌<◌, ◌≤◌, ◌≡◌, refl, ap, sym, ◌∙◌, some, List, [], ◌∷◌, ◌++◌, Str,
  arith, max, min, ltb, leb, length, take, drop, between, between-append, take-drop, take-append,
  drop-append, take-min, take-nil, drop-nil, between-late, length-append, All, append-nil,
  append_assoc, Bool-cases, inl, inr,
}
use native.Mathlib.Nat.{sub-zero}
use tummycrypt.Chunks.Tiling.{concat}
use tummycrypt.Fallible.{ok, or_err, compressing_frame, >>=-eq-ok}
use tummycrypt.Chunks.Seekable.{
  Zstd, IsLawful, IsFitting, SeekEntry, SeekableBlob, chunks_from, chunks, as_u32, as_u64, range_of,
  compress_frames, compress, decode_entry, decompress_entries, decompress_all, overlap,
  decompress_from, decompress_range,
}

concat-chunks_from :
    (size room : ℕ) (chunk s : Str) → concat (chunks_from size room chunk s) ≡ chunk ++ s
unfolding chunks_from
concat-chunks_from size room [] [] = refl
concat-chunks_from size room (x ∷ chunk) [] = refl
concat-chunks_from size zero chunk (c ∷ s) =
    ap (◌++◌ chunk) (concat-chunks_from size (size - 1) (c ∷ []) s)
concat-chunks_from size (suc r) chunk (c ∷ s) =
    concat-chunks_from size r (chunk ++ (c ∷ [])) s ∙ append_assoc chunk (c ∷ []) s

IsShort : ℕ → Str → Type 0
IsShort size s = length s ≤ size

chunks_from-IsShort :
    (size room : ℕ) (chunk s : Str)
    → 0 < size
    → length chunk + room ≤ size
    → All (IsShort size) (chunks_from size room chunk s)
unfolding chunks_from IsShort
chunks_from-IsShort size room [] [] p h = tt
chunks_from-IsShort size room (x ∷ chunk) [] p h = (omega arith, tt)
chunks_from-IsShort size zero chunk (c ∷ s) p h =
    (omega arith, chunks_from-IsShort size (size - 1) (c ∷ []) s p (omega arith))
chunks_from-IsShort size (suc r) chunk (c ∷ s) p h =
    chunks_from-IsShort size r (chunk ++ (c ∷ [])) s p (omega (arith, length-append chunk (c ∷ [])))

-- A slice that a front and a back enclose.
range_of-middle :
    (front middle back : Str) (start end : ℕ)
    → start ≡ length front
    → end ≡ length front + length middle
    → range_of ((front ++ middle) ++ back) start end ≡ ok middle
range_of-middle front middle back start end p q =
    let dropped : drop start ((front ++ middle) ++ back) ≡ middle ++ back =
      ap (drop start) (append_assoc front middle back)
      ∙ drop-append front (middle ++ back) start (omega (arith, p)) in
    let taken : take (end - start) (middle ++ back) ≡ middle =
      take-append middle back (end - start) (omega (arith, p, q)) in
    ground (arith, length-append (front ++ middle) back, length-append front middle, dropped, taken)

module _ (Z : Zstd) where
  -- The entries of a table, each with the chunk that it stands for.
  abbrev Tabled : Str → List Str → List SeekEntry → Type 0
  Tabled compressed [] [] = Unit
  Tabled compressed [] (e ∷ entries) = ⊥
  Tabled compressed (chunk ∷ rest) [] = ⊥
  Tabled compressed (chunk ∷ rest) (e ∷ entries) =
      (e.uncompressed_size ≡ length chunk)
      × (decode_entry Z compressed e ≡ ok chunk)
      × Tabled compressed rest entries

  decode_entry-frame :
      IsLawful Z
      → (level : Z.Level) (chunk before frame back : Str) (size : ℕ)
      → Z.encode level chunk ≡ some frame
      → length frame < 2 ^ 32
      → length ((before ++ frame) ++ back) < 2 ^ 64
      → decode_entry Z ((before ++ frame) ++ back) (record {
        uncompressed_size = size;
        compressed_size = as_u32 (length frame);
        compressed_offset = length before;
      })
        ≡ ok chunk
  unfolding decode_entry
  decode_entry-frame law level chunk before frame back size encoded short small =
      let all = length-append (before ++ frame) back in
      let front = length-append before frame in
      rw
        (
          range_of-middle before frame back (length before)
              (as_u64 (length before + as_u32 (length frame))) refl (omega (arith, all, front)),
          law.decode-encode level chunk frame encoded,
        )
        refl

  -- The frames that a run of the loop adds, and their table.
  compress_frames-Tabled :
      IsLawful Z
      → (level : Z.Level) (size : ℕ) → IsFitting Z level size
      → (before : Str) (frames : List Str) (out : Str × List SeekEntry) → All (IsShort size) frames
      → compress_frames Z level before frames ≡ ok out
      → length out.0 < 2 ^ 64
      → ((back : Str) × (out.0 ≡ before ++ back)) × Tabled out.0 frames out.1
  unfolding compress_frames IsShort
  compress_frames-Tabled law level size fits before [] out short h b =
      let same : (before, []) ≡ out = cc in rw (← same) (([], sym (append-nil before)), tt)
  compress_frames-Tabled law level size fits before (chunk ∷ rest) out short h b =
      let (frame, encoded, h1) = >>=-eq-ok (or_err compressing_frame (Z.encode level chunk)) h in
      let (r, ran, h2) = >>=-eq-ok (compress_frames Z level (before ++ frame) rest) h1 in
      let sealed : Z.encode level chunk ≡ some frame = ground arith in
      let fit = fits.length-encode chunk frame short.0 sealed in
      let first : r.0 ≡ out.0 = cc in
      let ((back, joined), more) =
        compress_frames-Tabled law level size fits (before ++ frame) rest r short.1 ran
          (ground arith) in
      let small : length ((before ++ frame) ++ back) < 2 ^ 64 = rw (← joined) (ground arith) in
      let entry : SeekEntry = record {
        uncompressed_size = as_u32 (length chunk);
        compressed_size = as_u32 (length frame);
        compressed_offset = length before;
      } in
      let same : (r.0, entry ∷ r.1) ≡ out = cc h2 in
      let plain : decode_entry Z r.0 entry ≡ ok chunk =
        rw joined (decode_entry-frame law level chunk before frame back _ sealed fit small) in
      let whole : as_u32 (length chunk) ≡ length chunk = omega (arith, short.0, fits.size-fits) in
      rw (← same) ((frame ++ back, joined ∙ append_assoc before frame back), (whole, plain, more))

  decompress_entries-concat :
      (compressed : Str) (frames : List Str) (table : List SeekEntry)
      → Tabled compressed frames table
      → decompress_entries Z compressed table ≡ ok (concat frames)
  unfolding decompress_entries
  decompress_entries-concat compressed [] [] h = refl
  decompress_entries-concat compressed [] (e ∷ table) h = absurd h
  decompress_entries-concat compressed (chunk ∷ rest) [] h = absurd h
  decompress_entries-concat compressed (chunk ∷ rest) (e ∷ table) (size, plain, more) =
      rw (plain, decompress_entries-concat compressed rest table more) refl

  compress-Tabled :
      IsLawful Z
      → (level : Z.Level) (frame_size : ℕ) (bytes : Str) (blob : SeekableBlob)
      → IsFitting Z level (max frame_size 1)
      → compress Z bytes frame_size level ≡ ok blob
      → length blob.compressed < 2 ^ 64
      → Tabled blob.compressed (chunks (max frame_size 1) bytes) blob.seek_table
  unfolding compress
  compress-Tabled law level frame_size bytes blob fits h b =
      let size = max frame_size 1 in
      let (out, ran, made) = >>=-eq-ok (compress_frames Z level [] (chunks size bytes)) h in
      let whole : SeekableBlob = record { compressed = out.0; seek_table = out.1 } in
      let same : whole ≡ blob = cc made in
      let small : length out.0 < 2 ^ 64 =
        rw (ap (λ (w : SeekableBlob). length w.compressed) same) b in
      let short = chunks_from-IsShort size size [] bytes (omega arith) (omega arith) in
      rw (← same)
        (compress_frames-Tabled law level size fits [] (chunks size bytes) out short ran small).1

  -- With a codec that decompresses what it compressed, data that were compressed into frames whose
  -- sizes fit 32 bits, in less than 2^64 bytes, are had back.
  pub decompress_all-compress :
      IsLawful Z
      → (level : Z.Level) (frame_size : ℕ) (bytes : Str) (blob : SeekableBlob)
      → IsFitting Z level (max frame_size 1)
      → compress Z bytes frame_size level ≡ ok blob
      → length blob.compressed < 2 ^ 64
      → decompress_all Z blob ≡ ok bytes
  unfolding decompress_all
  decompress_all-compress law level frame_size bytes blob fits h b =
      let size = max frame_size 1 in
      decompress_entries-concat blob.compressed (chunks size bytes) blob.seek_table
        (compress-Tabled law level frame_size bytes blob fits h b)
      ∙ ap ok (concat-chunks_from size size [] bytes)

  range_of-between :
      (chunk : Str) (a b start : ℕ)
      → a ≤ b
      → a < start + length chunk
      → start < b
      → range_of chunk (a - start) (min b (start + length chunk) - start)
        ≡ ok (between (a - start) (b - start) chunk)
  range_of-between chunk a b start h p q =
      let stop = min b (start + length chunk) - start in
      let clipped : stop ≡ min (b - start) (length chunk) = omega arith in
      let plain : take (stop - (a - start)) (drop (a - start) chunk)
          ≡ between (a - start) (b - start) chunk =
        take-drop (a - start) stop chunk
        ∙ ap (drop (a - start)) (ap (λ n. take n chunk) clipped ∙ take-min (b - start) chunk) in
      ground (arith, plain, clipped)

  -- What one frame adds to the range.
  overlap-between :
      (compressed chunk : Str) (a b start : ℕ) (e : SeekEntry)
      → a ≤ b
      → decode_entry Z compressed e ≡ ok chunk
      → overlap Z compressed a b start (start + length chunk) e
        ≡ ok (between (a - start) (b - start) chunk)
  unfolding overlap
  overlap-between compressed chunk a b start e h plain =
      elim (Bool-cases (ltb a (start + length chunk))) [
        | inl early ↦ elim (Bool-cases (ltb start b)) [
          | inl begun ↦
              rw (early, begun, plain)
                (range_of-between chunk a b start h (ground arith) (ground arith))
          | inr past ↦
              let none_left : b - start ≡ 0 = ground arith in
              rw (early, past, none_left, drop-nil) refl
        ]
        | inr late ↦ rw (late, between-late (a - start) (b - start) chunk (ground arith)) refl
      ]

  decompress_from-between :
      (compressed : Str) (a b start : ℕ) (frames : List Str) (table : List SeekEntry)
      → a ≤ b
      → start + length (concat frames) < 2 ^ 64
      → Tabled compressed frames table
      → decompress_from Z compressed a b start table
        ≡ ok (between (a - start) (b - start) (concat frames))
  unfolding decompress_from
  decompress_from-between compressed a b start [] [] h small t = rw (take-nil, drop-nil) refl
  decompress_from-between compressed a b start [] (e ∷ table) h small t = absurd t
  decompress_from-between compressed a b start (chunk ∷ rest) [] h small t = absurd t
  decompress_from-between compressed a b start (chunk ∷ rest) (e ∷ table) h small
        (size, plain, more) =
      let end : as_u64 (start + e.uncompressed_size) ≡ start + length chunk =
        omega (arith, size, small, length-append chunk (concat rest)) in
      let part = overlap-between compressed chunk a b start e h plain in
      let split = between-append (a - start) (b - start) chunk (concat rest) in
      elim (Bool-cases (leb b (start + length chunk))) [
        | inl last ↦
            let none_left : b - start - length chunk ≡ 0 = ground arith in
            rw (end, part, last, split, none_left, drop-nil) refl
        | inr further ↦
            let rest_of =
              decompress_from-between compressed a b (start + length chunk) rest table h
                (omega (arith, small, length-append chunk (concat rest))) more in
            let from : a - start - length chunk ≡ a - (start + length chunk) = omega arith in
            let to : b - start - length chunk ≡ b - (start + length chunk) = omega arith in
            rw (end, part, further, end, rest_of, split, from, to) refl
      ]

  -- With such a codec, a range of data that were compressed so, of less than 2^64 bytes, is had
  -- back as the bytes of the data between the two offsets, as far as there are any.
  pub decompress_range-compress :
      IsLawful Z
      → (level : Z.Level) (frame_size : ℕ) (bytes : Str) (blob : SeekableBlob)
        (range_start range_end : ℕ)
      → IsFitting Z level (max frame_size 1)
      → compress Z bytes frame_size level ≡ ok blob
      → length blob.compressed < 2 ^ 64
      → length bytes < 2 ^ 64
      → range_start ≤ range_end
      → decompress_range Z blob range_start range_end ≡ ok (between range_start range_end bytes)
  unfolding decompress_range
  decompress_range-compress law level frame_size bytes blob a b fits h small whole order =
      let size = max frame_size 1 in
      let joined : concat (chunks size bytes) ≡ bytes = concat-chunks_from size size [] bytes in
      let fit : 0 + length (concat (chunks size bytes)) < 2 ^ 64 = rw joined (omega arith) in
      decompress_from-between blob.compressed a b 0 (chunks size bytes) blob.seek_table order fit
        (compress-Tabled law level frame_size bytes blob fits h small)
      ∙ ap ok (rw (sub-zero, sub-zero, joined) refl)
