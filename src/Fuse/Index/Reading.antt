-- ===== src/Fuse/Index/Reading.antt =====
-- The driver reads what a push wrote.
use tummycrypt.Prelude.{ℕ, ◌<◌, ◌≡◌, refl, some, [], ◌∷◌, ◌++◌, Str, str, ◌==◌, All-append, arith}
use tummycrypt.Prelude.Text.Lines.{lines, IsLine, lines-line, lines-nil}
use tummycrypt.Prelude.Text.Decimal.{to_string, to_string-IsLine, parse-to_string}
use tummycrypt.Fallible.{ok}
use tummycrypt.Engine.Tree.{index_entry}
use tummycrypt.Fuse.Index.{
  Fields, u64_bound, split_once, read_line, read_lines, parse_entry, or_zero,
}

abbrev line : Str → Str → Str
line k v = (k ++ str "=") ++ v

pub lines-index_entry :
    (h : Str) (size chunks : ℕ)
    → IsLine h
    → lines (index_entry h size chunks)
      ≡ (str "manifest_hash=" ++ h)
        ∷ (str "size=" ++ to_string size)
        ∷ (str "chunks=" ++ to_string chunks)
        ∷ []
unfolding index_entry
lines-index_entry h size chunks w =
    rw
      (
        lines-line (str "manifest_hash=" ++ h) _
            (All-append _ (str "manifest_hash=") h (ground arith) w),
        lines-line (str "size=" ++ to_string size) _
            (All-append _ (str "size=") (to_string size) (ground arith) (to_string-IsLine size)),
        lines-line (str "chunks=" ++ to_string chunks) _ (
            All-append _ (str "chunks=") (to_string chunks) (ground arith)
              (to_string-IsLine chunks)),
        lines-nil,
      )
      refl

-- The three lines, each read on its own.
read_line-manifest_hash :
    (f : Fields) (h : Str)
    → read_line f (str "manifest_hash=" ++ h) ≡ ok (record f { manifest_hash = some h })
unfolding split_once ◌==◌
read_line-manifest_hash f h = refl

read_line-size :
    (f : Fields) (n : ℕ)
    → n < u64_bound
    → read_line f (str "size=" ++ to_string n) ≡ ok (record f { size = some n })
unfolding split_once ◌==◌
read_line-size f n b = rw (parse-to_string u64_bound n b) refl

read_line-chunks :
    (f : Fields) (n : ℕ)
    → n < u64_bound
    → read_line f (str "chunks=" ++ to_string n) ≡ ok (record f { chunks = some n })
unfolding split_once ◌==◌
read_line-chunks f n b = rw (parse-to_string u64_bound n b) refl

-- The index entry that a push writes for a hash on one line and numbers of 64 bits is read by the
-- driver as the same hash and numbers.
pub parse_entry-index_entry :
    (h : Str) (size chunks : ℕ)
    → IsLine h
    → size < u64_bound
    → chunks < u64_bound
    → parse_entry (index_entry h size chunks)
      ≡ ok (record { manifest_hash = h; size = size; chunks = chunks })
unfolding parse_entry read_lines or_zero
parse_entry-index_entry h size chunks w b c =
    rw
      (
        lines-index_entry h size chunks w,
        read_line-manifest_hash,
        read_line-size _ size b,
        read_line-chunks _ chunks c,
      )
      refl
