-- ===== src/Platform/FileProvider/Entries.antt =====
-- crates/tcfs-file-provider/src/lib.rs: the hash that is read from an index entry.
use tummycrypt.Prelude.{
  ℕ, ◌<◌, ◌≡◌, refl, true, [], ◌++◌, Str, str, All, All-map, All-append, arith,
}
use tummycrypt.Prelude.Text.Lines.{lines, IsLine}
use tummycrypt.Prelude.Text.Decimal.{to_string, to_string-is_digit, is_digit}
use tummycrypt.Fuse.Index.Reading.{lines-index_entry}
use tummycrypt.Prelude.Text.Trim.{strip_prefix}
use tummycrypt.Engine.Tree.{index_entry}
use tummycrypt.Platform.FileProvider.{manifest_hash_of}

-- The bytes of ASCII text.
abbrev pub IsAscii : Str → Type 0
IsAscii = All (λ c. c < 128)

-- The characters of ASCII that have a shape, such as hexadecimal digits.
abbrev pub IsPrintable : Str → Type 0
IsPrintable = All (λ c. (32 < c) × (c < 127))

pub to_string-IsAscii : (n : ℕ) → IsAscii (to_string n)
to_string-IsAscii n =
    All-map (λ c. is_digit c ≡ true) _ (to_string n) (λ c h. ground arith) (to_string-is_digit n)

-- An index entry is ASCII text if its hash is.
pub index_entry-IsAscii :
    (hash : Str) (size chunks : ℕ) → IsPrintable hash → IsAscii (index_entry hash size chunks)
unfolding index_entry
index_entry-IsAscii hash size chunks h =
    All-append _ (str "manifest_hash=" ++ hash) _
      (All-append _ (str "manifest_hash=") hash (ground arith)
        (All-map (λ c. (32 < c) × (c < 127)) _ hash (λ c b. ground arith) h))
      (
        ground arith,
        All-append _ (str "size=" ++ to_string size) _
            (All-append _ (str "size=") _ (ground arith) (to_string-IsAscii size))
            (
              ground arith,
              All-append _ (str "chunks=" ++ to_string chunks) _
                  (All-append _ (str "chunks=") _ (ground arith) (to_string-IsAscii chunks))
                  (ground arith),
            ),
      )

pub manifest_hash_of-index_entry :
    (hash : Str) (size chunks : ℕ)
    → IsPrintable hash
    → manifest_hash_of [] (lines (index_entry hash size chunks)) ≡ hash
unfolding manifest_hash_of strip_prefix
manifest_hash_of-index_entry hash size chunks h =
    let line : IsLine hash = All-map (λ c. (32 < c) × (c < 127)) _ hash (λ c b. ground arith) h in
    rw (lines-index_entry hash size chunks line) refl
