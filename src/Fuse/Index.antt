-- ===== src/Fuse/Index.antt =====
-- crates/tcfs-fuse/src/stub.rs, `IndexEntry`: the index entries that a push writes.
pub mod Reading
use tummycrypt.Prelude.{
  ℕ, ◌^◌, Bool, true, false, Option, none, some, List, [], ◌∷◌, ◌++◌, Str, str, ◌==◌, nat_eq,
  if◌then◌else◌,
}
use tummycrypt.Prelude.Text.Lines.{lines}
use tummycrypt.Prelude.Text.Decimal.{parse}
use tummycrypt.Fallible.{Result, ok, err, or_err, ◌>>=◌, invalid_number, missing_field}
use tummycrypt.Remote.{manifest_key}
use tummycrypt.Engine.Tree.{remote_path_prefix}

pub record IndexEntry : Type 0 where
  pub manifest_hash : Str
  pub size : ℕ
  pub chunks : ℕ

-- What was read so far.
pub record Fields : Type 0 where
  pub manifest_hash : Option Str
  pub size : Option ℕ
  pub chunks : Option ℕ

abbrev pub no_fields : Fields
no_fields = record { manifest_hash = none; size = none; chunks = none }

-- The numbers below this fit a `u64` or a `usize`.
abbrev pub u64_bound : ℕ
u64_bound = 2 ^ 64

-- `split_once('=')`: what stands before the first one, and behind it.
unfoldable pub split_once : ℕ → Str → Option (Str × Str)
split_once sep [] = none
split_once sep (c ∷ s) =
    let rest = split_once sep s in
    elim (nat_eq c sep) [
      | true ↦ some ([], s)
      | false ↦ elim rest [ none ↦ none | some (k, v) ↦ some (c ∷ k, v) ]
    ]

abbrev pub read_field : Fields → Str → Str → Result Fields
read_field f k v =
    if k == str "manifest_hash"
    then ok (record f { manifest_hash = some v })
    else if k == str "size"
    then (or_err invalid_number (parse u64_bound v) >>= λ n. ok (record f { size = some n }))
    else if k == str "chunks"
    then (or_err invalid_number (parse u64_bound v) >>= λ n. ok (record f { chunks = some n }))
    else ok f

abbrev pub read_line : Fields → Str → Result Fields
read_line f line = elim (split_once b'=' line) [ none ↦ ok f | some (k, v) ↦ read_field f k v ]

unfoldable pub read_lines : Fields → List Str → Result Fields
read_lines f [] = ok f
read_lines f (line ∷ rest) = read_line f line >>= λ g. read_lines g rest

unfoldable pub or_zero : Option ℕ → ℕ
or_zero none = 0
or_zero (some n) = n

unfoldable pub parse_entry : Str → Result IndexEntry
parse_entry content = do
  f ← read_lines no_fields (lines content)
  manifest_hash ← or_err missing_field f.manifest_hash
  size ← or_err missing_field f.size
  ok (record { manifest_hash = manifest_hash; size = size; chunks = or_zero f.chunks })

-- The manifest under a prefix, which may end in slashes.
abbrev pub manifest_path : IndexEntry → Str → Str
manifest_path e prefix = manifest_key (remote_path_prefix prefix) e.manifest_hash
