-- ===== src/Fuse/Stub.antt =====
-- crates/tcfs-fuse/src/stub.rs, `StubMeta`: the stub files that stand for files not fetched.
pub mod Reading
use tummycrypt.Prelude.{
  ℕ, Bool, true, false, not, ◌||◌, Option, none, some, List, [], ◌∷◌, ◌++◌, Str, str, ◌==◌,
  if◌then◌else◌,
}
use tummycrypt.Prelude.Text.Lines.{lines, is_empty}
use tummycrypt.Prelude.Text.Decimal.{to_string, parse}
use tummycrypt.Prelude.Text.Utf8.{is_utf8}
use tummycrypt.Prelude.Text.FilePath.{extension}
use tummycrypt.Fallible.{
  Result, ok, err, or_err, ◌>>=◌, invalid_number, missing_field, no_separator, unsupported_version,
  missing_version,
}
use tummycrypt.Engine.Tree.{drop_prefix}
use tummycrypt.Fuse.Index.{u64_bound, split_once, or_zero}

pub record StubMeta : Type 0 where
  pub chunks : ℕ
  pub compressed : Bool
  pub fetched : Bool
  pub oid : Str
  pub origin : Str
  pub size : ℕ

-- What was read so far.
pub record StubFields : Type 0 where
  pub chunks : Option ℕ
  pub compressed : Option Bool
  pub fetched : Option Bool
  pub oid : Option Str
  pub origin : Option Str
  pub size : Option ℕ
  pub found_version : Bool

abbrev pub nothing_read : StubFields
nothing_read = record {
  chunks = none;
  compressed = none;
  fetched = none;
  oid = none;
  origin = none;
  size = none;
  found_version = false;
}

abbrev pub stub_version : Str
stub_version = str "https://tummycrypt.io/tcfs/v1"

abbrev pub read_stub_field : StubFields → Str → Str → Result StubFields
read_stub_field f key value =
    if key == str "version"
    then (if value == stub_version
        then ok (record f { found_version = true })
        else err unsupported_version)
    else if key == str "chunks"
    then (or_err invalid_number (parse u64_bound value) >>= λ n. ok (record f { chunks = some n }))
    else if key == str "compressed"
    then ok (record f { compressed = some (not (value == str "0")) })
    else if key == str "fetched"
    then ok (record f { fetched = some (not (value == str "0")) })
    else if key == str "oid"
    then ok (record f { oid = some value })
    else if key == str "origin"
    then ok (record f { origin = some value })
    else if key == str "size"
    then (or_err invalid_number (parse u64_bound value) >>= λ n. ok (record f { size = some n }))
    else ok f

abbrev pub read_stub_line : StubFields → Str → Result StubFields
read_stub_line f line = if is_empty line then ok f else elim (split_once b' ' line) [
  | none ↦ err no_separator
  | some (key, value) ↦ read_stub_field f key value
]

unfoldable pub read_stub_lines : StubFields → List Str → Result StubFields
read_stub_lines f [] = ok f
read_stub_lines f (line ∷ rest) = read_stub_line f line >>= λ g. read_stub_lines g rest

unfoldable pub unwrap_or_false : Option Bool → Bool
unwrap_or_false none = false
unwrap_or_false (some b) = b

abbrev pub ensure_version : Bool → Result (Unit {0})
ensure_version true = ok tt
ensure_version false = err missing_version

unfoldable pub parse_stub : Str → Result StubMeta
parse_stub content = do
  f ← read_stub_lines nothing_read (lines content)
  _ ← ensure_version f.found_version
  oid ← or_err missing_field f.oid
  origin ← or_err missing_field f.origin
  size ← or_err missing_field f.size
  ok (record {
    chunks = or_zero f.chunks;
    compressed = unwrap_or_false f.compressed;
    fetched = unwrap_or_false f.fetched;
    oid = oid;
    origin = origin;
    size = size;
  })

abbrev pub flag : Bool → Str
flag true = str "1"
flag false = str "0"

unfoldable pub to_stub_string : StubMeta → Str
to_stub_string m =
    (str "version " ++ stub_version)
    ++ (10
        ∷ ((str "chunks " ++ to_string m.chunks)
            ++ (10
                ∷ ((str "compressed " ++ flag m.compressed)
                    ++ (10
                        ∷ ((str "fetched " ++ flag m.fetched)
                            ++ (10
                                ∷ ((str "oid " ++ m.oid)
                                    ++ (10
                                        ∷ ((str "origin " ++ m.origin)
                                            ++ (10
                                                ∷ ((str "size " ++ to_string m.size)
                                                    ++ (10 ∷ [])))))))))))))

unfoldable pub blake3_hex : StubMeta → Option Str
blake3_hex m = drop_prefix (str "blake3:") m.oid

abbrev pub for_upload : Str → ℕ → ℕ → Str → Str → StubMeta
for_upload manifest_hash size chunks remote_prefix rel_path = record {
  chunks = chunks;
  compressed = false;
  fetched = false;
  oid = str "blake3:" ++ manifest_hash;
  origin = str "seaweedfs://" ++ (remote_prefix ++ (b'/' ∷ rel_path));
  size = size;
}

-- `is_stub_path`
unfoldable pub is_stub_path : Str → Bool
unfolding extension
is_stub_path path = elim (extension path) [
  | none ↦ false
  | some ext ↦ ext == str "tc" || ext == str "tcf"
]

-- `strip_suffix`
unfoldable pub strip_suffix : Str → Str → Option Str
strip_suffix suffix [] = if suffix == [] then some [] else none
strip_suffix suffix (c ∷ s) =
    let rest = strip_suffix suffix s in
    if suffix == (c ∷ s) then some [] else elim rest [ none ↦ none | some front ↦ some (c ∷ front) ]

abbrev pub or_else {ℓ} : {A : Type ℓ} → Option A → Option A → Option A
or_else none other = other
or_else (some x) other = some x

unfoldable pub stub_to_real_name : Str → Option Str
stub_to_real_name name =
    if is_utf8 name
    then or_else (strip_suffix (str ".tc") name) (strip_suffix (str ".tcf") name)
    else none

abbrev pub real_to_stub_name : Str → Str
real_to_stub_name name = name ++ str ".tc"
