-- ===== src/Fuse/Stub/Reading.antt =====
-- crates/tcfs-fuse/src/stub.rs: a stub that was written is read back.
use tummycrypt.Prelude.{
  ℕ, ◌<◌, ◌≡◌, refl, Bool, true, false, some, [], ◌∷◌, ◌++◌, Str, str, ◌==◌, All-append, arith,
}
use tummycrypt.Prelude.Text.Lines.{lines, IsLine, lines-line, lines-nil}
use tummycrypt.Prelude.Text.Decimal.{to_string, to_string-IsLine, parse-to_string}
use tummycrypt.Prelude.Text.Utf8.{is_utf8}
use tummycrypt.Fallible.{ok}
use tummycrypt.Fuse.Index.{u64_bound, split_once, or_zero}
use tummycrypt.Fuse.Stub.{
  StubMeta, StubFields, stub_version, read_stub_line, read_stub_lines, parse_stub, to_stub_string,
  flag, unwrap_or_false, strip_suffix, stub_to_real_name, real_to_stub_name,
}

lines-field :
    (key value rest : Str)
    → IsLine key
    → IsLine value
    → lines ((key ++ value) ++ (10 ∷ rest)) ≡ (key ++ value) ∷ lines rest
lines-field key value rest k v = lines-line (key ++ value) rest (All-append _ key value k v)

flag-IsLine : (b : Bool) → IsLine (flag b)
flag-IsLine true = ground arith
flag-IsLine false = ground arith

lines-to_stub_string :
    (m : StubMeta)
    → IsLine m.oid
    → IsLine m.origin
    → lines (to_stub_string m)
      ≡ (str "version " ++ stub_version)
        ∷ (str "chunks " ++ to_string m.chunks)
        ∷ (str "compressed " ++ flag m.compressed)
        ∷ (str "fetched " ++ flag m.fetched)
        ∷ (str "oid " ++ m.oid)
        ∷ (str "origin " ++ m.origin)
        ∷ (str "size " ++ to_string m.size)
        ∷ []
unfolding to_stub_string
lines-to_stub_string m o r =
    rw
      (
        lines-field (str "version ") stub_version _ (ground arith) (ground arith),
        lines-field (str "chunks ") (to_string m.chunks) _ (ground arith)
            (to_string-IsLine m.chunks),
        lines-field (str "compressed ") (flag m.compressed) _ (ground arith)
            (flag-IsLine m.compressed),
        lines-field (str "fetched ") (flag m.fetched) _ (ground arith) (flag-IsLine m.fetched),
        lines-field (str "oid ") m.oid _ (ground arith) o,
        lines-field (str "origin ") m.origin _ (ground arith) r,
        lines-field (str "size ") (to_string m.size) _ (ground arith) (to_string-IsLine m.size),
        lines-nil,
      )
      refl

read_stub_line-version :
    (f : StubFields)
    → read_stub_line f (str "version " ++ stub_version) ≡ ok (record f { found_version = true })
unfolding split_once ◌==◌
read_stub_line-version f = refl

read_stub_line-chunks :
    (f : StubFields) (n : ℕ)
    → n < u64_bound
    → read_stub_line f (str "chunks " ++ to_string n) ≡ ok (record f { chunks = some n })
unfolding split_once ◌==◌
read_stub_line-chunks f n b = rw (parse-to_string u64_bound n b) refl

read_stub_line-compressed :
    (f : StubFields) (b : Bool)
    → read_stub_line f (str "compressed " ++ flag b) ≡ ok (record f { compressed = some b })
unfolding split_once ◌==◌
read_stub_line-compressed f true = refl
read_stub_line-compressed f false = refl

read_stub_line-fetched :
    (f : StubFields) (b : Bool)
    → read_stub_line f (str "fetched " ++ flag b) ≡ ok (record f { fetched = some b })
unfolding split_once ◌==◌
read_stub_line-fetched f true = refl
read_stub_line-fetched f false = refl

read_stub_line-oid :
    (f : StubFields) (s : Str) → read_stub_line f (str "oid " ++ s) ≡ ok (record f { oid = some s })
unfolding split_once ◌==◌
read_stub_line-oid f s = refl

read_stub_line-origin :
    (f : StubFields) (s : Str)
    → read_stub_line f (str "origin " ++ s) ≡ ok (record f { origin = some s })
unfolding split_once ◌==◌
read_stub_line-origin f s = refl

read_stub_line-size :
    (f : StubFields) (n : ℕ)
    → n < u64_bound
    → read_stub_line f (str "size " ++ to_string n) ≡ ok (record f { size = some n })
unfolding split_once ◌==◌
read_stub_line-size f n b = rw (parse-to_string u64_bound n b) refl

-- A stub that is written is read back unchanged, for numbers of 64 bits and an OID and an origin
-- that are each on one line.
pub parse_stub-to_stub_string :
    (m : StubMeta)
    → IsLine m.oid
    → IsLine m.origin
    → m.chunks < u64_bound
    → m.size < u64_bound
    → parse_stub (to_stub_string m) ≡ ok m
unfolding parse_stub read_stub_lines or_zero unwrap_or_false
parse_stub-to_stub_string m o r c s =
    rw
      (
        lines-to_stub_string m o r,
        read_stub_line-version,
        read_stub_line-chunks _ m.chunks c,
        read_stub_line-compressed,
        read_stub_line-fetched,
        read_stub_line-oid,
        read_stub_line-origin,
        read_stub_line-size _ m.size s,
      )
      refl

-- `.tc` is no longer text that ends in it.
tc-longer : (c : ℕ) (name : Str) → (str ".tc" == (c ∷ name ++ str ".tc")) ≡ false
unfolding ◌==◌
tc-longer c [] = ground arith
tc-longer c (d ∷ []) = ground arith
tc-longer c (d ∷ e ∷ []) = ground arith
tc-longer c (d ∷ e ∷ g ∷ s) = ground arith

strip_suffix-tc : (name : Str) → strip_suffix (str ".tc") (name ++ str ".tc") ≡ some name
unfolding strip_suffix ◌==◌
strip_suffix-tc [] = refl
strip_suffix-tc (c ∷ name) = rw (tc-longer c name, strip_suffix-tc name) refl

-- The stub of a name, which is UTF-8, is the stub of that name alone.
pub stub_to_real_name-real_to_stub_name :
    (name : Str)
    → is_utf8 (real_to_stub_name name) ≡ true
    → stub_to_real_name (real_to_stub_name name) ≡ some name
unfolding stub_to_real_name
stub_to_real_name-real_to_stub_name name u = rw (u, strip_suffix-tc name) refl
