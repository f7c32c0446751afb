-- ===== src/Fuse/Driver/Pushed.antt =====
-- What the driver says of a file that was pushed, and of one that is not there.
use tummycrypt.Prelude.{
  ℕ, ◌<◌, ◌≡◌, ◌≢◌, refl, ap, true, false, inl, inr, Bool-cases, some, [], ◌∷◌, ◌++◌, Str, str,
  ◌==◌, eq_iff, eq_refl, arith, length, length-append, nat_eq, ◌≤◌,
}
use tummycrypt.Prelude.Dict.{lookup-insert}
use tummycrypt.Prelude.Text.Lines.{IsLine}
use tummycrypt.Prelude.Text.Utf8.{is_utf8}
use tummycrypt.Prelude.Text.Trim.{trim_start, strip_suffix}
use tummycrypt.Fallible.{ok, err, Error, no_such_entry}
use tummycrypt.Exec.{pure, lift, ◌>>=◌}
use tummycrypt.Exec.Inversion.{>>=-answers}
use tummycrypt.State.{ends_with}
use tummycrypt.Remote.{IsLawful, index_key}
use tummycrypt.Engine.Tree.{index_entry, remote_path_prefix}
use tummycrypt.Engine.Restore.Fetched.{IsCalm}
use tummycrypt.Fuse.Index.{IndexEntry, u64_bound}
use tummycrypt.Fuse.Index.Reading.{parse_entry-index_entry}
use tummycrypt.Fuse.NegativeCache.{is_negative, insert_path}
use tummycrypt.Fuse.Mount.{Storage, TcfsFs, Mount, ask}
use tummycrypt.Fuse.Driver.{
  is_stub, real_name, index_key_for, file_attr, reply, entry_of, on_key, get_index_entry, absent,
  on_entry, on_objects, find_path, getattr,
}

longer : (p ys : Str) (x : ℕ) → p ≢ (x ∷ ys ++ p)
longer p ys x e = omega (arith, ap length e, length-append ys p)

strip_suffix-append : (p xs : Str) → strip_suffix p (xs ++ p) ≡ some xs
unfolding strip_suffix ◌==◌
strip_suffix-append [] [] = refl
strip_suffix-append (c ∷ p) [] = rw (eq_refl (c ∷ p)) refl
strip_suffix-append p (x ∷ xs) =
    ground (arith, eq_iff p (x ∷ xs ++ p), longer p xs x, strip_suffix-append p xs)

ends_with-append : (p xs : Str) → ends_with (xs ++ p) p ≡ true
unfolding ends_with ◌==◌
ends_with-append [] [] = refl
ends_with-append (c ∷ p) [] = ground (arith, eq_refl (c ∷ p))
ends_with-append p (x ∷ xs) = ground (arith, ends_with-append p xs)

-- The path under which the driver shows a file.
abbrev pub shown : Str → Str
shown rel = b'/' ∷ (rel ++ str ".tc")

length-trim_start : (sep : ℕ) (s : Str) → length (trim_start sep s) ≤ length s
unfolding trim_start
length-trim_start sep [] = omega arith
length-trim_start sep (c ∷ s) = elim (Bool-cases (nat_eq c sep)) [
  | inl hit ↦ rw (hit, trim_start) (omega (arith, length-trim_start sep s))
  | inr other ↦ rw (other, trim_start) (omega arith)
]

trim_start-append :
    (rel : Str)
    → rel ≢ []
    → trim_start b'/' rel ≡ rel
    → trim_start b'/' (shown rel) ≡ rel ++ str ".tc"
unfolding trim_start
trim_start-append [] full no_slash = absurd (full refl)
trim_start-append (c ∷ rel) full no_slash = elim (Bool-cases (nat_eq c b'/')) [
  | inl slash ↦
      absurd
        (omega (arith, length-trim_start b'/' rel, ap length (rw (slash, trim_start) at no_slash)))
  | inr other ↦ rw (other, trim_start) refl
]

real_name-shown : (rel : Str) → real_name (rel ++ str ".tc") ≡ rel
unfolding real_name
real_name-shown rel = rw (strip_suffix-append (str ".tc") rel, real_name) refl

index_key_for-shown :
    (fs : TcfsFs) (rel : Str)
    → rel ≢ []
    → trim_start b'/' rel ≡ rel
    → index_key_for fs (shown rel) ≡ some (index_key (remote_path_prefix fs.prefix) rel)
unfolding index_key_for
index_key_for-shown fs [] full no_slash = absurd (full refl)
index_key_for-shown fs (c ∷ rel) full no_slash =
    rw (trim_start-append (c ∷ rel) full no_slash, real_name-shown (c ∷ rel)) refl

not_root : (rel : Str) → shown rel ≢ str "/"
not_root rel e = omega (arith, ap length e, length-append rel (str ".tc"))

module _ (fs : TcfsFs) (S : Storage) where
  open fs use {prefix}
  open S use {op}

  -- A path that is not found is known to be absent.
  find_path-err :
      (path name : Str) (s : Mount op) {e : Error}
      → 0 < s.negative.ttl
      → (find_path fs S path name s).0 ≡ err e
      → (e ≡ no_such_entry)
        × (is_negative
              (find_path fs S path name s).1.disk.now
              (find_path fs S path name s).1.negative
              path
            ≡ true)
  unfolding find_path get_index_entry on_key on_entry on_objects absent ask is_negative insert_path
      ◌>>=◌
  find_path-err path name s lasts h =
      ground (arith, lookup-insert path path s.disk.now s.negative.entries, eq_refl path)

  known :
      (path name : Str) (s : Mount op)
      → is_negative s.disk.now s.negative path ≡ true
      → find_path fs S path name s ≡ (err no_such_entry, s)
  unfolding find_path ◌>>=◌
  known path name s gone = rw gone refl

  -- Where a negative entry lasts for some time: a path that the kernel asked for and that was not
  -- found is not found when it is asked for again at the same time, and the store is not asked.
  pub getattr-again :
      (path : Str) (s : Mount op) {e : Error}
      → 0 < s.negative.ttl
      → (getattr fs S (some path) s).0 ≡ err e
      → getattr fs S (some path) (getattr fs S (some path) s).1
        ≡ (err no_such_entry, (getattr fs S (some path) s).1)
  unfolding getattr pure lift
  getattr-again path s lasts h = elim (Bool-cases (is_utf8 path)) [
    | inr not_text ↦ rw (not_text, getattr) refl
    | inl text ↦ elim (Bool-cases (path == str "/")) [
      | inl root ↦ absurd (cc (rw (text, root, getattr) at h))
      | inr below ↦
          let (_, gone) = find_path-err path path s lasts (rw (text, below, getattr) at h) in
          rw (text, below, getattr) (known path path _ gone)
    ]
  ]

  -- A stub with an entry is a file of its size.
  find_path-entry :
      (path : Str) (s : Mount op) {e : IndexEntry}
      → is_negative s.disk.now s.negative path ≡ false
      → is_stub path ≡ true
      → (get_index_entry fs S path s).0 ≡ ok (some e)
      → (find_path fs S path path s).0 ≡ ok (reply fs (file_attr fs e.size))
  unfolding find_path on_entry ◌>>=◌
  find_path-entry path s fresh stub found =
      rw (fresh, stub)
        (>>=-answers (get_index_entry fs S path) (λ r. on_entry fs S path r) s found refl)

  module _ (L : IsLawful S.op) (P : S.op.State → Type 0) (calm : IsCalm S.op L P) where
    read-entry :
        (rel hash : Str) (size chunks : ℕ) (s : Mount op)
        → rel ≢ []
        → trim_start b'/' rel ≡ rel
        → IsLine hash
        → size < u64_bound
        → chunks < u64_bound
        → is_utf8 (index_entry hash size chunks) ≡ true
        → L.object s.remote (index_key (remote_path_prefix prefix) rel)
          ≡ some (index_entry hash size chunks)
        → P s.remote
        → (get_index_entry fs S (shown rel) s).0
          ≡ ok (some (record { manifest_hash = hash; size = size; chunks = chunks }))
    unfolding get_index_entry on_key entry_of ask ◌>>=◌
    read-entry rel hash size chunks s full no_slash line b c text there quiet =
        let key = index_key_for-shown fs rel full no_slash in
        let answer = calm.answers s.remote _ _ quiet there in
        let parsed = parse_entry-index_entry hash size chunks line b c in
        rw (key, answer, text, parsed) refl

    -- Over a lawful store, in a state from which on every read is answered: a file whose index
    -- entry a push wrote, for a hash on one line and numbers of 64 bits, is shown at its path with
    -- ".tc" behind it as a regular file of the size that was pushed, unless the path is known to
    -- be absent. The path below the prefix is not empty and begins with no slash.
    pub getattr-pushed :
        (rel hash : Str) (size chunks : ℕ) (s : Mount op)
        → rel ≢ []
        → trim_start b'/' rel ≡ rel
        → is_utf8 (shown rel) ≡ true
        → IsLine hash
        → size < u64_bound
        → chunks < u64_bound
        → is_utf8 (index_entry hash size chunks) ≡ true
        → L.object s.remote (index_key (remote_path_prefix prefix) rel)
          ≡ some (index_entry hash size chunks)
        → P s.remote
        → is_negative s.disk.now s.negative (shown rel) ≡ false
        → (getattr fs S (some (shown rel)) s).0 ≡ ok (reply fs (file_attr fs size))
    unfolding getattr
    getattr-pushed rel hash size chunks s full no_slash path_text line b c text there quiet fresh =
        let stub : is_stub (shown rel) ≡ true =
          ground (arith, ends_with-append (str ".tc") (b'/' ∷ rel)) in
        let below : (shown rel == str "/") ≡ false =
          ground (arith, eq_iff (shown rel) (str "/"), not_root rel) in
        rw (path_text, below, getattr)
          (find_path-entry (shown rel) s fresh stub
            (read-entry rel hash size chunks s full no_slash line b c text there quiet))
