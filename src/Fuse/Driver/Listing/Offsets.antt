-- ===== src/Fuse/Driver/Listing/Offsets.antt =====
-- A listing that goes on at an offset.
use tummycrypt.Prelude.{
  ℕ, suc, ◌+◌, ◌≡◌, refl, ap, inl, inr, Bool-cases, List, [], ◌∷◌, ◌++◌, Str, ltb, keep, map, arith,
}
use tummycrypt.Fallible.{Result, ok, err, io_error, result_map}
use tummycrypt.Exec.{pure, context, ◌>>=◌}
use tummycrypt.Exec.Inversion.{>>=-answers}
use tummycrypt.Fuse.Mount.{Storage, TcfsFs, Mount, Run, ask}
use tummycrypt.Fuse.Driver.{
  regular_file, to_str, or_root, index_prefix_for_dir, file_attr, read_index_entry_size,
}
use tummycrypt.Fuse.Driver.Listing.{
  DirectoryEntry, DirectoryEntryPlus, Found, itself, subdirectory, file, rel_of, found_at, seen,
  as_i64, dots, push_if, list_from, entries_from, readdir, list_plus, entry_plus, readdirplus,
}

-- The entries behind an offset.
abbrev pub behind : ℕ → List DirectoryEntry → List DirectoryEntry
behind offset = keep (λ (e : DirectoryEntry). ltb offset e.offset)

-- Going on at an offset gives the entries that the whole listing has behind it.
list_from-offset :
    (index_prefix : Str) (offset : ℕ) (dirs : List Str) (next : ℕ) (objects : List Str)
    → list_from index_prefix offset dirs (suc next) objects
      ≡ behind offset (list_from index_prefix 0 dirs (suc next) objects)
unfolding list_from
list_from-offset index_prefix offset dirs next [] = refl
list_from-offset index_prefix offset dirs next (full ∷ rest) =
    go (found_at (rel_of index_prefix full)) refl
      (λ seen_dirs at. list_from-offset index_prefix offset seen_dirs at rest)
  where
    go :
        (f : Found)
        → found_at (rel_of index_prefix full) ≡ f
        → ((seen_dirs : List Str) (at : ℕ)
            → list_from index_prefix offset seen_dirs (suc at) rest
              ≡ behind offset (list_from index_prefix 0 seen_dirs (suc at) rest))
        → list_from index_prefix offset dirs (suc next) (full ∷ rest)
          ≡ behind offset (list_from index_prefix 0 dirs (suc next) (full ∷ rest))
    go itself q again = rw (q, list_from) (again dirs next)
    go (subdirectory name) q again =
        ground (arith, q, again dirs next, again (name ∷ dirs) (suc next))
    go (file name) q again = ground (arith, q, again dirs (suc next))

entries_from-offset :
    (index_prefix : Str) (offset : ℕ) (objects : List Str)
    → entries_from index_prefix offset objects ≡ behind offset (entries_from index_prefix 0 objects)
unfolding entries_from
entries_from-offset index_prefix offset objects =
    ground (arith, list_from-offset index_prefix offset [] 2 objects)

-- The entry without its attributes.
abbrev pub plain : DirectoryEntryPlus → DirectoryEntry
plain e = record { kind = e.kind; name = e.name; offset = e.offset }

plain-dots :
    (offset : ℕ) (a b : DirectoryEntryPlus) (more : List DirectoryEntryPlus)
    (es : List DirectoryEntry)
    → map plain more ≡ es
    → map plain (dots offset a b ++ more) ≡ dots offset (plain a) (plain b) ++ es
plain-dots offset a b more es same = ground arith

module _ (fs : TcfsFs) (S : Storage) where
  open S use {list}

  abbrev objects_at : Str → Run S (List Str)
  objects_at path =
      context io_error (ask S (list (index_prefix_for_dir fs (or_root (to_str path)))))

  -- A directory that is read from an offset on gives exactly the entries of the whole listing whose
  -- offsets are larger, in their order; it fails where the whole listing does.
  pub readdir-offset :
      (path : Str) (offset : ℕ) (s : Mount S.op)
      → (readdir fs S path offset s).0 ≡ result_map (behind offset) (readdir fs S path 0 s).0
  unfolding readdir ◌>>=◌
  readdir-offset path offset s = go (objects_at path s).0 refl
    where
      go :
          (r : Result (List Str))
          → (objects_at path s).0 ≡ r
          → (readdir fs S path offset s).0 ≡ result_map (behind offset) (readdir fs S path 0 s).0
      go (err e) q = rw (q, readdir, ◌>>=◌) refl
      go (ok objects) q =
          rw (q, readdir, ◌>>=◌)
            (ap ok (
              entries_from-offset (index_prefix_for_dir fs (or_root (to_str path))) offset objects))

  -- Some listing is answered, whose plain entries are these.
  abbrev Answers : Result (List DirectoryEntryPlus) → List DirectoryEntry → Type 0
  Answers r es = (more : List DirectoryEntryPlus) × (r ≡ ok more) × (map plain more ≡ es)

  Answers-push_if :
      (offset next : ℕ) (e : DirectoryEntryPlus) (r r' : Result (List DirectoryEntryPlus))
      (es : List DirectoryEntry)
      → Answers r es
      → ((more : List DirectoryEntryPlus) → r ≡ ok more → r' ≡ ok (push_if offset next e more))
      → Answers r' (push_if offset next (plain e) es)
  Answers-push_if offset next e r r' es (more, run, same) f =
      (push_if offset next e more, f more run, ground arith)

  size-answers :
      (key : Str) (s : Mount S.op) → (n : ℕ) × ((read_index_entry_size fs S key s).0 ≡ ok n)
  unfolding read_index_entry_size ◌>>=◌
  size-answers key s = (_, refl)

  list_plus-plain :
      (index_prefix : Str) (offset : ℕ) (dirs : List Str) (next : ℕ) (objects : List Str)
      (s : Mount S.op)
      → Answers
          (list_plus fs S index_prefix offset dirs next objects s).0
          (list_from index_prefix offset dirs next objects)
  unfolding list_plus list_from pure
  list_plus-plain index_prefix offset dirs next [] s = ([], refl, refl)
  list_plus-plain index_prefix offset dirs next (full ∷ rest) s =
      go (found_at (rel_of index_prefix full)) refl
        (λ seen_dirs at t. list_plus-plain index_prefix offset seen_dirs at rest t)
    where
      go :
          (f : Found)
          → found_at (rel_of index_prefix full) ≡ f
          → ((seen_dirs : List Str) (at : ℕ) (t : Mount S.op)
              → Answers
                  (list_plus fs S index_prefix offset seen_dirs at rest t).0
                  (list_from index_prefix offset seen_dirs at rest))
          → Answers
              (list_plus fs S index_prefix offset dirs next (full ∷ rest) s).0
              (list_from index_prefix offset dirs next (full ∷ rest))
      go itself q again = rw (q, list_plus, list_from) (again dirs next s)
      go (subdirectory name) q again = elim (Bool-cases (seen dirs name)) [
        | inl known ↦ rw (q, known, list_plus, list_from) (again dirs next s)
        | inr new ↦
            rw (q, new, list_plus, list_from)
              (Answers-push_if offset next _ _ _ _ (again (name ∷ dirs) (next + 1) s)
                (λ more run. >>=-answers _ _ s run refl))
      ]
      go (file name) q again =
          let (size, sized) = size-answers full s in
          rw (q, list_plus, list_from)
            (Answers-push_if offset next
              (entry_plus fs S regular_file name next (file_attr fs size)) _ _ _
              (again dirs (next + 1) (read_index_entry_size fs S full s).1)
              (λ more run. >>=-answers _ _ s sized (>>=-answers _ _ _ run refl)))

  -- A directory that is read with the attributes of its entries gives the entries of the plain
  -- listing at the offset that its own is as an `i64`: the same kinds, names and offsets in the same order, however the
  -- requests for the sizes end; it fails where the plain listing does.
  pub readdirplus-readdir :
      (path : Str) (offset : ℕ) (s : Mount S.op)
      → result_map (map plain) (readdirplus fs S path offset s).0
        ≡ (readdir fs S path (as_i64 offset) s).0
  unfolding readdir readdirplus ◌>>=◌ entries_from
  readdirplus-readdir path offset s = go (objects_at path s).0 refl
    where
      go :
          (r : Result (List Str))
          → (objects_at path s).0 ≡ r
          → result_map (map plain) (readdirplus fs S path offset s).0
            ≡ (readdir fs S path (as_i64 offset) s).0
      go (err e) q = rw (q, readdir, readdirplus, ◌>>=◌) refl
      go (ok objects) q =
          let (more, run, same) =
            list_plus-plain (index_prefix_for_dir fs (or_root (to_str path))) (as_i64 offset) [] 3
              objects (objects_at path s).1 in
          rw (q, readdir, readdirplus, ◌>>=◌, run)
            (ap ok (plain-dots (as_i64 offset) _ _ more _ same))
