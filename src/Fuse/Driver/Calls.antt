-- ===== src/Fuse/Driver/Calls.antt =====
-- The calls of the kernel, one behind the other: what they do to the open files.
pub mod OpenFiles
use tummycrypt.Prelude.{
  ℕ, suc, ◌+◌, ◌%◌, ◌^◌, ◌<◌, ◌≤◌, ◌≡◌, ◌≢◌, ◌⊎◌, inl, inr, refl, sym, ap, ◌∙◌, subst, Bool, true,
  false, Option, none, some, List, [], ◌∷◌, Str, str, ◌==◌, not, nat_eq, if◌then◌else◌, Bool-cases,
  All, arith, length,
}
use tummycrypt.Prelude.Text.Utf8.{is_utf8}
use tummycrypt.Fallible.{Result, ok, err}
use tummycrypt.Exec.{Exec, pure, lift, gets, modify, attempt, context, ◌>>=◌, ◌>>◌}
use tummycrypt.Exec.Inversion.{
  Keeps, Keeps-bind, Keeps-pure, Keeps-lift, Keeps-context, Keeps-attempt, Keeps-gets, Keeps-if,
}
use tummycrypt.Fuse.Index.{IndexEntry, manifest_path}
use tummycrypt.Fuse.Cache.{DiskCache}
use tummycrypt.Fuse.Mount.{Storage, TcfsFs, Mount, Run, ask, handle, insert_handle, remove_handle}
use tummycrypt.Fuse.Hydrate.{fetch_all, fetch_content, keep_content, on_cached, fetch_cached}
use tummycrypt.Fuse.Driver.{
  Reply, is_stub, on_key, get_index_entry, read_index_entry_size, absent, on_entry, on_objects,
  find_path, getattr, lookup,
}
use tummycrypt.Fuse.Driver.Files.{add_handle, open_entry, open_file, read, release}
use tummycrypt.Fuse.Driver.Listing.{
  as_i64, Found, itself, subdirectory, file, found_at, rel_of, seen, readdir, list_plus,
  readdirplus,
}

pub data Call : Type 0 where
  stats : Option Str → Call
  looks : Str → Str → Call
  lists lists_plus : Str → ℕ → Call
  opens : Str → Call
  reads : ℕ → ℕ → ℕ → Call
  releases : ℕ → Call

pub lookup-insert_handle :
    (fh j : ℕ) (content : Str) (hs : List (ℕ × Str))
    → handle j (insert_handle fh content hs) ≡ (if nat_eq fh j then some content else handle j hs)
unfolding handle insert_handle
lookup-insert_handle fh j content [] = refl
lookup-insert_handle fh j content ((h, old) ∷ rest) =
    ground (arith, lookup-insert_handle fh j content rest)

pub lookup-remove_handle :
    (fh j : ℕ) (hs : List (ℕ × Str))
    → handle j (remove_handle fh hs) ≡ (if nat_eq fh j then none else handle j hs)
unfolding handle remove_handle
lookup-remove_handle fh j [] = ground arith
lookup-remove_handle fh j ((h, old) ∷ rest) = ground (arith, lookup-remove_handle fh j rest)

module _ (fs : TcfsFs) (S : Storage) where
  open S use {op, list}

  -- What a call leaves behind.
  unfoldable pub after : Call → Mount S.op → Mount S.op
  after (stats path) s = (getattr fs S path s).1
  after (looks parent name) s = (lookup fs S parent name s).1
  after (lists path offset) s = (readdir fs S path offset s).1
  after (lists_plus path offset) s = (readdirplus fs S path offset s).1
  after (opens path) s = (open_file fs S path s).1
  after (reads fh offset size) s = (read fs S fh offset size s).1
  after (releases fh) s = (release fs S fh s).1

  -- The open files are these.
  abbrev pub Table : List (ℕ × Str) → ℕ → Mount S.op → Type 0
  Table hs n s = (s.handles ≡ hs) × (s.next_fh ≡ n)

  module _ (hs : List (ℕ × Str)) (n : ℕ) where
    abbrev pub Still : {A : Type 0} → Run S A → Type 0
    Still m = Keeps (Table hs n) m

    Still-ask : {A : Type 0} (m : Exec S.op.State A) → Still (ask S m)
    unfolding ask
    Still-ask m s h = h

    pub Still-on_key : (key : Option Str) → Still (on_key fs S key)
    unfolding on_key
    Still-on_key none = Keeps-pure (Table hs n) none
    Still-on_key (some key) =
        Keeps-bind (Table hs n) _ (Keeps-attempt (Table hs n) _ (Still-ask _)) _
          (λ r. Keeps-pure (Table hs n) _)

    Still-absent : (path : Str) → Still (absent fs S {A = Reply} path)
    unfolding absent modify
    Still-absent path = Keeps-bind (Table hs n) _ (λ s h. h) _ (λ u. Keeps-lift (Table hs n) _)

    Still-on_entry : (path : Str) (e : Option IndexEntry) → Still (on_entry fs S path e)
    unfolding on_entry
    Still-on_entry path none = Still-absent path
    Still-on_entry path (some e) = Keeps-pure (Table hs n) _

    Still-on_objects : (path : Str) (r : Result (List Str)) → Still (on_objects fs S path r)
    unfolding on_objects
    Still-on_objects path (ok (o ∷ objects)) = Keeps-pure (Table hs n) _
    Still-on_objects path (ok []) = Still-absent path
    Still-on_objects path (err e) = Still-absent path

    Still-find_path : (path name : Str) → Still (find_path fs S path name)
    unfolding find_path get_index_entry
    Still-find_path path name = Keeps-bind (Table hs n) _ (Keeps-gets (Table hs n) _) _ (λ gone.
        Keeps-if (Table hs n) gone _ _ (Keeps-lift (Table hs n) _) (
          Keeps-if (Table hs n) (is_stub name) _ _
            (Keeps-bind (Table hs n) _ (Still-on_key _) _ (λ e. Still-on_entry path e))
            (Keeps-bind (Table hs n) _ (Keeps-attempt (Table hs n) _ (Still-ask _)) _
              (λ r. Still-on_objects path r))))

    pub Still-getattr : (path : Option Str) → Still (getattr fs S path)
    unfolding getattr
    Still-getattr none = Keeps-lift (Table hs n) _
    Still-getattr (some path) =
        Keeps-if (Table hs n) (not (is_utf8 path)) _ _ (Keeps-lift (Table hs n) _) (
          Keeps-if (Table hs n) (path == str "/") _ _ (Keeps-pure (Table hs n) _)
            (Still-find_path path path))

    pub Still-lookup : (parent name : Str) → Still (lookup fs S parent name)
    unfolding lookup
    Still-lookup parent name =
        Keeps-if (Table hs n) (not (is_utf8 name)) _ _ (Keeps-lift (Table hs n) _)
          (Still-find_path _ name)

    pub Still-readdir : (path : Str) (offset : ℕ) → Still (readdir fs S path offset)
    unfolding readdir
    Still-readdir path offset =
        Keeps-bind (Table hs n) _ (Keeps-context (Table hs n) _ _ (Still-ask _)) _
          (λ objects. Keeps-pure (Table hs n) _)

    Still-size : (key : Str) → Still (read_index_entry_size fs S key)
    unfolding read_index_entry_size
    Still-size key =
        Keeps-bind (Table hs n) _ (Keeps-attempt (Table hs n) _ (Still-ask _)) _
          (λ r. Keeps-pure (Table hs n) _)

    Still-list_plus :
        (index_prefix : Str) (offset : ℕ) (dirs : List Str) (next : ℕ) (objects : List Str)
        → Still (list_plus fs S index_prefix offset dirs next objects)
    unfolding list_plus read_index_entry_size
    Still-list_plus index_prefix offset dirs next [] = Keeps-pure (Table hs n) []
    Still-list_plus index_prefix offset dirs next (full ∷ rest) =
        go (found_at (rel_of index_prefix full)) refl
          (λ seen_dirs at. Still-list_plus index_prefix offset seen_dirs at rest)
      where
        go :
            (f : Found)
            → found_at (rel_of index_prefix full) ≡ f
            → ((seen_dirs : List Str) (at : ℕ)
                → Still (list_plus fs S index_prefix offset seen_dirs at rest))
            → Still (list_plus fs S index_prefix offset dirs next (full ∷ rest))
        go itself q again = rw (q, list_plus) (again dirs next)
        go (subdirectory name) q again = elim (Bool-cases (seen dirs name)) [
          | inl known ↦ rw (q, known, list_plus) (again dirs next)
          | inr new ↦
              rw (q, new, list_plus)
                (Keeps-bind (Table hs n) _ (again (name ∷ dirs) (next + 1)) _
                  (λ more. Keeps-pure (Table hs n) _))
        ]
        go (file name) q again =
            rw (q, list_plus)
              (Keeps-bind (Table hs n) _ (Still-size full) _ (λ size.
                Keeps-bind (Table hs n) _ (again dirs (next + 1)) _
                  (λ more. Keeps-pure (Table hs n) _)))

    pub Still-readdirplus : (path : Str) (offset : ℕ) → Still (readdirplus fs S path offset)
    unfolding readdirplus
    Still-readdirplus path offset =
        Keeps-bind (Table hs n) _ (Keeps-context (Table hs n) _ _ (Still-ask _)) _ (λ objects.
          Keeps-bind (Table hs n) _ (Still-list_plus _ (as_i64 offset) [] 3 objects) _
            (λ es. Keeps-pure (Table hs n) _))

    Still-fetch_all : (prefix : Str) (hashes : List Str) → Still (fetch_all S prefix hashes)
    unfolding fetch_all
    Still-fetch_all prefix [] = Keeps-pure (Table hs n) _
    Still-fetch_all prefix (hash ∷ hashes) =
        Keeps-bind (Table hs n) _ (Keeps-context (Table hs n) _ _ (Still-ask _)) _ (λ chunk.
          Keeps-bind (Table hs n) _ (Still-fetch_all prefix hashes) _
            (λ rest. Keeps-pure (Table hs n) _))

    Still-fetch_content : (manifest prefix : Str) → Still (fetch_content S manifest prefix)
    unfolding fetch_content
    Still-fetch_content manifest prefix =
        Keeps-bind (Table hs n) _ (Keeps-context (Table hs n) _ _ (Still-ask _)) _ (λ bytes.
          Keeps-bind (Table hs n) _ (Keeps-lift (Table hs n) _) _ (λ text.
            Keeps-bind (Table hs n) _ (Keeps-lift (Table hs n) _) _
              (λ hashes. Still-fetch_all _ hashes)))

    Still-on_cached :
        (c : DiskCache) (manifest prefix : Str) (hit : Option Str)
        → Still (on_cached S c manifest prefix hit)
    unfolding on_cached keep_content
    Still-on_cached c manifest prefix (some content) = Keeps-pure (Table hs n) _
    Still-on_cached c manifest prefix none =
        Keeps-bind (Table hs n) _ (Still-fetch_content manifest prefix) _
          (λ content. Keeps-bind (Table hs n) _ (λ s h. h) _ (λ u. Keeps-pure (Table hs n) _))

    pub Still-fetch_cached :
        (c : DiskCache) (manifest prefix : Str) → Still (fetch_cached S c manifest prefix)
    unfolding fetch_cached
    Still-fetch_cached c manifest prefix =
        Keeps-bind (Table hs n) _ (Keeps-gets (Table hs n) _) _
          (λ hit. Still-on_cached c manifest prefix hit)

    pub Still-read : (fh offset size : ℕ) → Still (read fs S fh offset size)
    unfolding read
    Still-read fh offset size =
        Keeps-bind (Table hs n) _ (Keeps-gets (Table hs n) _) _ (λ found. Keeps-lift (Table hs n) _)
