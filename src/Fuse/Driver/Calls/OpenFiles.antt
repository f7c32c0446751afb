-- ===== src/Fuse/Driver/Calls/OpenFiles.antt =====
-- An open file is read the same until it is released.
use tummycrypt.Prelude.{
  ℕ, suc, ◌+◌, ◌%◌, ◌^◌, ◌<◌, ◌≤◌, ◌≡◌, ◌≢◌, ◌⊎◌, inl, inr, refl, ap, ◌∙◌, Bool, true, false, not,
  Option, none, some, List, [], ◌∷◌, Str, if◌then◌else◌, All, arith, length,
}
use tummycrypt.Fallible.{Result, ok, err, io_error}
use tummycrypt.Exec.{lift, modify, ◌>>=◌}
use tummycrypt.Exec.Inversion.{>>=-eq-ok, context-eq-ok, Keeps-context}
use tummycrypt.Engine.Tree.{remote_path_prefix}
use tummycrypt.Fuse.Index.{IndexEntry, manifest_path}
use tummycrypt.Fuse.Mount.{Storage, TcfsFs, Mount, Run, handle, insert_handle, remove_handle}
use tummycrypt.Fuse.Hydrate.{fetch_cached}
use tummycrypt.Fuse.Driver.{get_index_entry, is_stub}
use tummycrypt.Fuse.Driver.Files.{
  add_handle, open_entry, open_file, read_handle, read, release, window,
}
use tummycrypt.Fuse.Driver.Calls.{
  Call, stats, looks, lists, lists_plus, opens, reads, releases, after, lookup-insert_handle,
  lookup-remove_handle, Table, Still, Still-getattr, Still-lookup, Still-readdir, Still-readdirplus,
  Still-on_key, Still-fetch_cached, Still-read,
}
use tummycrypt.Prelude.Text.Utf8.{is_utf8}

module _ (fs : TcfsFs) (S : Storage) where
  open fs use {prefix, disk_cache}

  -- No handle from the counter on is in use.
  abbrev pub IsFresh : Mount S.op → Type 0
  IsFresh s = (fh : ℕ) → s.next_fh ≤ fh → handle fh s.handles ≡ none

  -- A file was opened under the next handle.
  abbrev Opened : List (ℕ × Str) → ℕ → Mount S.op → Type 0
  Opened hs n t =
      (content : Str) × (t.handles ≡ insert_handle n content hs) × (t.next_fh ≡ (n + 1) % 2 ^ 64)

  -- Nothing was opened, or one file.
  abbrev Opens : List (ℕ × Str) → ℕ → Run S ℕ → Type 0
  Opens hs n m =
      (s : Mount S.op) → Table fs S hs n s → Table fs S hs n (m s).1 ⊎ Opened hs n (m s).1

  module _ (hs : List (ℕ × Str)) (n : ℕ) where
    Opens-bind :
        {A : Type 0} (m : Run S A) (f : A → Run S ℕ)
        → Still fs S hs n m
        → ((a : A) → Opens hs n (f a))
        → Opens hs n (m >>= f)
    unfolding ◌>>=◌
    Opens-bind {A} m f p q s h = go (m s).0 refl
      where
        go :
            (r : Result A)
            → (m s).0 ≡ r
            → Table fs S hs n ((m >>= f) s).1 ⊎ Opened hs n ((m >>= f) s).1
        go (ok a) e = rw (e, ◌>>=◌) (q a (m s).1 (p s h))
        go (err x) e = rw (e, ◌>>=◌) (inl (p s h))

    Opens-if :
        (b : Bool) (m k : Run S ℕ) → Opens hs n m → Opens hs n k → Opens hs n (if b then m else k)
    Opens-if true m k p q = p
    Opens-if false m k p q = q

    Opens-open_entry : (e : Option IndexEntry) → Opens hs n (open_entry fs S e)
    unfolding open_entry add_handle lift
    Opens-open_entry none = λ s h. inl h
    Opens-open_entry (some e) =
        Opens-bind _ _
          (Keeps-context (Table fs S hs n) _ _ (Still-fetch_cached fs S hs n disk_cache _ _))
          (λ content s (same, at). inr (content, cc, cc))

    Opens-open_file : (path : Str) → Opens hs n (open_file fs S path)
    unfolding open_file lift get_index_entry
    Opens-open_file path =
        Opens-if (not (is_utf8 path)) _ _ (λ s h. inl h)
          (Opens-if (not (is_stub path)) _ _ (λ s h. inl h)
            (Opens-bind _ _ (Still-on_key fs S hs n _) (λ e. Opens-open_entry e)))

  -- A call that changes no open file.
  abbrev Quiet : Call → Mount S.op → Type 0
  Quiet c s = Table fs S s.handles s.next_fh (after fs S c s)

  -- After a call, below the wrapping of the counter: nothing changed, a file was opened under the
  -- next handle, or the named handle was released.
  after-cases :
      (c : Call) (s : Mount S.op)
      → Quiet c s
        ⊎ Opened s.handles s.next_fh (after fs S c s)
        ⊎ ((fh : ℕ) × (c ≡ releases fh)
            × ((after fs S c s).handles ≡ remove_handle fh s.handles)
            × ((after fs S c s).next_fh ≡ s.next_fh))
  unfolding after release modify
  after-cases (stats path) s = inl (Still-getattr fs S s.handles s.next_fh path s (refl, refl))
  after-cases (looks parent name) s =
      inl (Still-lookup fs S s.handles s.next_fh parent name s (refl, refl))
  after-cases (lists path offset) s =
      inl (Still-readdir fs S s.handles s.next_fh path offset s (refl, refl))
  after-cases (lists_plus path offset) s =
      inl (Still-readdirplus fs S s.handles s.next_fh path offset s (refl, refl))
  after-cases (opens path) s = elim (Opens-open_file s.handles s.next_fh path s (refl, refl)) [
    | inl same ↦ inl same
    | inr opened ↦ inr (inl opened)
  ]
  after-cases (reads fh offset size) s =
      inl (Still-read fs S s.handles s.next_fh fh offset size s (refl, refl))
  after-cases (releases fh) s = inr (inr (fh, refl, refl, refl))

  -- Below the wrapping of the counter, a call keeps the handles from the counter on unused, and
  -- moves the counter by at most one.
  after-IsFresh :
      (c : Call) (s : Mount S.op)
      → IsFresh s
      → s.next_fh + 1 < 2 ^ 64
      → IsFresh (after fs S c s) × ((after fs S c s).next_fh ≤ s.next_fh + 1)
  after-IsFresh c s fresh bound = elim (after-cases c s) [
    | inl (same, at) ↦ (λ fh le. rw same (fresh fh (omega arith)), omega arith)
    | inr (inl (content, same, at)) ↦
        let next : (after fs S c s).next_fh ≡ s.next_fh + 1 = omega arith in
        (
          λ fh le.
              rw same
                (ground (arith, lookup-insert_handle s.next_fh fh content s.handles, fresh fh)),
          omega arith,
        )
    | inr (inr (h, _, same, at)) ↦ (
      λ fh le. rw same (ground (arith, lookup-remove_handle h fh s.handles, fresh fh)),
      omega arith,
    )
  ]

  -- An open file stays open, unless it is released.
  handle-after :
      (c : Call) (s : Mount S.op) (fh : ℕ) {content : Str}
      → IsFresh s
      → handle fh s.handles ≡ some content
      → c ≢ releases fh
      → handle fh (after fs S c s).handles ≡ some content
  handle-after c s fh {content} fresh there spared = elim (after-cases c s) [
    | inl (same, at) ↦ rw same there
    | inr (inl (other, same, at)) ↦
        rw same (ground (arith, lookup-insert_handle s.next_fh fh other s.handles, fresh fh, there))
    | inr (inr (h, q, same, at)) ↦
        let apart : h ≢ fh = λ e. spared (q ∙ ap releases e) in
        rw same (ground (arith, lookup-remove_handle h fh s.handles, there))
  ]

  unfoldable pub afters : List Call → Mount S.op → Mount S.op
  afters [] s = s
  afters (c ∷ calls) s = afters calls (after fs S c s)

  handle-afters :
      (calls : List Call) (s : Mount S.op) (fh : ℕ) {content : Str}
      → IsFresh s
      → s.next_fh + length calls < 2 ^ 64
      → handle fh s.handles ≡ some content
      → All (λ c. c ≢ releases fh) calls
      → handle fh (afters calls s).handles ≡ some content
  unfolding afters
  handle-afters [] s fh fresh bound there spared = there
  handle-afters (c ∷ calls) s fh fresh bound there (spared, rest) =
      let (fresh', at) = after-IsFresh c s fresh (omega arith) in
      handle-afters calls (after fs S c s) fh fresh' (omega arith)
        (handle-after c s fh fresh there spared) rest

  read-handle :
      (s : Mount S.op) (fh offset size : ℕ) {content : Str}
      → handle fh s.handles ≡ some content
      → (read fs S fh offset size s).0 ≡ ok (window content offset size)
  unfolding read read_handle ◌>>=◌
  read-handle s fh offset size there = rw there refl

  -- A new handle reads what it was made for.
  handle-add_handle :
      (content : Str) (u : Mount S.op) {fh : ℕ}
      → (add_handle fs S content u).0 ≡ ok fh
      → handle fh (add_handle fs S content u).1.handles ≡ some content
  unfolding add_handle
  handle-add_handle content u {fh} h =
      ground (arith, lookup-insert_handle u.next_fh fh content u.handles)

  open_entry-eq-ok :
      (found : Option IndexEntry) (u : Mount S.op) {fh : ℕ}
      → (open_entry fs S found u).0 ≡ ok fh
      → (e : IndexEntry) × (content : Str) × (found ≡ some e)
        × ((fetch_cached S disk_cache (manifest_path e prefix) (remote_path_prefix prefix) u).0
            ≡ ok content)
        × (handle fh (open_entry fs S found u).1.handles ≡ some content)
  unfolding open_entry lift
  open_entry-eq-ok none u h = absurd (cc h)
  open_entry-eq-ok (some e) u {fh} h =
      let (content, fetched, run, h1) = >>=-eq-ok _ _ u h in
      let there = handle-add_handle content _ h1 in
      (
        e,
        content,
        refl,
        (context-eq-ok io_error _ u fetched).0,
        ap (λ (x : Result ℕ × Mount S.op). handle fh x.1.handles) run ∙ there,
      )

  -- A path that is opened is a stub, with its entry.
  open_file-stub :
      (path : Str) (s : Mount S.op) {fh : ℕ}
      → (open_file fs S path s).0 ≡ ok fh
      → open_file fs S path s ≡ (get_index_entry fs S path >>= λ e. open_entry fs S e) s
  unfolding open_file lift
  open_file-stub path s h = ground arith

  -- Where an opening succeeds: the entry, the content, and the new table.
  open_file-eq-ok :
      (path : Str) (s : Mount S.op) {fh : ℕ}
      → (open_file fs S path s).0 ≡ ok fh
      → (e : IndexEntry) × (content : Str) × ((get_index_entry fs S path s).0 ≡ ok (some e))
        × ((fetch_cached S disk_cache
              (manifest_path e prefix)
              (remote_path_prefix prefix)
              (get_index_entry fs S path s).1).0
            ≡ ok content)
        × (handle fh (open_file fs S path s).1.handles ≡ some content)
  open_file-eq-ok path s {fh} h =
      let stub = open_file-stub path s h in
      let (found, looked, run, h1) = >>=-eq-ok _ _ s (rw stub at h) in
      let (e, content, q, fetched, there) = open_entry-eq-ok found _ h1 in
      (
        e,
        content,
        looked ∙ ap ok q,
        fetched,
        ap (λ (x : Result ℕ × Mount S.op). handle fh x.1.handles) (stub ∙ run) ∙ there,
      )

  -- Before the counter of handles wraps, and with no handle from the counter on in use: a file
  -- that was opened reads, at every offset and size, as the window of the content that was fetched
  -- for its index entry when it was opened, after any calls of the kernel that do not release its
  -- handle.
  pub read-open_file :
      (path : Str) (s : Mount S.op) {fh : ℕ} (calls : List Call)
      → IsFresh s
      → s.next_fh + suc (length calls) < 2 ^ 64
      → (open_file fs S path s).0 ≡ ok fh
      → All (λ c. c ≢ releases fh) calls
      → (e : IndexEntry) × (content : Str) × ((get_index_entry fs S path s).0 ≡ ok (some e))
        × ((fetch_cached S disk_cache
              (manifest_path e prefix)
              (remote_path_prefix prefix)
              (get_index_entry fs S path s).1).0
            ≡ ok content)
        × ((offset size : ℕ)
            → (read fs S fh offset size (afters calls (open_file fs S path s).1)).0
              ≡ ok (window content offset size))
  unfolding after
  read-open_file path s {fh} calls fresh bound h spared =
      let (e, content, found, fetched, there) = open_file-eq-ok path s h in
      let (fresh', at) = after-IsFresh (opens path) s fresh (omega arith) in
      let left =
        handle-afters calls (open_file fs S path s).1 fh fresh' (omega arith) there spared in
      (e, content, found, fetched, λ offset size. read-handle _ fh offset size left)
