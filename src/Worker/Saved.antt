-- ===== src/Worker/Saved.antt =====
-- crates/tcfsd/src/worker.rs: the state cache and its file behind a push.
use tummycrypt.Prelude.{
  ◌≡◌, refl, sym, ap, ◌∙◌, subst, ◌⊎◌, inl, inr, true, false, none, Bool-cases, List, [], Str,
  arith,
}
use tummycrypt.Fallible.{Result, ok, err}
use tummycrypt.Disk.{Disk}
use tummycrypt.State.{StateCache, StateJson, IsLawful, fresh, open_cache, flush}
use tummycrypt.State.Flush.{open_cache-flush, flush_twice}
use tummycrypt.Engine.{Deps, Session}
use tummycrypt.Engine.Collect.{Entries, Glob, collect_files, default_config}
use tummycrypt.Engine.Tree.{TreeArgs, Stats, no_stats, push_files, push_tree, push_tree_with_device}
use tummycrypt.Engine.Marked.{Marked, Keeps-upload, Keeps-push_files}
use tummycrypt.Worker.{
  Worker, Meets, tree_args, file_args, session, flush_cache, on_pushed, push_one, push_all,
}

-- What a run does with the cache `c` and the disk `d`: nothing, and the cache was clean; or the
-- state file has the entries, as it can be opened again.
abbrev pub Held : StateJson → StateCache → Disk → StateCache → Disk → Type 0
Held J c d x e =
    ((c.dirty ≡ false) × (x ≡ c) × (e ≡ d))
    ⊎ (open_cache J e c.db_path ≡ ok (fresh c.db_path x.entries))

module _ (J : StateJson) (law : IsLawful J) where
  Held-clean :
      (c x : StateCache) (d : Disk)
      → Marked c x
      → x.dirty ≡ false
      → Held J c d (flush J x d).1 (flush J x d).2
  unfolding flush
  Held-clean c x d (inl same) clean = inl (ground arith)
  Held-clean c x d (inr (dirty, path)) clean = absurd (ground arith)

  Held-dirty :
      (c x : StateCache) (d : Disk)
      → Marked c x
      → x.dirty ≡ true
      → (flush J x d).0 ≡ ok tt
      → Held J c d (flush J x d).1 (flush J x d).2
  unfolding flush
  Held-dirty c x d marked dirty h =
      let path : x.db_path ≡ c.db_path = elim marked [
        | inl same ↦ ap (λ (y : StateCache). y.db_path) same
        | inr m ↦ m.1
      ] in
      let entries : (flush J x d).1.entries ≡ x.entries = ground arith in
      inr (
        subst (λ (p : Str). open_cache J (flush J x d).2 p ≡ ok (fresh p (flush J x d).1.entries))
          path
          (open_cache-flush J x d law dirty h ∙ ap (λ m. ok (fresh x.db_path m)) (sym entries)))

  -- A flush that succeeds.
  pub Held-flush :
      (c x : StateCache) (d : Disk)
      → Marked c x
      → (flush J x d).0 ≡ ok tt
      → Held J c d (flush J x d).1 (flush J x d).2
  Held-flush c x d marked h = elim (Bool-cases x.dirty) [
    | inl dirty ↦ Held-dirty c x d marked dirty h
    | inr clean ↦ Held-clean c x d marked clean
  ]

  module _ (D : Deps) (glob : Glob) where
    open D use {op}

    abbrev pub Saves : Worker op → Result (Unit {0}) × Worker op → Type 0
    Saves w r = Held J w.cache w.disk r.1.cache r.1.disk

    Saves-on_pushed :
        {A : Type 0} (r : Result A) (w v : Worker op)
        → Marked w.cache v.cache
        → v.disk ≡ w.disk
        → (on_pushed D J glob r v).0 ≡ ok tt
        → Saves w (on_pushed D J glob r v)
    unfolding on_pushed flush_cache
    Saves-on_pushed (err e) w v marked same h = absurd (cc h)
    Saves-on_pushed (ok a) w v marked same h =
        subst (λ (d : Disk). Held J w.cache d (flush J v.cache v.disk).1 (flush J v.cache v.disk).2)
          same (Held-flush w.cache v.cache v.disk marked h)

    pub Saves-push_one :
        (m : Meets) (path p : Str) (w : Worker op)
        → (push_one D J glob m path p w).0 ≡ ok tt
        → Saves w (push_one D J glob m path p w)
    unfolding push_one
    Saves-push_one m path p w h =
        Saves-on_pushed _ w _
          (Keeps-upload D w.cache
            (record (file_args D J glob m path p w.disk) {
              device_id = [];
              rel_path = none;
              encryption = none;
            })
            (session D J glob w) (inl refl))
          refl h

    -- A push of a directory that succeeds has flushed the cache.
    push_tree-ok :
        (tree : TreeArgs) (root : Entries) (d : Disk) (st : Session op) {t : Stats}
        → (push_tree D tree J glob root d st).0 ≡ ok t
        → (x : StateCache) × Marked st.cache x
          × ((flush J x d).0 ≡ ok tt)
          × ((push_tree D tree J glob root d st).1.cache ≡ (flush J x d).1)
          × ((push_tree D tree J glob root d st).2 ≡ (flush J x d).2)
    unfolding push_tree_with_device
    push_tree-ok tree root d st {t} h =
        files (collect_files glob default_config tree.local_root root) refl
      where
        bare : TreeArgs
        bare = record tree { device_id = []; collect_cfg = none; encryption = none }

        Flushed : Type 0
        Flushed =
            (x : StateCache) × Marked st.cache x
            × ((flush J x d).0 ≡ ok tt)
            × ((push_tree D tree J glob root d st).1.cache ≡ (flush J x d).1)
            × ((push_tree D tree J glob root d st).2 ≡ (flush J x d).2)

        flushed :
            (fs : List Str)
            → collect_files glob default_config tree.local_root root ≡ ok fs
            → (n : Stats) → (push_files D bare 0 fs no_stats st).0 ≡ ok n
            → (r : Result (Unit {0}))
            → (flush J (push_files D bare 0 fs no_stats st).1.cache d).0 ≡ r
            → Flushed
        flushed fs q n ran (err e) f = absurd (cc (rw (q, ran, f, push_tree_with_device) at h))
        flushed fs q n ran (ok u) f = (
          (push_files D bare 0 fs no_stats st).1.cache,
          Keeps-push_files D st.cache bare 0 fs no_stats st (inl refl),
          f,
          rw (q, ran, f, push_tree_with_device) refl,
          rw (q, ran, f, push_tree_with_device) refl,
        )

        counted :
            (fs : List Str)
            → collect_files glob default_config tree.local_root root ≡ ok fs
            → (r : Result Stats) → (push_files D bare 0 fs no_stats st).0 ≡ r
            → Flushed
        counted fs q (err e) ran = absurd (cc (rw (q, ran, push_tree_with_device) at h))
        counted fs q (ok n) ran = flushed fs q n ran _ refl

        files :
            (r : Result (List Str))
            → collect_files glob default_config tree.local_root root ≡ r
            → Flushed
        files (err e) q = absurd (cc (rw (q, push_tree_with_device) at h))
        files (ok fs) q = counted fs q _ refl

    -- The flush behind it changes nothing.
    pub Saves-push_all :
        (m : Meets) (path p : Str) (root : Entries) (w : Worker op)
        → (push_all D J glob m path p root w).0 ≡ ok tt
        → Saves w (push_all D J glob m path p root w)
    unfolding push_all on_pushed flush_cache
    Saves-push_all m path p root w h = go _ refl
      where
        tree : TreeArgs
        tree = tree_args D J glob m path p w.disk

        run : Result Stats × Session op × Disk
        run = push_tree D tree J glob root w.disk (session D J glob w)

        go : (r : Result Stats) → run.0 ≡ r → Saves w (push_all D J glob m path p root w)
        go (err e) q = absurd (cc (rw (q, push_all, on_pushed) at h))
        go (ok n) q =
            let (x, marked, done, cache, disk) =
              push_tree-ok tree root w.disk (session D J glob w) q in
            let again : flush J run.1.cache run.2
                ≡ (ok tt, (flush J x w.disk).1, (flush J x w.disk).2) =
              rw (cache, disk) (flush_twice J x w.disk done) in
            rw (q, again, push_all, on_pushed) (Held-flush w.cache x w.disk marked done)
