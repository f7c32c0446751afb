-- ===== src/Worker/Tasks.antt =====
-- What tasks do to the store, the cache and the queue.
use tummycrypt.Prelude.{
  ◌≡◌, refl, ◌≢◌, ◌⊎◌, sym, ap, subst, inl, inr, Bool-cases, Option, none, some, List, [], ◌∷◌, Str,
  All, arith,
}
use tummycrypt.Fallible.{Result, ok, err, path_not_found}
use tummycrypt.Disk
use tummycrypt.State
use tummycrypt.State.{StateJson}
use tummycrypt.Worker.Saved.{Held, Saves-push_one, Saves-push_all}
use tummycrypt.Manifest
use tummycrypt.Remote.{IsLawful}
use tummycrypt.Engine.{Deps, Session}
use tummycrypt.Engine.Upload.{upload_file}
use tummycrypt.Engine.Collect.{Entries, Glob, collect_files, default_config}
use tummycrypt.Engine.Tree.{
  TreeArgs, Stats, push_files, no_stats, remote_path_prefix, push_tree, push_tree_with_device,
}
use tummycrypt.Engine.Tree.Runs.{push_files-IsConsistent}
use tummycrypt.Engine.Consistency.{IsConsistent, Extends-same}
use tummycrypt.Engine.Consistency.Upload.{upload-IsConsistent}
use tummycrypt.Engine.Reading.{Keeps-download}
use tummycrypt.Worker.{
  SyncTask, push, pull, unsync, Worker, Meets, tree_args, file_args, session, with_session,
  flush_cache, on_pushed, push_one, push_all, pull_file, unsync_file, dispatch_task, settle,
  execute_task, execute_all, count_up, type_name, task_id, acked, naked,
}

-- A push under this prefix, which ends in no slash; or another task.
abbrev pub IsUnder : Str → SyncTask → Type 0
IsUnder prefix (push _ _ p) = (p ≡ prefix) × (remote_path_prefix p ≡ prefix)
IsUnder prefix (pull _ _ _ _) = Unit
IsUnder prefix (unsync _ _) = Unit

module _ (D : Deps) (J : StateJson) (glob : Glob) where
  open D use {op}

  remote-on_pushed :
      {A : Type 0} (r : Result A) (w : Worker op) → (on_pushed D J glob r w).1.remote ≡ w.remote
  unfolding on_pushed flush_cache
  remote-on_pushed (err e) w = refl
  remote-on_pushed (ok a) w = refl

  remote-unsync_file :
      (m : Meets) (path : Str) (w : Worker op) → (unsync_file D J glob m path w).1.remote ≡ w.remote
  unfolding unsync_file
  remote-unsync_file m path w = ground arith

  remote-settle :
      (t : SyncTask) (r : Result (Unit {0})) (w : Worker op)
      → (settle D J glob t r w).remote ≡ w.remote
  unfolding settle
  remote-settle t (ok u) w = refl
  remote-settle t (err e) w = refl

  -- A push of a directory changes the store by its loop, if it gets that far.
  abbrev bare : TreeArgs → TreeArgs
  bare tree = record tree { device_id = []; collect_cfg = none; encryption = none }

  remote-push_tree :
      (tree : TreeArgs) (root : Entries) (d : Disk.Disk) (st : Session op) (files : List Str)
      → collect_files glob default_config tree.local_root root ≡ ok files
      → (push_tree D tree J glob root d st).1.remote
        ≡ (push_files D (bare tree) 0 files no_stats st).1.remote
  unfolding push_tree_with_device
  remote-push_tree tree root d st files q = go (push_files D (bare tree) 0 files no_stats st) refl
    where
      go :
          (r : Result Stats × Session op)
          → push_files D (bare tree) 0 files no_stats st ≡ r
          → (push_tree D tree J glob root d st).1.remote ≡ r.1.remote
      go (err e, t) p =
          rw (q, p, push_tree_with_device) (ap (λ (x : Result Stats × Session op). x.1.remote) p)
      go (ok n, t) p = rw (q, p, push_tree_with_device) (ground arith)

  module _ (L : IsLawful D.op) (law : Manifest.IsLawful D.json) (prefix : Str) where
    abbrev Good : op.State → Type 0
    Good = IsConsistent D L prefix

    push_tree-Good :
        (tree : TreeArgs) (root : Entries) (d : Disk.Disk) (st : Session op)
        → remote_path_prefix tree.remote_prefix ≡ prefix
        → Good st.remote
        → Good (push_tree D tree J glob root d st).1.remote
    unfolding push_tree_with_device
    push_tree-Good tree root d st under good =
        go (collect_files glob default_config tree.local_root root) refl
      where
        go :
            (r : Result (List Str))
            → collect_files glob default_config tree.local_root root ≡ r
            → Good (push_tree D tree J glob root d st).1.remote
        go (err e) q = rw (q, push_tree_with_device) good
        go (ok files) q = rw (remote-push_tree tree root d st files q) (
            subst
              (λ (p : Str).
                IsConsistent D L p st.remote
                → IsConsistent D L p (push_files D (bare tree) 0 files no_stats st).1.remote)
              under (push_files-IsConsistent D (bare tree) L law 0 files no_stats st) good)

    push_one-Good :
        (m : Meets) (path p : Str) (w : Worker op)
        → p ≡ prefix
        → Good w.remote
        → Good (push_one D J glob m path p w).1.remote
    unfolding push_one
    push_one-Good m path p w under good = rw remote-on_pushed (
        subst
          (λ (x : Str).
            IsConsistent D L x w.remote
            → IsConsistent D L x
                (upload_file D (file_args D J glob m path p w.disk) (session D J glob w)).1.remote)
          under (λ h. (upload-IsConsistent D L law _ (session D J glob w) h).0) good)

    pull_file-Good :
        (manifest p path : Str) (w : Worker op)
        → Good w.remote
        → Good (pull_file D J glob manifest p path w).1.remote
    unfolding pull_file
    pull_file-Good manifest p path w good =
        Keeps-download D _ Good
          (λ s k h. (Extends-same D L prefix (λ _. Unit) s _ (L.object-read s k)).keeps h) _ good

    push_all-Good :
        (m : Meets) (path p : Str) (root : Entries) (w : Worker op)
        → remote_path_prefix p ≡ prefix
        → Good w.remote
        → Good (push_all D J glob m path p root w).1.remote
    unfolding push_all
    push_all-Good m path p root w under good = rw remote-on_pushed (
        push_tree-Good (tree_args D J glob m path p w.disk) root w.disk (session D J glob w) under
          good)

    dispatch_task-Good :
        (m : Meets) (t : SyncTask) (w : Worker op)
        → IsUnder prefix t
        → Good w.remote
        → Good (dispatch_task D J glob m t w).1.remote
    unfolding dispatch_task
    dispatch_task-Good m (push i path p) w (same, under) good =
        elim (Bool-cases (Disk.exists w.disk path)) [
          | inl file ↦ rw (file, dispatch_task) (push_one-Good m path p w same good)
          | inr other ↦ rw (other, dispatch_task) (go m.directory refl)
        ]
      where
        go :
            (r : Option Entries)
            → m.directory ≡ r
            → Good
                (elim m.directory as (λ _. Result (Unit {0}) × Worker op) [
                  | some root ↦ push_all D J glob m path p root w
                  | none ↦ (err path_not_found, w)
                ]).1.remote
        go none q = rw q good
        go (some root) q = rw q (push_all-Good m path p root w under good)
    dispatch_task-Good m (pull i manifest p path) w under good =
        pull_file-Good manifest p path w good
    dispatch_task-Good m (unsync i path) w under good = rw remote-unsync_file good

    -- Over a lawful store and with a codec that reads back the manifests it prints: tasks whose
    -- pushes go to one prefix, which ends in no slash, keep the store consistent under it, in
    -- whatever order they are run and whichever of them fail, at whatever step.
    pub execute_all-IsConsistent :
        (tasks : List (Meets × SyncTask)) (w : Worker op)
        → All (λ (t : Meets × SyncTask). IsUnder prefix t.1) tasks
        → IsConsistent D L prefix w.remote
        → IsConsistent D L prefix (execute_all D J glob tasks w).remote
    unfolding execute_all execute_task
    execute_all-IsConsistent [] w under good = good
    execute_all-IsConsistent ((m, t) ∷ tasks) w (u, under) good =
        execute_all-IsConsistent tasks (execute_task D J glob m t w) under
          (subst Good (sym (remote-settle t _ _)) (dispatch_task-Good m t w u good))

  -- A task leaves the books to the one that runs it.
  abbrev Books : Worker op → Worker op → Type 0
  Books w v = (v.answers ≡ w.answers) × (v.processed ≡ w.processed) × (v.failed ≡ w.failed)

  Books-on_pushed : {A : Type 0} (r : Result A) (w : Worker op) → Books w (on_pushed D J glob r w).1
  unfolding on_pushed flush_cache
  Books-on_pushed (err e) w = (refl, refl, refl)
  Books-on_pushed (ok a) w = (refl, refl, refl)

  module _ (law : State.IsLawful J) where
    -- What a push that succeeds leaves of the cache and its file.
    abbrev pub Pushes : SyncTask → Worker op → Worker op → Type 0
    Pushes (push _ _ _) w v = Held J w.cache w.disk v.cache v.disk
    Pushes (pull _ _ _ _) w v = Unit
    Pushes (unsync _ _) w v = Unit

    -- What a dispatched task leaves of the books, and of the cache.
    abbrev Dispatched : SyncTask → Worker op → Result (Unit {0}) × Worker op → Type 0
    Dispatched t w r = Books w r.1 × (r.0 ≡ ok tt → Pushes t w r.1)

    dispatch_task-Dispatched :
        (m : Meets) (t : SyncTask) (w : Worker op) → Dispatched t w (dispatch_task D J glob m t w)
    unfolding dispatch_task push_one push_all pull_file unsync_file
    dispatch_task-Dispatched m (push i path p) w = elim (Bool-cases (Disk.exists w.disk path)) [
      | inl file ↦
          let (a, b, c) =
            Books-on_pushed
              (upload_file D (file_args D J glob m path p w.disk) (session D J glob w)).0
              (with_session D J glob
                (upload_file D (file_args D J glob m path p w.disk) (session D J glob w)).1 w) in
          rw (file, dispatch_task) ((a, b, c), Saves-push_one J law D glob m path p w)
      | inr other ↦ rw (other, dispatch_task) (go m.directory)
    ]
      where
        go :
            (r : Option Entries)
            → Dispatched (push i path p) w (elim r as (λ _. Result (Unit {0}) × Worker op) [
              | some root ↦ push_all D J glob m path p root w
              | none ↦ (err path_not_found, w)
            ])
        go none = ((refl, refl, refl), λ h. absurd (cc h))
        go (some root) = (Books-on_pushed _ _, Saves-push_all J law D glob m path p root w)
    dispatch_task-Dispatched m (pull i manifest p path) w = ((refl, refl, refl), λ h. tt)
    dispatch_task-Dispatched m (unsync i path) w = (ground arith, λ h. tt)

    -- How a task ends: done or given back.
    abbrev pub Settles : Meets → SyncTask → Worker op → Type 0
    Settles m t w =
        (((dispatch_task D J glob m t w).0 ≡ ok tt)
          × ((execute_task D J glob m t w).answers ≡ acked (task_id t) ∷ w.answers)
          × ((execute_task D J glob m t w).processed ≡ count_up (type_name t) w.processed)
          × ((execute_task D J glob m t w).failed ≡ w.failed)
          × Pushes t w (execute_task D J glob m t w))
        ⊎ (((dispatch_task D J glob m t w).0 ≢ ok tt)
            × ((execute_task D J glob m t w).answers ≡ naked (task_id t) ∷ w.answers)
            × ((execute_task D J glob m t w).failed ≡ count_up (type_name t) w.failed)
            × ((execute_task D J glob m t w).processed ≡ w.processed))

    -- With a codec that reads back the entries it prints, the queue is told of a task once, by its
    -- name: that it is done exactly if it was run with success, and then one more of its type is
    -- counted as processed, else as failed. A push that is told to be done, of a file or a
    -- directory, has saved the state cache: its file can be opened and has the entries that the
    -- cache has then, unless the cache was clean before and neither it nor the disk has changed.
    pub execute_task-Settles : (m : Meets) (t : SyncTask) (w : Worker op) → Settles m t w
    unfolding execute_task settle
    execute_task-Settles m t w = go (dispatch_task D J glob m t w).0 refl
      where
        saved :
            (s : SyncTask) (v : Worker op) → Pushes s w v → Pushes s w (settle D J glob t (ok tt) v)
        saved (push i path p) v h = h
        saved (pull i manifest p path) v h = tt
        saved (unsync i path) v h = tt

        go : (r : Result (Unit {0})) → (dispatch_task D J glob m t w).0 ≡ r → Settles m t w
        go (ok u) q =
            let ((a, p, f), clean) = dispatch_task-Dispatched m t w in
            inl (
              q,
              (rw (q, execute_task) (ap (◌∷◌ (acked (task_id t))) a)),
              (rw (q, execute_task) (ap (count_up (type_name t)) p)),
              (rw (q, execute_task) f),
              (rw (q, execute_task) (saved t (dispatch_task D J glob m t w).1 (clean q))),
            )
        go (err e) q =
            let ((a, p, f), clean) = dispatch_task-Dispatched m t w in
            inr (
              (λ h. absurd (cc)),
              (rw (q, execute_task) (ap (◌∷◌ (naked (task_id t))) a)),
              (rw (q, execute_task) (ap (count_up (type_name t)) f)),
              (rw (q, execute_task) p),
            )
