-- ===== src/Worker.antt =====
-- crates/tcfs-sync/src/nats.rs, the messages, and crates/tcfsd/src/worker.rs: tasks from the queue,
-- each run once it comes. The metrics of a type are counters; an answer to the queue that is lost
-- is only logged.
pub mod Saved
pub mod Tasks
use tummycrypt.Prelude.{
  ℕ, suc, ◌+◌, Bool, true, false, not, ◌&&◌, ◌||◌, Option, none, some, List, [], ◌∷◌, ◌++◌, Str,
  str, ◌==◌, if◌then◌else◌,
}
use tummycrypt.Prelude.Dict.{Dict, lookup, insert}
use tummycrypt.Fallible.{Result, ok, err, path_not_found, removing_failed}
use tummycrypt.Exec.{Exec}
use tummycrypt.Disk
use tummycrypt.Disk.{Disk}
use tummycrypt.Conflict.{VectorClock}
use tummycrypt.State
use tummycrypt.State.{StateCache, StateJson}
use tummycrypt.Remote.{Operator}
use tummycrypt.Fuse.Stub.{is_stub_path}
use tummycrypt.Engine.{Deps, Draws, Session, UploadArgs, UploadResult, DownloadResult}
use tummycrypt.Engine.Upload.{upload_file}
use tummycrypt.Engine.Download
use tummycrypt.Engine.Download.{DownloadArgs, download_file}
use tummycrypt.Engine.Collect.{Entries, Glob}
use tummycrypt.Engine.Tree.{TreeArgs, Stats, push_tree}

pub data StateEvent : Type 0 where
  -- device, path, hash, size, clock, manifest, time
  file_synced : Str → Str → Str → ℕ → VectorClock → Str → ℕ → StateEvent
  -- device, path, clock, time
  file_deleted : Str → Str → VectorClock → ℕ → StateEvent
  -- device, old path, new path, clock, time
  file_renamed : Str → Str → Str → VectorClock → ℕ → StateEvent
  -- device, sequence number, time
  device_online device_offline : Str → ℕ → ℕ → StateEvent
  -- device, path, resolution, merged clock, time
  conflict_resolved : Str → Str → Str → VectorClock → ℕ → StateEvent

abbrev pub device_id : StateEvent → Str
device_id (file_synced d _ _ _ _ _ _) = d
device_id (file_deleted d _ _ _) = d
device_id (file_renamed d _ _ _ _) = d
device_id (device_online d _ _) = d
device_id (device_offline d _ _) = d
device_id (conflict_resolved d _ _ _ _) = d

abbrev pub event_type : StateEvent → Str
event_type (file_synced _ _ _ _ _ _ _) = str "file_synced"
event_type (file_deleted _ _ _ _) = str "file_deleted"
event_type (file_renamed _ _ _ _ _) = str "file_renamed"
event_type (device_online _ _ _) = str "device_online"
event_type (device_offline _ _ _) = str "device_offline"
event_type (conflict_resolved _ _ _ _ _) = str "conflict_resolved"

abbrev pub subject : StateEvent → Str
subject e = str "STATE." ++ (device_id e ++ (b'.' ∷ event_type e))

pub data SyncTask : Type 0 where
  -- task, local path, remote prefix
  push : Str → Str → Str → SyncTask
  -- task, manifest, remote prefix, local path
  pull : Str → Str → Str → Str → SyncTask
  -- task, local path
  unsync : Str → Str → SyncTask

abbrev pub task_id : SyncTask → Str
task_id (push i _ _) = i
task_id (pull i _ _ _) = i
task_id (unsync i _) = i

abbrev pub type_name : SyncTask → Str
type_name (push _ _ _) = str "push"
type_name (pull _ _ _ _) = str "pull"
type_name (unsync _ _) = str "unsync"

-- What the queue is told of a task.
pub data Answer : Type 0 where
  acked naked : Str → Answer

-- What a worker changes.
pub record Worker (O : Operator) : Type 0 where
  pub remote : O.State
  pub disk : Disk
  pub cache : StateCache
  pub processed : Dict ℕ
  pub failed : Dict ℕ
  pub answers : List Answer

-- What a task meets: what is drawn for each file, and the directory at its path, if there is one.
pub record Meets : Type 0 where
  pub draws : ℕ → Draws
  pub directory : Option Entries

-- `get_or_create(…).inc()`
unfoldable pub count_up : Str → Dict ℕ → Dict ℕ
count_up name d = insert name (suc (elim (lookup name d) [ some n ↦ n | none ↦ 0 ])) d

module _ (D : Deps) (J : StateJson) (glob : Glob) where
  open D use {op}

  abbrev pub Run : Type 0 → Type 0
  Run A = Exec (Worker op) A

  abbrev pub file_args : Meets → Str → Str → Disk → UploadArgs
  file_args m local_path remote_prefix d = record {
    disk = d;
    local_path = local_path;
    remote_prefix = remote_prefix;
    device_id = [];
    rel_path = none;
    encryption = none;
    draws = m.draws 0;
  }

  abbrev pub tree_args : Meets → Str → Str → Disk → TreeArgs
  tree_args m local_path remote_prefix d = record {
    local_root = local_path;
    remote_prefix = remote_prefix;
    device_id = [];
    collect_cfg = none;
    encryption = none;
    meets = λ i. (d, m.draws i);
  }

  abbrev pub session : Worker op → Session op
  session w = record { remote = w.remote; cache = w.cache }

  abbrev pub with_session : Session op → Worker op → Worker op
  with_session s w = record w { remote = s.remote; cache = s.cache }

  -- `guard.flush()`
  unfoldable pub flush_cache : Run (Unit {0})
  flush_cache w =
      let r = State.flush J w.cache w.disk in (r.0, record w { cache = r.1; disk = r.2 })

  -- The cache is flushed behind a push that succeeded.
  unfoldable pub on_pushed : {A : Type 0} → Result A → Run (Unit {0})
  on_pushed (err e) w = (err e, w)
  on_pushed (ok a) w = flush_cache w

  unfoldable pub push_one : Meets → Str → Str → Run (Unit {0})
  push_one m local_path remote_prefix w =
      let r = upload_file D (file_args m local_path remote_prefix w.disk) (session w) in
      on_pushed r.0 (with_session r.1 w)

  unfoldable pub push_all : Meets → Str → Str → Entries → Run (Unit {0})
  push_all m local_path remote_prefix root w =
      let r =
        push_tree D (tree_args m local_path remote_prefix w.disk) J glob root w.disk (session w) in
      on_pushed r.0 (record (with_session r.1 w) { disk = r.2 })

  unfoldable pub pull_file : Str → Str → Str → Run (Unit {0})
  pull_file manifest_path remote_prefix local_path w =
      let r =
        download_file D
          (record {
            remote_manifest = manifest_path;
            local_path = local_path;
            remote_prefix = remote_prefix;
            device_id = [];
            encryption = none;
          })
          w.remote w.disk in
      (elim r.0 [ ok _ ↦ ok tt | err e ↦ err e ], record w { remote = r.1.remote; disk = r.1.disk })

  -- A stub stays, what is not there is gone already, and a directory cannot be removed as a file.
  unfoldable pub unsync_file : Meets → Str → Run (Unit {0})
  unsync_file m path w =
      if is_stub_path path
      then (ok tt, w)
      else if Disk.exists w.disk path
      then (let r = Disk.remove_file w.disk path in (r.0, record w { disk = r.1 }))
      else elim m.directory [ some root ↦ (err (removing_failed path), w) | none ↦ (ok tt, w) ]

  unfoldable pub dispatch_task : Meets → SyncTask → Run (Unit {0})
  dispatch_task m (push _ local_path remote_prefix) w =
      if Disk.exists w.disk local_path
      then push_one m local_path remote_prefix w
      else elim m.directory [
        | some root ↦ push_all m local_path remote_prefix root w
        | none ↦ (err path_not_found, w)
      ]
  dispatch_task m (pull _ manifest_path remote_prefix local_path) w =
      pull_file manifest_path remote_prefix local_path w
  dispatch_task m (unsync _ local_path) w = unsync_file m local_path w

  -- A task that fails is given back to the queue.
  unfoldable pub settle : SyncTask → Result (Unit {0}) → Worker op → Worker op
  settle t (ok _) w = record w {
    processed = count_up (type_name t) w.processed;
    answers = acked (task_id t) ∷ w.answers;
  }
  settle t (err e) w = record w {
    failed = count_up (type_name t) w.failed;
    answers = naked (task_id t) ∷ w.answers;
  }

  unfoldable pub execute_task : Meets → SyncTask → Worker op → Worker op
  execute_task m t w = let r = dispatch_task m t w in settle t r.0 r.1

  -- The tasks in the order in which they are run.
  unfoldable pub execute_all : List (Meets × SyncTask) → Worker op → Worker op
  execute_all [] w = w
  execute_all ((m, t) ∷ tasks) w = execute_all tasks (execute_task m t w)
