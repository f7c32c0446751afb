-- ===== src/Tests/Queue.antt =====
-- A worker that runs three tasks over a connection that loses requests.
use tummycrypt.Prelude.{◌≡◌, refl, none, some, List, [], ◌∷◌, str, ◌==◌}
use tummycrypt.Engine.Collect.{Glob}
use tummycrypt.Engine.Consistency.{IsConsistent}
use tummycrypt.State.{SyncState, StateJson, flush, save}
use tummycrypt.Prelude.Dict.{Dict}
use tummycrypt.Engine.{Deps}
use tummycrypt.Worker.{
  SyncTask, push, pull, unsync, Worker, Meets, acked, dispatch_task, push_one, on_pushed,
  flush_cache, settle, execute_task, execute_all,
}
use tummycrypt.Worker.Tasks.{Settles, execute_all-IsConsistent, execute_task-Settles}
use tummycrypt.Engine.Tree.{remote_path_prefix}
use tummycrypt.Tests.Fixtures.{flaky, flaky-IsLawful}
use tummycrypt.Tests.Codec.{one_json, one_json-IsLawful, one_map, one_map-IsLawful}
use tummycrypt.Tests.Sync.{program, deps_flaky, hello, disk, cache, lossy, lossy-IsConsistent}

abbrev no_globs : Glob
no_globs p = some (λ name. name == p)

abbrev codec : StateJson
codec = one_map []

abbrev meets : Meets
meets = record {
  draws = λ i. record { file_key = []; chunk_nonce = λ _. []; wrap_nonce = [] };
  directory = none;
}

abbrev worker : Worker flaky
worker = record {
  remote = lossy.remote;
  disk = disk;
  cache = cache;
  processed = [];
  failed = [];
  answers = [];
}

abbrev tasks : List (Meets × SyncTask)
tasks =
    (meets, push (str "1") (str "/f") (str "p"))
    ∷ (meets, pull (str "2") (str "p/manifests/hhello") (str "p") (str "/g"))
    ∷ (meets, unsync (str "3") (str "/f"))
    ∷ []

execute_all-IsConsistent_example :
    IsConsistent deps_flaky flaky-IsLawful
      (str "p")
      (execute_all deps_flaky codec no_globs tasks worker).remote
unfolding remote_path_prefix
execute_all-IsConsistent_example =
    execute_all-IsConsistent deps_flaky codec no_globs flaky-IsLawful (one_json-IsLawful hello)
      (str "p") tasks worker ((refl, refl), (tt, (tt, tt))) lossy-IsConsistent

-- The same worker over a store that loses nothing, and the entries that its cache has behind a push.
abbrev calm : Worker flaky
calm = record worker { remote = record { objects = []; faults = [] } }

abbrev pushed : Dict SyncState
pushed =
    (
      str "/f",
      record {
        blake3 = str "hhello";
        size = 5;
        mtime = 7;
        chunk_count = 2;
        remote_path = str "p/manifests/hhello";
        last_synced = 9;
        vclock = record { clocks = [] };
        device_id = [];
      },
    )
    ∷ []

-- A codec for the manifest that an upload without a device writes.
abbrev deps_plain : Deps
deps_plain = record deps_flaky {
  json =
      one_json (record hello { vclock = record { clocks = [] }; written_by = []; rel_path = none });
}

abbrev task : SyncTask
task = push (str "1") (str "/f") (str "p")

acked_run :
    (execute_task deps_plain (one_map pushed) no_globs meets task calm).answers
    ≡ acked (str "1") ∷ []
unfolding program dispatch_task push_one on_pushed flush_cache settle execute_task flush save
    tummycrypt.Disk.exists tummycrypt.Tests.Codec.entries_discrete
acked_run = refl

execute_task-Settles_example :
    Settles deps_plain (one_map pushed) no_globs (one_map-IsLawful pushed) meets task calm
execute_task-Settles_example =
    execute_task-Settles deps_plain (one_map pushed) no_globs (one_map-IsLawful pushed) meets task
      calm
