-- ===== src/Tests/Answers.antt =====
-- A daemon with one synced file whose conflict is settled, and one with a stub.
use tummycrypt.Prelude.{◌≡◌, ◌≢◌, refl, true, false, Option, none, some, [], ◌∷◌, str}
use tummycrypt.Fallible.{Result, ok}
use tummycrypt.Manifest.{SyncManifest}
use tummycrypt.State
use tummycrypt.State.{StateJson, SyncState}
use tummycrypt.Engine.{Deps, DownloadResult}
use tummycrypt.Engine.Download
use tummycrypt.Engine.Download.{DownloadArgs, download_file_with_device}
use tummycrypt.Daemon
use tummycrypt.Daemon.{Config, Daemon, Resolved, success_at, resolve_conflict}
use tummycrypt.Daemon.Resolving.{keep_remote-waits, keep_local-unreadable, hydrate-waits}
use tummycrypt.Fuse.Stub.{StubMeta, for_upload, to_stub_string, parse_stub}
use tummycrypt.Fuse.Stub.Reading.{parse_stub-to_stub_string}
use tummycrypt.Prelude.{arith}
use tummycrypt.Prelude.Text.Decimal.{to_string, digits}
use tummycrypt.Disk.{Disk}
use tummycrypt.Daemon.{hydrate}
use tummycrypt.Tests.Fixtures.{memory, memory-IsLawful}
use tummycrypt.Tests.Codec.{one_json, one_json-IsLawful, one_map}
use tummycrypt.Tests.Sync.{program, deps, disk, cache}

abbrev entry : SyncState
entry = record {
  blake3 = str "hhello";
  size = 5;
  mtime = 7;
  chunk_count = 2;
  remote_path = str "p/manifests/hhello";
  last_synced = 9;
  vclock = record { clocks = (str "dev", 1) ∷ [] };
  device_id = str "dev";
}

abbrev kept : SyncManifest
kept = record {
  version = 2;
  file_hash = str "hhello";
  file_size = 5;
  chunks = [];
  vclock = record { clocks = (str "dev", 2) ∷ [] };
  written_by = str "dev";
  written_at = 9;
  rel_path = some (str "/f");
  encrypted_file_key = none;
}

abbrev codec : StateJson
codec = one_map []

abbrev deps_kept : Deps
deps_kept = record deps { json = one_json kept }

abbrev config : Config
config = record { bucket = str "p"; device_id = str "dev"; has_operator = true; has_nats = false }

abbrev daemon : Daemon memory
daemon = record {
  remote = [];
  disk = disk;
  cache = record cache { entries = (str "/f", entry) ∷ [] };
  operator_locked = false;
  published = [];
}

-- The daemon that an answer leaves.
unfoldable after : Option (Result Resolved × Daemon memory) → Daemon memory
after none = daemon
after (some (r, d)) = d

abbrev settled : Daemon memory
settled = after (resolve_conflict deps_kept codec config (str "/f") (str "keep_local") daemon)

answered :
    resolve_conflict deps_kept codec config (str "/f") (str "keep_local") daemon
    ≡ some (ok (success_at (str "/f")), settled)
unfolding program after resolve_conflict Daemon.keep_local Daemon.upload_manifest
    Daemon.update_entry Daemon.lock_operator Daemon.unlock_operator Daemon.publish_conflict_resolved
    State.flush
answered = refl

keep_remote-waits_example :
    resolve_conflict deps_kept codec config (str "/f") (str "keep_remote") daemon ≡ none
unfolding program
keep_remote-waits_example = keep_remote-waits deps_kept codec config (str "/f") daemon refl refl

abbrev args : DownloadArgs
args = record {
  remote_manifest = str "p/manifests/hhello";
  local_path = str "/g";
  remote_prefix = str "p";
  device_id = str "dev";
  encryption = none;
}

abbrev fetching : Download.Session memory
fetching = record { remote = settled.remote; disk = disk; cache = none }

abbrev whole : DownloadResult
whole = record { bytes = 5; local_path = str "/g"; remote_path = str "p/manifests/hhello" }

keep_local-unreadable_example : (download_file_with_device deps_kept args fetching).0 ≢ ok whole
unfolding program
keep_local-unreadable_example =
    keep_local-unreadable deps_kept codec config memory-IsLawful (one_json-IsLawful kept) (str "/f")
      entry daemon settled refl refl answered args fetching refl refl whole

abbrev stub : StubMeta
stub = for_upload (str "hhello") 5 2 (str "p") (str "g")

parse_stub-to_stub_string_run : parse_stub (to_stub_string stub) ≡ ok stub
parse_stub-to_stub_string_run =
    parse_stub-to_stub_string stub (ground arith) (ground arith) (omega arith) (omega arith)

abbrev stubbed : Disk
stubbed = record disk {
  files = (str "/g.tc", record { content = to_stub_string stub; modified = some 7 }) ∷ [];
}

hydrate-waits_example :
    hydrate deps_kept codec config (str "/g.tc") (record daemon { disk = stubbed }) ≡ none
unfolding program to_stub_string to_string digits
hydrate-waits_example =
    hydrate-waits deps_kept codec config (str "/g") (str "hhello") (str "p") (str "g") 5 2
      (record daemon { disk = stubbed }) refl (ground arith) (ground arith) (omega arith)
      (omega arith) refl refl refl
