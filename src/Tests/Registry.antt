-- ===== src/Tests/Registry.antt =====
-- Backends of the state cache, the device registry, absent paths, and secrets.
use tummycrypt.Prelude.{
  ◌≡◌, ◌↔◌, refl, true, false, none, some, List, [], ◌∷◌, ◌++◌, Str, str, ◌==◌, eq_iff, eq_refl,
  All, arith,
}
use tummycrypt.Prelude.Dict.{Dict, lookup, insert, erase, lookup-insert, lookup-erase}
use tummycrypt.Conflict.{new}
use tummycrypt.Disk.{Disk}
use tummycrypt.State.{SyncState, Iteration, fresh, path_key}
use tummycrypt.State.Rocks.{Database, IsReliable}
use tummycrypt.State.Backend
use tummycrypt.State.Backend.{
  StateBackend, json, rocks, Change, setting, removing, apply, set, remove, entries,
}
use tummycrypt.State.Backend.Agreement.{
  Gives, IsFoundIn, apply-agrees, IsMirrored, apply-IsMirrored,
}
use tummycrypt.Devices.{
  DeviceIdentity, DeviceRegistry, active_devices, revoke, find_device, find_by_id, enroll, enrolled,
}
use tummycrypt.Devices.Revoking.{find_device-revoke, find_by_id-enroll}
use tummycrypt.Fuse.NegativeCache.{NegativeCache, inserts, is_negative, step, is_negative-step}
use tummycrypt.Sops.{SopsEntry, compute, has_changes, IsSame, is_local, has_changes-compute_iff}

program : Unit {0}
unfolding lookup insert erase ◌==◌ path_key revoke find_device find_by_id enroll active_devices
program = tt

-- A database in memory that writes the hash for the entry.
abbrev database : Database
database = record {
  State = Dict Str;
  put = λ k v s. insert k v s;
  delete = λ k s. erase k s;
  print = λ s. some s.blake3;
}

database-IsReliable : IsReliable database
database-IsReliable = record {
  value = λ s k. lookup k s;
  value-put_self = λ k v s. ground (arith, lookup-insert k k v s, eq_refl k);
  value-put_ne = λ k v j s apart. ground (arith, lookup-insert k j v s, eq_iff k j);
  value-delete_self = λ k s. ground (arith, lookup-erase k k s, eq_refl k);
  value-delete_ne = λ k j s apart. ground (arith, lookup-erase k j s, eq_iff k j);
  prints = λ s. (s.blake3, refl);
}

abbrev disk : Disk
disk = record {
  files = [];
  refuses = λ _. false;
  hides = λ _. false;
  leaves = λ _. none;
  canonical = λ _. none;
  now = 9;
}

abbrev synced : SyncState
synced = record {
  blake3 = str "h";
  size = 5;
  mtime = 7;
  chunk_count = 2;
  remote_path = str "p/manifests/h";
  last_synced = 9;
  vclock = new;
  device_id = [];
}

abbrev changes : List Change
changes = setting (str "/a") synced ∷ setting (str "/b") synced ∷ removing (str "/a") ∷ []

abbrev on_rocks : StateBackend database
on_rocks = rocks (record { db = []; entries = []; device_id = []; last_nats_seq = 0 })

abbrev on_json : StateBackend database
on_json = json (fresh (str "s.json") [])

-- One map gives its entries in the order in which they came, the other backwards.
abbrev backwards : Iteration
backwards [] = []
backwards (e ∷ es) = backwards es ++ (e ∷ [])

abbrev one_entry : List (Str × SyncState)
one_entry = (str "/b", synced) ∷ []

one_entry-Gives : Gives one_entry one_entry
unfolding program
one_entry-Gives = record {
  given_there = (refl, tt);
  there_given = λ k s e. ([], [], ground (arith, eq_iff (str "/b") k));
}

apply-agrees_example :
    (Backend.get disk (apply disk on_json changes) (str "/b")
      ≡ Backend.get disk (apply disk on_rocks changes) (str "/b"))
    × (Backend.needs_sync (λ s. s) disk (apply disk on_json changes) (str "/b")
        ≡ Backend.needs_sync (λ s. s) disk (apply disk on_rocks changes) (str "/b"))
    × ((Backend.get_by_rel_path (λ m. m) (apply disk on_json changes) (str "manifests/h") ≡ none)
        ↔ (Backend.get_by_rel_path backwards (apply disk on_rocks changes) (str "manifests/h")
            ≡ none))
    × IsFoundIn
        (str "manifests/h")
        (entries (apply disk on_rocks changes))
        (Backend.get_by_rel_path (λ m. m) (apply disk on_json changes) (str "manifests/h"))
unfolding program apply set remove tummycrypt.State.set tummycrypt.State.remove
    tummycrypt.State.Rocks.set tummycrypt.State.Rocks.remove
apply-agrees_example =
    apply-agrees disk (λ s. s) on_json on_rocks changes (λ m. m) backwards (str "/b")
      (str "manifests/h") (λ k. refl) one_entry-Gives one_entry-Gives

start-IsMirrored : IsMirrored disk database-IsReliable on_rocks
unfolding lookup database-IsReliable
start-IsMirrored k = refl

apply-IsMirrored_run : IsMirrored disk database-IsReliable (apply disk on_rocks changes)
apply-IsMirrored_run = apply-IsMirrored disk database-IsReliable on_rocks changes start-IsMirrored

abbrev laptop : DeviceIdentity
laptop = enrolled (λ s. s) (str "id1") 3 (str "laptop") (str "key") none

abbrev registry : DeviceRegistry
registry = laptop ∷ []

find_device-revoke_run :
    ((revoke registry (str "laptop")).0 ≡ true)
    × (find_device (revoke registry (str "laptop")).1 (str "laptop")
        ≡ some (record laptop { revoked = true }))
unfolding program
find_device-revoke_run = find_device-revoke registry (str "laptop") (str "laptop")

find_by_id-enroll_run :
    (find_by_id (enroll (λ s. s) (str "id2") 4 registry (str "phone") (str "k2") none).1 (str "id2")
      ≡ some (enrolled (λ s. s) (str "id2") 4 (str "phone") (str "k2") none))
    × ((other : Str) (d : DeviceIdentity)
        → find_device registry other ≡ some d
        → find_device (enroll (λ s. s) (str "id2") 4 registry (str "phone") (str "k2") none).1 other
          ≡ some d)
    × (active_devices (enroll (λ s. s) (str "id2") 4 registry (str "phone") (str "k2") none).1
        ≡ active_devices registry
          ++ (enrolled (λ s. s) (str "id2") 4 (str "phone") (str "k2") none ∷ []))
unfolding find_by_id ◌==◌
find_by_id-enroll_run =
    find_by_id-enroll (λ s. s) (str "id2") 4 registry (str "phone") (str "k2") none refl

abbrev absent : NegativeCache
absent = record { entries = (str "/a", 3) ∷ []; ttl = 30 }

is_negative-step_run : is_negative 5 (step 5 absent (inserts (str "/b"))) (str "/b") ≡ true
unfolding ◌==◌ lookup
is_negative-step_run = is_negative-step 5 absent (inserts (str "/b")) (str "/b") (refl, tt)

abbrev secret : SopsEntry
secret = record {
  relative_path = str "a.yaml";
  blake3_hash = str "h";
  machine_id = str "m";
  size_bytes = 2;
}

has_changes-compute_iff_run :
    (has_changes (compute (secret ∷ []) []) ≡ false)
    ↔ (All (IsSame []) (secret ∷ []) × All (λ r. is_local (secret ∷ []) r ≡ true) [])
has_changes-compute_iff_run = has_changes-compute_iff (secret ∷ []) []
