-- ===== src/State/Backend.antt =====
-- crates/tcfs-sync/src/state.rs, `StateBackend`: the choice between the JSON cache and RocksDB.
pub mod Agreement
use tummycrypt.Prelude.{
  ℕ, ◌≡◌, refl, Bool, true, false, Option, none, some, List, [], ◌∷◌, Str, arith, length, ap, ◌≢◌,
  Bool-cases, inl, inr, eq_iff, eq_refl, ◌==◌, ◌∙◌, sym,
}
use tummycrypt.Prelude.Dict.{Dict, lookup, insert, erase, lookup-insert, lookup-erase}
use tummycrypt.Prelude.Text.Lines
use tummycrypt.Fallible.{Result, ok, err}
use tummycrypt.Disk.{Disk}
use tummycrypt.State
use tummycrypt.State.{SyncState, StateCache, StateJson, Iteration, Hasher, Reason, path_key}
use tummycrypt.State.Rocks
use tummycrypt.State.Rocks.{Database, RocksDbStateCache}

pub data StateBackend (B : Database) : Type 0 where
  json : StateCache → StateBackend B
  rocks : RocksDbStateCache B → StateBackend B

-- A change of the cache through the trait: a new state at a path, or a removal.
pub data Change : Type 0 where
  setting : Str → SyncState → Change
  removing : Str → Change

module _ {B : Database} where
  abbrev pub device_id : StateBackend B → Str
  device_id (json c) = c.device_id
  device_id (rocks c) = c.device_id

  abbrev pub set_device_id : StateBackend B → Str → StateBackend B
  set_device_id (json c) id = json (record c { device_id = id })
  set_device_id (rocks c) id = rocks (record c { device_id = id })

  abbrev pub last_nats_seq : StateBackend B → ℕ
  last_nats_seq (json c) = c.last_nats_seq
  last_nats_seq (rocks c) = c.last_nats_seq

  abbrev pub set_last_nats_seq : StateBackend B → ℕ → StateBackend B
  set_last_nats_seq (json c) seq = json (record c { last_nats_seq = seq })
  set_last_nats_seq (rocks c) seq = rocks (record c { last_nats_seq = seq })

  unfoldable pub get : Disk → StateBackend B → Str → Option SyncState
  get d (json c) path = State.get d c path
  get d (rocks c) path = Rocks.get d c path

  unfoldable pub set : Disk → StateBackend B → Str → SyncState → StateBackend B
  set d (json c) path state = json (State.set d c path state)
  set d (rocks c) path state = rocks (Rocks.set d c path state)

  unfoldable pub remove : Disk → StateBackend B → Str → StateBackend B
  remove d (json c) path = json (State.remove d c path)
  remove d (rocks c) path = rocks (Rocks.remove d c path)

  unfoldable pub flush :
      StateJson → StateBackend B → Disk → Result (Unit {0}) × StateBackend B × Disk
  flush J (json c) d = let f = State.flush J c d in (f.0, json f.1, f.2)
  flush J (rocks c) d = let f = Rocks.flush c in (f.0, rocks f.1, d)

  abbrev pub entries : StateBackend B → Dict SyncState
  entries (json c) = c.entries
  entries (rocks c) = c.entries

  -- The entries in the order in which the map gives them.
  abbrev pub all_entries : Iteration → StateBackend B → List (Str × SyncState)
  all_entries iter (json c) = iter c.entries
  all_entries iter (rocks c) = iter c.entries

  unfoldable pub get_by_rel_path : Iteration → StateBackend B → Str → Option (Str × SyncState)
  get_by_rel_path iter (json c) rel_path = State.get_by_rel_path iter c.entries rel_path
  get_by_rel_path iter (rocks c) rel_path = State.get_by_rel_path iter c.entries rel_path

  unfoldable pub needs_sync : Hasher → Disk → StateBackend B → Str → Result (Option Reason)
  needs_sync hash_hex d (json c) path = State.needs_sync hash_hex d c path
  needs_sync hash_hex d (rocks c) path = Rocks.needs_sync hash_hex d c path

  abbrev pub len : StateBackend B → ℕ
  len (json c) = State.len c
  len (rocks c) = Rocks.len c

  abbrev pub is_empty : StateBackend B → Bool
  is_empty (json c) = Lines.is_empty c.entries
  is_empty (rocks c) = Lines.is_empty c.entries

  unfoldable pub apply : Disk → StateBackend B → List Change → StateBackend B
  apply d b [] = b
  apply d b (setting path state ∷ changes) = apply d (set d b path state) changes
  apply d b (removing path ∷ changes) = apply d (remove d b path) changes
