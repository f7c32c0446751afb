-- ===== src/Devices/Store.antt =====
-- crates/tcfs-secrets/src/device.rs: the registry in a file and in the object store. `serde_json`
-- and the kinds of the store's errors are parameters.
pub mod Sharing
use tummycrypt.Prelude.{
  ℕ, ◌≡◌, Bool, true, false, Option, none, some, List, [], ◌∷◌, ◌++◌, Str, str, if◌then◌else◌, take,
}
use tummycrypt.Prelude.Text.FilePath.{parent}
use tummycrypt.Prelude.Text.Utf8.{is_utf8}
use tummycrypt.Fallible.{
  Result, ok, err, Error, or_err, ◌>>=◌, parsing_registry, serializing_registry, registry_not_utf8,
  reading_registry, writing_registry,
}
use tummycrypt.Disk
use tummycrypt.Disk.{Disk}
use tummycrypt.Remote.{Operator}
use tummycrypt.Engine.Tree.{remote_path_prefix}
use tummycrypt.Devices.{DeviceRegistry, enroll}

-- `serde_json` at the registry.
pub record RegistryJson : Type 0 where
  pub parse : Str → Option DeviceRegistry
  pub print : DeviceRegistry → Option Str

-- What is printed is UTF-8 and is read back.
pub record IsLawful (J : RegistryJson) : Type 0 where
  pub print-is_utf8 : (r : DeviceRegistry) (s : Str) → J.print r ≡ some s → is_utf8 s ≡ true
  pub parse-print : (r : DeviceRegistry) (s : Str) → J.print r ≡ some s → J.parse s ≡ some r

-- `{meta_prefix}/tcfs-meta/devices.json`
abbrev pub registry_key : Str → Str
registry_key meta_prefix = remote_path_prefix meta_prefix ++ str "/tcfs-meta/devices.json"

module _ (J : RegistryJson) where
  unfoldable pub load : Disk → Str → Result DeviceRegistry
  load d path =
      if Disk.exists d path
      then (Disk.read_to_string d path >>= λ content. or_err parsing_registry (J.parse content))
      else ok []

  unfoldable pub save : DeviceRegistry → Str → Disk → Result (Unit {0}) × Disk
  save r path d = elim (Disk.create_dir_all d (parent path)) [
    | err e ↦ (err e, d)
    | ok _ ↦ elim (J.print r) [
      | none ↦ (err serializing_registry, d)
      | some json ↦ Disk.write d path json
    ]
  ]

  -- The answer to the request for the object; `is_not_found` tells `ErrorKind::NotFound`.
  unfoldable pub on_answer : (Error → Bool) → Result Str → Result DeviceRegistry
  on_answer is_not_found (ok bytes) =
      or_err registry_not_utf8 (if is_utf8 bytes then some bytes else none) >>= λ content.
      or_err parsing_registry (J.parse content)
  on_answer is_not_found (err e) = if is_not_found e then ok [] else err reading_registry

  module _ (O : Operator) where
    unfoldable pub load_remote : (Error → Bool) → Str → O.State → Result DeviceRegistry × O.State
    load_remote is_not_found meta_prefix s =
        let run = O.read (registry_key meta_prefix) s in (on_answer is_not_found run.0, run.1)

    unfoldable pub sync_to_remote : DeviceRegistry → Str → O.State → Result (Unit {0}) × O.State
    sync_to_remote r meta_prefix s = elim (J.print r) [
      | none ↦ (err serializing_registry, s)
      | some json ↦
          let run = O.write (registry_key meta_prefix) json s in
          (elim run.0 [ ok _ ↦ ok tt | err _ ↦ err writing_registry ], run.1)
    ]

    abbrev pub device_key : (Str → Str) → Str → Str
    device_key hash_hex name = str "age1-device-" ++ take 8 (hash_hex name)

    -- The registry keeps the device where the store is not reached.
    unfoldable pub enroll_remote :
        (Str → Str)
        → Str
        → ℕ
        → DeviceRegistry
        → Str
        → Str
        → O.State
        → Result Str × DeviceRegistry × O.State
    enroll_remote hash_hex uuid now r name meta_prefix s =
        let added = enroll hash_hex uuid now r name (device_key hash_hex name) none in
        let run = sync_to_remote added.1 meta_prefix s in
        (elim run.0 [ ok _ ↦ ok added.0 | err e ↦ err e ], added.1, run.1)
