-- ===== src/Cli/Identity.antt =====
-- crates/tcfs-cli/src/main.rs, `cmd_init`, `cmd_device_enroll` and `cmd_device_revoke`: the registry
-- of devices in its file. What is drawn, asked of the user and computed by the cipher is a parameter.
pub mod Enrolling
pub mod Revoking
use tummycrypt.Prelude.{
  ℕ, Bool, true, false, Option, none, some, List, [], ◌∷◌, ◌++◌, Str, str, ◌==◌, if◌then◌else◌,
  take,
}
use tummycrypt.Prelude.Dict.{has}
use tummycrypt.Fallible.{
  Result, ok, err, or_err, already_enrolled, no_such_device, no_password, passphrases_differ,
}
use tummycrypt.Exec.{Exec, pure, lift, gets, ◌>>=◌, ◌>>◌}
use tummycrypt.Disk.{Disk}
use tummycrypt.Devices.{DeviceRegistry, enroll, revoke, find_device}
use tummycrypt.Devices.Store.{RegistryJson, load, save}
use tummycrypt.Cli.{Environment, unwrap_or}

-- The identifier that an enrollment draws, the time, and the hash.
pub record Enrollment : Type 0 where
  pub hash_hex : Str → Str
  pub uuid : Str

-- What `init` meets: the answers to its two prompts, the mnemonic with its key, the key that is
-- derived from a passphrase, and the file key wrapped under it.
pub record Setup : Type 0 where
  pub prompt : Result Str
  pub confirmation : Result Str
  pub mnemonic : Result (Str × Str)
  pub derive_master_key : Str → Result Str
  pub wrap_file_key : Str → Result Str

abbrev pub ensure_found : Bool → Result (Unit {0})
ensure_found true = ok tt
ensure_found false = err no_such_device

module _ (J : RegistryJson) (env : Environment) (draw : Enrollment) where
  abbrev pub Run : Type 0 → Type 0
  Run A = Exec Disk A

  abbrev pub load_registry : Run DeviceRegistry
  load_registry d = (load J d env.registry_path, d)

  abbrev pub short_hash : Str → Str
  short_hash name = take 8 (draw.hash_hex name)

  -- The device is added and the registry saved; the identifier is the answer.
  unfoldable pub enroll_and_save : DeviceRegistry → Str → Run Str
  enroll_and_save registry name d =
      let added =
        enroll draw.hash_hex draw.uuid d.now registry name (str "age1-device-" ++ short_hash name)
          none in
      let saved = save J added.1 env.registry_path d in
      elim saved.0 [ ok _ ↦ (ok added.0, saved.1) | err e ↦ (err e, saved.1) ]

  unfoldable pub ensure_new : DeviceRegistry → Str → Result (Unit {0})
  ensure_new registry name = if has (find_device registry name) then err already_enrolled else ok tt

  unfoldable pub cmd_device_enroll : Option Str → Run Str
  cmd_device_enroll name = do
    registry ← load_registry
    _ ← lift (ensure_new registry (unwrap_or name env.device_name))
    enroll_and_save registry (unwrap_or name env.device_name)

  unfoldable pub cmd_device_revoke : Str → Run (Unit {0})
  cmd_device_revoke name = do
    registry ← load_registry
    _ ← lift (ensure_found (revoke registry name).0)
    save J (revoke registry name).1 env.registry_path

  module _ (setup : Setup) where
    unfoldable pub passphrase : Bool → Option Str → Result Str
    passphrase true password = or_err no_password password
    passphrase false password = elim setup.prompt [
      | err e ↦ err e
      | ok p ↦ elim setup.confirmation [
        | err e ↦ err e
        | ok confirm ↦ if p == confirm then ok p else err passphrases_differ
      ]
    ]

    -- The phrase that is shown to the user, and the identifier.
    unfoldable pub cmd_init : Option Str → Bool → Option Str → Run (Str × Str)
    cmd_init name non_interactive password = do
      first ← load_registry
      _ ← lift (ensure_new first (unwrap_or name env.device_name))
      p ← lift (passphrase non_interactive password)
      generated ← lift setup.mnemonic
      master_key ← lift (setup.derive_master_key p)
      wrapped ← lift (setup.wrap_file_key master_key)
      registry ← load_registry
      device_id ← enroll_and_save registry (unwrap_or name env.device_name)
      pure (generated.0, device_id)
