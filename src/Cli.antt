-- ===== src/Cli.antt =====
-- crates/tcfs-cli/src/main.rs: the commands that change files and the registry of devices, and what
-- they read from the configuration and the environment.
pub mod Unsync
pub mod Identity
use tummycrypt.Prelude.{Option, none, some, List, [], ◌∷◌, ◌++◌, Str, str}
use tummycrypt.Prelude.Text.FilePath.{with_extension}
use tummycrypt.Prelude.Text.Trim.{strip_prefix}
use tummycrypt.Fallible.{Result, ok, err}
use tummycrypt.Disk.{Disk}
use tummycrypt.Config.{TcfsConfig, SyncConfig}
use tummycrypt.Devices.{DeviceRegistry, DeviceIdentity, find_device}
use tummycrypt.Devices.Store.{RegistryJson, load}

-- `HOME` and `USERPROFILE`, and what `default_device_name` and `default_registry_path` find out.
pub record Environment : Type 0 where
  pub home : Option Str
  pub user_profile : Option Str
  pub device_name : Str
  pub registry_path : Str

-- `or_else(…).unwrap_or_default()`
abbrev pub home_of : Option Str → Option Str → Str
home_of (some home) other = home
home_of none (some profile) = profile
home_of none none = []

-- On a path that is UTF-8.
unfoldable pub expand_tilde : Environment → Str → Str
expand_tilde env path = elim (strip_prefix (str "~/") path) [
  | some rest ↦ home_of env.home env.user_profile ++ (b'/' ∷ rest)
  | none ↦ path
]

unfoldable pub resolve_state_path : Environment → TcfsConfig → Option Str → Str
unfolding expand_tilde
resolve_state_path env config (some p) = p
resolve_state_path env config none =
    with_extension (expand_tilde env config.sync.state_db) (str "json")

abbrev pub unwrap_or : Option Str → Str → Str
unwrap_or (some s) other = s
unwrap_or none other = other

abbrev pub id_or_default : Option DeviceIdentity → Str
id_or_default (some device) = device.device_id
id_or_default none = []

-- A registry that cannot be loaded gives no identifier.
unfoldable pub load_device_id : RegistryJson → Environment → TcfsConfig → Disk → Str
unfolding load
load_device_id J env config d =
    let device_name = unwrap_or config.sync.device_name env.device_name in
    let registry_path = unwrap_or config.sync.device_identity env.registry_path in
    elim (load J d registry_path) [
      | ok registry ↦ id_or_default (find_device registry device_name)
      | err _ ↦ []
    ]
