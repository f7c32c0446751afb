-- ===== src/Config.antt =====
-- crates/tcfs-core/src/config.rs: the configuration, and what stands in for a part that the file
-- does not give.
use tummycrypt.Prelude.{ℕ, Bool, false, Option, none, some, List, [], Str, str}

pub record DaemonConfig : Type 0 where
  pub socket : Str
  pub listen : Option Str
  pub metrics_addr : Option Str
  pub log_level : Str
  pub log_format : Str

pub record StorageConfig : Type 0 where
  pub endpoint : Str
  pub region : Str
  pub bucket : Str
  pub credentials_file : Option Str
  pub enforce_tls : Bool
  pub ca_cert_path : Option Str

pub record SecretsConfig : Type 0 where
  pub age_identity : Option Str
  pub kdbx_path : Option Str
  pub sops_dir : Option Str

pub record SyncConfig : Type 0 where
  pub nats_url : Str
  pub nats_tls : Bool
  pub nats_ca_cert : Option Str
  pub state_db : Str
  pub workers : ℕ
  pub max_retries : ℕ
  pub device_identity : Option Str
  pub device_name : Option Str
  pub conflict_mode : Str
  pub sync_git_dirs : Bool
  pub git_sync_mode : Str
  pub sync_hidden_dirs : Bool
  pub exclude_patterns : List Str
  pub sync_root : Option Str

pub record FuseConfig : Type 0 where
  pub negative_cache_ttl_secs : ℕ
  pub cache_dir : Str
  pub cache_max_mb : ℕ

pub record CryptoConfig : Type 0 where
  pub enabled : Bool
  pub argon2_mem_cost_kib : ℕ
  pub argon2_time_cost : ℕ
  pub argon2_parallelism : ℕ
  pub master_key_file : Option Str
  pub device_identity : Option Str

pub record SopsConfig : Type 0 where
  pub enabled : Bool
  pub sops_dir : Str
  pub sync_prefix : Str
  pub machine_id : Option Str
  pub backup_dir : Str
  pub watch : Bool

pub record TcfsConfig : Type 0 where
  pub daemon : DaemonConfig
  pub storage : StorageConfig
  pub secrets : SecretsConfig
  pub sync : SyncConfig
  pub fuse : FuseConfig
  pub crypto : CryptoConfig
  pub sops : SopsConfig
  pub config_file_mode_check : Bool

abbrev pub default_daemon : DaemonConfig
default_daemon = record {
  socket = str "/run/tcfsd/tcfsd.sock";
  listen = none;
  metrics_addr = some (str "127.0.0.1:9100");
  log_level = str "info";
  log_format = str "json";
}

abbrev pub default_storage : StorageConfig
default_storage = record {
  endpoint = str "http://localhost:8333";
  region = str "us-east-1";
  bucket = str "tcfs";
  credentials_file = none;
  enforce_tls = false;
  ca_cert_path = none;
}

abbrev pub default_secrets : SecretsConfig
default_secrets = record { age_identity = none; kdbx_path = none; sops_dir = none }

abbrev pub default_sync : SyncConfig
default_sync = record {
  nats_url = str "nats://localhost:4222";
  nats_tls = false;
  nats_ca_cert = none;
  state_db = str "~/.local/share/tcfsd/state.db";
  workers = 0;
  max_retries = 3;
  device_identity = none;
  device_name = none;
  conflict_mode = str "auto";
  sync_git_dirs = false;
  git_sync_mode = str "bundle";
  sync_hidden_dirs = false;
  exclude_patterns = [];
  sync_root = none;
}

abbrev pub default_fuse : FuseConfig
default_fuse = record {
  negative_cache_ttl_secs = 30;
  cache_dir = str "~/.cache/tcfs";
  cache_max_mb = 10240;
}

abbrev pub default_crypto : CryptoConfig
default_crypto = record {
  enabled = false;
  argon2_mem_cost_kib = 65536;
  argon2_time_cost = 3;
  argon2_parallelism = 4;
  master_key_file = none;
  device_identity = none;
}

abbrev pub default_sops : SopsConfig
default_sops = record {
  enabled = false;
  sops_dir = str "~/.config/sops/age";
  sync_prefix = str "sops-sync";
  machine_id = none;
  backup_dir = str "~/.local/share/tcfs/sops-backups";
  watch = false;
}

-- `TcfsConfig::default()`: the derived value of the last field is `false`.
abbrev pub default_tcfs_config : TcfsConfig
default_tcfs_config = record {
  daemon = default_daemon;
  storage = default_storage;
  secrets = default_secrets;
  sync = default_sync;
  fuse = default_fuse;
  crypto = default_crypto;
  sops = default_sops;
  config_file_mode_check = false;
}
