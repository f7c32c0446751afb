-- ===== src/Engine.antt =====
-- crates/tcfs-sync/src/engine.rs: what uploads and downloads share. The other parts are below:
-- `Upload`, `Download`, and the proofs about them.
pub mod Upload
pub mod Download
pub mod Consistency
pub mod Integrity
pub mod Reading
pub mod Legacy
pub mod Marked
pub mod Conflicts
pub mod Restore
pub mod Collect
pub mod Tree
use tummycrypt.Prelude.{ℕ, Bool, Option, none, some, List, Str}
use tummycrypt.Disk.{Disk}
use tummycrypt.Chunks.{Blake3, FastCdc}
use tummycrypt.Crypto.{Aead}
use tummycrypt.Manifest.{ManifestJson}
use tummycrypt.Conflict.{SyncOutcome}
use tummycrypt.State.{StateCache}
use tummycrypt.Remote.{Operator}

-- `base64::engine::general_purpose::STANDARD`
pub record Base64 : Type 0 where
  pub encode : Str → Str
  pub decode : Str → Option Str

-- The crates that the engine calls, and the object store.
pub record Deps : Type 1 where
  pub op : Operator
  pub blake3 : Blake3
  pub cdc : FastCdc
  pub json : ManifestJson
  pub aead : Aead
  pub base64 : Base64

-- What the random generator draws for one upload.
pub record Draws : Type 0 where
  pub file_key : Str
  pub chunk_nonce : ℕ → Str
  pub wrap_nonce : Str

pub record UploadResult : Type 0 where
  pub path : Str
  pub remote_path : Str
  pub hash : Str
  pub chunks : ℕ
  pub bytes : ℕ
  pub skipped : Bool
  pub outcome : Option SyncOutcome

pub record DownloadResult : Type 0 where
  pub remote_path : Str
  pub local_path : Str
  pub bytes : ℕ

-- What an upload changes: the store and the state cache.
pub record Session (O : Operator) : Type 0 where
  pub remote : O.State
  pub cache : StateCache

-- The arguments of an upload, with the disk and the draws it meets. `encryption` is the master
-- key, if there is one.
pub record UploadArgs : Type 0 where
  pub disk : Disk
  pub local_path : Str
  pub remote_prefix : Str
  pub device_id : Str
  pub rel_path : Option Str
  pub encryption : Option Str
  pub draws : Draws
