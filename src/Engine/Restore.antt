-- ===== src/Engine/Restore.antt =====
-- When the files of a store can be had back: every manifest opens, its chunks decode, and what
-- they give has the hash under which the manifest stands.
pub mod Written
pub mod Kept
pub mod Fetched
pub mod History
use tummycrypt.Prelude.{ℕ, suc, ◌≡◌, ◌≢◌, Option, none, some, List, [], ◌∷◌, ◌++◌, Str, length}
use tummycrypt.Fallible.{ok}
use tummycrypt.Chunks.{hash_hex, IsHexLawful, IsTiling}
use tummycrypt.Crypto
use tummycrypt.Manifest
use tummycrypt.Manifest.{SyncManifest, from_bytes}
use tummycrypt.Remote.{IsLawful, manifest_key, chunk_key}
use tummycrypt.Engine.{Deps, UploadArgs}
use tummycrypt.Engine.Download.{DownloadArgs, decryption_keys, decode_chunk}

-- What the crates promise: codecs and ciphers that undo themselves, chunks that tile, and a hash
-- without collisions.
pub record IsSound (D : Deps) : Type 0 where
  pub json : Manifest.IsLawful D.json
  pub hex : IsHexLawful D.blake3
  pub tiling : IsTiling D.cdc
  pub aead : Crypto.IsLawful D.aead
  pub decode-encode : (w : Str) → D.base64.decode (D.base64.encode w) ≡ some w
  pub collision_free : (a b : Str) → hash_hex D.blake3 a ≡ hash_hex D.blake3 b → a ≡ b

-- A download of the object `remote_manifest` to `local_path`.
abbrev pub reader : Str → Option Str → Str → Str → Str → DownloadArgs
reader prefix master remote_manifest local_path device_id = record {
  remote_manifest = remote_manifest;
  local_path = local_path;
  remote_prefix = prefix;
  device_id = device_id;
  encryption = master;
}

module _ (D : Deps) (L : IsLawful D.op) (prefix : Str) (master : Option Str) where
  open D use {op, blake3, json}

  -- Uploads under this master key, or without one, with nonces and keys of the right lengths.
  pub record IsUpload (args : UploadArgs) : Type 0 where
    pub same_prefix : args.remote_prefix ≡ prefix
    pub same_key : (key : Str) → args.encryption ≡ some key → master ≡ some key
    pub chunk_nonces : (i : ℕ) → length (args.draws.chunk_nonce i) ≡ 24
    pub wrap_nonce : length args.draws.wrap_nonce ≡ 24
    pub file_key : length args.draws.file_key ≡ 32

  -- The chunks of these hashes, decoded from index `i` and put together.
  abbrev pub Assembles : op.State → Option (Str × Str) → ℕ → List Str → Str → Type 0
  Assembles s keys i [] out = out ≡ []
  Assembles s keys i (h ∷ hashes) out =
      (stored : Str) × (plain : Str) × (rest : Str) × (L.object s (chunk_key prefix h)
        ≡ some stored)
      × (hash_hex blake3 stored ≡ h)
      × (decode_chunk D (reader prefix master [] [] []) keys i stored ≡ ok plain)
      × (out ≡ plain ++ rest)
      × Assembles s keys (suc i) hashes rest

  pub record Restorable (s : op.State) (h b : Str) : Type 0 where
    pub m : SyncManifest
    pub keys : Option (Str × Str)
    pub content : Str
    pub parsed : from_bytes json b ≡ ok m
    pub opened : decryption_keys D (reader prefix master [] [] []) m ≡ ok keys
    pub assembled : Assembles s keys 0 m.chunks content
    pub owned : m.file_hash ≡ h
    pub hashed : hash_hex blake3 content ≡ h

  -- Every manifest of the store gives back a file.
  abbrev pub IsRestorable : op.State → Type 0
  IsRestorable s = (h b : Str) → L.object s (manifest_key prefix h) ≡ some b → Restorable s h b
