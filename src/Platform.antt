-- ===== src/Platform.antt =====
-- The bindings for other systems, crates/tcfs-file-provider and crates/tcfs-cloudfilter: what both
-- do with the chunks of a file.
pub mod FileProvider
pub mod CloudFilter
use tummycrypt.Prelude.{List, [], ◌∷◌, ◌++◌, Str, ◌==◌, if◌then◌else◌}
use tummycrypt.Fallible.{Result, ok, err, downloading_chunk, chunk_integrity}
use tummycrypt.Exec.{Exec, pure, lift, context, ◌>>=◌}
use tummycrypt.Chunks.{hash_hex}
use tummycrypt.Remote.{Operator, chunk_key}
use tummycrypt.Engine.{Deps}

module _ (D : Deps) where
  open D use {op, blake3}

  -- A chunk must have the hash under which the manifest lists it.
  unfoldable pub verify_chunk : Str → Str → Result (Unit {0})
  verify_chunk hash stored = if hash_hex blake3 stored == hash then ok tt else err chunk_integrity

  -- The loop over the chunk hashes. What is stored is put together as it is.
  unfoldable pub fetch_verified : Str → List Str → Exec op.State Str
  fetch_verified prefix [] = pure []
  fetch_verified prefix (hash ∷ hashes) = do
    stored ← context downloading_chunk (op.read (chunk_key prefix hash))
    _ ← lift (verify_chunk hash stored)
    rest ← fetch_verified prefix hashes
    pure (stored ++ rest)
