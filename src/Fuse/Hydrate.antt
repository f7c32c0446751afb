-- ===== src/Fuse/Hydrate.antt =====
-- crates/tcfs-fuse/src/hydrate.rs: the content of a file, put together from its chunks.
pub mod Manifests
pub mod Caching
use tummycrypt.Prelude.{Option, none, some, List, [], ◌∷◌, ◌++◌, Str, if◌then◌else◌}
use tummycrypt.Prelude.Text.Lines.{is_empty}
use tummycrypt.Prelude.Text.Utf8.{is_utf8}
use tummycrypt.Fallible.{
  Result, ok, err, reading_manifest, manifest_not_utf8, manifest_is_empty, downloading_chunk,
}
use tummycrypt.Exec.{pure, lift, gets, context, ◌>>=◌, ◌>>◌}
use tummycrypt.Remote.{chunk_key}
use tummycrypt.Manifest.{text_chunks}
use tummycrypt.Engine.Tree.{remote_path_prefix}
use tummycrypt.Fuse.Cache
use tummycrypt.Fuse.Cache.{DiskCache, cache_key_for_path}
use tummycrypt.Fuse.Mount.{Storage, Mount, Run, ask}

module _ (S : Storage) where
  open S use {op, read_dir}

  -- The loop over the chunk hashes.
  unfoldable pub fetch_all : Str → List Str → Run S Str
  fetch_all prefix [] = pure []
  fetch_all prefix (hash ∷ hashes) = do
    chunk ← context downloading_chunk (ask S (op.read (chunk_key prefix hash)))
    rest ← fetch_all prefix hashes
    pure (chunk ++ rest)

  -- Every line of the manifest that is not empty is taken for a chunk hash.
  unfoldable pub fetch_content : Str → Str → Run S Str
  fetch_content manifest_path remote_prefix = do
    bytes ← context reading_manifest (ask S (op.read manifest_path))
    text ← lift (if is_utf8 bytes then ok bytes else err manifest_not_utf8)
    hashes ←
        lift (if is_empty (text_chunks text) then err manifest_is_empty else ok (text_chunks text))
    fetch_all (remote_path_prefix remote_prefix) hashes

  -- `cache.put`, whose failure is passed over.
  unfoldable pub keep_content : DiskCache → Str → Str → Run S (Unit {0})
  keep_content c key content s =
      (ok tt, record s { disk = (Cache.put read_dir c s.disk key content).1 })

  -- What follows a look into the cache.
  unfoldable pub on_cached : DiskCache → Str → Str → Option Str → Run S Str
  on_cached c manifest_path remote_prefix (some content) = pure content
  on_cached c manifest_path remote_prefix none = do
    content ← fetch_content manifest_path remote_prefix
    keep_content c (cache_key_for_path manifest_path) content
    pure content

  unfoldable pub fetch_cached : DiskCache → Str → Str → Run S Str
  fetch_cached c manifest_path remote_prefix = do
    hit ← gets (λ s. Cache.get c s.disk (cache_key_for_path manifest_path))
    on_cached c manifest_path remote_prefix hit
