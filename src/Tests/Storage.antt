-- ===== src/Tests/Storage.antt =====
-- The state cache, manifests, chunks and ciphers.
use native.Mathlib.Decide.{ℕ_discrete}
use tummycrypt.Prelude.{
  ℕ, ◌≡◌, ◌≢◌, refl, ◌↔◌, ◌⊎◌, true, false, none, some, [], ◌∷◌, ◌++◌, map, Str, str, ◌==◌, arith,
  All,
}
use tummycrypt.Prelude.Dict.{lookup, insert, erase}
use tummycrypt.Prelude.Text.FilePath.{parent, with_extension}
use tummycrypt.Prelude.Text.Lines.{lines}
use tummycrypt.Prelude.Text.Utf8.{is_utf8}
use tummycrypt.Fallible.{ok, err, manifest_is_empty, stat_failed}
use tummycrypt.Conflict.{new}
use tummycrypt.Disk
use tummycrypt.Disk.{Disk, File}
use tummycrypt.State
use tummycrypt.State.{
  SyncState, StateCache, fresh, open_cache, flush, path_key, get, set, remove, get_by_rel_path,
  needs_sync, new_file, size_changed, content_changed, make_sync_state_full,
}
use tummycrypt.State.Cache
use tummycrypt.State.Flush
use tummycrypt.State.Freshness
use tummycrypt.Manifest.{SyncManifest, legacy, from_bytes, to_bytes}
use tummycrypt.Manifest.Versions.{v1_text, from_bytes-to_bytes, from_bytes-v1_text}
use tummycrypt.Chunks.{Chunk, chunk_data, small}
use tummycrypt.Chunks.Tiling.{concat, chunk_bytes, concat-chunk_data, hash-chunk_data}
use tummycrypt.Crypto.{encrypt_chunk, decrypt_chunk, wrap_key, unwrap_key, build_aad}
use tummycrypt.Crypto.Laws
use tummycrypt.Tests.Codec.{
  manifest_discrete, entries_discrete, one_json, one_json-IsLawful, one_map, one_map-IsLawful,
  plain_hash, halves, halves-IsTiling, tag, tagged, tagged-IsLawful,
}

program : Unit {0}
unfolding open_cache flush get set remove get_by_rel_path needs_sync make_sync_state_full from_bytes
    to_bytes lookup insert erase ◌==◌ parent with_extension lines is_utf8 Disk.create_dir_all
    Disk.write Disk.rename manifest_discrete entries_discrete ℕ_discrete chunk_data
program = tt

-- One file, at a path that has no other name.
abbrev disk : Disk
disk = record {
  files = (str "/f", record { content = str "hello"; modified = some 7 }) ∷ [];
  refuses = λ _. false;
  hides = λ _. false;
  leaves = λ _. none;
  canonical = λ p. some p;
  now = 9;
}

abbrev synced : SyncState
synced = record {
  blake3 = str "hhello";
  size = 5;
  mtime = 7;
  chunk_count = 2;
  remote_path = str "p/manifests/hhello";
  last_synced = 9;
  vclock = new;
  device_id = [];
}

abbrev cache : StateCache
cache = record {
  db_path = str "/d/state.json";
  entries = (str "/f", synced) ∷ [];
  dirty = true;
  last_nats_seq = 0;
  device_id = [];
}

abbrev hasher : Str → Str
hasher s = b'h' ∷ s

stale :
    (needs_sync hasher disk (record cache { entries = [] }) (str "/f") ≡ ok (some new_file))
    × (needs_sync hasher disk cache (str "/f") ≡ ok none)
    × (needs_sync hasher disk
          (record cache { entries = (str "/f", record synced { size = 4 }) ∷ [] })
          (str "/f")
        ≡ ok (some (size_changed 4 5)))
    × (needs_sync hasher disk
          (record cache { entries = (str "/f", record synced { mtime = 1; blake3 = [] }) ∷ [] })
          (str "/f")
        ≡ ok (some content_changed))
    × (needs_sync hasher disk cache (str "/g") ≡ err (stat_failed (str "/g")))
unfolding program
stale = (refl, refl, refl, refl, refl)

get-set_run : get disk (set disk cache (str "/g") synced) (str "/f") ≡ some synced
unfolding program
get-set_run = Cache.get-set disk cache (str "/g") (str "/f") synced

get-remove_run :
    (get disk (remove disk cache (str "/f")) (str "/f") ≡ none)
    × (((remove disk cache (str "/f")).dirty ≡ true)
        ↔ ((cache.dirty ≡ true) ⊎ (get disk cache (str "/f") ≢ none)))
unfolding program
get-remove_run = Cache.get-remove disk cache (str "/f") (str "/f")

get_by_rel_path-found_run :
    get_by_rel_path (λ m. m) ((str "/f", synced) ∷ []) (str "manifests/hhello") ≢ none
get_by_rel_path-found_run =
    Cache.get_by_rel_path-found (λ m. m) ((str "/f", synced) ∷ []) [] (str "/f") (str "p")
      (str "manifests/hhello") synced [] refl refl

-- The map that is printed.
abbrev codec : State.StateJson
codec = one_map cache.entries

open_cache-flush_example :
    open_cache codec (flush codec cache disk).2 (str "/d/state.json")
    ≡ ok (fresh (str "/d/state.json") cache.entries)
unfolding program
open_cache-flush_example =
    Flush.open_cache-flush codec cache disk (one_map-IsLawful cache.entries) refl refl

abbrev read_only : Disk
read_only = record disk { refuses = λ p. p == str "/d/state.json" }

tmp_apart : str "/d/state.tmp" ≢ str "/d/state.json"
tmp_apart e = cc e

flush_failed_run :
    (lookup (str "/d/state.json") (flush codec cache read_only).2.files
      ≡ lookup (str "/d/state.json") disk.files)
    × ((flush codec cache read_only).1 ≡ cache)
    × (cache.dirty ≡ true)
unfolding program
flush_failed_run = Flush.flush_failed codec cache read_only tmp_apart (λ e. cc e)

flush_twice_run :
    flush codec (flush codec cache disk).1 (flush codec cache disk).2
    ≡ (ok tt, (flush codec cache disk).1, (flush codec cache disk).2)
unfolding program
flush_twice_run = Flush.flush_twice codec cache disk refl

needs_sync-none_iff_example :
    (needs_sync hasher disk cache (str "/f") ≡ ok none)
    ↔ Freshness.IsUnchanged hasher disk cache (str "/f")
needs_sync-none_iff_example = Freshness.needs_sync-none_iff hasher disk cache (str "/f")

needs_sync-set_run : needs_sync hasher disk (set disk cache (str "/f") synced) (str "/f") ≡ ok none
unfolding program
needs_sync-set_run =
    Freshness.needs_sync-set hasher disk cache (str "/f") (str "hhello") (str "p/manifests/hhello")
      [] 2 new refl

abbrev sample : SyncManifest
sample = record (legacy (str "c" ∷ [])) { version = 2 }

from_bytes-to_bytes_run : from_bytes (one_json sample) (str "{") ≡ ok sample
unfolding program
from_bytes-to_bytes_run =
    from_bytes-to_bytes (one_json sample) (one_json-IsLawful sample) sample refl

from_bytes-v1_text_run :
    from_bytes (one_json sample) (v1_text (str "aa" ∷ str "bb" ∷ []))
    ≡ ok (legacy (str "aa" ∷ str "bb" ∷ []))
unfolding program
from_bytes-v1_text_run =
    from_bytes-v1_text (one_json sample) (str "aa") (str "bb" ∷ []) (ground arith) refl refl

empty_manifest : from_bytes (one_json sample) [] ≡ err manifest_is_empty
unfolding program
empty_manifest = refl

concat-chunk_data_run :
    concat (map (chunk_bytes (str "hello")) (chunk_data plain_hash halves (str "hello") small))
    ≡ str "hello"
concat-chunk_data_run = concat-chunk_data plain_hash halves halves-IsTiling (str "hello") small

hash-chunk_data_run :
    All
      (λ (c : Chunk). c.hash ≡ chunk_bytes (str "hello") c)
      (chunk_data plain_hash halves (str "hello") small)
hash-chunk_data_run = hash-chunk_data plain_hash halves (str "hello") small

abbrev nonce : Str
nonce =
    1 ∷ 2 ∷ 3 ∷ 4 ∷ 5 ∷ 6 ∷ 7 ∷ 8 ∷ 1 ∷ 2 ∷ 3 ∷ 4 ∷ 5 ∷ 6 ∷ 7 ∷ 8 ∷ 1 ∷ 2 ∷ 3 ∷ 4 ∷ 5 ∷ 6 ∷ 7 ∷ 8
    ∷ []

abbrev key : Str
key = 8 ∷ 8 ∷ 8 ∷ 8 ∷ 8 ∷ 8 ∷ 8 ∷ 8 ∷ nonce

decrypt_chunk-encrypt_chunk_run :
    decrypt_chunk tagged key 3 [] (nonce ++ (tag ++ str "hi")) ≡ ok (str "hi")
unfolding encrypt_chunk build_aad
decrypt_chunk-encrypt_chunk_run =
    Laws.decrypt_chunk-encrypt_chunk tagged tagged-IsLawful nonce key [] (str "hi") 3 refl refl

unwrap_key-wrap_key_run : unwrap_key tagged key (nonce ++ (tag ++ key)) ≡ ok key
unfolding wrap_key
unwrap_key-wrap_key_run =
    Laws.unwrap_key-wrap_key tagged tagged-IsLawful nonce key key refl refl refl

abbrev third : ℕ
third = 3

build_aad-injective_run : (third ≡ 3) × (str "f" ≡ str "f")
unfolding build_aad
build_aad-injective_run =
    Laws.build_aad-injective third 3 (str "f") (str "f") (omega arith) (omega arith) refl
