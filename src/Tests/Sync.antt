-- ===== src/Tests/Sync.antt =====
-- Uploads and downloads of a small file.
use native.Mathlib.Decide.{ℕ_discrete}
use tummycrypt.Prelude.{
  ◌≡◌, ◌≢◌, ◌⊎◌, refl, true, false, none, some, [], ◌∷◌, Str, str, ◌==◌, arith, length, ap,
}
use tummycrypt.Prelude.Dict.{lookup, insert, erase}
use tummycrypt.Prelude.Text.FilePath.{parent, with_extension}
use tummycrypt.Prelude.Text.Lines.{lines}
use tummycrypt.Prelude.Text.Utf8.{is_utf8}
use tummycrypt.Fallible.{ok, err, chunk_integrity, uploading_chunk}
use tummycrypt.Exec
use tummycrypt.Exec.{pure, lift, gets, modify, attempt, context}
use tummycrypt.Disk
use tummycrypt.Disk.{Disk}
use tummycrypt.Chunks.{hash_hex, chunk_file, chunk_data}
use tummycrypt.Conflict.{tick, get}
use tummycrypt.Crypto.{encrypt_chunk, wrap_key}
use tummycrypt.Manifest.{SyncManifest, from_bytes, to_bytes}
use tummycrypt.Manifest.Versions.{v1_text}
use tummycrypt.State
use tummycrypt.State.{StateCache, needs_sync, make_sync_state_full}
use tummycrypt.Engine.{Deps, Session, UploadArgs, UploadResult, DownloadResult}
use tummycrypt.Engine.Upload
use tummycrypt.Engine.Upload.{upload_file_with_device}
use tummycrypt.Engine.Download
use tummycrypt.Engine.Download.{DownloadArgs, download_file_with_device}
use tummycrypt.Engine.Consistency.{HasChunk, IsConsistent, IsAddressed}
use tummycrypt.Engine.Consistency.Upload.{upload-IsConsistent, upload-IsAddressed}
use tummycrypt.Engine.Integrity.{download-integrity, download_failed}
use tummycrypt.Engine.Legacy.{download-v1_text}
use tummycrypt.Engine.Conflicts.{IsQuiet, upload-IsQuiet}
use tummycrypt.Tests.Fixtures.{memory, memory-IsLawful, flaky, flaky-IsLawful}
use tummycrypt.Tests.Codec.{
  manifest_discrete, one_json, one_json-IsLawful, plain_hash, plain_hash-IsHexLawful, halves,
  tagged, plain64,
}

unfoldable pub program : Unit {0}
unfolding Exec.◌>>=◌ upload_file_with_device Upload.on_needed Upload.upload_changed Upload.finish
    Upload.store Upload.wrapped_key Upload.upload_chunks Upload.put_chunk Upload.encode_chunk
    Upload.encryption_keys Upload.check_stored Upload.check_remote Upload.on_read Upload.on_manifest
    Upload.act Upload.record_state Upload.prepare Upload.exists_or_false Upload.request
    download_file_with_device Download.complete Download.fetch_file Download.fetch_manifest
    Download.check_file Download.update_cache Download.remember Download.place Download.fetch_chunks
    Download.check_chunk Download.decode_chunk Download.decryption_keys Download.fetch from_bytes
    to_bytes needs_sync make_sync_state_full chunk_file chunk_data State.get State.set Disk.read
    Disk.write Disk.rename Disk.create_dir_all lookup insert erase parent with_extension lines
    is_utf8 tick get ◌==◌ manifest_discrete ℕ_discrete encrypt_chunk wrap_key
program = tt

-- What the first upload writes.
abbrev pub hello : SyncManifest
hello = record {
  version = 2;
  file_hash = str "hhello";
  file_size = 5;
  chunks = str "hhe" ∷ str "hllo" ∷ [];
  vclock = record { clocks = (str "dev", 1) ∷ [] };
  written_by = str "dev";
  written_at = 9;
  rel_path = some (str "f");
  encrypted_file_key = none;
}

abbrev pub deps : Deps
deps = record {
  op = memory;
  blake3 = plain_hash;
  cdc = halves;
  json = one_json hello;
  aead = tagged;
  base64 = plain64;
}

abbrev pub deps_flaky : Deps
deps_flaky = record deps { op = flaky }

abbrev pub disk : Disk
disk = record {
  files = (str "/f", record { content = str "hello"; modified = some 7 }) ∷ [];
  refuses = λ _. false;
  hides = λ _. false;
  leaves = λ _. none;
  canonical = λ p. some p;
  now = 9;
}

abbrev pub cache : StateCache
cache = record {
  db_path = str "/s/state.json";
  entries = [];
  dirty = false;
  last_nats_seq = 0;
  device_id = str "dev";
}

abbrev pub args : UploadArgs
args = record {
  disk = disk;
  local_path = str "/f";
  remote_prefix = str "p";
  device_id = str "dev";
  rel_path = some (str "f");
  encryption = none;
  draws = record { file_key = []; chunk_nonce = λ _. []; wrap_nonce = [] };
}

abbrev pub empty : Session memory
empty = record { remote = []; cache = cache }

uploaded :
    lookup (str "p/manifests/hhello") (upload_file_with_device deps args empty).1.remote
    ≡ some (str "{")
unfolding program
uploaded = refl

-- The third request is lost, in the middle of the chunks.
abbrev pub lossy : Session flaky
lossy = record {
  remote = record { objects = []; faults = false ∷ false ∷ false ∷ true ∷ true ∷ [] };
  cache = cache;
}

stopped : (upload_file_with_device deps_flaky args lossy).0 ≡ err uploading_chunk
unfolding program
stopped = refl

pub lossy-IsConsistent : IsConsistent deps_flaky flaky-IsLawful (str "p") lossy.remote
unfolding lookup flaky-IsLawful memory-IsLawful
lossy-IsConsistent = record {
  chunk_content = λ h d e. cc e;
  manifest_chunks = λ h b m e p. absurd (cc e);
}

upload-IsConsistent_example :
    IsConsistent deps_flaky flaky-IsLawful
      (str "p")
      (upload_file_with_device deps_flaky args lossy).1.remote
    × ((c : Str)
        → HasChunk deps_flaky flaky-IsLawful (str "p") lossy.remote c
        → HasChunk deps_flaky flaky-IsLawful
            (str "p")
            (upload_file_with_device deps_flaky args lossy).1.remote
            c)
upload-IsConsistent_example =
    upload-IsConsistent deps_flaky flaky-IsLawful (one_json-IsLawful hello) args lossy
      lossy-IsConsistent

empty-IsAddressed : IsAddressed deps memory-IsLawful (str "p") empty.remote
unfolding lookup flaky-IsLawful memory-IsLawful
empty-IsAddressed h b m e p = absurd (cc e)

upload-IsAddressed_run :
    IsAddressed deps memory-IsLawful (str "p") (upload_file_with_device deps args empty).1.remote
upload-IsAddressed_run =
    upload-IsAddressed deps memory-IsLawful (one_json-IsLawful hello) args empty empty-IsAddressed

abbrev first : UploadResult
first = record {
  path = str "/f";
  remote_path = str "p/manifests/hhello";
  hash = str "hhello";
  chunks = 2;
  bytes = 5;
  skipped = false;
  outcome = none;
}

upload-IsQuiet_example : IsQuiet first.outcome
unfolding program
upload-IsQuiet_example =
    upload-IsQuiet deps memory-IsLawful args empty {r = first} empty-IsAddressed refl

-- The store after the upload, read by another machine.
abbrev download_args : DownloadArgs
download_args = record {
  remote_manifest = str "p/manifests/hhello";
  local_path = str "/g";
  remote_prefix = str "p";
  device_id = str "other";
  encryption = none;
}

abbrev stored : Download.Session memory
stored = record {
  remote =
      (str "p/chunks/hhe", str "he")
      ∷ (str "p/chunks/hllo", str "llo")
      ∷ (str "p/manifests/hhello", str "{")
      ∷ (str "bad", v1_text (str "aa" ∷ []))
      ∷ [];
  disk = disk;
  cache = some cache;
}

abbrev fetched : DownloadResult
fetched = record { remote_path = str "p/manifests/hhello"; local_path = str "/g"; bytes = 5 }

download-integrity_example :
    (m : SyncManifest) × (bytes : Str) × ((Download.fetch_manifest deps download_args stored).0
      ≡ ok m)
    × (hash_hex plain_hash bytes ≡ m.file_hash)
    × (lookup (str "/g") (download_file_with_device deps download_args stored).1.disk.files
        ≡ some (record { content = bytes; modified = some 9 }))
    × (5 ≡ length bytes)
unfolding program
download-integrity_example = download-integrity deps download_args stored {r = fetched} refl

abbrev corrupt : Download.Session memory
corrupt = record stored { remote = (str "p/chunks/hllo", str "all") ∷ stored.remote }

download_failed_example :
    let after = (download_file_with_device deps download_args corrupt).1.disk in
    (lookup (str "/g") after.files ≡ lookup (str "/g") disk.files)
    ⊎ ((m : SyncManifest) × (bytes : Str) × ((Download.fetch_manifest deps download_args corrupt).0
          ≡ ok m)
        × (hash_hex plain_hash bytes ≡ m.file_hash)
        × (lookup (str "/g") after.files ≡ some (record { content = bytes; modified = some 9 }))
        × (disk.hides (str "/g") ≡ true))
unfolding program
download_failed_example =
    download_failed deps download_args corrupt {e = chunk_integrity} (λ e. cc (ap length e)) refl

abbrev v1_args : DownloadArgs
v1_args = record download_args { remote_manifest = str "bad" }

download-v1_text_example : (download_file_with_device deps v1_args stored).0 ≢ ok fetched
unfolding program
download-v1_text_example =
    download-v1_text deps v1_args plain_hash-IsHexLawful stored (str "aa") [] (ground arith) refl
      refl refl fetched
