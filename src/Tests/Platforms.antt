-- ===== src/Tests/Platforms.antt =====
-- The bindings for other systems: a file that is uploaded and fetched, and a callback.
use tummycrypt.Prelude.{◌≡◌, refl, ap, ◌∙◌, false, none, some, [], ◌∷◌, Str, str, ◌==◌, arith}
use tummycrypt.Prelude.Dict.{lookup, insert}
use tummycrypt.Prelude.Text.Utf8.{is_utf8}
use tummycrypt.Prelude.Text.Trim.{trim_start}
use tummycrypt.Prelude.Text.Decimal.{to_string, digits}
use tummycrypt.Fallible.{ok, result_map}
use tummycrypt.Exec.{◌>>=◌}
use tummycrypt.Disk
use tummycrypt.Disk.{Disk}
use tummycrypt.Conflict.{new}
use tummycrypt.Chunks.{chunk_data}
use tummycrypt.Manifest.{SyncManifest, to_bytes, from_bytes}
use tummycrypt.Engine.{Deps}
use tummycrypt.Engine.Download
use tummycrypt.Engine.Download.{DownloadArgs, fetch_file}
use tummycrypt.Engine.Tree.{remote_path_prefix, index_entry}
use tummycrypt.Platform.FileProvider.{
  error_none, Session, call, put_chunks, put_file, upload_from, tcfs_provider_upload,
  tcfs_provider_fetch,
}
use tummycrypt.Platform.FileProvider.RoundTrip.{fetch-upload}
use tummycrypt.Platform.CloudFilter.{handle_fetch_data}
use tummycrypt.Platform.CloudFilter.Agreement.{handle_fetch_data-fetch_file}
use tummycrypt.Tests.Fixtures.{memory, memory-IsLawful, memory-IsReliable}
use tummycrypt.Tests.Codec.{
  one_json, one_json-IsLawful, manifest_discrete, plain_hash, plain_hash-IsHexLawful, halves,
  halves-IsTiling, tagged, plain64,
}

abbrev manifest : SyncManifest
manifest = record {
  version = 2;
  file_hash = str "hab";
  file_size = 2;
  chunks = str "ha" ∷ str "hb" ∷ [];
  vclock = new;
  written_by = [];
  written_at = 0;
  rel_path = some (str "/f");
  encrypted_file_key = none;
}

abbrev deps : Deps
deps = record {
  op = memory;
  blake3 = plain_hash;
  cdc = halves;
  json = one_json manifest;
  aead = tagged;
  base64 = plain64;
}

abbrev disk : Disk
disk = record {
  files = (str "/a", record { content = str "ab"; modified = some 1 }) ∷ [];
  refuses = λ _. false;
  hides = λ _. false;
  leaves = λ _. none;
  canonical = λ p. some p;
  now = 9;
}

abbrev session : Session memory
session = record { remote = []; disk = disk }

abbrev lossy : Str → Str
lossy s = s

abbrev uploaded : Session memory
uploaded =
    (tcfs_provider_upload deps lossy (str "p/") (some (str "/a")) (some (str "/f")) session).1

fetch-upload_example :
    let fetched =
      tcfs_provider_fetch deps lossy
        (str "p/")
        (some (str "p/index/f"))
        (some (str "/b"))
        uploaded in
    (fetched.0 ≡ error_none) × (Disk.read fetched.1.disk (str "/b") ≡ ok (str "ab"))
unfolding ◌>>=◌ call upload_from put_file put_chunks chunk_data to_bytes manifest_discrete
    native.Mathlib.Decide.ℕ_discrete remote_path_prefix index_entry trim_start to_string digits
    is_utf8 lookup insert Disk.read ◌==◌
fetch-upload_example =
    fetch-upload deps memory-IsLawful lossy (str "p/") memory-IsReliable
      (one_json-IsLawful manifest) halves-IsTiling plain_hash-IsHexLawful (λ a b e. cc e)
      (λ t ascii. refl) (str "/a") (str "/f") (str "/b") session refl
      (λ bytes e. let same : str "ab" ≡ bytes = cc e in rw (← same) (ground arith)) refl refl refl

abbrev args : DownloadArgs
args = record {
  remote_manifest = str "p/manifests/hab";
  local_path = str "/b";
  remote_prefix = str "p";
  device_id = [];
  encryption = none;
}

abbrev state : Download.Session memory
state = record {
  remote =
      (str "p/manifests/hab", str "{")
      ∷ (str "p/chunks/ha", str "a")
      ∷ (str "p/chunks/hb", str "b")
      ∷ [];
  disk = disk;
  cache = none;
}

handle_fetch_data-fetch_file_example :
    ((handle_fetch_data deps (str "p/") (str "hab") state.remote).0
      ≡ result_map (λ f. f.1) (fetch_file deps args state).0)
    × ((handle_fetch_data deps (str "p/") (str "hab") state.remote).1
        ≡ (fetch_file deps args state).1.remote)
unfolding remote_path_prefix lookup from_bytes is_utf8 ◌==◌
handle_fetch_data-fetch_file_example =
    handle_fetch_data-fetch_file deps args (str "p/") (str "hab") state refl refl (λ bytes m e f.
      let same : str "{" ≡ bytes = cc e in
      let f_at : from_bytes (one_json manifest) (str "{") ≡ ok m =
        ap (from_bytes (one_json manifest)) same ∙ f in
      let only : manifest ≡ m = cc f_at in rw (← only) (refl, refl))
