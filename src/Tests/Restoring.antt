-- ===== src/Tests/Restoring.antt =====
-- An encrypted upload over a connection that loses requests, and the download of what it stored.
use tummycrypt.Prelude.{◌≡◌, refl, false, true, none, some, [], ◌∷◌, ◌++◌, Str, str, arith}
use tummycrypt.Prelude.Dict.{lookup}
use tummycrypt.Fallible.{err, uploading_chunk}
use tummycrypt.Manifest.{SyncManifest}
use tummycrypt.State.{new_file}
use tummycrypt.Engine.{Deps, Session, UploadArgs, UploadResult}
use tummycrypt.Engine.Upload.{upload_file_with_device}
use tummycrypt.Engine.Download
use tummycrypt.Engine.Restore.{IsSound, IsUpload}
use tummycrypt.Engine.Restore.Fetched.{IsCalm}
use tummycrypt.Engine.Restore.History.{now, upload, after, IsBlank, GivesBack, download-upload}
use tummycrypt.Tests.Fixtures.{memory-IsLawful, Flaky, flaky, flaky-IsLawful}
use tummycrypt.Tests.Codec.{
  one_json, one_json-IsLawful, plain_hash, plain_hash-IsHexLawful, halves, halves-IsTiling, tag,
  tagged, tagged-IsLawful, plain64,
}
use tummycrypt.Tests.Sync.{program, disk, cache}

abbrev nonce : Str
nonce = str "nonce of twenty-four by."

abbrev file_key : Str
file_key = str "the file key has thirty-two by.."

abbrev master : Str
master = str "master"

abbrev sealed_manifest : SyncManifest
sealed_manifest = record {
  version = 2;
  file_hash = str "hhello";
  file_size = 5;
  chunks = (str "h" ++ nonce ++ tag ++ str "he") ∷ (str "h" ++ nonce ++ tag ++ str "llo") ∷ [];
  vclock = record { clocks = (str "dev", 1) ∷ [] };
  written_by = str "dev";
  written_at = 9;
  rel_path = some (str "f");
  encrypted_file_key = some (nonce ++ tag ++ file_key);
}

abbrev deps : Deps
deps = record {
  op = flaky;
  blake3 = plain_hash;
  cdc = halves;
  json = one_json sealed_manifest;
  aead = tagged;
  base64 = plain64;
}

deps-IsSound : IsSound deps
deps-IsSound = record {
  json = one_json-IsLawful sealed_manifest;
  hex = plain_hash-IsHexLawful;
  tiling = halves-IsTiling;
  aead = tagged-IsLawful;
  decode-encode = λ w. refl;
  collision_free = λ a b e. cc e;
}

abbrev args : UploadArgs
args = record {
  disk = disk;
  local_path = str "/f";
  remote_prefix = str "p";
  device_id = str "dev";
  rel_path = some (str "f");
  encryption = some master;
  draws = record { file_key = file_key; chunk_nonce = λ _. nonce; wrap_nonce = nonce };
}

args-IsUpload : IsUpload deps flaky-IsLawful (str "p") (some master) args
args-IsUpload = record {
  same_prefix = refl;
  same_key = λ key e. e;
  chunk_nonces = λ i. refl;
  wrap_nonce = refl;
  file_key = refl;
}

-- The fourth and the fifth request are lost.
abbrev blank : Flaky
blank = record { objects = []; faults = false ∷ false ∷ false ∷ true ∷ true ∷ [] }

abbrev broken : Flaky
broken = after deps flaky-IsLawful deps-IsSound (str "p") (some master) args blank cache

stopped_early :
    (upload_file_with_device deps args (record { remote = blank; cache = cache })).0
    ≡ err uploading_chunk
unfolding program
stopped_early = refl

abbrev again : UploadResult
again = record {
  path = str "/f";
  remote_path = str "p/manifests/hhello";
  hash = str "hhello";
  chunks = 2;
  bytes = 5;
  skipped = false;
  outcome = none;
}

abbrev whole : Flaky
whole = after deps flaky-IsLawful deps-IsSound (str "p") (some master) args broken cache

-- No fault is left.
abbrev IsQuiet : Flaky → Type 0
IsQuiet s = s.faults ≡ []

flaky-IsCalm : IsCalm flaky flaky-IsLawful IsQuiet
unfolding lookup flaky-IsLawful memory-IsLawful
flaky-IsCalm = record { answers = λ s k v quiet e. ground arith; stays = λ s k quiet. ground arith }

blank-IsBlank : IsBlank deps flaky-IsLawful deps-IsSound (str "p") (some master) blank
unfolding lookup flaky-IsLawful memory-IsLawful
blank-IsBlank k = refl

abbrev reader : Download.Session flaky
reader = record { remote = whole; disk = disk; cache = some cache }

download-upload_example :
    GivesBack deps flaky-IsLawful deps-IsSound
      (str "p")
      (some master)
      (str "p/manifests/hhello")
      (str "/g")
      (str "other")
      reader
      (str "hello")
unfolding program
download-upload_example =
    download-upload deps flaky-IsLawful deps-IsSound (str "p") (some master) IsQuiet flaky-IsCalm
      blank broken args cache {reason = new_file} {r = again} (str "hello") (str "/g") (str "other")
      reader blank-IsBlank (upload args cache args-IsUpload now) args-IsUpload refl refl now refl
      (λ e. cc e) refl (λ path. refl) refl
