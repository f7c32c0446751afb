-- ===== src/Manifest.antt =====
-- crates/tcfs-sync/src/manifest.rs: the manifest of a synced file. `serde_json` is a parameter.
pub mod Versions
use tummycrypt.Prelude.{
  ℕ, ◌≡◌, Bool, true, false, not, Option, none, some, List, [], ◌∷◌, Str, ltb, if◌then◌else◌, keep,
}
use tummycrypt.Prelude.Text.Lines.{lines, is_empty}
use tummycrypt.Prelude.Text.Utf8.{is_utf8}
use tummycrypt.Fallible.{
  Result, ok, err, or_err, manifest_not_utf8, manifest_is_empty, serializing_manifest,
}
use tummycrypt.Conflict.{VectorClock, new}

pub record SyncManifest : Type 0 where
  pub version : ℕ
  pub file_hash : Str
  pub file_size : ℕ
  pub chunks : List Str
  pub vclock : VectorClock
  pub written_by : Str
  pub written_at : ℕ
  pub rel_path : Option Str
  pub encrypted_file_key : Option Str

-- `serde_json::from_str` and `to_vec_pretty` at this type.
pub record ManifestJson : Type 0 where
  pub parse : Str → Option SyncManifest
  pub print : SyncManifest → Option Str

-- What is printed is UTF-8 and is read back.
pub record IsLawful (J : ManifestJson) : Type 0 where
  pub print-is_utf8 : (m : SyncManifest) (s : Str) → J.print m ≡ some s → is_utf8 s ≡ true
  pub parse-print : (m : SyncManifest) (s : Str) → J.print m ≡ some s → J.parse s ≡ some m

abbrev pub legacy : List Str → SyncManifest
legacy chunks = record {
  version = 1;
  file_hash = [];
  file_size = 0;
  chunks = chunks;
  vclock = new;
  written_by = [];
  written_at = 0;
  rel_path = none;
  encrypted_file_key = none;
}

-- The lines of a text that are not empty.
abbrev pub text_chunks : Str → List Str
text_chunks text = keep (λ l. not (is_empty l)) (lines text)

-- The fall back to the text format.
unfoldable pub from_text : Str → Result SyncManifest
from_text text =
    let chunks = text_chunks text in
    if is_empty chunks then err manifest_is_empty else ok (legacy chunks)

module _ (J : ManifestJson) where
  unfoldable pub from_bytes : Str → Result SyncManifest
  unfolding from_text
  from_bytes bytes =
      if is_utf8 bytes
      then elim (J.parse bytes) [ some manifest ↦ ok manifest | none ↦ from_text bytes ]
      else err manifest_not_utf8

  unfoldable pub to_bytes : SyncManifest → Result Str
  to_bytes m = or_err serializing_manifest (J.print m)

abbrev pub chunk_hashes : SyncManifest → List Str
chunk_hashes m = m.chunks

unfoldable pub is_legacy : SyncManifest → Bool
is_legacy m = ltb m.version 2
