-- ===== src/Manifest/Versions.antt =====
-- Both manifest formats are read by `from_bytes`.
use tummycrypt.Prelude.{◌≡◌, refl, true, false, none, List, [], ◌∷◌, ◌++◌, Str, arith, All}
use tummycrypt.Prelude.Text.Lines.{lines-line, lines-nil, is_empty, IsLine}
use tummycrypt.Prelude.Text.Utf8.{is_utf8}
use tummycrypt.Fallible.{ok}
use tummycrypt.Manifest.{
  SyncManifest, ManifestJson, IsLawful, legacy, text_chunks, from_bytes, to_bytes,
}

-- The v1 text format: each hash on a line of its own.
abbrev pub v1_text : List Str → Str
v1_text [] = []
v1_text (h ∷ hs) = h ++ (10 ∷ v1_text hs)

abbrev pub IsHash : Str → Type 0
IsHash h = IsLine h × (is_empty h ≡ false)

pub text_chunks-v1_text : (hs : List Str) → All IsHash hs → text_chunks (v1_text hs) ≡ hs
text_chunks-v1_text [] w = rw lines-nil
text_chunks-v1_text (h ∷ hs) w =
    rw (lines-line h (v1_text hs) w.0.0) (ground (arith, w.0.1, text_chunks-v1_text hs w.1))

module _ (J : ManifestJson) where
  -- With a codec that reads back the manifests it prints, as UTF-8, a manifest that is written is
  -- read back unchanged, whatever its fields.
  pub from_bytes-to_bytes :
      IsLawful J
      → (m : SyncManifest) {bytes : Str} → to_bytes J m ≡ ok bytes
      → from_bytes J bytes ≡ ok m
  unfolding from_bytes to_bytes
  from_bytes-to_bytes law m {bytes} h =
      ground (arith, law.print-is_utf8 m bytes, law.parse-print m bytes)

  -- A v1 manifest, that is a UTF-8 text of one hash to a line, and at least one, which is no
  -- JSON, is read as a legacy manifest with these chunks in order.
  pub from_bytes-v1_text :
      (h : Str) (hs : List Str)
      → All IsHash (h ∷ hs)
      → is_utf8 (v1_text (h ∷ hs)) ≡ true
      → J.parse (v1_text (h ∷ hs)) ≡ none
      → from_bytes J (v1_text (h ∷ hs)) ≡ ok (legacy (h ∷ hs))
  unfolding from_bytes
  from_bytes-v1_text h hs w u n = rw (u, n, text_chunks-v1_text (h ∷ hs) w) refl
