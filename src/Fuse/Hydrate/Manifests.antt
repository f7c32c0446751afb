-- ===== src/Fuse/Hydrate/Manifests.antt =====
-- What hydration makes of a manifest.
use tummycrypt.Prelude.{
  ◌≡◌, ◌≢◌, refl, sym, ap, ◌∙◌, Bool, not, Bool-cases, inl, inr, some, List, [], ◌∷◌, ◌++◌, Str,
  keep, if◌then◌else◌, arith, nat_eq,
}
use tummycrypt.Prelude.Text.Lines.{is_empty, lines, lines_from, strip_cr}
use tummycrypt.Prelude.Text.Utf8.{is_utf8}
use tummycrypt.Fallible.{
  ok, err, Error, manifest_not_utf8, manifest_is_empty, reading_manifest, downloading_chunk,
}
use tummycrypt.Exec.{Exec, lift, context}
use tummycrypt.Exec.Inversion.{>>=-eq-ok, context-eq-ok}
use tummycrypt.Disk.{ReadDir}
use tummycrypt.Chunks.{hash_hex}
use tummycrypt.Manifest.{text_chunks}
use tummycrypt.Remote.{IsLawful, chunk_key}
use tummycrypt.Engine.{Deps}
use tummycrypt.Engine.Consistency.{IsConsistent}
use tummycrypt.Engine.Tree.{remote_path_prefix}
use tummycrypt.Fuse.Mount.{Storage, Mount, ask}
use tummycrypt.Fuse.Hydrate.{fetch_all, fetch_content}

-- The first line of a text that opens a brace opens it.
lines_from-brace :
    (s line : Str)
    → (l : Str) × (rest : List Str) × (lines_from (b'{' ∷ line) s ≡ (b'{' ∷ l) ∷ rest)
unfolding lines_from strip_cr
lines_from-brace [] line = (line, [], refl)
lines_from-brace (c ∷ s) line = elim (Bool-cases (nat_eq c 10)) [
  | inl feed ↦ rw (feed, lines_from) (go line)
  | inr other ↦ rw (other, lines_from) (lines_from-brace s (line ++ (c ∷ [])))
]
  where
    go :
        (x : Str)
        → (l : Str) × (rest : List Str) × (strip_cr (b'{' ∷ x) ∷ lines_from [] s
            ≡ (b'{' ∷ l) ∷ rest)
    go [] = ([], lines_from [] s, refl)
    go (d ∷ x) = (strip_cr (d ∷ x), lines_from [] s, refl)

text_chunks-brace :
    (s : Str) → (l : Str) × (rest : List Str) × (text_chunks (b'{' ∷ s) ≡ (b'{' ∷ l) ∷ rest)
unfolding lines lines_from
text_chunks-brace s =
    let (l, rest, e) = lines_from-brace s [] in (l, keep (λ x. not (is_empty x)) rest, rw e refl)

-- What a check that succeeds gives.
if-ok : {A : Type 0} (b : Bool) (a x : A) (e : Error) → (if b then ok a else err e) ≡ ok x → x ≡ a
if-ok b a x e h = ground arith

if-err : {A : Type 0} (b : Bool) (a x : A) (e : Error) → (if b then err e else ok a) ≡ ok x → x ≡ a
if-err b a x e h = ground arith

module _ (D : Deps) (L : IsLawful D.op) (list : Str → Exec D.op.State (List Str))
    (read_dir : ReadDir) where
  open D use {op, blake3}

  abbrev pub storage : Storage
  storage = record { op = op; list = list; read_dir = read_dir }

  -- What a request for an object that succeeds says.
  ask-read :
      (key v : Str) (s : Mount op)
      → (ask storage (op.read key) s).0 ≡ ok v
      → (L.object s.remote key ≡ some v)
        × ((j : Str) → L.object (ask storage (op.read key) s).1.remote j ≡ L.object s.remote j)
  unfolding ask
  ask-read key v s e = (L.read-ok s.remote key v e, L.object-read s.remote key)

  fetch_all-brace :
      (prefix l out : Str) (rest : List Str) (s : Mount op)
      → ((d : Str)
          → L.object s.remote (chunk_key prefix (b'{' ∷ l)) ≡ some d
          → hash_hex blake3 d ≡ b'{' ∷ l)
      → ((d r : Str) → hash_hex blake3 d ≢ b'{' ∷ r)
      → (fetch_all storage prefix ((b'{' ∷ l) ∷ rest) s).0 ≢ ok out
  unfolding fetch_all
  fetch_all-brace prefix l out rest s good hex h =
      let (chunk, got, _, _) = >>=-eq-ok _ _ s h in
      let asked = (context-eq-ok downloading_chunk _ s got).0 in
      hex chunk l (good chunk (ask-read _ chunk s asked).0)

  -- A manifest whose text opens a brace, as the JSON of every upload does, is never hydrated: over
  -- a consistent store and with a hash whose hex form opens no brace, no content is given for it.
  pub fetch_content-brace :
      (manifest_path prefix rest out : Str) (s : Mount op)
      → IsConsistent D L (remote_path_prefix prefix) s.remote
      → ((d r : Str) → hash_hex blake3 d ≢ b'{' ∷ r)
      → L.object s.remote manifest_path ≡ some (b'{' ∷ rest)
      → (fetch_content storage manifest_path prefix s).0 ≢ ok out
  unfolding fetch_content lift
  fetch_content-brace manifest_path prefix rest out s good hex there h =
      let (bytes, got, _, h1) = >>=-eq-ok _ _ s h in
      let (asked, at) = context-eq-ok reading_manifest _ s got in
      let (found, same) = ask-read manifest_path bytes s asked in
      let (text, is_text, _, h2) = >>=-eq-ok _ _ _ h1 in
      let (hashes, listed, _, h3) = >>=-eq-ok _ _ _ h2 in
      let (l, more, split) = text_chunks-brace rest in
      let text_is : text ≡ bytes = if-ok (is_utf8 bytes) bytes text manifest_not_utf8 is_text in
      let hashes_are : hashes ≡ text_chunks text =
        if-err (is_empty (text_chunks text)) (text_chunks text) hashes manifest_is_empty listed in
      let bytes_are : bytes ≡ b'{' ∷ rest = cc in
      let all : hashes ≡ (b'{' ∷ l) ∷ more =
        hashes_are ∙ ap text_chunks (text_is ∙ bytes_are) ∙ split in
      let at_chunk = chunk_key (remote_path_prefix prefix) (b'{' ∷ l) in
      fetch_all-brace (remote_path_prefix prefix) l out more
        (context reading_manifest (ask storage (op.read manifest_path)) s).1
        (λ d e.
          good.chunk_content (b'{' ∷ l) d
            (sym (ap (λ (t : Mount op). L.object t.remote at_chunk) at ∙ same at_chunk) ∙ e))
        hex (rw all at h3)
