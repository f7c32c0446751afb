-- ===== src/Engine/Restore/Written.antt =====
-- What a manifest that an upload wrote gives back, and what it gives back later.
use tummycrypt.Prelude.{
  ℕ, suc, ◌≡◌, refl, sym, ap, ◌∙◌, subst, inl, inr, Option, none, some, List, [], ◌∷◌, Str, All,
  arith, map, length, Option-cases,
}
use tummycrypt.Fallible.{Result, ok, err}
use tummycrypt.Chunks.{Chunk, hash_hex, slice, for_path}
use tummycrypt.Chunks.Tiling.{chunk_bytes, concat, concat-chunk_data}
use tummycrypt.Crypto.{wrap_key, encrypt_chunk}
use tummycrypt.Crypto.Laws.{decrypt_chunk-encrypt_chunk, unwrap_key-wrap_key}
use tummycrypt.Manifest.Versions.{from_bytes-to_bytes}
use tummycrypt.Conflict.{VectorClock}
use tummycrypt.Remote.{IsLawful, chunk_key}
use tummycrypt.Engine.{Deps, UploadArgs}
use tummycrypt.Engine.Upload.{Prepared, encryption_keys, encode_chunk, wrapped_key, manifest_of}
use tummycrypt.Engine.Download.{decryption_keys, decode_chunk}
use tummycrypt.Engine.Consistency.{HasChunk, IsConsistent, Stored, Written}
use tummycrypt.Engine.Consistency.Upload.{hash-encode_chunk, prepare-cut, prepare-IsHashed}
use tummycrypt.Engine.Restore.{IsSound, IsUpload, reader, Assembles, Restorable}

module _ (D : Deps) (L : IsLawful D.op) (sound : IsSound D) (prefix : Str)
    (master : Option Str) where
  open D use {op, blake3, cdc, json, aead}

  -- A chunk that is there is the one that has its hash.
  object-HasChunk :
      (s : op.State) (h stored : Str)
      → IsConsistent D L prefix s
      → HasChunk D L prefix s h
      → hash_hex blake3 stored ≡ h
      → L.object s (chunk_key prefix h) ≡ some stored
  object-HasChunk s h stored good there e = elim (Option-cases (L.object s (chunk_key prefix h))) [
    | inl gone ↦ absurd (there gone)
    | inr (d, q) ↦
        let same : d ≡ stored = sound.collision_free d stored (good.chunk_content h d q ∙ sym e) in
        q ∙ ap some same
  ]

  Assembles-map :
      (s t : op.State) (keys : Option (Str × Str)) (i : ℕ) (hashes : List Str) (out : Str)
      → IsConsistent D L prefix t
      → ((c : Str) → HasChunk D L prefix s c → HasChunk D L prefix t c)
      → Assembles D L prefix master s keys i hashes out
      → Assembles D L prefix master t keys i hashes out
  Assembles-map s t keys i [] out good f a = a
  Assembles-map s t keys i (h ∷ hashes) out good f (stored, plain, rest, there, e, decoded, o, a) =
      (
        stored,
        plain,
        rest,
        object-HasChunk t h stored good (f h (λ gone. cc)) e,
        e,
        decoded,
        o,
        Assembles-map s t keys (suc i) hashes rest good f a,
      )

  pub Restorable-map :
      (s t : op.State) (h b : Str)
      → IsConsistent D L prefix t
      → ((c : Str) → HasChunk D L prefix s c → HasChunk D L prefix t c)
      → Restorable D L prefix master s h b
      → Restorable D L prefix master t h b
  Restorable-map s t h b good f r = record {
    m = r.m;
    keys = r.keys;
    content = r.content;
    parsed = r.parsed;
    opened = r.opened;
    assembled = Assembles-map s t r.keys 0 r.m.chunks r.content good f r.assembled;
    owned = r.owned;
    hashed = r.hashed;
  }

  -- What was encoded is decoded.
  decode_chunk-encode_chunk :
      (args : UploadArgs) (keys : Option (Str × Str)) (bytes : Str) (i : ℕ) (c : Chunk)
      (stored h : Str)
      → length (args.draws.chunk_nonce i) ≡ 24
      → encode_chunk D args keys bytes i c ≡ ok (stored, h)
      → decode_chunk D (reader prefix master [] [] []) keys i stored ≡ ok (chunk_bytes bytes c)
  unfolding encode_chunk decode_chunk
  decode_chunk-encode_chunk args none bytes i c stored h n e = ground arith
  decode_chunk-encode_chunk args (some (fk, fid)) bytes i c stored h n e = go _ refl
    where
      go :
          (r : Result Str)
          → encrypt_chunk aead (args.draws.chunk_nonce i) fk i fid (slice bytes c.offset c.length)
            ≡ r
          → decode_chunk D (reader prefix master [] [] []) (some (fk, fid)) i stored
            ≡ ok (chunk_bytes bytes c)
      go (err x) q = absurd (ground arith)
      go (ok ciphertext) q = ground (
        arith,
        decrypt_chunk-encrypt_chunk aead sound.aead (args.draws.chunk_nonce i) fk fid
            (slice bytes c.offset c.length) i n q,
      )

  Assembles-Stored :
      (s : op.State) (args : UploadArgs) (keys : Option (Str × Str)) (bytes : Str) (i : ℕ)
      (chunks : List Chunk) (hashes : List Str)
      → IsConsistent D L prefix s
      → IsUpload D L prefix master args
      → All (λ (c : Chunk). c.hash ≡ blake3.hash (chunk_bytes bytes c)) chunks
      → Stored D L prefix args keys bytes i chunks hashes s
      → Assembles D L prefix master s keys i hashes (concat (map (chunk_bytes bytes) chunks))
  Assembles-Stored s args keys bytes i [] [] good u hs st = refl
  Assembles-Stored s args keys bytes i [] (_ ∷ _) good u hs st = absurd st
  Assembles-Stored s args keys bytes i (_ ∷ _) [] good u hs st = absurd st
  Assembles-Stored s args keys bytes i (c ∷ chunks) (h ∷ hashes) good u (hc, hs)
        ((stored, e), there, st) =
      let hashed : hash_hex blake3 stored ≡ h =
        hash-encode_chunk D L sound.json args (λ _. Unit) tt keys bytes i c stored h hc e in
      (
        stored,
        chunk_bytes bytes c,
        concat (map (chunk_bytes bytes) chunks),
        object-HasChunk s h stored good there hashed,
        hashed,
        decode_chunk-encode_chunk args keys bytes i c stored h (u.chunk_nonces i) e,
        refl,
        Assembles-Stored s args keys bytes (suc i) chunks hashes good u hs st,
      )

  -- The keys of the upload are those that the manifest opens to.
  decryption_keys-encryption_keys :
      (args : UploadArgs) (p : Prepared) (v : VectorClock) (keys : Option (Str × Str))
      (hashes : List Str) (wrapped : Option Str)
      → IsUpload D L prefix master args
      → p.hash ≡ hash_hex blake3 p.bytes
      → encryption_keys D args p ≡ ok keys
      → wrapped_key D args keys ≡ ok wrapped
      → decryption_keys D (reader prefix master [] [] []) (manifest_of D args p v hashes wrapped)
        ≡ ok keys
  unfolding encryption_keys wrapped_key decryption_keys
  decryption_keys-encryption_keys args p v keys hashes wrapped u own e w =
      elim (Option-cases args.encryption) [
        | inl none_given ↦ ground arith
        | inr (key, given) ↦
            go key given (wrap_key aead args.draws.wrap_nonce key args.draws.file_key) refl
      ]
    where
      go :
          (key : Str)
          → args.encryption ≡ some key
          → (r : Result Str) → wrap_key aead args.draws.wrap_nonce key args.draws.file_key ≡ r
          → decryption_keys D
              (reader prefix master [] [] [])
              (manifest_of D args p v hashes wrapped)
            ≡ ok keys
      go key given (err x) q = ground (arith, sound.hex.from_hex-to_hex p.bytes)
      go key given (ok box) q = ground (
        arith,
        sound.hex.from_hex-to_hex p.bytes,
        sound.decode-encode box,
        u.same_key key given,
        unwrap_key-wrap_key aead sound.aead args.draws.wrap_nonce key args.draws.file_key
            u.wrap_nonce u.file_key q,
      )

  -- A manifest that an upload wrote gives back what was uploaded.
  pub Written-Restorable :
      (s : op.State) (h b : Str)
      → IsConsistent D L prefix s
      → Written D L prefix (IsUpload D L prefix master) s h b
      → Restorable D L prefix master s h b
  Written-Restorable s h b good w =
      let args = w.args in
      let (bytes, _, same) = prepare-cut D L sound.json args (λ _. Unit) tt w.p w.prepared in
      let own : w.p.hash ≡ hash_hex blake3 w.p.bytes =
        subst (λ (q : Prepared). q.hash ≡ hash_hex blake3 q.bytes) same refl in
      let whole : concat (map (chunk_bytes w.p.bytes) w.p.chunks) ≡ w.p.bytes =
        subst (λ (q : Prepared). concat (map (chunk_bytes q.bytes) q.chunks) ≡ q.bytes) same
          (concat-chunk_data blake3 cdc sound.tiling bytes (for_path args.local_path)) in
      record {
        m = manifest_of D args w.p w.vclock w.hashes w.wrapped;
        keys = w.keys;
        content = concat (map (chunk_bytes w.p.bytes) w.p.chunks);
        parsed = from_bytes-to_bytes json sound.json _ w.printed;
        opened =
            decryption_keys-encryption_keys args w.p w.vclock w.keys w.hashes w.wrapped w.kind own
              w.keyed w.wraps;
        assembled =
            Assembles-Stored s args w.keys w.p.bytes 0 w.p.chunks w.hashes good w.kind
              (prepare-IsHashed D L sound.json args (λ _. Unit) tt w.p w.prepared) w.stored;
        owned = sym w.named;
        hashed = ap (hash_hex blake3) whole ∙ sym own ∙ sym w.named;
      }
