-- ===== src/Engine/Consistency.antt =====
-- What a store under one prefix always satisfies, and the rules that carry it through an upload.
pub mod Rules
pub mod Upload
use tummycrypt.Prelude.{
  ◌≡◌, ◌≢◌, refl, ◌⊎◌, inl, inr, Bool, true, false, Option, none, some, ℕ, suc, List, [], ◌∷◌, Str,
  ◌==◌, eq_iff, if◌then◌else◌, Bool-cases, All, All-map, sym, ap, ◌∙◌, arith,
}
use tummycrypt.Fallible.{Result, ok, err, Error}
use tummycrypt.Exec.{Exec, pure, lift, gets, modify, attempt, context, ◌>>=◌}
use tummycrypt.Chunks.{Chunk, hash_hex}
use tummycrypt.Manifest.{SyncManifest, from_bytes, to_bytes}
use tummycrypt.Remote.{Operator, IsLawful, manifest_key, chunk_key, index_key}
use tummycrypt.Remote.Keys.{
  index_key-ne-manifest_key, index_key-ne-chunk_key, chunk_key-injective, manifest_key-injective,
  chunk_key-ne-manifest_key,
}
use tummycrypt.Conflict.{VectorClock}
use tummycrypt.Engine.{Deps, Session, UploadArgs}
use tummycrypt.Engine.Upload.{
  Prepared, prepare, encryption_keys, encode_chunk, wrapped_key, manifest_of,
}

module _ (D : Deps) (L : IsLawful D.op) (prefix : Str) where
  open D use {op, blake3, json}

  abbrev pub HasChunk : op.State → Str → Type 0
  HasChunk s c = L.object s (chunk_key prefix c) ≢ none

  -- A chunk stands under its own hash, and the chunks of every manifest are there.
  pub record IsConsistent (s : op.State) : Type 0 where
    pub chunk_content :
        (h d : Str) → L.object s (chunk_key prefix h) ≡ some d → hash_hex blake3 d ≡ h
    pub manifest_chunks :
        (h b : Str) (m : SyncManifest)
        → L.object s (manifest_key prefix h) ≡ some b
        → from_bytes json b ≡ ok m
        → All (HasChunk s) m.chunks

  -- A manifest states the hash under which it stands.
  abbrev pub IsAddressed : op.State → Type 0
  IsAddressed s =
      (h b : Str) (m : SyncManifest)
      → L.object s (manifest_key prefix h) ≡ some b
      → from_bytes json b ≡ ok m
      → m.file_hash ≡ h

  -- The chunks from index `i` on, each of them stored under its hash.
  abbrev pub Stored :
      UploadArgs → Option (Str × Str) → Str → ℕ → List Chunk → List Str → op.State → Type 0
  Stored args keys bytes i [] [] s = Unit
  Stored args keys bytes i [] (h ∷ hashes) s = ⊥
  Stored args keys bytes i (c ∷ chunks) [] s = ⊥
  Stored args keys bytes i (c ∷ chunks) (h ∷ hashes) s =
      ((stored : Str) × (encode_chunk D args keys bytes i c ≡ ok (stored, h)))
      × HasChunk s h
      × Stored args keys bytes (suc i) chunks hashes s

  Stored-map :
      (args : UploadArgs) (keys : Option (Str × Str)) (bytes : Str) (i : ℕ) (chunks : List Chunk)
      (hashes : List Str) (s t : op.State)
      → ((c : Str) → HasChunk s c → HasChunk t c)
      → Stored args keys bytes i chunks hashes s
      → Stored args keys bytes i chunks hashes t
  Stored-map args keys bytes i [] [] s t f h = tt
  Stored-map args keys bytes i [] (_ ∷ _) s t f h = h
  Stored-map args keys bytes i (_ ∷ _) [] s t f h = h
  Stored-map args keys bytes i (c ∷ chunks) (x ∷ hashes) s t f h =
      (h.0, f x h.1, Stored-map args keys bytes (suc i) chunks hashes s t f h.2)

  pub Stored-HasChunk :
      (args : UploadArgs) (keys : Option (Str × Str)) (bytes : Str) (i : ℕ) (chunks : List Chunk)
      (hashes : List Str) (s : op.State)
      → Stored args keys bytes i chunks hashes s
      → All (HasChunk s) hashes
  Stored-HasChunk args keys bytes i [] [] s h = tt
  Stored-HasChunk args keys bytes i [] (_ ∷ _) s h = absurd h
  Stored-HasChunk args keys bytes i (_ ∷ _) [] s h = absurd h
  Stored-HasChunk args keys bytes i (c ∷ chunks) (x ∷ hashes) s h =
      (h.1, Stored-HasChunk args keys bytes (suc i) chunks hashes s h.2)

  module _ (K : UploadArgs → Type 0) where
    -- A manifest that an upload of the kind `K` prints once all its chunks are stored.
    pub record Written (s : op.State) (h b : Str) : Type 0 where
      pub args : UploadArgs
      pub kind : K args
      pub p : Prepared
      pub vclock : VectorClock
      pub keys : Option (Str × Str)
      pub hashes : List Str
      pub wrapped : Option Str
      pub prepared : prepare D args ≡ ok p
      pub named : h ≡ p.hash
      pub keyed : encryption_keys D args p ≡ ok keys
      pub stored : Stored args keys p.bytes 0 p.chunks hashes s
      pub wraps : wrapped_key D args keys ≡ ok wrapped
      pub printed : to_bytes json (manifest_of D args p vclock hashes wrapped) ≡ ok b

    Written-map :
        (h b : Str) (s t : op.State)
        → ((c : Str) → HasChunk s c → HasChunk t c)
        → Written s h b
        → Written t h b
    Written-map h b s t f w = record {
      args = w.args;
      kind = w.kind;
      p = w.p;
      vclock = w.vclock;
      keys = w.keys;
      hashes = w.hashes;
      wrapped = w.wrapped;
      prepared = w.prepared;
      named = w.named;
      keyed = w.keyed;
      wraps = w.wraps;
      printed = w.printed;
      stored = Stored-map w.args w.keys w.p.bytes 0 w.p.chunks w.hashes s t f w.stored;
    }

    -- From a consistent store to a consistent one in which every chunk and every manifest is still
    -- there, and every new manifest was written by an upload of the kind `K`.
    pub record Extends (s t : op.State) : Type 0 where
      pub keeps : IsConsistent s → IsConsistent t
      pub present : (c : Str) → HasChunk s c → HasChunk t c
      pub addresses : IsAddressed s → IsAddressed t
      pub stays :
          (h : Str)
          → L.object s (manifest_key prefix h) ≢ none
          → L.object t (manifest_key prefix h) ≢ none
      pub manifests :
          (h b : Str)
          → L.object t (manifest_key prefix h) ≡ some b
          → (L.object s (manifest_key prefix h) ≡ some b) ⊎ Written t h b

    pub Extends-refl : (s : op.State) → Extends s s
    Extends-refl s = record {
      keeps = λ h. h;
      present = λ c h. h;
      addresses = λ h. h;
      stays = λ h there. there;
      manifests = λ h b e. inl e;
    }

    pub Extends-trans : (s t u : op.State) → Extends s t → Extends t u → Extends s u
    Extends-trans s t u p q = record {
      keeps = λ h. q.keeps (p.keeps h);
      present = λ c h. q.present c (p.present c h);
      addresses = λ h. q.addresses (p.addresses h);
      stays = λ h there. q.stays h (p.stays h there);
      manifests = λ h b e. elim (q.manifests h b e) [
        | inr w ↦ inr w
        | inl before ↦ elim (p.manifests h b before) [
          | inl older ↦ inl older
          | inr w ↦ inr (Written-map h b t u q.present w)
        ]
      ];
    }

    -- A step that touches no chunk and no manifest.
    Extends-apart :
        (s t : op.State)
        → ((c : Str) → L.object s (chunk_key prefix c) ≡ L.object t (chunk_key prefix c))
        → ((g : Str) → L.object s (manifest_key prefix g) ≡ L.object t (manifest_key prefix g))
        → Extends s t
    Extends-apart s t at_chunk at_manifest = record {
      keeps = λ h. record {
        chunk_content = λ g d e. h.chunk_content g d (at_chunk g ∙ e);
        manifest_chunks = λ g b m e p.
            All-map (HasChunk s) (HasChunk t) m.chunks (λ c there gone. there (at_chunk c ∙ gone))
              (h.manifest_chunks g b m (at_manifest g ∙ e) p);
      };
      present = λ c there gone. there (at_chunk c ∙ gone);
      addresses = λ h g b m e p. h g b m (at_manifest g ∙ e) p;
      stays = λ h there gone. there (at_manifest h ∙ gone);
      manifests = λ h b e. inl (at_manifest h ∙ e);
    }

    pub Extends-same : (s t : op.State) → ((j : Str) → L.object t j ≡ L.object s j) → Extends s t
    Extends-same s t same =
        Extends-apart s t (λ c. sym (same (chunk_key prefix c)))
          (λ g. sym (same (manifest_key prefix g)))

    -- An index entry is neither a chunk nor a manifest.
    pub Extends-index :
        (rel : Str) (s t : op.State)
        → ((j : Str) → index_key prefix rel ≢ j → L.object t j ≡ L.object s j)
        → Extends s t
    Extends-index rel s t same =
        Extends-apart s t
          (λ c. sym (same (chunk_key prefix c) (index_key-ne-chunk_key prefix rel c)))
          (λ g. sym (same (manifest_key prefix g) (index_key-ne-manifest_key prefix rel g)))

    -- What a write of `v` at `k` may have done.
    abbrev Wrote : Str → Str → op.State → op.State → Type 0
    Wrote k v s t =
        ((j : Str) → k ≢ j → L.object t j ≡ L.object s j)
        × ((L.object t k ≡ some v) ⊎ (L.object t k ≡ L.object s k))

    present-Wrote :
        (k v : Str) (s t : op.State) → Wrote k v s t → (c : Str) → HasChunk s c → HasChunk t c
    present-Wrote k v s t w c there gone = elim (Bool-cases (k == chunk_key prefix c)) [
      | inl here ↦
          let e : k ≡ chunk_key prefix c = (eq_iff k (chunk_key prefix c)).0 here in
          elim w.1 [ inl new ↦ cc | inr old ↦ there (cc) ]
      | inr other ↦ there (
          sym (w.0 (chunk_key prefix c) (λ e. ground (arith, eq_iff k (chunk_key prefix c))))
          ∙ gone)
    ]

    -- A chunk is written under its own hash.
    pub Extends-chunk :
        (h v : Str) (s t : op.State)
        → hash_hex blake3 v ≡ h
        → Wrote (chunk_key prefix h) v s t
        → Extends s t
    Extends-chunk h v s t hashed w =
        let k = chunk_key prefix h in
        let at_manifest : (g : Str)
            → L.object t (manifest_key prefix g) ≡ L.object s (manifest_key prefix g) =
          λ g. w.0 (manifest_key prefix g) (chunk_key-ne-manifest_key prefix h g) in
        record {
          keeps = λ good. record {
            chunk_content = λ g d e. elim (Bool-cases (k == chunk_key prefix g)) [
              | inl here ↦
                  let same : k ≡ chunk_key prefix g = (eq_iff k (chunk_key prefix g)).0 here in
                  let hg : h ≡ g = chunk_key-injective prefix h g same in
                  elim w.1 [ inl new ↦ cc | inr old ↦ good.chunk_content g d (cc) ]
              | inr other ↦ good.chunk_content g d (
                  sym
                    (w.0 (chunk_key prefix g) (λ q. ground (arith, eq_iff k (chunk_key prefix g))))
                  ∙ e)
            ];
            manifest_chunks = λ g b m e p.
                All-map (HasChunk s) (HasChunk t) m.chunks (present-Wrote k v s t w) (
                  good.manifest_chunks g b m
                    (sym (w.0 (manifest_key prefix g) (chunk_key-ne-manifest_key prefix h g)) ∙ e)
                    p);
          };
          present = present-Wrote k v s t w;
          stays = λ g there gone. there (sym (at_manifest g) ∙ gone);
          manifests = λ g b e. inl (sym (at_manifest g) ∙ e);
          addresses = λ good g b m e p.
              good g b m
                (sym (w.0 (manifest_key prefix g) (chunk_key-ne-manifest_key prefix h g)) ∙ e) p;
        }

    -- A manifest is written once its chunks are there.
    pub Extends-manifest :
        (h v : Str) (m : SyncManifest) (s t : op.State)
        → from_bytes json v ≡ ok m
        → m.file_hash ≡ h
        → All (HasChunk s) m.chunks
        → Written s h v
        → Wrote (manifest_key prefix h) v s t
        → Extends s t
    Extends-manifest h v m s t parsed own there from w =
        let k = manifest_key prefix h in
        let still = present-Wrote k v s t w in
        record {
          keeps = λ good. record {
            chunk_content = λ g d e. good.chunk_content g d (
                sym (w.0 (chunk_key prefix g) (λ q. chunk_key-ne-manifest_key prefix g h (sym q)))
                ∙ e);
            manifest_chunks = λ g b n e p.
                All-map (HasChunk s) (HasChunk t) n.chunks still
                  (elim (Bool-cases (k == manifest_key prefix g)) [
                    | inl here ↦
                        let same : k ≡ manifest_key prefix g =
                          (eq_iff k (manifest_key prefix g)).0 here in
                        elim w.1 [
                          | inl new ↦
                              let q : some v ≡ some b = cc in
                              let vb : v ≡ b = cc q in let mn : m ≡ n = cc in rw mn at there
                          | inr old ↦ good.manifest_chunks g b n (cc) p
                        ]
                    | inr other ↦
                        good.manifest_chunks g b n
                          (sym (
                              w.0 (manifest_key prefix g)
                                (λ q. ground (arith, eq_iff k (manifest_key prefix g))))
                            ∙ e)
                          p
                  ]);
          };
          present = still;
          stays = λ g there gone. elim (Bool-cases (k == manifest_key prefix g)) [
            | inl here ↦
                let same : k ≡ manifest_key prefix g = (eq_iff k (manifest_key prefix g)).0 here in
                elim w.1 [ inl new ↦ cc | inr old ↦ there (cc) ]
            | inr other ↦ there (
                sym (
                  w.0 (manifest_key prefix g)
                    (λ q. ground (arith, eq_iff k (manifest_key prefix g))))
                ∙ gone)
          ];
          manifests = λ g b e. elim (Bool-cases (k == manifest_key prefix g)) [
            | inl here ↦
                let same : k ≡ manifest_key prefix g = (eq_iff k (manifest_key prefix g)).0 here in
                let hg : h ≡ g = manifest_key-injective prefix h g same in
                elim w.1 [
                  | inl new ↦
                      let q : some v ≡ some b = cc in
                      let vb : v ≡ b = cc q in
                      inr (rw (← hg, ← vb) (Written-map h v s t still from))
                  | inr old ↦ inl (cc)
                ]
            | inr other ↦ inl (
                sym (
                  w.0 (manifest_key prefix g)
                    (λ q. ground (arith, eq_iff k (manifest_key prefix g))))
                ∙ e)
          ];
          addresses = λ good g b n e p. elim (Bool-cases (k == manifest_key prefix g)) [
            | inl here ↦
                let same : k ≡ manifest_key prefix g = (eq_iff k (manifest_key prefix g)).0 here in
                let hg : h ≡ g = manifest_key-injective prefix h g same in
                elim w.1 [
                  | inl new ↦ let mn : m ≡ n = cc in cc (ap (λ (x : SyncManifest). x.file_hash) mn)
                  | inr old ↦ good g b n (cc) p
                ]
            | inr other ↦
                good g b n
                  (sym (
                      w.0 (manifest_key prefix g)
                        (λ q. ground (arith, eq_iff k (manifest_key prefix g))))
                    ∙ e)
                  p
          ];
        }

    -- An action that extends the store, whether it succeeds or fails, and what it returns.
    pub record Runs {A : Type 0} (Q : A → op.State → Type 0) (m : Exec (Session op) A)
        (st : Session op) : Type 0 where
      pub extends : Extends st.remote (m st).1.remote
      pub returns : (a : A) → (m st).0 ≡ ok a → Q a (m st).1.remote
