-- ===== src/Crypto/Laws.antt =====
-- Encryption and decryption are inverse, and the associated data binds a chunk to its place.
use native.Mathlib.Nat.{pow-suc}
use tummycrypt.Prelude.{
  ℕ, zero, suc, ◌*◌, ◌/◌, ◌%◌, ◌^◌, ◌<◌, ◌≡◌, [], ◌∷◌, Str, arith, length, length-append,
  take-append, drop-append, Option-cases, inl, inr,
}
use tummycrypt.Fallible.{ok}
use tummycrypt.Crypto.{
  Aead, IsLawful, be_bytes, build_aad, encrypt_chunk, decrypt_chunk, wrap_key, unwrap_key,
}

module _ (A : Aead) (law : IsLawful A) where
  -- With a cipher that unseals what it seals and adds a tag of 16 bytes, a chunk that was
  -- encrypted under a nonce of 24 bytes is decrypted, under the same key, index and file, to what
  -- it was.
  pub decrypt_chunk-encrypt_chunk :
      (nonce key fid plain : Str) (i : ℕ) {c : Str}
      → length nonce ≡ 24
      → encrypt_chunk A nonce key i fid plain ≡ ok c
      → decrypt_chunk A key i fid c ≡ ok plain
  unfolding encrypt_chunk decrypt_chunk
  decrypt_chunk-encrypt_chunk nonce key fid plain i {c} n h =
      elim (Option-cases (A.seal key nonce plain (build_aad i fid))) [
        | inl fails ↦ absurd (ground arith)
        | inr (s, e) ↦ ground (
          arith,
          take-append nonce s 24 n,
          drop-append nonce s 24 n,
          length-append nonce s,
          law.unseal-seal key nonce plain (build_aad i fid) s e,
          law.length-seal key nonce plain (build_aad i fid) s e,
        )
      ]

  -- With such a cipher, a file key of 32 bytes that was wrapped under a nonce of 24 bytes is
  -- unwrapped by the same master key.
  pub unwrap_key-wrap_key :
      (nonce master key : Str) {w : Str}
      → length nonce ≡ 24
      → length key ≡ 32
      → wrap_key A nonce master key ≡ ok w
      → unwrap_key A master w ≡ ok key
  unfolding wrap_key unwrap_key
  unwrap_key-wrap_key nonce master key {w} n k h =
      elim (Option-cases (A.seal master nonce key [])) [
        | inl fails ↦ absurd (ground arith)
        | inr (s, e) ↦ ground (
          arith,
          take-append nonce s 24 n,
          drop-append nonce s 24 n,
          length-append nonce s,
          law.unseal-seal master nonce key [] s e,
          law.length-seal master nonce key [] s e,
        )
      ]

be_bytes-injective :
    (w i j : ℕ) (r s : Str)
    → i < 256 ^ w
    → j < 256 ^ w
    → be_bytes w i r ≡ be_bytes w j s
    → (i ≡ j) × (r ≡ s)
unfolding be_bytes
be_bytes-injective zero i j r s p q h = (omega arith, h)
be_bytes-injective (suc w) i j r s p q h =
    let p' : i < 256 ^ w * 256 = rw pow-suc at p in
    let q' : j < 256 ^ w * 256 = rw pow-suc at q in
    let (e, t) =
      be_bytes-injective w (i / 256) (j / 256) ((i % 256) ∷ r) ((j % 256) ∷ s) (omega arith)
        (omega arith) h in
    let e' : i % 256 ≡ j % 256 = cc t in (omega arith, cc t)

-- The associated data of two chunks is the same only for the same index, below 2^64, of the same
-- file.
pub build_aad-injective :
    (i j : ℕ) (f g : Str)
    → i < 256 ^ 8
    → j < 256 ^ 8
    → build_aad i f ≡ build_aad j g
    → (i ≡ j) × (f ≡ g)
unfolding build_aad
build_aad-injective i j f g p q h = be_bytes-injective 8 i j f g p q h
