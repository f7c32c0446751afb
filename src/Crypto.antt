-- ===== src/Crypto.antt =====
-- crates/tcfs-crypto/src/{chunk,keys}.rs: chunks and file keys under an authenticated cipher.
-- XChaCha20-Poly1305 and the random draws are parameters.
pub mod Laws
pub mod Names
use tummycrypt.Prelude.{
  ℕ, zero, suc, ◌+◌, ◌/◌, ◌%◌, ◌≡◌, Bool, Option, none, some, List, [], ◌∷◌, ◌++◌, Str, ltb, nat_eq,
  if◌then◌else◌, take, drop, length,
}
use tummycrypt.Fallible.{
  Result, ok, err, or_err, ◌>>=◌, encrypting_chunk, decrypting_chunk, wrapping_key, unwrapping_key,
}

abbrev pub nonce_size : ℕ
nonce_size = 24

abbrev pub key_size : ℕ
key_size = 32

abbrev pub tag_size : ℕ
tag_size = 16

-- `cipher.encrypt` and `cipher.decrypt`: key, nonce, message and associated data.
pub record Aead : Type 0 where
  pub seal : Str → Str → Str → Str → Option Str
  pub unseal : Str → Str → Str → Str → Option Str

-- What is sealed is unsealed under the same key, nonce and associated data, and carries a tag.
pub record IsLawful (A : Aead) : Type 0 where
  pub unseal-seal :
      (key nonce msg aad c : Str)
      → A.seal key nonce msg aad ≡ some c
      → A.unseal key nonce c aad ≡ some msg
  pub length-seal :
      (key nonce msg aad c : Str)
      → A.seal key nonce msg aad ≡ some c
      → length c ≡ length msg + tag_size

-- The big-endian bytes of a number, before what follows.
unfoldable pub be_bytes : ℕ → ℕ → Str → Str
be_bytes zero n rest = rest
be_bytes (suc w) n rest = be_bytes w (n / 256) ((n % 256) ∷ rest)

unfoldable pub build_aad : ℕ → Str → Str
unfolding be_bytes
build_aad chunk_index file_id = be_bytes 8 chunk_index file_id

module _ (A : Aead) where
  -- `nonce` is what the random generator draws.
  unfoldable pub encrypt_chunk : Str → Str → ℕ → Str → Str → Result Str
  encrypt_chunk nonce file_key chunk_index file_id plaintext = do
    ciphertext ←
        or_err encrypting_chunk (A.seal file_key nonce plaintext (build_aad chunk_index file_id))
    ok (nonce ++ ciphertext)

  unfoldable pub decrypt_chunk : Str → ℕ → Str → Str → Result Str
  decrypt_chunk file_key chunk_index file_id encrypted =
      if ltb (length encrypted) (nonce_size + 16)
      then err decrypting_chunk
      else or_err decrypting_chunk (
          A.unseal file_key (take nonce_size encrypted) (drop nonce_size encrypted)
            (build_aad chunk_index file_id))

  unfoldable pub wrap_key : Str → Str → Str → Result Str
  wrap_key nonce master file_key = do
    ciphertext ← or_err wrapping_key (A.seal master nonce file_key [])
    ok (nonce ++ ciphertext)

  unfoldable pub unwrap_key : Str → Str → Result Str
  unwrap_key master wrapped =
      if ltb (length wrapped) (nonce_size + key_size + tag_size) then err unwrapping_key else (do
        plaintext ←
            or_err unwrapping_key
              (A.unseal master (take nonce_size wrapped) (drop nonce_size wrapped) [])
        if nat_eq (length plaintext) key_size then ok plaintext else err unwrapping_key)
