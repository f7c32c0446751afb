-- ===== src/Fallible.antt =====
-- `anyhow::Result`: a value, or the error that the code names at that place.
use tummycrypt.Prelude.{◌≡◌, ◌⊎◌, inl, inr, refl, Bool, false, Option, none, some, Str}

pub data Error : Type 0 where
  -- `std::fs`
  stat_failed reading_failed writing_failed renaming_failed creating_dir_failed : Str → Error
  removing_failed : Str → Error
  -- the state cache
  parsing_state_cache serializing_state_cache : Error
  -- the manifest
  manifest_not_utf8 manifest_is_empty serializing_manifest : Error
  -- the engine
  chunking_failed uploading_chunk uploading_manifest : Error
  reading_manifest manifest_has_no_chunks downloading_chunk chunk_integrity file_integrity : Error
  -- the encryption of chunks and keys
  encrypting_chunk decrypting_chunk wrapping_key unwrapping_key decoding_key parsing_file_hash :
      Error
  no_encryption_context expanding_key encrypting_name decrypting_name odd_hex invalid_hex
        name_not_utf8 :
      Error
  -- frames of compressed data
  compressing_frame decompressing_frame : Error
  -- an `unwrap` of `None`
  panicked : Error
  -- the error numbers of the FUSE driver
  no_such_entry io_error bad_handle : Error
  -- a task of the queue
  path_not_found : Error
  -- the daemon
  unavailable manifest_serialize manifest_upload invalid_resolution no_local_state no_remote_path :
      Error
  rename_failed stub_not_utf8 no_real_name no_blake3_prefix download_failed_after not_in_sync_state
        flush_failed_unsync :
      Error
  -- the command line
  opening_state_cache not_tracked local_changes no_filename already_enrolled no_such_device : Error
  no_password passphrases_differ identity_failed bad_remote_spec : Error
  -- the registry of devices
  parsing_registry serializing_registry registry_not_utf8 reading_registry writing_registry : Error
  -- credentials
  credentials_not_found parsing_yaml serializing_yaml sops_failed sops_not_utf8 : Error
  -- index entries
  invalid_number missing_field no_separator unsupported_version missing_version : Error

pub data Result {ℓ} (A : Type ℓ) : Type ℓ where
  err : Error → Result A
  ok : A → Result A

-- `ok_or`, `context`.
abbrev pub or_err {ℓ} : {A : Type ℓ} → Error → Option A → Result A
or_err e none = err e
or_err e (some a) = ok a

-- `unwrap_or(false)`.
abbrev pub or_false : Result Bool → Bool
or_false (ok b) = b
or_false (err e) = false

infixl 5 ◌>>=◌ ◌>>◌
-- The question mark of Rust, before the rest of the function.
abbrev pub ◌>>=◌ {ℓ κ} : {A : Type ℓ} {B : Type κ} → Result A → (A → Result B) → Result B
◌>>=◌ (err e) next = err e
◌>>=◌ (ok a) next = next a

abbrev pub ◌>>◌ {ℓ κ} : {A : Type ℓ} {B : Type κ} → Result A → Result B → Result B
◌>>◌ m next = m >>= λ _. next

-- What a result that came out of two steps says of each.
pub >>=-eq-ok {ℓ κ} :
    {A : Type ℓ} {B : Type κ} {next : A → Result B} {b : B} (m : Result A)
    → (m >>= next) ≡ ok b
    → (a : A) × (m ≡ ok a) × (next a ≡ ok b)
>>=-eq-ok (err e) h = absurd (cc h)
>>=-eq-ok (ok a) h = (a, refl, h)

-- `Result::map`.
abbrev pub result_map {ℓ κ} : {A : Type ℓ} {B : Type κ} → (A → B) → Result A → Result B
result_map f (err e) = err e
result_map f (ok a) = ok (f a)

pub Result-cases {ℓ} :
    {A : Type ℓ} (r : Result A) → ((e : Error) × (r ≡ err e)) ⊎ ((a : A) × (r ≡ ok a))
Result-cases (err e) = inl (e, refl)
Result-cases (ok a) = inr (a, refl)
