-- ===== src/Crypto/Names.antt =====
-- crates/tcfs-crypto/src/names.rs: names of files under AES-SIV, in hexadecimal. HKDF and AES-SIV
-- are parameters.
pub mod RoundTrip
use tummycrypt.Prelude.{
  ℕ, ◌+◌, ◌-◌, ◌*◌, ◌/◌, ◌%◌, ◌<◌, ◌≡◌, Bool, true, false, not, ◌&&◌, ◌||◌, Option, none, some, [],
  ◌∷◌, Str, str, ltb, leb, nat_eq, if◌then◌else◌, length, All,
}
use tummycrypt.Prelude.Text.Utf8.{is_utf8}
use tummycrypt.Fallible.{
  Result, ok, err, or_err, ◌>>=◌, panicked, expanding_key, encrypting_name, decrypting_name,
  odd_hex, invalid_hex, name_not_utf8,
}

-- `Hkdf::new(None, key)` with `expand(info)` into 64 bytes, and `Aes256SivAead` with the nonce of
-- zeros: key and message.
pub record AesSiv : Type 0 where
  pub expand : Str → Str → Option Str
  pub seal : Str → Str → Option Str
  pub unseal : Str → Str → Option Str

-- What is sealed is unsealed under the same key, and is made of bytes.
pub record IsLawful (A : AesSiv) : Type 0 where
  pub unseal-seal : (key msg c : Str) → A.seal key msg ≡ some c → A.unseal key c ≡ some msg
  pub seal-bytes : (key msg c : Str) → A.seal key msg ≡ some c → All (λ b. b < 256) c

-- A digit of `{:02x}`.
abbrev pub hex_digit : ℕ → ℕ
hex_digit n = if ltb n 10 then n + 48 else n + 87

unfoldable pub hex_encode : Str → Str
hex_encode [] = []
hex_encode (byte ∷ bytes) = hex_digit (byte / 16) ∷ hex_digit (byte % 16) ∷ hex_encode bytes

abbrev pub digit_value : ℕ → Option ℕ
digit_value c =
    if not (ltb c 48) && ltb c 58
    then some (c - 48)
    else if not (ltb c 97) && ltb c 103
    then some (c - 87)
    else if not (ltb c 65) && ltb c 71
    then some (c - 55)
    else none

abbrev pub two_digits : Option ℕ → Option ℕ → Option ℕ
two_digits none low = none
two_digits (some high) none = none
two_digits (some high) (some low) = some (high * 16 + low)

-- `u8::from_str_radix` at radix 16 of two characters, the first of which may be a plus sign.
abbrev pub from_str_radix : ℕ → ℕ → Option ℕ
from_str_radix x y =
    if nat_eq x b'+' then digit_value y else two_digits (digit_value x) (digit_value y)

-- Whether a slice of a text may not begin before this byte.
abbrev pub is_continuation : ℕ → Bool
is_continuation c = not (ltb c 128) && ltb c 192

abbrev pub begins_inside : Str → Bool
begins_inside [] = false
begins_inside (c ∷ s) = is_continuation c

unfoldable pub hex_pairs : Str → Result Str
hex_pairs [] = ok []
hex_pairs (x ∷ []) = err panicked
hex_pairs (x ∷ y ∷ s) = do
  _ ← if is_continuation x || begins_inside s then err panicked else ok (tt {0})
  byte ← or_err invalid_hex (from_str_radix x y)
  bytes ← hex_pairs s
  ok (byte ∷ bytes)

unfoldable pub hex_decode : Str → Result Str
hex_decode s = if not (nat_eq (length s % 2) 0) then err odd_hex else hex_pairs s

module _ (A : AesSiv) where
  unfoldable pub encrypt_name : Str → Str → Result Str
  encrypt_name name_key plaintext_name = do
    double_key ← or_err expanding_key (A.expand name_key (str "tcfs-name-aes-siv"))
    ciphertext ← or_err encrypting_name (A.seal double_key plaintext_name)
    ok (hex_encode ciphertext)

  unfoldable pub decrypt_name : Str → Str → Result Str
  decrypt_name name_key encrypted_hex = do
    ciphertext ← hex_decode encrypted_hex
    double_key ← or_err expanding_key (A.expand name_key (str "tcfs-name-aes-siv"))
    plaintext ← or_err decrypting_name (A.unseal double_key ciphertext)
    if is_utf8 plaintext then ok plaintext else err name_not_utf8
