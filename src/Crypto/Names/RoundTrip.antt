-- ===== src/Crypto/Names/RoundTrip.antt =====
-- crates/tcfs-crypto/src/names.rs: an encrypted name is decrypted to what it was.
use tummycrypt.Prelude.{
  ℕ, ◌*◌, ◌/◌, ◌%◌, ◌<◌, ◌≡◌, refl, true, false, some, [], ◌∷◌, Str, str, arith, length, All,
}
use tummycrypt.Prelude.Text.Utf8.{is_utf8}
use tummycrypt.Fallible.{ok, or_err, expanding_key, encrypting_name, >>=-eq-ok}
use tummycrypt.Crypto.Names.{
  AesSiv, IsLawful, hex_digit, hex_encode, digit_value, from_str_radix, is_continuation,
  begins_inside, hex_pairs, hex_decode, encrypt_name, decrypt_name,
}

digit_value-hex_digit : (n : ℕ) → n < 16 → digit_value (hex_digit n) ≡ some n
digit_value-hex_digit n h = ground arith

from_str_radix-hex_digit :
    (b : ℕ) → b < 256 → from_str_radix (hex_digit (b / 16)) (hex_digit (b % 16)) ≡ some b
from_str_radix-hex_digit b h = ground (
  arith,
  digit_value-hex_digit (b / 16) (omega arith),
  digit_value-hex_digit (b % 16) (omega arith),
)

begins_inside-hex_encode : (s : Str) → All (λ b. b < 256) s → begins_inside (hex_encode s) ≡ false
unfolding hex_encode
begins_inside-hex_encode [] h = refl
begins_inside-hex_encode (b ∷ s) h = ground arith

hex_pairs-hex_encode : (s : Str) → All (λ b. b < 256) s → hex_pairs (hex_encode s) ≡ ok s
unfolding hex_pairs hex_encode
hex_pairs-hex_encode [] h = refl
hex_pairs-hex_encode (b ∷ s) h =
    let plain : is_continuation (hex_digit (b / 16)) ≡ false = ground arith in
    rw
      (
        plain,
        begins_inside-hex_encode s h.1,
        from_str_radix-hex_digit b h.0,
        hex_pairs-hex_encode s h.1,
      )
      refl

length-hex_encode : (s : Str) → length (hex_encode s) ≡ 2 * length s
unfolding hex_encode
length-hex_encode [] = refl
length-hex_encode (b ∷ s) = omega (arith, length-hex_encode s)

-- Bytes in hexadecimal are decoded to themselves.
pub hex_decode-hex_encode : (s : Str) → All (λ b. b < 256) s → hex_decode (hex_encode s) ≡ ok s
unfolding hex_decode
hex_decode-hex_encode s h = ground (arith, length-hex_encode s, hex_pairs-hex_encode s h)

-- With a cipher that unseals what it seals into bytes, a name, which is UTF-8, that was encrypted is
-- decrypted under the same key to what it was.
pub decrypt_name-encrypt_name :
    (A : AesSiv)
    → IsLawful A
    → (key name : Str) {encrypted : Str} → is_utf8 name ≡ true
    → encrypt_name A key name ≡ ok encrypted
    → decrypt_name A key encrypted ≡ ok name
unfolding encrypt_name decrypt_name
decrypt_name-encrypt_name A law key name {encrypted} u h =
    let (double, expanded, h1) =
      >>=-eq-ok (or_err expanding_key (A.expand key (str "tcfs-name-aes-siv"))) h in
    let (c, sealed, h2) = >>=-eq-ok (or_err encrypting_name (A.seal double name)) h1 in
    let made : A.seal double name ≡ some c = ground arith in
    let same : hex_encode c ≡ encrypted = cc h2 in
    rw
      (
        ← same,
        hex_decode-hex_encode c (law.seal-bytes double name c made),
        expanded,
        law.unseal-seal double name c made,
        u,
      )
      refl
