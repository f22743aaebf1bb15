-- ===== src/Aes.antt =====
-- common/aes/aes.go: PKCS#5 padding and block-by-block (ECB) encryption over crypto/aes.
pub mod RoundTrip
use erina.Base.{
  ℕ, zero, suc, ◌+◌, ◌-◌, ◌*◌, ◌/◌, ◌%◌, ◌≤◌, ◌<◌, ◌≡◌, List, [], ◌∷◌, ◌++◌, Option, none, some,
  ◌||◌, ltb, leb, ◌==◌, if◌then◌else◌, length, take, drop, get_or, replicate, bit_and, Bool, not,
}
use erina.Words.{Bytes, IsBytes, index, fit}
use erina.Outcome.{Outcome, ok, err, panic, bad_key_size, bad_padding, ◌>>=◌, checked}

-- The block cipher of crypto/aes: key, then block.
pub record Cipher : Type 0 where
  pub encrypt_block : Bytes → Bytes → Bytes
  pub decrypt_block : Bytes → Bytes → Bytes

abbrev pub block_size : ℕ
block_size = 16

-- What is relied on of crypto/aes: under one key, decryption undoes encryption of a block of
-- bytes, and encryption gives a block of bytes.
pub record IsCipher (c : Cipher) : Type 0 where
  pub length-encrypt_block :
      (key block : Bytes) → length block ≡ 16 → length (c.encrypt_block key block) ≡ 16
  pub decrypt_block-encrypt_block :
      (key block : Bytes)
      → length block ≡ 16
      → IsBytes block
      → c.decrypt_block key (c.encrypt_block key block) ≡ block
  pub encrypt_block-IsBytes :
      (key block : Bytes) → IsBytes block → IsBytes (c.encrypt_block key block)
  pub decrypt_block-IsBytes :
      (key block : Bytes) → IsBytes block → IsBytes (c.decrypt_block key block)

-- `aes.NewCipher` accepts keys of 16, 24 and 32 bytes.
abbrev pub key_fits : Bytes → Bool
key_fits key = (length key == 16) || (length key == 24) || (length key == 32)

unfoldable pub pkcs5_padding : Bytes → ℕ → Bytes
pkcs5_padding text block =
    let padding = block - length text % block in text ++ replicate padding (padding % 256)

-- The last byte is read before anything is tested, so an empty slice panics.
unfoldable pub pkcs5_unpadding : Bytes → Outcome Bytes
pkcs5_unpadding plain = do
  unpadding ← checked (index plain (length plain - 1))
  if leb (length plain) unpadding || ltb 16 unpadding
      then err bad_padding
      else ok (take (length plain - unpadding) plain)

-- The block loop: `quotient` whole blocks go through `f`, each into the 16 bytes at its place, and
-- what is left over stays zero.
unfoldable pub blocks : (Bytes → Bytes) → ℕ → Bytes → Bytes
blocks f zero src = replicate (length src) 0
blocks f (suc quotient) src = fit 16 (f (take 16 src)) ++ blocks f quotient (drop 16 src)

module _ (c : Cipher) where
  open c use {encrypt_block, decrypt_block}

  unfoldable pub encrypt : Bytes → Bytes → Outcome Bytes
  encrypt plain key =
      if not (key_fits key)
      then err bad_key_size
      else (let padded = pkcs5_padding plain block_size in
          ok (blocks (encrypt_block key) (length padded / block_size) padded))

  unfoldable pub decrypt : Bytes → Bytes → Outcome Bytes
  decrypt crypted key =
      if not (key_fits key)
      then err bad_key_size
      else pkcs5_unpadding (blocks (decrypt_block key) (length crypted / block_size) crypted)

  -- The variants without padding.
  unfoldable pub encrypt_np : Bytes → Bytes → Outcome Bytes
  encrypt_np plain key =
      if not (key_fits key)
      then err bad_key_size
      else ok (blocks (encrypt_block key) (length plain / block_size) plain)

  unfoldable pub decrypt_np : Bytes → Bytes → Outcome Bytes
  decrypt_np crypted key =
      if not (key_fits key)
      then err bad_key_size
      else ok (blocks (decrypt_block key) (length crypted / block_size) crypted)

  -- Byte 24 is the first of the data header; its low bits are the encryption type.
  unfoldable pub dealing_cipher : Bytes → Bytes → Outcome Bytes
  dealing_cipher crypted key = do
    first ← checked (index crypted 24)
    if bit_and first 0x03 == 0 then ok crypted else decrypt crypted key
