-- ===== src/Users/Params/Tmpkey.antt =====
-- The key that `gotTmpkey` of srv/mws.go hands to an application.
use erina.Base.{◌/◌, ◌≡◌, ap, refl, arith, ◌++◌, true, length}
use erina.Words.{Bytes, IsBytes}
use erina.Outcome.{ok}
use erina.Aes.{Cipher, IsCipher, key_fits, blocks, encrypt_np, decrypt_np}
use erina.Aes.RoundTrip.{blocks-blocks, length-blocks}
use erina.Users.Params.{got_tmpkey}

-- For a cipher with the laws of AES, a key of 16 bytes and an authorisation code of a length that is
-- allowed for a key: `gotTmpkey` succeeds, whoever decrypts its text with the code, without padding,
-- gets the key, and the session's secret is the MD5 sum of the key and the code.
pub got_tmpkey-decrypt_np :
    (c : Cipher) (md5 : Bytes → Bytes) (random authcode : Bytes)
    → IsCipher c
    → IsBytes random
    → length random ≡ 16
    → key_fits authcode ≡ true
    → (tmpcipher : Bytes) × (got_tmpkey c md5 random authcode
        ≡ ok (tmpcipher, md5 (random ++ authcode)))
      × (decrypt_np c tmpcipher authcode ≡ ok random)
      × (length tmpcipher ≡ 16)
unfolding got_tmpkey encrypt_np decrypt_np
got_tmpkey-decrypt_np c md5 random authcode law bytes long fits =
    let out : Bytes = blocks (c.encrypt_block authcode) 1 random in
    let same_len : length out ≡ length random =
      length-blocks (c.encrypt_block authcode) 1 random (omega (arith, long)) in
    let one : length random / 16 ≡ 1 = omega (arith, long) in
    let one_again : length out / 16 ≡ 1 = omega (arith, long, same_len) in
    (
      out,
      rw (fits, one) refl,
      rw (fits, one_again)
          (ap ok (
            blocks-blocks (c.encrypt_block authcode) (c.decrypt_block authcode)
              (law.length-encrypt_block authcode) (law.decrypt_block-encrypt_block authcode) 1
              random (omega (arith, long)) bytes)),
      omega (arith, long, same_len),
    )
