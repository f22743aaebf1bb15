-- ===== src/Aes/RoundTrip.antt =====
-- Decryption undoes encryption.
use erina.Base.{
  ◌≢◌, ℕ, zero, suc, ◌+◌, ◌-◌, ◌*◌, ◌/◌, ◌%◌, ◌≤◌, ◌<◌, ◌≡◌, refl, ◌∙◌, subst, arith, [], ◌∷◌, ◌++◌,
  true, length, take, drop, get_or, replicate, length-append, length-replicate, length-take,
  length-drop, take-append, drop-append, take-append-drop, All-append, All-take, All-drop,
  All-replicate,
}
use erina.Words.{fit, Bytes, IsBytes}
use erina.Words.Laws.{length-fit, fit_exact, fit-IsBytes}
use erina.Outcome.{Outcome, ok, err, bad_padding}
use erina.Aes.{Cipher, IsCipher, key_fits, pkcs5_padding, pkcs5_unpadding, blocks, encrypt, decrypt}

pub length-pkcs5_padding :
    (text : Bytes) → (length (pkcs5_padding text 16) ≡ 16 * (length text / 16 + 1))
unfolding pkcs5_padding
length-pkcs5_padding text = omega (
  arith,
  length-append text (replicate (16 - length text % 16) ((16 - length text % 16) % 256)),
  length-replicate (16 - length text % 16) ((16 - length text % 16) % 256),
)

get_or-replicate_last :
    (text : Bytes) (n v : ℕ) → get_or (text ++ replicate (suc n) v) (n + length text) 0 ≡ v
get_or-replicate_last [] zero v = refl
get_or-replicate_last [] (suc n) v =
    subst (λ (t : ℕ). get_or (replicate (suc (suc n)) v) t 0 ≡ v) {x = suc (n + 0)} {y = suc n + 0}
      (omega arith) (get_or-replicate_last [] n v)
get_or-replicate_last (x ∷ text) n v =
    subst (λ (t : ℕ). get_or (x ∷ (text ++ replicate (suc n) v)) t 0 ≡ v)
      {x = suc (n + length text)} {y = n + suc (length text)} (omega arith)
      (get_or-replicate_last text n v)

-- The last byte of `n + 1` equal bytes behind a text that is not empty takes them off again.
unpad_lem :
    (text : Bytes) (n : ℕ)
    → n < 16
    → 0 < length text
    → pkcs5_unpadding (text ++ replicate (suc n) (suc n)) ≡ ok text
unfolding pkcs5_unpadding
unpad_lem text n h ne =
    let padded : Bytes = text ++ replicate (suc n) (suc n) in
    let len : length padded ≡ suc (n + length text) =
      omega
        (arith, length-append text (replicate (suc n) (suc n)), length-replicate (suc n) (suc n)) in
    let last : length padded - 1 ≡ n + length text = omega arith in
    let kept : length padded - suc n ≡ length text = omega arith in
    rw (last, get_or-replicate_last text n (suc n))
      (ground (arith, kept, take-append (length text) text (replicate (suc n) (suc n)) refl))

-- For every text that is not empty, unpadding gives back what was padded.
pub pkcs5_unpadding-pkcs5_padding :
    (text : Bytes) → 0 < length text → pkcs5_unpadding (pkcs5_padding text 16) ≡ ok text
unfolding pkcs5_padding
pkcs5_unpadding-pkcs5_padding text ne =
    let n : ℕ = 15 - length text % 16 in
    let count : 16 - length text % 16 ≡ suc n = omega arith in
    let value : suc n % 256 ≡ suc n = omega arith in
    rw (count, value) (unpad_lem text n (omega arith) ne)

-- The loop fills the buffer that it was given, whatever the cipher does.
pub length-blocks :
    (f : Bytes → Bytes) (q : ℕ) (src : Bytes)
    → 16 * q ≤ length src
    → length (blocks f q src) ≡ length src
unfolding blocks
length-blocks f zero src h = length-replicate (length src) 0
length-blocks f (suc q) src h = omega (
  arith,
  length-append (fit 16 (f (take 16 src))) (blocks f q (drop 16 src)),
  length-fit 16 (f (take 16 src)),
  length-drop 16 src,
  length-blocks f q (drop 16 src) (omega (arith, length-drop 16 src)),
)

module _ (f g : Bytes → Bytes) (length-f : (b : Bytes) → length b ≡ 16 → length (f b) ≡ 16)
    (g-f : (b : Bytes) → length b ≡ 16 → IsBytes b → g (f b) ≡ b) where
  pub blocks-blocks :
      (q : ℕ) (src : Bytes) → length src ≡ 16 * q → IsBytes src → blocks g q (blocks f q src) ≡ src
  unfolding blocks
  blocks-blocks zero [] h k = refl
  blocks-blocks zero (x ∷ src) h k = absurd (omega arith)
  blocks-blocks (suc q) src h k =
      let head : Bytes = take 16 src in
      let rest : Bytes = drop 16 src in
      let len : length head ≡ 16 = omega (arith, length-take 16 src) in
      let behind : length rest ≡ 16 * q = omega (arith, length-drop 16 src) in
      let cipher : length (f head) ≡ 16 = length-f head len in
      rw
        (
          fit_exact 16 (f head) cipher,
          take-append 16 (f head) (blocks f q rest) cipher,
          drop-append 16 (f head) (blocks f q rest) cipher,
          g-f head len (All-take _ 16 src k),
          blocks-blocks q rest behind (All-drop _ 16 src k),
          fit_exact 16 head len,
        )
        (take-append-drop 16 src)

  blocks-IsBytes :
      ((b : Bytes) → IsBytes b → IsBytes (f b))
      → (q : ℕ) (src : Bytes) → IsBytes src
      → IsBytes (blocks f q src)
  unfolding blocks
  blocks-IsBytes keep zero src k = All-replicate _ (length src) 0 (omega arith)
  blocks-IsBytes keep (suc q) src k =
      All-append _ (fit 16 (f (take 16 src))) _
        (fit-IsBytes 16 (f (take 16 src)) (keep _ (All-take _ 16 src k)))
        (blocks-IsBytes keep q (drop 16 src) (All-drop _ 16 src k))

pkcs5_padding-IsBytes : (text : Bytes) → IsBytes text → IsBytes (pkcs5_padding text 16)
unfolding pkcs5_padding
pkcs5_padding-IsBytes text k =
    All-append _ text _ k (All-replicate _ (16 - length text % 16) _ (omega arith))

module _ (c : Cipher) (law : IsCipher c) where
  abbrev ciphertext : Bytes → Bytes → Bytes
  ciphertext plain key =
      let padded = pkcs5_padding plain 16 in
      blocks (c.encrypt_block key) (length padded / 16) padded

  length-ciphertext :
      (plain key : Bytes) → length (ciphertext plain key) ≡ 16 * (length plain / 16 + 1)
  length-ciphertext plain key =
      length-blocks (c.encrypt_block key) (length (pkcs5_padding plain 16) / 16)
        (pkcs5_padding plain 16) (omega arith)
      ∙ length-pkcs5_padding plain

  -- With a key of an AES size, every text of bytes that is not empty is encrypted to whole
  -- blocks of bytes, one more than it fills, and decryption gives the text back.
  pub decrypt-encrypt :
      (plain key : Bytes)
      → key_fits key ≡ true
      → IsBytes plain
      → 0 < length plain
      → (crypted : Bytes) × (encrypt c plain key ≡ ok crypted)
        × (decrypt c crypted key ≡ ok plain)
        × (length crypted ≡ 16 * (length plain / 16 + 1))
        × IsBytes crypted
  unfolding encrypt decrypt
  decrypt-encrypt plain key fits k ne =
      let padded : Bytes = pkcs5_padding plain 16 in
      let lp : length padded ≡ 16 * (length plain / 16 + 1) = length-pkcs5_padding plain in
      let q : ℕ = length padded / 16 in
      let lc : length (ciphertext plain key) ≡ 16 * (length plain / 16 + 1) =
        length-ciphertext plain key in
      let same : length (ciphertext plain key) / 16 ≡ q = omega arith in
      (
        ciphertext plain key,
        rw fits,
        rw
            (
              fits,
              same,
              blocks-blocks (c.encrypt_block key) (c.decrypt_block key)
                  (law.length-encrypt_block key) (law.decrypt_block-encrypt_block key) q padded
                  (omega arith) (pkcs5_padding-IsBytes plain k),
            )
            (pkcs5_unpadding-pkcs5_padding plain ne),
        lc,
        blocks-IsBytes (c.encrypt_block key) (c.decrypt_block key) (law.length-encrypt_block key)
            (law.decrypt_block-encrypt_block key) (law.encrypt_block-IsBytes key) q padded
            (pkcs5_padding-IsBytes plain k),
      )

  -- An empty text is encrypted, and what it is encrypted to is refused by decryption.
  pub decrypt-encrypt_empty :
      (key : Bytes)
      → key_fits key ≡ true
      → (crypted : Bytes) × (encrypt c [] key ≡ ok crypted)
        × (decrypt c crypted key ≡ err bad_padding)
  unfolding encrypt decrypt
  decrypt-encrypt_empty key fits =
      let padded : Bytes = replicate 16 16 in
      let lc : length (ciphertext [] key) ≡ 16 = length-ciphertext [] key in
      let same : length (ciphertext [] key) / 16 ≡ 1 = omega arith in
      (
        ciphertext [] key,
        rw fits,
        rw (fits, same)
            (unfold pkcs5_padding in
              (rw
                (blocks-blocks (c.encrypt_block key) (c.decrypt_block key)
                  (law.length-encrypt_block key) (law.decrypt_block-encrypt_block key) 1 padded refl
                  (omega arith))
                (unfold pkcs5_unpadding in refl))),
      )

-- What is not empty is decrypted without a panic, to a text or to an error.
pub decrypt-ne-panic :
    (c : Cipher) (crypted key : Bytes) → 0 < length crypted → decrypt c crypted key ≢ Outcome.panic
unfolding decrypt pkcs5_unpadding
decrypt-ne-panic c crypted key h =
    ground (arith, length-blocks (c.decrypt_block key) (length crypted / 16) crypted (omega arith))
