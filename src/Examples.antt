-- ===== src/Examples.antt =====
-- Sample messages and a toy block cipher, and the theorems at them.
use erina.Base.{
  ◌/◌, ◌*◌, ◌≢◌, ◌∙◌, ℕ, suc, ◌+◌, ◌-◌, ◌≡◌, refl, ap, arith, [], ◌∷◌, some, true, replicate,
  length, if◌then◌else◌,
}
use erina.Msg.Decode.{frame_header, binary2msg, header}
use erina.Words.{Bytes, IsBytes}
use erina.Aes.{Cipher, IsCipher, encrypt, decrypt, pkcs5_padding, pkcs5_unpadding}
use erina.Crc.{crc}
use erina.Outcome.{Outcome, ok, err, bad_padding}
use erina.Msg.Encode.{msg2binary, prepare}
use erina.Msg.Types.{panic, done, Msg, new_msg}
use erina.Msg.Mask.{mask_content}
use erina.Msg.Decode.Safety.{Leaves}
mod Sessions
mod Children
mod Commands
mod Queues
mod Wires
mod Pushes
mod Gateways
mod Proxies
mod Logins
use erina.Msg.Encode.Unwritten
use erina.Aes.RoundTrip
use erina.Crc.Detection
use erina.Msg.Mask.Involution
use erina.Msg.Decode.Restore
use erina.Msg.RoundTrip.Plain
use erina.Msg.RoundTrip.Random
use erina.Msg.RoundTrip.Secret

-- A block cipher that flips every bit, whatever the key.
abbrev flip : Bytes → Bytes
flip [] = []
flip (b ∷ bs) = (255 - b) ∷ flip bs

abbrev flip_cipher : Cipher
flip_cipher = record { encrypt_block = λ key. flip; decrypt_block = λ key. flip }

length-flip : (b : Bytes) → length (flip b) ≡ length b
length-flip [] = refl
length-flip (x ∷ b) = ap suc (length-flip b)

flip-flip : (b : Bytes) → IsBytes b → flip (flip b) ≡ b
flip-flip [] h = refl
flip-flip (x ∷ b) (p, h) =
    let back : 255 - (255 - x) ≡ x = omega arith in λ i. back i ∷ flip-flip b h i

flip-IsBytes : (b : Bytes) → IsBytes (flip b)
flip-IsBytes [] = _
flip-IsBytes (x ∷ b) = (omega arith, flip-IsBytes b)

flip_cipher-IsCipher : IsCipher flip_cipher
flip_cipher-IsCipher = record {
  length-encrypt_block = λ key b h. length-flip b ∙ h;
  decrypt_block-encrypt_block = λ key b h k. flip-flip b k;
  encrypt_block-IsBytes = λ key b h. flip-IsBytes b;
  decrypt_block-IsBytes = λ key b h. flip-IsBytes b;
}

abbrev secret : Bytes
secret = replicate 16 7

-- A masked command of an application to a device, at the given key level.
abbrev command : ℕ → Msg
command level = record new_msg {
  fh_mask = true;
  fh_opcode = 2;
  fh_sequence = 300;
  fh_time = 123456;
  fh_dst_id = 7;
  fh_src_id = 99;
  dh_key_level = level;
  dh_msg_id = 0xc1;
  mz = some secret;
  dh_session_id = some (1 ∷ 2 ∷ 3 ∷ 4 ∷ 5 ∷ 6 ∷ 7 ∷ 8 ∷ []);
  text = 9 ∷ 8 ∷ [];
}

abbrev sent : Bytes
sent = 1 ∷ 2 ∷ 3 ∷ []

abbrev damaged : Bytes
damaged = 1 ∷ 7 ∷ 3 ∷ []

abbrev ids : Bytes
ids = 1 ∷ 2 ∷ 3 ∷ 4 ∷ 5 ∷ []

-- What arrives at a decoder: bytes that are not a frame.
abbrev noise : Msg
noise = record new_msg { final = replicate 60 0x43; mz = some secret }

binary2msg-final_example : Leaves (λ n. n.final ≡ noise.final) (binary2msg flip_cipher noise)
binary2msg-final_example = Restore.binary2msg-final flip_cipher noise (ground arith)

crc_detects_one_byte_example :
    (c : ℕ) × (d : ℕ) × (crc sent (length sent) ≡ some c)
    × (crc damaged (length damaged) ≡ some d)
    × (c ≢ d)
crc_detects_one_byte_example =
    Detection.crc_detects_one_byte (1 ∷ []) (3 ∷ []) 2 7 (ground arith) (ground arith) (omega arith)
      (omega arith) (omega arith)

decrypt-encrypt_example :
    (crypted : Bytes) × (encrypt flip_cipher damaged secret ≡ ok crypted)
    × (decrypt flip_cipher crypted secret ≡ ok damaged)
    × (length crypted ≡ 16 * (length damaged / 16 + 1))
    × IsBytes crypted
decrypt-encrypt_example =
    RoundTrip.decrypt-encrypt flip_cipher flip_cipher-IsCipher damaged secret refl (ground arith)
      (omega arith)

mask_content-mask_content_example :
    (masked : Bytes) × (mask_content ids (6 ∷ 7 ∷ 8 ∷ 9 ∷ []) ≡ some masked)
    × (length masked ≡ length ids)
    × (mask_content masked (6 ∷ 7 ∷ 8 ∷ 9 ∷ []) ≡ some ids)
mask_content-mask_content_example =
    Involution.mask_content-mask_content ids (6 ∷ 7 ∷ 8 ∷ 9 ∷ []) refl
