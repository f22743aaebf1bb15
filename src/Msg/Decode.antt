-- ===== src/Msg/Decode.antt =====
-- `FrameHeader`, `Header` and `Binary2Msg` of msgs/msg.go.
use erina.Base.{
  ℕ, Option, ◌+◌, ◌/◌, none, some, Bool, true, false, ◌&&◌, ◌||◌, not, bit_and, if◌then◌else◌, ◌==◌,
  ltb, length, take, drop,
}
use erina.Words.{Bytes, index, slice, of_le, hex_encode}
use erina.Outcome.{
  Outcome, ok, err, empty_message, wrong_opcode, too_short, wrong_body_length, header_check,
  body_check, short_text, no_mz, wrong_key_level,
}
use erina.Crc.{crc}
use erina.Aes.{Cipher, decrypt}
use erina.Msg.Types.{Msg, Exit, done, failed, panic, ◌>>=◌, and_then, known_opcode, data_offset}
use erina.Msg.Mask.{toggle_mask, deferred}
use erina.Msg.Key.{random_key_get, xor_key}
pub mod Safety
pub mod Restore

-- The flags of the first byte and the fields up to the time. A flag that is not set in the byte
-- keeps the value that it had.
unfoldable pub read_flags : Msg → Exit
read_flags m = do
  first ← index m.final 0
  reserve ← index m.final 1
  sequence ← slice m.final 2 4
  time ← slice m.final 4 8
  done (record m {
    fh_fin = if bit_and first 0x80 == 0x80 then true else m.fh_fin;
    fh_mask = if bit_and first 0x40 == 0x40 then true else m.fh_mask;
    fh_ver = bit_and first 0x30 / 16;
    fh_short = if bit_and first 0x08 == 0x08 then true else m.fh_short;
    fh_reserve = reserve;
    fh_sequence = of_le sequence;
    fh_time = of_le time;
  })

-- The checks that the three decoders begin with.
unfoldable pub read_front : Msg → Exit
read_front m =
    let mlen = length m.final in
    if mlen == 0 then failed empty_message m else (do
      first ← index m.final 0
      let m1 = record m { fh_opcode = bit_and 0x07 first }
      if not (known_opcode m1.fh_opcode)
          then failed wrong_opcode m1
          else (if (not (m1.fh_opcode == 3) && ltb mlen 40) || (m1.fh_opcode == 3 && ltb mlen 56)
              then failed too_short m1
              else read_flags m1))

unfoldable pub read_ids : Msg → Exit
read_ids m = do
  dst ← slice m.final 8 16
  src ← slice m.final 16 24
  done (record m {
    fh_dst_id = of_le dst;
    fh_dst_mac = hex_encode dst;
    fh_src_id = of_le src;
    fh_src_mac = hex_encode src;
  })

unfoldable pub frame_header : Msg → Exit
frame_header m = and_then (read_front m) λ m. deferred (and_then (toggle_mask m) read_ids)

-- The fields of the data header up to the length.
abbrev pub with_data_header : Msg → ℕ → ℕ → Bytes → Bytes → Msg
with_data_header m first seq id len = record m {
  dh_read = if bit_and first 0x80 == 0x80 then true else m.dh_read;
  dh_ack = if bit_and first 0x40 == 0x40 then true else m.dh_ack;
  dh_data_format = bit_and first 0x30 / 16;
  dh_key_level = bit_and first 0x0c / 4;
  dh_encrypt_type = bit_and first 0x03;
  dh_data_seq = seq;
  dh_msg_id = of_le id;
  dh_length = of_le len;
}

-- `m.FHGuid` is a window of the buffer.
abbrev pub window_guid : Msg → Exit
window_guid m =
    if m.fh_opcode == 3
    then (do guid ← slice m.final 24 40; done (record m { fh_guid = some guid }))
    else done m

-- The deferred masking writes through that window, so the guid is read again after it.
abbrev pub rewindow : Exit → Exit
rewindow (done m) = window_guid m
rewindow (failed e m) = elim (window_guid m) [
  | done m' ↦ failed e m'
  | failed e' m' ↦ failed e' m'
  | panic ↦ panic
]
rewindow panic = panic

-- The last two fields that `Header` reads.
unfoldable pub read_msg_id : Msg → Exit
read_msg_id m = do
  first ← index m.final (data_offset m.fh_opcode)
  id ← slice m.final (data_offset m.fh_opcode + 2) (data_offset m.fh_opcode + 4)
  done (record m { dh_key_level = bit_and first 0x0c / 4; dh_msg_id = of_le id })

-- A decrypted body: the session id, then the text.
unfoldable pub unseal : Msg → Bytes → Bool → Exit
unseal m aa always = if ltb (length aa) 8 then failed short_text (record m { text = aa }) else (do
  check ← crc aa (length aa)
  if not (m.dh_check == check)
      then failed body_check m
      else done (record m {
        dh_session_id = some (take 8 aa);
        text = if always || ltb 8 (length aa) then drop 8 aa else m.text;
      }))

unfoldable pub unseal_outcome : Msg → Bool → Outcome Bytes → Exit
unseal_outcome m always (ok aa) = unseal m aa always
unseal_outcome m always (err e) = failed e m
unseal_outcome m always Outcome.panic = panic

unfoldable pub open_plain : Msg → Exit
open_plain m = do
  let offset = data_offset m.fh_opcode
  let body = drop (offset + 8) m.final
  session ← slice m.final (offset + 8) (offset + 16)
  check ← crc body (length body)
  let m1 = record m { dh_session_id = some session }
  if not (m.dh_check == check)
      then failed body_check m1
      else done
          (record m1 { text = if ltb 0 m.dh_length then drop (offset + 16) m.final else m.text })

-- An error of the guid's decryption is only logged, and the guid is nil.
unfoldable pub take_guid : Msg → Outcome Bytes → Exit
take_guid m (ok aa) = done (record m { fh_guid = some aa })
take_guid m (err e) = done (record m { fh_guid = none })
take_guid m Outcome.panic = panic

module _ (c : Cipher) where
  unfoldable pub unlock_guid : Msg → Option Bytes → Exit
  unlock_guid m none = failed no_mz m
  unlock_guid m (some mz) = do
    let a = random_key_get m.fh_sequence m.fh_src_id m.fh_time
    key ← xor_key a mz
    sealed ← slice m.final 24 40
    take_guid (record m { rk = some a }) (decrypt c sealed key)

  -- The guid of opcode 3.
  unfoldable pub read_guid : Msg → Exit
  read_guid m = do
    level ← index m.final 40
    unlock_guid (record m { dh_key_level = bit_and level 0x0c / 4 }) m.mz

  unfoldable pub header : Msg → Exit
  header m = and_then (read_front m) λ m. deferred (
      and_then (toggle_mask m) λ m.
        and_then (read_ids m)
          λ m. and_then (if m.fh_opcode == 3 then read_guid m else done m) read_msg_id)

  unfoldable pub open_sealed : Msg → Bytes → Bool → Exit
  open_sealed m key always =
      unseal_outcome m always (decrypt c (drop (data_offset m.fh_opcode + 8) m.final) key)

  unfoldable pub open_random : Msg → Exit
  open_random m =
      let key = random_key_get m.fh_sequence m.fh_src_id m.fh_time in
      open_sealed (record m { rk = some key }) key true

  unfoldable pub open_secret : Msg → Option Bytes → Exit
  open_secret m none = failed no_mz m
  open_secret m (some mz) = do
    let a = random_key_get m.fh_sequence m.fh_src_id m.fh_time
    key ← xor_key a mz
    let body = drop (data_offset m.fh_opcode + 8) m.final
    open_sealed (record m { rk = some a; rkxormz = some key; cipher = some body }) key false

  -- The switch on the key level; level 2 is accepted with nothing read.
  unfoldable pub open_body : Msg → Exit
  open_body m =
      if m.dh_key_level == 0
      then open_plain m
      else (if m.dh_key_level == 1
          then open_random m
          else (if m.dh_key_level == 2
              then done m
              else (if m.dh_key_level == 3 then open_secret m m.mz else failed wrong_key_level m)))

  -- The header's own checksum, then the body.
  unfoldable pub check_header : Msg → Exit
  check_header m = do
    let offset = data_offset m.fh_opcode
    head_check ← index m.final (offset + 6)
    check ← index m.final (offset + 7)
    computed ← crc m.final (offset + 6)
    let m1 = record m { dh_head_check = head_check; dh_check = check }
    if not (head_check == computed) then failed header_check m1 else open_body m1

  -- The length in the header is that of what follows the header.
  unfoldable pub check_length : Msg → Exit
  check_length m =
      if not (m.dh_length == length (drop (data_offset m.fh_opcode + 16) m.final))
      then failed wrong_body_length m
      else check_header m

  unfoldable pub read_data_header : Msg → Exit
  read_data_header m = do
    let offset = data_offset m.fh_opcode
    first ← index m.final offset
    seq ← index m.final (offset + 1)
    id ← slice m.final (offset + 2) (offset + 4)
    len ← slice m.final (offset + 4) (offset + 6)
    check_length (with_data_header m first seq id len)

  unfoldable pub binary2msg : Msg → Exit
  binary2msg m = and_then (read_front m) λ m. rewindow (
      deferred (
        and_then (toggle_mask m)
          λ m. and_then (read_ids m) λ m. and_then (window_guid m) read_data_header))
