-- ===== src/Msg/Encode.antt =====
-- `Msg2Binary` of msgs/msg.go. The buffer is written as the concatenation of its fields.
pub mod Sessionless
pub mod Unwritten
use erina.Base.{
  Option, ℕ, ◌+◌, ◌-◌, ◌*◌, ◌/◌, ◌%◌, ◌^◌, [], ◌∷◌, ◌++◌, none, some, Bool, not, bit_and, bit_or,
  if◌then◌else◌, ◌==◌, length, take,
}
use erina.Words.{Bytes, to_le, of_be, hex_encode, fit}
use erina.Outcome.{Outcome, ok, err, no_mz}
use erina.Crc.{crc}
use erina.Aes.{Cipher, encrypt}
use erina.Msg.Types.{Msg, Exit, done, failed, ◌>>=◌, and_then, data_offset}
use erina.Msg.Mask.{toggle_mask}
use erina.Msg.Key.{random_key_get, xor_key}

-- `buf[0]`, or-ed together flag by flag.
unfoldable pub flag_byte : Bool → Bool → ℕ → Bool → ℕ → ℕ
flag_byte fin mask ver short opcode =
    let b1 = if fin then bit_or 0 0x80 else 0 in
    let b2 = if mask then bit_or b1 0x40 else b1 in
    let b3 = if not (ver == 0) then bit_or b2 (bit_and ver 0x3 * 16 % 256) else b2 in
    let b4 = if short then bit_or b3 0x08 else b3 in bit_or b4 (bit_and opcode 0x7)

-- `buf[offset]`, likewise.
unfoldable pub data_byte : Bool → Bool → ℕ → ℕ → ℕ → ℕ
data_byte read ack format level encrypt_type =
    let b1 = if read then bit_or 0 0x80 else 0 in
    let b2 = if ack then bit_or b1 0x40 else b1 in
    let b3 = if not (format == 0) then bit_or b2 (bit_and format 0x3 * 16 % 256) else b2 in
    let b4 = if not (level == 0) then bit_or b3 (bit_and level 0x3 * 4 % 256) else b3 in
    if not (encrypt_type == 0) then bit_or b4 (bit_and encrypt_type 0x3) else b4

-- `time.Now().UnixNano() / 1e6`, its low four bytes read in the other order.
unfoldable pub clock_time : ℕ → ℕ
clock_time now = of_be (take 4 (to_le 8 (now / 1000000 % 2 ^ 64)))

-- A nil slice has no bytes.
abbrev pub bytes_of : Option Bytes → Bytes
bytes_of none = []
bytes_of (some b) = b

-- What the method fills in before it looks at the key level: the time, if it is zero, the MACs of
-- the two ids, and the bytes that the body's checksum covers, behind those of earlier calls.
unfoldable pub prepare : ℕ → Msg → Msg
prepare now m = record m {
  final = [];
  fh_time = if m.fh_time == 0 then clock_time now else m.fh_time;
  fh_dst_mac = hex_encode (to_le 8 m.fh_dst_id);
  fh_src_mac = hex_encode (to_le 8 m.fh_src_id);
  datacrc = m.datacrc ++ (fit 8 (bytes_of m.dh_session_id) ++ m.text);
}

-- `buf[:24]`.
unfoldable pub frame_bytes : Msg → Bytes
frame_bytes m =
    flag_byte m.fh_fin m.fh_mask m.fh_ver m.fh_short m.fh_opcode
    ∷ m.fh_reserve
    ∷ (to_le 2 m.fh_sequence ++ (to_le 4 m.fh_time ++ (to_le 8 m.fh_dst_id ++ to_le 8 m.fh_src_id)))

-- `buf[24:40]` of opcode 3, which holds what is given here; other messages have no such part.
unfoldable pub guid_bytes : Msg → Bytes → Bytes
guid_bytes m guid = if m.fh_opcode == 3 then fit 16 guid else []

-- `buf[:offset+6]` with the length `len`, which the header's checksum covers.
unfoldable pub head_bytes : Msg → Bytes → ℕ → Bytes
head_bytes m guid len =
    (frame_bytes m ++ guid_bytes m guid)
    ++ (data_byte m.dh_read m.dh_ack m.dh_data_format m.dh_key_level m.dh_encrypt_type
        ∷ m.dh_data_seq
        ∷ (to_le 2 m.dh_msg_id ++ to_le 2 len))

-- The two checksums, and the frame around the bytes that follow the data header's first half.
unfoldable pub seal : Msg → Bytes → ℕ → Bytes → Exit
seal m guid len behind = do
  check ← crc m.datacrc (length m.datacrc)
  let head = head_bytes m guid len
  head_check ← crc head (data_offset m.fh_opcode + 6)
  done (record m {
    dh_length = len;
    dh_head_check = head_check;
    dh_check = check;
    final = head ++ (head_check ∷ check ∷ behind);
  })

-- `uint16(len(cipher)-8)`; a cipher that is nil has length 0.
abbrev pub sealed_len : Bytes → ℕ
sealed_len sealed = (length sealed + 65536 - 8) % 65536

-- An error of the encryption is logged, and leaves nil.
abbrev pub or_nil : Outcome Bytes → Bytes
or_nil (ok b) = b
or_nil (err e) = []
or_nil Outcome.panic = []

unfoldable pub seal_plain : Msg → Exit
seal_plain m = seal m [] (length m.text % 65536) (fit 8 (bytes_of m.dh_session_id) ++ m.text)

module _ (c : Cipher) where
  unfoldable pub seal_random : Msg → Exit
  seal_random m =
      let key = random_key_get m.fh_sequence m.fh_src_id m.fh_time in
      let sealed = or_nil (encrypt c m.datacrc key) in
      seal (record m { rk = some key }) [] (sealed_len sealed) sealed

  -- The guid of opcode 3, encrypted. What does not fit in 16 bytes is cut off.
  abbrev pub sealed_guid : Msg → Bytes → Bytes
  sealed_guid m key = elim m.fh_guid [ none ↦ [] | some guid ↦ or_nil (encrypt c guid key) ]

  unfoldable pub seal_secret : Msg → Option Bytes → Exit
  seal_secret m none = failed no_mz m
  seal_secret m (some mz) = do
    let a = random_key_get m.fh_sequence m.fh_src_id m.fh_time
    key ← xor_key a mz
    let sealed = or_nil (encrypt c m.datacrc key)
    seal (record m { rk = some a; rkxormz = some key; cipher = some sealed }) (sealed_guid m key)
        (sealed_len sealed) sealed

  -- The switch on the key level; at other levels nothing is written.
  unfoldable pub seal_body : Msg → Exit
  seal_body m =
      if m.dh_key_level == 0
      then seal_plain m
      else (if m.dh_key_level == 1
          then seal_random m
          else (if m.dh_key_level == 3 then seal_secret m m.mz else done m))

  -- `now` is what the clock says, in nanoseconds.
  unfoldable pub msg2binary : ℕ → Msg → Exit
  msg2binary now m = and_then (seal_body (prepare now m)) toggle_mask
