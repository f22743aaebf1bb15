-- ===== src/Msg/RoundTrip/Front.antt =====
-- Reading the frame header of what was written.
use erina.Base.{
  ℕ, ◌+◌, ◌^◌, ◌≤◌, ◌<◌, ◌≡◌, refl, sym, ap, ◌∙◌, arith, true, subst, ◌∷◌, ◌++◌, length, take, drop,
  Option, length-drop, take-append-drop,
}
use erina.Words.{Bytes, to_le, hex_encode, IsBytes}
use erina.Words.Laws.{of_le-to_le}
use erina.Msg.Types.{Msg, done, data_offset, known_opcode, new_msg}
use erina.Msg.Encode.{flag_byte, frame_bytes, bytes_of}
use erina.Msg.RoundTrip.Flags.{flag_byte_read}
use erina.Msg.Decode.{read_front, read_flags, read_ids}

-- A message that `Msg2Binary` can put into a frame: the fields fit their widths, the session id
-- has the 8 bytes that the frame has room for, and the time is set.
pub record Encodable (m : Msg) : Type 0 where
  pub opcode_known : known_opcode m.fh_opcode ≡ true
  pub ver_fits : m.fh_ver < 4
  pub sequence_fits : m.fh_sequence < 2 ^ 16
  pub time_fits : m.fh_time < 2 ^ 32
  pub time_set : 0 < m.fh_time
  pub dst_fits : m.fh_dst_id < 2 ^ 64
  pub src_fits : m.fh_src_id < 2 ^ 64
  pub format_fits : m.dh_data_format < 4
  pub encrypt_fits : m.dh_encrypt_type < 4
  pub msg_id_fits : m.dh_msg_id < 2 ^ 16
  pub session_len : length (bytes_of m.dh_session_id) ≡ 8
  pub session_bytes : IsBytes (bytes_of m.dh_session_id)
  pub text_bytes : IsBytes m.text

-- What a receiver starts from: the bytes, and the sender's secret if it knows one.
abbrev pub received : Option Bytes → Bytes → Msg
received mz buf = record new_msg { final = buf; mz = mz }

-- After the front: the fields up to the time.
abbrev pub fronted : Msg → Option Bytes → Bytes → Msg
fronted m mz buf = record (received mz buf) {
  fh_fin = m.fh_fin;
  fh_mask = m.fh_mask;
  fh_ver = m.fh_ver;
  fh_short = m.fh_short;
  fh_opcode = m.fh_opcode;
  fh_reserve = m.fh_reserve;
  fh_sequence = m.fh_sequence;
  fh_time = m.fh_time;
}

abbrev first_eight : Msg → Bytes
first_eight m =
    flag_byte m.fh_fin m.fh_mask m.fh_ver m.fh_short m.fh_opcode
    ∷ m.fh_reserve
    ∷ (to_le 2 m.fh_sequence ++ to_le 4 m.fh_time)

known-lt : (op : ℕ) → known_opcode op ≡ true → op < 8
known-lt op h = ground arith

module _ (m : Msg) (ok : Encodable m) (mz : Option Bytes) where
  read_flags_written :
      (rest : Bytes)
      → read_flags (record (received mz (first_eight m ++ rest)) { fh_opcode = m.fh_opcode })
        ≡ done (fronted m mz (first_eight m ++ rest))
  unfolding read_flags
  read_flags_written rest =
      let flags =
        flag_byte_read m.fh_fin m.fh_mask m.fh_ver m.fh_short m.fh_opcode ok.ver_fits
          (known-lt m.fh_opcode ok.opcode_known) in
      ground (
        arith,
        flags,
        of_le-to_le 2 m.fh_sequence ok.sequence_fits,
        of_le-to_le 4 m.fh_time ok.time_fits,
      )

  read_front_written :
      (rest : Bytes)
      → data_offset m.fh_opcode + 16 ≤ 8 + length rest
      → read_front (received mz (first_eight m ++ rest))
        ≡ done (fronted m mz (first_eight m ++ rest))
  unfolding read_front
  read_front_written rest h =
      let flags =
        flag_byte_read m.fh_fin m.fh_mask m.fh_ver m.fh_short m.fh_opcode ok.ver_fits
          (known-lt m.fh_opcode ok.opcode_known) in
      ground (arith, flags, ok.opcode_known, read_flags_written rest)

  -- A buffer that agrees with the frame in its first eight bytes.
  pub read_front_of :
      (buf : Bytes)
      → take 8 buf ≡ first_eight m
      → data_offset m.fh_opcode + 16 ≤ length buf
      → read_front (received mz buf) ≡ done (fronted m mz buf)
  read_front_of buf e h =
      let whole : first_eight m ++ drop 8 buf ≡ buf =
        ap (λ t. t ++ drop 8 buf) (sym e) ∙ take-append-drop 8 buf in
      subst (λ b. read_front (received mz b) ≡ done (fronted m mz b)) whole
        (read_front_written (drop 8 buf) (ground (arith, length-drop 8 buf)))

  -- After the ids, on the buffer without the mask.
  abbrev pub with_ids : Bytes → Msg
  with_ids buf = record (fronted m mz buf) {
    fh_dst_id = m.fh_dst_id;
    fh_dst_mac = hex_encode (to_le 8 m.fh_dst_id);
    fh_src_id = m.fh_src_id;
    fh_src_mac = hex_encode (to_le 8 m.fh_src_id);
  }

  pub read_ids_written :
      (rest : Bytes)
      → read_ids (fronted m mz (frame_bytes m ++ rest)) ≡ done (with_ids (frame_bytes m ++ rest))
  unfolding read_ids frame_bytes
  read_ids_written rest =
      ground (arith, of_le-to_le 8 m.fh_dst_id ok.dst_fits, of_le-to_le 8 m.fh_src_id ok.src_fits)

  pub length-frame_bytes : length (frame_bytes m) ≡ 24
  unfolding frame_bytes
  length-frame_bytes = refl

  pub take-frame_bytes : (rest : Bytes) → take 8 (frame_bytes m ++ rest) ≡ first_eight m
  unfolding frame_bytes
  take-frame_bytes rest = refl
