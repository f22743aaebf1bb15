-- ===== src/Msg/RoundTrip/Levels.antt =====
-- The round trip at each key level.
use erina.Base.{
  Bool-cases, inl, inr, ℕ, ◌+◌, ◌-◌, ◌≤◌, ◌<◌, ◌≡◌, refl, ap, ◌∙◌, arith, ◌==◌, if◌then◌else◌, [],
  ◌∷◌, ◌++◌, length, take, drop, Option, some, none, length-append,
}
use erina.Words.{Bytes, to_le, hex_encode}
use erina.Words.Laws.{fit_exact, of_le-to_le}
use erina.Crc.{crc}
use erina.Crc.Detection.{crc_fold, crc_whole}
use erina.Aes.{Cipher}
use erina.Msg.Types.{Msg, done, and_then, data_offset}
use erina.Msg.Mask.{toggle_mask}
use erina.Msg.Mask.Buffer.{toggle_mask_lem}
use erina.Msg.Encode.{
  frame_bytes, guid_bytes, head_bytes, data_byte, bytes_of, prepare, seal, msg2binary,
}
use erina.Msg.RoundTrip.Front.{Encodable, received}
use erina.Msg.RoundTrip.Flags.{data_byte_read}
use erina.Msg.RoundTrip.Data
use erina.Msg.RoundTrip.Data.{BodyAt}
use erina.Msg.RoundTrip.Frame
use erina.Msg.Decode.{open_body, binary2msg}

-- Two messages agree in every field of the headers but the guid, the length and the checks, and in the
-- session id and the text.
pub record Same (m n : Msg) : Type 0 where
  pub same_fin : n.fh_fin ≡ m.fh_fin
  pub same_mask : n.fh_mask ≡ m.fh_mask
  pub same_ver : n.fh_ver ≡ m.fh_ver
  pub same_short : n.fh_short ≡ m.fh_short
  pub same_opcode : n.fh_opcode ≡ m.fh_opcode
  pub same_reserve : n.fh_reserve ≡ m.fh_reserve
  pub same_sequence : n.fh_sequence ≡ m.fh_sequence
  pub same_time : n.fh_time ≡ m.fh_time
  pub same_dst : n.fh_dst_id ≡ m.fh_dst_id
  pub same_src : n.fh_src_id ≡ m.fh_src_id
  pub same_read : n.dh_read ≡ m.dh_read
  pub same_ack : n.dh_ack ≡ m.dh_ack
  pub same_format : n.dh_data_format ≡ m.dh_data_format
  pub same_level : n.dh_key_level ≡ m.dh_key_level
  pub same_encrypt : n.dh_encrypt_type ≡ m.dh_encrypt_type
  pub same_seq : n.dh_data_seq ≡ m.dh_data_seq
  pub same_msg_id : n.dh_msg_id ≡ m.dh_msg_id
  pub same_session : n.dh_session_id ≡ some (bytes_of m.dh_session_id)
  pub same_text : n.text ≡ m.text

-- What is decoded has the length and the two checks that encoding has put into the frame, and as guid, at
-- opcode 3, the sixteen bytes behind the frame header as they stand in the frame.
pub record Carried (m n : Msg) : Type 0 where
  pub same_length : n.dh_length ≡ m.dh_length
  pub same_head_check : n.dh_head_check ≡ m.dh_head_check
  pub same_check : n.dh_check ≡ m.dh_check
  pub guid_window :
      n.fh_guid ≡ (if m.fh_opcode == 3 then some (take 16 (drop 24 n.final)) else none)

-- Encoding gives a frame, and decoding the frame, by a receiver with the secret `mz`, gives the
-- fields back and keeps the frame.
abbrev pub RoundTrips : Cipher → ℕ → Msg → Option Bytes → Type 0
RoundTrips c now m mz =
    (m' : Msg) × (n : Msg) × (msg2binary c now m ≡ done m')
    × (binary2msg c (received mz m'.final) ≡ done n)
    × Same m n
    × Carried m' n
    × (n.final ≡ m'.final)

-- What `prepare` makes of a message with a time and nothing left over.
abbrev pub prepared : Msg → Msg
prepared m = record m {
  final = [];
  fh_dst_mac = hex_encode (to_le 8 m.fh_dst_id);
  fh_src_mac = hex_encode (to_le 8 m.fh_src_id);
  datacrc = bytes_of m.dh_session_id ++ m.text;
}

pub prepare-prepared :
    (now : ℕ) (m : Msg) → Encodable m → m.datacrc ≡ [] → prepare now m ≡ prepared m
unfolding prepare
prepare-prepared now m e none_left =
    ground (arith, fit_exact 8 (bytes_of m.dh_session_id) e.session_len)

pub Encodable-prepared :
    (m : Msg) (rk key cipher : Option Bytes)
    → Encodable m
    → Encodable (record (prepared m) { rk = rk; rkxormz = key; cipher = cipher })
Encodable-prepared m rk key cipher e = ground arith

pub Same-prepared :
    (m n : Msg) (rk key cipher : Option Bytes)
    → Same (record (prepared m) { rk = rk; rkxormz = key; cipher = cipher }) n
    → Same m n
Same-prepared m n rk key cipher s = record {
  same_fin = s.same_fin;
  same_mask = s.same_mask;
  same_ver = s.same_ver;
  same_short = s.same_short;
  same_opcode = s.same_opcode;
  same_reserve = s.same_reserve;
  same_sequence = s.same_sequence;
  same_time = s.same_time;
  same_dst = s.same_dst;
  same_src = s.same_src;
  same_read = s.same_read;
  same_ack = s.same_ack;
  same_format = s.same_format;
  same_level = s.same_level;
  same_encrypt = s.same_encrypt;
  same_seq = s.same_seq;
  same_msg_id = s.same_msg_id;
  same_session = s.same_session;
  same_text = s.same_text;
}

module _ (c : Cipher) (p : Msg) (ok : Encodable p) (mz : Option Bytes) (guid behind : Bytes)
    (len : ℕ) (body : 8 ≤ length behind) (len_is : len ≡ length behind - 8)
    (len_fits : len < 65536) where
  abbrev pub check_of : ℕ
  check_of = crc_fold 0 p.datacrc

  abbrev pub sealed : Msg
  sealed = record p {
    dh_length = len;
    dh_head_check =
        crc_fold 0 (Frame.head_part c p ok mz guid behind len body len_is len_fits check_of);
    dh_check = check_of;
    final = Frame.clear c p ok mz guid behind len body len_is len_fits check_of;
  }

  abbrev pub head_of : Bytes
  head_of = Frame.head_part c p ok mz guid behind len body len_is len_fits check_of

  pub head_checked : crc head_of (data_offset p.fh_opcode + 6) ≡ some (crc_fold 0 head_of)
  head_checked =
      ap (crc head_of) (
        omega (
          arith,
          Frame.length-before c p ok mz guid behind len body len_is len_fits check_of,
          length-append (frame_bytes p ++ guid_bytes p guid) (
              data_byte p.dh_read p.dh_ack p.dh_data_format p.dh_key_level p.dh_encrypt_type
              ∷ p.dh_data_seq
              ∷ (to_le 2 p.dh_msg_id ++ to_le 2 len)),
        ))
      ∙ crc_whole head_of

  seal_lem : seal p guid len behind ≡ done sealed
  unfolding seal head_bytes
  seal_lem = rw (crc_whole p.datacrc, head_checked) refl

  pub sent :
      and_then (seal p guid len behind) toggle_mask
      ≡ done (record sealed {
        final = Frame.wire c p ok mz guid behind len body len_is len_fits check_of;
      })
  sent = rw seal_lem (
      toggle_mask_lem sealed
        (Frame.mask_fits c p ok mz guid behind len body len_is len_fits check_of))

  abbrev pub opening : Msg
  opening = Frame.to_open c p ok mz guid behind len body len_is len_fits check_of

  abbrev pub wired : Bytes
  wired = Frame.wire c p ok mz guid behind len body len_is len_fits check_of

  -- What the receiver has read in the end.
  abbrev pub arrived : Option Bytes → Option Bytes → Option Bytes → Msg
  arrived rk key cipher = record opening {
    rk = rk;
    rkxormz = key;
    cipher = cipher;
    dh_session_id = some (bytes_of p.dh_session_id);
    text = p.text;
    final = wired;
    fh_guid =
        if p.fh_opcode == 3
        then some (take 16 (drop 24 wired))
        else (if p.fh_opcode == 3 then some (take 16 (drop 24 opening.final)) else none);
  }

  pub arrived-Same :
      (rk key cipher : Option Bytes) → p.dh_key_level < 4 → Same p (arrived rk key cipher)
  arrived-Same rk key cipher level_fits =
      let d =
        data_byte_read p.dh_read p.dh_ack p.dh_data_format p.dh_key_level p.dh_encrypt_type
          ok.format_fits level_fits ok.encrypt_fits in
      record {
        same_fin = refl;
        same_mask = refl;
        same_ver = refl;
        same_short = refl;
        same_opcode = refl;
        same_reserve = refl;
        same_sequence = refl;
        same_time = refl;
        same_dst = refl;
        same_src = refl;
        same_read = d.read_read;
        same_ack = d.ack_read;
        same_format = d.format_read;
        same_level = d.level_read;
        same_encrypt = d.enc_read;
        same_seq = refl;
        same_msg_id = of_le-to_le 2 p.dh_msg_id ok.msg_id_fits;
        same_session = refl;
        same_text = refl;
      }

  arrived_guid :
      (op : ℕ) (x y : Bytes)
      → (if op == 3 then some x else (if op == 3 then some y else none))
        ≡ (if op == 3 then some x else none)
  arrived_guid op x y = elim (Bool-cases (op == 3)) [ inl e ↦ rw e refl | inr e ↦ rw e refl ]

  pub arrived-Carried :
      (rk key cipher : Option Bytes)
      → Carried (record sealed { final = wired }) (arrived rk key cipher)
  arrived-Carried rk key cipher = record {
    same_length = of_le-to_le 2 len len_fits;
    same_head_check = refl;
    same_check = refl;
    guid_window =
        arrived_guid p.fh_opcode (take 16 (drop 24 wired)) (take 16 (drop 24 opening.final));
  }

  pub opening-BodyAt : BodyAt opening behind
  opening-BodyAt =
      Data.frame-BodyAt c (Frame.with_guid c p ok mz guid behind len body len_is len_fits check_of)
        (frame_bytes p ++ guid_bytes p guid)
        (Frame.first_data c p ok mz guid behind len body len_is len_fits check_of) p.dh_data_seq
        p.dh_msg_id len behind
        (Frame.length-before c p ok mz guid behind len body len_is len_fits check_of) body len_is
        len_fits ok.msg_id_fits check_of

  -- If the body opens to the session id and the text, the whole frame arrives.
  pub arrives :
      (rk key cipher : Option Bytes)
      → open_body c opening
        ≡ done (record opening {
          rk = rk;
          rkxormz = key;
          cipher = cipher;
          dh_session_id = some (bytes_of p.dh_session_id);
          text = p.text;
        })
      → binary2msg c (received mz wired) ≡ done (arrived rk key cipher)
  arrives rk key cipher opened =
      Frame.binary2msg_frame c p ok mz guid behind len body len_is len_fits check_of _ opened refl
        refl refl
