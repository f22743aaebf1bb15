-- ===== src/Msg/RoundTrip/Stale.antt =====
-- A message that is encoded when bytes of an earlier encoding are left over in it.
use erina.Base.{
  ◌∷◌, ℕ, ◌+◌, ◌-◌, ◌%◌, ◌≤◌, ◌<◌, ◌≡◌, ◌≢◌, refl, sym, ap, ◌∙◌, arith, ◌==◌, ==_iff, [], ◌++◌,
  length, Option, some, length-append, Bool-cases, inl, inr, false, All-append, take, drop,
  take-append,
}
use erina.Words.{Bytes, IsBytes, IsByte, fit, to_le, hex_encode}
use erina.Words.Laws.{length-fit}
use erina.Crc.{crc}
use erina.Crc.Detection.{crc_fold, crc_whole, crc_fold-append, crc_fold_injective, crc_fold-byte}
use erina.Outcome.{body_check}
use erina.Aes.{Cipher}
use erina.Msg.Types.{◌>>=◌, Msg, done, failed, and_then, data_offset}
use erina.Msg.Mask.{toggle_mask}
use erina.Msg.Mask.Buffer.{toggle_mask_lem}
use erina.Msg.Encode.{
  frame_bytes, guid_bytes, bytes_of, seal, seal_plain, seal_body, msg2binary, prepare, head_bytes,
}
use erina.Msg.Decode.{binary2msg, open_plain}
use erina.Msg.RoundTrip.Front.{Encodable, received}
use erina.Msg.RoundTrip.Flags.{data_byte_read}
use erina.Msg.RoundTrip.Data.{BodyAt}
use erina.Msg.RoundTrip.Dispatch.{seal_body-plain, open_body-plain}
use erina.Msg.RoundTrip.Levels
use erina.Msg.RoundTrip.Frame

-- The session id that goes out.
abbrev pub sid_of : Msg → Bytes
sid_of m = fit 8 (bytes_of m.dh_session_id)

-- The checksum of what is left over and the body is that of the body only if that of what is left
-- over is zero.
pub crc_fold-left_over :
    (old body : Bytes)
    → IsBytes old
    → IsBytes body
    → crc_fold 0 old ≢ 0
    → crc_fold 0 (old ++ body) ≢ crc_fold 0 body
crc_fold-left_over old body h k ne e = ne (
    crc_fold_injective (crc_fold 0 old) 0 body (crc_fold-byte 0 old (omega arith) h) (omega arith) k
      (sym (crc_fold-append 0 old body) ∙ e))

-- A plain body with another checksum is refused.
open_plain-refused :
    (m : Msg) (sid text : Bytes)
    → length sid ≡ 8
    → m.dh_check ≢ crc_fold 0 (sid ++ text)
    → BodyAt m (sid ++ text)
    → open_plain m ≡ failed body_check (record m { dh_session_id = some sid })
unfolding open_plain
open_plain-refused m sid text sid_len ne at =
    let check : crc (drop (data_offset m.fh_opcode + 8) m.final)
          (length (drop (data_offset m.fh_opcode + 8) m.final))
        ≡ some (crc_fold 0 (sid ++ text)) =
      ap (λ b. crc b (length b)) at.behind_is ∙ crc_whole (sid ++ text) in
    let session : take 8 (sid ++ text) ≡ sid = take-append 8 sid text sid_len in
    let differs : (m.dh_check == crc_fold 0 (sid ++ text)) ≡ false =
      elim (Bool-cases (m.dh_check == crc_fold 0 (sid ++ text))) [
        | inl y ↦ absurd (ne ((==_iff _ _).0 y))
        | inr n ↦ n
      ] in
    rw (at.session_is, check, session, differs) refl

-- A message at key level 0, whatever is left over in it and with a session id or without.
module _ (c : Cipher) (now : ℕ) (m : Msg) (mz : Option Bytes)
    (fields : Encodable (record m { dh_session_id = some (sid_of m) })) (level : m.dh_key_level ≡ 0)
    (short : length m.text < 65536) where
  abbrev behind : Bytes
  behind = sid_of m ++ m.text

  -- What goes into the frame, with the session id that goes out.
  abbrev p : Msg
  p = record m {
    final = [];
    fh_dst_mac = hex_encode (to_le 8 m.fh_dst_id);
    fh_src_mac = hex_encode (to_le 8 m.fh_src_id);
    datacrc = m.datacrc ++ behind;
    dh_session_id = some (sid_of m);
  }

  pub enc : Encodable p
  enc = ground arith

  behind_len : length behind ≡ 8 + length m.text
  behind_len =
      omega (arith, length-fit 8 (bytes_of m.dh_session_id), length-append (sid_of m) m.text)

  pub long : 8 ≤ length behind
  long = omega (arith, behind_len)

  pub len_is : length m.text ≡ length behind - 8
  len_is = omega (arith, behind_len)

  -- The message that `Msg2Binary` has prepared.
  abbrev q : Msg
  q = record p { dh_session_id = m.dh_session_id }

  prepared_q : prepare now m ≡ q
  unfolding prepare
  prepared_q = ground (arith, fields.time_set)

  abbrev check_of : ℕ
  check_of = crc_fold 0 (m.datacrc ++ behind)

  abbrev head_of : Bytes
  head_of = Levels.head_of c p enc mz [] behind (length m.text) long len_is short

  abbrev sealed : Msg
  sealed = record q {
    dh_length = length m.text;
    dh_head_check = crc_fold 0 head_of;
    dh_check = check_of;
    final = Frame.clear c p enc mz [] behind (length m.text) long len_is short check_of;
  }

  seals : seal q [] (length m.text) behind ≡ done sealed
  unfolding seal head_bytes frame_bytes guid_bytes
  seals =
      ap
        (λ o. o >>= λ check. crc head_of (data_offset m.fh_opcode + 6) >>= λ head_check.
          done (record q {
            dh_length = length m.text;
            dh_head_check = head_check;
            dh_check = check;
            final = head_of ++ (head_check ∷ check ∷ behind);
          }))
        (crc_whole (m.datacrc ++ behind))
      ∙ ap
          (λ o. o >>= λ head_check. done (record q {
            dh_length = length m.text;
            dh_head_check = head_check;
            dh_check = check_of;
            final = head_of ++ (head_check ∷ check_of ∷ behind);
          }))
          (Levels.head_checked c p enc mz [] behind (length m.text) long len_is short)

  abbrev wired : Bytes
  wired = Frame.wire c p enc mz [] behind (length m.text) long len_is short check_of

  abbrev pub out : Msg
  out = record sealed { final = wired }

  -- What `Msg2Binary` makes of it.
  pub sends : msg2binary c now m ≡ done out
  unfolding msg2binary seal_plain
  sends =
      ap (λ r. and_then r toggle_mask)
        (ap (seal_body c) prepared_q
          ∙ seal_body-plain c q level
          ∙ ap (λ (n : ℕ). seal q [] n behind) {x = length m.text % 65536} {y = length m.text}
              (omega arith)
          ∙ seals)
      ∙ toggle_mask_lem sealed
          (Frame.mask_fits c p enc mz [] behind (length m.text) long len_is short check_of)

  abbrev opening : Msg
  opening = Frame.to_open c p enc mz [] behind (length m.text) long len_is short check_of

  level_of_opening : opening.dh_key_level ≡ 0
  level_of_opening =
      let d =
        data_byte_read m.dh_read m.dh_ack m.dh_data_format m.dh_key_level m.dh_encrypt_type
          fields.format_fits (omega (arith, level)) fields.encrypt_fits in
      d.level_read ∙ level

  -- With bytes left over whose checksum is not zero, a receiver refuses the frame.
  pub refused :
      IsBytes m.datacrc
      → crc_fold 0 m.datacrc ≢ 0
      → (n : Msg) × (binary2msg c (received mz wired) ≡ failed body_check n)
  refused bytes ne =
      Frame.binary2msg-refused c p enc mz [] behind (length m.text) long len_is short check_of
        body_check (record opening { dh_session_id = some (sid_of m) })
        (open_body-plain c opening level_of_opening
          ∙ open_plain-refused opening (sid_of m) m.text (length-fit 8 (bytes_of m.dh_session_id))
              (crc_fold-left_over m.datacrc behind bytes
                (All-append IsByte (sid_of m) m.text fields.session_bytes fields.text_bytes) ne)
              (Levels.opening-BodyAt c p enc mz [] behind (length m.text) long len_is short))
        refl refl refl
