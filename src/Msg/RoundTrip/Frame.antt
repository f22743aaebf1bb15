-- ===== src/Msg/RoundTrip/Frame.antt =====
-- Decoding a whole frame: the steps of `Binary2Msg` around the reading of the body.
use erina.Msg.Decode.{read_front, read_ids, window_guid, read_data_header, open_body, binary2msg}
use erina.Base.{
  ℕ, ◌+◌, ◌-◌, ◌≤◌, ◌<◌, ◌≡◌, refl, sym, ap, ◌∙◌, arith, ◌==◌, subst, if◌then◌else◌, ◌∷◌, ◌++◌,
  length, take, drop, Option, some, none, length-append, append_assoc,
}
use erina.Words.{Bytes, to_le}
use erina.Words.Laws.{length-fit, slice_lem}
use erina.Crc.Detection.{crc_fold}
use erina.Aes.{Cipher}
use erina.Outcome.{Error}
use erina.Msg.Types.{Exit, failed, Msg, done, data_offset}
use erina.Msg.Mask.{toggle_mask, deferred, mask_end}
use erina.Msg.Mask.Buffer.{
  toggled_by, toggle_mask_lem, toggled_by_twice, take-toggled_by, length-toggled_by,
}
use erina.Msg.Encode.{frame_bytes, guid_bytes, data_byte}
use erina.Msg.RoundTrip.Front.{
  Encodable, received, fronted, with_ids, read_front_of, read_ids_written, length-frame_bytes,
  take-frame_bytes,
}
use erina.Msg.RoundTrip.Data

deferred-failed :
    (e : Error) (m m' : Msg) → toggle_mask m ≡ done m' → deferred (failed e m) ≡ failed e m'
unfolding deferred
deferred-failed e m m' h =
    ap (λ x. elim x [ done n ↦ failed e n | failed e' n ↦ failed e' n | Exit.panic ↦ Exit.panic ]) h

module _ (c : Cipher) (p : Msg) (ok : Encodable p) (mz : Option Bytes) (guid behind : Bytes)
    (len : ℕ) (body : 8 ≤ length behind) (len_is : len ≡ length behind - 8) (len_fits : len < 65536)
    (check : ℕ) where
  -- The bytes in front of the data header.
  abbrev pub before : Bytes
  before = frame_bytes p ++ guid_bytes p guid

  pub length-before : length before ≡ data_offset p.fh_opcode
  unfolding guid_bytes
  length-before = ground (
    arith,
    length-append (frame_bytes p) (guid_bytes p guid),
    length-frame_bytes p ok mz,
    length-fit 16 guid,
  )

  abbrev pub first_data : ℕ
  first_data = data_byte p.dh_read p.dh_ack p.dh_data_format p.dh_key_level p.dh_encrypt_type

  abbrev pub head_part : Bytes
  head_part = before ++ (first_data ∷ p.dh_data_seq ∷ (to_le 2 p.dh_msg_id ++ to_le 2 len))

  -- The frame before masking, and what goes on the wire.
  abbrev pub clear : Bytes
  clear = head_part ++ (crc_fold 0 head_part ∷ check ∷ behind)

  abbrev pub wire : Bytes
  wire = toggled_by p.fh_mask p.fh_opcode clear

  length-clear : length clear ≡ data_offset p.fh_opcode + 8 + length behind
  length-clear = omega (
    arith,
    length-append head_part (crc_fold 0 head_part ∷ check ∷ behind),
    length-append before (first_data ∷ p.dh_data_seq ∷ (to_le 2 p.dh_msg_id ++ to_le 2 len)),
    length-before,
  )

  pub mask_fits : mask_end p.fh_opcode ≤ length clear
  mask_fits = ground (arith, length-clear)

  rest_of : Bytes
  rest_of =
      guid_bytes p guid
      ++ (first_data
          ∷ p.dh_data_seq
          ∷ (to_le 2 p.dh_msg_id ++ (to_le 2 len ++ (crc_fold 0 head_part ∷ check ∷ behind))))

  clear_split : frame_bytes p ++ rest_of ≡ clear
  unfolding rest_of
  clear_split =
      let data_bytes : Bytes = first_data ∷ p.dh_data_seq ∷ (to_le 2 p.dh_msg_id ++ to_le 2 len) in
      sym (
        append_assoc before data_bytes (crc_fold 0 head_part ∷ check ∷ behind)
        ∙ append_assoc (frame_bytes p) (guid_bytes p guid)
            (data_bytes ++ (crc_fold 0 head_part ∷ check ∷ behind)))

  front_read : read_front (received mz wire) ≡ done (fronted p mz wire)
  front_read =
      read_front_of p ok mz wire
        (take-toggled_by p.fh_mask p.fh_opcode clear mask_fits
          ∙ ap (take 8) (sym clear_split)
          ∙ take-frame_bytes p ok mz rest_of)
        (omega (arith, length-toggled_by p.fh_mask p.fh_opcode clear mask_fits, length-clear))

  unmasked_read : toggle_mask (fronted p mz wire) ≡ done (fronted p mz clear)
  unmasked_read =
      toggle_mask_lem (fronted p mz wire)
        (omega (arith, mask_fits, length-toggled_by p.fh_mask p.fh_opcode clear mask_fits))
      ∙ ap (λ b. done (fronted p mz b)) (toggled_by_twice p.fh_mask p.fh_opcode clear mask_fits)

  ids_read : read_ids (fronted p mz clear) ≡ done (with_ids p ok mz clear)
  ids_read =
      subst (λ b. read_ids (fronted p mz b) ≡ done (with_ids p ok mz b)) clear_split
        (read_ids_written p ok mz rest_of)

  -- The guid is the window of the buffer behind the ids, for opcode 3.
  abbrev pub guid_window : Bytes → Option Bytes
  guid_window buf = if p.fh_opcode == 3 then some (take 16 (drop 24 buf)) else none

  abbrev pub with_guid : Msg
  with_guid = record (with_ids p ok mz clear) { fh_guid = guid_window clear }

  window_lem :
      (m : Msg)
      → m.fh_opcode ≡ p.fh_opcode
      → 40 ≤ length m.final
      → window_guid m
        ≡ done (record m {
          fh_guid = if p.fh_opcode == 3 then some (take 16 (drop 24 m.final)) else m.fh_guid;
        })
  window_lem m e h = ground (arith, slice_lem m.final 24 40)

  data_read :
      read_data_header c with_guid
      ≡ open_body c (
          Data.with_checks c with_guid before first_data p.dh_data_seq p.dh_msg_id len behind
            length-before body len_is len_fits ok.msg_id_fits check)
  data_read =
      Data.read_data_header-frame c with_guid before first_data p.dh_data_seq p.dh_msg_id len behind
        length-before body len_is len_fits ok.msg_id_fits check

  -- The message that the body is read into.
  abbrev pub to_open : Msg
  to_open =
      Data.with_checks c with_guid before first_data p.dh_data_seq p.dh_msg_id len behind
        length-before body len_is len_fits ok.msg_id_fits check

  -- If reading the body ends in `r`, decoding the wire bytes ends in `r` with the wire's buffer.
  pub binary2msg_frame :
      (r : Msg)
      → open_body c to_open ≡ done r
      → r.final ≡ clear
      → r.fh_mask ≡ p.fh_mask
      → r.fh_opcode ≡ p.fh_opcode
      → binary2msg c (received mz wire)
        ≡ done (record r {
          final = wire;
          fh_guid = if p.fh_opcode == 3 then some (take 16 (drop 24 wire)) else r.fh_guid;
        })
  unfolding binary2msg deferred
  binary2msg_frame r opened f k o =
      let long : 40 ≤ length clear = ground (arith, length-clear) in
      let wire_len : length wire ≡ length clear =
        length-toggled_by p.fh_mask p.fh_opcode clear mask_fits in
      let masked : toggle_mask r ≡ done (record r { final = wire }) =
        toggle_mask_lem r (ground (arith, mask_fits, ap length f))
        ∙ (λ i. done (record r { final = toggled_by (k i) (o i) (f i) })) in
      rw
        (
          front_read,
          unmasked_read,
          ids_read,
          window_lem (with_ids p ok mz clear) refl long,
          data_read,
          opened,
          masked,
        )
        (window_lem (record r { final = wire }) o (omega arith))

  -- If reading the body is refused, so is the frame.
  pub binary2msg-refused :
      (e : Error) (r : Msg)
      → open_body c to_open ≡ failed e r
      → r.final ≡ clear
      → r.fh_mask ≡ p.fh_mask
      → r.fh_opcode ≡ p.fh_opcode
      → (n : Msg) × (binary2msg c (received mz wire) ≡ failed e n)
  unfolding binary2msg
  binary2msg-refused e r opened f k o =
      let long : 40 ≤ length clear = ground (arith, length-clear) in
      let wire_len : length wire ≡ length clear =
        length-toggled_by p.fh_mask p.fh_opcode clear mask_fits in
      let masked : toggle_mask r ≡ done (record r { final = wire }) =
        toggle_mask_lem r (ground (arith, mask_fits, ap length f))
        ∙ (λ i. done (record r { final = toggled_by (k i) (o i) (f i) })) in
      (
        record r {
          final = wire;
          fh_guid = if p.fh_opcode == 3 then some (take 16 (drop 24 wire)) else r.fh_guid;
        },
        rw
            (
              front_read,
              unmasked_read,
              ids_read,
              window_lem (with_ids p ok mz clear) refl long,
              data_read,
              opened,
              deferred-failed e r (record r { final = wire }) masked,
            )
            (ap
              (λ x. elim x [
                | done m ↦ failed e m
                | failed e' m ↦ failed e' m
                | Exit.panic ↦ Exit.panic
              ])
              (window_lem (record r { final = wire }) o (omega arith))),
      )
