-- ===== src/Msg/RoundTrip/Data.antt =====
-- Reading the data header of a frame whose parts are known.
use erina.Base.{
  ℕ, zero, suc, ◌+◌, ◌-◌, ◌≤◌, ◌<◌, ◌≡◌, refl, sym, ap, ◌∙◌, arith, true, ◌==◌, ==_refl, ==_iff,
  length-drop, [], ◌∷◌, ◌++◌, length, get_or, take, drop, some, length-append, drop-append,
  drop-drop, append_assoc,
}
use erina.Words.{Bytes, index, slice, to_le}
use erina.Words.Laws.{of_le-to_le, slice_lem, index_lem}
use erina.Crc.{crc}
use erina.Crc.Detection.{crc-front, crc_fold}
use erina.Aes.{Cipher}
use erina.Msg.Types.{Msg, data_offset}
use erina.Msg.Decode.{check_header, check_length, read_data_header, open_body, with_data_header}

get_or-drop : (n i : ℕ) (xs : Bytes) → get_or (drop n xs) i 0 ≡ get_or xs (n + i) 0
get_or-drop zero i xs = ap (λ (t : ℕ). get_or xs t 0) {x = i} {y = 0 + i} (omega arith)
get_or-drop (suc n) i [] = refl
get_or-drop (suc n) i (x ∷ xs) =
    get_or-drop n i xs
    ∙ ap (λ (t : ℕ). get_or (x ∷ xs) t 0) {x = suc (n + i)} {y = suc n + i} (omega arith)

-- Where the bytes that follow the data header's first half stand in a message's buffer.
pub record BodyAt (m : Msg) (behind : Bytes) : Type 0 where
  pub behind_is : drop (data_offset m.fh_opcode + 8) m.final ≡ behind
  pub session_is :
      slice m.final (data_offset m.fh_opcode + 8) (data_offset m.fh_opcode + 16)
      ≡ some (take 8 behind)
  pub rest_is : drop (data_offset m.fh_opcode + 16) m.final ≡ drop 8 behind

-- A frame: what stands before the data header, the header's eight bytes, and what follows them.
module _ (c : Cipher) (n : Msg) (front : Bytes) (first seq : ℕ) (id len : ℕ) (behind : Bytes)
    (front_len : length front ≡ data_offset n.fh_opcode) (body : 8 ≤ length behind)
    (len_is : len ≡ length behind - 8) (len_fits : len < 65536) (id_fits : id < 65536) where
  abbrev pub head : Bytes
  head = front ++ (first ∷ seq ∷ (to_le 2 id ++ to_le 2 len))

  abbrev pub frame : ℕ → Bytes
  frame check = head ++ (crc_fold 0 head ∷ check ∷ behind)

  abbrev data_part : ℕ → Bytes
  data_part check =
      first ∷ seq ∷ (to_le 2 id ++ (to_le 2 len ++ (crc_fold 0 head ∷ check ∷ behind)))

  length-head : length head ≡ data_offset n.fh_opcode + 6
  length-head = omega (arith, length-append front (first ∷ seq ∷ (to_le 2 id ++ to_le 2 len)))

  frame_split : (check : ℕ) → frame check ≡ front ++ data_part check
  frame_split check =
      append_assoc front (first ∷ seq ∷ (to_le 2 id ++ to_le 2 len))
        (crc_fold 0 head ∷ check ∷ behind)

  drop-frame : (check : ℕ) → drop (data_offset n.fh_opcode) (frame check) ≡ data_part check
  drop-frame check =
      ap (drop (data_offset n.fh_opcode)) (frame_split check)
      ∙ drop-append (data_offset n.fh_opcode) front (data_part check) front_len

  pub length-frame :
      (check : ℕ) → length (frame check) ≡ data_offset n.fh_opcode + 8 + length behind
  length-frame check =
      omega (arith, length-head, length-append head (crc_fold 0 head ∷ check ∷ behind))

  at_offset :
      (check i : ℕ)
      → get_or (frame check) (data_offset n.fh_opcode + i) 0 ≡ get_or (data_part check) i 0
  at_offset check i =
      sym (get_or-drop (data_offset n.fh_opcode) i (frame check))
      ∙ ap (λ b. get_or b i 0) (drop-frame check)

  pub drop_offset :
      (check i : ℕ) → drop (data_offset n.fh_opcode + i) (frame check) ≡ drop i (data_part check)
  drop_offset check i =
      sym (drop-drop i (data_offset n.fh_opcode) (frame check)) ∙ ap (drop i) (drop-frame check)

  -- The fields that the data header fills in.
  abbrev pub with_checks : ℕ → Msg
  with_checks check =
      record (with_data_header (record n { final = frame check }) first seq (to_le 2 id)
        (to_le 2 len)) { dh_head_check = crc_fold 0 head; dh_check = check }

  module _ (check : ℕ) (m : Msg) (e : m.final ≡ frame check) (o : m.fh_opcode ≡ n.fh_opcode) where
    long : length m.final ≡ data_offset n.fh_opcode + 8 + length behind
    long = ap length e ∙ length-frame check

    byte_at :
        (i : ℕ)
        → i < 8
        → index m.final (data_offset m.fh_opcode + i) ≡ some (get_or (data_part check) i 0)
    byte_at i h =
        ap (λ (t : ℕ). index m.final (data_offset t + i)) o
        ∙ index_lem m.final (data_offset n.fh_opcode + i) (omega (arith, long))
        ∙ ap some (ap (λ b. get_or b (data_offset n.fh_opcode + i) 0) e ∙ at_offset check i)

    pair_at :
        (i : ℕ)
        → i ≤ 6
        → slice m.final (data_offset m.fh_opcode + i) (data_offset m.fh_opcode + (i + 2))
          ≡ some (take 2 (drop i (data_part check)))
    pair_at i h =
        let off : ℕ = data_offset n.fh_opcode in
        let two : off + (i + 2) - (off + i) ≡ 2 = omega arith in
        ap (λ (t : ℕ). slice m.final (data_offset t + i) (data_offset t + (i + 2))) o
        ∙ slice_lem m.final (off + i) (off + (i + 2)) (omega arith) (omega (arith, long))
        ∙ ap some (
            ap (λ (t : ℕ). take t (drop (off + i) m.final)) two
            ∙ ap (λ b. take 2 (drop (off + i) b)) e
            ∙ ap (take 2) (drop_offset check i))

    behind_at : (i : ℕ) → drop (data_offset m.fh_opcode + (8 + i)) m.final ≡ drop i behind
    behind_at i =
        (λ j. drop (data_offset (o j) + (8 + i)) (e j))
        ∙ drop_offset check (8 + i)
        ∙ ap (λ (t : ℕ). drop t (data_part check)) {x = 8 + i}
            {y = suc (suc (suc (suc (suc (suc (suc (suc i)))))))} (omega arith)

    head-crc : crc m.final (data_offset m.fh_opcode + 6) ≡ some (crc_fold 0 head)
    head-crc =
        (λ j. crc (e j) (data_offset (o j) + 6))
        ∙ ap (crc (frame check)) (sym length-head)
        ∙ crc-front head (crc_fold 0 head ∷ check ∷ behind)

    first_at : index m.final (data_offset m.fh_opcode) ≡ some first
    first_at =
        ap (index m.final) {x = data_offset m.fh_opcode} {y = data_offset m.fh_opcode + 0}
          (omega arith)
        ∙ byte_at 0 (omega arith)

    check_header_frame :
        check_header c m
        ≡ open_body c (record m { dh_head_check = crc_fold 0 head; dh_check = check })
    unfolding check_header
    check_header_frame =
        rw (byte_at 6 (omega arith), byte_at 7 (omega arith), head-crc, ==_refl (crc_fold 0 head))

    check_length_frame :
        m.dh_length ≡ len
        → check_length c m
          ≡ open_body c (record m { dh_head_check = crc_fold 0 head; dh_check = check })
    unfolding check_length
    check_length_frame l =
        let rest : length (drop (data_offset m.fh_opcode + 16) m.final) ≡ length behind - 8 =
          ap length (behind_at 8) ∙ length-drop 8 behind in
        let agrees : (m.dh_length == length (drop (data_offset m.fh_opcode + 16) m.final)) ≡ true =
          (==_iff _ _).1 (l ∙ len_is ∙ sym rest) in
        rw agrees check_header_frame

  -- Reading the data header of the frame comes down to reading its body.
  pub read_data_header-frame :
      (check : ℕ)
      → read_data_header c (record n { final = frame check }) ≡ open_body c (with_checks check)
  unfolding read_data_header
  read_data_header-frame check =
      let m : Msg = record n { final = frame check } in
      let read : Msg = with_data_header m first seq (to_le 2 id) (to_le 2 len) in
      rw
        (
          first_at check m refl refl,
          byte_at check m refl refl 1 (omega arith),
          pair_at check m refl refl 2 (omega arith),
          pair_at check m refl refl 4 (omega arith),
        )
        (check_length_frame check read refl refl (of_le-to_le 2 len len_fits))

  pub frame-BodyAt : (check : ℕ) → BodyAt (with_checks check) behind
  frame-BodyAt check =
      let off : ℕ = data_offset n.fh_opcode in
      let buf : Bytes = frame check in
      let eight : off + 16 - (off + 8) ≡ 8 = omega arith in
      let m : Msg = record n { final = buf } in
      record {
        behind_is = behind_at check m refl refl 0;
        session_is =
            slice_lem buf (off + 8) (off + 16) (omega arith) (omega (arith, length-frame check))
            ∙ ap some (
                ap (λ (t : ℕ). take t (drop (off + 8) buf)) eight
                ∙ ap (take 8) (behind_at check m refl refl 0));
        rest_is = behind_at check m refl refl 8;
      }
