-- ===== src/Msg/Mask/Buffer.antt =====
-- What masking does to the buffer of a frame.
use erina.Base.{
  true, false, Bool, subst, ℕ, ◌+◌, ◌-◌, ◌%◌, ◌≤◌, ◌≡◌, refl, sym, ap, ◌∙◌, arith, ◌++◌,
  if◌then◌else◌, length, take, drop, get_or, ◌⊎◌, length-append, length-take, length-drop,
  take-append, drop-append, take-append_le, drop-append_le, take-append-drop, drop-drop,
}
use erina.Words.Laws.{slice_lem}
use erina.Words.{Bytes}
use erina.Msg.Types.{Msg, done}
use erina.Msg.Mask.{mask_ids, toggle_mask, mask_end}
use erina.Msg.Mask.Involution.{masked_by, mask_content-masked_by, length-masked_by, masked_by_twice}

abbrev pub mask_key : Bytes → Bytes
mask_key buf = take 4 (drop 4 buf)

abbrev pub masked_part : Bytes → Bytes → Bytes
masked_part key payload = masked_by (length payload % 65536) 0 (get_or key 0 0) key payload

-- The bytes from 8 up to `hi` masked by bytes 4 to 7.
abbrev pub mask_bytes : ℕ → Bytes → Bytes
mask_bytes hi buf =
    take 8 buf ++ (masked_part (mask_key buf) (take (hi - 8) (drop 8 buf)) ++ drop hi buf)

-- The buffer that `toggle_mask` leaves.
abbrev pub toggled_by : Bool → ℕ → Bytes → Bytes
toggled_by mask op buf = if mask then mask_bytes (mask_end op) buf else buf

abbrev pub toggled : Msg → Bytes
toggled m = toggled_by m.fh_mask m.fh_opcode m.final

module _ (front part rest : Bytes) (front_len : length front ≡ 8) where
  mask_bytes_split :
      (hi : ℕ)
      → hi ≡ 8 + length part
      → mask_bytes hi (front ++ (part ++ rest))
        ≡ front ++ (masked_part (take 4 (drop 4 front)) part ++ rest)
  mask_bytes_split hi h =
      let n : hi - 8 ≡ length part = omega arith in
      let behind : drop hi (front ++ (part ++ rest)) ≡ rest = rw h (
        sym (drop-drop (length part) 8 (front ++ (part ++ rest)))
        ∙ ap (drop (length part)) (drop-append 8 front (part ++ rest) front_len)
        ∙ drop-append (length part) part rest refl) in
      rw (
        take-append 8 front (part ++ rest) front_len,
        drop-append_le 4 front (part ++ rest) (omega arith),
        take-append_le 4 (drop 4 front) (part ++ rest) (omega (arith, length-drop 4 front)),
        drop-append 8 front (part ++ rest) front_len,
        n,
        take-append (length part) part rest refl,
        behind,
      )

mask_bytes_split_twice :
    (front part rest : Bytes) (hi : ℕ)
    → length front ≡ 8
    → hi ≡ 8 + length part
    → mask_bytes hi (mask_bytes hi (front ++ (part ++ rest))) ≡ front ++ (part ++ rest)
mask_bytes_split_twice front part rest hi front_len h =
    let key : Bytes = take 4 (drop 4 front) in
    let n : ℕ = length part % 65536 in
    let once : Bytes = masked_part key part in
    let len : length once ≡ length part = length-masked_by n 0 (get_or key 0 0) key part in
    let back : masked_part key once ≡ part =
      rw len (masked_by_twice n 0 (get_or key 0 0) key part) in
    ap (mask_bytes hi) (mask_bytes_split front part rest front_len hi h)
    ∙ mask_bytes_split front once rest front_len hi (omega arith)
    ∙ ap (λ t. front ++ (t ++ rest)) back

module _ (buf : Bytes) (hi : ℕ) (lo : 8 ≤ hi) (len : hi ≤ length buf) where
  abbrev front_of : Bytes
  front_of = take 8 buf

  abbrev part_of : Bytes
  part_of = take (hi - 8) (drop 8 buf)

  split_front : length front_of ≡ 8
  split_front = omega (arith, length-take 8 buf)

  split_part : hi ≡ 8 + length part_of
  split_part = omega (arith, length-take (hi - 8) (drop 8 buf), length-drop 8 buf)

  split_whole : front_of ++ (part_of ++ drop hi buf) ≡ buf
  split_whole =
      let e : 8 + (hi - 8) ≡ hi = omega arith in
      ap (λ t. front_of ++ (part_of ++ t))
        (ap (λ (t : ℕ). drop t buf) (sym e) ∙ sym (drop-drop (hi - 8) 8 buf))
      ∙ ap (λ t. front_of ++ t) (take-append-drop (hi - 8) (drop 8 buf))
      ∙ take-append-drop 8 buf

  -- Masking twice restores the buffer.
  pub mask_bytes_twice : mask_bytes hi (mask_bytes hi buf) ≡ buf
  mask_bytes_twice =
      subst (λ t. mask_bytes hi (mask_bytes hi t) ≡ t) split_whole
        (mask_bytes_split_twice front_of part_of (drop hi buf) hi split_front split_part)

  pub length-mask_bytes : length (mask_bytes hi buf) ≡ length buf
  length-mask_bytes = omega (
    arith,
    length-append (take 8 buf) (masked_part (mask_key buf) part_of ++ drop hi buf),
    length-append (masked_part (mask_key buf) part_of) (drop hi buf),
    length-masked_by (length part_of % 65536) 0 (get_or (mask_key buf) 0 0) (mask_key buf) part_of,
    length-drop hi buf,
    split_front,
    split_part,
  )

  pub take-mask_bytes : take 8 (mask_bytes hi buf) ≡ take 8 buf
  take-mask_bytes = take-append 8 (take 8 buf) _ split_front

pub mask_end_cases : (op : ℕ) → (mask_end op ≡ 40) ⊎ (mask_end op ≡ 32)
mask_end_cases op = ground arith

mask_ids_lem :
    (m : Msg)
    → mask_end m.fh_opcode ≤ length m.final
    → mask_ids m ≡ done (record m { final = mask_bytes (mask_end m.fh_opcode) m.final })
unfolding mask_ids
mask_ids_lem m h =
    let lo : 8 ≤ mask_end m.fh_opcode = omega (arith, mask_end_cases m.fh_opcode) in
    let key : length (mask_key m.final) ≡ 4 =
      omega (arith, length-take 4 (drop 4 m.final), length-drop 4 m.final) in
    rw (
      slice_lem m.final 8 (mask_end m.fh_opcode) lo h,
      slice_lem m.final 4 8 (omega arith) (omega arith),
      mask_content-masked_by (take (mask_end m.fh_opcode - 8) (drop 8 m.final)) (mask_key m.final)
          key,
    )

-- On a frame long enough, masking succeeds and changes the buffer alone.
pub toggle_mask_lem :
    (m : Msg)
    → mask_end m.fh_opcode ≤ length m.final
    → toggle_mask m ≡ done (record m { final = toggled m })
unfolding toggle_mask
toggle_mask_lem m h = ground (arith, mask_ids_lem m h)

mask_end_above : (op : ℕ) → 8 ≤ mask_end op
mask_end_above op = omega (arith, mask_end_cases op)

-- Masking twice restores the buffer, whether there is a mask or not.
pub toggled_by_twice :
    (mask : Bool) (op : ℕ) (buf : Bytes)
    → mask_end op ≤ length buf
    → toggled_by mask op (toggled_by mask op buf) ≡ buf
toggled_by_twice true op buf h = mask_bytes_twice buf (mask_end op) (mask_end_above op) h
toggled_by_twice false op buf h = refl

pub length-toggled_by :
    (mask : Bool) (op : ℕ) (buf : Bytes)
    → mask_end op ≤ length buf
    → length (toggled_by mask op buf) ≡ length buf
length-toggled_by true op buf h = length-mask_bytes buf (mask_end op) (mask_end_above op) h
length-toggled_by false op buf h = refl

-- The first eight bytes stay readable.
pub take-toggled_by :
    (mask : Bool) (op : ℕ) (buf : Bytes)
    → mask_end op ≤ length buf
    → take 8 (toggled_by mask op buf) ≡ take 8 buf
take-toggled_by true op buf h = take-mask_bytes buf (mask_end op) (mask_end_above op) h
take-toggled_by false op buf h = refl
