-- ===== src/Msg/Decode/Restore.antt =====
-- The three decoders as wholes: no input makes them panic, and the buffer is left as it was.
use erina.Msg.Decode.Safety.{
  Keeps-refl, read_guid-Reaches, read_msg_id-Leaves, Leaves, Reaches, LongEnough, SecretFits, Keeps,
  and_then-Leaves, read_front-Reaches, read_data_header-Leaves, window_guid-Reaches,
  read_ids-Reaches, Leaves-mono, Keeps-trans,
}
use erina.Msg.Mask.Buffer.{
  toggled_by_twice, length-toggled_by, toggled_by, toggled, toggle_mask_lem,
}
use erina.Msg.Decode.{
  read_front, read_ids, window_guid, rewindow, read_data_header, read_guid, read_msg_id,
  frame_header, header, binary2msg,
}
use erina.Base.{
  subst, ◌≤◌, ◌≡◌, refl, sym, ap, ◌∙◌, arith, if◌then◌else◌, ◌==◌, length, Bool-cases, inl, inr,
}
use erina.Msg.Types.{Msg, Exit, done, failed, panic, and_then}
use erina.Msg.Mask.{toggle_mask, deferred, mask_end}
use erina.Aes.{Cipher}

module _ (m : Msg) (h : LongEnough m) where
  -- The message that the decoder works on: the mask is off.
  abbrev pub unmasked : Msg
  unmasked = record m { final = toggled m }

  mask_end_fits : mask_end m.fh_opcode ≤ length m.final
  mask_end_fits = ground arith

  pub length-toggled : length (toggled m) ≡ length m.final
  length-toggled = length-toggled_by m.fh_mask m.fh_opcode m.final mask_end_fits

  -- What kept the buffer, the opcode and the flag is masked back to the first buffer.
  toggled_back : (m' : Msg) → Keeps unmasked m' → toggled m' ≡ m.final
  toggled_back m' k =
      (λ i. toggled_by (k.mask_kept i) (k.opcode_kept i) (k.final_kept i))
      ∙ toggled_by_twice m.fh_mask m.fh_opcode m.final mask_end_fits

  abbrev pub Restored : Msg → Type 0
  Restored m' = (m'.final ≡ m.final) × (m'.fh_opcode ≡ m.fh_opcode)

  toggle_mask-back :
      (m' : Msg) → Keeps unmasked m' → toggle_mask m' ≡ done (record m' { final = m.final })
  toggle_mask-back m' k =
      toggle_mask_lem m' (ground (arith, length-toggled, ap length k.final_kept))
      ∙ ap (λ b. done (record m' { final = b })) (toggled_back m' k)

  deferred-Restored : (x : Exit) → Leaves (Keeps unmasked) x → Leaves Restored (deferred x)
  unfolding deferred
  deferred-Restored (done m') k = rw (toggle_mask-back m' k) (refl, k.opcode_kept)
  deferred-Restored (failed e m') k = rw (toggle_mask-back m' k, Leaves) (refl, k.opcode_kept)
  deferred-Restored panic k = k

  -- A body that keeps what it was given, between the two maskings.
  pub masked_run-Restored :
      (f : Msg → Exit)
      → Leaves (Keeps unmasked) (f unmasked)
      → Leaves Restored (deferred (and_then (toggle_mask m) f))
  masked_run-Restored f k = rw (toggle_mask_lem m mask_end_fits) (deferred-Restored (f unmasked) k)

front_then :
    (m : Msg) (f : Msg → Exit)
    → ((m' : Msg) → LongEnough m' → m'.mz ≡ m.mz → Leaves (λ n. n.final ≡ m'.final) (f m'))
    → Leaves (λ n. n.final ≡ m.final) (and_then (read_front m) f)
front_then m f k =
    and_then-Leaves (λ n. n.final ≡ m.final) _ (read_front m) f (read_front-Reaches m)
      (λ m' (e, h, z). Leaves-mono _ _ (f m') (λ n p. p ∙ e) (k m' h z))

Keeps-LongEnough : (m m' : Msg) → LongEnough m → Keeps m m' → LongEnough m'
Keeps-LongEnough m m' h k = ground (arith, ap length k.final_kept)

Keeps-SecretFits : (m m' : Msg) → SecretFits m → Keeps m m' → SecretFits m'
Keeps-SecretFits m m' fits k z e = fits z (sym k.mz_kept ∙ e)

-- The steps of `Binary2Msg` between the maskings.
body-Keeps :
    (c : Cipher) (m : Msg)
    → LongEnough m
    → SecretFits m
    → Leaves (Keeps m) (and_then (read_ids m) λ m. and_then (window_guid m) (read_data_header c))
body-Keeps c m h fits =
    and_then-Leaves (Keeps m) (Keeps m) (read_ids m) _ (read_ids-Reaches m (ground arith)) λ n kn.
      let hn : LongEnough n = Keeps-LongEnough m n h kn in
      Leaves-mono (Keeps n) (Keeps m) _ (λ o ko. Keeps-trans m n o kn ko)
        (and_then-Leaves (Keeps n) (Keeps n) (window_guid n) _ (window_guid-Reaches n hn) λ o ko.
          Leaves-mono (Keeps o) (Keeps n) _ (λ p kp. Keeps-trans n o p ko kp)
            (read_data_header-Leaves c o (Keeps-LongEnough n o hn ko)
              (Keeps-SecretFits n o (Keeps-SecretFits m n fits kn) ko)))

rewindow-Restored :
    (m : Msg) (h : LongEnough m) (x : Exit)
    → Leaves (Restored m h) x
    → Leaves (λ n. n.final ≡ m.final) (rewindow x)
rewindow-Restored m h (done n) (e, o) = ground (arith, ap length e)
rewindow-Restored m h (failed x n) (e, o) = ground (arith, ap length e)
rewindow-Restored m h panic k = k

unmasked-LongEnough : (m : Msg) (h : LongEnough m) → LongEnough (unmasked m h)
unmasked-LongEnough m h = omega (arith, length-toggled m h)

-- For every buffer and every earlier content of the message, where a device secret, if there is
-- one, has at least 16 bytes: `Binary2Msg` does not panic, and the buffer it leaves, with an error
-- or without, is the one it was given.
pub binary2msg-final :
    (c : Cipher) (m : Msg) → SecretFits m → Leaves (λ n. n.final ≡ m.final) (binary2msg c m)
unfolding binary2msg
binary2msg-final c m fits = front_then m _ λ n h z. rewindow-Restored n h _ (
    masked_run-Restored n h _
      (body-Keeps c (unmasked n h) (unmasked-LongEnough n h) λ k e. fits k (sym z ∙ e)))

ids_fit : (m : Msg) (h : LongEnough m) → 24 ≤ length (toggled m)
ids_fit m h = rw (length-toggled m h) (ground arith)

-- The guid is read for opcode 3 only.
guid-Keeps :
    (c : Cipher) (m : Msg)
    → LongEnough m
    → SecretFits m
    → Reaches (Keeps m) (Keeps m) (if m.fh_opcode == 3 then read_guid c m else done m)
guid-Keeps c m h fits = elim (Bool-cases (m.fh_opcode == 3)) [
  | inl three ↦
      let long : 56 ≤ length m.final = ground arith in
      subst (λ b. Reaches (Keeps m) (Keeps m) (if b then read_guid c m else done m)) (sym three)
        (read_guid-Reaches c m long fits)
  | inr other ↦
      subst (λ b. Reaches (Keeps m) (Keeps m) (if b then read_guid c m else done m)) (sym other)
        (Keeps-refl m)
]

header-Keeps :
    (c : Cipher) (m : Msg)
    → LongEnough m
    → SecretFits m
    → Leaves (Keeps m) (
        and_then
          (read_ids m)
          λ m. and_then (if m.fh_opcode == 3 then read_guid c m else done m) read_msg_id)
header-Keeps c m h fits =
    and_then-Leaves (Keeps m) (Keeps m) (read_ids m) _ (read_ids-Reaches m (ground arith)) λ n kn.
      let hn : LongEnough n = Keeps-LongEnough m n h kn in
      Leaves-mono (Keeps n) (Keeps m) _ (λ o ko. Keeps-trans m n o kn ko)
        (and_then-Leaves (Keeps n) (Keeps n) (if n.fh_opcode == 3 then read_guid c n else done n) _
          (guid-Keeps c n hn (Keeps-SecretFits m n fits kn))
          λ o ko.
            Leaves-mono (Keeps o) (Keeps n) _ (λ p kp. Keeps-trans n o p ko kp)
              (read_msg_id-Leaves o (Keeps-LongEnough n o hn ko)))

Reaches-Leaves : (P : Msg → Type 0) (x : Exit) → Reaches P P x → Leaves P x
Reaches-Leaves P (done m) h = h
Reaches-Leaves P (failed e m) h = h
Reaches-Leaves P panic h = h

buffer_Restored :
    (m : Msg) (h : LongEnough m) (x : Exit)
    → Leaves (Restored m h) x
    → Leaves (λ n. n.final ≡ m.final) x
buffer_Restored m h (done n) (e, o) = e
buffer_Restored m h (failed x n) (e, o) = e
buffer_Restored m h panic k = k

-- For every buffer and every earlier content of the message, where a device secret, if there is
-- one, has at least 16 bytes: `Header` does not panic, and the buffer it leaves, with an error or
-- without, is the one it was given.
pub header-final :
    (c : Cipher) (m : Msg) → SecretFits m → Leaves (λ n. n.final ≡ m.final) (header c m)
unfolding header
header-final c m fits = front_then m _ λ n h z. buffer_Restored n h _ (
    masked_run-Restored n h _
      (header-Keeps c (unmasked n h) (unmasked-LongEnough n h) λ k e. fits k (sym z ∙ e)))

-- `FrameHeader` never panics, and the buffer it leaves is the one it was given.
pub frame_header-final : (m : Msg) → Leaves (λ n. n.final ≡ m.final) (frame_header m)
unfolding frame_header
frame_header-final m = front_then m _ λ n h z. buffer_Restored n h _ (
    masked_run-Restored n h read_ids (
      Reaches-Leaves (Keeps (unmasked n h)) (read_ids (unmasked n h))
        (read_ids-Reaches (unmasked n h) (ids_fit n h))))
