-- ===== src/Msg/Encode/Sessionless.antt =====
-- A message without a session id is encoded as one whose session id is eight zeros.
use erina.Msg.Encode.{
  bytes_of, fit, prepare, seal, seal_random, seal_body, msg2binary, head_bytes, frame_bytes,
  guid_bytes, bytes_of, or_nil, sealed_len,
}
use erina.Msg.Key.{random_key_get}
use erina.Msg.RoundTrip.Dispatch.{seal_body-random}
use erina.Base.{
  sym, Bool, if◌then◌else◌, ◌++◌, Option-cases, ◌+◌, ℕ, ◌≡◌, refl, ap, ◌∙◌, Option, none, some, ◌∷◌,
  [], true, false, inl, inr,
}
use erina.Words.{Bytes, slice, fit}
use erina.Aes.{Cipher, encrypt}
use erina.Crc.{crc}
use erina.Crc.Detection.{crc_whole, crc_fold}
use erina.Msg.Types.{data_offset, Msg, Exit, done, failed, panic, ◌>>=◌, and_then}
use erina.Msg.Mask.{toggle_mask, mask_ids, mask_content, mask_end}

-- The message left, with another session id.
abbrev pub named : Option Bytes → Exit → Exit
named s (done m) = done (record m { dh_session_id = s })
named s (failed e m) = failed e (record m { dh_session_id = s })
named s panic = panic

module _ (s : Option Bytes) where
  abbrev pub w : Msg → Msg
  w m = record m { dh_session_id = s }

  named-and_then :
      (e : Exit) (f : Msg → Exit)
      → ((m : Msg) → named s (f m) ≡ f (w m))
      → named s (and_then e f) ≡ and_then (named s e) f
  named-and_then (done m) f h = h m
  named-and_then (failed e m) f h = refl
  named-and_then panic f h = refl

  named-bind :
      {A : Type 0} (o : Option A) (f g : A → Exit)
      → ((a : A) → named s (f a) ≡ g a)
      → named s (o >>= f) ≡ (o >>= g)
  named-bind none f g h = refl
  named-bind (some a) f g h = h a

  -- The end of `seal`.
  abbrev stamped : Msg → Bytes → ℕ → Bytes → ℕ → ℕ → Exit
  stamped m head len behind check head_check = done (record m {
    dh_length = len;
    dh_head_check = head_check;
    dh_check = check;
    final = head ++ (head_check ∷ check ∷ behind);
  })

  seal-named :
      (m : Msg) (guid : Bytes) (len : ℕ) (behind : Bytes)
      → named s (seal m guid len behind) ≡ seal (w m) guid len behind
  unfolding seal head_bytes frame_bytes guid_bytes
  seal-named m guid len behind = rw (crc_whole m.datacrc) (
      named-bind (crc (head_bytes m guid len) (data_offset m.fh_opcode + 6))
        (stamped m (head_bytes m guid len) len behind (crc_fold 0 m.datacrc))
        (stamped (w m) (head_bytes m guid len) len behind (crc_fold 0 m.datacrc)) λ h. refl)

  mask_ids-named : (m : Msg) → named s (mask_ids m) ≡ mask_ids (w m)
  unfolding mask_ids
  mask_ids-named m = elim (Option-cases (slice m.final 8 (mask_end m.fh_opcode))) [
    | inl e ↦ rw e refl
    | inr (payload, e) ↦ elim (Option-cases (slice m.final 4 8)) [
      | inl f ↦ rw (e, f) refl
      | inr (mask, f) ↦ elim (Option-cases (mask_content payload mask)) [
        | inl g ↦ rw (e, f) (rw g refl)
        | inr (masked, g) ↦ rw (e, f) (rw g refl)
      ]
    ]
  ]

  toggled :
      (b : Bool) (x y : Exit) (m : Msg)
      → named s x ≡ y
      → named s (if b then x else done m) ≡ (if b then y else done (w m))
  toggled true x y m h = h
  toggled false x y m h = refl

  toggle_mask-named : (m : Msg) → named s (toggle_mask m) ≡ toggle_mask (w m)
  unfolding toggle_mask
  toggle_mask-named m = toggled m.fh_mask (mask_ids m) (mask_ids (w m)) m (mask_ids-named m)

-- At key level 1, eight bytes of a session id are as good as those that `copy` leaves for nil.
pub msg2binary-sessionless :
    (c : Cipher) (now : ℕ) (m : Msg) (sid : Bytes)
    → m.dh_key_level ≡ 1
    → fit 8 sid ≡ fit 8 (bytes_of m.dh_session_id)
    → named (some sid) (msg2binary c now m)
      ≡ msg2binary c now (record m { dh_session_id = some sid })
unfolding msg2binary prepare seal_random
msg2binary-sessionless c now m sid level same =
    let p = prepare now m in
    let crc_same : p.datacrc ≡ (prepare now (w (some sid) m)).datacrc =
      ap (λ front. m.datacrc ++ (front ++ m.text)) (sym same) in
    let key = random_key_get p.fh_sequence p.fh_src_id p.fh_time in
    let sealed = or_nil (encrypt c p.datacrc key) in
    named-and_then (some sid) (seal_body c p) toggle_mask (toggle_mask-named (some sid))
    ∙ ap (λ e. and_then e toggle_mask)
        (ap (named (some sid)) (seal_body-random c p level)
          ∙ seal-named (some sid) (record p { rk = some key }) [] (sealed_len sealed) sealed
          ∙ ap (λ x. seal_random c (record p { dh_session_id = some sid; datacrc = x })) crc_same
          ∙ sym (seal_body-random c (prepare now (w (some sid) m)) level))
