-- ===== src/Msg/Encode/Unwritten.antt =====
-- Key level 2, for which `Msg2Binary` writes nothing, and what a call leaves behind.
use erina.Base.{
  ℕ, ◌≡◌, refl, [], true, false, arith, if◌then◌else◌, ap, ◌∙◌, length, Bool-cases, inl, inr,
}
use erina.Aes.{Cipher}
use erina.Msg.Types.{Msg, done, panic, and_then}
use erina.Msg.Mask.{toggle_mask, mask_ids}
use erina.Msg.Encode.{prepare, seal_body, msg2binary}

seal_body-unwritten : (c : Cipher) (m : Msg) → m.dh_key_level ≡ 2 → seal_body c m ≡ done m
unfolding seal_body
seal_body-unwritten c m e = ground arith

toggle_mask-empty : (m : Msg) → m.final ≡ [] → m.fh_mask ≡ true → toggle_mask m ≡ panic
unfolding toggle_mask mask_ids
toggle_mask-empty m e h = ground (arith, ap length e)

toggle_mask-clear : (m : Msg) → m.fh_mask ≡ false → toggle_mask m ≡ done m
unfolding toggle_mask
toggle_mask-clear m h = rw h

-- At key level 2 `Msg2Binary` panics for every masked message, and for every other message it
-- returns without an error and leaves an empty buffer.
pub msg2binary_level_two :
    (c : Cipher) (now : ℕ) (m : Msg)
    → m.dh_key_level ≡ 2
    → msg2binary c now m ≡ (if m.fh_mask then panic else done (prepare now m))
      × ((prepare now m).final ≡ [])
unfolding msg2binary prepare
msg2binary_level_two c now m e = (
  ap (λ r. and_then r toggle_mask) (seal_body-unwritten c (prepare now m) e)
      ∙ elim (Bool-cases m.fh_mask) [
        | inl h ↦ toggle_mask-empty (prepare now m) refl h ∙ rw h
        | inr h ↦ toggle_mask-clear (prepare now m) h ∙ rw h
      ],
  refl,
)
